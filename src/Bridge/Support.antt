-- ===== src/Bridge/Support.antt =====
-- What the helper's status of snu/bridge.rs says of its gates, in every state, and what that means
-- for a request that was preflighted.
use snow_cli.Base.{
  arith, ◌&&◌, Bool, ℕ, Option, ◌++◌, ◌∷◌, [], ◌==◌, false, true, none, some, ◌≡◌, refl, sym, subst,
  ◌⊎◌, inl, inr,
}
use snow_cli.Json.{Value}
use snow_cli.Origin.{UrlCrate}
use snow_cli.Gates.{
  OriginKey, GateSnapshot, HelperStatus, HelperSecurityGateSupport, Snapshots, apply_all,
  apply_gate_snapshot, with_support, gated, unknown, legacy_unrestricted, advertises_instance_gates,
}
use snow_cli.Gates.Preflight.{settle_legacy, settle_gated}
use snow_cli.Bridge.Messages.{SnuMessage, RequestError}
use snow_cli.Bridge.State.{
  Inner, Task, Request, payload, resetting, showing, detaching, capturing, forwarding, requesting,
  bannering, probing, settling_legacy, settling_gated, send_frame, push_waiter,
  fail_waiters_for_generation,
}
use snow_cli.Bridge.Steps.{
  Readers, System, Step, run, cut_off, accept, begin, give_up, reply_ping, bind, Reach, here, next,
  run_task, capture_helper_metadata, with_build, same_support, is_met,
}
use snow_cli.Bridge.Cases.{
  request_cases, banner_cases, send_banner_cases, forward_cases, detach_cases, probe_cases,
  capture_cases,
}

-- A helper that is taken for a legacy one has not said that it has gates.
abbrev pub IsSound : HelperStatus → Type 0
IsSound status =
    status.security_gate_support ≡ legacy_unrestricted → advertises_instance_gates status ≡ false

settle_legacy-IsSound :
    (before status : HelperStatus)
    → IsSound status
    → IsSound (settle_legacy {E = RequestError} before status).1
unfolding settle_legacy advertises_instance_gates
settle_legacy-IsSound before status h k = ground arith

apply_all-support :
    (entries : Snapshots) (status : HelperStatus)
    → ((apply_all entries status).security_gate_support ≡ status.security_gate_support)
      × ((apply_all entries status).instance_security_gates ≡ status.instance_security_gates)
unfolding apply_gate_snapshot
apply_all-support [] status = (refl, refl)
apply_all-support (entry ∷ entries) status =
    apply_all-support entries (apply_gate_snapshot entry.0 entry.1 status)

apply_gate_snapshot-IsSound :
    (origin : OriginKey) (snapshot : GateSnapshot) (status : HelperStatus)
    → IsSound status
    → IsSound (apply_gate_snapshot origin snapshot status)
unfolding apply_gate_snapshot advertises_instance_gates
apply_gate_snapshot-IsSound origin snapshot status h = h

settle_gated-IsSound :
    (before : HelperStatus) (snapshots : Snapshots) (status : HelperStatus)
    → IsSound status
    → IsSound (settle_gated {E = RequestError} before snapshots status).1
unfolding settle_gated
settle_gated-IsSound before snapshots status h k =
    ground (arith, apply_all-support snapshots (with_support gated status))

with_build-IsSound :
    (capability : Option ℕ) (status : HelperStatus)
    → IsSound status
    → IsSound (with_build capability status)
unfolding advertises_instance_gates
with_build-IsSound none status h k = ground arith
with_build-IsSound (some n) status h k = ground arith

legacy_lem :
    (support : HelperSecurityGateSupport)
    → same_support support legacy_unrestricted ≡ true
    → support ≡ legacy_unrestricted
legacy_lem legacy_unrestricted h = refl
legacy_lem unknown h = absurd (ground arith)
legacy_lem gated h = absurd (ground arith)

module _ {N : Type 0} where
  -- What a request for a legacy helper of the generation has sent.
  abbrev pub IsSentTo : ℕ → Value N → Inner N → Inner N → Type 0
  IsSentTo g body inner out =
      (out.outbound ≡ inner.outbound)
      ⊎ ((out.outbound ≡ inner.outbound ++ (g, payload body) ∷ [])
          × (inner.conn ≡ some g)
          × (inner.status.generation ≡ g)
          × (inner.status.security_gate_support ≡ legacy_unrestricted)
          × (advertises_instance_gates inner.status ≡ false))

module _ {N U : Type 0} (crate : UrlCrate U) (readers : Readers N) where
  capture-IsSound :
      (message : SnuMessage N) (generation : ℕ) (status : HelperStatus)
      → IsSound status
      → IsSound (capture_helper_metadata crate readers message generation status)
  capture-IsSound message generation status h =
      capture_cases crate readers IsSound status h
        (λ capability. with_build-IsSound capability status h)
        (λ origin snapshot. apply_gate_snapshot-IsSound origin snapshot status h) message generation

  run_task-IsSound :
      (task : Task N) (inner : Inner N)
      → IsSound inner.status
      → IsSound (run_task crate readers task inner).0.status
  unfolding run_task send_frame push_waiter fail_waiters_for_generation
  run_task-IsSound (resetting generation) inner h = λ k. absurd (ground arith)
  run_task-IsSound (showing generation) inner h =
      banner_cases (λ out. IsSound out.status) inner generation inner.pending_banner h (λ _. h)
  run_task-IsSound (detaching runner generation) inner h =
      detach_cases (λ out. IsSound out.0.status) inner runner generation inner.conn h (λ _. h)
  run_task-IsSound (probing stale) inner h =
      probe_cases (λ out. IsSound out.0.status) inner stale inner.conn h (λ _. (h, h))
  run_task-IsSound (forwarding message generation) inner h =
      forward_cases (λ out. IsSound out.status) inner message h (λ _. h)
  run_task-IsSound (bannering message) inner h =
      send_banner_cases (λ out. IsSound out.status) inner message inner.conn h (λ _. h)
  run_task-IsSound (requesting request writer_lives) inner h =
      request_cases (λ out. IsSound out.status) inner request writer_lives inner.conn h
        (λ _ _ _ _. (h, h))
  run_task-IsSound (capturing message generation) inner h =
      capture-IsSound message generation inner.status h
  run_task-IsSound (settling_legacy before) inner h = settle_legacy-IsSound before inner.status h
  run_task-IsSound (settling_gated before snapshots) inner h =
      settle_gated-IsSound before snapshots inner.status h
  run_task-IsSound _ inner h = h

  Step-IsSound :
      {s t : System N} → Step crate readers s t → IsSound s.inner.status → IsSound t.inner.status
  unfolding send_frame
  Step-IsSound {s} {t} (run before after task split same) h =
      subst (λ (u : System N). IsSound u.inner.status) (sym same) (run_task-IsSound task s.inner h)
  Step-IsSound (cut_off before after task ends split same) h =
      subst (λ (u : System N). IsSound u.inner.status) (sym same) h
  Step-IsSound (accept idle same) h = subst (λ (u : System N). IsSound u.inner.status) (sym same) h
  Step-IsSound (begin task begins same) h =
      subst (λ (u : System N). IsSound u.inner.status) (sym same) h
  Step-IsSound (give_up channel same) h =
      subst (λ (u : System N). IsSound u.inner.status) (sym same) h
  Step-IsSound (reply_ping generation same) h =
      subst (λ (u : System N). IsSound u.inner.status) (sym same) h
  Step-IsSound (bind bound same) h = subst (λ (u : System N). IsSound u.inner.status) (sym same) h

  pub Reach-IsSound : {s : System N} → Reach crate readers s → IsSound s.inner.status
  Reach-IsSound here = λ k. absurd (ground arith)
  Reach-IsSound (next reached step) = Step-IsSound step (Reach-IsSound reached)

  -- In every state that the program reaches, a request that is bound to a generation and to a legacy
  -- helper either sends nothing, or sends its payload on the connection of that generation while the
  -- helper's status is of that generation, is that of a legacy helper, and has no gates advertised.
  pub requesting-IsSentTo :
      {s : System N} (request : Request N) (writer_lives : Bool) (g : ℕ)
      → Reach crate readers s
      → request.expected_generation ≡ some g
      → request.expected_support ≡ some legacy_unrestricted
      → IsSentTo g request.body s.inner
          (run_task crate readers (requesting request writer_lives) s.inner).0
  unfolding run_task send_frame push_waiter
  requesting-IsSentTo {s} request writer_lives g reached expects supports =
      request_cases (IsSentTo g request.body s.inner) s.inner request writer_lives s.inner.conn
        (inl refl)
        (λ generation present fits supported.
          let met =
            subst (λ o. is_met (λ expected. expected == generation) o ≡ true) expects fits in
          let met_support =
            subst
              (λ o.
                is_met
                  (λ expected.
                    (s.inner.status.generation == generation)
                    && same_support s.inner.status.security_gate_support expected)
                  o
                ≡ true)
              supports supported in
          let same : g ≡ generation = ground arith in
          let of_helper : s.inner.status.generation ≡ generation = ground arith in
          let legacy = legacy_lem s.inner.status.security_gate_support (ground arith) in
          (
            inr (
              rw same refl,
              rw same present,
              rw same of_helper,
              legacy,
              Reach-IsSound reached legacy,
            ),
            inl refl,
          ))
