-- ===== src/Gates/Decisions.antt =====
-- What `negotiate_capabilities` and `preflight` of snu/bridge.rs decide.
use snow_cli.Base.{
  sym, ap, inr, ltb, Result, Option, Bool-cases, unwrap_or, inl, ◌⊎◌, ◌∙◌, err, none, some, arith,
  [], ◌<◌, refl, ◌∷◌, false, ok, ◌≡◌,
}
use snow_cli.Json.{Value}
use snow_cli.Origin.{UrlCrate}
use snow_cli.Gates.{
  mode_of, get_snapshot, GateSnapshot, with_gates, payload_origin, gated, OriginKey, with_support,
  gate_for_payload, advertises_instance_gates, apply_gate_snapshot, GateName, HelperStatus,
  Snapshots, apply_all,
}
use snow_cli.Gates.Preflight.{
  decision_of, legacy_unrestricted_decision, BridgeError, not_gated, preflight, decide,
  PreflightResult, Report, CapabilityNegotiation, Reply, reported, unreadable, timed_out, paused,
  failed, legacy, gated_by, negotiate_capabilities, IsNegotiated, settle_legacy, settle_gated,
}

apply_all-generation :
    (entries : Snapshots) (status : HelperStatus)
    → (apply_all entries status).generation ≡ status.generation
unfolding apply_gate_snapshot
apply_all-generation [] status = refl
apply_all-generation (entry ∷ entries) status =
    apply_all-generation entries (apply_gate_snapshot entry.0 entry.1 status)

module _ {E : Type 0} where
  settle_legacy_lem :
      (before status : HelperStatus) (reply : Reply E) (negotiated : CapabilityNegotiation)
      → (settle_legacy {E = E} before status).0 ≡ ok negotiated
      → advertises_instance_gates before ≡ false
      → IsNegotiated before status reply negotiated
  unfolding settle_legacy
  settle_legacy_lem before status reply (legacy generation) h quiet = ground arith
  settle_legacy_lem before status reply (gated_by negotiated) h quiet = absurd (ground arith)

  settle_gated_lem :
      (before status : HelperStatus) (report : Report) (negotiated : CapabilityNegotiation)
      → (settle_gated {E = E} before report.reported_snapshots status).0 ≡ ok negotiated
      → 0 < unwrap_or report.reported_gates 0
      → IsNegotiated {E = E} before status (reported report) negotiated
  unfolding settle_gated
  settle_gated_lem before status report (legacy generation) h shown = absurd (ground arith)
  settle_gated_lem before status report (gated_by negotiated) h shown =
      let refreshed = apply_all report.reported_snapshots (with_support gated status) in
      let same_generation : status.generation ≡ before.generation = ground arith in
      let same : with_gates report.reported_snapshots refreshed ≡ negotiated = ground arith in
      (
        ap (λ s. s.generation) (sym same)
            ∙ (apply_all-generation report.reported_snapshots (with_support gated status)
                ∙ same_generation),
        same_generation,
        (report, refl, shown, ap (λ s. s.instance_gates) (sym same)),
      )

  negotiate-IsNegotiated :
      (before after status : HelperStatus) (reply : Reply E) (negotiated : CapabilityNegotiation)
      → (negotiate_capabilities before after status reply).0 ≡ ok negotiated
      → IsNegotiated before status reply negotiated
  unfolding negotiate_capabilities
  negotiate-IsNegotiated before after status timed_out negotiated h =
      let quiet : advertises_instance_gates before ≡ false = ground arith in
      let settled : (settle_legacy {E = E} before status).0 ≡ ok negotiated = ground arith in
      settle_legacy_lem before status timed_out negotiated settled quiet
  negotiate-IsNegotiated before after status paused negotiated h = absurd (ground arith)
  negotiate-IsNegotiated before after status (failed e) negotiated h = absurd (ground arith)
  negotiate-IsNegotiated before after status unreadable negotiated h = absurd (ground arith)
  negotiate-IsNegotiated before after status (reported report) negotiated h =
      elim (Bool-cases (ltb 0 (unwrap_or report.reported_gates 0))) [
        | inl shown ↦
            let settled : (settle_gated {E = E} before report.reported_snapshots status).0
                ≡ ok negotiated =
              ground arith in
            settle_gated_lem before status report negotiated settled (ground arith)
        | inr hidden ↦
            let quiet : advertises_instance_gates before ≡ false = ground arith in
            let settled : (settle_legacy {E = E} before status).0 ≡ ok negotiated = ground arith in
            settle_legacy_lem before status (reported report) negotiated settled quiet
      ]

-- Why a decision was made: the action has no gate; the helper is a legacy one, which has not said that
-- it has gates; or the reply of this very negotiation has a snapshot for the action's origin, and the
-- decision is that of its mode for the action's gate.
abbrev pub IsJustified :
    {E N U : Type 0}
    → UrlCrate U
    → Value N
    → (before status : HelperStatus) → Reply E
    → PreflightResult
    → Type 0
IsJustified crate payload before status reply result =
    ((gate_for_payload payload ≡ none) × (result.decision ≡ not_gated))
    ⊎ (((gate : GateName) × (gate_for_payload payload ≡ some gate))
        × (result.decision ≡ legacy_unrestricted_decision)
        × (result.result_generation ≡ some before.generation)
        × (status.generation ≡ before.generation)
        × (advertises_instance_gates before ≡ false)
        × (advertises_instance_gates status ≡ false))
    ⊎ ((gate : GateName) × (origin : OriginKey) × (report : Report) × (snapshot : GateSnapshot)
        × (gate_for_payload payload ≡ some gate)
        × (payload_origin crate payload ≡ some origin)
        × (reply ≡ reported report)
        × (get_snapshot origin report.reported_snapshots ≡ some snapshot)
        × (result.decision ≡ decision_of (mode_of snapshot.gates gate))
        × (result.result_generation ≡ some before.generation))

module _ {E N U : Type 0} (crate : UrlCrate U) (payload : Value N) where
  decide-IsJustified :
      (before status : HelperStatus) (reply : Reply E) (negotiated : CapabilityNegotiation)
      (gate : GateName) (origin : Option OriginKey) (result : PreflightResult)
      → gate_for_payload payload ≡ some gate
      → payload_origin crate payload ≡ origin
      → IsNegotiated before status reply negotiated
      → decide {E = E} gate origin negotiated ≡ ok result
      → IsJustified crate payload before status reply result
  unfolding decide
  decide-IsJustified before status reply (legacy generation) gate origin result named at rests h =
      let (same, still, quiet, silent, _) = rests in
      inr (inl ((gate, named), ground arith, ground arith, still, quiet, silent))
  decide-IsJustified before status reply (gated_by by) gate none result named at rests h =
      absurd (ground arith)
  decide-IsJustified before status reply (gated_by by) gate (some origin) result named at rests h =
      by_snapshot (get_snapshot origin by.instance_gates) refl
    where
      by_snapshot :
          (o : Option GateSnapshot)
          → get_snapshot origin by.instance_gates ≡ o
          → IsJustified crate payload before status reply result
      by_snapshot none found = absurd (ground arith)
      by_snapshot (some snapshot) found =
          let (same, still, authorized) = rests in
          let (report, replied, shown, alone) = authorized in
          inr (
            inr (
              gate,
              origin,
              report,
              snapshot,
              named,
              at,
              replied,
              ap (get_snapshot origin) (sym alone) ∙ found,
              ground arith,
              ground arith,
            ))

  -- A decision of `preflight` is justified: an action with a gate is let through as ungated only to a
  -- helper of the same generation that has never said, before or after the request for its
  -- capabilities, that it has gates; otherwise the reply of this negotiation, from a helper of the same
  -- generation, has a snapshot for the action's origin, and its mode for the action's gate decides.
  pub preflight-IsJustified :
      (before after status : HelperStatus) (reply : Reply E) (result : PreflightResult)
      → preflight crate payload (negotiate_capabilities before after status reply).0 ≡ ok result
      → IsJustified crate payload before status reply result
  unfolding preflight
  preflight-IsJustified before after status reply result h =
      by_gate (gate_for_payload payload) (negotiate_capabilities before after status reply).0 refl
        refl
    where
      by_gate :
          (g : Option GateName) (n : Result (BridgeError E) CapabilityNegotiation)
          → gate_for_payload payload ≡ g
          → (negotiate_capabilities before after status reply).0 ≡ n
          → IsJustified crate payload before status reply result
      by_gate none n named same = inl (named, ground arith)
      by_gate (some gate) (err e) named same = absurd (ground arith)
      by_gate (some gate) (ok negotiated) named same =
          decide-IsJustified before status reply negotiated gate (payload_origin crate payload)
            result named refl (negotiate-IsNegotiated before after status reply negotiated same)
            (ground arith)
