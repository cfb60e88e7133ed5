-- ===== src/Bridge/Steps.antt =====
-- What the tasks of snu/bridge.rs do in each step, and how their steps interleave.
use snow_cli.Base.{
  not, unwrap_or, ltb, codes, text_eq, Bool, ℕ, Text, List, Option, if◌then◌else◌, ◌&&◌, ◌==◌, ◌++◌,
  ◌∷◌, [], false, true, ok, none, some, suc, ◌≡◌, any,
}
use snow_cli.Json.{Value, object}
use snow_cli.Origin.{UrlCrate}
use snow_cli.Gates.{
  OriginKey, HelperStatus, HelperSecurityGateSupport, InstanceGates, unknown, gated,
  legacy_unrestricted, apply_gate_snapshot, normalize_origin,
}
use snow_cli.Gates.Preflight.{settle_legacy, settle_gated}
use snow_cli.Bridge.Messages.{SnuMessage, RequestError, has_token, matches, session}
use snow_cli.Bridge.State.{
  Inner, Task, Runner, Request, host_hello, banner, payload, ping, pong, reader, heartbeat,
  installing, replacing, resetting, greeting, showing, marking, detaching, disconnecting, failing,
  capturing, forwarding, routing, requesting, awaiting_session, bannering, sweeping, probing,
  settling_legacy, settling_gated, initial_status, answer_all, fail_waiters_for_generation,
  send_frame, push_waiter, keep_open, close_channel, start,
}

-- How the members of a helper's message are read: the deserializers of `HelperBuildInfo` (of which
-- the capability `instance_security_gates` is kept), and of `GateUpdate`.
pub record Readers (N : Type 0) : Type 0 where
  pub read_build : Value N → Option (Option ℕ)
  pub read_update : Value N → Option (Text × ℕ × InstanceGates)

abbrev pub same_support : HelperSecurityGateSupport → HelperSecurityGateSupport → Bool
same_support unknown unknown = true
same_support legacy_unrestricted legacy_unrestricted = true
same_support gated gated = true
same_support _ _ = false

-- Whether an optional expectation is met.
abbrev pub is_met {ℓ} : {A : Type ℓ} → (A → Bool) → Option A → Bool
is_met test none = true
is_met test (some expected) = test expected

abbrev pub with_build : Option ℕ → HelperStatus → HelperStatus
with_build capability status = record {
  generation = status.generation;
  security_gate_support =
      if ltb 0 (unwrap_or capability 0) then gated else status.security_gate_support;
  instance_security_gates = capability;
  instance_gates = status.instance_gates;
}

abbrev pub apply_build : Option (Option ℕ) → HelperStatus → HelperStatus
apply_build none status = status
apply_build (some capability) status = with_build capability status

module _ {N : Type 0} where
  -- What `request_bound` does under the lock of the connection.
  unfoldable pub request_under_lock : Request N → Bool → Option ℕ → Inner N → Inner N
  request_under_lock request writer_lives none inner = inner
  request_under_lock request writer_lives (some generation) inner =
      if not (is_met (λ expected. expected == generation) request.expected_generation)
      then inner
      else if not (
          is_met
            (λ expected.
              (inner.status.generation == generation)
              && same_support inner.status.security_gate_support expected)
            request.expected_support)
      then inner
      else if writer_lives
      then send_frame generation (payload request.body)
          (push_waiter (some generation) request.awaited inner)
      else (let pushed = push_waiter (some generation) request.awaited inner in
          record pushed { waiters = close_channel inner.channels pushed.waiters })

  -- `conn.replace`, and what comes next.
  abbrev pub replaced : Option ℕ → ℕ → List (Task N)
  replaced none generation = resetting generation ∷ []
  replaced (some previous) generation = replacing previous generation ∷ []

  -- The teardown goes on only if the connection is still the one of the generation.
  unfoldable pub detach_connection : Runner → ℕ → Option ℕ → Inner N → Inner N × List (Task N)
  detach_connection runner generation none inner = (inner, [])
  detach_connection runner generation (some current) inner =
      if current == generation
      then (record inner { conn = none }, disconnecting runner generation ∷ [])
      else (inner, [])

  abbrev pub with_banner : ℕ → Option Text → Inner N → Inner N
  with_banner generation none inner = inner
  with_banner generation (some message) inner =
      send_frame generation (banner message) (record inner { pending_banner = none })

  abbrev pub send_banner : Text → Option ℕ → Inner N → Inner N
  send_banner message none inner = record inner { pending_banner = some message }
  send_banner message (some generation) inner = send_frame generation (banner message) inner

  abbrev pub forward : SnuMessage N → Inner N → Inner N
  forward message inner = elim message.instance_info [
    | none ↦ inner
    | some info ↦
        if has_token info then record inner { sessions = inner.sessions ++ info ∷ [] } else inner
  ]

  -- The rest of a round of the heartbeat, by the connection it finds.
  abbrev pub probe : Bool → Option ℕ → Inner N → Inner N × List (Task N)
  probe stale none inner = (inner, [])
  probe true (some generation) inner = (inner, detaching heartbeat generation ∷ [])
  probe false (some generation) inner = (send_frame generation ping inner, [])

module _ {N U : Type 0} (crate : UrlCrate U) (readers : Readers N) where
  abbrev pub update_at : Option OriginKey → ℕ × InstanceGates → HelperStatus → HelperStatus
  update_at none update status = status
  update_at (some origin) update status =
      apply_gate_snapshot origin (record { revision = update.0; gates = update.1 }) status

  abbrev pub apply_update : Option (Text × ℕ × InstanceGates) → HelperStatus → HelperStatus
  apply_update none status = status
  apply_update (some update) status =
      update_at (normalize_origin crate update.0) (update.1, update.2) status

  -- The update of the status by an action of the helper; the license that it may send is not kept.
  unfoldable pub read_metadata : Text → Value N → HelperStatus → HelperStatus
  read_metadata action value status =
      if text_eq action (codes "helperBuildInfo")
      then apply_build (readers.read_build value) status
      else if text_eq action (codes "helperGatesUpdated")
      then apply_update (readers.read_update value) status
      else status

  abbrev pub capture_action : Option Text → Value N → ℕ → HelperStatus → HelperStatus
  capture_action none value generation status = status
  capture_action (some action) value generation status =
      if status.generation == generation then read_metadata action value status else status

  unfoldable pub capture_helper_metadata : SnuMessage N → ℕ → HelperStatus → HelperStatus
  capture_helper_metadata message generation status =
      capture_action message.action (object message.extra) generation status

  -- One step of a task: the state after it, and what the task does next.
  unfoldable pub run_task : Task N → Inner N → Inner N × List (Task N)
  run_task (installing generation) inner =
      (record inner { conn = some generation }, replaced inner.conn generation)
  run_task (replacing previous generation) inner =
      (fail_waiters_for_generation previous inner, resetting generation ∷ [])
  run_task (resetting generation) inner =
      (record inner { status = initial_status generation }, greeting generation ∷ [])
  run_task (greeting generation) inner =
      (send_frame generation host_hello inner, showing generation ∷ [])
  run_task (showing generation) inner =
      (with_banner generation inner.pending_banner inner, marking generation ∷ [])
  run_task (marking generation) inner = (record inner { connected = true }, [])
  run_task (detaching runner generation) inner =
      detach_connection runner generation inner.conn inner
  run_task (disconnecting runner generation) inner =
      (record inner { connected = false }, failing runner generation ∷ [])
  run_task (failing runner generation) inner = (fail_waiters_for_generation generation inner, [])
  run_task (capturing message generation) inner = (
    record inner { status = capture_helper_metadata message generation inner.status },
    forwarding message generation ∷ [],
  )
  run_task (forwarding message generation) inner =
      (forward message inner, routing message generation ∷ [])
  run_task (routing message generation) inner =
      (answer_all (λ waiter. matches crate waiter.matcher message) (ok message) inner, [])
  run_task (requesting request writer_lives) inner =
      (request_under_lock request writer_lives inner.conn inner, [])
  run_task (awaiting_session target) inner = (push_waiter none (session target) inner, [])
  run_task (bannering message) inner = (send_banner message inner.conn inner, [])
  run_task (sweeping stale) inner =
      (record inner { waiters = keep_open inner.waiters }, probing stale ∷ [])
  run_task (probing stale) inner = probe stale inner.conn inner
  run_task (settling_legacy before) inner =
      (record inner { status = (settle_legacy {E = RequestError} before inner.status).1 }, [])
  run_task (settling_gated before snapshots) inner = (
    record inner { status = (settle_gated {E = RequestError} before snapshots inner.status).1 },
    [],
  )

-- All of the program: the shared state, the tasks, and the generations whose teardown was cut off by
-- the abort of its own reader.
pub record System (N : Type 0) : Type 0 where
  pub inner : Inner N
  pub tasks : List (Task N)
  pub lost : List ℕ

module _ {N : Type 0} where
  abbrev pub is_attaching : Task N → Bool
  is_attaching (installing generation) = true
  is_attaching (replacing previous generation) = true
  is_attaching (resetting generation) = true
  is_attaching (greeting generation) = true
  is_attaching (showing generation) = true
  is_attaching (marking generation) = true
  is_attaching _ = false

  -- What may begin at any time: a request, another call, a message or the end of a connection, a round
  -- of the heartbeat, the end of a negotiation.
  abbrev pub may_begin : Task N → Bool
  may_begin (detaching reader generation) = true
  may_begin (capturing message generation) = true
  may_begin (requesting request writer_lives) = true
  may_begin (awaiting_session target) = true
  may_begin (bannering message) = true
  may_begin (sweeping stale) = true
  may_begin (settling_legacy before) = true
  may_begin (settling_gated before snapshots) = true
  may_begin _ = false

  -- What may be cut off while it waits for a lock: a reader that is aborted, and a call whose caller
  -- has gone.
  abbrev pub may_end : Task N → Bool
  may_end (detaching reader generation) = true
  may_end (failing reader generation) = true
  may_end (capturing message generation) = true
  may_end (routing message generation) = true
  may_end (requesting request writer_lives) = true
  may_end (awaiting_session target) = true
  may_end (bannering message) = true
  may_end (settling_legacy before) = true
  may_end (settling_gated before snapshots) = true
  may_end _ = false

  -- The generation whose requests are not failed when the task is cut off.
  abbrev pub abandons : Task N → List ℕ
  abandons (failing reader generation) = generation ∷ []
  abandons _ = []

module _ {N U : Type 0} (crate : UrlCrate U) (readers : Readers N) where
  -- The steps of the program and of its surroundings.
  pub data Step (s t : System N) : Type 0 where
    run :
        (before after : List (Task N)) (task : Task N)
        → s.tasks ≡ before ++ task ∷ after
        → t ≡ record {
          inner = (run_task crate readers task s.inner).0;
          tasks = before ++ ((run_task crate readers task s.inner).1 ++ after);
          lost = s.lost;
        }
        → Step s t
    cut_off :
        (before after : List (Task N)) (task : Task N)
        → may_end task ≡ true
        → s.tasks ≡ before ++ task ∷ after
        → t ≡ record { inner = s.inner; tasks = before ++ after; lost = abandons task ++ s.lost }
        → Step s t
    -- `accept_loop` takes the next connection when it is done with the last.
    accept :
        any is_attaching s.tasks ≡ false
        → t ≡ record {
          inner = record s.inner { generation = suc s.inner.generation };
          tasks = s.tasks ++ installing (suc s.inner.generation) ∷ [];
          lost = s.lost;
        }
        → Step s t
    begin :
        (task : Task N)
        → may_begin task ≡ true
        → t ≡ record { inner = s.inner; tasks = s.tasks ++ task ∷ []; lost = s.lost }
        → Step s t
    give_up :
        (channel : ℕ)
        → t
          ≡ record s { inner = record s.inner { waiters = close_channel channel s.inner.waiters } }
        → Step s t
    reply_ping :
        (generation : ℕ) → t ≡ record s { inner = send_frame generation pong s.inner } → Step s t
    bind : (bound : Bool) → t ≡ record s { inner = record s.inner { bound = bound } } → Step s t

  abbrev pub started : System N
  started = record { inner = start; tasks = []; lost = [] }

  pub data Reach : System N → Type 0 where
    here : Reach started
    next : {s t : System N} → Reach s → Step s t → Reach t
