-- ===== src/Broker/Course.antt =====
-- The course of an action that snu/broker.rs sends by one route.
use snow_cli.Base.{
  arith, if-elim, All, count, Bool, ℕ, Text, List, Option, Result, ◌∷◌, [], ◌≤◌, false, true, none,
  some, ok, err, ◌≡◌, refl, codes, and_then,
}
use snow_cli.Json.{Value, get}
use snow_cli.Origin.{UrlCrate}
use snow_cli.Gates.{OriginKey, normalize_origin}
use snow_cli.Gates.Preflight.{BridgeError, PreflightResult}
use snow_cli.Bridge.Messages.{SnuInstance, SnuMessage, RequestError, action_failed}
use snow_cli.Broker.Sessions.{eviction, clears, clears_all}
use snow_cli.Broker.Events.{
  Failure, Event, preflighted, requested, probed, changed, prompted, slept, awaited, Environment,
  Codec, Route, is_blocked, may_repeat, Out,
}
use snow_cli.Broker.Dispatch.{
  preflight_for_dispatch, with_member, verified_at, mark_payload_verified, probe_session,
  repeat_action, after_second, after_again, after_token, refresh_and_repeat, after_probe,
  after_denial, after_first, send_action_with_refresh, is_transient_helper_text,
  is_stale_token_text, instance_origin,
}

-- Each request follows a preflight of its own that did not block it, and is sent to the generation of
-- that preflight.
abbrev pub Follows : {N : Type 0} → Option PreflightResult → List (Event N) → Type 0
Follows last [] = Unit {0}
Follows last (preflighted payload (ok preflight) ∷ events) =
    (is_blocked preflight.decision ≡ false) × Follows (some preflight) events
Follows last (preflighted payload (err failure) ∷ events) = Follows none events
Follows last (requested payload matcher generation support ∷ events) =
    ((preflight : PreflightResult) × (last ≡ some preflight)
      × (generation ≡ preflight.result_generation))
    × Follows none events
Follows last (event ∷ events) = Follows last events

-- Each eviction follows a probe of its own that says that a session is dead, and is of the origin of
-- that session, or of all if it has none.
abbrev pub AreProven : {N U : Type 0} → UrlCrate U → Option SnuInstance → List (Event N) → Type 0
AreProven crate dead [] = Unit {0}
AreProven crate dead (probed info (ok false) ∷ events) = AreProven crate (some info) events
AreProven crate dead (probed info (ok true) ∷ events) = AreProven crate none events
AreProven crate dead (probed info (err failure) ∷ events) = AreProven crate none events
AreProven crate dead (changed (clears origin) ∷ events) =
    ((info : SnuInstance) × (dead ≡ some info) × (normalize_origin crate info.url ≡ some origin))
    × AreProven crate none events
AreProven crate dead (changed clears_all ∷ events) =
    ((info : SnuInstance) × (dead ≡ some info) × (normalize_origin crate info.url ≡ none))
    × AreProven crate none events
AreProven crate dead (event ∷ events) = AreProven crate dead events

-- The requests are sent the one way.
abbrev pub GoesBy : {N : Type 0} → Route → Event N → Type 0
GoesBy route (requested payload matcher generation support) =
    (matcher ≡ route.awaits) × (support ≡ route.requires)
GoesBy route _ = Unit {0}

abbrev pub is_request : {N : Type 0} → Event N → Bool
is_request (requested payload matcher generation support) = true
is_request _ = false

-- What holds of the events of a part that sends so many requests, after a preflight that is good for
-- the first of them and a probe that is not used yet.
abbrev pub IsDone :
    {N U : Type 0}
    → UrlCrate U
    → Route
    → Option PreflightResult
    → Option SnuInstance
    → ℕ
    → List (Event N)
    → Type 0
IsDone crate route last dead n events =
    Follows last events
    × AreProven crate dead events
    × All (GoesBy route) events
    × (count is_request events ≤ n)

pub preflight_for_dispatch-ok :
    (reply : Result (BridgeError RequestError) PreflightResult) (preflight : PreflightResult)
    → preflight_for_dispatch reply ≡ ok preflight
    → is_blocked preflight.decision ≡ false
unfolding preflight_for_dispatch
preflight_for_dispatch-ok (err e) preflight h = absurd (ground arith)
preflight_for_dispatch-ok (ok found) preflight h = ground arith

module _ {N U : Type 0} (crate : UrlCrate U) (codec : Codec N) (environment : Environment N)
    (route : Route) where
  mark-IsDone :
      (last : Option PreflightResult) (dead : Option SnuInstance) (n : ℕ) (payload : Value N)
      → IsDone crate route last dead n (mark_payload_verified crate codec environment.now payload)
  unfolding mark_payload_verified
  mark-IsDone last dead n payload = by_origin (instance_origin crate codec payload)
    where
      by_origin :
          (o : Option OriginKey)
          → IsDone crate route last dead n (verified_at crate codec environment.now o)
      by_origin none = (tt, tt, tt, ground arith)
      by_origin (some origin) = (tt, tt, (tt, tt), ground arith)

  second-IsDone :
      (last : Option PreflightResult) (dead : Option SnuInstance) (payload : Value N)
      (reply : Result RequestError (SnuMessage N))
      → IsDone crate route last dead 0 (after_second crate codec environment route payload reply).0
  second-IsDone last dead payload (err e) = (tt, tt, tt, ground arith)
  second-IsDone last dead payload (ok message) = mark-IsDone last dead 0 payload

  repeat_action-IsDone :
      (last : Option PreflightResult) (dead : Option SnuInstance) (payload : Value N)
      → IsDone crate route last dead 1 (repeat_action crate codec environment route payload).0
  unfolding repeat_action
  repeat_action-IsDone last dead payload =
      by_preflight (preflight_for_dispatch environment.again_reply)
        (preflight_for_dispatch-ok environment.again_reply)
    where
      by_preflight :
          (again : Result Failure PreflightResult)
          → ((preflight : PreflightResult)
              → again ≡ ok preflight
              → is_blocked preflight.decision ≡ false)
          → IsDone crate route last dead 1 (
              slept
              ∷ preflighted payload again
              ∷ (after_again crate codec environment route payload again).0)
      by_preflight (err failure) sound = (tt, tt, (tt, (tt, tt)), ground arith)
      by_preflight (ok preflight) sound =
          if-elim
            (λ (out : Out N (SnuMessage N)).
              IsDone crate route last dead 1 (slept ∷ preflighted payload (ok preflight) ∷ out.0))
            (may_repeat route.requires preflight) _ _
            (λ _.
              let rest = second-IsDone none dead payload environment.second_reply in
              (
                (sound preflight refl, ((preflight, refl, refl), rest.0)),
                rest.1,
                (tt, (tt, ((refl, refl), rest.2))),
                ground arith,
              ))
            (λ _. ((sound preflight refl, tt), tt, (tt, (tt, tt)), ground arith))

  token-IsDone :
      (last : Option PreflightResult) (payload : Value N) (reply : Result RequestError SnuInstance)
      → IsDone crate route last none 1 (after_token crate codec environment route payload reply).0
  token-IsDone last payload (err e) = (tt, tt, tt, ground arith)
  token-IsDone last payload (ok fresh) =
      let rest =
        repeat_action-IsDone last none
          (with_member (codes "instance") (codec.write_instance fresh) payload) in
      (rest.0, rest.1, (tt, (tt, rest.2)), ground arith)

  -- The session that the probe found dead is the one that is evicted.
  refresh-IsDone :
      (last : Option PreflightResult) (info : SnuInstance) (payload : Value N)
      → IsDone crate route last
          (some info)
          1
          (refresh_and_repeat crate codec environment route
            (normalize_origin crate info.url)
            payload).0
  unfolding refresh_and_repeat
  refresh-IsDone last info payload = by_origin (normalize_origin crate info.url) refl
    where
      by_origin :
          (o : Option OriginKey)
          → normalize_origin crate info.url ≡ o
          → IsDone crate route last (some info) 1 (
              changed (eviction o)
              ∷ prompted
              ∷ awaited o
              ∷ (after_token crate codec environment route payload (environment.token_reply o)).0)
      by_origin none at =
          let rest = token-IsDone last payload (environment.token_reply none) in
          (rest.0, ((info, refl, at), rest.1), (tt, (tt, (tt, rest.2))), ground arith)
      by_origin (some origin) at =
          let rest = token-IsDone last payload (environment.token_reply (some origin)) in
          (rest.0, ((info, refl, at), rest.1), (tt, (tt, (tt, rest.2))), ground arith)

  probe-IsDone :
      (last : Option PreflightResult) (info : SnuInstance) (payload : Value N) (text : Text)
      (probe : Result Failure Bool)
      → IsDone crate route last none 1 (
          probed info probe ∷ (after_probe crate codec environment route payload info text probe).0)
  probe-IsDone last info payload text (ok true) = (tt, tt, (tt, tt), ground arith)
  probe-IsDone last info payload text (ok false) =
      let rest = refresh-IsDone last info payload in (rest.0, rest.1, (tt, rest.2), ground arith)
  probe-IsDone last info payload text (err failure) = (tt, tt, (tt, tt), ground arith)

  denial-IsDone :
      (last : Option PreflightResult) (payload : Value N) (text : Text) (o : Option SnuInstance)
      → IsDone crate route last none 1 (after_denial crate codec environment route payload text o).0
  denial-IsDone last payload text none = (tt, tt, tt, ground arith)
  denial-IsDone last payload text (some info) =
      if-elim (λ (out : Out N (SnuMessage N)). IsDone crate route last none 1 out.0)
        (is_stale_token_text crate codec text) _ _
        (λ _.
          probe-IsDone last info payload text (probe_session crate codec environment.probe_reply))
        (λ _. (tt, tt, tt, ground arith))

  first-IsDone :
      (last : Option PreflightResult) (payload : Value N)
      (reply : Result RequestError (SnuMessage N))
      → IsDone crate route last none 1 (after_first crate codec environment route payload reply).0
  first-IsDone last payload (ok message) = mark-IsDone last none 1 payload
  first-IsDone last payload (err (action_failed text)) =
      if-elim (λ (out : Out N (SnuMessage N)). IsDone crate route last none 1 out.0)
        (is_transient_helper_text crate codec text) _ _
        (λ _. repeat_action-IsDone last none payload)
        (λ _.
          denial-IsDone last payload text
            (and_then (get (codes "instance") payload) codec.read_instance))
  first-IsDone last payload (err _) = (tt, tt, tt, ground arith)

  pub send_action_with_refresh-IsDone :
      (preflight : PreflightResult) (payload : Value N)
      → IsDone crate route
          (some preflight)
          none
          2
          (send_action_with_refresh crate codec environment route preflight.result_generation
            payload).0
  unfolding send_action_with_refresh
  send_action_with_refresh-IsDone preflight payload =
      let rest = first-IsDone none payload environment.first_reply in
      (((preflight, refl, refl), rest.0), rest.1, ((refl, refl), rest.2), ground arith)
