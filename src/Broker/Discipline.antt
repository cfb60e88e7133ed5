-- ===== src/Broker/Discipline.antt =====
-- What an action that snu/broker.rs sends keeps to, whatever its surroundings answer.
use snow_cli.Base.{
  arith, if-elim, All, count, List, Result, ◌∷◌, ◌≤◌, false, none, ok, err, ◌≡◌, ◌⊎◌, inl, inr,
  refl,
}
use snow_cli.Json.{Value}
use snow_cli.Origin.{UrlCrate}
use snow_cli.Gates.Preflight.{PreflightResult}
use snow_cli.Bridge.Messages.{SnuMessage, action_named}
use snow_cli.Broker.Events.{
  Failure, Event, preflighted, Environment, Codec, current_route, legacy_route, is_legacy,
  is_blocked, Out, ActionRequest, send_action, send_action_for_action,
  send_action_with_legacy_fallback,
}
use snow_cli.Broker.Dispatch.{
  preflight_for_dispatch, refresh_payload_instance_from_cache, after_preflight, payload_of,
  dispatched, dispatch_action,
}
use snow_cli.Broker.Course.{
  Follows, AreProven, GoesBy, is_request, preflight_for_dispatch-ok,
  send_action_with_refresh-IsDone,
}

-- The ways that a request of the broker may go.
abbrev pub Goes : {N : Type 0} → ActionRequest N → List (Event N) → Type 0
Goes (send_action payload id) events = All (GoesBy (current_route id)) events
Goes (send_action_for_action payload action) events =
    All (GoesBy (record { awaits = action_named action; requires = none })) events
Goes (send_action_with_legacy_fallback current id old action) events =
    All (GoesBy (current_route id)) events ⊎ All (GoesBy (legacy_route action)) events

abbrev pub IsDispatched : {N U : Type 0} → UrlCrate U → ActionRequest N → List (Event N) → Type 0
IsDispatched crate request events =
    Follows none events
    × AreProven crate none events
    × Goes request events
    × (count is_request events ≤ 2)

module _ {N U : Type 0} (crate : UrlCrate U) (codec : Codec N) (environment : Environment N) where
  after_preflight-IsDispatched :
      (request : ActionRequest N) (payload : Value N) (preflight : PreflightResult)
      → is_blocked preflight.decision ≡ false
      → IsDispatched crate request (
          preflighted payload (ok preflight)
          ∷ (after_preflight crate codec environment request preflight).0)
  after_preflight-IsDispatched (send_action payload id) shown preflight sound =
      let rest =
        send_action_with_refresh-IsDone crate codec environment (current_route id) preflight
          payload in
      ((sound, rest.0), rest.1, (tt, rest.2), ground arith)
  after_preflight-IsDispatched (send_action_for_action payload action) shown preflight sound =
      ((sound, ((preflight, refl, refl), tt)), tt, (tt, ((refl, refl), tt)), ground arith)
  after_preflight-IsDispatched (send_action_with_legacy_fallback current id old action) shown
        preflight sound =
      if-elim
        (λ (out : Out N (SnuMessage N)).
          IsDispatched crate (send_action_with_legacy_fallback current id old action)
            (preflighted shown (ok preflight) ∷ out.0))
        (is_legacy preflight.decision) _ _
        (λ _.
          let rest =
            send_action_with_refresh-IsDone crate codec environment (legacy_route action) preflight
              (refresh_payload_instance_from_cache crate codec environment old) in
          ((sound, rest.0), rest.1, inr (tt, rest.2), ground arith))
        (λ _.
          let rest =
            send_action_with_refresh-IsDone crate codec environment (current_route id) preflight
              current in
          ((sound, rest.0), rest.1, inl (tt, rest.2), ground arith))

  dispatched-IsDispatched :
      (request : ActionRequest N) (payload : Value N) (reply : Result Failure PreflightResult)
      → ((preflight : PreflightResult)
          → reply ≡ ok preflight
          → is_blocked preflight.decision ≡ false)
      → IsDispatched crate request
          (preflighted payload reply ∷ (dispatched crate codec environment request reply).0)
  dispatched-IsDispatched (send_action payload id) shown (err failure) sound =
      (tt, tt, (tt, tt), ground arith)
  dispatched-IsDispatched (send_action_for_action payload action) shown (err failure) sound =
      (tt, tt, (tt, tt), ground arith)
  dispatched-IsDispatched (send_action_with_legacy_fallback current id old action) shown
        (err failure) sound =
      (tt, tt, inl (tt, tt), ground arith)
  dispatched-IsDispatched request shown (ok preflight) sound =
      after_preflight-IsDispatched request shown preflight (sound preflight refl)

  -- Whatever the helper, the server and the user answer, an action is sent at most twice; each time
  -- after a preflight of its own that did not block it, and to the generation of that preflight. It is
  -- sent by one protocol only, also where a legacy one may stand in. Sessions are evicted
  -- only after a probe that says that the probed session is dead: then only the one at the origin of
  -- that session's URL is, or all of them if the URL has no origin.
  pub dispatch_action-IsDispatched :
      (request : ActionRequest N)
      → IsDispatched crate request (dispatch_action crate codec environment request).0
  unfolding dispatch_action
  dispatch_action-IsDispatched request =
      dispatched-IsDispatched request (payload_of crate codec environment request)
        (preflight_for_dispatch environment.preflight_reply)
        (preflight_for_dispatch-ok environment.preflight_reply)
