-- ===== src/Broker/Dispatch.antt =====
-- How snu/broker.rs sends an action: the preflight, the request, and what follows an answer that says
-- that the session has expired or that the helper tab stumbled. What the surroundings answer at each
-- point is an `Environment`; what is done is the list of its events.
use snow_cli.Base.{
  and_then, contains, codes, Bool, ℕ, Text, List, Option, Result, if◌then◌else◌, ◌||◌, ◌&&◌, ◌∷◌,
  [], false, true, none, some, ok, err, text_eq,
}
use snow_cli.Json.{Value, Members, get, as_str, object, no_members, member_then}
use snow_cli.Origin.{UrlCrate}
use snow_cli.Gates.{OriginKey, normalize_origin}
use snow_cli.Gates.Preflight.{
  BridgeError, request_failed, PreflightResult, GateDecision, approval_required,
}
use snow_cli.ApiError.{safe_error_detail}
use snow_cli.Bridge.Messages.{
  SnuInstance, SnuMessage, action_named, RequestError, action_failed, timeout_error,
}
use snow_cli.Broker.Sessions.{eviction, remembers, verifies}
use snow_cli.Broker.Events.{
  Failure, bridge, preflight_failed, gate_blocked, approval_timeout, denied, unverified,
  protocol_changed, Event, preflighted, requested, probed, changed, prompted, slept, stored,
  awaited, Out, Environment, Codec, Route, current_route, legacy_route, is_legacy, is_blocked,
  may_repeat, ActionRequest, send_action, send_action_for_action, send_action_with_legacy_fallback,
}

-- `preflight_for_dispatch`, from what the bridge decides.
unfoldable pub preflight_for_dispatch :
    Result (BridgeError RequestError) PreflightResult → Result Failure PreflightResult
preflight_for_dispatch (err e) = err (preflight_failed e)
preflight_for_dispatch (ok preflight) =
    if is_blocked preflight.decision
    then err (gate_blocked preflight.gate preflight.origin)
    else ok preflight

-- Whether the error in the chain is a timeout of the bridge.
abbrev pub is_timeout : Failure → Bool
is_timeout (bridge timeout_error) = true
is_timeout (preflight_failed (request_failed timeout_error)) = true
is_timeout (unverified failure) = is_timeout failure
is_timeout _ = false

abbrev pub requires_approval : GateDecision → Bool
requires_approval approval_required = true
requires_approval _ = false

unfoldable pub explain_approval_timeout :
    {A : Type 0} → PreflightResult → Result Failure A → Result Failure A
explain_approval_timeout preflight (ok a) = ok a
explain_approval_timeout preflight (err failure) =
    if requires_approval preflight.decision && is_timeout failure
    then err (approval_timeout preflight.gate preflight.origin)
    else err failure

module _ {N : Type 0} where
  -- `Map::insert`
  abbrev pub insert_member : Text → Value N → Members N → Members N
  insert_member key value no_members = member_then key value no_members
  insert_member key value (member_then name old rest) =
      if text_eq name key
      then member_then name value rest
      else member_then name old (insert_member key value rest)

  -- `as_object_mut` and `insert`
  abbrev pub with_member : Text → Value N → Value N → Value N
  with_member key value (object members) = object (insert_member key value members)
  with_member key value other = other

module _ {N U : Type 0} (crate : UrlCrate U) (codec : Codec N) where
  unfoldable pub is_transient_helper_text : Text → Bool
  is_transient_helper_text text =
      let lower = codec.to_lowercase text in
      contains (codes "unexpected end of json input") lower
      || contains (codes "failed to execute 'json'") lower
      || contains (codes "failed to fetch") lower
      || contains (codes "networkerror") lower

  unfoldable pub is_probe_stale_token_text : Text → Bool
  is_probe_stale_token_text text =
      let lower = codec.to_lowercase text in
      contains (codes "http 401") lower
      || contains (codes "not authenticated") lower
      || contains (codes "unauthorized") lower

  unfoldable pub is_stale_token_text : Text → Bool
  is_stale_token_text text =
      let lower = codec.to_lowercase text in
      contains (codes "http 401") lower
      || contains (codes "http 403") lower
      || contains (codes "not authenticated") lower
      || contains (codes "unauthorized") lower
      || contains (codes "forbidden") lower

  -- The origin of the session in a payload.
  unfoldable pub instance_origin : Value N → Option OriginKey
  instance_origin payload =
      and_then (and_then (and_then (get (codes "instance") payload) (get (codes "url"))) as_str)
        (normalize_origin crate)

  abbrev pub verified_at : ℕ → Option OriginKey → List (Event N)
  verified_at now none = []
  verified_at now (some origin) = changed (verifies now origin) ∷ []

  unfoldable pub mark_payload_verified : ℕ → Value N → List (Event N)
  mark_payload_verified now payload = verified_at now (instance_origin payload)

  -- What a probe says, by the answer to its request.
  unfoldable pub probe_session : Result RequestError (SnuMessage N) → Result Failure Bool
  probe_session (ok message) = ok true
  probe_session (err (action_failed text)) =
      if is_probe_stale_token_text text then ok false else err (bridge (action_failed text))
  probe_session (err e) = err (bridge e)

  unfoldable pub refresh_payload_instance_from_cache : Environment N → Value N → Value N
  refresh_payload_instance_from_cache environment payload =
      elim (and_then (instance_origin payload) environment.cached) [
        | none ↦ payload
        | some current ↦ with_member (codes "instance") (codec.write_instance current) payload
      ]

  module _ (environment : Environment N) (route : Route) where
    abbrev pub after_second : Value N → Result RequestError (SnuMessage N) → Out N (SnuMessage N)
    after_second payload (err e) = ([], err (bridge e))
    after_second payload (ok message) = (mark_payload_verified environment.now payload, ok message)

    abbrev pub after_again : Value N → Result Failure PreflightResult → Out N (SnuMessage N)
    after_again payload (err failure) = ([], err failure)
    after_again payload (ok preflight) =
        if may_repeat route.requires preflight
        then (let rest = after_second payload environment.second_reply in
            (
              requested payload route.awaits preflight.result_generation route.requires ∷ rest.0,
              rest.1,
            ))
        else ([], err protocol_changed)

    -- The one retry, after a pause and a preflight of its own.
    unfoldable pub repeat_action : Value N → Out N (SnuMessage N)
    repeat_action payload =
        let again = preflight_for_dispatch environment.again_reply in
        let rest = after_again payload again in (slept ∷ preflighted payload again ∷ rest.0, rest.1)

    -- `refresh_session`, and what is done with the fresh session.
    abbrev pub after_token : Value N → Result RequestError SnuInstance → Out N (SnuMessage N)
    after_token payload (err e) = ([], err (bridge e))
    after_token payload (ok fresh) =
        let rest =
          repeat_action (with_member (codes "instance") (codec.write_instance fresh) payload) in
        (changed (remembers environment.now fresh) ∷ stored ∷ rest.0, rest.1)

    unfoldable pub refresh_and_repeat : Option OriginKey → Value N → Out N (SnuMessage N)
    refresh_and_repeat target payload =
        let rest = after_token payload (environment.token_reply target) in
        (changed (eviction target) ∷ prompted ∷ awaited target ∷ rest.0, rest.1)

    abbrev pub after_probe :
        Value N → SnuInstance → Text → Result Failure Bool → Out N (SnuMessage N)
    after_probe payload info text (ok true) = ([], err (denied (safe_error_detail text)))
    after_probe payload info text (ok false) =
        refresh_and_repeat (normalize_origin crate info.url) payload
    after_probe payload info text (err failure) = ([], err (unverified failure))

    -- An answer that may be of an expired session.
    abbrev pub after_denial : Value N → Text → Option SnuInstance → Out N (SnuMessage N)
    after_denial payload text none = ([], err (bridge (action_failed text)))
    after_denial payload text (some info) =
        if is_stale_token_text text
        then (let probe = probe_session environment.probe_reply in
            let rest = after_probe payload info text probe in (probed info probe ∷ rest.0, rest.1))
        else ([], err (bridge (action_failed text)))

    abbrev pub after_first : Value N → Result RequestError (SnuMessage N) → Out N (SnuMessage N)
    after_first payload (ok message) = (mark_payload_verified environment.now payload, ok message)
    after_first payload (err (action_failed text)) =
        if is_transient_helper_text text
        then repeat_action payload
        else after_denial payload text
            (and_then (get (codes "instance") payload) codec.read_instance)
    after_first payload (err e) = ([], err (bridge e))

    unfoldable pub send_action_with_refresh : Option ℕ → Value N → Out N (SnuMessage N)
    send_action_with_refresh generation payload =
        let rest = after_first payload environment.first_reply in
        (requested payload route.awaits generation route.requires ∷ rest.0, rest.1)

  module _ (environment : Environment N) where
    -- The request of an action that is awaited by its name, which is not repeated.
    abbrev pub answered : Result RequestError (SnuMessage N) → Result Failure (SnuMessage N)
    answered (ok message) = ok message
    answered (err e) = err (bridge e)

    abbrev pub after_preflight : ActionRequest N → PreflightResult → Out N (SnuMessage N)
    after_preflight (send_action payload id) preflight =
        send_action_with_refresh environment (current_route id) preflight.result_generation payload
    after_preflight (send_action_for_action payload action) preflight = (
      requested payload (action_named action) preflight.result_generation none ∷ [],
      answered environment.first_reply,
    )
    after_preflight (send_action_with_legacy_fallback current id old action) preflight =
        if is_legacy preflight.decision
        then send_action_with_refresh environment (legacy_route action) preflight.result_generation
            (refresh_payload_instance_from_cache environment old)
        else send_action_with_refresh environment (current_route id) preflight.result_generation
            current

    abbrev pub dispatched : ActionRequest N → Result Failure PreflightResult → Out N (SnuMessage N)
    dispatched request (err failure) = ([], err failure)
    dispatched request (ok preflight) =
        let rest = after_preflight request preflight in
        (rest.0, explain_approval_timeout preflight rest.1)

    abbrev pub payload_of : ActionRequest N → Value N
    payload_of (send_action payload id) = payload
    payload_of (send_action_for_action payload action) = payload
    payload_of (send_action_with_legacy_fallback current id old action) = current

    -- `dispatch`, for the requests that carry an action.
    unfoldable pub dispatch_action : ActionRequest N → Out N (SnuMessage N)
    dispatch_action request =
        let preflight = preflight_for_dispatch environment.preflight_reply in
        let rest = dispatched request preflight in
        (preflighted (payload_of request) preflight ∷ rest.0, rest.1)
