-- ===== src/Broker/Target.antt =====
-- To which instance snu/broker.rs sends an action again.
use snow_cli.Base.{
  sym, subst, err, ℕ, and_then, Text, codes, ok, some, none, Option, Result, All, if-elim, true,
  false, Bool, ◌≡◌, refl,
}
use snow_cli.Origin.{UrlCrate}
use snow_cli.Gates.{normalize_origin, OriginKey}
use snow_cli.Bridge.Messages.{SnuInstance, SnuMessage, RequestError, action_failed}
use snow_cli.Broker.Events.{
  Failure, Out, Route, legacy_route, current_route, is_legacy, may_repeat, Codec, Environment,
  ActionRequest, send_action, send_action_for_action, send_action_with_legacy_fallback,
}
use snow_cli.Gates.Preflight.{PreflightResult}
use snow_cli.Broker.Dispatch.{
  preflight_for_dispatch, verified_at, mark_payload_verified, probe_session,
  refresh_payload_instance_from_cache, repeat_action, after_second, after_again, after_token,
  refresh_and_repeat, after_probe, after_denial, after_first, send_action_with_refresh,
  after_preflight, dispatched, dispatch_action, is_transient_helper_text, is_stale_token_text,
  instance_origin, with_member,
}
use snow_cli.Json.{Value, get}
use snow_cli.Broker.Codecs.{
  read_instance-origin, IsCodec, IsFaithfulAt, IsTo, matches-origin, instance_origin-with_member,
}

module _ {N U : Type 0} (crate : UrlCrate U) (codec : Codec N) (is_codec : IsCodec codec)
    (origin : OriginKey) where
  module _ (environment : Environment N) (faithful : IsFaithfulAt crate origin environment)
      (route : Route) where
    -- All requests of a part are to the origin.
    abbrev AllTo : Out N (SnuMessage N) → Type 0
    AllTo out = All (IsTo crate codec origin) out.0

    mark-AllTo :
        (payload : Value N)
        → All (IsTo crate codec origin) (mark_payload_verified crate codec environment.now payload)
    unfolding mark_payload_verified
    mark-AllTo payload = by_origin (instance_origin crate codec payload)
      where
        by_origin :
            (o : Option OriginKey)
            → All (IsTo crate codec origin) (verified_at crate codec environment.now o)
        by_origin none = tt
        by_origin (some other) = (tt, tt)

    second-AllTo :
        (payload : Value N) (reply : Result RequestError (SnuMessage N))
        → AllTo (after_second crate codec environment route payload reply)
    second-AllTo payload (err e) = tt
    second-AllTo payload (ok message) = mark-AllTo payload

    again-AllTo :
        (payload : Value N) (again : Result Failure PreflightResult)
        → instance_origin crate codec payload ≡ some origin
        → AllTo (after_again crate codec environment route payload again)
    again-AllTo payload (err failure) at = tt
    again-AllTo payload (ok preflight) at =
        if-elim AllTo (may_repeat route.requires preflight) _ _
          (λ _. (at, second-AllTo payload environment.second_reply)) (λ _. tt)

    repeat_action-AllTo :
        (payload : Value N)
        → instance_origin crate codec payload ≡ some origin
        → AllTo (repeat_action crate codec environment route payload)
    unfolding repeat_action
    repeat_action-AllTo payload at =
        (tt, (tt, again-AllTo payload (preflight_for_dispatch environment.again_reply) at))

    token-AllTo :
        (payload : Value N) (reply : Result RequestError SnuInstance)
        → environment.token_reply (some origin) ≡ reply
        → instance_origin crate codec payload ≡ some origin
        → AllTo (after_token crate codec environment route payload reply)
    token-AllTo payload (err e) same at = tt
    token-AllTo payload (ok fresh) same at =
        let fresh_at = matches-origin crate origin fresh (faithful.1 (some origin) fresh same) in
        (
          tt,
          (
            tt,
            repeat_action-AllTo _
                (instance_origin-with_member crate codec is_codec origin fresh payload fresh_at at),
          ),
        )

    refresh_and_repeat-AllTo :
        (payload : Value N) (target : Option OriginKey)
        → target ≡ some origin
        → instance_origin crate codec payload ≡ some origin
        → AllTo (refresh_and_repeat crate codec environment route target payload)
    unfolding refresh_and_repeat
    refresh_and_repeat-AllTo payload target same at =
        subst (λ t. AllTo (refresh_and_repeat crate codec environment route t payload)) (sym same)
          (tt, (tt, (tt, token-AllTo payload (environment.token_reply (some origin)) refl at)))

    probe-AllTo :
        (payload : Value N) (info : SnuInstance) (text : Text) (probe : Result Failure Bool)
        → and_then (get (codes "instance") payload) codec.read_instance ≡ some info
        → instance_origin crate codec payload ≡ some origin
        → AllTo (after_probe crate codec environment route payload info text probe)
    probe-AllTo payload info text (ok true) read at = tt
    probe-AllTo payload info text (ok false) read at =
        refresh_and_repeat-AllTo payload (normalize_origin crate info.url)
          (read_instance-origin crate codec is_codec origin payload info read at) at
    probe-AllTo payload info text (err failure) read at = tt

    denial-AllTo :
        (payload : Value N) (text : Text) (o : Option SnuInstance)
        → and_then (get (codes "instance") payload) codec.read_instance ≡ o
        → instance_origin crate codec payload ≡ some origin
        → AllTo (after_denial crate codec environment route payload text o)
    denial-AllTo payload text none read at = tt
    denial-AllTo payload text (some info) read at =
        if-elim AllTo (is_stale_token_text crate codec text) _ _
          (λ _. (
            tt,
            probe-AllTo payload info text (probe_session crate codec environment.probe_reply) read
                at,
          ))
          (λ _. tt)

    first-AllTo :
        (payload : Value N) (reply : Result RequestError (SnuMessage N))
        → instance_origin crate codec payload ≡ some origin
        → AllTo (after_first crate codec environment route payload reply)
    first-AllTo payload (ok message) at = mark-AllTo payload
    first-AllTo payload (err (action_failed text)) at =
        if-elim AllTo (is_transient_helper_text crate codec text) _ _
          (λ _. repeat_action-AllTo payload at)
          (λ _.
            denial-AllTo payload text
              (and_then (get (codes "instance") payload) codec.read_instance) refl at)
    first-AllTo payload (err _) at = tt

    send_action_with_refresh-AllTo :
        (generation : Option ℕ) (payload : Value N)
        → instance_origin crate codec payload ≡ some origin
        → AllTo (send_action_with_refresh crate codec environment route generation payload)
    unfolding send_action_with_refresh
    send_action_with_refresh-AllTo generation payload at =
        (at, first-AllTo payload environment.first_reply at)

  module _ (environment : Environment N) (faithful : IsFaithfulAt crate origin environment) where
    refresh_payload_instance_from_cache-origin :
        (payload : Value N)
        → instance_origin crate codec payload ≡ some origin
        → instance_origin crate codec
            (refresh_payload_instance_from_cache crate codec environment payload)
          ≡ some origin
    unfolding refresh_payload_instance_from_cache
    refresh_payload_instance_from_cache-origin payload at =
        rw (refresh_payload_instance_from_cache, at) (by_cached (environment.cached origin) refl)
      where
        by_cached :
            (o : Option SnuInstance)
            → environment.cached origin ≡ o
            → instance_origin crate codec (elim o [
              | none ↦ payload
              | some current ↦ with_member (codes "instance") (codec.write_instance current) payload
            ])
              ≡ some origin
        by_cached none same = at
        by_cached (some current) same =
            instance_origin-with_member crate codec is_codec origin current payload
              (faithful.0 current same) at

    -- The payloads of a request are for an instance at the origin.
    abbrev pub IsFor : ActionRequest N → Type 0
    IsFor (send_action payload id) = instance_origin crate codec payload ≡ some origin
    IsFor (send_action_for_action payload action) =
        instance_origin crate codec payload ≡ some origin
    IsFor (send_action_with_legacy_fallback current id old action) =
        (instance_origin crate codec current ≡ some origin)
        × (instance_origin crate codec old ≡ some origin)

    after_preflight-AllTo :
        (request : ActionRequest N) (preflight : PreflightResult)
        → IsFor request
        → All
            (IsTo crate codec origin)
            (after_preflight crate codec environment request preflight).0
    after_preflight-AllTo (send_action payload id) preflight at =
        send_action_with_refresh-AllTo environment faithful (current_route id)
          preflight.result_generation payload at
    after_preflight-AllTo (send_action_for_action payload action) preflight at = (at, tt)
    after_preflight-AllTo (send_action_with_legacy_fallback current id old action) preflight at =
        if-elim (λ (out : Out N (SnuMessage N)). All (IsTo crate codec origin) out.0)
          (is_legacy preflight.decision) _ _
          (λ _.
            send_action_with_refresh-AllTo environment faithful (legacy_route action)
              preflight.result_generation
              (refresh_payload_instance_from_cache crate codec environment old)
              (refresh_payload_instance_from_cache-origin old at.1))
          (λ _.
            send_action_with_refresh-AllTo environment faithful (current_route id)
              preflight.result_generation current at.0)

    dispatched-AllTo :
        (request : ActionRequest N) (reply : Result Failure PreflightResult)
        → IsFor request
        → All (IsTo crate codec origin) (dispatched crate codec environment request reply).0
    dispatched-AllTo request (err failure) at = tt
    dispatched-AllTo request (ok preflight) at = after_preflight-AllTo request preflight at

    -- An action for the instance at an origin is sent only with a session of that origin, also when it is
    -- sent again with a new one, or with the one of the cache. Relied on are that a session is written
    -- with its URL and read with it, that the cached session of the origin is at the origin of its URL,
    -- and that whatever is awaited, a `/token` that comes matches it; one that is awaited for no origin
    -- may be of any.
    pub dispatch_action-AllTo :
        (request : ActionRequest N)
        → IsFor request
        → All (IsTo crate codec origin) (dispatch_action crate codec environment request).0
    unfolding dispatch_action
    dispatch_action-AllTo request at =
        (tt, dispatched-AllTo request (preflight_for_dispatch environment.preflight_reply) at)
