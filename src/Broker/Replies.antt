-- ===== src/Broker/Replies.antt =====
-- Which answer an action that snu/broker.rs sends comes back with.
use snow_cli.Base.{
  arith, if-elim, count, Bool, ℕ, Text, Option, Result, ◌∷◌, [], false, true, none, some, ok, err,
  ◌≡◌, ◌⊎◌, inl, inr, refl, codes, and_then,
}
use snow_cli.Json.{Value, get}
use snow_cli.Origin.{UrlCrate}
use snow_cli.Gates.{OriginKey, normalize_origin}
use snow_cli.Gates.Preflight.{PreflightResult}
use snow_cli.Bridge.Messages.{
  SnuInstance, SnuMessage, Matcher, RequestError, action_failed, action_named, timeout_error,
  not_connected, port_conflict, encode_failed, disconnected, paused, gate_state_unavailable,
}
use snow_cli.Broker.Events.{
  Failure, preflighted, requested, Environment, Codec, Route, current_route, legacy_route,
  is_legacy, may_repeat, Out, ActionRequest, send_action, send_action_for_action,
  send_action_with_legacy_fallback,
}
use snow_cli.Broker.Dispatch.{
  preflight_for_dispatch, explain_approval_timeout, with_member, verified_at, mark_payload_verified,
  probe_session, refresh_payload_instance_from_cache, repeat_action, after_second, after_again,
  after_token, refresh_and_repeat, after_probe, after_denial, after_first, send_action_with_refresh,
  after_preflight, payload_of, answered, dispatched, dispatch_action, is_transient_helper_text,
  is_stale_token_text, instance_origin,
}
use snow_cli.Broker.Course.{is_request}

module _ {N U : Type 0} (crate : UrlCrate U) (codec : Codec N) (environment : Environment N)
    (route : Route) where
  -- A part that is good only by the answer to one more request.
  abbrev IsSecond : Out N (SnuMessage N) → Type 0
  IsSecond out =
      (message : SnuMessage N)
      → out.1 ≡ ok message
      → (environment.second_reply ≡ ok message) × (count is_request out.0 ≡ 1)

  mark-silent :
      (payload : Value N)
      → count is_request (mark_payload_verified crate codec environment.now payload) ≡ 0
  unfolding mark_payload_verified
  mark-silent payload = by_origin (instance_origin crate codec payload)
    where
      by_origin :
          (o : Option OriginKey) → count is_request (verified_at crate codec environment.now o) ≡ 0
      by_origin none = ground arith
      by_origin (some origin) = ground arith

  second-IsAnswer :
      (payload : Value N) (reply : Result RequestError (SnuMessage N)) (message : SnuMessage N)
      → (after_second crate codec environment route payload reply).1 ≡ ok message
      → (reply ≡ ok message)
        × (count is_request (after_second crate codec environment route payload reply).0 ≡ 0)
  second-IsAnswer payload (err e) message h = absurd (ground arith)
  second-IsAnswer payload (ok found) message h = ground (arith, mark-silent payload)

  again-IsSecond :
      (payload : Value N) (again : Result Failure PreflightResult)
      → IsSecond (after_again crate codec environment route payload again)
  again-IsSecond payload (err failure) = λ message h. absurd (ground arith)
  again-IsSecond payload (ok preflight) =
      if-elim IsSecond (may_repeat route.requires preflight) _ _
        (λ _ message h.
          let (same, quiet) = second-IsAnswer payload environment.second_reply message h in
          (same, ground arith))
        (λ _ message h. absurd (ground arith))

  repeat_action-IsSecond :
      (payload : Value N) → IsSecond (repeat_action crate codec environment route payload)
  unfolding repeat_action
  repeat_action-IsSecond payload message h =
      let (same, one) =
        again-IsSecond payload (preflight_for_dispatch environment.again_reply) message h in
      (same, ground arith)

  token-IsSecond :
      (payload : Value N) (reply : Result RequestError SnuInstance)
      → IsSecond (after_token crate codec environment route payload reply)
  token-IsSecond payload (err e) message h = absurd (ground arith)
  token-IsSecond payload (ok fresh) message h =
      let (same, one) =
        repeat_action-IsSecond (with_member (codes "instance") (codec.write_instance fresh) payload)
          message h in
      (same, ground arith)

  refresh-IsSecond :
      (target : Option OriginKey) (payload : Value N)
      → IsSecond (refresh_and_repeat crate codec environment route target payload)
  unfolding refresh_and_repeat
  refresh-IsSecond target payload message h =
      let (same, one) = token-IsSecond payload (environment.token_reply target) message h in
      (same, ground arith)

  probe-IsSecond :
      (payload : Value N) (info : SnuInstance) (text : Text) (probe : Result Failure Bool)
      → IsSecond (after_probe crate codec environment route payload info text probe)
  probe-IsSecond payload info text (ok true) message h = absurd (ground arith)
  probe-IsSecond payload info text (ok false) message h =
      refresh-IsSecond (normalize_origin crate info.url) payload message h
  probe-IsSecond payload info text (err failure) message h = absurd (ground arith)

  denial-IsSecond :
      (payload : Value N) (text : Text) (o : Option SnuInstance)
      → IsSecond (after_denial crate codec environment route payload text o)
  denial-IsSecond payload text none = λ message h. absurd (ground arith)
  denial-IsSecond payload text (some info) =
      if-elim IsSecond (is_stale_token_text crate codec text) _ _
        (λ _ message h.
          let probe = probe_session crate codec environment.probe_reply in
          let (same, one) = probe-IsSecond payload info text probe message h in
          (same, ground arith))
        (λ _ message h. absurd (ground arith))

-- What an action comes back with: the answer to its first request, or to its second and last.
abbrev pub IsAnswerOf : {N : Type 0} → Environment N → Out N (SnuMessage N) → Type 0
IsAnswerOf {N} environment out =
    (message : SnuMessage N)
    → out.1 ≡ ok message
    → ((environment.first_reply ≡ ok message) × (count is_request out.0 ≡ 1))
      ⊎ ((environment.second_reply ≡ ok message) × (count is_request out.0 ≡ 2))

module _ {N U : Type 0} (crate : UrlCrate U) (codec : Codec N) (environment : Environment N) where
  send_action_with_refresh-IsAnswerOf :
      (route : Route) (generation : Option ℕ) (payload : Value N)
      → IsAnswerOf environment
          (send_action_with_refresh crate codec environment route generation payload)
  unfolding send_action_with_refresh
  send_action_with_refresh-IsAnswerOf route generation payload =
      by_first environment.first_reply refl
    where
      Sent : Out N (SnuMessage N) → Type 0
      Sent rest =
          IsAnswerOf environment
            (requested payload route.awaits generation route.requires ∷ rest.0, rest.1)

      of_second :
          (rest : Out N (SnuMessage N)) → IsSecond crate codec environment route rest → Sent rest
      of_second rest is_second message h =
          let (same, one) = is_second message h in inr (same, ground arith)

      by_first :
          (reply : Result RequestError (SnuMessage N))
          → environment.first_reply ≡ reply
          → Sent (after_first crate codec environment route payload reply)
      by_first (ok found) at = λ message h.
          inl (ground arith, ground (arith, mark-silent crate codec environment route payload))
      by_first (err (action_failed text)) at =
          if-elim Sent (is_transient_helper_text crate codec text) _ _
            (λ _. of_second _ (repeat_action-IsSecond crate codec environment route payload))
            (λ _. of_second _ (
              denial-IsSecond crate codec environment route payload text
                (and_then (get (codes "instance") payload) codec.read_instance)))
      by_first (err timeout_error) at = λ message h. absurd (ground arith)
      by_first (err not_connected) at = λ message h. absurd (ground arith)
      by_first (err port_conflict) at = λ message h. absurd (ground arith)
      by_first (err encode_failed) at = λ message h. absurd (ground arith)
      by_first (err disconnected) at = λ message h. absurd (ground arith)
      by_first (err paused) at = λ message h. absurd (ground arith)
      by_first (err gate_state_unavailable) at = λ message h. absurd (ground arith)

  answer-IsAnswerOf :
      (payload : Value N) (matcher : Matcher) (generation : Option ℕ)
      (reply : Result RequestError (SnuMessage N))
      → environment.first_reply ≡ reply
      → IsAnswerOf environment
          (requested payload matcher generation none ∷ [], answered crate codec environment reply)
  answer-IsAnswerOf payload matcher generation (err e) at message h = absurd (ground arith)
  answer-IsAnswerOf payload matcher generation (ok found) at message h =
      inl (ground arith, ground arith)

  after_preflight-IsAnswerOf :
      (request : ActionRequest N) (preflight : PreflightResult)
      → IsAnswerOf environment (after_preflight crate codec environment request preflight)
  after_preflight-IsAnswerOf (send_action payload id) preflight =
      send_action_with_refresh-IsAnswerOf (current_route id) preflight.result_generation payload
  after_preflight-IsAnswerOf (send_action_for_action payload action) preflight =
      answer-IsAnswerOf payload (action_named action) preflight.result_generation
        environment.first_reply refl
  after_preflight-IsAnswerOf (send_action_with_legacy_fallback current id old action) preflight =
      if-elim (IsAnswerOf environment) (is_legacy preflight.decision) _ _
        (λ _.
          send_action_with_refresh-IsAnswerOf (legacy_route action) preflight.result_generation
            (refresh_payload_instance_from_cache crate codec environment old))
        (λ _.
          send_action_with_refresh-IsAnswerOf (current_route id) preflight.result_generation
            current)

  explain-ok :
      (preflight : PreflightResult) (result : Result Failure (SnuMessage N))
      (message : SnuMessage N)
      → explain_approval_timeout preflight result ≡ ok message
      → result ≡ ok message
  unfolding explain_approval_timeout
  explain-ok preflight (ok found) message h = h
  explain-ok preflight (err failure) message h = absurd (ground arith)

  -- What a dispatch of an action comes to, by the end of its preflight.
  abbrev pub IsConcluded : Result Failure PreflightResult → Out N (SnuMessage N) → Type 0
  IsConcluded (err failure) out = (out.1 ≡ err failure) × (count is_request out.0 ≡ 0)
  IsConcluded (ok preflight) out = IsAnswerOf environment out

  dispatched-IsConcluded :
      (request : ActionRequest N) (shown : Value N) (reply : Result Failure PreflightResult)
      → IsConcluded reply (
          let rest = dispatched crate codec environment request reply in
          (preflighted shown reply ∷ rest.0, rest.1))
  dispatched-IsConcluded request shown (err failure) = (refl, ground arith)
  dispatched-IsConcluded request shown (ok preflight) = λ message h.
      let out = after_preflight crate codec environment request preflight in
      let known = explain-ok preflight out.1 message h in
      elim (after_preflight-IsAnswerOf request preflight message known) [
        | inl (same, one) ↦ inl (same, ground arith)
        | inr (same, two) ↦ inr (same, ground arith)
      ]

  -- An action whose preflight fails or blocks it is not sent, and comes back with that error. Otherwise
  -- what comes back, if it is no error, is the answer to the only request that was sent, or to the
  -- second of two.
  pub dispatch_action-IsConcluded :
      (request : ActionRequest N)
      → IsConcluded
          (preflight_for_dispatch environment.preflight_reply)
          (dispatch_action crate codec environment request)
  unfolding dispatch_action
  dispatch_action-IsConcluded request =
      dispatched-IsConcluded request (payload_of crate codec environment request)
        (preflight_for_dispatch environment.preflight_reply)
