-- ===== src/Broker/Served.antt =====
-- What the requests on sessions of snu/broker.rs come to.
use snow_cli.Base.{
  sym, ap, List, ◌∙◌, not, is_some, map, any, Bool, [], ◌&&◌, refl, ◌∷◌, false, err, subst, ℕ,
  Result, Option, true, ok, none, some, arith, ◌≡◌,
}
use snow_cli.Broker.Control.{
  with_cleared, ping, stop, cleared_by, verify_session, concluded, clear_sessions, verified_session,
  remembered, refresh_session, changes, with_instance, session_of, waited, refreshes, wait_session,
  Replies, Control, control,
}
use snow_cli.Origin.{UrlCrate}
use snow_cli.Broker.Events.{Failure, Codec}
use snow_cli.Gates.{same_key, normalize_origin, OriginKey}
use snow_cli.Bridge.Messages.{instance_matches_session, RequestError, SnuInstance}
use snow_cli.Broker.Sessions.{
  clear_all, remembers, eviction, clear_origin, Sessions, apply_op, apply_ops, remember_at,
  latest_session, BrokerState, session_for_origin, remember_session,
}
use snow_cli.Broker.Kept.{IsKept}
use snow_cli.Broker.Codecs.{IsTokenFor, matches-origin}
use snow_cli.Broker.Origins.{get_at-remove_at, get_at, same_key_iff, get_at-insert_at}
use snow_cli.Broker.Dispatch.{probe_session}

-- The session is of the target, if there is one, and it is what the broker has for its origin from now on,
-- and what it has for those that name none.
abbrev pub IsRemembered :
    {U : Type 0} → UrlCrate U → Option OriginKey → SnuInstance → BrokerState → Type 0
IsRemembered crate target info state =
    ((origin : OriginKey) → target ≡ some origin → normalize_origin crate info.url ≡ some origin)
    × ((origin : OriginKey)
        → normalize_origin crate info.url ≡ some origin
        → (session_for_origin origin state ≡ some info) × (latest_session state ≡ some info))

module _ {N U : Type 0} (crate : UrlCrate U) (codec : Codec N) (replies : Replies N) where
  remember_at-latest :
      (now : ℕ) (info : SnuInstance) (o : Option OriginKey) (origin : OriginKey)
      (state : BrokerState)
      → o ≡ some origin
      → (session_for_origin origin (remember_at now info o state) ≡ some info)
        × (latest_session (remember_at now info o state) ≡ some info)
  unfolding session_for_origin latest_session
  remember_at-latest now info none origin state h = absurd (ground arith)
  remember_at-latest now info (some other) origin state h = ground (
    arith,
    get_at-insert_at other origin info state.sessions_by_origin,
    get_at-insert_at other other info state.sessions_by_origin,
    same_key_iff other origin,
    same_key_iff other other,
  )

  cached-origin :
      (target : Option OriginKey) (state : BrokerState) (info : SnuInstance) (origin : OriginKey)
      → IsKept crate state
      → session_of target state ≡ some info
      → target ≡ some origin
      → normalize_origin crate info.url ≡ some origin
  unfolding session_for_origin
  cached-origin none state info origin kept found h = absurd (ground arith)
  cached-origin (some other) state info origin kept found h =
      ground (arith, kept.2 other info found)

  token-origin :
      (target : Option OriginKey) (info : SnuInstance)
      → IsTokenFor crate replies.token
      → replies.token target ≡ ok info
      → (origin : OriginKey) → target ≡ some origin
      → normalize_origin crate info.url ≡ some origin
  token-origin target info is_token same origin h =
      matches-origin crate origin info
        (subst (λ t. instance_matches_session crate info t ≡ true) h (is_token target info same))

  abbrev pub target_of : Control → Option OriginKey
  target_of (wait_session is_fresh target) = target
  target_of (refreshes target) = target
  target_of _ = none

  -- Once a session is remembered, an answer with it is an answer with the session of the broker.
  found-IsRemembered :
      (found info : SnuInstance) (target : Option OriginKey) (state : BrokerState)
      → ((origin : OriginKey)
          → target ≡ some origin
          → normalize_origin crate found.url ≡ some origin)
      → with_instance found ≡ with_instance info
      → IsRemembered crate target info (apply_op crate (remembers replies.at found) state)
  unfolding apply_op remember_session
  found-IsRemembered found info target state at h =
      let same : found ≡ info = ground arith in
      subst (λ i. IsRemembered crate target i (remember_session crate replies.at found state)) same
        (
          at,
          λ origin.
              remember_at-latest replies.at found (normalize_origin crate found.url) origin state,
        )

  given-IsRemembered :
      (target : Option OriginKey) (reply : Result RequestError SnuInstance) (state : BrokerState)
      (info : SnuInstance)
      → replies.token target ≡ reply
      → IsTokenFor crate replies.token
      → (remembered crate codec replies reply).1 ≡ ok (with_instance info)
      → IsRemembered crate target info
          (apply_ops crate (changes (remembered crate codec replies reply).0) state)
  given-IsRemembered target (err e) state info same is_token h = absurd (ground arith)
  given-IsRemembered target (ok found) state info same is_token h =
      found-IsRemembered found info target state (token-origin target found is_token same)
        (ground arith)

  waited-IsRemembered :
      (target : Option OriginKey) (o : Option SnuInstance) (state : BrokerState)
      (info : SnuInstance)
      → ((found : SnuInstance) (origin : OriginKey)
          → o ≡ some found
          → target ≡ some origin
          → normalize_origin crate found.url ≡ some origin)
      → IsTokenFor crate replies.token
      → (waited crate codec replies target o).1 ≡ ok (with_instance info)
      → IsRemembered crate target info
          (apply_ops crate (changes (waited crate codec replies target o).0) state)
  waited-IsRemembered target (some found) state info cached is_token h =
      found-IsRemembered found info target state (λ origin. cached found origin refl) (ground arith)
  waited-IsRemembered target none state info cached is_token h =
      given-IsRemembered target (replies.token target) state info refl is_token h

  verified-answer :
      (o : Option SnuInstance) (info : SnuInstance)
      → (verified_session crate codec replies o).1 ≡ ok (with_instance info)
      → ⊥
  verified-answer none info h = absurd (ground arith)
  verified-answer (some found) info h = by_probe (probe_session crate codec replies.probe) h
    where
      by_probe :
          (probe : Result Failure Bool)
          → (concluded crate codec replies found probe).1 ≡ ok (with_instance info)
          → ⊥
      by_probe (err failure) h = absurd (ground arith)
      by_probe (ok true) h = absurd (ground arith)
      by_probe (ok false) h = absurd (ground arith)

  -- A session that is answered, from the cache or from a `/token`, is of the origin that was asked for,
  -- and from then on the broker has it for its origin, and for those that name no origin. Relied on are the state's invariant and that
  -- whatever is awaited, a `/token` that comes matches it; one that is awaited for no origin may be of
  -- any.
  pub control-IsRemembered :
      (state : BrokerState) (request : Control) (info : SnuInstance)
      → IsKept crate state
      → IsTokenFor crate replies.token
      → (control crate codec replies state request).1 ≡ ok (with_instance info)
      → IsRemembered crate
          (target_of request)
          info
          (apply_ops crate (changes (control crate codec replies state request).0) state)
  unfolding control refresh_session
  control-IsRemembered state ping info kept is_token h = absurd (ground arith)
  control-IsRemembered state stop info kept is_token h = absurd (ground arith)
  control-IsRemembered state (wait_session true target) info kept is_token h =
      waited-IsRemembered target none state info (λ found origin none_found. absurd (ground arith))
        is_token h
  control-IsRemembered state (wait_session false target) info kept is_token h =
      waited-IsRemembered target (session_of target state) state info
        (λ found origin. cached-origin target state found origin kept) is_token h
  control-IsRemembered state (refreshes target) info kept is_token h =
      given-IsRemembered target (replies.token target) (apply_op crate (eviction target) state) info
        refl is_token h
  control-IsRemembered state (clear_sessions target) info kept is_token h = absurd (ground arith)
  control-IsRemembered state (verify_session target) info kept is_token h =
      absurd (verified-answer (session_of target state) info h)

-- The keys of the entries.
any-keys :
    (origin : OriginKey) (sessions : Sessions)
    → any (same_key origin) (map (λ entry. entry.0) sessions) ≡ is_some (get_at origin sessions)
unfolding get_at
any-keys origin [] = refl
any-keys origin (entry ∷ entries) =
    ground
      (arith, any-keys origin entries, same_key_iff origin entry.0, same_key_iff entry.0 origin)

cleared-IsGone :
    {U : Type 0} (crate : UrlCrate U) (target : Option OriginKey) (origin : OriginKey)
    (state : BrokerState)
    → any (same_key origin) (cleared_by target state) ≡ (
        is_some (session_for_origin origin state)
        && not (is_some (session_for_origin origin (apply_op crate (eviction target) state))))
unfolding apply_op clear_origin clear_all session_for_origin get_at
cleared-IsGone crate none origin state = ground (arith, any-keys origin state.sessions_by_origin)
cleared-IsGone crate (some other) origin state = ground (
  arith,
  get_at-remove_at other origin state.sessions_by_origin,
  same_key_iff other origin,
  same_key_iff origin other,
)

-- A request to clear answers with the origins that it cleared: those that had a session before it and
-- have none after it.
pub control-clears :
    {N U : Type 0} (crate : UrlCrate U) (codec : Codec N) (replies : Replies N)
    (state : BrokerState) (target : Option OriginKey) (cleared : List OriginKey)
    (origin : OriginKey)
    → (control crate codec replies state (clear_sessions target)).1 ≡ ok (with_cleared cleared)
    → any (same_key origin) cleared ≡ (
        let after =
          apply_ops crate
            (changes (control crate codec replies state (clear_sessions target)).0)
            state in
        is_some (session_for_origin origin state)
        && not (is_some (session_for_origin origin after)))
unfolding control
control-clears crate codec replies state target cleared origin h =
    let same : cleared_by target state ≡ cleared = ground arith in
    ap (any (same_key origin)) (sym same) ∙ cleared-IsGone crate target origin state
