-- ===== src/Broker/Kept.antt =====
-- What every operation keeps in the state of snu/broker.rs.
use snow_cli.Base.{
  arith, if-elim, Bool-cases, inl, inr, is_some, or_else, Bool, ℕ, List, Option, if◌then◌else◌, ◌∷◌,
  [], false, true, none, some, ◌≡◌, refl, ap, ◌∙◌, subst,
}
use snow_cli.Origin.{UrlCrate, option_eq}
use snow_cli.Gates.{OriginKey, normalize_origin, same_key}
use snow_cli.Bridge.Messages.{SnuInstance}
use snow_cli.Broker.Origins.{
  get_at, insert_at, remove_at, first_key, get_at-insert_at, get_at-remove_at, same_key_iff,
  IsKeyOf, first_key-IsKeyOf, get_at-nil, is_empty-remove_at,
}
use snow_cli.Broker.Sessions.{
  BrokerState, SessionMeta, Sessions, BrokerOp, remembers, verifies, clears, clears_all, idles,
  is_changed, captured, verified, is_idle, mark_verified, present_in, clear_origin, clear_all,
  restore_sessions, remember_session, remember_at, apply_op, apply_ops, new_state,
}

-- The latest origin has a session, and there is none only if there are no sessions; what has freshness
-- has a session; a session is kept at the origin of its URL.
abbrev pub IsKept : {U : Type 0} → UrlCrate U → BrokerState → Type 0
IsKept crate state =
    IsKeyOf state.sessions_by_origin state.latest_origin
    × ((origin : OriginKey)
        → is_some (get_at origin state.meta_by_origin) ≡ true
        → is_some (get_at origin state.sessions_by_origin) ≡ true)
    × ((origin : OriginKey) (info : SnuInstance)
        → get_at origin state.sessions_by_origin ≡ some info
        → normalize_origin crate info.url ≡ some origin)

-- Sessions at the origins of their URLs, as they are written to the disk.
abbrev pub AreFiled : {U : Type 0} → UrlCrate U → Sessions → Type 0
AreFiled crate sessions =
    (origin : OriginKey) (info : SnuInstance)
    → get_at origin sessions ≡ some info
    → normalize_origin crate info.url ≡ some origin

module _ {U : Type 0} (crate : UrlCrate U) where
  remember_at-IsKept :
      (now : ℕ) (info : SnuInstance) (o : Option OriginKey) (state : BrokerState)
      → normalize_origin crate info.url ≡ o
      → IsKept crate state
      → IsKept crate (remember_at now info o state)
  remember_at-IsKept now info none state at h = h
  remember_at-IsKept now info (some origin) state at h = (
    ground (arith, inserted origin, same_key_iff origin origin),
    λ other fresh. by_meta other (is_changed (get_at origin state.sessions_by_origin) info) fresh,
    λ other other_info found. elim (Bool-cases (same_key origin other)) [
      | inl same ↦
          let equal = (same_key_iff origin other).0 same in
          let same_info : other_info ≡ info = ground (arith, inserted other) in
          ap (λ (i : SnuInstance). normalize_origin crate i.url) same_info ∙ (at ∙ ap some equal)
      | inr differs ↦ h.2 other other_info (ground (arith, inserted other))
    ],
  )
    where
      inserted :
          (other : OriginKey)
          → get_at other (insert_at origin info state.sessions_by_origin)
            ≡ (if same_key origin other then some info else get_at other state.sessions_by_origin)
      inserted other = get_at-insert_at origin other info state.sessions_by_origin

      by_meta :
          (other : OriginKey) (changed : Bool)
          → is_some (
              get_at other (
                if changed
                then insert_at origin (captured now) state.meta_by_origin
                else state.meta_by_origin))
            ≡ true
          → is_some (get_at other (insert_at origin info state.sessions_by_origin)) ≡ true
      by_meta other false fresh = ground (arith, inserted other, h.1 other)
      by_meta other true fresh = ground (
        arith,
        inserted other,
        h.1 other,
        get_at-insert_at origin other (captured now) state.meta_by_origin,
      )

  mark_verified-IsKept :
      (now : ℕ) (origin : OriginKey) (state : BrokerState)
      → IsKept crate state
      → IsKept crate (mark_verified now origin state)
  unfolding mark_verified
  mark_verified-IsKept now origin state h = (
    h.0,
    λ other fresh. by_session (get_at origin state.sessions_by_origin) refl other fresh,
    h.2,
  )
    where
      by_session :
          (o : Option SnuInstance)
          → get_at origin state.sessions_by_origin ≡ o
          → (other : OriginKey)
          → is_some (
              get_at other (
                if is_some o
                then insert_at origin
                    (verified now (get_at origin state.meta_by_origin))
                    state.meta_by_origin
                else state.meta_by_origin))
            ≡ true
          → is_some (get_at other state.sessions_by_origin) ≡ true
      by_session none found other fresh = h.1 other fresh
      by_session (some info) found other fresh = elim (Bool-cases (same_key origin other)) [
        | inl same ↦
            let equal = (same_key_iff origin other).0 same in
            ground (arith, ap (λ o. get_at o state.sessions_by_origin) equal)
        | inr differs ↦ h.1 other (
            ground (
              arith,
              get_at-insert_at origin other (verified now (get_at origin state.meta_by_origin))
                  state.meta_by_origin,
            ))
      ]

  clear_origin-IsKept :
      (origin : OriginKey) (state : BrokerState)
      → IsKept crate state
      → IsKept crate (clear_origin origin state).1
  unfolding clear_origin
  clear_origin-IsKept origin state h = (
    by_latest state.latest_origin h.0,
    λ other fresh. ground (arith, removed other, removed_meta other, h.1 other),
    λ other info found. h.2 other info (ground (arith, removed other)),
  )
    where
      removed :
          (other : OriginKey)
          → get_at other (remove_at origin state.sessions_by_origin)
            ≡ (if same_key origin other then none else get_at other state.sessions_by_origin)
      removed other = get_at-remove_at origin other state.sessions_by_origin

      removed_meta :
          (other : OriginKey)
          → get_at other (remove_at origin state.meta_by_origin)
            ≡ (if same_key origin other then none else get_at other state.meta_by_origin)
      removed_meta other = get_at-remove_at origin other state.meta_by_origin

      by_latest :
          (latest : Option OriginKey)
          → IsKeyOf state.sessions_by_origin latest
          → IsKeyOf (remove_at origin state.sessions_by_origin) (
              if option_eq same_key latest (some origin)
              then first_key (remove_at origin state.sessions_by_origin)
              else latest)
      by_latest none k = is_empty-remove_at origin state.sessions_by_origin k
      by_latest (some other) k = elim (Bool-cases (same_key other origin)) [
        | inl same ↦ rw same (first_key-IsKeyOf (remove_at origin state.sessions_by_origin))
        | inr differs ↦
            rw differs
              (ground (arith, removed other, same_key_iff origin other, same_key_iff other origin))
      ]

  new_state-IsKept : (idle_timeout now : ℕ) → IsKept crate (new_state idle_timeout now)
  unfolding new_state get_at
  new_state-IsKept idle_timeout now = (refl, λ origin h. h, λ origin info h. absurd (ground arith))

  -- A broker that starts has no freshness.
  restore_sessions-IsKept :
      (sessions : Sessions) (latest : Option OriginKey) (idle_timeout now : ℕ)
      → AreFiled crate sessions
      → IsKept crate (restore_sessions sessions latest (new_state idle_timeout now))
  unfolding restore_sessions new_state
  restore_sessions-IsKept [] latest idle_timeout now filed = new_state-IsKept idle_timeout now
  restore_sessions-IsKept (entry ∷ entries) latest idle_timeout now filed = (
    by_latest (present_in (entry ∷ entries) latest) latest refl,
    λ origin h. absurd (ground (arith, get_at-nil {V = SessionMeta} origin)),
    filed,
  )
    where
      by_latest :
          (o latest : Option OriginKey)
          → present_in (entry ∷ entries) latest ≡ o
          → IsKeyOf (entry ∷ entries) (or_else o (first_key (entry ∷ entries)))
      by_latest none latest h = first_key-IsKeyOf (entry ∷ entries)
      by_latest (some origin) none h = absurd (ground arith)
      by_latest (some origin) (some other) h =
          elim (Bool-cases (is_some (get_at other (entry ∷ entries)))) [
            | inl present ↦
                let same : other ≡ origin = ground arith in
                subst (λ o. is_some (get_at o (entry ∷ entries)) ≡ true) same present
            | inr absent ↦ absurd (ground arith)
          ]

  clear_all-IsKept : (state : BrokerState) → IsKept crate (clear_all state).1
  unfolding clear_all get_at
  clear_all-IsKept state = (refl, λ origin h. h, λ origin info h. absurd (ground arith))

  apply_op-IsKept :
      (op : BrokerOp) (state : BrokerState)
      → IsKept crate state
      → IsKept crate (apply_op crate op state)
  unfolding apply_op remember_session
  apply_op-IsKept (remembers now info) state h =
      remember_at-IsKept now info (normalize_origin crate info.url) state refl h
  apply_op-IsKept (verifies now origin) state h = mark_verified-IsKept now origin state h
  apply_op-IsKept (clears origin) state h = clear_origin-IsKept origin state h
  apply_op-IsKept clears_all state h = clear_all-IsKept state
  apply_op-IsKept (idles now) state h =
      if-elim (IsKept crate) (is_idle now state) (record state { shutdown = true }) state (λ _. h)
        (λ _. h)
  apply_op-IsKept _ state h = h

  apply_ops-IsKept :
      (ops : List BrokerOp) (state : BrokerState)
      → IsKept crate state
      → IsKept crate (apply_ops crate ops state)
  apply_ops-IsKept [] state h = h
  apply_ops-IsKept (op ∷ ops) state h =
      apply_ops-IsKept ops (apply_op crate op state) (apply_op-IsKept op state h)

  -- A broker that starts with sessions that stand at the origins of their URLs has, after any
  -- operations, a latest origin if and only if it has a session, and that origin has one; only origins
  -- with a session have freshness; and each session stands at the origin of its URL.
  pub started-IsKept :
      (sessions : Sessions) (latest : Option OriginKey) (idle_timeout now : ℕ) (ops : List BrokerOp)
      → AreFiled crate sessions
      → IsKept crate
          (apply_ops crate ops (restore_sessions sessions latest (new_state idle_timeout now)))
  started-IsKept sessions latest idle_timeout now ops filed =
      apply_ops-IsKept ops (restore_sessions sessions latest (new_state idle_timeout now))
        (restore_sessions-IsKept sessions latest idle_timeout now filed)
