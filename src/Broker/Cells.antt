-- ===== src/Broker/Cells.antt =====
-- The state of snu/broker.rs beside one cell for each origin.
use snow_cli.Base.{
  arith, if-elim, Bool-cases, inl, inr, is_some, ℕ, List, Option, if◌then◌else◌, ◌∷◌, [], none,
  some, ◌≡◌, refl, ap, ◌∙◌,
}
use snow_cli.Origin.{UrlCrate}
use snow_cli.Gates.{OriginKey, normalize_origin, same_key}
use snow_cli.Bridge.Messages.{SnuInstance}
use snow_cli.Broker.Origins.{get_at, get_at-insert_at, get_at-remove_at, same_key_iff}
use snow_cli.Broker.Sessions.{
  BrokerState, SessionMeta, BrokerOp, remembers, verifies, clears, clears_all, idles, is_changed,
  captured, verified, is_idle, mark_verified, clear_origin, clear_all, remember_session,
  remember_at, apply_op, apply_ops,
}

-- What is known of one origin.
abbrev pub Cell : Type 0
Cell = Option SnuInstance × Option SessionMeta

abbrev pub cell_of : OriginKey → BrokerState → Cell
cell_of origin state = (get_at origin state.sessions_by_origin, get_at origin state.meta_by_origin)

-- A session that comes in: only another token makes its freshness that of the moment.
abbrev pub renew : ℕ → SnuInstance → Cell → Cell
renew now info cell = (some info, if is_changed cell.0 info then some (captured now) else cell.1)

abbrev pub renew_if : ℕ → SnuInstance → Option OriginKey → OriginKey → Cell → Cell
renew_if now info none origin cell = cell
renew_if now info (some other) origin cell =
    if same_key other origin then renew now info cell else cell

module _ {U : Type 0} (crate : UrlCrate U) where
  -- What an operation does to the cell of one origin.
  abbrev pub cell_op : BrokerOp → OriginKey → Cell → Cell
  cell_op (remembers now info) origin cell =
      renew_if now info (normalize_origin crate info.url) origin cell
  cell_op (verifies now other) origin cell =
      if same_key other origin
      then (cell.0, if is_some cell.0 then some (verified now cell.1) else cell.1)
      else cell
  cell_op (clears other) origin cell = if same_key other origin then (none, none) else cell
  cell_op clears_all origin cell = (none, none)
  cell_op _ origin cell = cell

  abbrev pub cell_ops : List BrokerOp → OriginKey → Cell → Cell
  cell_ops [] origin cell = cell
  cell_ops (op ∷ ops) origin cell = cell_ops ops origin (cell_op op origin cell)

  cell_of-remember_at :
      (now : ℕ) (info : SnuInstance) (o : Option OriginKey) (origin : OriginKey)
      (state : BrokerState)
      → cell_of origin (remember_at now info o state)
        ≡ renew_if now info o origin (cell_of origin state)
  cell_of-remember_at now info none origin state = refl
  cell_of-remember_at now info (some other) origin state = ground (
    arith,
    get_at-insert_at other origin info state.sessions_by_origin,
    get_at-insert_at other origin (captured now) state.meta_by_origin,
    same_key_iff other origin,
  )

  cell_of-mark_verified :
      (now : ℕ) (other origin : OriginKey) (state : BrokerState)
      → cell_of origin (mark_verified now other state)
        ≡ cell_op (verifies now other) origin (cell_of origin state)
  unfolding mark_verified
  cell_of-mark_verified now other origin state = elim (Bool-cases (same_key other origin)) [
    | inl same ↦
        let equal = (same_key_iff other origin).0 same in
        ground (
          arith,
          get_at-insert_at other origin (verified now (get_at other state.meta_by_origin))
              state.meta_by_origin,
          ap (λ o. get_at o state.sessions_by_origin) equal,
          ap (λ o. get_at o state.meta_by_origin) equal,
        )
    | inr differs ↦ ground (
      arith,
      get_at-insert_at other origin (verified now (get_at other state.meta_by_origin))
          state.meta_by_origin,
    )
  ]

  cell_of-clear_origin :
      (other origin : OriginKey) (state : BrokerState)
      → cell_of origin (clear_origin other state).1
        ≡ cell_op (clears other) origin (cell_of origin state)
  unfolding clear_origin
  cell_of-clear_origin other origin state = ground (
    arith,
    get_at-remove_at other origin state.sessions_by_origin,
    get_at-remove_at other origin state.meta_by_origin,
  )

  cell_of-apply_op :
      (op : BrokerOp) (origin : OriginKey) (state : BrokerState)
      → cell_of origin (apply_op crate op state) ≡ cell_op op origin (cell_of origin state)
  unfolding apply_op remember_session clear_all get_at
  cell_of-apply_op (remembers now info) origin state =
      cell_of-remember_at now info (normalize_origin crate info.url) origin state
  cell_of-apply_op (verifies now other) origin state = cell_of-mark_verified now other origin state
  cell_of-apply_op (clears other) origin state = cell_of-clear_origin other origin state
  cell_of-apply_op clears_all origin state = refl
  cell_of-apply_op (idles now) origin state =
      if-elim (λ out. cell_of origin out ≡ cell_of origin state) (is_idle now state) _ _ (λ _. refl)
        (λ _. refl)
  cell_of-apply_op _ origin state = refl

  -- After any operations, of any origins and in any order, what the broker holds for one origin is what
  -- the operations make of what it held for it before, as if it were alone: a session that comes in
  -- renews the freshness only if its token is another, an acceptance is noted only for a session that
  -- is there, and to clear or to refresh another origin changes nothing.
  pub cell_of-apply_ops :
      (ops : List BrokerOp) (origin : OriginKey) (state : BrokerState)
      → cell_of origin (apply_ops crate ops state) ≡ cell_ops ops origin (cell_of origin state)
  cell_of-apply_ops [] origin state = refl
  cell_of-apply_ops (op ∷ ops) origin state =
      cell_of-apply_ops ops origin (apply_op crate op state)
      ∙ ap (cell_ops ops origin) (cell_of-apply_op op origin state)
