-- ===== src/Broker/Origins.antt =====
-- A `HashMap` with origins as keys, as the list of its entries in the order of its iteration.
use snow_cli.Base.{
  arith, is_empty, is_some, Option, List, if◌then◌else◌, ◌∷◌, [], true, none, some, ◌≡◌, refl, ◌↔◌,
  text_eq_iff,
}
use snow_cli.Gates.{OriginKey, same_key}

pub same_key_iff : (left right : OriginKey) → (same_key left right ≡ true) ↔ (left ≡ right)
unfolding same_key
same_key_iff left right =
    ground (
      arith,
      text_eq_iff left.key_scheme right.key_scheme,
      text_eq_iff left.key_host right.key_host,
    )

module _ {ℓ} {V : Type ℓ} where
  unfoldable pub get_at : OriginKey → List (OriginKey × V) → Option V
  get_at origin [] = none
  get_at origin (entry ∷ entries) =
      let found = get_at origin entries in if same_key entry.0 origin then some entry.1 else found

  unfoldable pub insert_at : OriginKey → V → List (OriginKey × V) → List (OriginKey × V)
  insert_at origin value [] = (origin, value) ∷ []
  insert_at origin value (entry ∷ entries) =
      let rest = insert_at origin value entries in
      if same_key entry.0 origin then (entry.0, value) ∷ entries else entry ∷ rest

  unfoldable pub remove_at : OriginKey → List (OriginKey × V) → List (OriginKey × V)
  remove_at origin [] = []
  remove_at origin (entry ∷ entries) =
      let rest = remove_at origin entries in if same_key entry.0 origin then rest else entry ∷ rest

  -- `keys().next()`
  unfoldable pub first_key : List (OriginKey × V) → Option OriginKey
  first_key [] = none
  first_key (entry ∷ entries) = some entry.0

  pub get_at-insert_at :
      (origin other : OriginKey) (value : V) (entries : List (OriginKey × V))
      → get_at other (insert_at origin value entries)
        ≡ (if same_key origin other then some value else get_at other entries)
  unfolding get_at insert_at
  get_at-insert_at origin other value [] = ground arith
  get_at-insert_at origin other value (entry ∷ entries) = ground (
    arith,
    get_at-insert_at origin other value entries,
    same_key_iff entry.0 origin,
    same_key_iff origin other,
    same_key_iff entry.0 other,
  )

  pub get_at-remove_at :
      (origin other : OriginKey) (entries : List (OriginKey × V))
      → get_at other (remove_at origin entries)
        ≡ (if same_key origin other then none else get_at other entries)
  unfolding get_at remove_at
  get_at-remove_at origin other [] = ground arith
  get_at-remove_at origin other (entry ∷ entries) = ground (
    arith,
    get_at-remove_at origin other entries,
    same_key_iff entry.0 origin,
    same_key_iff origin other,
    same_key_iff entry.0 other,
  )

  pub get_at-nil : (origin : OriginKey) → get_at origin [] ≡ none
  unfolding get_at
  get_at-nil origin = refl

  pub is_empty-remove_at :
      (origin : OriginKey) (entries : List (OriginKey × V))
      → is_empty entries ≡ true
      → is_empty (remove_at origin entries) ≡ true
  unfolding remove_at
  is_empty-remove_at origin [] h = refl
  is_empty-remove_at origin (entry ∷ entries) h = absurd (ground arith)

  -- The first key is the key of an entry, and there is none in an empty map only.
  abbrev pub IsKeyOf : List (OriginKey × V) → Option OriginKey → Type 0
  IsKeyOf entries none = is_empty entries ≡ true
  IsKeyOf entries (some origin) = is_some (get_at origin entries) ≡ true

  pub first_key-IsKeyOf : (entries : List (OriginKey × V)) → IsKeyOf entries (first_key entries)
  unfolding first_key get_at
  first_key-IsKeyOf [] = refl
  first_key-IsKeyOf (entry ∷ entries) = ground (arith, same_key_iff entry.0 entry.0)
