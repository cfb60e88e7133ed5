-- ===== src/Trees.antt =====
-- `BTreeMap` and `BTreeSet` with texts as keys, as the lists of their entries and their elements in
-- their order.
pub mod Laws
use snow_cli.Base.{
  text_eq, map, ltb, any, Option, All, Text, List, [], if◌then◌else◌, ◌||◌, ◌&&◌, ◌==◌, ◌∷◌, ◌≡◌,
  false, true, none, some, Bool,
}

-- Whether a text comes before another. The order of UTF-8 bytes is that of the code points.
unfoldable pub text_before : Text → Text → Bool
text_before s [] = false
text_before [] (d ∷ t) = true
text_before (c ∷ s) (d ∷ t) = ltb c d || ((c == d) && text_before s t)

-- `contains`
abbrev pub has : Text → List Text → Bool
has x = any (text_eq x)

-- `insert`
unfoldable pub add : Text → List Text → List Text
add x [] = x ∷ []
add x (y ∷ set) =
    let rest = add x set in
    if text_eq x y then y ∷ set else if text_before x y then x ∷ y ∷ set else y ∷ rest

-- `remove`
unfoldable pub without : Text → List Text → List Text
without x [] = []
without x (y ∷ set) = let rest = without x set in if text_eq x y then rest else y ∷ rest

module _ {ℓ} {V : Type ℓ} where
  -- `get`
  unfoldable pub entry_at : Text → List (Text × V) → Option V
  entry_at key [] = none
  entry_at key (entry ∷ entries) =
      let found = entry_at key entries in if text_eq key entry.0 then some entry.1 else found

  -- `insert`
  unfoldable pub put : Text → V → List (Text × V) → List (Text × V)
  put key value [] = (key, value) ∷ []
  put key value (entry ∷ entries) =
      let rest = put key value entries in
      if text_eq key entry.0
      then (entry.0, value) ∷ entries
      else if text_before key entry.0
      then (key, value) ∷ entry ∷ entries
      else entry ∷ rest

  -- An assignment through `get_mut`.
  unfoldable pub assign : Text → V → List (Text × V) → List (Text × V)
  assign key value [] = []
  assign key value (entry ∷ entries) =
      let rest = assign key value entries in
      if text_eq key entry.0 then (entry.0, value) ∷ entries else entry ∷ rest

  -- `remove`
  unfoldable pub drop_key : Text → List (Text × V) → List (Text × V)
  drop_key key [] = []
  drop_key key (entry ∷ entries) =
      let rest = drop_key key entries in if text_eq key entry.0 then rest else entry ∷ rest

  abbrev pub keys : List (Text × V) → List Text
  keys = map (λ entry. entry.0)

-- What `BTreeSet` keeps: each element comes before those that follow.
abbrev pub IsAscending : List Text → Type 0
IsAscending [] = Unit {0}
IsAscending (x ∷ set) = All (λ y. text_before x y ≡ true) set × IsAscending set
