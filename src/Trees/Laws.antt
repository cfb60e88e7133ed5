-- ===== src/Trees/Laws.antt =====
-- Lemmas on ordered maps and sets.
use snow_cli.Base.{
  All-weaken, if-elim, text_eq_iff, not, length, is_some, All, text_eq, List, Text, [],
  if◌then◌else◌, ◌||◌, ◌&&◌, ◌≤◌, ◌+◌, refl, ◌∷◌, ◌≡◌, false, true, none, some, arith,
}
use snow_cli.Trees.{
  has, add, without, entry_at, put, assign, drop_key, keys, IsAscending, text_before,
}

text_before_irreflexive : (x : Text) → text_before x x ≡ false
unfolding text_before
text_before_irreflexive [] = refl
text_before_irreflexive (c ∷ s) = ground (arith, text_before_irreflexive s)

text_before_trans :
    (x y z : Text) → text_before x y ≡ true → text_before y z ≡ true → text_before x z ≡ true
unfolding text_before
text_before_trans x y [] h k = absurd (ground arith)
text_before_trans x [] (e ∷ z) h k = absurd (ground arith)
text_before_trans [] (d ∷ y) (e ∷ z) h k = refl
text_before_trans (c ∷ x) (d ∷ y) (e ∷ z) h k = ground (arith, text_before_trans x y z)

text_before_total :
    (x y : Text) → text_eq x y ≡ false → text_before x y ≡ false → text_before y x ≡ true
unfolding text_before
text_before_total [] [] h k = absurd (ground (arith, text_eq_iff [] []))
text_before_total [] (d ∷ y) h k = absurd (ground arith)
text_before_total (c ∷ x) [] h k = refl
text_before_total (c ∷ x) (d ∷ y) h k =
    ground (arith, text_before_total x y, text_eq_iff x y, text_eq_iff (c ∷ x) (d ∷ y))

pub has-add : (x y : Text) (set : List Text) → has x (add y set) ≡ (text_eq x y || has x set)
unfolding add
has-add x y [] = refl
has-add x y (z ∷ set) = ground (arith, has-add x y set, text_eq_iff y z)

pub has-without :
    (x y : Text) (set : List Text) → has x (without y set) ≡ (has x set && not (text_eq x y))
unfolding without
has-without x y [] = refl
has-without x y (z ∷ set) =
    ground (arith, has-without x y set, text_eq_iff x y, text_eq_iff y z, text_eq_iff x z)

pub without-absent : (x : Text) (set : List Text) → has x set ≡ false → without x set ≡ set
unfolding without
without-absent x [] h = refl
without-absent x (y ∷ set) h = ground (arith, without-absent x set)

module _ {ℓ} {V : Type ℓ} where
  pub entry_at-put :
      (key other : Text) (value : V) (entries : List (Text × V))
      → entry_at other (put key value entries)
        ≡ (if text_eq other key then some value else entry_at other entries)
  unfolding entry_at put
  entry_at-put key other value [] = refl
  entry_at-put key other value (entry ∷ entries) = ground (
    arith,
    entry_at-put key other value entries,
    text_eq_iff key entry.0,
    text_eq_iff other key,
    text_eq_iff other entry.0,
  )

  pub entry_at-assign :
      (key other : Text) (value : V) (entries : List (Text × V))
      → is_some (entry_at key entries) ≡ true
      → entry_at other (assign key value entries)
        ≡ (if text_eq other key then some value else entry_at other entries)
  unfolding entry_at assign
  entry_at-assign key other value [] h = absurd (ground arith)
  entry_at-assign key other value (entry ∷ entries) h = ground (
    arith,
    entry_at-assign key other value entries,
    text_eq_iff key entry.0,
    text_eq_iff other key,
    text_eq_iff other entry.0,
  )

  pub entry_at-drop_key :
      (key other : Text) (entries : List (Text × V))
      → entry_at other (drop_key key entries)
        ≡ (if text_eq other key then none else entry_at other entries)
  unfolding entry_at drop_key
  entry_at-drop_key key other [] = ground arith
  entry_at-drop_key key other (entry ∷ entries) = ground (
    arith,
    entry_at-drop_key key other entries,
    text_eq_iff key entry.0,
    text_eq_iff other key,
    text_eq_iff other entry.0,
  )

  pub length-assign :
      (key : Text) (value : V) (entries : List (Text × V))
      → length (assign key value entries) ≡ length entries
  unfolding assign
  length-assign key value [] = refl
  length-assign key value (entry ∷ entries) = ground (arith, length-assign key value entries)

  pub length-drop_key :
      (key : Text) (entries : List (Text × V))
      → length (drop_key key entries) + (if is_some (entry_at key entries) then 1 else 0)
        ≤ length entries
  unfolding entry_at drop_key
  length-drop_key key [] = ground arith
  length-drop_key key (entry ∷ entries) = ground (arith, length-drop_key key entries)

  pub has-keys :
      (key : Text) (entries : List (Text × V))
      → has key (keys entries) ≡ is_some (entry_at key entries)
  unfolding entry_at
  has-keys key [] = refl
  has-keys key (entry ∷ entries) = ground (arith, has-keys key entries)

All-add : (P : Text → Type 0) (x : Text) (set : List Text) → P x → All P set → All P (add x set)
unfolding add
All-add P x [] p h = (p, tt)
All-add P x (y ∷ set) p h =
    if-elim (All P) (text_eq x y) _ _ (λ _. h)
      (λ _. if-elim (All P) (text_before x y) _ _ (λ _. (p, h)) (λ _. (h.0, All-add P x set p h.1)))

pub add-IsAscending : (x : Text) (set : List Text) → IsAscending set → IsAscending (add x set)
unfolding add
add-IsAscending x [] h = (tt, tt)
add-IsAscending x (y ∷ set) h =
    if-elim IsAscending (text_eq x y) _ _ (λ _. h)
      (λ differs.
        if-elim IsAscending (text_before x y) _ _
          (λ before. (
            (
              before,
              All-weaken (λ z. text_before y z ≡ true) (λ z. text_before x z ≡ true)
                  (λ z. text_before_trans x y z before) set h.0,
            ),
            h,
          ))
          (λ not_before. (
            All-add (λ z. text_before y z ≡ true) x set (text_before_total x y differs not_before)
                h.0,
            add-IsAscending x set h.1,
          )))

-- An element does not stand behind itself.
pub IsAscending-absent :
    (x : Text) (set : List Text) → All (λ y. text_before x y ≡ true) set → has x set ≡ false
IsAscending-absent x [] h = refl
IsAscending-absent x (y ∷ set) h =
    ground (arith, IsAscending-absent x set h.1, text_before_irreflexive x, text_eq_iff x y, h.0)
