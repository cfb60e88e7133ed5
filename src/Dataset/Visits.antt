-- ===== src/Dataset/Visits.antt =====
-- The loop over the children of a table in `topo_sort_dependencies` of cli/commands/data/package.rs.
use snow_cli.Base.{
  arith, if-elim, is_empty, length, text_eq, text_eq_iff, any-append, Bool-cases, inl, inr, ap, ◌∙◌,
  ◌||◌, ◌&&◌, ◌++◌, Text, List, Option, if◌then◌else◌, ◌∷◌, [], none, some, true, false, ◌≡◌, Bool,
  refl, All,
}
use snow_cli.Trees.{text_before, has, entry_at, without, IsAscending}
use snow_cli.Trees.Laws.{entry_at-assign, length-assign, IsAscending-absent}
use snow_cli.Dataset.Order.{Left, visited, visit}

abbrev pub reduced : Text → Option (List Text) → Option (List Text)
reduced table none = none
reduced table (some table_deps) = some (without table table_deps)

-- A table that is left without dependencies.
abbrev pub is_free : Option (List Text) → Bool
is_free none = false
is_free (some table_deps) = is_empty table_deps

abbrev pub IsDistinct : List Text → Type 0
IsDistinct [] = Unit {0}
IsDistinct (x ∷ xs) = (has x xs ≡ false) × IsDistinct xs

pub append-IsDistinct :
    (x : Text) (xs : List Text) → has x xs ≡ false → IsDistinct xs → IsDistinct (xs ++ x ∷ [])
append-IsDistinct x [] h d = (refl, tt)
append-IsDistinct x (y ∷ xs) h d = (
  ground (arith, any-append (text_eq y) xs (x ∷ []), text_eq_iff x y, text_eq_iff y x, d.0),
  append-IsDistinct x xs (ground arith) d.1,
)

entry_at-visited :
    (table child other : Text) (o : Option (List Text)) (left : Left)
    → entry_at child left.0 ≡ o
    → entry_at other (visited table child o left).0 ≡ (
        if text_eq other child
        then reduced table (entry_at other left.0)
        else entry_at other left.0)
entry_at-visited table child other none left h =
    ground (arith, text_eq_iff other child, ap (λ t. entry_at t left.0) {x = other} {y = child})
entry_at-visited table child other (some child_deps) left h = ground (
  arith,
  entry_at-assign child other (without table child_deps) left.0,
  text_eq_iff other child,
  ap (λ t. entry_at t left.0) {x = other} {y = child},
)

has-visited :
    (table child other : Text) (o : Option (List Text)) (left : Left)
    → has other (visited table child o left).1
      ≡ (has other left.1 || (text_eq other child && is_free (reduced table o)))
has-visited table child other none left = ground arith
has-visited table child other (some child_deps) left =
    ground (arith, any-append (text_eq other) left.1 (child ∷ []))

is_free_once :
    (table child other : Text) (left : Left)
    → text_eq other child ≡ false
    → entry_at other (visited table child (entry_at child left.0) left).0 ≡ entry_at other left.0
is_free_once table child other left h =
    ground (arith, entry_at-visited table child other (entry_at child left.0) left refl)

pub entry_at-visit :
    (table : Text) (children : List Text) (left : Left) (other : Text)
    → IsAscending children
    → entry_at other (visit table children left).0 ≡ (
        if has other children then reduced table (entry_at other left.0) else entry_at other left.0)
entry_at-visit table [] left other h = ground arith
entry_at-visit table (child ∷ children) left other h = ground (
  arith,
  entry_at-visit table children (visited table child (entry_at child left.0) left) other h.1,
  entry_at-visited table child other (entry_at child left.0) left refl,
  IsAscending-absent child children h.0,
  text_eq_iff other child,
)

pub has-visit :
    (table : Text) (children : List Text) (left : Left) (other : Text)
    → IsAscending children
    → has other (visit table children left).1 ≡ (
        has other left.1 || (has other children && is_free (reduced table (entry_at other left.0))))
has-visit table [] left other h = ground arith
has-visit table (child ∷ children) left other h =
    let after = visited table child (entry_at child left.0) left in
    elim (Bool-cases (text_eq other child)) [
      | inl same ↦
          let equal = (text_eq_iff other child).0 same in
          ground (
            arith,
            has-visit table children after other h.1,
            has-visited table child other (entry_at child left.0) left,
            IsAscending-absent child children h.0,
            ap (λ t. has t children) equal,
            ap (λ t. is_free (reduced table (entry_at t left.0))) equal,
          )
      | inr differs ↦ ground (
        arith,
        has-visit table children after other h.1,
        has-visited table child other (entry_at child left.0) left,
        ap (λ o. is_free (reduced table o)) (is_free_once table child other left differs),
      )
    ]

visited-IsDistinct :
    (table child : Text) (o : Option (List Text)) (left : Left)
    → has child left.1 ≡ false
    → IsDistinct left.1
    → IsDistinct (visited table child o left).1
visited-IsDistinct table child none left h d = d
visited-IsDistinct table child (some child_deps) left h d =
    if-elim IsDistinct (is_empty (without table child_deps)) _ _
      (λ _. append-IsDistinct child left.1 h d) (λ _. d)

pub visit-IsDistinct :
    (table : Text) (children : List Text) (left : Left)
    → IsAscending children
    → All (λ child. has child left.1 ≡ false) children
    → IsDistinct left.1
    → IsDistinct (visit table children left).1
visit-IsDistinct table [] left ascending h d = d
visit-IsDistinct table (child ∷ children) left ascending h d =
    let after = visited table child (entry_at child left.0) left in
    visit-IsDistinct table children after ascending.1 (still children h.1 ascending.0)
      (visited-IsDistinct table child (entry_at child left.0) left h.0 d)
  where
    still :
        (others : List Text)
        → All (λ other. has other left.1 ≡ false) others
        → All (λ other. text_before child other ≡ true) others
        → All
            (λ other. has other (visited table child (entry_at child left.0) left).1 ≡ false)
            others
    still [] absent later = tt
    still (other ∷ others) absent later = (
      ground (
        arith,
        has-visited table child other (entry_at child left.0) left,
        IsAscending-absent child (other ∷ []) (later.0, tt),
        text_eq_iff other child,
        text_eq_iff child other,
        absent.0,
      ),
      still others absent.1 later.1,
    )

length-visited :
    (table child : Text) (o : Option (List Text)) (left : Left)
    → length (visited table child o left).0 ≡ length left.0
length-visited table child none left = refl
length-visited table child (some child_deps) left =
    length-assign child (without table child_deps) left.0

pub length-visit :
    (table : Text) (children : List Text) (left : Left)
    → length (visit table children left).0 ≡ length left.0
length-visit table [] left = refl
length-visit table (child ∷ children) left =
    length-visit table children (visited table child (entry_at child left.0) left)
    ∙ length-visited table child (entry_at child left.0) left
