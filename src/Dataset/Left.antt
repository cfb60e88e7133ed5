-- ===== src/Dataset/Left.antt =====
-- What is left of the dependencies of tables in `topo_sort_dependencies` of cli/commands/data/package.rs.
use snow_cli.Base.{
  arith, is_some, ap, ◌||◌, ◌&&◌, ◌++◌, not, Text, List, Option, if◌then◌else◌, ◌∷◌, [], none, some,
  true, false, ◌≡◌, refl,
}
use snow_cli.Trees.{has, entry_at, without}
use snow_cli.Trees.Laws.{without-absent, has-without}
use snow_cli.Dataset.Order.{Deps, Left}
use snow_cli.Dataset.Edges.{needs}
use snow_cli.Dataset.Visits.{reduced, is_free, IsDistinct}

-- What is left of the dependencies when the tables of the order are done.
abbrev pub minus : List Text → List Text → List Text
minus [] table_deps = table_deps
minus (table ∷ order) table_deps = minus order (without table table_deps)

abbrev pub left_of : List Text → Option (List Text) → Option (List Text)
left_of order none = none
left_of order (some table_deps) = some (minus order table_deps)

pub left_of-append :
    (table : Text) (order : List Text) (o : Option (List Text))
    → left_of (order ++ table ∷ []) o ≡ reduced table (left_of order o)
left_of-append table order none = refl
left_of-append table [] (some table_deps) = refl
left_of-append table (other ∷ order) (some table_deps) =
    left_of-append table order (some (without other table_deps))

pub has-minus :
    (dep : Text) (order table_deps : List Text)
    → has dep (minus order table_deps) ≡ (has dep table_deps && not (has dep order))
has-minus dep [] table_deps = ground arith
has-minus dep (table ∷ order) table_deps =
    ground (arith, has-minus dep order (without table table_deps), has-without dep table table_deps)

pub needs-left_of :
    (dep : Text) (order : List Text) (o : Option (List Text))
    → needs (left_of order o) dep ≡ (needs o dep && not (has dep order))
needs-left_of dep order none = ground arith
needs-left_of dep order (some table_deps) = has-minus dep order table_deps

pub reduced-absent :
    (table : Text) (o : Option (List Text)) → needs o table ≡ false → reduced table o ≡ o
reduced-absent table none h = refl
reduced-absent table (some table_deps) h = ap some (without-absent table table_deps h)

pub is_free-needs : (o : Option (List Text)) (dep : Text) → is_free o ≡ true → needs o dep ≡ false
is_free-needs none dep h = refl
is_free-needs (some []) dep h = refl
is_free-needs (some (d ∷ ds)) dep h = absurd (ground arith)

pub is_free-is_some : (o : Option (List Text)) → is_free o ≡ true → is_some o ≡ true
is_free-is_some none h = absurd (ground arith)
is_free-is_some (some table_deps) h = refl

pub left_of-is_some :
    (order : List Text) (o : Option (List Text))
    → is_free (left_of order o) ≡ true
    → is_some o ≡ true
left_of-is_some order none h = absurd (ground arith)
left_of-is_some order (some table_deps) h = refl

-- Each table comes after those it depends on, of which the first are seen already.
abbrev pub ArePlaced : Deps → List Text → List Text → Type 0
ArePlaced deps seen [] = Unit {0}
ArePlaced deps seen (table ∷ order) =
    ((dep : Text) → needs (entry_at table deps) dep ≡ true → has dep seen ≡ true)
    × ArePlaced deps (table ∷ seen) order

pub append-ArePlaced :
    (deps : Deps) (table : Text) (seen order : List Text)
    → ArePlaced deps seen order
    → ((dep : Text)
        → needs (entry_at table deps) dep ≡ true
        → (has dep seen || has dep order) ≡ true)
    → ArePlaced deps seen (order ++ table ∷ [])
append-ArePlaced deps table seen [] placed h = (λ dep needed. ground (arith, h dep needed), tt)
append-ArePlaced deps table seen (other ∷ order) placed h = (
  placed.0,
  append-ArePlaced deps table (other ∷ seen) order placed.1
      (λ dep needed. ground (arith, h dep needed)),
)

-- What is left is what the order leaves; the queue has the tables that are free, once each.
abbrev pub IsLeft : Deps → List Text → Left → Type 0
IsLeft deps order left =
    ((table : Text)
      → entry_at table left.0
        ≡ (if has table order then none else left_of order (entry_at table deps)))
    × ((table : Text) → has table left.1 ≡ is_free (entry_at table left.0))
    × IsDistinct left.1

-- The order so far is one of tables, each once and each after those it depends on.
abbrev pub IsBegun : Deps → List Text → Type 0
IsBegun deps order =
    IsDistinct order
    × ((table : Text) → has table order ≡ true → is_some (entry_at table deps) ≡ true)
    × ArePlaced deps [] order
