-- ===== src/Dataset/Ordered.antt =====
-- The order of the tables of a package in cli/commands/data/package.rs.
use snow_cli.Base.{
  arith, subst, Bool-cases, inl, inr, is_some, total, map, text_eq, text_eq_iff, ap, sym, ◌∙◌, ℕ,
  Text, Option, List, Result, ◌∷◌, [], ◌+◌, true, false, some, none, ok, err, ◌≡◌, refl, All,
  All-map,
}
use snow_cli.Trees.{has, without, entry_at}
use snow_cli.Trees.Laws.{has-without, without-absent}
use snow_cli.Dataset.Order.{Deps, topo_sort_dependencies}
use snow_cli.Dataset.Visits.{IsDistinct}
use snow_cli.Dataset.Sorted.{IsOrderOf, IsSortOf, topo_sort_dependencies-IsSortOf}
use snow_cli.Dataset.Types.{ManifestTable, PackageError}
use snow_cli.Dataset.Tables.{deps_of, names_of, collect, sorted, manifest_node, topological_order}
use snow_cli.Dataset.Files.{table_names, collect-deps_of}
use snow_cli.Dataset.Complete.{All-find}

total-without :
    (w : Text → ℕ) (x : Text) (xs : List Text)
    → has x xs ≡ true
    → IsDistinct xs
    → total w xs ≡ w x + total w (without x xs)
unfolding without
total-without w x [] there distinct = absurd (ground arith)
total-without w x (y ∷ xs) there distinct = elim (Bool-cases (text_eq x y)) [
  | inl same ↦
      let equal = (text_eq_iff x y).0 same in
      ground (arith, ap w equal, without-absent x xs, ap (λ t. has t xs) equal, distinct.0)
  | inr differs ↦ ground (arith, total-without w x xs (ground arith) distinct.1)
]

without-IsDistinct : (x : Text) (xs : List Text) → IsDistinct xs → IsDistinct (without x xs)
unfolding without
without-IsDistinct x [] h = tt
without-IsDistinct x (y ∷ xs) h = elim (Bool-cases (text_eq x y)) [
  | inl same ↦ rw same (without-IsDistinct x xs h.1)
  | inr differs ↦ rw differs (ground (arith, has-without y x xs, h.0), without-IsDistinct x xs h.1)
]

-- Lists of the same elements, each once, have the same sum.
pub total-same :
    (w : Text → ℕ) (xs ys : List Text)
    → IsDistinct xs
    → IsDistinct ys
    → ((x : Text) → has x xs ≡ has x ys)
    → total w xs ≡ total w ys
total-same w [] [] dx dy h = refl
total-same w [] (y ∷ ys) dx dy h = absurd (ground (arith, h y, text_eq_iff y y))
total-same w (x ∷ xs) ys dx dy h =
    let rest = total-same w xs (without x ys) dx.1 (without-IsDistinct x ys dy) (λ z. ground (
      arith,
      has-without z x ys,
      h z,
      text_eq_iff z x,
      dx.0,
      ap (λ t. has t xs) {x = z} {y = x},
    )) in
    ground (arith, total-without w x ys (ground (arith, h x, text_eq_iff x x)) dy)

names_of-nodes :
    (tables : List ManifestTable) → names_of (map manifest_node tables) ≡ table_names tables
names_of-nodes [] = refl
names_of-nodes (table ∷ tables) = ap (λ names. table.manifest_name ∷ names) (names_of-nodes tables)

-- The order is one of the tables by what they depend on.
abbrev pub IsOrdered : List ManifestTable → List Text → Deps → Type 0
IsOrdered tables order deps =
    IsOrderOf deps order
    × All (λ table. entry_at table.manifest_name deps ≡ some (deps_of (manifest_node table))) tables
    × ((name : Text) → has name (table_names tables) ≡ false → entry_at name deps ≡ none)

sorted-ok :
    (o : Option (Result (List Text) (List Text))) (order : List Text)
    → sorted o ≡ some (ok order)
    → o ≡ some (ok order)
sorted-ok none order h = absurd (ground arith)
sorted-ok (some (err tables)) order h = absurd (ground arith)
sorted-ok (some (ok found)) order h = ground arith

pub topological_order-IsOrdered :
    (tables : List ManifestTable) (order : List Text)
    → IsDistinct (table_names tables)
    → topological_order (map manifest_node tables) ≡ some (ok order)
    → (deps : Deps) × IsOrdered tables order deps
unfolding topological_order entry_at
topological_order-IsOrdered tables order distinct h =
    by_deps (collect (names_of (map manifest_node tables)) (map manifest_node tables) []) refl h
  where
    by_deps :
        (r : Result PackageError Deps)
        → collect (names_of (map manifest_node tables)) (map manifest_node tables) [] ≡ r
        → ◌≡◌ {A = Option (Result PackageError (List Text))}
            (elim r [ err e ↦ some (err e) | ok deps ↦ sorted (topo_sort_dependencies deps) ])
            (some (ok order))
        → (deps : Deps) × IsOrdered tables order deps
    by_deps (err e) at ended = absurd (ground arith)
    by_deps (ok deps) at ended =
        let names = names_of (map manifest_node tables) in
        let (placed, ascending, kept) =
          collect-deps_of names (map manifest_node tables) [] deps at
            (subst IsDistinct (sym (names_of-nodes tables)) distinct) tt in
        (
          deps,
          (
            subst (IsSortOf deps) (sorted-ok (topo_sort_dependencies deps) order ended)
                (topo_sort_dependencies-IsSortOf deps ascending),
            All-map (λ node. entry_at node.name deps ≡ some (deps_of node)) manifest_node tables
                placed,
            λ name absent. kept name (ap (has name) (names_of-nodes tables) ∙ absent),
          ),
        )

-- The order has the names of the tables.
pub ordered-has :
    (tables : List ManifestTable) (order : List Text) (deps : Deps) (name : Text)
    → IsOrdered tables order deps
    → has name order ≡ has name (table_names tables)
ordered-has tables order deps name (is_order, placed, absent) =
    elim (Bool-cases (has name (table_names tables))) [
      | inl there ↦
          let (table, same, at) =
            All-find
              (λ table. entry_at table.manifest_name deps ≡ some (deps_of (manifest_node table)))
              name tables there placed in
          ground (arith, is_order.1 name, ap (λ n. is_some (entry_at n deps)) same, ap is_some at)
      | inr other ↦ ground (arith, is_order.1 name, absent name other)
    ]

sorted-none :
    (deps : Deps) (o : Option (Result (List Text) (List Text)))
    → IsSortOf deps o
    → sorted o ≡ none
    → ⊥
sorted-none deps none is_sort h = is_sort
sorted-none deps (some (err tables)) is_sort h = absurd (ground arith)
sorted-none deps (some (ok order)) is_sort h = absurd (ground arith)

-- The order or the error is found.
pub topological_order-found :
    (tables : List ManifestTable)
    → IsDistinct (table_names tables)
    → topological_order (map manifest_node tables) ≡ none
    → ⊥
unfolding topological_order
topological_order-found tables distinct h =
    by_deps (collect (names_of (map manifest_node tables)) (map manifest_node tables) []) refl h
  where
    by_deps :
        (r : Result PackageError Deps)
        → collect (names_of (map manifest_node tables)) (map manifest_node tables) [] ≡ r
        → ◌≡◌ {A = Option (Result PackageError (List Text))}
            (elim r [ err e ↦ some (err e) | ok deps ↦ sorted (topo_sort_dependencies deps) ])
            none
        → ⊥
    by_deps (err e) at ended = absurd (ground arith)
    by_deps (ok deps) at ended =
        let (placed, ascending, kept) =
          collect-deps_of (names_of (map manifest_node tables)) (map manifest_node tables) [] deps
            at (subst IsDistinct (sym (names_of-nodes tables)) distinct) tt in
        sorted-none deps (topo_sort_dependencies deps)
          (topo_sort_dependencies-IsSortOf deps ascending) ended
