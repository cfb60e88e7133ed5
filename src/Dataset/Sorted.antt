-- ===== src/Dataset/Sorted.antt =====
-- `topo_sort_dependencies` of cli/commands/data/package.rs beside the orders that there are.
use snow_cli.Base.{
  arith, is_some, length, text_eq, text_eq_iff, Bool-cases, inl, inr, ap, sym, ◌∙◌, ◌++◌, ℕ, zero,
  suc, Text, List, Option, Result, ok, err, if◌then◌else◌, ◌∷◌, [], none, some, true, false, ◌≡◌,
  Bool, refl, ◌≤◌,
}
use snow_cli.Trees.{has, entry_at, drop_key, IsAscending, keys}
use snow_cli.Trees.Laws.{has-keys, IsAscending-absent}
use snow_cli.Dataset.Order.{
  Deps, visit, children_of, ready_of, loop, outgoing_of, concluded, topo_sort_dependencies,
}
use snow_cli.Dataset.Edges.{needs, AreEdges, outgoing_of-AreEdges}
use snow_cli.Dataset.Visits.{is_free, IsDistinct}
use snow_cli.Dataset.Left.{left_of, IsLeft, IsBegun, ArePlaced, needs-left_of}
use snow_cli.Dataset.Rounds.{next-IsLeft, next-IsBegun, next-shorter}

-- The end of the loop.
abbrev Ended : Deps → Option (List Text × Deps) → Type 0
Ended deps none = ⊥
Ended deps (some (order, incoming)) = IsLeft deps order (incoming, []) × IsBegun deps order

loop-Ended :
    (deps outgoing : Deps)
    → AreEdges deps outgoing
    → (fuel : ℕ) (order : List Text) (incoming : Deps) (ready : List Text) → length incoming ≤ fuel
    → IsLeft deps order (incoming, ready)
    → IsBegun deps order
    → Ended deps (loop fuel outgoing order (incoming, ready))
unfolding loop entry_at
loop-Ended deps outgoing edges zero order incoming [] h left begun = (left, begun)
loop-Ended deps outgoing edges zero order [] (table ∷ ready) h left begun =
    absurd (ground (arith, left.1 table, text_eq_iff table table))
loop-Ended deps outgoing edges zero order (entry ∷ incoming) (table ∷ ready) h left begun =
    absurd (ground arith)
loop-Ended deps outgoing edges (suc fuel) order incoming [] h left begun = (left, begun)
loop-Ended deps outgoing edges (suc fuel) order incoming (table ∷ ready) h left begun =
    let after = visit table (children_of table outgoing) (incoming, ready) in
    loop-Ended deps outgoing edges fuel (order ++ table ∷ []) (drop_key table after.0) after.1
      (ground (arith, next-shorter deps outgoing edges order table incoming ready left))
      (next-IsLeft deps outgoing edges order table incoming ready left)
      (next-IsBegun deps outgoing edges order table incoming ready left begun)

has-ready_of :
    (deps : Deps) (table : Text)
    → IsAscending (keys deps)
    → has table (ready_of deps) ≡ is_free (entry_at table deps)
unfolding ready_of entry_at
has-ready_of [] table h = refl
has-ready_of (entry ∷ deps) table h = elim (Bool-cases (text_eq table entry.0)) [
  | inl same ↦
      let equal = (text_eq_iff table entry.0).0 same in
      ground (
        arith,
        has-ready_of deps table h.1,
        ap (λ t. is_some (entry_at t deps)) equal,
        IsAscending-absent entry.0 (keys deps) h.0,
        has-keys entry.0 deps,
      )
  | inr differs ↦ ground (arith, has-ready_of deps table h.1)
]

ready_of-IsDistinct : (deps : Deps) → IsAscending (keys deps) → IsDistinct (ready_of deps)
unfolding ready_of
ready_of-IsDistinct [] h = tt
ready_of-IsDistinct ((table, []) ∷ deps) h = (
  ground (
    arith,
    has-ready_of deps table h.1,
    IsAscending-absent table (keys deps) h.0,
    has-keys table deps,
  ),
  ready_of-IsDistinct deps h.1,
)
ready_of-IsDistinct ((table, dep ∷ table_deps) ∷ deps) h = ready_of-IsDistinct deps h.1

left_of-nil : (o : Option (List Text)) → left_of [] o ≡ o
left_of-nil none = refl
left_of-nil (some table_deps) = refl

start-IsLeft : (deps : Deps) → IsAscending (keys deps) → IsLeft deps [] (deps, ready_of deps)
start-IsLeft deps h = (
  λ table. sym (left_of-nil (entry_at table deps)),
  λ table. has-ready_of deps table h,
  ready_of-IsDistinct deps h,
)

-- An order of all tables, each once, and each after those it depends on.
abbrev pub IsOrderOf : Deps → List Text → Type 0
IsOrderOf deps order =
    IsDistinct order
    × ((table : Text) → has table order ≡ is_some (entry_at table deps))
    × ArePlaced deps [] order

-- Each of the tables depends on another of them, or on what is no table.
abbrev pub AreStuck : Deps → List Text → Type 0
AreStuck deps tables =
    (table : Text)
    → has table tables ≡ true
    → (dep : Text) × (needs (entry_at table deps) dep ≡ true)
      × (is_some (entry_at dep deps) ≡ true → has dep tables ≡ true)

abbrev pub IsSortOf : Deps → Option (Result (List Text) (List Text)) → Type 0
IsSortOf deps none = ⊥
IsSortOf deps (some (ok order)) = IsOrderOf deps order
IsSortOf deps (some (err tables)) =
    AreStuck deps tables × ((order : List Text) → IsOrderOf deps order → ⊥)

-- A table that is not free needs something that is left.
blocked :
    (o : Option (List Text))
    → is_some o ≡ true
    → is_free o ≡ false
    → (dep : Text) × (needs o dep ≡ true)
blocked none h k = absurd (ground arith)
blocked (some []) h k = absurd (ground arith)
blocked (some (dep ∷ table_deps)) h k = (dep, ground (arith, text_eq_iff dep dep))

module _ (deps : Deps) (order : List Text) (incoming : Deps)
    (left : IsLeft deps order (incoming, [])) where
  remains :
      (table : Text)
      → is_some (entry_at table deps) ≡ true
      → has table order ≡ false
      → is_some (entry_at table incoming) ≡ true
  remains table h new = by_entry (entry_at table deps) h refl
    where
      by_entry :
          (o : Option (List Text))
          → is_some o ≡ true
          → entry_at table deps ≡ o
          → is_some (entry_at table incoming) ≡ true
      by_entry none is_key same = absurd (ground arith)
      by_entry (some table_deps) is_key same = ground (arith, left.0 table, ap (left_of order) same)

  -- What a table that remains still waits for.
  waits :
      (table : Text)
      → is_some (entry_at table incoming) ≡ true
      → (dep : Text) × (needs (entry_at table deps) dep ≡ true) × (has dep order ≡ false)
  waits table h =
      let new : has table order ≡ false = ground (arith, left.0 table) in
      let same : entry_at table incoming ≡ left_of order (entry_at table deps) =
        ground (arith, left.0 table) in
      let (dep, needed) = blocked (entry_at table incoming) h (sym (left.1 table)) in
      let known = ap (λ o. needs o dep) same in
      (
        dep,
        ground (arith, needs-left_of dep order (entry_at table deps)),
        ground (arith, needs-left_of dep order (entry_at table deps)),
      )

  -- An order has no table that remains.
  ordered :
      (seen others : List Text)
      → ((table : Text) → has table seen ≡ true → has table order ≡ true)
      → ((table : Text) → has table others ≡ true → is_some (entry_at table deps) ≡ true)
      → ArePlaced deps seen others
      → (table : Text) → has table others ≡ true
      → has table order ≡ true
  ordered seen [] done are_keys placed table h = absurd (ground arith)
  ordered seen (first ∷ others) done are_keys placed table h =
      elim (Bool-cases (text_eq table first)) [
        | inl same ↦ rw ((text_eq_iff table first).0 same) first_done
        | inr differs ↦
            ordered (first ∷ seen) others
              (λ other found. elim (Bool-cases (text_eq other first)) [
                | inl same ↦ rw ((text_eq_iff other first).0 same) first_done
                | inr differs ↦ done other (ground arith)
              ])
              (λ other found. are_keys other (ground arith)) placed.1 table (ground arith)
      ]
    where
      first_done : has first order ≡ true
      first_done = elim (Bool-cases (has first order)) [
        | inl known ↦ known
        | inr new_first ↦
            let is_key = are_keys first (ground (arith, text_eq_iff first first)) in
            let (dep, needed, new) = waits first (remains first is_key new_first) in
            absurd (ground (arith, done dep (placed.0 dep needed)))
      ]

kept :
    (is_done : Bool) (order : List Text) (o : Option (List Text))
    → is_some (if is_done then none else left_of order o) ≡ true
    → is_some o ≡ true
kept true order o h = absurd (ground arith)
kept false order none h = absurd (ground arith)
kept false order (some table_deps) h = refl

is_key-remaining :
    (deps : Deps) (order : List Text) (incoming : Deps)
    → IsLeft deps order (incoming, [])
    → (table : Text) → is_some (entry_at table incoming) ≡ true
    → is_some (entry_at table deps) ≡ true
is_key-remaining deps order incoming left table h =
    kept (has table order) order (entry_at table deps) (sym (ap is_some (left.0 table)) ∙ h)

concluded-IsSortOf :
    (deps : Deps) (left : List Text × Deps)
    → Ended deps (some left)
    → IsSortOf deps (some (concluded left))
unfolding entry_at
concluded-IsSortOf deps (order, []) (left, begun) = (
  begun.0,
  λ table. elim (Bool-cases (has table order)) [
    | inl done ↦ ground (arith, begun.1 table)
    | inr new ↦ elim (Bool-cases (is_some (entry_at table deps))) [
      | inl is_key ↦ absurd (ground (arith, remains deps order [] left table is_key new))
      | inr other ↦ ground arith
    ]
  ],
  begun.2,
)
concluded-IsSortOf deps (order, entry ∷ incoming) (left, begun) = (
  λ table h.
      let (dep, needed, new) =
        waits deps order (entry ∷ incoming) left table
          (ground (arith, has-keys table (entry ∷ incoming))) in
      (
        dep,
        needed,
        λ is_key. ground (
          arith,
          has-keys dep (entry ∷ incoming),
          remains deps order (entry ∷ incoming) left dep is_key new,
        ),
      ),
  λ others is_order.
      let there : is_some (entry_at entry.0 (entry ∷ incoming)) ≡ true =
        ground (arith, text_eq_iff entry.0 entry.0) in
      absurd (
        ground (
          arith,
          left.0 entry.0,
          is_order.1 entry.0,
          is_key-remaining deps order (entry ∷ incoming) left entry.0 there,
          ordered deps order (entry ∷ incoming) left [] others (λ table h. absurd (ground arith))
              (λ table h. ground (arith, is_order.1 table)) is_order.2 entry.0,
        )),
)

-- The tables are put in an order in which each comes once, and after those that it depends on, if
-- there is such an order. If there is none, the tables that the error names are such that each depends
-- on another of them, or on what is no table.
pub topo_sort_dependencies-IsSortOf :
    (deps : Deps) → IsAscending (keys deps) → IsSortOf deps (topo_sort_dependencies deps)
unfolding topo_sort_dependencies
topo_sort_dependencies-IsSortOf deps h =
    by_left (loop (length deps) (outgoing_of deps []) [] (deps, ready_of deps)) (
      loop-Ended deps (outgoing_of deps []) (outgoing_of-AreEdges deps h) (length deps) [] deps
        (ready_of deps) (ground arith) (start-IsLeft deps h)
        (tt, λ table found. absurd (ground arith), tt))
  where
    by_left :
        (o : Option (List Text × Deps))
        → Ended deps o
        → IsSortOf deps (elim o [ none ↦ none | some left ↦ some (concluded left) ])
    by_left none ended = ended
    by_left (some left) ended = concluded-IsSortOf deps left ended
