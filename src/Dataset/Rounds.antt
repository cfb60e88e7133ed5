-- ===== src/Dataset/Rounds.antt =====
-- The `while` loop of `topo_sort_dependencies` of cli/commands/data/package.rs.
use snow_cli.Base.{
  arith, if-elim, length, text_eq, text_eq_iff, any-append, Bool-cases, inl, inr, ap, sym, ◌⊎◌, ◌∙◌,
  ◌||◌, ◌&&◌, ◌++◌, not, Text, List, if◌then◌else◌, ◌∷◌, [], none, true, false, ◌≡◌, refl, All, ◌≤◌,
  ◌+◌,
}
use snow_cli.Trees.{has, entry_at, drop_key}
use snow_cli.Trees.Laws.{entry_at-drop_key, length-drop_key}
use snow_cli.Dataset.Order.{Deps, Left, visit, children_of}
use snow_cli.Dataset.Edges.{needs, AreEdges}
use snow_cli.Dataset.Visits.{
  reduced, is_free, append-IsDistinct, entry_at-visit, has-visit, visit-IsDistinct, length-visit,
}
use snow_cli.Dataset.Left.{
  left_of, left_of-append, needs-left_of, reduced-absent, is_free-needs, is_free-is_some,
  left_of-is_some, append-ArePlaced, IsLeft, IsBegun,
}

All-has : (P : Text → Type 0) (xs : List Text) → ((x : Text) → has x xs ≡ true → P x) → All P xs
All-has P [] h = tt
All-has P (x ∷ xs) h =
    (h x (ground (arith, text_eq_iff x x)), All-has P xs (λ y found. h y (ground arith)))

module _ (deps outgoing : Deps) (edges : AreEdges deps outgoing) (order : List Text) (table : Text)
    (incoming : Deps) (ready : List Text) (left : IsLeft deps order (incoming, table ∷ ready)) where
  abbrev pub after : Left
  after = visit table (children_of table outgoing) (incoming, ready)

  table_is_free : is_free (entry_at table incoming) ≡ true
  table_is_free = ground (arith, left.1 table, text_eq_iff table table)

  is_child :
      (other : Text)
      → has other (children_of table outgoing) ≡ false
      → needs (entry_at other incoming) table ≡ false
  is_child other h =
      ap (λ o. needs o table) (left.0 other)
      ∙ if-elim (λ o. needs o table ≡ false) (has other order) none
          (left_of order (entry_at other deps)) (λ _. refl)
          (λ _.
            ground (arith, needs-left_of table order (entry_at other deps), (edges table).1 other))

  entry_at-after : (other : Text) → entry_at other after.0 ≡ reduced table (entry_at other incoming)
  entry_at-after other = elim (Bool-cases (has other (children_of table outgoing))) [
    | inl child ↦ ground (
      arith,
      entry_at-visit table (children_of table outgoing) (incoming, ready) other (edges table).0,
    )
    | inr other_table ↦ ground (
      arith,
      entry_at-visit table (children_of table outgoing) (incoming, ready) other (edges table).0,
      reduced-absent table (entry_at other incoming) (is_child other other_table),
    )
  ]

  free-is_new : (other : Text) → is_free (entry_at other incoming) ≡ true → has other order ≡ false
  free-is_new other h = ground (arith, left.0 other)

  needs-is_new :
      (other : Text)
      → has other order ≡ false
      → needs (entry_at other incoming) table
        ≡ (needs (entry_at other deps) table && not (has table order))
  needs-is_new other h =
      let same : entry_at other incoming ≡ left_of order (entry_at other deps) =
        ground (arith, left.0 other) in
      ap (λ o. needs o table) same ∙ needs-left_of table order (entry_at other deps)

  -- A child waits for the table, so that it is not free before.
  child_waits :
      (other : Text)
      → has other (children_of table outgoing) ≡ true
      → is_free (entry_at other incoming) ≡ false
  child_waits other h = elim (Bool-cases (is_free (entry_at other incoming))) [
    | inl free ↦ absurd (
        ground (
          arith,
          is_free-needs (entry_at other incoming) table free,
          needs-is_new other (free-is_new other free),
          (edges table).1 other,
          free-is_new table table_is_free,
        ))
    | inr waits ↦ waits
  ]

  entry_at-next :
      (other : Text)
      → entry_at other (drop_key table after.0) ≡ (
          if has other (order ++ table ∷ [])
          then none
          else left_of (order ++ table ∷ []) (entry_at other deps))
  entry_at-next other = ground (
    arith,
    entry_at-drop_key table other after.0,
    any-append (text_eq other) order (table ∷ []),
    entry_at-after other,
    left.0 other,
    left_of-append table order (entry_at other deps),
  )

  has-next : (other : Text) → has other after.1 ≡ is_free (entry_at other (drop_key table after.0))
  has-next other =
      by_child (Bool-cases (text_eq other table))
        (Bool-cases (has other (children_of table outgoing)))
    where
      queued : has other after.1 ≡ (
          has other ready
          || (has other (children_of table outgoing)
              && is_free (reduced table (entry_at other incoming))))
      queued = has-visit table (children_of table outgoing) (incoming, ready) other (edges table).0

      dropped :
          text_eq other table ≡ false
          → is_free (entry_at other (drop_key table after.0))
            ≡ is_free (reduced table (entry_at other incoming))
      dropped differs = ground (
        arith,
        ap is_free (entry_at-drop_key table other after.0),
        ap is_free (entry_at-after other),
      )

      by_child :
          (text_eq other table ≡ true) ⊎ (text_eq other table ≡ false)
          → (has other (children_of table outgoing) ≡ true)
            ⊎ (has other (children_of table outgoing) ≡ false)
          → has other after.1 ≡ is_free (entry_at other (drop_key table after.0))
      by_child (inl same) (inl child) =
          absurd (ground (arith, child_waits other child, left.1 other))
      by_child (inl same) (inr other_table) =
          let equal = (text_eq_iff other table).0 same in
          ground (
            arith,
            queued,
            entry_at-drop_key table other after.0,
            ap (λ t. has t ready) equal,
            left.2.0,
          )
      by_child (inr differs) (inl child) =
          ground (arith, queued, dropped differs, child_waits other child, left.1 other)
      by_child (inr differs) (inr other_table) = ground (
        arith,
        queued,
        dropped differs,
        ap is_free (reduced-absent table (entry_at other incoming) (is_child other other_table)),
        left.1 other,
      )

  pub next-IsLeft : IsLeft deps (order ++ table ∷ []) (drop_key table after.0, after.1)
  next-IsLeft = (
    entry_at-next,
    has-next,
    visit-IsDistinct table (children_of table outgoing) (incoming, ready) (edges table).0
        (All-has (λ child. has child ready ≡ false) (children_of table outgoing)
          (λ child h. ground (arith, child_waits child h, left.1 child)))
        left.2.1,
  )

  -- The table is left without dependencies by the order.
  table_left : is_free (left_of order (entry_at table deps)) ≡ true
  table_left =
      let new = free-is_new table table_is_free in
      let same : entry_at table incoming ≡ left_of order (entry_at table deps) =
        ground (arith, left.0 table) in
      sym (ap is_free same) ∙ table_is_free

  pub next-IsBegun : IsBegun deps order → IsBegun deps (order ++ table ∷ [])
  next-IsBegun begun = (
    append-IsDistinct table order (free-is_new table table_is_free) begun.0,
    λ other h. elim (Bool-cases (text_eq other table)) [
      | inl same ↦
          rw ((text_eq_iff other table).0 same)
            (left_of-is_some order (entry_at table deps) table_left)
      | inr differs ↦ begun.1 other (ground (arith, any-append (text_eq other) order (table ∷ [])))
    ],
    append-ArePlaced deps table [] order begun.2 (λ dep needed. ground (
      arith,
      is_free-needs (left_of order (entry_at table deps)) dep table_left,
      needs-left_of dep order (entry_at table deps),
    )),
  )

  pub next-shorter : length (drop_key table after.0) + 1 ≤ length incoming
  next-shorter =
      let free : is_free (entry_at table after.0) ≡ true =
        ap is_free (
          entry_at-after table
          ∙ reduced-absent table (entry_at table incoming)
              (is_free-needs (entry_at table incoming) table table_is_free))
        ∙ table_is_free in
      ground (
        arith,
        length-drop_key table after.0,
        is_free-is_some (entry_at table after.0) free,
        length-visit table (children_of table outgoing) (incoming, ready),
      )
