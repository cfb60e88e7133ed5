-- ===== src/Dataset/Order.antt =====
-- `topo_sort_dependencies` of cli/commands/data/package.rs.
use snow_cli.Base.{
  unwrap_or, is_empty, length, ℕ, Text, List, Option, Result, if◌then◌else◌, ◌++◌, ◌∷◌, [], none,
  some, ok, err, zero, suc,
}
use snow_cli.Trees.{entry_at, add, put, without, assign, drop_key, keys}

-- The tables, each with those it depends on.
abbrev pub Deps : Type 0
Deps = List (Text × List Text)

-- `outgoing.get(&table)`, or no table.
abbrev pub children_of : Text → Deps → List Text
children_of table outgoing = unwrap_or (entry_at table outgoing) []

-- The loop over the dependencies of one table.
abbrev pub add_edges : Text → List Text → Deps → Deps
add_edges table [] outgoing = outgoing
add_edges table (dep ∷ table_deps) outgoing =
    add_edges table table_deps (put dep (add table (children_of dep outgoing)) outgoing)

abbrev pub outgoing_of : Deps → Deps → Deps
outgoing_of [] outgoing = outgoing
outgoing_of (entry ∷ deps) outgoing = outgoing_of deps (add_edges entry.0 entry.1 outgoing)

unfoldable pub ready_of : Deps → List Text
ready_of [] = []
ready_of (entry ∷ deps) =
    let ready = ready_of deps in if is_empty entry.1 then entry.0 ∷ ready else ready

-- What changes in the loop over the children: the dependencies that are left, and the queue.
abbrev pub Left : Type 0
Left = Deps × List Text

abbrev pub visited : Text → Text → Option (List Text) → Left → Left
visited table child none left = left
visited table child (some child_deps) left =
    let rest = without table child_deps in
    (assign child rest left.0, if is_empty rest then left.1 ++ child ∷ [] else left.1)

abbrev pub visit : Text → List Text → Left → Left
visit table [] left = left
visit table (child ∷ children) left =
    visit table children (visited table child (entry_at child left.0) left)

-- The `while` loop: the order and the dependencies that are left at its end, or nothing without fuel.
unfoldable pub loop : ℕ → Deps → List Text → Left → Option (List Text × Deps)
loop zero outgoing order (incoming, []) = some (order, incoming)
loop zero outgoing order (incoming, table ∷ ready) = none
loop (suc fuel) outgoing order (incoming, []) = some (order, incoming)
loop (suc fuel) outgoing order (incoming, table ∷ ready) =
    let left = visit table (children_of table outgoing) (incoming, ready) in
    loop fuel outgoing (order ++ table ∷ []) (drop_key table left.0, left.1)

-- The tables of a cycle are those that the message names.
abbrev pub concluded : List Text × Deps → Result (List Text) (List Text)
concluded (order, []) = ok order
concluded (order, entry ∷ incoming) = err (keys (entry ∷ incoming))

unfoldable pub topo_sort_dependencies : Deps → Option (Result (List Text) (List Text))
topo_sort_dependencies deps =
    elim (loop (length deps) (outgoing_of deps []) [] (deps, ready_of deps)) [
      | none ↦ none
      | some left ↦ some (concluded left)
    ]
