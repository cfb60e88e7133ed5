-- ===== src/Dataset/Edges.antt =====
-- The edges that `topo_sort_dependencies` of cli/commands/data/package.rs collects.
use snow_cli.Base.{
  arith, text_eq, text_eq_iff, Bool-cases, inl, inr, ◌||◌, ◌&&◌, Text, List, Option, ◌∷◌, [], none,
  some, false, ◌≡◌, Bool,
}
use snow_cli.Trees.{has, entry_at, add, put, keys, IsAscending}
use snow_cli.Trees.Laws.{has-add, entry_at-put, add-IsAscending, IsAscending-absent, has-keys}
use snow_cli.Dataset.Order.{Deps, children_of, add_edges, outgoing_of}

-- Whether a table depends on another.
abbrev pub needs : Option (List Text) → Text → Bool
needs none table = false
needs (some table_deps) table = has table table_deps

children_of-add_edges :
    (parent child table : Text) (table_deps : List Text) (outgoing : Deps)
    → has child (children_of parent (add_edges table table_deps outgoing))
      ≡ (has child (children_of parent outgoing) || (text_eq child table && has parent table_deps))
children_of-add_edges parent child table [] outgoing = ground arith
children_of-add_edges parent child table (dep ∷ table_deps) outgoing =
    let more = add table (children_of dep outgoing) in
    ground (
      arith,
      children_of-add_edges parent child table table_deps (put dep more outgoing),
      entry_at-put dep parent more outgoing,
      has-add child table (children_of dep outgoing),
      text_eq_iff parent dep,
    )

children_of-outgoing_of :
    (parent child : Text) (deps outgoing : Deps)
    → IsAscending (keys deps)
    → has child (children_of parent (outgoing_of deps outgoing))
      ≡ (has child (children_of parent outgoing) || needs (entry_at child deps) parent)
unfolding entry_at
children_of-outgoing_of parent child [] outgoing h = ground arith
children_of-outgoing_of parent child (entry ∷ deps) outgoing h = ground (
  arith,
  children_of-outgoing_of parent child deps (add_edges entry.0 entry.1 outgoing) h.1,
  children_of-add_edges parent child entry.0 entry.1 outgoing,
  IsAscending-absent entry.0 (keys deps) h.0,
  has-keys entry.0 deps,
  text_eq_iff child entry.0,
)

-- The children of each table are a set.
abbrev AreSets : Deps → Type 0
AreSets outgoing = (parent : Text) → IsAscending (children_of parent outgoing)

put-AreSets :
    (dep : Text) (set : List Text) (outgoing : Deps)
    → IsAscending set
    → AreSets outgoing
    → AreSets (put dep set outgoing)
put-AreSets dep set outgoing h sets parent =
    rw (entry_at-put dep parent set outgoing) (elim (Bool-cases (text_eq parent dep)) [
      | inl same ↦ rw same h
      | inr differs ↦ rw differs (sets parent)
    ])

add_edges-AreSets :
    (table : Text) (table_deps : List Text) (outgoing : Deps)
    → AreSets outgoing
    → AreSets (add_edges table table_deps outgoing)
add_edges-AreSets table [] outgoing sets = sets
add_edges-AreSets table (dep ∷ table_deps) outgoing sets =
    let more = add table (children_of dep outgoing) in
    add_edges-AreSets table table_deps (put dep more outgoing) (
      put-AreSets dep more outgoing (add-IsAscending table (children_of dep outgoing) (sets dep))
        sets)

outgoing_of-AreSets :
    (deps outgoing : Deps) → AreSets outgoing → AreSets (outgoing_of deps outgoing)
outgoing_of-AreSets [] outgoing sets = sets
outgoing_of-AreSets (entry ∷ deps) outgoing sets =
    outgoing_of-AreSets deps (add_edges entry.0 entry.1 outgoing)
      (add_edges-AreSets entry.0 entry.1 outgoing sets)

-- The children of a table are those that depend on it.
abbrev pub AreEdges : Deps → Deps → Type 0
AreEdges deps outgoing =
    (parent : Text)
    → IsAscending (children_of parent outgoing)
      × ((child : Text)
          → has child (children_of parent outgoing) ≡ needs (entry_at child deps) parent)

pub outgoing_of-AreEdges :
    (deps : Deps) → IsAscending (keys deps) → AreEdges deps (outgoing_of deps [])
unfolding entry_at
outgoing_of-AreEdges deps h parent = (
  outgoing_of-AreSets deps [] (λ p. tt) parent,
  λ child. children_of-outgoing_of parent child deps [] h,
)
