-- ===== src/Dataset/Tables.antt =====
-- The orders of tables, and the keys by which others refer to them, of cli/commands/data/package.rs.
use snow_cli.Base.{
  is_some, unwrap_or, map, Text, Option, List, Result, if◌then◌else◌, ◌∷◌, [], ◌++◌, some, none, ok,
  err,
}
use snow_cli.Trees.{has, add, put, entry_at}
use snow_cli.Dataset.Order.{Deps, topo_sort_dependencies}
use snow_cli.Dataset.Types.{
  Reference, TableSpec, ManifestTable, PackageError, missing_dependency, dependency_cycle,
  duplicate_table,
}

-- What the two functions of the order read of a table: its name, and what it depends on.
pub record Node : Type 0 where
  pub name : Text
  pub needed : List Text
  pub referred : List Reference

abbrev pub spec_node : TableSpec → Node
spec_node spec = record {
  name = spec.spec_name;
  needed = spec.spec_depends_on;
  referred = spec.spec_references;
}

abbrev pub manifest_node : ManifestTable → Node
manifest_node table = record {
  name = table.manifest_name;
  needed = table.depends_on;
  referred = table.references;
}

-- A set of all the texts.
abbrev pub set_of : List Text → List Text
set_of [] = []
set_of (x ∷ xs) = add x (set_of xs)

abbrev pub deps_of : Node → List Text
deps_of node = set_of (node.needed ++ map (λ reference. reference.target_table) node.referred)

-- The first dependency that is no table.
abbrev pub absent_in : List Text → List Text → Option Text
absent_in names [] = none
absent_in names (dep ∷ deps) =
    let rest = absent_in names deps in if has dep names then rest else some dep

-- The loop over the tables; a table that comes again replaces the first.
abbrev pub collect : List Text → List Node → Deps → Result PackageError Deps
collect names [] deps = ok deps
collect names (node ∷ nodes) deps = elim (absent_in names (deps_of node)) [
  | none ↦ collect names nodes (put node.name (deps_of node) deps)
  | some dep ↦ err (missing_dependency node.name dep)
]

abbrev pub sorted :
    Option (Result (List Text) (List Text)) → Option (Result PackageError (List Text))
sorted none = none
sorted (some (ok order)) = some (ok order)
sorted (some (err tables)) = some (err (dependency_cycle tables))

abbrev pub names_of : List Node → List Text
names_of = map (λ node. node.name)

-- `topological_table_order` and `topological_manifest_order`
unfoldable pub topological_order : List Node → Option (Result PackageError (List Text))
topological_order nodes = elim (collect (names_of nodes) nodes []) [
  | err e ↦ some (err e)
  | ok deps ↦ sorted (topo_sort_dependencies deps)
]

-- The keys of a table that references read.
abbrev pub Keys : Type 0
Keys = List (Text × List Text)

abbrev pub add_references : List Reference → Keys → Keys
add_references [] required = required
add_references (reference ∷ references) required =
    let known = unwrap_or (entry_at reference.target_table required) [] in
    add_references references (put reference.target_table (add reference.source_key known) required)

-- `required_source_keys` and `required_source_keys_from_manifest`
abbrev pub required_from : List Node → Keys → Keys
required_from [] required = required
required_from (node ∷ nodes) required = required_from nodes (add_references node.referred required)

unfoldable pub required_source_keys : List Node → Keys
required_source_keys nodes = required_from nodes []

-- `manifest_table_map`
abbrev pub map_from :
    List ManifestTable
    → List (Text × ManifestTable)
    → Result PackageError (List (Text × ManifestTable))
map_from [] tables = ok tables
map_from (table ∷ rest) tables =
    let next = map_from rest (put table.manifest_name table tables) in
    if is_some (entry_at table.manifest_name tables)
    then err (duplicate_table table.manifest_name)
    else next

unfoldable pub manifest_table_map :
    List ManifestTable → Result PackageError (List (Text × ManifestTable))
manifest_table_map tables = map_from tables []
