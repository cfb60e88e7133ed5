-- ===== src/Dataset/Required.antt =====
-- The keys of tables that references read in cli/commands/data/package.rs.
use snow_cli.Base.{
  arith, unwrap_or, text_eq, text_eq_iff, any-append, map, Text, List, ◌∷◌, [], ◌++◌, true, ◌≡◌,
  refl, All, All-weaken,
}
use snow_cli.Trees.{has, add, put, entry_at}
use snow_cli.Trees.Laws.{has-add, entry_at-put}
use snow_cli.Dataset.Types.{Reference}
use snow_cli.Dataset.Tables.{
  Node, Keys, deps_of, set_of, add_references, required_from, required_source_keys,
}

has-set_of : (x : Text) (xs : List Text) → has x (set_of xs) ≡ has x xs
has-set_of x [] = refl
has-set_of x (y ∷ xs) = ground (arith, has-set_of x xs, has-add x y (set_of xs))

abbrev targets : List Reference → List Text
targets = map (λ reference. reference.target_table)

All-targets :
    (set : List Text) (references : List Reference)
    → ((x : Text) → has x (targets references) ≡ true → has x set ≡ true)
    → All (λ reference. has reference.target_table set ≡ true) references
All-targets set [] h = tt
All-targets set (reference ∷ references) h = (
  h reference.target_table
      (ground (arith, text_eq_iff reference.target_table reference.target_table)),
  All-targets set references (λ x found. h x (ground arith)),
)

-- A table depends on those that it refers to.
pub referred-deps_of :
    (node : Node)
    → All (λ reference. has reference.target_table (deps_of node) ≡ true) node.referred
referred-deps_of node = All-targets (deps_of node) node.referred (λ x found. ground (
  arith,
  has-set_of x (node.needed ++ targets node.referred),
  any-append (text_eq x) node.needed (targets node.referred),
))

-- The keys that references read are known.
abbrev pub AreRequired : Keys → List Reference → Type 0
AreRequired required references =
    All
      (λ reference.
        has reference.source_key (unwrap_or (entry_at reference.target_table required) []) ≡ true)
      references

-- The key of a table is known.
abbrev IsKey : Text → Text → Keys → Type 0
IsKey table key required = has key (unwrap_or (entry_at table required) []) ≡ true

add_references-IsKey :
    (references : List Reference) (required : Keys) (table key : Text)
    → IsKey table key required
    → IsKey table key (add_references references required)
add_references-IsKey [] required table key h = h
add_references-IsKey (reference ∷ references) required table key h =
    let known = unwrap_or (entry_at reference.target_table required) [] in
    let more = add reference.source_key known in
    add_references-IsKey references (put reference.target_table more required) table key (
      ground (
        arith,
        entry_at-put reference.target_table table more required,
        has-add key reference.source_key known,
        text_eq_iff table reference.target_table,
      ))

add_references-AreRequired :
    (references : List Reference) (required : Keys)
    → AreRequired (add_references references required) references
add_references-AreRequired [] required = tt
add_references-AreRequired (reference ∷ references) required =
    let known = unwrap_or (entry_at reference.target_table required) [] in
    let more = add reference.source_key known in
    let target = reference.target_table in
    (
      add_references-IsKey references (put target more required) target reference.source_key (
          ground (
            arith,
            entry_at-put target target more required,
            has-add reference.source_key reference.source_key known,
            text_eq_iff target target,
            text_eq_iff reference.source_key reference.source_key,
          )),
      add_references-AreRequired references (put target more required),
    )

required_from-IsKey :
    (nodes : List Node) (required : Keys) (table key : Text)
    → IsKey table key required
    → IsKey table key (required_from nodes required)
required_from-IsKey [] required table key h = h
required_from-IsKey (node ∷ nodes) required table key h =
    required_from-IsKey nodes (add_references node.referred required) table key
      (add_references-IsKey node.referred required table key h)

required_from-AreRequired :
    (nodes : List Node) (required : Keys)
    → All (λ node. AreRequired (required_from nodes required) node.referred) nodes
required_from-AreRequired [] required = tt
required_from-AreRequired (node ∷ nodes) required =
    let known = add_references node.referred required in
    (
      All-weaken (λ reference. IsKey reference.target_table reference.source_key known)
          (λ reference.
            IsKey reference.target_table reference.source_key (required_from nodes known))
          (λ reference. required_from-IsKey nodes known reference.target_table reference.source_key)
          node.referred (add_references-AreRequired node.referred required),
      required_from-AreRequired nodes known,
    )

pub required_source_keys-AreRequired :
    (nodes : List Node) → All (λ node. AreRequired (required_source_keys nodes) node.referred) nodes
unfolding required_source_keys
required_source_keys-AreRequired nodes = required_from-AreRequired nodes []
