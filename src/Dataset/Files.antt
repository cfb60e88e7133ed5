-- ===== src/Dataset/Files.antt =====
-- The maps that cli/commands/data/package.rs makes of the tables of a package.
use snow_cli.Base.{
  arith, is_some, text_eq_iff, ap, sym, ◌∙◌, subst, map, Text, Option, List, Result, ◌∷◌, [], true,
  false, some, none, ok, err, ◌≡◌, refl, All,
}
use snow_cli.Identifiers.{table_name, TableName, IdentifierError}
use snow_cli.Trees.{has, add, put, entry_at, keys, IsAscending}
use snow_cli.Trees.Laws.{entry_at-put, add-IsAscending}
use snow_cli.Dataset.Types.{
  ManifestTable, Artifact, missing_dependency, missing_artifact, invalid_name,
}
use snow_cli.Dataset.Order.{Deps}
use snow_cli.Dataset.Visits.{IsDistinct}
use snow_cli.Dataset.Tables.{Node, names_of, deps_of, absent_in, collect, map_from}
use snow_cli.Dataset.Validate.{read_artifacts}

abbrev pub table_names : List ManifestTable → List Text
table_names = map (λ table. table.manifest_name)

pub map_from-finds :
    (rest : List ManifestTable) (known out : List (Text × ManifestTable))
    → map_from rest known ≡ ok out
    → All (λ table. entry_at table.manifest_name out ≡ some table) rest
      × IsDistinct (table_names rest)
      × ((name : Text)
          → is_some (entry_at name known) ≡ true
          → (entry_at name out ≡ entry_at name known) × (has name (table_names rest) ≡ false))
map_from-finds [] known out h = (tt, tt, λ name there. (ground arith, refl))
map_from-finds (table ∷ rest) known out h =
    let name = table.manifest_name in
    let (found, distinct, kept) = map_from-finds rest (put name table known) out (ground arith) in
    let new : is_some (entry_at name known) ≡ false = ground arith in
    let there : entry_at name (put name table known) ≡ some table =
      ground (arith, entry_at-put name name table known, text_eq_iff name name) in
    let (same, absent) = kept name (ground arith) in
    (
      (same ∙ there, found),
      (absent, distinct),
      λ other known_other.
          let (same_other, absent_other) =
            kept other (ground (arith, entry_at-put name other table known)) in
          (
            ground (
              arith,
              entry_at-put name other table known,
              text_eq_iff other name,
              ap (λ n. entry_at n known) {x = other} {y = name},
            ),
            ground (
              arith,
              text_eq_iff other name,
              ap (λ n. is_some (entry_at n known)) {x = other} {y = name},
            ),
          ),
    )

-- The artifact of a table is that of its file, and the name is one of a table.
abbrev pub IsRead :
    {N : Type 0} → (Text → Option (Artifact N)) → List (Text × Artifact N) → ManifestTable → Type 0
IsRead {N} read artifacts table =
    (artifact : Artifact N) × (valid : TableName) × (read table.file ≡ some artifact)
    × (table_name table.manifest_name ≡ ok valid)
    × (entry_at table.manifest_name artifacts ≡ some artifact)

abbrev AreRead :
    {N : Type 0}
    → (Text → Option (Artifact N))
    → List ManifestTable
    → (known out : List (Text × Artifact N)) → Type 0
AreRead read tables known out =
    All (IsRead read out) tables
    × ((name : Text)
        → has name (table_names tables) ≡ false
        → entry_at name out ≡ entry_at name known)

pub read_artifacts-AreRead :
    {N : Type 0} (read : Text → Option (Artifact N)) (rest : List ManifestTable)
    (known out : List (Text × Artifact N))
    → read_artifacts read rest known ≡ ok out
    → IsDistinct (table_names rest)
    → AreRead read rest known out
read_artifacts-AreRead {N} read [] known out h distinct = (tt, λ name absent. ground arith)
read_artifacts-AreRead {N} read (table ∷ rest) known out h distinct =
    by_file (read table.file) refl (table_name table.manifest_name) refl h (λ artifact again.
      read_artifacts-AreRead read rest (put table.manifest_name artifact known) out again
        distinct.1)
  where
    by_file :
        (o : Option (Artifact N))
        → read table.file ≡ o
        → (r : Result IdentifierError TableName) → table_name table.manifest_name ≡ r
        → (elim o [
          | none ↦ err (missing_artifact table.manifest_name)
          | some artifact ↦ elim r [
            | err e ↦ err (invalid_name table.manifest_name)
            | ok name ↦ read_artifacts read rest (put table.manifest_name artifact known)
          ]
        ])
          ≡ ok out
        → ((artifact : Artifact N)
            → read_artifacts read rest (put table.manifest_name artifact known) ≡ ok out
            → AreRead read rest (put table.manifest_name artifact known) out)
        → AreRead read (table ∷ rest) known out
    by_file none at r named ended again = absurd (ground arith)
    by_file (some artifact) at (err e) named ended again = absurd (ground arith)
    by_file (some artifact) at (ok valid) named ended again =
        let (found, kept) = again artifact ended in
        let own = table.manifest_name in
        (
          (
            (
              artifact,
              valid,
              at,
              named,
              kept own distinct.0
                  ∙ ground (arith, entry_at-put own own artifact known, text_eq_iff own own),
            ),
            found,
          ),
          λ name absent.
              kept name (ground arith) ∙ ground (arith, entry_at-put own name artifact known),
        )

keys-put :
    {V : Type 0} (key : Text) (value : V) (entries : List (Text × V))
    → keys (put key value entries) ≡ add key (keys entries)
unfolding put add
keys-put key value [] = refl
keys-put key value (entry ∷ entries) = ground (arith, keys-put key value entries)

pub collect-deps_of :
    (names : List Text) (nodes : List Node) (known out : Deps)
    → collect names nodes known ≡ ok out
    → IsDistinct (names_of nodes)
    → IsAscending (keys known)
    → All (λ node. entry_at node.name out ≡ some (deps_of node)) nodes
      × IsAscending (keys out)
      × ((name : Text)
          → has name (names_of nodes) ≡ false
          → entry_at name out ≡ entry_at name known)
collect-deps_of names [] known out h distinct ascending =
    (tt, ground arith, λ name absent. ground arith)
collect-deps_of names (node ∷ nodes) known out h distinct ascending =
    by_absent (absent_in names (deps_of node)) h (λ again.
      collect-deps_of names nodes (put node.name (deps_of node) known) out again distinct.1 (
        subst IsAscending (sym (keys-put node.name (deps_of node) known))
          (add-IsAscending node.name (keys known) ascending)))
  where
    by_absent :
        (o : Option Text)
        → (elim o [
          | none ↦ collect names nodes (put node.name (deps_of node) known)
          | some dep ↦ err (missing_dependency node.name dep)
        ])
          ≡ ok out
        → (collect names nodes (put node.name (deps_of node) known) ≡ ok out
            → All (λ other. entry_at other.name out ≡ some (deps_of other)) nodes
              × IsAscending (keys out)
              × ((name : Text)
                  → has name (names_of nodes) ≡ false
                  → entry_at name out ≡ entry_at name (put node.name (deps_of node) known)))
        → All (λ other. entry_at other.name out ≡ some (deps_of other)) (node ∷ nodes)
          × IsAscending (keys out)
          × ((name : Text)
              → has name (names_of (node ∷ nodes)) ≡ false
              → entry_at name out ≡ entry_at name known)
    by_absent (some dep) ended again = absurd (ground arith)
    by_absent none ended again =
        let (found, sets, kept) = again ended in
        let own = node.name in
        (
          (
            kept own distinct.0
                ∙ ground (arith, entry_at-put own own (deps_of node) known, text_eq_iff own own),
            found,
          ),
          sets,
          λ name absent.
              kept name (ground arith) ∙ ground (arith, entry_at-put own name (deps_of node) known),
        )
