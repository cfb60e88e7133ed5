-- ===== src/Dataset/Imported.antt =====
-- The import of a whole package by cli/commands/data/package.rs.
use snow_cli.Base.{
  arith, if-elim, total, map, ap, sym, ◌∙◌, ℕ, Text, Bool, Option, List, Result, ◌∷◌, [], some,
  none, ok, err, ◌≡◌, refl, All, All-map,
}
use snow_cli.Trees.{entry_at}
use snow_cli.Dataset.Order.{Deps}
use snow_cli.Dataset.Types.{ManifestTable, Fields, Artifact, Reading, PackageError}
use snow_cli.Dataset.Tables.{
  Keys, deps_of, manifest_node, manifest_table_map, map_from, topological_order,
  required_source_keys,
}
use snow_cli.Dataset.Import.{import_tables}
use snow_cli.Dataset.Validate.{Issue, package_issues, read_artifacts}
use snow_cli.Dataset.Package.{
  PackageResult, refused, not_ready, previewed, imported, start_import, validated, proceed,
  in_order, mapped, handle_import_package,
}
use snow_cli.Dataset.Remap.{IsReading}
use snow_cli.Dataset.Records.{Accepts}
use snow_cli.Dataset.Resolved.{IsResolved, both-ok, package_issues-IsResolved}
use snow_cli.Dataset.Files.{table_names, IsRead, map_from-finds, read_artifacts-AreRead}
use snow_cli.Dataset.Required.{AreRequired, referred-deps_of, required_source_keys-AreRequired}
use snow_cli.Dataset.Complete.{size_of, IsPrepared, import_tables-Ends}
use snow_cli.Dataset.Ordered.{
  total-same, topological_order-IsOrdered, ordered-has, topological_order-found,
}

-- The records of all files.
abbrev pub records_in : {N : Type 0} → (Text → Option (Artifact N)) → List ManifestTable → ℕ
records_in read = total (λ table. size_of (read table.file))

records_in-names :
    {N : Type 0} (read : Text → Option (Artifact N)) (artifacts : List (Text × Artifact N))
    (tables : List ManifestTable)
    → All (IsRead read artifacts) tables
    → total (λ name. size_of (entry_at name artifacts)) (table_names tables)
      ≡ records_in read tables
records_in-names read artifacts [] h = refl
records_in-names read artifacts (table ∷ tables) ((artifact, valid, at, named, at_own), rest) =
    ground (arith, records_in-names read artifacts tables rest, ap size_of at, ap size_of at_own)

-- What an import without an error and without a failure is, if it comes to an import.
abbrev pub IsWhole :
    {N S E : Type 0}
    → (Text → Option (Artifact N))
    → List ManifestTable
    → Option (PackageResult S E)
    → Type 0
IsWhole read tables none = ⊥
IsWhole read tables (some (refused e)) = Unit {0}
IsWhole read tables (some (not_ready issues)) = Unit {0}
IsWhole read tables (some (previewed order)) = Unit {0}
IsWhole read tables (some (imported results outcome)) =
    (outcome.1 ≡ none)
    × (outcome.0.failed_total ≡ 0)
    × (outcome.0.created_total ≡ records_in read tables)

module _ {N S E : Type 0} (reading : Reading N) (is_reading : IsReading reading)
    (post : Text → Fields N → S → Result E (Fields N) × S) (accepts : Accepts post)
    (read : Text → Option (Artifact N))
    (check_schemas : List (Text × Artifact N) → Result PackageError (List Issue)) (dry_run : Bool)
    (tables : List ManifestTable) (s : S) where
  abbrev required : Keys
  required = required_source_keys (map manifest_node tables)

  prepared :
      (by_name : List (Text × ManifestTable)) (artifacts : List (Text × Artifact N)) (deps : Deps)
      → All (λ table. entry_at table.manifest_name by_name ≡ some table) tables
      → All (IsRead read artifacts) tables
      → All (λ table. All (IsResolved reading artifacts table) table.references) tables
      → All
          (λ table. entry_at table.manifest_name deps ≡ some (deps_of (manifest_node table)))
          tables
      → All (IsPrepared reading is_reading post accepts read required by_name artifacts deps) tables
  prepared by_name artifacts deps found is_read resolved placed =
      each tables found is_read resolved
        (All-map (λ node. AreRequired required node.referred) manifest_node tables
          (required_source_keys-AreRequired (map manifest_node tables)))
        placed
    where
      each :
          (rest : List ManifestTable)
          → All (λ table. entry_at table.manifest_name by_name ≡ some table) rest
          → All (IsRead read artifacts) rest
          → All (λ table. All (IsResolved reading artifacts table) table.references) rest
          → All (λ table. AreRequired required table.references) rest
          → All
              (λ table. entry_at table.manifest_name deps ≡ some (deps_of (manifest_node table)))
              rest
          → All
              (IsPrepared reading is_reading post accepts read required by_name artifacts deps)
              rest
      each [] a b c d e = tt
      each (table ∷ rest) a b c d e = (
        (a.0, b.0, c.0, d.0, e.0, referred-deps_of (manifest_node table)),
        each rest a.1 b.1 c.1 d.1 e.1,
      )

  -- Once the package is ready, the whole of it is imported.
  ready-IsWhole :
      (by_name : List (Text × ManifestTable)) (artifacts : List (Text × Artifact N))
      (order : List Text)
      → map_from tables [] ≡ ok by_name
      → read_artifacts read tables [] ≡ ok artifacts
      → topological_order (map manifest_node tables) ≡ some (ok order)
      → package_issues reading by_name artifacts tables ≡ ok []
      → IsWhole read tables (
          some (
            let out = import_tables reading post required read by_name order [] (start_import s) in
            imported out.0 out.1))
  ready-IsWhole by_name artifacts order at_map at_files at_order no_issue =
      let (found, distinct, fresh) = map_from-finds tables [] by_name at_map in
      let (is_read, kept) = read_artifacts-AreRead read tables [] artifacts at_files distinct in
      let (deps, is_ordered) = topological_order-IsOrdered tables order distinct at_order in
      let (is_order, placed, absent) = is_ordered in
      let resolved = package_issues-IsResolved reading by_name artifacts tables no_issue in
      let named = λ (name : Text). ordered-has tables order deps name is_ordered in
      let (is_none, failed, created) =
        import_tables-Ends reading is_reading post accepts read required by_name artifacts deps
          tables (prepared by_name artifacts deps found is_read resolved placed) order [] []
          (start_import s) (λ name there. sym (named name) ∙ there) is_order.2
          (λ name artifact there. absurd (ground arith)) in
      (
        is_none,
        failed,
        ground (
          arith,
          created,
          total-same (λ name. size_of (entry_at name artifacts)) order (table_names tables)
              is_order.0 distinct named,
          records_in-names read artifacts tables is_read,
        ),
      )

  proceed-IsWhole :
      (by_name : List (Text × ManifestTable)) (order : List Text)
      → map_from tables [] ≡ ok by_name
      → topological_order (map manifest_node tables) ≡ some (ok order)
      → (r : Result PackageError (List (Text × Artifact N))) → read_artifacts read tables [] ≡ r
      → IsWhole read tables (
          some (
            proceed reading post read check_schemas dry_run tables s by_name order
              (validated reading post read check_schemas dry_run tables s by_name r)))
  proceed-IsWhole by_name order at_map at_order (err e) at_files = tt
  proceed-IsWhole by_name order at_map at_order (ok artifacts) at_files =
      by_issues (validated reading post read check_schemas dry_run tables s by_name (ok artifacts))
        refl
    where
      by_issues :
          (issues : Result PackageError (List Issue))
          → validated reading post read check_schemas dry_run tables s by_name (ok artifacts)
            ≡ issues
          → IsWhole read tables
              (some (proceed reading post read check_schemas dry_run tables s by_name order issues))
      by_issues (err e) found = tt
      by_issues (ok (issue ∷ issues)) found = tt
      by_issues (ok []) found =
          if-elim (λ (result : PackageResult S E). IsWhole read tables (some result)) dry_run
            (previewed order) _ (λ _. tt)
            (λ _.
              ready-IsWhole by_name artifacts order at_map at_files at_order
                (both-ok (check_schemas artifacts) (package_issues reading by_name artifacts tables)
                  found).1)

  order-IsWhole :
      (by_name : List (Text × ManifestTable)) (o : Option (Result PackageError (List Text)))
      → map_from tables [] ≡ ok by_name
      → topological_order (map manifest_node tables) ≡ o
      → IsWhole read tables (in_order reading post read check_schemas dry_run tables s by_name o)
  order-IsWhole by_name none at_map at_order =
      let (found, distinct, fresh) = map_from-finds tables [] by_name at_map in
      absurd (topological_order-found tables distinct at_order)
  order-IsWhole by_name (some (err e)) at_map at_order = tt
  order-IsWhole by_name (some (ok order)) at_map at_order =
      proceed-IsWhole by_name order at_map at_order (read_artifacts read tables []) refl

  map-IsWhole :
      (r : Result PackageError (List (Text × ManifestTable)))
      → map_from tables [] ≡ r
      → IsWhole read tables (mapped reading post read check_schemas dry_run tables s r)
  map-IsWhole (err e) at_map = tt
  map-IsWhole (ok by_name) at_map =
      order-IsWhole by_name (topological_order (map manifest_node tables)) at_map refl

  -- The import of a package ends with a refusal, with issues, with a preview, or with an import. If the
  -- server accepts each record, and no text is read as a placeholder, then an import that is begun finds
  -- every record that a placeholder stands for, in whatever order the manifest has its tables: it ends
  -- without an error and without a failure, and creates as many records as the files have.
  pub handle_import_package-IsWhole :
      IsWhole read tables (handle_import_package reading post read check_schemas dry_run tables s)
  unfolding handle_import_package manifest_table_map
  handle_import_package-IsWhole = map-IsWhole (map_from tables []) refl
