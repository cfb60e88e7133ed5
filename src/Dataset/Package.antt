-- ===== src/Dataset/Package.antt =====
-- `handle_import_package` of cli/commands/data/package.rs. What the checks of a table by its schema
-- find is a parameter.
use snow_cli.Base.{
  map, Text, Bool, Option, List, Result, if◌then◌else◌, ◌∷◌, [], some, none, ok, err,
}
use snow_cli.Dataset.Types.{ManifestTable, Fields, Artifact, Reading, PackageError}
use snow_cli.Dataset.Tables.{
  Node, manifest_node, manifest_table_map, topological_order, required_source_keys,
}
use snow_cli.Dataset.Import.{Outcome, Progress, TableResult, import_tables}
use snow_cli.Dataset.Validate.{Issue, both, package_issues, read_artifacts}

pub data PackageResult (S E : Type 0) : Type 0 where
  refused : PackageError → PackageResult S E
  not_ready : List Issue → PackageResult S E
  previewed : (import_order : List Text) → PackageResult S E
  imported : List (TableResult E) → Outcome S E → PackageResult S E

abbrev pub start_import : {S E : Type 0} → S → Progress S E
start_import s = record {
  surroundings = s;
  ids = [];
  created = 0;
  created_total = 0;
  failed_total = 0;
  failures = [];
}

module _ {N S E : Type 0} (reading : Reading N)
    (post : Text → Fields N → S → Result E (Fields N) × S) (read : Text → Option (Artifact N))
    (check_schemas : List (Text × Artifact N) → Result PackageError (List Issue)) (dry_run : Bool)
    (tables : List ManifestTable) (s : S) where
  abbrev pub nodes : List Node
  nodes = map manifest_node tables

  -- The issues of `build_package_validation_report`.
  abbrev pub validated :
      List (Text × ManifestTable)
      → Result PackageError (List (Text × Artifact N))
      → Result PackageError (List Issue)
  validated by_name (err e) = err e
  validated by_name (ok artifacts) =
      both (check_schemas artifacts) (package_issues reading by_name artifacts tables)

  abbrev pub proceed :
      List (Text × ManifestTable) → List Text → Result PackageError (List Issue) → PackageResult S E
  proceed by_name order (err e) = refused e
  proceed by_name order (ok (issue ∷ issues)) = not_ready (issue ∷ issues)
  proceed by_name order (ok []) =
      if dry_run
      then previewed order
      else (let outcome =
            import_tables reading post (required_source_keys nodes) read by_name order []
              (start_import s) in
          imported outcome.0 outcome.1)

  abbrev pub in_order :
      List (Text × ManifestTable)
      → Option (Result PackageError (List Text))
      → Option (PackageResult S E)
  in_order by_name none = none
  in_order by_name (some (err e)) = some (refused e)
  in_order by_name (some (ok order)) =
      some (proceed by_name order (validated by_name (read_artifacts read tables [])))

  abbrev pub mapped : Result PackageError (List (Text × ManifestTable)) → Option (PackageResult S E)
  mapped (err e) = some (refused e)
  mapped (ok by_name) = in_order by_name (topological_order nodes)

  unfoldable pub handle_import_package : Option (PackageResult S E)
  handle_import_package = mapped (manifest_table_map tables)
