-- ===== src/Dataset/Validate.antt =====
-- The checks of references in `build_package_validation_report` of cli/commands/data/package.rs. The
-- checks of one table by its schema are not part of it.
use snow_cli.Base.{
  is_some, and_then, text_eq, not, ℕ, suc, Text, Bool, Option, List, Result, if◌then◌else◌, ◌∷◌, [],
  ◌++◌, ◌||◌, some, none, ok, err,
}
use snow_cli.Identifiers.{table_name}
use snow_cli.Trees.{has, add, put, entry_at}
use snow_cli.Dataset.Types.{
  Reference, Marker, ManifestTable, TableRecord, Artifact, Reading, PackageError, missing_artifact,
  invalid_name, json_value_as_text,
}
use snow_cli.Dataset.Import.{marker_in}

pub data IssueKind : Type 0 where
  missing_dependency_table reference_mismatch unresolved_reference missing_reference_placeholder :
      IssueKind

-- An issue, without its message.
pub record Issue : Type 0 where
  pub kind : IssueKind
  pub issue_field : Text
  pub record_index : Option ℕ

abbrev pub is_mismatch : Reference → Marker → Bool
is_mismatch reference marker =
    not (text_eq marker.marker_table reference.target_table)
    || not (text_eq marker.marker_source_key reference.source_key)
    || not (text_eq marker.marker_target_key reference.target_key)

abbrev pub marker_issue : Reference → List Text → Option Marker → Option IssueKind
marker_issue reference values none = some missing_reference_placeholder
marker_issue reference values (some marker) =
    if is_mismatch reference marker
    then some reference_mismatch
    else if not (has marker.source_value values)
    then some unresolved_reference
    else none

abbrev pub issue_then : Reference → ℕ → Option IssueKind → List Issue → List Issue
issue_then reference index none issues = issues
issue_then reference index (some kind) issues =
    record { kind = kind; issue_field = reference.field; record_index = some index } ∷ issues

-- What two checks find, one after the other.
abbrev pub both :
    Result PackageError (List Issue)
    → Result PackageError (List Issue)
    → Result PackageError (List Issue)
both (err e) next = err e
both (ok issues) (err e) = err e
both (ok issues) (ok more) = ok (issues ++ more)

module _ {N : Type 0} (reading : Reading N) where
  -- `source_values`
  abbrev pub source_values : Text → List (TableRecord N) → List Text
  source_values key [] = []
  source_values key (entry ∷ entries) =
      elim (and_then (entry_at key entry.fields) (json_value_as_text reading)) [
        | none ↦ source_values key entries
        | some value ↦ add value (source_values key entries)
      ]

  abbrev pub record_issues : Reference → List Text → ℕ → List (TableRecord N) → List Issue
  record_issues reference values index [] = []
  record_issues reference values index (entry ∷ entries) =
      issue_then reference index
        (marker_issue reference values (marker_in reading reference entry.fields))
        (record_issues reference values (suc index) entries)

  abbrev pub artifact_issues :
      ManifestTable
      → Reference
      → Option (Artifact N)
      → Option (Artifact N)
      → Result PackageError (List Issue)
  artifact_issues table reference none own = err (missing_artifact reference.target_table)
  artifact_issues table reference (some target) none = err (missing_artifact table.manifest_name)
  artifact_issues table reference (some target) (some own) =
      ok (record_issues reference (source_values reference.source_key target.records) 0 own.records)

  module _ (tables : List (Text × ManifestTable)) (artifacts : List (Text × Artifact N)) where
    abbrev pub reference_issues : ManifestTable → Reference → Result PackageError (List Issue)
    reference_issues table reference =
        if not (is_some (entry_at reference.target_table tables))
        then ok (
            record {
              kind = missing_dependency_table;
              issue_field = reference.field;
              record_index = none;
            }
            ∷ [])
        else artifact_issues table reference (entry_at reference.target_table artifacts)
            (entry_at table.manifest_name artifacts)

    abbrev pub references_issues : ManifestTable → List Reference → Result PackageError (List Issue)
    references_issues table [] = ok []
    references_issues table (reference ∷ references) =
        both (reference_issues table reference) (references_issues table references)

    abbrev pub package_issues : List ManifestTable → Result PackageError (List Issue)
    package_issues [] = ok []
    package_issues (table ∷ rest) =
        both (references_issues table table.references) (package_issues rest)

-- The loop that reads the artifacts, and parses the names of their tables.
abbrev pub read_artifacts :
    {N : Type 0}
    → (Text → Option (Artifact N))
    → List ManifestTable
    → List (Text × Artifact N)
    → Result PackageError (List (Text × Artifact N))
read_artifacts read [] artifacts = ok artifacts
read_artifacts read (table ∷ tables) artifacts = elim (read table.file) [
  | none ↦ err (missing_artifact table.manifest_name)
  | some artifact ↦ elim (table_name table.manifest_name) [
    | err e ↦ err (invalid_name table.manifest_name)
    | ok name ↦ read_artifacts read tables (put table.manifest_name artifact artifacts)
  ]
]
