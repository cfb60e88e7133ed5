-- ===== src/Dataset/Import.antt =====
-- `handle_import_package` of cli/commands/data/package.rs, once the package is valid. The files are a
-- function, and to create a record is an operation on a state of the surroundings.
use snow_cli.Base.{
  unwrap_or, and_then, codes, ℕ, suc, Text, Option, List, Result, ◌∷◌, [], ◌++◌, some, none, ok,
  err,
}
use snow_cli.Json.{string, as_str}
use snow_cli.Identifiers.{table_name}
use snow_cli.Trees.{put, entry_at}
use snow_cli.Dataset.Types.{
  Reference, Marker, ManifestTable, Fields, TableRecord, Artifact, Reading, PackageError,
  missing_table, invalid_name, missing_artifact, unmapped, json_value_as_text,
}
use snow_cli.Dataset.Tables.{Keys}

-- By table, by key and by value: a `sys_id`.
abbrev pub Ids : Type 0
Ids = List (Text × List (Text × List (Text × Text)))

unfoldable pub id_at : Text → Text → Text → Ids → Option Text
id_at table key value ids = and_then (and_then (entry_at table ids) (entry_at key)) (entry_at value)

unfoldable pub insert_id : Text → Text → Text → Text → Ids → Ids
insert_id table key value id ids =
    let by_key = unwrap_or (entry_at table ids) [] in
    let by_value = unwrap_or (entry_at key by_key) [] in
    put table (put key (put value id by_value) by_key) ids

module _ {N : Type 0} (reading : Reading N) where
  -- One reference of a record.
  abbrev pub remapped : Ids → Reference → Option Marker → Fields N → Result PackageError (Fields N)
  remapped ids reference none fields = ok fields
  remapped ids reference (some marker) fields =
      elim (id_at marker.marker_table marker.marker_source_key marker.source_value ids) [
        | none ↦ err (unmapped reference marker)
        | some id ↦ ok (put reference.field (string id) fields)
      ]

  abbrev pub marker_in : Reference → Fields N → Option Marker
  marker_in reference fields = and_then (entry_at reference.field fields) reading.read_placeholder

  abbrev pub remap_reference_fields :
      Ids → List Reference → Fields N → Result PackageError (Fields N)
  remap_reference_fields ids [] fields = ok fields
  remap_reference_fields ids (reference ∷ references) fields =
      elim (remapped ids reference (marker_in reference fields) fields) [
        | err e ↦ err e
        | ok next ↦ remap_reference_fields ids references next
      ]

  -- The values of a record that was created, under the keys that references read.
  abbrev pub note_keys : Text → List Text → Text → Fields N → Ids → Ids
  note_keys table [] id fields ids = ids
  note_keys table (key ∷ keys) id fields ids =
      elim (and_then (entry_at key fields) (json_value_as_text reading)) [
        | none ↦ note_keys table keys id fields ids
        | some value ↦ note_keys table keys id fields (insert_id table key value id ids)
      ]

  abbrev pub noted : Text → Option (List Text) → Text → Fields N → Ids → Ids
  noted table none id fields ids = ids
  noted table (some keys) id fields ids = note_keys table keys id fields ids

abbrev pub record_sys_id : {N : Type 0} → Fields N → Text
record_sys_id fields = unwrap_or (and_then (entry_at (codes "sys_id") fields) as_str) []

-- What the import has come to, in the table at hand and in all.
pub record Progress (S E : Type 0) : Type 0 where
  pub surroundings : S
  pub ids : Ids
  pub created : ℕ
  pub created_total : ℕ
  pub failed_total : ℕ
  pub failures : List (ℕ × E)

pub record TableResult (E : Type 0) : Type 0 where
  pub result_table : Text
  pub result_created : ℕ
  pub result_failures : List (ℕ × E)

-- The progress, and the error that ends the import early.
abbrev pub Outcome : Type 0 → Type 0 → Type 0
Outcome S E = Progress S E × Option PackageError

abbrev pub start_table : {S E : Type 0} → Progress S E → Progress S E
start_table progress = record progress { created = 0; failures = [] }

module _ {N S E : Type 0} (reading : Reading N)
    (post : Text → Fields N → S → Result E (Fields N) × S) (required : Keys) where
  abbrev pub after_post :
      Text → ℕ → Fields N → Progress S E → Result E (Fields N) × S → Progress S E
  after_post table index fields progress (ok response, next) = record progress {
    surroundings = next;
    ids =
        noted reading table (entry_at table required) (record_sys_id response) fields progress.ids;
    created = suc progress.created;
    created_total = suc progress.created_total;
  }
  after_post table index fields progress (err e, next) = record progress {
    surroundings = next;
    failures = progress.failures ++ (index, e) ∷ [];
    failed_total = suc progress.failed_total;
  }

  abbrev pub import_records : ManifestTable → ℕ → List (TableRecord N) → Progress S E → Outcome S E
  import_records table index [] progress = (progress, none)
  import_records table index (entry ∷ entries) progress =
      elim (remap_reference_fields reading progress.ids table.references entry.fields) [
        | err e ↦ (progress, some e)
        | ok body ↦ import_records table (suc index) entries (
            after_post table.manifest_name index entry.fields progress
              (post table.manifest_name body progress.surroundings))
      ]

  module _ (read : Text → Option (Artifact N)) where
    abbrev pub import_artifact : ManifestTable → Option (Artifact N) → Progress S E → Outcome S E
    import_artifact table none progress = (progress, some (missing_artifact table.manifest_name))
    import_artifact table (some artifact) progress =
        import_records table 0 artifact.records (start_table progress)

    abbrev pub import_table : Text → Option ManifestTable → Progress S E → Outcome S E
    import_table name none progress = (progress, some (missing_table name))
    import_table name (some table) progress = elim (table_name table.manifest_name) [
      | err e ↦ (progress, some (invalid_name table.manifest_name))
      | ok valid ↦ import_artifact table (read table.file) progress
    ]

    -- The loop over the tables in their order, with what is reported of each.
    abbrev pub import_tables :
        List (Text × ManifestTable)
        → List Text
        → List (TableResult E)
        → Progress S E
        → List (TableResult E) × Outcome S E
    import_tables tables [] results progress = (results, (progress, none))
    import_tables tables (name ∷ order) results progress =
        let outcome = import_table name (entry_at name tables) progress in
        elim outcome.1 [
          | some e ↦ (results, outcome)
          | none ↦
              import_tables tables order
                (results
                  ++ record {
                    result_table = name;
                    result_created = outcome.0.created;
                    result_failures = outcome.0.failures;
                  }
                    ∷ [])
                outcome.0
        ]
