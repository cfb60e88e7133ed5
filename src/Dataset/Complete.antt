-- ===== src/Dataset/Complete.antt =====
-- What the import of a package by cli/commands/data/package.rs comes to when the server accepts each
-- record.
use snow_cli.Base.{
  arith, subst, Bool-cases, inl, inr, unwrap_or, length, total, text_eq, text_eq_iff, ap, sym, ◌∙◌,
  ℕ, Text, Option, List, Result, ◌∷◌, [], ◌++◌, ◌+◌, true, some, none, ok, err, ◌≡◌, refl, All,
  All-weaken,
}
use snow_cli.Identifiers.{table_name, TableName, IdentifierError}
use snow_cli.Trees.{has, entry_at}
use snow_cli.Dataset.Order.{Deps}
use snow_cli.Dataset.Edges.{needs}
use snow_cli.Dataset.Left.{ArePlaced}
use snow_cli.Dataset.Types.{
  ManifestTable, Fields, TableRecord, Artifact, Reading, PackageError, invalid_name,
}
use snow_cli.Dataset.Tables.{Keys, deps_of, manifest_node}
use snow_cli.Dataset.Import.{
  Ids, Outcome, Progress, TableResult, import_table, import_tables, import_artifact, import_records,
  start_table,
}
use snow_cli.Dataset.Ids.{Grows, IsKnown}
use snow_cli.Dataset.Remap.{IsReading}
use snow_cli.Dataset.Records.{Accepts, IsImported, import_records-IsImported}
use snow_cli.Dataset.Resolved.{IsResolved}
use snow_cli.Dataset.Files.{table_names, IsRead}
use snow_cli.Dataset.Required.{AreRequired}
use snow_cli.Dataset.Known.{AreDone, table-AreCreated}

-- A table by its name.
abbrev pub All-named : (ManifestTable → Type 0) → Text → Type 0
All-named P name = (table : ManifestTable) × (table.manifest_name ≡ name) × P table

pub All-find :
    (P : ManifestTable → Type 0) (name : Text) (tables : List ManifestTable)
    → has name (table_names tables) ≡ true
    → All P tables
    → All-named P name
All-find P name [] there h = absurd (ground arith)
All-find P name (table ∷ tables) there h = elim (Bool-cases (text_eq name table.manifest_name)) [
  | inl same ↦ (table, sym ((text_eq_iff name table.manifest_name).0 same), h.0)
  | inr differs ↦ All-find P name tables (ground arith) h.1
]

-- The records of an artifact.
abbrev pub size_of : {N : Type 0} → Option (Artifact N) → ℕ
size_of none = 0
size_of (some artifact) = length artifact.records

module _ {N S E : Type 0} (reading : Reading N) (is_reading : IsReading reading)
    (post : Text → Fields N → S → Result E (Fields N) × S) (accepts : Accepts post)
    (read : Text → Option (Artifact N)) (required : Keys) (by_name : List (Text × ManifestTable))
    (artifacts : List (Text × Artifact N)) (deps : Deps) where
  -- A table whose references are resolved, and which depends on their targets.
  abbrev pub IsPrepared : ManifestTable → Type 0
  IsPrepared table =
      (entry_at table.manifest_name by_name ≡ some table)
      × IsRead read artifacts table
      × All (IsResolved reading artifacts table) table.references
      × AreRequired required table.references
      × (entry_at table.manifest_name deps ≡ some (deps_of (manifest_node table)))
      × All (λ reference. has reference.target_table (deps_of (manifest_node table)) ≡ true)
          table.references

  import_table-records :
      (table : ManifestTable) (artifact : Artifact N) (valid : TableName) (progress : Progress S E)
      → entry_at table.manifest_name by_name ≡ some table
      → table_name table.manifest_name ≡ ok valid
      → read table.file ≡ some artifact
      → import_table reading post required read table.manifest_name
          (entry_at table.manifest_name by_name)
          progress
        ≡ import_records reading post required table 0 artifact.records (start_table progress)
  import_table-records table artifact valid progress found named at =
      ap (λ o. import_table reading post required read table.manifest_name o progress) found
      ∙ by_name_of (table_name table.manifest_name) named
      ∙ ap (λ o. import_artifact reading post required read table o progress) at
    where
      by_name_of :
          (r : Result IdentifierError TableName)
          → r ≡ ok valid
          → ◌≡◌ {A = Outcome S E}
              (elim r [
                | err e ↦ (progress, some (invalid_name table.manifest_name))
                | ok name ↦
                    import_artifact reading post required read table (read table.file) progress
              ])
              (import_artifact reading post required read table (read table.file) progress)
      by_name_of (err e) same = absurd (ground arith)
      by_name_of (ok name) same = refl

  -- A table after those that it depends on.
  import_table-IsImported :
      (table : ManifestTable) (seen : List Text) (progress : Progress S E)
      → IsPrepared table
      → AreDone reading required artifacts seen progress.ids
      → ((dep : Text) → needs (entry_at table.manifest_name deps) dep ≡ true → has dep seen ≡ true)
      → (artifact : Artifact N) × (entry_at table.manifest_name artifacts ≡ some artifact)
        × IsImported reading is_reading post accepts required table artifact.records
            (start_table progress)
            (import_table reading post required read table.manifest_name
              (entry_at table.manifest_name by_name)
              progress)
  import_table-IsImported table seen progress
        (found, (artifact, valid, at, named, at_own), resolved, is_required, placed, referred) done
        before =
      let created =
        table-AreCreated reading required artifacts seen progress.ids done table artifact at_own
          resolved is_required
          (All-weaken
            (λ reference. has reference.target_table (deps_of (manifest_node table)) ≡ true)
            (λ reference. has reference.target_table seen ≡ true)
            (λ reference needed.
              before reference.target_table
                (ap (λ o. needs o reference.target_table) placed ∙ needed))
            table.references referred) in
      (
        artifact,
        at_own,
        subst
            (IsImported reading is_reading post accepts required table artifact.records
              (start_table progress))
            (sym (import_table-records table artifact valid progress found named at))
            (import_records-IsImported reading is_reading post accepts required table 0
              artifact.records (start_table progress) created),
      )

  abbrev pub sizes : List Text → ℕ
  sizes = total (λ name. size_of (entry_at name artifacts))

  done-next :
      (seen : List Text) (name : Text) (artifact : Artifact N) (before after : Ids)
      → AreDone reading required artifacts seen before
      → Grows before after
      → entry_at name artifacts ≡ some artifact
      → All
          (λ entry. IsKnown reading name (unwrap_or (entry_at name required) []) entry.fields after)
          artifact.records
      → AreDone reading required artifacts (name ∷ seen) after
  done-next seen name artifact before after done grows at known other found there at_other =
      elim (Bool-cases (text_eq other name)) [
        | inl same ↦
            subst
              (λ n.
                (a : Artifact N)
                → entry_at n artifacts ≡ some a
                → All
                    (λ entry.
                      IsKnown reading n (unwrap_or (entry_at n required) []) entry.fields after)
                    a.records)
              (sym ((text_eq_iff other name).0 same)) own found at_other
        | inr differs ↦
            All-weaken
              (λ (entry : TableRecord N).
                IsKnown reading other (unwrap_or (entry_at other required) []) entry.fields before)
              (λ (entry : TableRecord N).
                IsKnown reading other (unwrap_or (entry_at other required) []) entry.fields after)
              (λ entry known_before key value is_key text.
                grows other key value (known_before key value is_key text))
              found.records (done other found (ground arith) at_other)
      ]
    where
      own :
          (a : Artifact N)
          → entry_at name artifacts ≡ some a
          → All
              (λ entry.
                IsKnown reading name (unwrap_or (entry_at name required) []) entry.fields after)
              a.records
      own a at_name =
          let same : artifact ≡ a = ground arith in
          subst
            (λ (b : Artifact N).
              All
                (λ entry.
                  IsKnown reading name (unwrap_or (entry_at name required) []) entry.fields after)
                b.records)
            same known

  -- How the loop over the tables ends.
  abbrev pub Ends : List Text → Progress S E → List (TableResult E) × Outcome S E → Type 0
  Ends order progress out =
      (out.1.1 ≡ none)
      × (out.1.0.failed_total ≡ progress.failed_total)
      × (out.1.0.created_total ≡ progress.created_total + sizes order)

  pub import_tables-Ends :
      (tables : List ManifestTable)
      → All IsPrepared tables
      → (order seen : List Text) (results : List (TableResult E)) (progress : Progress S E)
      → ((name : Text) → has name order ≡ true → has name (table_names tables) ≡ true)
      → ArePlaced deps seen order
      → AreDone reading required artifacts seen progress.ids
      → Ends order progress
          (import_tables reading post required read by_name order results progress)
  import_tables-Ends tables prepared [] seen results progress named placed done =
      (refl, refl, ground arith)
  import_tables-Ends tables prepared (name ∷ order) seen results progress named placed done =
      let (table, same, is_prepared) =
        All-find IsPrepared name tables (named name (ground (arith, text_eq_iff name name)))
          prepared in
      subst
        (λ n.
          ArePlaced deps seen (n ∷ order)
          → Ends (n ∷ order) progress
              (import_tables reading post required read by_name (n ∷ order) results progress))
        same
        (λ placed_table.
          let own = table.manifest_name in
          let (artifact, at_own, (is_none, grows, created, failed, known)) =
            import_table-IsImported table seen progress is_prepared done placed_table.0 in
          let outcome =
            import_table reading post required read own (entry_at own by_name) progress in
          let more =
            results
            ++ record {
              result_table = own;
              result_created = outcome.0.created;
              result_failures = outcome.0.failures;
            }
              ∷ [] in
          let (rest_none, rest_failed, rest_created) =
            import_tables-Ends tables prepared order (own ∷ seen) more outcome.0
              (λ other found. named other (ground arith)) placed_table.1
              (done-next seen own artifact progress.ids outcome.0.ids done grows at_own known) in
          subst
            (λ (o : Option PackageError). Ends (own ∷ order) progress (elim o [
              | some e ↦ (results, outcome)
              | none ↦ import_tables reading post required read by_name order more outcome.0
            ]))
            (sym is_none)
            (rest_none, ground (arith, failed), ground (arith, created, ap size_of at_own)))
        placed
