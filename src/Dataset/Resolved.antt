-- ===== src/Dataset/Resolved.antt =====
-- What the references of a package are when cli/commands/data/package.rs finds no issue with them.
use snow_cli.Base.{
  arith, text_eq_iff, ℕ, suc, Text, Option, List, Result, ◌∷◌, [], true, some, none, ok, err, ◌≡◌,
  refl, All,
}
use snow_cli.Trees.{has, entry_at}
use snow_cli.Dataset.Types.{
  Reference, Marker, ManifestTable, TableRecord, Artifact, Reading, PackageError,
}
use snow_cli.Dataset.Import.{marker_in}
use snow_cli.Dataset.Validate.{
  Issue, IssueKind, marker_issue, issue_then, both, source_values, record_issues, artifact_issues,
  reference_issues, references_issues, package_issues,
}

-- A placeholder for one of the values.
abbrev pub IsMatched : Reference → List Text → Option Marker → Type 0
IsMatched reference values none = ⊥
IsMatched reference values (some marker) =
    (marker.marker_table ≡ reference.target_table)
    × (marker.marker_source_key ≡ reference.source_key)
    × (has marker.source_value values ≡ true)

marker_issue-IsMatched :
    (reference : Reference) (values : List Text) (m : Option Marker)
    → marker_issue reference values m ≡ none
    → IsMatched reference values m
marker_issue-IsMatched reference values none h = absurd (ground arith)
marker_issue-IsMatched reference values (some marker) h = (
  ground (arith, text_eq_iff marker.marker_table reference.target_table),
  ground (arith, text_eq_iff marker.marker_source_key reference.source_key),
  ground arith,
)

pub both-ok :
    (a b : Result PackageError (List Issue)) → both a b ≡ ok [] → (a ≡ ok []) × (b ≡ ok [])
both-ok (err e) b h = absurd (ground arith)
both-ok (ok issues) (err e) h = absurd (ground arith)
both-ok (ok []) (ok more) h = (refl, h)
both-ok (ok (issue ∷ issues)) (ok more) h = absurd (ground arith)

issue_then-none :
    (reference : Reference) (index : ℕ) (o : Option IssueKind) (issues : List Issue)
    → issue_then reference index o issues ≡ []
    → (o ≡ none) × (issues ≡ [])
issue_then-none reference index none issues h = (refl, h)
issue_then-none reference index (some kind) issues h = absurd (ground arith)

module _ {N : Type 0} (reading : Reading N) where
  record_issues-IsMatched :
      (reference : Reference) (values : List Text) (index : ℕ) (entries : List (TableRecord N))
      → record_issues reading reference values index entries ≡ []
      → All (λ entry. IsMatched reference values (marker_in reading reference entry.fields)) entries
  record_issues-IsMatched reference values index [] h = tt
  record_issues-IsMatched reference values index (entry ∷ entries) h =
      let found = marker_in reading reference entry.fields in
      let (first, rest) =
        issue_then-none reference index (marker_issue reference values found)
          (record_issues reading reference values (suc index) entries) h in
      (
        marker_issue-IsMatched reference values found first,
        record_issues-IsMatched reference values (suc index) entries rest,
      )

  -- Every record has a placeholder for a record of the target.
  abbrev pub IsResolved : List (Text × Artifact N) → ManifestTable → Reference → Type 0
  IsResolved artifacts table reference =
      (target : Artifact N) × (own : Artifact N) × (entry_at reference.target_table artifacts
        ≡ some target)
      × (entry_at table.manifest_name artifacts ≡ some own)
      × All
          (λ entry.
            IsMatched reference (source_values reading reference.source_key target.records)
              (marker_in reading reference entry.fields))
          own.records

  artifact_issues-IsResolved :
      (artifacts : List (Text × Artifact N)) (table : ManifestTable) (reference : Reference)
      (target own : Option (Artifact N))
      → entry_at reference.target_table artifacts ≡ target
      → entry_at table.manifest_name artifacts ≡ own
      → artifact_issues reading table reference target own ≡ ok []
      → IsResolved artifacts table reference
  artifact_issues-IsResolved artifacts table reference none own at_target at_own h =
      absurd (ground arith)
  artifact_issues-IsResolved artifacts table reference (some target) none at_target at_own h =
      absurd (ground arith)
  artifact_issues-IsResolved artifacts table reference (some target) (some own) at_target at_own h =
      let values = source_values reading reference.source_key target.records in
      (
        target,
        own,
        at_target,
        at_own,
        record_issues-IsMatched reference values 0 own.records (ground arith),
      )

  module _ (tables : List (Text × ManifestTable)) (artifacts : List (Text × Artifact N)) where
    reference_issues-IsResolved :
        (table : ManifestTable) (reference : Reference)
        → reference_issues reading tables artifacts table reference ≡ ok []
        → IsResolved artifacts table reference
    reference_issues-IsResolved table reference h =
        artifact_issues-IsResolved artifacts table reference
          (entry_at reference.target_table artifacts) (entry_at table.manifest_name artifacts) refl
          refl (ground arith)

    references_issues-IsResolved :
        (table : ManifestTable) (references : List Reference)
        → references_issues reading tables artifacts table references ≡ ok []
        → All (IsResolved artifacts table) references
    references_issues-IsResolved table [] h = tt
    references_issues-IsResolved table (reference ∷ references) h =
        let (first, rest) =
          both-ok (reference_issues reading tables artifacts table reference)
            (references_issues reading tables artifacts table references) h in
        (
          reference_issues-IsResolved table reference first,
          references_issues-IsResolved table references rest,
        )

    pub package_issues-IsResolved :
        (rest : List ManifestTable)
        → package_issues reading tables artifacts rest ≡ ok []
        → All (λ table. All (IsResolved artifacts table) table.references) rest
    package_issues-IsResolved [] h = tt
    package_issues-IsResolved (table ∷ rest) h =
        let (first, more) =
          both-ok (references_issues reading tables artifacts table table.references)
            (package_issues reading tables artifacts rest) h in
        (
          references_issues-IsResolved table table.references first,
          package_issues-IsResolved rest more,
        )
