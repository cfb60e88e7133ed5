-- ===== src/Dataset/Known.antt =====
-- Why the references of one table are found when cli/commands/data/package.rs imports it.
use snow_cli.Base.{
  arith, subst, Bool-cases, inl, inr, is_some, unwrap_or, text_eq, text_eq_iff, ap, sym, ◌∙◌, Text,
  Option, List, ◌∷◌, [], true, some, none, ◌≡◌, refl, All, All-weaken, All-swap,
}
use snow_cli.Trees.{has, entry_at, add}
use snow_cli.Trees.Laws.{has-add}
use snow_cli.Dataset.Types.{Reference, Marker, ManifestTable, TableRecord, Artifact, Reading}
use snow_cli.Dataset.Tables.{Keys}
use snow_cli.Dataset.Import.{Ids, id_at, marker_in}
use snow_cli.Dataset.Ids.{IsKnown, text_at}
use snow_cli.Dataset.Validate.{source_values}
use snow_cli.Dataset.Remap.{IsCreated, AreCreated}
use snow_cli.Dataset.Resolved.{IsMatched, IsResolved}
use snow_cli.Dataset.Required.{AreRequired}

module _ {N : Type 0} (reading : Reading N) where
  source_values-known :
      (table key value : Text) (names : List Text) (entries : List (TableRecord N)) (ids : Ids)
      → All (λ entry. IsKnown reading table names entry.fields ids) entries
      → has key names ≡ true
      → has value (source_values reading key entries) ≡ true
      → is_some (id_at table key value ids) ≡ true
  source_values-known table key value names [] ids known is_key there = absurd (ground arith)
  source_values-known table key value names (entry ∷ entries) ids known is_key there =
      by_text (text_at reading key entry.fields) refl there
        (source_values-known table key value names entries ids known.1 is_key)
    where
      by_text :
          (o : Option Text)
          → text_at reading key entry.fields ≡ o
          → has value (elim o [
            | none ↦ source_values reading key entries
            | some text ↦ add text (source_values reading key entries)
          ])
            ≡ true
          → (has value (source_values reading key entries) ≡ true
              → is_some (id_at table key value ids) ≡ true)
          → is_some (id_at table key value ids) ≡ true
      by_text none at found again = again found
      by_text (some text) at found again = elim (Bool-cases (text_eq value text)) [
        | inl same ↦
            let equal = (text_eq_iff value text).0 same in
            known.0 key value is_key (at ∙ ap some (sym equal))
        | inr differs ↦
            again (ground (arith, has-add value text (source_values reading key entries)))
      ]

  -- What the tables that are done are for: their records are known.
  abbrev pub AreDone : Keys → List (Text × Artifact N) → List Text → Ids → Type 0
  AreDone required artifacts seen ids =
      (name : Text) (artifact : Artifact N)
      → has name seen ≡ true
      → entry_at name artifacts ≡ some artifact
      → All (λ entry. IsKnown reading name (unwrap_or (entry_at name required) []) entry.fields ids)
          artifact.records

  module _ (required : Keys) (artifacts : List (Text × Artifact N)) (seen : List Text) (ids : Ids)
      (done : AreDone required artifacts seen ids) (table : ManifestTable) (own : Artifact N)
      (is_own : entry_at table.manifest_name artifacts ≡ some own) where
    IsMatched-IsCreated :
        (reference : Reference) (target : Artifact N) (m : Option Marker)
        → has reference.target_table seen ≡ true
        → has reference.source_key (unwrap_or (entry_at reference.target_table required) []) ≡ true
        → entry_at reference.target_table artifacts ≡ some target
        → IsMatched reference (source_values reading reference.source_key target.records) m
        → IsCreated ids m
    IsMatched-IsCreated reference target none before is_key at matched = absurd matched
    IsMatched-IsCreated reference target (some marker) before is_key at matched =
        let known =
          source_values-known reference.target_table reference.source_key marker.source_value
            (unwrap_or (entry_at reference.target_table required) []) target.records ids
            (done reference.target_table target before at) is_key matched.2 in
        ground (
          arith,
          ap (λ t. id_at t marker.marker_source_key marker.source_value ids) matched.0,
          ap (λ k. id_at reference.target_table k marker.source_value ids) matched.1,
        )

    -- The placeholders of one reference are of records that are created.
    reference-IsCreated :
        (reference : Reference)
        → IsResolved reading artifacts table reference
        → has reference.source_key (unwrap_or (entry_at reference.target_table required) []) ≡ true
        → has reference.target_table seen ≡ true
        → All (λ entry. IsCreated ids (marker_in reading reference entry.fields)) own.records
    reference-IsCreated reference (target, found, at_target, at_own, matched) is_key before =
        let same : found ≡ own = ground arith in
        subst
          (λ (a : Artifact N).
            All (λ entry. IsCreated ids (marker_in reading reference entry.fields)) a.records)
          same
          (All-weaken
            (λ entry.
              IsMatched reference (source_values reading reference.source_key target.records)
                (marker_in reading reference entry.fields))
            (λ entry. IsCreated ids (marker_in reading reference entry.fields))
            (λ entry.
              IsMatched-IsCreated reference target (marker_in reading reference entry.fields) before
                is_key at_target)
            found.records matched)

    pub table-AreCreated :
        All (IsResolved reading artifacts table) table.references
        → AreRequired required table.references
        → All (λ reference. has reference.target_table seen ≡ true) table.references
        → All (λ entry. AreCreated reading ids table.references entry.fields) own.records
    table-AreCreated resolved is_required before =
        All-swap
          (λ (reference : Reference) (entry : TableRecord N).
            IsCreated ids (marker_in reading reference entry.fields))
          table.references own.records (each table.references resolved is_required before)
      where
        each :
            (references : List Reference)
            → All (IsResolved reading artifacts table) references
            → AreRequired required references
            → All (λ reference. has reference.target_table seen ≡ true) references
            → All
                (λ reference.
                  All
                    (λ entry. IsCreated ids (marker_in reading reference entry.fields))
                    own.records)
                references
        each [] r k b = tt
        each (reference ∷ references) r k b =
            (reference-IsCreated reference r.0 k.0 b.0, each references r.1 k.1 b.1)
