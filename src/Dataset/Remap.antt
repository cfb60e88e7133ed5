-- ===== src/Dataset/Remap.antt =====
-- When `remap_reference_fields` of cli/commands/data/package.rs finds all references.
use snow_cli.Base.{
  arith, is_some, text_eq, Bool-cases, inl, inr, Text, Option, List, Result, ◌∷◌, [], true, some,
  none, ok, err, ◌≡◌, refl, All, All-weaken,
}
use snow_cli.Json.{string}
use snow_cli.Trees.{put}
use snow_cli.Trees.Laws.{entry_at-put}
use snow_cli.Dataset.Types.{Reference, Marker, Fields, Reading, PackageError, unmapped}
use snow_cli.Dataset.Import.{Ids, id_at, remapped, marker_in, remap_reference_fields}
use snow_cli.Dataset.Ids.{Grows}

-- A marker of a record that is created.
abbrev pub IsCreated : Ids → Option Marker → Type 0
IsCreated ids none = Unit {0}
IsCreated ids (some marker) =
    is_some (id_at marker.marker_table marker.marker_source_key marker.source_value ids) ≡ true

abbrev pub AreCreated : {N : Type 0} → Reading N → Ids → List Reference → Fields N → Type 0
AreCreated reading ids references fields =
    All (λ reference. IsCreated ids (marker_in reading reference fields)) references

pub IsCreated-Grows :
    (before after : Ids)
    → Grows before after
    → (m : Option Marker) → IsCreated before m
    → IsCreated after m
IsCreated-Grows before after grows none h = tt
IsCreated-Grows before after grows (some marker) h =
    grows marker.marker_table marker.marker_source_key marker.source_value h

-- A text is no placeholder.
abbrev pub IsReading : {N : Type 0} → Reading N → Type 0
IsReading reading = (text : Text) → reading.read_placeholder (string text) ≡ none

module _ {N : Type 0} (reading : Reading N) (is_reading : IsReading reading) (ids : Ids) where
  IsCreated-put :
      (reference other : Reference) (id : Text) (fields : Fields N)
      → IsCreated ids (marker_in reading other fields)
      → IsCreated ids (marker_in reading other (put reference.field (string id) fields))
  IsCreated-put reference other id fields h =
      rw (entry_at-put reference.field other.field (string id) fields)
        (elim (Bool-cases (text_eq other.field reference.field)) [
          | inl same ↦ rw (same, is_reading id) tt
          | inr differs ↦ rw differs h
        ])

  pub remap_reference_fields-ok :
      (references : List Reference) (fields : Fields N)
      → AreCreated reading ids references fields
      → (body : Fields N) × (remap_reference_fields reading ids references fields ≡ ok body)
  remap_reference_fields-ok [] fields h = (fields, refl)
  remap_reference_fields-ok (reference ∷ references) fields h =
      by_marker (marker_in reading reference fields) h.0
        (λ next good. remap_reference_fields-ok references next good)
    where
      Remaps : Result PackageError (Fields N) → Type 0
      Remaps r =
          (body : Fields N) × (elim r [
            | err e ↦ err e
            | ok next ↦ remap_reference_fields reading ids references next
          ]
            ≡ ok body)

      by_id :
          (marker : Marker) (o : Option Text)
          → is_some o ≡ true
          → ((next : Fields N)
              → AreCreated reading ids references next
              → (body : Fields N) × (remap_reference_fields reading ids references next ≡ ok body))
          → Remaps (elim o [
            | none ↦ err (unmapped reference marker)
            | some id ↦ ok (put reference.field (string id) fields)
          ])
      by_id marker none found again = absurd (ground arith)
      by_id marker (some id) found again = again (put reference.field (string id) fields) (
          All-weaken (λ other. IsCreated ids (marker_in reading other fields))
            (λ other.
              IsCreated ids (marker_in reading other (put reference.field (string id) fields)))
            (λ other good. IsCreated-put reference other id fields good) references h.1)

      by_marker :
          (m : Option Marker)
          → IsCreated ids m
          → ((next : Fields N)
              → AreCreated reading ids references next
              → (body : Fields N) × (remap_reference_fields reading ids references next ≡ ok body))
          → Remaps (remapped reading ids reference m fields)
      by_marker none created again = again fields h.1
      by_marker (some marker) created again =
          by_id marker (id_at marker.marker_table marker.marker_source_key marker.source_value ids)
            created again
