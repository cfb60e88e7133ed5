-- ===== src/Preview.antt =====
-- cli/truncation.rs: shortening the text fields of records for a preview, with a report.
pub mod Fields
pub mod Pointer
mod Tests
use snow_cli.Base.{
  take, length, ltb, leb, text_eq, map, codes, Option, Bool, ℕ, Text, List, [], if◌then◌else◌, ◌||◌,
  ◌&&◌, ◌==◌, ◌++◌, ◌∷◌, false, true, suc, none, some, ◌≡◌,
}
use snow_cli.Json.{Value, string}
use snow_cli.Trees.{text_before}

pub data RecordPreviewRoot : Type 0 where
  records_root record_root : RecordPreviewRoot

-- A JSON pointer, which the source prints as "/records/N/field" or "/record/field"; the field is
-- escaped.
pub data FieldPath : Type 0 where
  in_records : (index : ℕ) → (field : Text) → FieldPath
  in_record : (field : Text) → FieldPath

pub record PreviewField : Type 0 where
  pub path : FieldPath
  pub original_chars : ℕ
  pub shown_chars : ℕ
  pub escape_hatch : Text

-- `str::replace` of a character.
unfoldable pub replace : ℕ → Text → Text → Text
replace c by [] = []
replace c by (d ∷ s) = if d == c then by ++ replace c by s else d ∷ replace c by s

unfoldable pub escape_json_pointer_segment : Text → Text
escape_json_pointer_segment segment = replace b'/' (codes "~1") (replace b'~' (codes "~0") segment)

unfoldable pub record_path : RecordPreviewRoot → ℕ → Text → FieldPath
record_path records_root index field = in_records index (escape_json_pointer_segment field)
record_path record_root index field = in_record (escape_json_pointer_segment field)

unfoldable pub preview_string : Text → ℕ → Option (Text × ℕ)
preview_string value limit =
    if leb (length value) limit then none else some (take limit value, length value)

unfoldable pub insert_key : Text → List Text → List Text
insert_key key [] = key ∷ []
insert_key key (first ∷ keys) =
    if text_before first key then first ∷ insert_key key keys else key ∷ first ∷ keys

-- `keys.sort()`
unfoldable pub sort_keys : List Text → List Text
sort_keys [] = []
sort_keys (key ∷ keys) = insert_key key (sort_keys keys)

-- The fields of a record.
abbrev pub Fields : Type 0 → Type 0
Fields N = List (Text × Value N)

module _ {N : Type 0} where
  unfoldable pub get_field : Text → Fields N → Option (Value N)
  get_field name [] = none
  get_field name (field ∷ fields) =
      if text_eq field.0 name then some field.1 else get_field name fields

  -- `*text = shortened`, through `get_mut`
  unfoldable pub set_field : Text → Value N → Fields N → Fields N
  set_field name value [] = []
  set_field name value (field ∷ fields) =
      if text_eq field.0 name
      then (field.0, value) ∷ fields
      else field ∷ set_field name value fields

  -- What becomes of one value: the shortened text and its length, where it is a text that is too long.
  unfoldable pub preview_value : ℕ → Option (Value N) → Option (Text × ℕ)
  preview_value limit (some (string text)) = preview_string text limit
  preview_value limit _ = none

  -- The loop's body for one key; `next` is the loop on the keys that follow.
  unfoldable pub preview_key :
      ℕ
      → RecordPreviewRoot
      → ℕ
      → Text
      → Text
      → (Fields N → Fields N × List PreviewField)
      → Fields N
      → Option (Text × ℕ)
      → Fields N × List PreviewField
  preview_key limit root index hatch key next fields none = next fields
  preview_key limit root index hatch key next fields (some shortened) =
      let rest = next (set_field key (string shortened.0) fields) in
      (
        rest.0,
        record {
          path = record_path root index key;
          original_chars = shortened.1;
          shown_chars = limit;
          escape_hatch = hatch;
        }
            ∷ rest.1,
      )

  -- The loop over the keys of a record.
  unfoldable pub preview_keys :
      ℕ → RecordPreviewRoot → ℕ → Text → List Text → Fields N → Fields N × List PreviewField
  unfolding preview_key
  preview_keys limit root index hatch [] fields = (fields, [])
  preview_keys limit root index hatch (key ∷ keys) fields =
      preview_key limit root index hatch key (preview_keys limit root index hatch keys) fields
        (preview_value limit (get_field key fields))

  unfoldable pub preview_record :
      ℕ → RecordPreviewRoot → ℕ → Text → Fields N → Fields N × List PreviewField
  preview_record limit root index hatch fields =
      preview_keys limit root index hatch (sort_keys (map (λ field. field.0) fields)) fields

  -- The loop over the records.
  unfoldable pub preview_from :
      ℕ → RecordPreviewRoot → ℕ → Text → List (Fields N) → List (Fields N) × List PreviewField
  preview_from limit root index hatch [] = ([], [])
  preview_from limit root index hatch (fields ∷ rest) =
      let first = preview_record limit root index hatch fields in
      let others = preview_from limit root (suc index) hatch rest in
      (first.0 ∷ others.0, first.1 ++ others.1)

  unfoldable pub preview_record_fields :
      List (Fields N) → ℕ → RecordPreviewRoot → Text → List (Fields N) × List PreviewField
  preview_record_fields all_records limit root hatch = preview_from limit root 0 hatch all_records
