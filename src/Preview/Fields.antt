-- ===== src/Preview/Fields.antt =====
-- What a preview does to the fields of a record.
use snow_cli.Base.{
  All-append, length, All, suc, sym, map, Bool, ◌||◌, false, ◌∙◌, subst, length-take, any, take_all,
  ap, List, ◌<◌, refl, true, text_eq_iff, arith, is_some, text_eq, take, Option, ℕ, Text, [],
  if◌then◌else◌, ◌∷◌, none, some, ◌≡◌,
}
use snow_cli.Json.{Value, string, null, bool, number, array, object}
use snow_cli.Preview.{
  preview_record_fields, preview_from, PreviewField, preview_key, sort_keys, insert_key,
  RecordPreviewRoot, Fields, get_field, set_field, preview_keys, preview_record, preview_value,
  preview_string,
}

take-take : (n : ℕ) (s : Text) → take n (take n s) ≡ take n s
take-take n s = take_all n (take n s) (omega (arith, length-take n s))

any-insert_key :
    (p : Text → Bool) (key : Text) (keys : List Text)
    → any p (insert_key key keys) ≡ (p key || any p keys)
unfolding insert_key
any-insert_key p key [] = refl
any-insert_key p key (first ∷ keys) = ground (arith, any-insert_key p key keys)

any-sort_keys : (p : Text → Bool) (keys : List Text) → any p (sort_keys keys) ≡ any p keys
unfolding sort_keys
any-sort_keys p [] = refl
any-sort_keys p (key ∷ keys) =
    ground (arith, any-sort_keys p keys, any-insert_key p key (sort_keys keys))

-- A field that is reported was longer than the limit, and is shown up to it.
abbrev pub IsCutField : ℕ → Text → PreviewField → Type 0
IsCutField limit hatch field =
    (limit < field.original_chars) × (field.shown_chars ≡ limit) × (field.escape_hatch ≡ hatch)

module _ {N : Type 0} where
  -- A value as a preview shows it: a text is cut at the limit, anything else stays.
  abbrev pub shown : ℕ → Value N → Value N
  shown limit (string text) = string (take limit text)
  shown limit null = null
  shown limit (bool b) = bool b
  shown limit (number n) = number n
  shown limit (array items) = array items
  shown limit (object entries) = object entries

  abbrev pub shown_field : ℕ → Option (Value N) → Option (Value N)
  shown_field limit none = none
  shown_field limit (some value) = some (shown limit value)

  get_field-set_field :
      (name other : Text) (value : Value N) (fields : Fields N)
      → get_field other (set_field name value fields) ≡ (
          if text_eq name other
          then (if is_some (get_field name fields) then some value else none)
          else get_field other fields)
  unfolding get_field set_field
  get_field-set_field name other value [] = ground arith
  get_field-set_field name other value (field ∷ fields) = ground (
    arith,
    get_field-set_field name other value fields,
    text_eq_iff field.0 name,
    text_eq_iff field.0 other,
    text_eq_iff name other,
  )

  -- A value that is left as it is would be shown as it is.
  preview_value-none :
      (limit : ℕ) (o : Option (Value N)) → preview_value limit o ≡ none → shown_field limit o ≡ o
  unfolding preview_value preview_string
  preview_value-none limit none h = refl
  preview_value-none limit (some (string text)) h =
      ap (λ t. some (string t)) (take_all limit text (ground arith))
  preview_value-none limit (some null) h = refl
  preview_value-none limit (some (bool b)) h = refl
  preview_value-none limit (some (number n)) h = refl
  preview_value-none limit (some (array items)) h = refl
  preview_value-none limit (some (object entries)) h = refl

  preview_value-some :
      (limit : ℕ) (o : Option (Value N)) (text : Text) (total : ℕ)
      → preview_value limit o ≡ some (text, total)
      → (is_some o ≡ true)
        × (shown_field limit o ≡ some (string text))
        × (take limit text ≡ text)
        × (limit < total)
  unfolding preview_value preview_string
  preview_value-some limit none text total h = absurd (ground arith)
  preview_value-some limit (some (string whole)) text total h =
      let cut : take limit whole ≡ text = ground arith in
      (
        refl,
        ap (λ t. some (string t)) cut,
        subst (λ t. take limit t ≡ t) cut (take-take limit whole),
        ground arith,
      )
  preview_value-some limit (some null) text total h = absurd (ground arith)
  preview_value-some limit (some (bool b)) text total h = absurd (ground arith)
  preview_value-some limit (some (number n)) text total h = absurd (ground arith)
  preview_value-some limit (some (array items)) text total h = absurd (ground arith)
  preview_value-some limit (some (object entries)) text total h = absurd (ground arith)

  -- The fields with a key in the list are shown, the others stay.
  abbrev pub shown_keys : ℕ → List Text → Text → Option (Value N) → Option (Value N)
  shown_keys limit keys other o = if any (text_eq other) keys then shown_field limit o else o

  get_field-preview_keys :
      (limit : ℕ) (root : RecordPreviewRoot) (index : ℕ) (hatch : Text) (keys : List Text)
      (fields : Fields N) (other : Text)
      → get_field other (preview_keys limit root index hatch keys fields).0
        ≡ shown_keys limit keys other (get_field other fields)
  unfolding preview_keys
  get_field-preview_keys limit root index hatch [] fields other = refl
  get_field-preview_keys limit root index hatch (key ∷ keys) fields other =
      by_value (λ fs. get_field-preview_keys limit root index hatch keys fs other)
        (preview_value limit (get_field key fields)) refl
    where
      by_value :
          ((fs : Fields N)
            → get_field other (preview_keys limit root index hatch keys fs).0
              ≡ shown_keys limit keys other (get_field other fs))
          → (v : Option (Text × ℕ)) → preview_value limit (get_field key fields) ≡ v
          → get_field other
              (preview_key limit root index hatch key
                (preview_keys limit root index hatch keys)
                fields
                v).0
            ≡ shown_keys limit (key ∷ keys) other (get_field other fields)
      by_value step none h =
          step fields
          ∙ ground (arith, text_eq_iff other key, preview_value-none limit (get_field key fields) h)
      by_value step (some shortened) h =
          let (there, same, cut, long) =
            preview_value-some limit (get_field key fields) shortened.0 shortened.1 h in
          let again : shown limit (string shortened.0) ≡ string shortened.0 = ap string cut in
          step (set_field key (string shortened.0) fields)
          ∙ ground (
            arith,
            get_field-set_field key other (string shortened.0) fields,
            text_eq_iff other key,
            text_eq_iff key other,
          )

  absent :
      (other : Text) (fields : Fields N)
      → any (text_eq other) (map (λ field. field.0) fields) ≡ false
      → get_field other fields ≡ none
  unfolding get_field
  absent other [] h = refl
  absent other (field ∷ fields) h =
      ground (arith, absent other fields, text_eq_iff field.0 other, text_eq_iff other field.0)

  -- A preview of a record cuts each text field at the limit and leaves every other field as it is; it
  -- adds no field and drops none.
  pub get_field-preview_record :
      (limit : ℕ) (root : RecordPreviewRoot) (index : ℕ) (hatch : Text) (fields : Fields N)
      (other : Text)
      → get_field other (preview_record limit root index hatch fields).0
        ≡ shown_field limit (get_field other fields)
  unfolding preview_record
  get_field-preview_record limit root index hatch fields other =
      let keys = map (λ field. field.0) fields in
      get_field-preview_keys limit root index hatch (sort_keys keys) fields other
      ∙ by_presence (any (text_eq other) (sort_keys keys)) refl
    where
      by_presence :
          (b : Bool)
          → any (text_eq other) (sort_keys (map (λ field. field.0) fields)) ≡ b
          → shown_keys limit
              (sort_keys (map (λ field. field.0) fields))
              other
              (get_field other fields)
            ≡ shown_field limit (get_field other fields)
      by_presence true h = rw h refl
      by_presence false h =
          let keys = map (λ field. field.0) fields in
          let gone = absent other fields (sym (any-sort_keys (text_eq other) keys) ∙ h) in
          rw h (ground (arith, gone))

  preview_keys-IsCutField :
      (limit : ℕ) (root : RecordPreviewRoot) (index : ℕ) (hatch : Text) (keys : List Text)
      (fields : Fields N)
      → All (IsCutField limit hatch) (preview_keys limit root index hatch keys fields).1
  unfolding preview_keys
  preview_keys-IsCutField limit root index hatch [] fields = tt
  preview_keys-IsCutField limit root index hatch (key ∷ keys) fields =
      by_value (λ fs. preview_keys-IsCutField limit root index hatch keys fs)
        (preview_value limit (get_field key fields)) refl
    where
      by_value :
          ((fs : Fields N)
            → All (IsCutField limit hatch) (preview_keys limit root index hatch keys fs).1)
          → (v : Option (Text × ℕ)) → preview_value limit (get_field key fields) ≡ v
          → All
              (IsCutField limit hatch)
              (preview_key limit root index hatch key
                (preview_keys limit root index hatch keys)
                fields
                v).1
      by_value step none h = step fields
      by_value step (some shortened) h =
          let facts = preview_value-some limit (get_field key fields) shortened.0 shortened.1 h in
          ((facts.3, refl, refl), step (set_field key (string shortened.0) fields))

  preview_from-shows :
      (limit : ℕ) (root : RecordPreviewRoot) (index : ℕ) (hatch : Text)
      (all_records : List (Fields N))
      → (length (preview_from limit root index hatch all_records).0 ≡ length all_records)
        × All (IsCutField limit hatch) (preview_from limit root index hatch all_records).1
  unfolding preview_from preview_record
  preview_from-shows limit root index hatch [] = (refl, tt)
  preview_from-shows limit root index hatch (fields ∷ rest) =
      let (same, cuts) = preview_from-shows limit root (suc index) hatch rest in
      (
        ap suc same,
        All-append (IsCutField limit hatch) (preview_record limit root index hatch fields).1 _
            (preview_keys-IsCutField limit root index hatch
              (sort_keys (map (λ field. field.0) fields)) fields)
            cuts,
      )

  -- A preview of records keeps their number, and each field that it reports was longer than the limit
  -- and is reported with the limit as its length and the given way out.
  pub preview_record_fields-shows :
      (all_records : List (Fields N)) (limit : ℕ) (root : RecordPreviewRoot) (hatch : Text)
      → (length (preview_record_fields all_records limit root hatch).0 ≡ length all_records)
        × All (IsCutField limit hatch) (preview_record_fields all_records limit root hatch).1
  unfolding preview_record_fields
  preview_record_fields-shows all_records limit root hatch =
      preview_from-shows limit root 0 hatch all_records
