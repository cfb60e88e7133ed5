-- ===== src/Dataset/Ids.antt =====
-- The new `sys_id`s that cli/commands/data/package.rs keeps while it imports.
use snow_cli.Base.{
  arith, is_some, unwrap_or, and_then, text_eq, text_eq_iff, Bool-cases, inl, inr, ap, ◌∙◌, Text,
  Option, List, ◌∷◌, [], if◌then◌else◌, ◌&&◌, true, some, none, ◌≡◌, refl,
}
use snow_cli.Trees.{put, entry_at, has}
use snow_cli.Trees.Laws.{entry_at-put}
use snow_cli.Dataset.Types.{Fields, Reading, json_value_as_text}
use snow_cli.Dataset.Import.{Ids, id_at, insert_id, note_keys, noted}

-- The value of a record under a key, as text.
abbrev pub text_at : {N : Type 0} → Reading N → Text → Fields N → Option Text
text_at reading key fields = and_then (entry_at key fields) (json_value_as_text reading)

abbrev pub Grows : Ids → Ids → Type 0
Grows before after =
    (table key value : Text)
    → is_some (id_at table key value before) ≡ true
    → is_some (id_at table key value after) ≡ true

entry_at-unwrap_or :
    {V : Type 0} (key : Text) (o : Option (List (Text × V)))
    → and_then o (entry_at key) ≡ entry_at key (unwrap_or o [])
unfolding entry_at
entry_at-unwrap_or key none = refl
entry_at-unwrap_or key (some entries) = refl

-- `id_at`, where an absent map is an empty one.
abbrev id_in : Text → Text → Text → Ids → Option Text
id_in table key value ids =
    entry_at value (unwrap_or (entry_at key (unwrap_or (entry_at table ids) [])) [])

id_at-id_in :
    (table key value : Text) (ids : Ids) → id_at table key value ids ≡ id_in table key value ids
unfolding id_at
id_at-id_in table key value ids =
    ap (λ o. and_then o (entry_at value)) (entry_at-unwrap_or key (entry_at table ids))
    ∙ entry_at-unwrap_or value (entry_at key (unwrap_or (entry_at table ids) []))

id_in-insert_id :
    (table key value id other_table other_key other_value : Text) (ids : Ids)
    → id_in other_table other_key other_value (insert_id table key value id ids) ≡ (
        if text_eq other_table table && text_eq other_key key && text_eq other_value value
        then some id
        else id_in other_table other_key other_value ids)
unfolding insert_id
id_in-insert_id table key value id other_table other_key other_value ids =
    let by_key = unwrap_or (entry_at table ids) [] in
    let by_value = unwrap_or (entry_at key by_key) [] in
    ground (
      arith,
      entry_at-put table other_table (put key (put value id by_value) by_key) ids,
      entry_at-put key other_key (put value id by_value) by_key,
      entry_at-put value other_value id by_value,
      text_eq_iff other_table table,
      text_eq_iff other_key key,
    )

pub id_at-insert_id :
    (table key value id other_table other_key other_value : Text) (ids : Ids)
    → id_at other_table other_key other_value (insert_id table key value id ids) ≡ (
        if text_eq other_table table && text_eq other_key key && text_eq other_value value
        then some id
        else id_at other_table other_key other_value ids)
id_at-insert_id table key value id other_table other_key other_value ids = ground (
  arith,
  id_in-insert_id table key value id other_table other_key other_value ids,
  id_at-id_in other_table other_key other_value ids,
  id_at-id_in other_table other_key other_value (insert_id table key value id ids),
)

insert_id-Grows :
    (table key value id : Text) (ids : Ids) → Grows ids (insert_id table key value id ids)
insert_id-Grows table key value id ids other_table other_key other_value h =
    ground (arith, id_at-insert_id table key value id other_table other_key other_value ids)

-- The record's values under the keys are known.
abbrev pub IsKnown : {N : Type 0} → Reading N → Text → List Text → Fields N → Ids → Type 0
IsKnown reading table keys fields ids =
    (key value : Text)
    → has key keys ≡ true
    → text_at reading key fields ≡ some value
    → is_some (id_at table key value ids) ≡ true

module _ {N : Type 0} (reading : Reading N) where
  pub note_keys-Grows :
      (table : Text) (keys : List Text) (id : Text) (fields : Fields N) (ids : Ids)
      → Grows ids (note_keys reading table keys id fields ids)
  note_keys-Grows table [] id fields ids = λ t k v h. h
  note_keys-Grows table (key ∷ keys) id fields ids =
      by_text (text_at reading key fields) (note_keys-Grows table keys id fields)
    where
      by_text :
          (o : Option Text)
          → ((next : Ids) → Grows next (note_keys reading table keys id fields next))
          → Grows ids (elim o [
            | none ↦ note_keys reading table keys id fields ids
            | some value ↦ note_keys reading table keys id fields (insert_id table key value id ids)
          ])
      by_text none again = again ids
      by_text (some value) again = λ t k v h.
          again (insert_id table key value id ids) t k v
            (insert_id-Grows table key value id ids t k v h)

  pub note_keys-IsKnown :
      (table : Text) (keys : List Text) (id : Text) (fields : Fields N) (ids : Ids)
      → IsKnown reading table keys fields (note_keys reading table keys id fields ids)
  note_keys-IsKnown table [] id fields ids = λ key value h found. absurd (ground arith)
  note_keys-IsKnown table (first ∷ keys) id fields ids =
      by_text (text_at reading first fields) refl (note_keys-IsKnown table keys id fields)
    where
      at_first :
          (key : Text)
          → text_eq key first ≡ true
          → text_at reading key fields ≡ text_at reading first fields
      at_first key same = ap (λ k. text_at reading k fields) ((text_eq_iff key first).0 same)

      by_text :
          (o : Option Text)
          → text_at reading first fields ≡ o
          → ((next : Ids)
              → IsKnown reading table keys fields (note_keys reading table keys id fields next))
          → IsKnown reading table (first ∷ keys) fields (elim o [
            | none ↦ note_keys reading table keys id fields ids
            | some value ↦
                note_keys reading table keys id fields (insert_id table first value id ids)
          ])
      by_text none at again key value h found = elim (Bool-cases (text_eq key first)) [
        | inl same ↦ absurd (ground (arith, at_first key same))
        | inr differs ↦ again ids key value (ground arith) found
      ]
      by_text (some text) at again key value h found = elim (Bool-cases (text_eq key first)) [
        | inl same ↦
            let same_text : value ≡ text = ground (arith, at_first key same) in
            note_keys-Grows table keys id fields (insert_id table first text id ids) table key value
              (ground (
                arith,
                id_at-insert_id table first text id table key value ids,
                text_eq_iff table table,
                text_eq_iff value text,
              ))
        | inr differs ↦ again (insert_id table first text id ids) key value (ground arith) found
      ]

  pub noted-Grows :
      (table : Text) (o : Option (List Text)) (id : Text) (fields : Fields N) (ids : Ids)
      → Grows ids (noted reading table o id fields ids)
  noted-Grows table none id fields ids = λ t k v h. h
  noted-Grows table (some keys) id fields ids = note_keys-Grows table keys id fields ids

  pub noted-IsKnown :
      (table : Text) (o : Option (List Text)) (id : Text) (fields : Fields N) (ids : Ids)
      → IsKnown reading table (unwrap_or o []) fields (noted reading table o id fields ids)
  noted-IsKnown table none id fields ids = λ key value h found. absurd (ground arith)
  noted-IsKnown table (some keys) id fields ids = note_keys-IsKnown table keys id fields ids
