-- ===== src/Dataset/Records.antt =====
-- How cli/commands/data/package.rs imports the records of one table when each of them is accepted.
use snow_cli.Base.{
  arith, subst, sym, unwrap_or, length, ℕ, suc, Text, List, Result, ◌∷◌, [], ◌+◌, some, none, ok,
  err, ◌≡◌, refl, All, All-weaken,
}
use snow_cli.Trees.{entry_at}
use snow_cli.Dataset.Types.{ManifestTable, Fields, Reading, TableRecord, PackageError}
use snow_cli.Dataset.Tables.{Keys}
use snow_cli.Dataset.Import.{
  Ids, Progress, Outcome, record_sys_id, marker_in, after_post, import_records,
}
use snow_cli.Dataset.Ids.{Grows, IsKnown, noted-Grows, noted-IsKnown}
use snow_cli.Dataset.Remap.{
  AreCreated, IsCreated, IsCreated-Grows, IsReading, remap_reference_fields-ok,
}

-- The server accepts every record.
abbrev pub Accepts : {N S E : Type 0} → (Text → Fields N → S → Result E (Fields N) × S) → Type 0
Accepts {N} {S} {E} post =
    (table : Text) (body : Fields N) (s : S)
    → (response : Fields N) × ((post table body s).0 ≡ ok response)

module _ {N S E : Type 0} (reading : Reading N) (is_reading : IsReading reading)
    (post : Text → Fields N → S → Result E (Fields N) × S) (accepts : Accepts post)
    (required : Keys) (table : ManifestTable) where
  abbrev keys_of : List Text
  keys_of = unwrap_or (entry_at table.manifest_name required) []

  -- What it means that the records are imported.
  abbrev pub IsImported : List (TableRecord N) → Progress S E → Outcome S E → Type 0
  IsImported entries progress outcome =
      (outcome.1 ≡ none)
      × Grows progress.ids outcome.0.ids
      × (outcome.0.created_total ≡ progress.created_total + length entries)
      × (outcome.0.failed_total ≡ progress.failed_total)
      × All (λ entry. IsKnown reading table.manifest_name keys_of entry.fields outcome.0.ids)
          entries

  -- One record is created.
  abbrev IsPosted : Fields N → Progress S E → Progress S E → Type 0
  IsPosted fields before after =
      Grows before.ids after.ids
      × (after.created_total ≡ suc before.created_total)
      × (after.failed_total ≡ before.failed_total)
      × IsKnown reading table.manifest_name keys_of fields after.ids

  after_post-IsPosted :
      (index : ℕ) (fields : Fields N) (progress : Progress S E) (reply : Result E (Fields N) × S)
      (response : Fields N)
      → reply.0 ≡ ok response
      → IsPosted fields progress
          (after_post reading post required table.manifest_name index fields progress reply)
  after_post-IsPosted index fields progress (err e, next) response h = absurd (ground arith)
  after_post-IsPosted index fields progress (ok found, next) response h =
      let keys = entry_at table.manifest_name required in
      (
        noted-Grows reading table.manifest_name keys (record_sys_id found) fields progress.ids,
        refl,
        refl,
        noted-IsKnown reading table.manifest_name keys (record_sys_id found) fields progress.ids,
      )

  AreCreated-Grows :
      (before after : Ids) (entries : List (TableRecord N))
      → Grows before after
      → All (λ entry. AreCreated reading before table.references entry.fields) entries
      → All (λ entry. AreCreated reading after table.references entry.fields) entries
  AreCreated-Grows before after entries grows h =
      All-weaken
        (λ (entry : TableRecord N). AreCreated reading before table.references entry.fields)
        (λ (entry : TableRecord N). AreCreated reading after table.references entry.fields)
        (λ entry good.
          All-weaken (λ reference. IsCreated before (marker_in reading reference entry.fields))
            (λ reference. IsCreated after (marker_in reading reference entry.fields))
            (λ reference.
              IsCreated-Grows before after grows (marker_in reading reference entry.fields))
            table.references good)
        entries h

  pub import_records-IsImported :
      (index : ℕ) (entries : List (TableRecord N)) (progress : Progress S E)
      → All (λ entry. AreCreated reading progress.ids table.references entry.fields) entries
      → IsImported entries progress
          (import_records reading post required table index entries progress)
  import_records-IsImported index [] progress h =
      (refl, (λ t k v known. known), ground arith, refl, tt)
  import_records-IsImported index (entry ∷ entries) progress h =
      let (body, remaps) =
        remap_reference_fields-ok reading is_reading progress.ids table.references entry.fields
          h.0 in
      let reply = post table.manifest_name body progress.surroundings in
      let (response, accepted) = accepts table.manifest_name body progress.surroundings in
      let after =
        after_post reading post required table.manifest_name index entry.fields progress reply in
      let posted = after_post-IsPosted index entry.fields progress reply response accepted in
      let rest =
        import_records-IsImported (suc index) entries after
          (AreCreated-Grows progress.ids after.ids entries posted.0 h.1) in
      subst
        (λ (r : Result PackageError (Fields N)). IsImported (entry ∷ entries) progress (elim r [
          | err e ↦ (progress, some e)
          | ok next ↦ import_records reading post required table (suc index) entries (
              after_post reading post required table.manifest_name index entry.fields progress
                (post table.manifest_name next progress.surroundings))
        ]))
        (sym remaps)
        (
          rest.0,
          (λ t k v known. rest.1 t k v (posted.0 t k v known)),
          ground (arith, rest.2, posted.1),
          ground (arith, rest.3, posted.2),
          (
            (λ key value is_key found.
                rest.1 table.manifest_name key value (posted.3 key value is_key found)),
            rest.4,
          ),
        )
