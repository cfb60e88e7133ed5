-- ===== src/Table/Pages.antt =====
-- A page joined to the rows that the loop of client/table.rs has fetched so far.
use snow_cli.Base.{
  ◌||◌, ◌==◌, sym, leb, ap, true, ltb, length-drop, Bool-cases, take_all, length-take, arith,
  usize_limit, min, length, take, drop, List, ℕ, Option, inr, inl, ◌<◌, ◌≤◌, ◌-◌, ◌+◌, ◌⊎◌, refl,
  ◌++◌, ◌∙◌, false, none, some, ◌≡◌,
}
use snow_cli.Pagination.{PaginationConfig}
use snow_cli.Table.{take_page, again, stop, fail, Round, Progress}

-- What is asked of the rows from the offset on.
abbrev pub wanted : {R : Type 0} → Option ℕ → List R → List R
wanted none rows = rows
wanted (some limit) rows = take limit rows

-- The rows from the offset on.
abbrev pub behind : {R : Type 0} → PaginationConfig → List R → List R
behind config rows = drop config.offset rows

-- So many of the rows behind the offset are fetched.
pub record IsAt {R : Type 0} (config : PaginationConfig) (rows : List R) (header : Option ℕ)
    (fetched : ℕ) (progress : Progress R) : Type 0 where
  pub records : progress.all_records ≡ take fetched (behind config rows)
  pub there : fetched ≤ length (behind config rows)
  pub offset : progress.offset ≡ config.offset + fetched
  pub total : (progress.total ≡ none) ⊎ (progress.total ≡ header)
  pub within : (limit : ℕ) → config.limit ≡ some limit → fetched ≤ limit

abbrev pub IsRight :
    {E R : Type 0} (config : PaginationConfig) (rows : List R) (header : Option ℕ)
    → Round E R
    → Type 0
IsRight config rows header (fail e) = ⊥
IsRight config rows header (stop records total more) =
    (records ≡ wanted config.limit (behind config rows))
    × (total ≡ header)
    × (more ≡ false → records ≡ behind config rows)
IsRight config rows header (again next) = (fetched : ℕ) × IsAt config rows header fetched next

-- A page joined to what is fetched, for an unbounded and for a bounded fetch.
module _ {R : Type 0} (page_size offset : ℕ) (rows : List R) (header : Option ℕ) (fetched size : ℕ)
    (progress : Progress R) (page : List R)
    (joined : progress.all_records ++ page ≡ take (fetched + size) (drop offset rows))
    (counted : length page ≡ min size (length (drop offset rows) - fetched))
    (there : fetched ≤ length (drop offset rows)) (at : progress.offset ≡ offset + fetched)
    (small : offset < usize_limit) (short : length rows < usize_limit) where
  joined_all :
      length (drop offset rows) ≤ fetched + size → progress.all_records ++ page ≡ (drop offset rows)
  joined_all h = joined ∙ take_all (fetched + size) (drop offset rows) h

  length-joined :
      length (progress.all_records ++ page) ≡ min (fetched + size) (length (drop offset rows))
  length-joined = rw joined (length-take (fetched + size) (drop offset rows))

  fits : fetched + size ≤ length (drop offset rows) → progress.offset + size < usize_limit
  fits h = omega (arith, length-drop offset rows)

  next_IsAt :
      (limit : Option ℕ)
      → fetched + size ≤ length (drop offset rows)
      → ((l : ℕ) → limit ≡ some l → fetched + size ≤ l)
      → IsAt
          (record { limit = limit; offset = offset; page_size = page_size })
          rows
          header
          (fetched + size)
          (record {
            all_records = progress.all_records ++ page;
            offset = progress.offset + size;
            total = header;
          })
  next_IsAt limit room keeps = record {
    records = joined;
    there = room;
    offset = omega arith;
    total = inr refl;
    within = keeps;
  }

  pub unbounded :
      (E : Type 0)
      → IsRight
          (record { limit = none; offset = offset; page_size = page_size })
          rows
          header
          (take_page {E = E}
            (record { limit = none; offset = offset; page_size = page_size })
            size
            progress
            header
            page)
  unfolding take_page
  unbounded E = elim (Bool-cases (ltb (length page) size)) [
    | inl few ↦ rw few (joined_all (ground arith), refl, λ _. joined_all (ground arith))
    | inr full ↦
        let room : fetched + size ≤ length (drop offset rows) = ground arith in
        let ok_add : ltb (progress.offset + size) usize_limit ≡ true = ground (arith, fits room) in
        rw full (rw ok_add (fetched + size, next_IsAt none room (λ l e. absurd (cc e))))
  ]

  take_limit :
      (limit : ℕ)
      → fetched + size ≡ limit
      → take limit (progress.all_records ++ page) ≡ take limit (drop offset rows)
  take_limit limit e =
      take_all limit (progress.all_records ++ page) (omega (arith, length-joined))
      ∙ joined
      ∙ ap (λ n. take n (drop offset rows)) e

  module _ (E : Type 0) (limit : ℕ) where
    abbrev config : PaginationConfig
    config = record { limit = some limit; offset = offset; page_size = page_size }

    abbrev ended : Round E R
    ended = take_page config size progress header page

    -- The three ways out of a bounded round.
    at_limit :
        leb limit (length (progress.all_records ++ page)) ≡ true
        → ended
          ≡ stop
              (take limit (progress.all_records ++ page))
              header
              (ltb limit (length (progress.all_records ++ page)) || length page == size)
    unfolding take_page
    at_limit over = ground arith

    at_end :
        leb limit (length (progress.all_records ++ page)) ≡ false
        → ltb (length page) size ≡ true
        → ended ≡ stop (progress.all_records ++ page) header false
    unfolding take_page
    at_end under few = ground arith

    at_more :
        leb limit (length (progress.all_records ++ page)) ≡ false
        → ltb (length page) size ≡ false
        → progress.offset + size < usize_limit
        → ended
          ≡ again (record {
            all_records = progress.all_records ++ page;
            offset = progress.offset + size;
            total = header;
          })
    unfolding take_page
    at_more under full fit = ground arith

    pub bounded :
        size ≡ min page_size (limit - fetched) → fetched ≤ limit → IsRight config rows header ended
    bounded wants below = elim (Bool-cases (leb limit (length (progress.all_records ++ page)))) [
      | inl over ↦
          let all_in : fetched + size ≡ limit = ground (arith, length-joined) in
          rw (at_limit over)
            (take_limit limit all_in, refl, λ e. absurd (ground (arith, length-joined)))
      | inr under ↦ elim (Bool-cases (ltb (length page) size)) [
        | inl few ↦
            let whole = joined_all (ground arith) in
            let enough : length (drop offset rows) ≤ limit = ground (arith, length-joined) in
            rw (at_end under few)
              (whole ∙ sym (take_all limit (drop offset rows) enough), refl, λ _. whole)
        | inr full ↦
            let room : fetched + size ≤ length (drop offset rows) = ground arith in
            rw (at_more under full (fits room))
              (fetched + size, next_IsAt (some limit) room (λ l e. ground (arith, length-joined)))
      ]
    ]
