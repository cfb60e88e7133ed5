-- ===== src/Table/Complete.antt =====
-- The loop of client/table.rs against a server that holds a list of rows.
use snow_cli.Base.{
  sym, subst, ◌≢◌, min, Result, take-drop, or_else, drop-drop, Text, ◌-◌, ◌++◌, suc, zero, drop,
  take, ap, length-take, length-drop, take_all, arith, ◌≤◌, ◌+◌, ◌∙◌, Bool, length, usize_limit, ℕ,
  Option, List, inr, inl, [], ◌<◌, ◌⊎◌, refl, ◌∷◌, false, true, err, ok, none, some, ◌≡◌,
}
use snow_cli.Pagination.{TableListResult, PaginationConfig}
use snow_cli.Table.{
  again, stop, fail, after_round, out_of_fuel, read_total, read_response, round, params, loop,
  Round, Response, Params, take_page, request_size, finish, Progress, is_truncated, returns,
  Fetched,
}
use snow_cli.Table.Pages.{bounded, unbounded, IsRight, IsAt, behind, wanted}

-- A result with the rows that were wanted, the total of the header, and a mark of truncation that
-- can be relied on.
pub record IsFaithful {R : Type 0} (config : PaginationConfig) (rows : List R) (header : Option ℕ)
    (result : TableListResult R) : Type 0 where
  pub records : result.records ≡ wanted config.limit (behind config rows)
  pub total : result.total ≡ header
  pub whole :
      result.truncated ≡ false → (result.records ≡ []) ⊎ (result.records ≡ behind config rows)
  pub more :
      header ≡ some (length rows)
      → result.truncated ≡ true
      → length result.records < length (behind config rows)

abbrev pub IsFetched :
    {E R : Type 0} (config : PaginationConfig) (rows : List R) (header : Option ℕ)
    → Fetched E (TableListResult R)
    → Type 0
IsFetched config rows header (returns (ok result)) = IsFaithful config rows header result
IsFetched config rows header (returns (err e)) = ⊥
IsFetched config rows header out_of_fuel = Unit {0}

wanted_all :
    {R : Type 0} (limit : Option ℕ) (rows : List R)
    → length rows ≤ length (wanted limit rows)
    → wanted limit rows ≡ rows
wanted_all none rows h = refl
wanted_all (some limit) rows h = take_all limit rows (omega (arith, length-take limit rows))

module _ {R : Type 0} (config : PaginationConfig) (rows : List R) (header : Option ℕ)
    (small : config.offset < usize_limit) (short : length rows < usize_limit)
    (honest : (header ≡ none) ⊎ (header ≡ some (length rows))) where
  -- Nothing is left out unless the result says so.
  finish_whole :
      (records : List R) (total : Option ℕ) (more : Bool)
      → total ≡ header
      → records ≡ wanted config.limit (behind config rows)
      → (more ≡ false → records ≡ behind config rows)
      → is_truncated config records total more ≡ false
      → (records ≡ []) ⊎ (records ≡ behind config rows)
  finish_whole records none more e same whole h = inr (whole h)
  finish_whole [] (some t) more e same whole h = inl refl
  finish_whole (r ∷ records) (some t) more e same whole h =
      let all_rows : t ≡ length rows = ground arith in
      let reach : length (behind config rows) ≤ length (wanted config.limit (behind config rows)) =
        ground (arith, length-drop config.offset rows, ap length same) in
      inr (same ∙ wanted_all config.limit (behind config rows) reach)

  finish_more :
      (records : List R) (total : Option ℕ) (more : Bool)
      → total ≡ header
      → header ≡ some (length rows)
      → is_truncated config records total more ≡ true
      → length records < length (behind config rows)
  finish_more records none more e known h = absurd (cc (e, known))
  finish_more [] (some t) more e known h = absurd (cc h)
  finish_more (r ∷ records) (some t) more e known h =
      let all_rows : t ≡ length rows = ground arith in
      ground (arith, length-drop config.offset rows)

  finish-IsFaithful :
      (records : List R) (total : Option ℕ) (more : Bool)
      → (records ≡ wanted config.limit (behind config rows))
        × (total ≡ header)
        × (more ≡ false → records ≡ behind config rows)
      → IsFaithful config rows header (finish config records total more)
  finish-IsFaithful records total more (same, e, whole) = record {
    records = same;
    total = e;
    whole = finish_whole records total more e same whole;
    more = finish_more records total more e;
  }

  -- A round with the right page goes right.
  pub take_page-IsRight :
      (E : Type 0) (fetched size : ℕ) (progress : Progress R)
      → IsAt config rows header fetched progress
      → size ≡ request_size config fetched
      → IsRight config rows header (
          take_page {E = E} config size progress header
            (take size (drop (config.offset + fetched) rows)))
  take_page-IsRight E fetched size progress at wants = by_limit config.limit wants at.within
    where
      page : List R
      page = take size (drop (config.offset + fetched) rows)

      joined : progress.all_records ++ page ≡ take (fetched + size) (drop config.offset rows)
      joined = rw at.records (
          rw (← drop-drop config.offset fetched rows)
            (take-drop fetched size (drop config.offset rows)))

      counted : length page ≡ min size (length (drop config.offset rows) - fetched)
      counted = omega (
        arith,
        length-take size (drop (config.offset + fetched) rows),
        length-drop (config.offset + fetched) rows,
        length-drop config.offset rows,
      )

      by_limit :
          (limit : Option ℕ)
          → size ≡ request_size (record config { limit = limit }) fetched
          → ((l : ℕ) → limit ≡ some l → fetched ≤ l)
          → IsRight
              (record config { limit = limit })
              rows
              header
              (take_page {E = E} (record config { limit = limit }) size progress header page)
      by_limit none w within =
          unbounded config.page_size config.offset rows header fetched size progress page joined
            counted at.there at.offset small short E
      by_limit (some limit) w within =
          bounded config.page_size config.offset rows header fetched size progress page joined
            counted at.there at.offset small short E limit w (within limit refl)

  or_else_total :
      (total : Option ℕ) → (total ≡ none) ⊎ (total ≡ header) → or_else total header ≡ header
  or_else_total none h = refl
  or_else_total (some t) (inl e) = absurd (cc e)
  or_else_total (some t) (inr e) = e

  length-fetched :
      (fetched : ℕ) (progress : Progress R)
      → IsAt config rows header fetched progress
      → length progress.all_records ≡ fetched
  length-fetched fetched progress at =
      rw at.records (omega (arith, length-take fetched (behind config rows), at.there))

-- The server answers every request of a fetch with the requested slice of the rows. The header is
-- the same each time; it is absent, unreadable, or says how many rows there are.
pub record Serves {S E R : Type 0}
    (get_with_params : Text → Params → S → Result E (Response E R) × S) (path : Text)
    (query fields : Option Text) (query_no_domain : Bool) (rows : List R) (header : Option Text)
    : Type 0 where
  pub slice :
      (size offset : ℕ) (client : S)
      → (get_with_params path (params query_no_domain query fields size offset) client).0
        ≡ ok (record { total_count = header; body = ok (some (take size (drop offset rows))) })
  pub honest : (read_total header ≡ none) ⊎ (read_total header ≡ some (length rows))

module _ {S E R : Type 0} (get_with_params : Text → Params → S → Result E (Response E R) × S)
    (path : Text) (query fields : Option Text) (config : PaginationConfig) (query_no_domain : Bool)
    (rows : List R) (header : Option Text)
    (served : Serves get_with_params path query fields query_no_domain rows header)
    (small : config.offset < usize_limit) (short : length rows < usize_limit) where
  abbrev one : Progress R → S → Round E R × S
  one = round get_with_params path query fields config query_no_domain

  abbrev run : ℕ → Progress R → S → Fetched E (TableListResult R) × S
  run = loop get_with_params path query fields config query_no_domain

  round-IsRight :
      (fetched : ℕ) (progress : Progress R) (client : S)
      → IsAt config rows (read_total header) fetched progress
      → IsRight config rows (read_total header) (one progress client).0
  unfolding round read_response
  round-IsRight fetched progress client at =
      let size = request_size config (length progress.all_records) in
      let count =
        length-fetched config rows (read_total header) small short served.honest fetched progress
          at in
      rw (served.slice size progress.offset client) (
        rw
          (or_else_total config rows (read_total header) small short served.honest progress.total
            at.total)
          (subst
            (λ o. IsRight config rows (read_total header) (
              take_page {E = E} config size progress (read_total header) (take size (drop o rows))))
            (sym at.offset)
            (take_page-IsRight config rows (read_total header) small short served.honest E fetched
              size progress at (ap (request_size config) count))))

  pub loop-IsFetched :
      (fuel fetched : ℕ) (progress : Progress R) (client : S)
      → IsAt config rows (read_total header) fetched progress
      → IsFetched config rows (read_total header) (run fuel progress client).0
  unfolding loop
  loop-IsFetched zero fetched progress client at = tt
  loop-IsFetched (suc fuel) fetched progress client at =
      by_end (one progress client).0 (round-IsRight fetched progress client at)
        (λ n p c. loop-IsFetched fuel n p c)
    where
      by_end :
          (ended : Round E R)
          → IsRight config rows (read_total header) ended
          → ((n : ℕ) (p : Progress R) (c : S)
              → IsAt config rows (read_total header) n p
              → IsFetched config rows (read_total header) (run fuel p c).0)
          → IsFetched config rows
              (read_total header)
              (after_round get_with_params path query fields config query_no_domain
                (run fuel)
                ended
                (one progress client).1).0
      by_end (fail e) right ih = absurd right
      by_end (stop records total more) right ih =
          finish-IsFaithful config rows (read_total header) small short served.honest records total
            more right
      by_end (again next) right ih = ih right.0 next _ right.1

-- What is fetched is what was asked for, and the fuel is enough.
pub fetched_result :
    {E R : Type 0} (config : PaginationConfig) (rows : List R) (header : Option ℕ)
    (f : Fetched E (TableListResult R))
    → IsFetched config rows header f
    → f ≢ out_of_fuel
    → (result : TableListResult R) × (f ≡ returns (ok result))
      × IsFaithful config rows header result
fetched_result config rows header (returns (ok result)) h enough = (result, refl, h)
fetched_result config rows header (returns (err e)) h enough = absurd h
fetched_result config rows header out_of_fuel h enough = absurd (enough refl)
