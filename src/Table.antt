-- ===== src/Table.antt =====
-- client/table.rs: reading a table page by page. The client's request, `get_with_params`, is a
-- parameter: it takes the client's state and gives the response and the state after it.
pub mod Bounds
pub mod Rounds
pub mod Pages
pub mod Complete
pub mod Fetch
mod Tests
use snow_cli.Base.{
  saturating_add, checked_add, trim, ltb, is_empty, take, parse_usize, or_else, not, min, leb, true,
  suc, zero, err, ok, some, none, length, false, codes, ℕ, Text, Result, Option, List, Bool, [],
  if◌then◌else◌, ◌||◌, ◌&&◌, ◌==◌, ◌-◌, ◌++◌, ◌∷◌, ◌≡◌,
}
use snow_cli.Identifiers.{TableName}
use snow_cli.OrderBy.{OrderBy, apply_to_query}
use snow_cli.Pagination.{PaginationConfig, TableListResult, default, with_limit, with_page_size}

-- The value of a query parameter; a number is sent in decimal.
pub data ParamValue : Type 0 where
  number : ℕ → ParamValue
  text : Text → ParamValue

abbrev pub Params : Type 0
Params = List (Text × ParamValue)

-- A response: the `X-Total-Count` header if it is there and visible ASCII, and the outcome of reading
-- the body and parsing it as a `TableResponse`.
pub record Response (E R : Type 0) : Type 0 where
  pub total_count : Option Text
  pub body : Result E (Option (List R))

pub data FetchError (E : Type 0) : Type 0 where
  transport : E → FetchError E
  invalid_response : FetchError E
  offset_overflow : FetchError E

-- The variables that the loop assigns to.
pub record Progress (R : Type 0) : Type 0 where
  pub all_records : List R
  pub offset : ℕ
  pub total : Option ℕ

-- How a round ends: in an error, by `break`, or with another round to follow.
pub data Round (E R : Type 0) : Type 0 where
  fail : FetchError E → Round E R
  stop : List R → Option ℕ → (maybe_more : Bool) → Round E R
  again : Progress R → Round E R

-- What the loop gives within its fuel.
pub data Fetched (E A : Type 0) : Type 0 where
  returns : Result (FetchError E) A → Fetched E A
  out_of_fuel : Fetched E A

-- `Ok(fetched?.field)`
abbrev pub select : {E A B : Type 0} → (A → B) → Fetched E A → Fetched E B
select f (returns (ok a)) = returns (ok (f a))
select f (returns (err e)) = returns (err e)
select f out_of_fuel = out_of_fuel

abbrev pub request_size : PaginationConfig → ℕ → ℕ
request_size config fetched = elim config.limit [
  | some limit ↦ min config.page_size (limit - fetched)
  | none ↦ config.page_size
]

abbrev optional : Text → Option Text → Params
optional name none = []
optional name (some value) = (name, text value) ∷ []

unfoldable pub params : Bool → Option Text → Option Text → ℕ → ℕ → Params
params query_no_domain query fields size offset =
    (codes "sysparm_limit", number size)
    ∷ (codes "sysparm_offset", number offset)
    ∷ ((if query_no_domain then (codes "sysparm_query_no_domain", text (codes "true")) ∷ [] else [])
        ++ (optional (codes "sysparm_query") query ++ optional (codes "sysparm_fields") fields))

-- `v.trim().parse().ok()` on the header
unfoldable pub read_total : Option Text → Option ℕ
read_total none = none
read_total (some header) = parse_usize (trim header)

-- The reached limit, if `all_records.len() >= lim`.
abbrev pub reached : Option ℕ → ℕ → Option ℕ
reached none fetched = none
reached (some limit) fetched = if leb limit fetched then some limit else none

module _ {E R : Type 0} where
  -- The loop's body behind the parsed page.
  unfoldable pub take_page : PaginationConfig → ℕ → Progress R → Option ℕ → List R → Round E R
  take_page config size progress total page =
      let records = progress.all_records ++ page in
      let count = length page in
      elim (reached config.limit (length records)) [
        | some limit ↦ stop (take limit records) total (ltb limit (length records) || count == size)
        | none ↦
            if ltb count size
            then stop records total false
            else elim (checked_add progress.offset size) [
              | none ↦ fail offset_overflow
              | some offset ↦
                  again (record { all_records = records; offset = offset; total = total })
            ]
      ]

  -- `total` is read from the first response that has it.
  unfoldable pub read_response :
      PaginationConfig → ℕ → Progress R → Result E (Response E R) → Round E R
  unfolding take_page
  read_response config size progress (err e) = fail (transport e)
  read_response config size progress (ok response) = elim response.body [
    | err e ↦ fail (transport e)
    | ok body ↦ elim body [
      | none ↦ fail invalid_response
      | some page ↦
          take_page config size progress (or_else progress.total (read_total response.total_count))
            page
    ]
  ]

module _ {R : Type 0} where
  abbrev pub is_truncated : PaginationConfig → List R → Option ℕ → Bool → Bool
  is_truncated config records total maybe_more = elim total [
    | some t ↦ not (is_empty records) && ltb (saturating_add config.offset (length records)) t
    | none ↦ maybe_more
  ]

  abbrev pub finish : PaginationConfig → List R → Option ℕ → Bool → TableListResult R
  finish config records total maybe_more = record {
    records = records;
    offset = config.offset;
    total = total;
    truncated = is_truncated config records total maybe_more;
    fields_truncated = false;
  }

-- `ordered_query.as_deref().or(query)`
abbrev pub ordered_query : Option OrderBy → Option Text → Option Text
ordered_query none query = query
ordered_query (some order) query = some (apply_to_query order query)

module _ {S E R : Type 0} (get_with_params : Text → Params → S → Result E (Response E R) × S) where
  module _ (path : Text) (query fields : Option Text) (config : PaginationConfig)
      (query_no_domain : Bool) where
    -- One pass through the loop's body.
    unfoldable pub round : Progress R → S → Round E R × S
    round progress client =
        let size = request_size config (length progress.all_records) in
        let (response, client') =
          get_with_params path (params query_no_domain query fields size progress.offset) client in
        (read_response config size progress response, client')

    -- What follows a round: the error, the result, or the loop again.
    unfoldable pub after_round :
        (Progress R → S → Fetched E (TableListResult R) × S)
        → Round E R
        → S
        → Fetched E (TableListResult R) × S
    after_round next (fail e) client = (returns (err e), client)
    after_round next (stop records total maybe_more) client =
        (returns (ok (finish config records total maybe_more)), client)
    after_round next (again progress) client = next progress client

    unfoldable pub loop : ℕ → Progress R → S → Fetched E (TableListResult R) × S
    unfolding after_round
    loop zero progress client = (out_of_fuel, client)
    loop (suc fuel) progress client =
        let (ended, client') = round progress client in after_round (loop fuel) ended client'

  unfoldable pub get_table_records_with_domain :
      ℕ
      → TableName
      → Option Text
      → Option Text
      → PaginationConfig
      → Option OrderBy
      → Bool
      → S
      → Fetched E (TableListResult R) × S
  get_table_records_with_domain fuel table query fields config order_by query_no_domain client =
      loop (codes "/api/now/table/" ++ table.value) (ordered_query order_by query) fields config
        query_no_domain fuel (record { all_records = []; offset = config.offset; total = none })
        client

  unfoldable pub get_table_records_with_meta :
      ℕ
      → TableName
      → Option Text
      → Option Text
      → PaginationConfig
      → Option OrderBy
      → S
      → Fetched E (TableListResult R) × S
  get_table_records_with_meta fuel table query fields config order_by client =
      get_table_records_with_domain fuel table query fields config order_by false client

  -- One request for one record, for its header.
  unfoldable pub count_table_records : ℕ → TableName → Option Text → S → Fetched E (Option ℕ) × S
  count_table_records fuel table query client =
      let config = with_limit (some 1) (with_page_size 1 default) in
      let (fetched, client') =
        get_table_records_with_meta fuel table query (some (codes "sys_id")) config none client in
      (select (λ r. r.total) fetched, client')
