-- ===== src/Table/Fetch.antt =====
-- What `get_table_records_with_domain` and `count_table_records` of client/table.rs give.
use snow_cli.Base.{
  ap, inr, arith, inl, [], refl, false, none, some, length, usize_limit, List, ℕ, Bool, Option,
  Result, codes, Text, ◌<◌, ◌++◌, ◌≢◌, suc, ok, ◌≡◌,
}
use snow_cli.Identifiers.{TableName}
use snow_cli.Table.{
  get_table_records_with_meta, count_table_records, read_total, ordered_query, returns, out_of_fuel,
  Fetched, get_table_records_with_domain, Response, Params,
}
use snow_cli.Pagination.{default, with_page_size, with_limit, TableListResult, PaginationConfig}
use snow_cli.OrderBy.{OrderBy}
use snow_cli.Table.Bounds.{loop-IsWithin, loop_total, IsEnough}
use snow_cli.Table.Complete.{loop-IsFetched, fetched_result, IsFaithful, Serves}
use snow_cli.Table.Rounds.{IsWithin}
use snow_cli.Table.Pages.{IsAt}

abbrev pub table_path : TableName → Text
table_path table = codes "/api/now/table/" ++ table.value

module _ {S E R : Type 0} (get_with_params : Text → Params → S → Result E (Response E R) × S)
    (table : TableName) (query fields : Option Text) (config : PaginationConfig)
    (order_by : Option OrderBy) (query_no_domain : Bool) (client : S) where
  abbrev fetch : ℕ → Fetched E (TableListResult R)
  fetch fuel =
      (get_table_records_with_domain get_with_params fuel table query fields config order_by
        query_no_domain client).0

  -- A successful fetch has at most as many records as its limit, whatever the server answers.
  pub fetch-IsWithin :
      (fuel : ℕ) (result : TableListResult R)
      → fetch fuel ≡ returns (ok result)
      → IsWithin config.limit result.records
  unfolding get_table_records_with_domain
  fetch-IsWithin fuel result h =
      loop-IsWithin get_with_params (table_path table) (ordered_query order_by query) fields config
        query_no_domain fuel _ client result h

  -- With pages of at least one record the loop ends, whatever the server answers: it makes at most
  -- one round more than there are offsets left in a machine word, and, under a limit, at most one
  -- round more than the limit.
  pub fetch_total :
      (fuel : ℕ)
      → 0 < config.page_size
      → IsEnough config config.offset 0 fuel
      → fetch (suc fuel) ≢ out_of_fuel
  unfolding get_table_records_with_domain
  fetch_total fuel pages enough =
      loop_total get_with_params (table_path table) (ordered_query order_by query) fields config
        query_no_domain pages fuel _ client enough

  -- Against a server that holds a list of rows and answers each request with the requested slice,
  -- the fetch succeeds, with pages of at least one record and the fuel above. Its records are the
  -- rows from the offset on, cut at the limit; its total is the header's; if it is not marked as
  -- truncated it is empty or has all the rows from the offset on, and if the header is there and the
  -- result is marked, some of them are missing.
  pub fetch-IsFaithful :
      (fuel : ℕ) (rows : List R) (header : Option Text)
      → Serves get_with_params
          (table_path table)
          (ordered_query order_by query)
          fields
          query_no_domain
          rows
          header
      → config.offset < usize_limit
      → length rows < usize_limit
      → 0 < config.page_size
      → IsEnough config config.offset 0 fuel
      → (result : TableListResult R) × (fetch (suc fuel) ≡ returns (ok result))
        × IsFaithful config rows (read_total header) result
  unfolding get_table_records_with_domain
  fetch-IsFaithful fuel rows header served small short pages enough =
      fetched_result config rows (read_total header) _
        (loop-IsFetched get_with_params (table_path table) (ordered_query order_by query) fields
          config query_no_domain rows header served small short (suc fuel) 0 _ client start)
        (fetch_total fuel pages enough)
    where
      start :
          IsAt config rows
            (read_total header)
            0
            (record { all_records = []; offset = config.offset; total = none })
      start = record {
        records = refl;
        there = omega arith;
        offset = omega arith;
        total = inl refl;
        within = λ limit e. omega arith;
      }

abbrev counting : PaginationConfig
counting = with_limit (some 1) (with_page_size 1 default)

module _ {S E R : Type 0} (get_with_params : Text → Params → S → Result E (Response E R) × S)
    (table : TableName) (query : Option Text) (client : S) where
  -- Counting, against such a server, gives the number that the header says, with fuel for two
  -- rounds: the number of rows, or none.
  pub count_table_records-eq :
      (fuel : ℕ) (rows : List R) (header : Option Text)
      → Serves get_with_params (table_path table) query (some (codes "sys_id")) false rows header
      → length rows < usize_limit
      → (count_table_records get_with_params (suc (suc fuel)) table query client).0
        ≡ returns (ok (read_total header))
  unfolding count_table_records get_table_records_with_meta
  count_table_records-eq fuel rows header served short =
      let (result, fetched, faithful) =
        fetch-IsFaithful get_with_params table query (some (codes "sys_id")) counting none false
          client (suc fuel) rows header served (omega arith) short (omega arith)
          (inr (1, refl, omega arith)) in
      rw fetched (ap (λ total. returns (ok total)) faithful.total)
