-- ===== src/Table/Tests.antt =====
-- Runs of client/table.rs against a server of three rows, and the theorems there.
use snow_cli.Base.{
  drop, take, Option, is_whitespace, trim, arith, String, parse_usize, ok, ap, Result, ℕ, codes,
  Text, List, inr, [], ◌+◌, refl, ◌∷◌, ◌≢◌, false, true, err, none, some, ◌≡◌,
}
use snow_cli.Table.Rounds.{IsWithin}
use snow_cli.Pagination.{TableListResult, PaginationConfig}
use snow_cli.Identifiers.{TableName}
use snow_cli.Table.{
  number, Response, read_response, round, returns, read_total, out_of_fuel, loop, Params, params,
  get_table_records_with_domain,
}
use snow_cli.Table.Fetch.{table_path, fetch-IsFaithful, fetch_total, fetch-IsWithin}
use snow_cli.Table.Complete.{Serves, IsFaithful}

abbrev rows : List ℕ
rows = 11 ∷ 12 ∷ 13 ∷ []

-- The server counts its requests.
server : Text → Params → ℕ → Result String (Response String ℕ) × ℕ
server path ((k, number size) ∷ (l, number offset) ∷ rest) client = (
  ok (record { total_count = some (codes " 3"); body = ok (some (take size (drop offset rows))) }),
  client + 1,
)
server path _ client = (err "bad request", client)

abbrev incident : TableName
incident = record { value = codes "incident" }

abbrev two_by_two : PaginationConfig
two_by_two = record { limit = some 3; offset = 0; page_size = 2 }

abbrev everything : TableListResult ℕ
everything = record {
  records = rows;
  offset = 0;
  total = some 3;
  truncated = false;
  fields_truncated = false;
}

fetch_runs : Unit {0}
unfolding get_table_records_with_domain loop round read_response params read_total parse_usize trim
    is_whitespace server
fetch_runs = tt

fetched :
    get_table_records_with_domain server 4 incident none none two_by_two none false 0
    ≡ (returns (ok everything), 2)
unfolding fetch_runs
fetched = refl

cut :
    (get_table_records_with_domain server 4 incident none none
      (record two_by_two { limit = some 1 })
      none
      false
      0)
    ≡ (
      returns (
          ok (record {
            records = 11 ∷ [];
            offset = 0;
            total = some 3;
            truncated = true;
            fields_truncated = false;
          })),
      1,
    )
unfolding fetch_runs
cut = refl

served :
    (query fields : Option Text)
    → Serves server (table_path incident) query fields false rows (some (codes " 3"))
unfolding params server read_total parse_usize trim is_whitespace
served query fields = record { slice = λ size offset client. refl; honest = inr refl }

fetch-IsWithin_example : IsWithin (some 3) rows
fetch-IsWithin_example =
    fetch-IsWithin server incident none none two_by_two none false 0 4 everything
      (ap (λ r. r.0) fetched)

fetch_total_example :
    (get_table_records_with_domain server 4 incident none none two_by_two none false 0).0
    ≢ out_of_fuel
fetch_total_example =
    fetch_total server incident none none two_by_two none false 0 3 (omega arith)
      (inr (3, refl, omega arith))

fetch-IsFaithful_example :
    (result : TableListResult ℕ) × ((get_table_records_with_domain server 4 incident none none
        two_by_two none false 0).0
      ≡ returns (ok result))
    × IsFaithful two_by_two rows (read_total (some (codes " 3"))) result
fetch-IsFaithful_example =
    fetch-IsFaithful server incident none none two_by_two none false 0 3 rows (some (codes " 3"))
      (served none none) (omega arith) (omega arith) (omega arith) (inr (3, refl, omega arith))
