-- ===== src/Table/Rounds.antt =====
-- One round of the loop of client/table.rs, whatever the server answers.
use snow_cli.Base.{
  Text, or_else, length-append, Result, usize_limit, ◌+◌, err, ok, length-take, arith, length, Bool,
  List, ℕ, Option, ◌<◌, ◌≤◌, ◌++◌, none, some, ◌≡◌,
}
use snow_cli.Table.{
  request_size, round, Params, read_total, Response, read_response, again, stop, Progress,
  take_page,
}
use snow_cli.Pagination.{PaginationConfig}

abbrev pub IsWithin {ℓ} : {A : Type ℓ} → Option ℕ → List A → Type 0
IsWithin none records = Unit
IsWithin (some limit) records = length records ≤ limit

-- Room is left below the limit.
abbrev pub HasRoom {ℓ} : {A : Type ℓ} → Option ℕ → List A → Type 0
HasRoom none records = Unit
HasRoom (some limit) records = length records < limit

-- What another round starts from: a full page more, and an offset that has moved by its size.
pub record Advances {R : Type 0} (config : PaginationConfig) (size : ℕ) (before after : Progress R)
    : Type 0 where
  pub moved : after.offset ≡ before.offset + size
  pub fits : after.offset < usize_limit
  pub grown : length before.all_records + size ≤ length after.all_records
  pub room : HasRoom config.limit after.all_records

module _ {E R : Type 0} where
  take_page-stop :
      (config : PaginationConfig) (size : ℕ) (progress : Progress R) (total total' : Option ℕ)
      (page records : List R) (more : Bool)
      → take_page {E = E} config size progress total page ≡ stop records total' more
      → IsWithin config.limit records
  unfolding take_page
  take_page-stop config size progress total total' page records more h = by_limit config.limit h
    where
      by_limit :
          (limit : Option ℕ)
          → take_page {E = E} (record config { limit = limit }) size progress total page
            ≡ stop records total' more
          → IsWithin limit records
      by_limit none e = tt
      by_limit (some limit) e = ground (arith, length-take limit (progress.all_records ++ page))

  read_response-stop :
      (config : PaginationConfig) (size : ℕ) (progress : Progress R)
      (answer : Result E (Response E R)) (total : Option ℕ) (records : List R) (more : Bool)
      → read_response config size progress answer ≡ stop records total more
      → IsWithin config.limit records
  unfolding read_response
  read_response-stop config size progress (err e) total records more h = cc
  read_response-stop config size progress (ok response) total records more h =
      by_body response.body h
    where
      by_body :
          (body : Result E (Option (List R)))
          → read_response config size progress
              (ok (record { total_count = response.total_count; body = body }))
            ≡ stop records total more
          → IsWithin config.limit records
      by_body (err e) g = cc
      by_body (ok none) g = cc
      by_body (ok (some page)) g =
          take_page-stop config size progress
            (or_else progress.total (read_total response.total_count)) total page records more g

  take_page-again :
      (config : PaginationConfig) (size : ℕ) (progress : Progress R) (total : Option ℕ)
      (page : List R) (next : Progress R)
      → take_page {E = E} config size progress total page ≡ again next
      → Advances config size progress next
  unfolding take_page
  take_page-again config size progress total page next h = by_limit config.limit h
    where
      by_limit :
          (limit : Option ℕ)
          → take_page {E = E} (record config { limit = limit }) size progress total page
            ≡ again next
          → Advances (record config { limit = limit }) size progress next
      by_limit none e = ground (arith, length-append progress.all_records page)
      by_limit (some limit) e = ground (arith, length-append progress.all_records page)

  read_response-again :
      (config : PaginationConfig) (size : ℕ) (progress : Progress R)
      (answer : Result E (Response E R)) (next : Progress R)
      → read_response config size progress answer ≡ again next
      → Advances config size progress next
  unfolding read_response
  read_response-again config size progress (err e) next h = cc
  read_response-again config size progress (ok response) next h = by_body response.body h
    where
      by_body :
          (body : Result E (Option (List R)))
          → read_response config size progress
              (ok (record { total_count = response.total_count; body = body }))
            ≡ again next
          → Advances config size progress next
      by_body (err e) g = cc
      by_body (ok none) g = cc
      by_body (ok (some page)) g =
          take_page-again config size progress
            (or_else progress.total (read_total response.total_count)) page next g

module _ {S E R : Type 0} (get_with_params : Text → Params → S → Result E (Response E R) × S)
    (path : Text) (query fields : Option Text) (config : PaginationConfig)
    (query_no_domain : Bool) where
  pub round-stop :
      (progress : Progress R) (client : S) (records : List R) (total : Option ℕ) (more : Bool)
      → (round get_with_params path query fields config query_no_domain progress client).0
        ≡ stop records total more
      → IsWithin config.limit records
  unfolding round
  round-stop progress client records total more h =
      read_response-stop config _ progress _ total records more h

  pub round-again :
      (progress : Progress R) (client : S) (next : Progress R)
      → (round get_with_params path query fields config query_no_domain progress client).0
        ≡ again next
      → Advances config (request_size config (length progress.all_records)) progress next
  unfolding round
  round-again progress client next h =
      read_response-again config (request_size config (length progress.all_records)) progress _ next
        h
