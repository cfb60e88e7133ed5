-- ===== src/Table/Bounds.antt =====
-- Lemmas on the end of the loop of client/table.rs and on its limit.
use snow_cli.Base.{
  ◌≢◌, inr, subst, inl, arith, Bool, length, Option, usize_limit, Result, List, ℕ, Text, ◌<◌, ◌≤◌,
  ◌+◌, ◌⊎◌, refl, suc, zero, ok, none, some, ◌≡◌,
}
use snow_cli.Pagination.{TableListResult, PaginationConfig}
use snow_cli.Table.{
  out_of_fuel, Fetched, again, stop, fail, after_round, round, Round, returns, loop, request_size,
  Response, Progress, Params,
}
use snow_cli.Table.Rounds.{round-again, round-stop, IsWithin, HasRoom, Advances}

-- As many rounds may follow as the offset can still move, or as records are still wanted.
abbrev pub IsEnough : PaginationConfig → (offset fetched fuel : ℕ) → Type 0
IsEnough config offset fetched fuel =
    (usize_limit ≤ offset + fuel)
    ⊎ ((limit : ℕ) × (config.limit ≡ some limit) × (limit ≤ fetched + fuel))

request_size_pos :
    {R : Type 0} (config : PaginationConfig) (before next : Progress R)
    → 0 < config.page_size
    → Advances config (request_size config (length before.all_records)) before next
    → 0 < request_size config (length before.all_records)
request_size_pos config before next pages step = by_limit config.limit step
  where
    by_limit :
        (limit : Option ℕ)
        → Advances
            (record config { limit = limit })
            (request_size (record config { limit = limit }) (length before.all_records))
            before
            next
        → 0 < request_size (record config { limit = limit }) (length before.all_records)
    by_limit none s = pages
    by_limit (some limit) s = omega (arith, s.grown, s.room, pages)

HasRoom-limit :
    {R : Type 0} (config : PaginationConfig) (limit : ℕ) (records : List R)
    → config.limit ≡ some limit
    → HasRoom config.limit records
    → length records < limit
HasRoom-limit config limit records e h = by_limit config.limit e h
  where
    by_limit : (o : Option ℕ) → o ≡ some limit → HasRoom o records → length records < limit
    by_limit none e room = absurd (cc e)
    by_limit (some l) e room = ground arith

module _ {S E R : Type 0} (get_with_params : Text → Params → S → Result E (Response E R) × S)
    (path : Text) (query fields : Option Text) (config : PaginationConfig)
    (query_no_domain : Bool) where
  abbrev one : Progress R → S → Round E R × S
  one = round get_with_params path query fields config query_no_domain

  abbrev run : ℕ → Progress R → S → Fetched E (TableListResult R) × S
  run = loop get_with_params path query fields config query_no_domain

  abbrev follow : ℕ → Round E R → S → Fetched E (TableListResult R) × S
  follow fuel = after_round get_with_params path query fields config query_no_domain (run fuel)

  pub loop-IsWithin :
      (fuel : ℕ) (progress : Progress R) (client : S) (result : TableListResult R)
      → (run fuel progress client).0 ≡ returns (ok result)
      → IsWithin config.limit result.records
  unfolding loop
  loop-IsWithin zero progress client result h = cc
  loop-IsWithin (suc fuel) progress client result h =
      by_end (one progress client).0 refl (λ p c. loop-IsWithin fuel p c result) h
    where
      by_end :
          (ended : Round E R)
          → (one progress client).0 ≡ ended
          → ((p : Progress R) (c : S)
              → (run fuel p c).0 ≡ returns (ok result)
              → IsWithin config.limit result.records)
          → (follow fuel ended (one progress client).1).0 ≡ returns (ok result)
          → IsWithin config.limit result.records
      by_end (fail e) r ih g = cc
      by_end (stop records total more) r ih g =
          let same : records ≡ result.records = ground arith in
          subst (λ rs. IsWithin config.limit rs) same
            (round-stop get_with_params path query fields config query_no_domain progress client
              records total more r)
      by_end (again next) r ih g = ih next _ g

  IsEnough-again :
      (fuel : ℕ) (before next : Progress R)
      → 0 < request_size config (length before.all_records)
      → Advances config (request_size config (length before.all_records)) before next
      → IsEnough config before.offset (length before.all_records) fuel
      → (rest : ℕ) × (fuel ≡ suc rest) × IsEnough config next.offset (length next.all_records) rest
  IsEnough-again zero before next pos step (inl h) = absurd (omega (arith, step.moved, step.fits))
  IsEnough-again zero before next pos step (inr (limit, e, h)) =
      absurd (omega (arith, step.grown, HasRoom-limit config limit next.all_records e step.room))
  IsEnough-again (suc rest) before next pos step (inl h) =
      (rest, refl, inl (omega (arith, step.moved)))
  IsEnough-again (suc rest) before next pos step (inr (limit, e, h)) =
      (rest, refl, inr (limit, e, omega (arith, step.grown)))

  -- A round that is not the last leaves fuel for the next.
  more_rounds :
      0 < config.page_size
      → (fuel : ℕ) (progress : Progress R) (client : S)
      → IsEnough config progress.offset (length progress.all_records) fuel
      → ((rest : ℕ)
          → fuel ≡ suc rest
          → (p : Progress R) (c : S) → IsEnough config p.offset (length p.all_records) rest
          → (run fuel p c).0 ≢ out_of_fuel)
      → (ended : Round E R) → (one progress client).0 ≡ ended
      → (follow fuel ended (one progress client).1).0 ≢ out_of_fuel
  unfolding after_round
  more_rounds pages fuel progress client enough ih (fail e) r = cc
  more_rounds pages fuel progress client enough ih (stop records total more) r = cc
  more_rounds pages fuel progress client enough ih (again next) r =
      let step =
        round-again get_with_params path query fields config query_no_domain progress client next
          r in
      let pos = request_size_pos config progress next pages step in
      let (rest, same, left) = IsEnough-again fuel progress next pos step enough in
      ih rest same next _ left

  pub loop_total :
      0 < config.page_size
      → (fuel : ℕ) (progress : Progress R) (client : S)
      → IsEnough config progress.offset (length progress.all_records) fuel
      → (run (suc fuel) progress client).0 ≢ out_of_fuel
  unfolding loop
  loop_total pages zero progress client enough =
      more_rounds pages zero progress client enough (λ rest e. absurd (omega arith))
        (one progress client).0 refl
  loop_total pages (suc fuel) progress client enough =
      more_rounds pages (suc fuel) progress client enough
        (λ rest e p c left.
          loop_total pages fuel p c (let same : fuel ≡ rest = omega arith in rw same left))
        (one progress client).0 refl
