-- ===== src/Pagination.antt =====
-- client/pagination.rs: the settings of a paginated fetch and its result.
pub mod Laws
use snow_cli.Base.{ltb, some, length, checked_add, Bool, ℕ, none, Option, List, if◌then◌else◌, ◌≡◌}

pub record TableListResult (R : Type 0) : Type 0 where
  pub records : List R
  pub offset : ℕ
  pub total : Option ℕ
  pub truncated : Bool
  pub fields_truncated : Bool

pub record PaginationConfig : Type 0 where
  pub limit : Option ℕ
  pub offset : ℕ
  pub page_size : ℕ

-- `PaginationConfig::default`
abbrev pub default : PaginationConfig
default = record { limit = none; offset = 0; page_size = 100 }

abbrev pub with_limit : Option ℕ → PaginationConfig → PaginationConfig
with_limit limit config = record config { limit = limit }

abbrev pub with_offset : ℕ → PaginationConfig → PaginationConfig
with_offset offset config = record config { offset = offset }

abbrev pub with_page_size : ℕ → PaginationConfig → PaginationConfig
with_page_size page_size config = record config { page_size = page_size }

-- `Option::filter(|next| *next > offset)`
abbrev after : ℕ → Option ℕ → Option ℕ
after offset none = none
after offset (some next) = if ltb offset next then some next else none

module _ {R : Type 0} where
  unfoldable pub returned : TableListResult R → ℕ
  returned result = length result.records

  unfoldable pub next_offset : TableListResult R → Option ℕ
  unfolding returned
  next_offset result =
      after result.offset
        (if result.truncated then checked_add result.offset (returned result) else none)
