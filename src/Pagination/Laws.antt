-- ===== src/Pagination/Laws.antt =====
-- What `next_offset` of client/pagination.rs returns.
use snow_cli.Base.{arith, usize_limit, true, some, ℕ, ◌<◌, ◌+◌, ◌↔◌, ◌≡◌}
use snow_cli.Pagination.{TableListResult, returned, next_offset}

-- A next offset is given exactly if the result is a truncated one, has at least one record, and the
-- offset behind its last record fits a machine word; it is that offset.
pub next_offset_iff :
    {R : Type 0} (result : TableListResult R) (next : ℕ)
    → (next_offset result ≡ some next) ↔ (
        (result.truncated ≡ true)
        × (0 < returned result)
        × (result.offset + returned result < usize_limit)
        × (next ≡ result.offset + returned result))
unfolding next_offset
next_offset_iff result next = ground arith
