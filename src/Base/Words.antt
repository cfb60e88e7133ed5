-- ===== src/Base/Words.antt =====
-- Rust's `usize` on a 64-bit target: the checked and saturating operations, and its parser.
use Prim.Native.Nat.{ℕ, ◌+◌, ◌-◌, ◌*◌, ◌^◌, min}
use mathlib.Core.Option.{Option, none, some}
use mathlib.Core.List.{[], ◌∷◌}
use snow_cli.Base.Tests.{ltb, ◌==◌, if◌then◌else◌}
use snow_cli.Base.Strings.{Text, is_ascii_digit}

abbrev pub usize_limit : ℕ
usize_limit = 2 ^ 64

abbrev pub checked_add : ℕ → ℕ → Option ℕ
checked_add a b = if ltb (a + b) usize_limit then some (a + b) else none

abbrev pub saturating_add : ℕ → ℕ → ℕ
saturating_add a b = min (a + b) (usize_limit - 1)

digits_from : ℕ → Text → Option ℕ
digits_from n [] = some n
digits_from n (c ∷ s) =
    let next = n * 10 + (c - b'0') in
    let rest = digits_from next s in
    if is_ascii_digit c then (if ltb next usize_limit then rest else none) else none

-- `str::parse::<usize>`: an optional plus sign, then at least one digit.
unfoldable pub parse_usize : Text → Option ℕ
unfolding digits_from
parse_usize [] = none
parse_usize (c ∷ []) = digits_from 0 (c ∷ [])
parse_usize (c ∷ d ∷ s) = if c == b'+' then digits_from 0 (d ∷ s) else digits_from 0 (c ∷ d ∷ s)
