-- ===== src/OrderBy/Fields.antt =====
-- Which fields the parser of models/order_by.rs leaves: the guards of `parse_key` against what they are for.
use snow_cli.Base.{
  ℕ, Bool-cases, inl, inr, ◌≢◌, ◌||◌, is_ascii_alphanumeric, contains, starts_with, ends_with, all,
  true, arith, split_on, cons_head, ok, All, All-weaken, refl, sym, subst, Text, List, false, codes,
  ◌≡◌, ◌==◌, [], ◌∷◌,
}
use snow_cli.OrderBy.{is_field_char, is_bad_field, OrderBy, SortKey, parse}
use snow_cli.OrderBy.Canonical.{IsValid}
use snow_cli.OrderBy.RoundTrip.{parse-IsValid}

-- A name of ASCII letters, digits and underscores.
abbrev pub IsName : Text → Type 0
IsName name = (name ≢ []) × All (λ c. (is_ascii_alphanumeric c || c == b'_') ≡ true) name

-- A field, or a path of fields through references: names joined by dots.
abbrev pub IsPath : SortKey → Type 0
IsPath key = All IsName (split_on b'.' key.field)

cons_head-IsName :
    (c : ℕ) (parts : List Text)
    → (is_ascii_alphanumeric c || c == b'_') ≡ true
    → All IsName parts
    → All IsName (cons_head c parts)
cons_head-IsName c [] h names = (((λ e. absurd (ground arith)), (h, tt)), tt)
cons_head-IsName c (part ∷ parts) h names =
    (((λ e. absurd (ground arith)), (h, names.0.1)), names.1)

split_on-dot :
    (d : ℕ) (s : Text) → (d == b'.') ≡ true → split_on b'.' (d ∷ s) ≡ [] ∷ split_on b'.' s
unfolding split_on
split_on-dot d s h = rw h refl

split_on-plain :
    (c : ℕ) (s : Text) → (c == b'.') ≡ false → split_on b'.' (c ∷ s) ≡ cons_head c (split_on b'.' s)
unfolding split_on
split_on-plain c s h = rw h refl

-- The guards on the dots leave no empty name.
split_on-IsName :
    (c : ℕ) (field : Text)
    → all is_field_char (c ∷ field) ≡ true
    → starts_with b'.' (c ∷ field) ≡ false
    → ends_with b'.' (c ∷ field) ≡ false
    → contains (codes "..") (c ∷ field) ≡ false
    → All IsName (split_on b'.' (c ∷ field))
unfolding contains split_on
split_on-IsName c [] chars starts ends pairs =
    rw (split_on-plain c [] starts) (((λ e. absurd (ground arith)), (ground arith, tt)), tt)
split_on-IsName c (d ∷ []) chars starts ends pairs = rw (split_on-plain c (d ∷ []) starts) (
    cons_head-IsName c (split_on b'.' (d ∷ [])) (ground arith)
      (split_on-IsName d [] (ground arith) (ground arith) (ground arith) (ground arith)))
split_on-IsName c (d ∷ e ∷ field) chars starts ends pairs =
    rw (split_on-plain c (d ∷ e ∷ field) starts) (elim (Bool-cases (d == b'.')) [
      | inl dot ↦
          subst (λ parts. All IsName (cons_head c parts)) (sym (split_on-dot d (e ∷ field) dot))
            (
              ((λ e. absurd (ground arith)), (ground arith, tt)),
              split_on-IsName e field (ground arith) (ground arith) ends (ground arith),
            )
      | inr plain ↦
          cons_head-IsName c (split_on b'.' (d ∷ e ∷ field)) (ground arith)
            (split_on-IsName d (e ∷ field) (ground arith) plain ends (ground arith))
    ])

is_bad_field-IsName : (field : Text) → is_bad_field field ≡ false → All IsName (split_on b'.' field)
unfolding is_bad_field
is_bad_field-IsName [] good = absurd (ground arith)
is_bad_field-IsName (c ∷ field) good =
    split_on-IsName c field (ground arith) (ground arith) (ground arith) (ground arith)

-- A parsed specification has at least one key, and every field of it is a name or several joined by
-- dots, each of ASCII letters, digits and underscores and none of them empty.
pub parse-IsPath :
    (value : Text) (order : OrderBy)
    → parse value ≡ ok order
    → (order.keys ≢ []) × All IsPath order.keys
parse-IsPath value order h =
    let (filled, valid) = parse-IsValid value order h in
    (filled, All-weaken IsValid IsPath (λ key. is_bad_field-IsName key.field) order.keys valid)
