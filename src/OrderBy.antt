-- ===== src/OrderBy.antt =====
-- models/order_by.rs: a sort specification, parsed once and rendered as clauses of an encoded query.
pub mod Pieces
pub mod Carets
pub mod Canonical
pub mod RoundTrip
pub mod Query
pub mod Fields
mod Tests
use snow_cli.Base.{
  ℕ, Bool, true, false, not, ◌&&◌, ◌||◌, List, [], ◌∷◌, ◌++◌, map, Option, none, some, Text, codes,
  text_eq, all, is_empty, is_ascii_alphanumeric, to_ascii_lowercase, trim, trim_end_matches,
  strip_prefix, rsplit_once, split_on, join, starts_with, ends_with, contains, Result, ok, err,
  ◌>>=◌, collect, ◌==◌, if◌then◌else◌,
}
use snow_cli.Identifiers.{IdentifierError, from_message}

pub data SortDirection : Type 0 where
  asc desc : SortDirection

pub record SortKey : Type 0 where
  pub field : Text
  pub direction : SortDirection

-- `OrderBy(Vec<SortKey>)`
pub record OrderBy : Type 0 where
  pub keys : List SortKey

abbrev pub orderby : Text
orderby = codes "ORDERBY"

abbrev pub orderbydesc : Text
orderbydesc = codes "ORDERBYDESC"

-- One clause of `to_encoded_query`
abbrev pub clause : SortKey → Text
clause key = elim key.direction [ asc ↦ orderby ++ key.field | desc ↦ orderbydesc ++ key.field ]

unfoldable pub to_encoded_query : OrderBy → Text
to_encoded_query order = join (b'^' ∷ []) (map clause order.keys)

-- `query.map(|q| q.trim().trim_end_matches('^'))`, then the match
unfoldable pub apply_to_query : OrderBy → Option Text → Text
apply_to_query order none = to_encoded_query order
apply_to_query order (some query) =
    let q = trim_end_matches b'^' (trim query) in
    let clauses = to_encoded_query order in
    if not (is_empty q) then q ++ b'^' ∷ clauses else clauses

pub bad_direction : Text → Text → IdentifierError
bad_direction suffix item = from_message (
    codes "Invalid sort direction '"
    ++ suffix
    ++ codes "' in '"
    ++ item
    ++ codes "'. Use 'field:asc' or 'field:desc'.")

pub bad_field : Text → IdentifierError
bad_field item = from_message (
    codes "Invalid sort field '"
    ++ item
    ++ codes "'. Use 'field', '-field' (descending), or 'field:desc'; field names may contain "
    ++ codes "only ASCII letters, digits, '_', and '.'.")

abbrev pub is_field_char : ℕ → Bool
is_field_char c = is_ascii_alphanumeric c || c == b'_' || c == b'.'

-- The condition under which `parse_key` refuses the field.
unfoldable pub is_bad_field : Text → Bool
is_bad_field field =
    is_empty field
    || not (all is_field_char field)
    || starts_with b'.' field
    || ends_with b'.' field
    || contains (codes "..") field

-- The match on the lower-cased suffix behind the last colon.
suffix_direction : Text → Text → Text → Result IdentifierError (Text × SortDirection)
suffix_direction item field suffix =
    let lower = to_ascii_lowercase suffix in
    if text_eq lower (codes "asc")
    then ok (field, asc)
    else if text_eq lower (codes "desc")
    then ok (field, desc)
    else err (bad_direction suffix item)

-- The `if let` chain of `parse_key`.
unfoldable pub field_and_direction : Text → Result IdentifierError (Text × SortDirection)
unfolding suffix_direction
field_and_direction item = elim (strip_prefix orderbydesc item) [
  | some field ↦ ok (field, desc)
  | none ↦ elim (strip_prefix orderby item) [
    | some field ↦ ok (field, asc)
    | none ↦ elim (strip_prefix (b'-' ∷ []) item) [
      | some field ↦ ok (field, desc)
      | none ↦ elim (rsplit_once b':' item) [
        | some (field, suffix) ↦ suffix_direction item field suffix
        | none ↦ ok (item, asc)
      ]
    ]
  ]
]

abbrev pub checked_key : Text → Text × SortDirection → Result IdentifierError SortKey
checked_key item (field, direction) =
    if is_bad_field field
    then err (bad_field item)
    else ok (record { field = field; direction = direction })

unfoldable pub parse_key : Text → Result IdentifierError SortKey
parse_key item = field_and_direction item >>= checked_key item

-- `OrderBy::from_str`
unfoldable pub parse : Text → Result IdentifierError OrderBy
parse value = do
  keys ← collect parse_key (map trim (split_on b',' value))
  ok (record { keys = keys })

-- One key of `Display`: the sign, then the field.
abbrev pub shown : SortKey → Text
shown key = elim key.direction [ asc ↦ key.field | desc ↦ b'-' ∷ key.field ]

-- The loop of `Display`: a comma stands before every key but the first.
unfoldable pub show_from : Bool → List SortKey → Text
show_from first [] = []
show_from first (key ∷ keys) =
    (if first then shown key else b',' ∷ shown key) ++ show_from false keys

unfoldable pub to_string : OrderBy → Text
to_string order = show_from true order.keys
