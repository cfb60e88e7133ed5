-- ===== src/Identifiers.antt =====
-- models/identifiers.rs: identifiers that are checked once, when they are built.
pub mod Laws
mod Tests
use snow_cli.Base.{
  ℕ, Bool, true, false, not, ◌&&◌, ◌||◌, [], ◌∷◌, ◌++◌, Text, codes, text_eq, all, any, length,
  is_empty, is_ascii_alphanumeric, is_ascii_hexdigit, is_control, bytes, Result, ok, err, ◌>>=◌,
  ◌>>◌, ◌==◌, if◌then◌else◌,
}

-- `IdentifierError(String)`: the message.
pub record IdentifierError : Type 0 where
  pub message : Text

-- `IdentifierError::from_message`
unfoldable pub from_message : Text → IdentifierError
from_message message = record { message = message }

pub record TableName : Type 0 where
  pub value : Text

pub record SysId : Type 0 where
  pub value : Text

pub record PathSegment : Type 0 where
  pub value : Text

pub record EncodedQueryValue : Type 0 where
  pub value : Text

-- The messages, each with the value that it quotes.
pub empty_table_name : IdentifierError
empty_table_name = from_message (codes "Table name must not be empty.")

pub bad_table_name : Text → IdentifierError
bad_table_name value = from_message (
    codes "Invalid table name '"
    ++ value
    ++ codes "'. Table names may contain only ASCII letters, digits, and underscores.")

pub empty_value : IdentifierError
empty_value = from_message (codes "Value must not be empty.")

pub relative_segment : Text → IdentifierError
relative_segment value = from_message (
    codes "Invalid value '"
    ++ value
    ++ codes "'. Relative path segments ('.' and '..') are not allowed.")

pub bad_path_value : Text → IdentifierError
bad_path_value value = from_message (
    codes "Invalid value '"
    ++ value
    ++ codes "'. Values used in API paths must not contain '/', '"
    ++ 0x5c ∷ codes "', '?', '#', or control characters.")

pub bad_sys_id : Text → IdentifierError
bad_sys_id value = from_message (
    codes "Invalid sys_id '"
    ++ value
    ++ codes "'. A sys_id must be exactly 32 hexadecimal characters.")

pub bad_query_value : Text → IdentifierError
bad_query_value value = from_message (
    codes "Invalid value '"
    ++ value
    ++ codes "'. Values embedded in encoded queries must not contain "
    ++ codes "ServiceNow query operator characters.")

abbrev pub is_table_char : ℕ → Bool
is_table_char c = is_ascii_alphanumeric c || c == b'_'

unfoldable pub table_name : Text → Result IdentifierError TableName
table_name value =
    if is_empty value
    then err empty_table_name
    else if not (all is_table_char value)
    then err (bad_table_name value)
    else ok (record { value = value })

-- 0x5c is the backslash.
abbrev pub is_path_breaker : ℕ → Bool
is_path_breaker c = c == b'/' || c == 0x5c || c == b'?' || c == b'#' || is_control c

unfoldable pub validate_path_segment_chars : Text → Result IdentifierError (Unit {0})
validate_path_segment_chars value =
    if is_empty value
    then err empty_value
    else if text_eq value (codes ".") || text_eq value (codes "..")
    then err (relative_segment value)
    else if any is_path_breaker value
    then err (bad_path_value value)
    else ok tt

-- `value.len()` and `value.bytes()` see the UTF-8 bytes.
unfoldable pub sys_id : Text → Result IdentifierError SysId
sys_id value =
    if not (length (bytes value) == 32) || not (all is_ascii_hexdigit (bytes value))
    then err (bad_sys_id value)
    else ok (record { value = value })

unfoldable pub path_segment : Text → Result IdentifierError PathSegment
unfolding validate_path_segment_chars
path_segment value = do validate_path_segment_chars value; ok (record { value = value })

abbrev pub is_query_operator : ℕ → Bool
is_query_operator c = c == b'^' || c == b'=' || c == b'<' || c == b'>' || c == b'!' || is_control c

unfoldable pub encoded_query_value : Text → Result IdentifierError EncodedQueryValue
encoded_query_value value =
    if is_empty value
    then err empty_value
    else if any is_query_operator value
    then err (bad_query_value value)
    else ok (record { value = value })
