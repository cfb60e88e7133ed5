-- ===== src/Identifiers/Laws.antt =====
-- Which texts the constructors of models/identifiers.rs accept.
use Prim.Native.Nat.{◌≤◌}
use snow_cli.Base.{
  text_eq_iff, ℕ, ◌≡◌, ◌≢◌, refl, ap₂, ◌↔◌, ◌⊎◌, inl, inr, Bool, true, false, ◌&&◌, List, [], ◌∷◌,
  ◌++◌, Text, codes, text_eq, All, all, any, length, is_ascii_hexdigit, encode_char, bytes, ok,
  Bool-cases, arith,
}
use snow_cli.Identifiers.{
  TableName, SysId, PathSegment, is_table_char, table_name, is_path_breaker, sys_id, path_segment,
  is_query_operator, encoded_query_value,
}

-- A hexadecimal digit of ASCII.
abbrev pub IsHex : ℕ → Type 0
IsHex c = ((b'0' ≤ c) × (c ≤ b'9')) ⊎ ((b'A' ≤ c) × (c ≤ b'F')) ⊎ ((b'a' ≤ c) × (c ≤ b'f'))

is_ascii_hexdigit_iff : (c : ℕ) → (is_ascii_hexdigit c ≡ true) ↔ IsHex c
is_ascii_hexdigit_iff c = ground arith

all-append : (p : ℕ → Bool) (xs ys : List ℕ) → all p (xs ++ ys) ≡ (all p xs && all p ys)
all-append p [] ys = refl
all-append p (x ∷ xs) ys = ground (arith, all-append p xs ys)

-- The bytes of a character are all hexadecimal digits only if it is one byte, itself a digit.
encode_char_hex : (c : ℕ) → all is_ascii_hexdigit (encode_char c) ≡ is_ascii_hexdigit c
encode_char_hex c = ground arith

encode_char_ascii : (c : ℕ) → is_ascii_hexdigit c ≡ true → encode_char c ≡ c ∷ []
encode_char_ascii c h = ground arith

bytes_hex : (s : Text) → all is_ascii_hexdigit (bytes s) ≡ all is_ascii_hexdigit s
unfolding bytes
bytes_hex [] = refl
bytes_hex (c ∷ s) = rw all-append (ap₂ (λ a b. a && b) (encode_char_hex c) (bytes_hex s))

bytes_of_hex : (s : Text) → all is_ascii_hexdigit s ≡ true → bytes s ≡ s
unfolding bytes
bytes_of_hex [] h = refl
bytes_of_hex (c ∷ s) h = elim (Bool-cases (is_ascii_hexdigit c)) [
  | inl hex ↦ rw (encode_char_ascii c hex) (cc (bytes_of_hex s (ground arith)))
  | inr other ↦ absurd (ground arith)
]

all-IsHex_iff : (s : Text) → (all is_ascii_hexdigit s ≡ true) ↔ All IsHex s
all-IsHex_iff [] = (λ h. tt, λ h. refl)
all-IsHex_iff (c ∷ s) = ground (arith, is_ascii_hexdigit_iff c, all-IsHex_iff s)

-- A text is accepted as a sys_id, unchanged, exactly if it has 32 characters and each of them is an
-- ASCII hexadecimal digit. The check reads UTF-8 bytes, and no other character slips through.
pub sys_id_iff :
    (value : Text) (id : SysId)
    → (sys_id value ≡ ok id) ↔ ((id.value ≡ value) × (length value ≡ 32) × All IsHex value)
unfolding sys_id
sys_id_iff value id = elim (Bool-cases (all is_ascii_hexdigit value)) [
  | inl hex ↦ rw (bytes_of_hex value hex) (grind (arith, hex, (all-IsHex_iff value).0 hex))
  | inr other ↦ ground (arith, bytes_hex value, all-IsHex_iff value)
]

-- What holds of no character of a text that passes another test.
all-any :
    (p q : ℕ → Bool)
    → ((c : ℕ) → p c ≡ true → q c ≡ false)
    → (s : Text) → all p s ≡ true
    → any q s ≡ false
all-any p q apart [] h = refl
all-any p q apart (c ∷ s) h = ground (arith, apart c, all-any p q apart s)

table_char-path_breaker : (c : ℕ) → is_table_char c ≡ true → is_path_breaker c ≡ false
table_char-path_breaker c h = ground arith

table_char-query_operator : (c : ℕ) → is_table_char c ≡ true → is_query_operator c ≡ false
table_char-query_operator c h = ground arith

hexdigit-table_char : (c : ℕ) → is_ascii_hexdigit c ≡ true → is_table_char c ≡ true
hexdigit-table_char c h = ground arith

all_mono :
    (p q : ℕ → Bool)
    → ((c : ℕ) → p c ≡ true → q c ≡ true)
    → (s : Text) → all p s ≡ true
    → all q s ≡ true
all_mono p q weaker [] h = refl
all_mono p q weaker (c ∷ s) h = ground (arith, weaker c, all_mono p q weaker s)

-- A relative segment holds a dot, which no table name has.
table_chars-not_relative :
    (s : Text)
    → all is_table_char s ≡ true
    → (text_eq s (codes ".") ≡ false) × (text_eq s (codes "..") ≡ false)
table_chars-not_relative [] h = (refl, refl)
table_chars-not_relative (c ∷ s) h = ground arith

table_name-chars :
    (value : Text) (name : TableName)
    → table_name value ≡ ok name
    → (name.value ≡ value) × (all is_table_char value ≡ true) × (value ≢ [])
unfolding table_name
table_name-chars [] name h = absurd (ground arith)
table_name-chars (c ∷ s) name h = ground arith

-- Text of table characters passes the checks for a path segment and for a query value.
chars_embed :
    (value : Text)
    → all is_table_char value ≡ true
    → value ≢ []
    → (path_segment value ≡ ok (record { value = value }))
      × (encoded_query_value value ≡ ok (record { value = value }))
unfolding path_segment encoded_query_value
chars_embed [] h filled = absurd (filled refl)
chars_embed (c ∷ s) h filled = ground (
  arith,
  table_chars-not_relative (c ∷ s) h,
  all-any is_table_char is_path_breaker table_char-path_breaker (c ∷ s) h,
  all-any is_table_char is_query_operator table_char-query_operator (c ∷ s) h,
)

-- An accepted table name is its text unchanged, and that text is also accepted, unchanged, as a path
-- segment and as a value of an encoded query: it can alter neither a path nor a query.
pub table_name-embeds :
    (value : Text) (name : TableName)
    → table_name value ≡ ok name
    → (name.value ≡ value)
      × (path_segment value ≡ ok (record { value = value }))
      × (encoded_query_value value ≡ ok (record { value = value }))
table_name-embeds value name h =
    let (same, chars, filled) = table_name-chars value name h in
    let (segment, query) = chars_embed value chars filled in (same, segment, query)

-- So is the text of an accepted sys_id, and it is a table name as well.
pub sys_id-embeds :
    (value : Text) (id : SysId)
    → sys_id value ≡ ok id
    → (table_name value ≡ ok (record { value = value }))
      × (path_segment value ≡ ok (record { value = value }))
      × (encoded_query_value value ≡ ok (record { value = value }))
unfolding table_name
sys_id-embeds [] id h = absurd (ground (arith, (sys_id_iff [] id).0 h))
sys_id-embeds (c ∷ s) id h =
    let (same, size, hex) = (sys_id_iff (c ∷ s) id).0 h in
    let chars =
      all_mono _ is_table_char hexdigit-table_char (c ∷ s) ((all-IsHex_iff (c ∷ s)).1 hex) in
    let (segment, query) = chars_embed (c ∷ s) chars (λ e. absurd (cc e)) in
    (ground arith, segment, query)

-- Not empty, neither "." nor "..", and no character is a slash, a backslash, a question mark, a hash
-- or a control character.
abbrev pub IsSafeSegment : Text → Type 0
IsSafeSegment s =
    (s ≢ [])
    × (s ≢ codes ".")
    × (s ≢ codes "..")
    × All
        (λ c.
          (c ≢ b'/')
          × (c ≢ 0x5c)
          × (c ≢ b'?')
          × (c ≢ b'#')
          × (0x20 ≤ c)
          × ((c ≤ 0x7e) ⊎ (0xa0 ≤ c)))
        s

any_path_breaker_iff :
    (s : Text)
    → (any is_path_breaker s ≡ false)
      ↔ All
          (λ c.
            (c ≢ b'/')
            × (c ≢ 0x5c)
            × (c ≢ b'?')
            × (c ≢ b'#')
            × (0x20 ≤ c)
            × ((c ≤ 0x7e) ⊎ (0xa0 ≤ c)))
          s
any_path_breaker_iff [] = (λ h. tt, λ h. refl)
any_path_breaker_iff (c ∷ s) = ground (arith, any_path_breaker_iff s)

-- A text is accepted as a path segment, unchanged, exactly if it is not empty, neither "." nor "..",
-- and holds no slash, backslash, question mark, hash or control character.
pub path_segment_iff :
    (value : Text) (segment : PathSegment)
    → (path_segment value ≡ ok segment) ↔ ((segment.value ≡ value) × IsSafeSegment value)
unfolding path_segment
path_segment_iff [] segment = (λ h. cc, λ h. absurd (h.1.0 refl))
path_segment_iff (c ∷ s) segment = ground (
  arith,
  text_eq_iff (c ∷ s) (codes "."),
  text_eq_iff (c ∷ s) (codes ".."),
  any_path_breaker_iff (c ∷ s),
)
