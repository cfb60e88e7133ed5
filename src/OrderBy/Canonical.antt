-- ===== src/OrderBy/Canonical.antt =====
-- Which keys `parse_key` of models/order_by.rs gives back when it reads what `Display` wrote.
use snow_cli.Base.{
  ℕ, ◌≡◌, ◌≢◌, refl, ap, ◌↔◌, inl, inr, true, false, [], ◌∷◌, none, some, Text, codes, all, length,
  is_whitespace, strip_prefix, ok, Option-cases, ◌==◌, arith,
}
use snow_cli.OrderBy.{
  SortDirection, asc, desc, SortKey, orderby, orderbydesc, is_field_char, is_bad_field,
  field_and_direction, parse_key, shown,
}
use snow_cli.OrderBy.Pieces.{
  Lacks, HasNoSpace, rsplit_once_of_Lacks, length-strip_prefix, strip_prefix_longer,
}

-- A key whose field `parse_key` does not refuse.
abbrev pub IsValid : SortKey → Type 0
IsValid key = is_bad_field key.field ≡ false

-- The spelling of an ascending key must not itself begin like an encoded clause.
abbrev pub IsCanonical : SortKey → Type 0
IsCanonical key = elim key.direction [
  | asc ↦ strip_prefix orderby key.field ≡ none
  | desc ↦ Unit {0}
]

pub field_chars : (field : Text) → is_bad_field field ≡ false → all is_field_char field ≡ true
unfolding is_bad_field
field_chars field h = ground arith

pub field-ne-nil : (field : Text) → is_bad_field field ≡ false → field ≢ []
unfolding is_bad_field
field-ne-nil [] h = cc
field-ne-nil (c ∷ s) h = cc

char_facts :
    (c : ℕ)
    → is_field_char c ≡ true
    → ((c == b',') ≡ false)
      × ((c == b':') ≡ false)
      × ((c == b'-') ≡ false)
      × ((c == b'^') ≡ false)
      × (is_whitespace c ≡ false)
unfolding is_whitespace
char_facts c h = ground arith

pub field-Lacks :
    (field : Text)
    → all is_field_char field ≡ true
    → Lacks b',' field × Lacks b':' field × Lacks b'^' field × HasNoSpace field
field-Lacks [] h = (tt, tt, tt, tt)
field-Lacks (c ∷ s) h = ground (arith, char_facts c, field-Lacks s)

-- A field begins with no dash.
strip_dash : (field : Text) → all is_field_char field ≡ true → strip_prefix (b'-' ∷ []) field ≡ none
unfolding strip_prefix
strip_dash [] h = refl
strip_dash (c ∷ s) h = ground (arith, char_facts c)

-- Read back, a valid descending key is itself.
parse_key-shown_desc :
    (field : Text)
    → is_bad_field field ≡ false
    → parse_key (b'-' ∷ field) ≡ ok (record { field = field; direction = desc })
unfolding parse_key field_and_direction strip_prefix
parse_key-shown_desc field good = rw good refl

-- So is a valid ascending key that does not begin like a clause.
parse_key-shown_asc :
    (field : Text)
    → is_bad_field field ≡ false
    → strip_prefix orderby field ≡ none
    → parse_key field ≡ ok (record { field = field; direction = asc })
unfolding parse_key field_and_direction
parse_key-shown_asc field good plain =
    let chars = field_chars field good in
    let long : strip_prefix orderbydesc field ≡ none =
      strip_prefix_longer orderby (codes "DESC") field plain in
    ground
      (arith, strip_dash field chars, rsplit_once_of_Lacks b':' field (field-Lacks field chars).1)

-- If it does, the field that is read is shorter.
parse_key_clause :
    (item : Text) (key : SortKey) {rest : Text}
    → strip_prefix orderby item ≡ some rest
    → parse_key item ≡ ok key
    → key.field ≢ item
unfolding parse_key field_and_direction
parse_key_clause item key {rest} begins read same =
    elim (Option-cases (strip_prefix orderbydesc item)) [
      | inl missed ↦ ground (arith, length-strip_prefix orderby item rest begins, ap length same)
      | inr (tail, found) ↦
          ground (arith, length-strip_prefix orderbydesc item tail found, ap length same)
    ]

pub parse_key-shown_iff :
    (key : SortKey) → IsValid key → (parse_key (shown key) ≡ ok key) ↔ IsCanonical key
parse_key-shown_iff key good = by_direction key.direction key.field good
  where
    by_direction :
        (direction : SortDirection) (field : Text)
        → is_bad_field field ≡ false
        → (parse_key (shown (record { field = field; direction = direction }))
            ≡ ok (record { field = field; direction = direction }))
          ↔ IsCanonical (record { field = field; direction = direction })
    by_direction desc field valid = (λ h. tt, λ h. parse_key-shown_desc field valid)
    by_direction asc field valid = elim (Option-cases (strip_prefix orderby field)) [
      | inl plain ↦ (λ h. plain, λ h. parse_key-shown_asc field valid h)
      | inr (rest, begins) ↦
          (λ h. absurd (parse_key_clause field _ begins h refl), λ h. absurd (cc (begins, h)))
    ]

-- What `parse_key` accepts is valid.
pub parse_key-IsValid : (item : Text) (key : SortKey) → parse_key item ≡ ok key → IsValid key
unfolding parse_key
parse_key-IsValid item key h = ground arith

-- The spelling of a valid key holds no comma and no white space.
pub shown-Lacks : (key : SortKey) → IsValid key → Lacks b',' (shown key) × HasNoSpace (shown key)
unfolding is_whitespace
shown-Lacks key good = ground (arith, field-Lacks key.field (field_chars key.field good))
