-- ===== src/ApiError/Scrub.antt =====
-- `scrub_secrets` of client/error.rs. The loop's indices into the bytes are the rest of the text
-- here: every fragment and delimiter is ASCII, so the loop stops at the same characters.
use snow_cli.Base.{
  text_eq, is_empty, to_ascii_lowercase, take, length, is_control, is_ascii_alphanumeric, not, map,
  has_prefix, drop, codes, Option, Bool, ℕ, Text, List, [], if◌then◌else◌, ◌||◌, ◌==◌, ◌++◌, ◌∷◌,
  false, suc, zero, none, some,
}

-- SENSITIVE_KEY_FRAGMENTS
abbrev pub fragments : List Text
fragments =
    codes "password"
    ∷ codes "passwd"
    ∷ codes "secret"
    ∷ codes "token"
    ∷ codes "cookie"
    ∷ codes "authorization"
    ∷ codes "sysparm_ck"
    ∷ codes "g_ck"
    ∷ codes "jsessionid"
    ∷ codes "api_key"
    ∷ codes "apikey"
    ∷ codes "bearer"
    ∷ []

-- The longest head of a text that passes, and what follows it.
unfoldable pub span : (ℕ → Bool) → Text → Text × Text
span p [] = ([], [])
span p (c ∷ s) = let rest = span p s in if p c then (c ∷ rest.0, rest.1) else ([], c ∷ s)

abbrev pub is_word : ℕ → Bool
is_word c = is_ascii_alphanumeric c || c == b'_'

abbrev pub is_quote : ℕ → Bool
is_quote c = c == b'"' || c == b'\'' || c == b' '

abbrev pub is_separator : ℕ → Bool
is_separator c = c == b'=' || c == b':'

abbrev pub ends_value : ℕ → Bool
ends_value c =
    c == b' '
    || c == b'&'
    || c == b','
    || c == b';'
    || c == b'"'
    || c == b'\''
    || c == b'}'
    || c == b')'
    || c == b']'

-- The first fragment at the head of the text, whatever the case of the text.
unfoldable pub fragment_at : List Text → Text → Option Text
fragment_at [] s = none
fragment_at (fragment ∷ rest) s =
    let found = fragment_at rest s in
    if has_prefix fragment (to_ascii_lowercase s) then some fragment else found

-- `b"bearer "` or `b"basic "` at the head: how many characters to skip.
abbrev pub scheme_length : Text → ℕ
scheme_length s =
    if has_prefix (codes "bearer ") (to_ascii_lowercase s)
    then 7
    else if has_prefix (codes "basic ") (to_ascii_lowercase s)
    then 6
    else 0

-- From the end of the separator: what is kept before the value, whether something is redacted, and
-- the rest of the text.
unfoldable pub redact_value : Text → Text × Text
redact_value s =
    let quotes = span is_quote s in
    let skipped = scheme_length quotes.1 in
    let value = span (λ c. not (ends_value c)) (drop skipped quotes.1) in
    (
      (quotes.0 ++ take skipped quotes.1) ++ (if is_empty value.0 then [] else codes "<redacted>"),
      value.1,
    )

-- Whether a separator stands at the head of the text.
abbrev pub separated : Text → Bool
separated [] = false
separated (c ∷ s) = is_separator c

-- One round of the loop at a fragment: what is copied out, and the rest of the text.
unfoldable pub scrub_key : Text → Text → Text × Text
scrub_key fragment s =
    let word = span is_word (drop (length fragment) s) in
    let key = take (length fragment) s ++ word.0 in
    let quotes = span is_quote word.1 in
    if separated quotes.1
    then (let value = redact_value (drop 1 quotes.1) in
        (key ++ (quotes.0 ++ (take 1 quotes.1 ++ value.0)), value.1))
    else if not (text_eq fragment (codes "bearer")) || is_empty quotes.0
    then (key, word.1)
    else (let value = redact_value quotes.1 in (key ++ (quotes.0 ++ value.0), value.1))

-- The loop's body, by the fragment that is found; `next` is the loop.
unfoldable pub scrub_round : (Text → Text) → ℕ → Text → Option Text → Text
scrub_round next c s none = c ∷ next s
scrub_round next c s (some fragment) =
    let round = scrub_key fragment (c ∷ s) in round.0 ++ next round.1

-- The loop; each round takes at least one character off, so the length of the text is enough fuel.
unfoldable pub scrub : ℕ → Text → Text
unfolding scrub_round
scrub zero s = s
scrub (suc fuel) [] = []
scrub (suc fuel) (c ∷ s) = scrub_round (scrub fuel) c s (fragment_at fragments (c ∷ s))

unfoldable pub scrub_secrets : Text → Text
scrub_secrets text =
    let visible = map (λ c. if is_control c then b' ' else c) text in scrub (length visible) visible
