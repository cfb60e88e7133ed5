-- ===== src/ApiError/Redact.antt =====
-- Lemmas on `scrub_secrets` (client/error.rs) at a text with a sensitive key and a value behind it.
use snow_cli.Base.{
  none, sym, ◌∙◌, length-append, map, if◌then◌else◌, is_control, some, codes, ap, drop, arith, take,
  length, All, not, Text, Bool, ℕ, [], ◌≤◌, refl, ◌++◌, ◌∷◌, false, true, suc, zero, ◌≡◌,
}
use snow_cli.ApiError.Scrub.{
  is_word, is_separator, is_quote, scheme_length, ends_value, span, fragments, fragment_at,
  redact_value, scrub_key, scrub, scrub_round, scrub_secrets,
}
use snow_cli.ApiError.Fuel.{fragments_lem, fragment_at-nonempty, scrub-fuel}

-- The text does not begin with a character that passes.
abbrev pub IsCut : (ℕ → Bool) → Text → Type 0
IsCut p [] = Unit
IsCut p (c ∷ s) = p c ≡ false

span-append :
    (p : ℕ → Bool) (s t : Text) → All (λ c. p c ≡ true) s → IsCut p t → span p (s ++ t) ≡ (s, t)
unfolding span
span-append p [] [] h k = refl
span-append p [] (c ∷ t) h k = rw k refl
span-append p (c ∷ s) t h k = rw (h.0, span-append p s t h.1 k) refl

-- Characters of a value, which nothing in the loop ends.
abbrev pub IsValueChar : ℕ → Type 0
IsValueChar c = not (ends_value c) ≡ true

is_quote-ends_value : (c : ℕ) → IsValueChar c → is_quote c ≡ false
is_quote-ends_value c h = ground arith

redact_value-hides :
    (c : ℕ) (value rest : Text)
    → All IsValueChar (c ∷ value)
    → IsCut (λ d. not (ends_value d)) rest
    → scheme_length (c ∷ value ++ rest) ≡ 0
    → redact_value (c ∷ value ++ rest) ≡ (codes "<redacted>", rest)
unfolding redact_value
redact_value-hides c value rest plain cut scheme =
    let unquoted = span-append is_quote [] (c ∷ value ++ rest) tt (is_quote-ends_value c plain.0) in
    let whole = span-append (λ d. not (ends_value d)) (c ∷ value) rest plain cut in
    rw (unquoted, scheme, whole) refl

take-drop_all : (n : ℕ) (s : Text) → take n s ++ drop n s ≡ s
take-drop_all zero s = refl
take-drop_all (suc n) [] = refl
take-drop_all (suc n) (c ∷ s) = ap (λ t. c ∷ t) (take-drop_all n s)

take-append : (n : ℕ) (s t : Text) → n ≤ length s → take n (s ++ t) ≡ take n s
take-append zero s t h = refl
take-append (suc n) [] t h = absurd (omega arith)
take-append (suc n) (c ∷ s) t h = ap (λ u. c ∷ u) (take-append n s t (omega arith))

drop-append : (n : ℕ) (s t : Text) → n ≤ length s → drop n (s ++ t) ≡ drop n s ++ t
drop-append zero s t h = refl
drop-append (suc n) [] t h = absurd (omega arith)
drop-append (suc n) (c ∷ s) t h = drop-append n s t (omega arith)

All-drop : (P : ℕ → Type 0) (n : ℕ) (s : Text) → All P s → All P (drop n s)
All-drop P zero s h = h
All-drop P (suc n) [] h = tt
All-drop P (suc n) (c ∷ s) h = All-drop P n s h.1

separator-cuts : (p : ℕ) → is_separator p ≡ true → (is_word p ≡ false) × (is_quote p ≡ false)
separator-cuts p h = (ground arith, ground arith)

scrub_key-hides :
    (fragment word : Text) (sep c : ℕ) (value rest : Text)
    → length fragment ≤ length word
    → All (λ d. is_word d ≡ true) word
    → is_separator sep ≡ true
    → All IsValueChar (c ∷ value)
    → IsCut (λ d. not (ends_value d)) rest
    → scheme_length (c ∷ value ++ rest) ≡ 0
    → scrub_key fragment (word ++ sep ∷ c ∷ (value ++ rest))
      ≡ (word ++ sep ∷ codes "<redacted>", rest)
unfolding scrub_key
scrub_key-hides fragment word sep c value rest short words separates plain cut scheme =
    let n = length fragment in
    let tail = sep ∷ c ∷ (value ++ rest) in
    let cuts = separator-cuts sep separates in
    rw
      (
        drop-append n word tail short,
        span-append is_word (drop n word) tail (All-drop (λ d. is_word d ≡ true) n word words)
            cuts.0,
        take-append n word tail short,
        take-drop_all n word,
        span-append is_quote [] tail tt cuts.1,
        separates,
        redact_value-hides c value rest plain cut scheme,
      )
      refl

map-visible :
    (s : Text)
    → All (λ d. is_control d ≡ false) s
    → map (λ d. if is_control d then b' ' else d) s ≡ s
map-visible [] h = refl
map-visible (d ∷ s) h = rw (h.0, map-visible s h.1) refl

scrub_secrets_visible :
    (s : Text) → All (λ d. is_control d ≡ false) s → scrub_secrets s ≡ scrub (length s) s
unfolding scrub_secrets
scrub_secrets_visible s h = ap (λ t. scrub (length t) t) (map-visible s h)

All-suffix : (P : ℕ → Type 0) (s t : Text) → All P (s ++ t) → All P t
All-suffix P [] t h = h
All-suffix P (d ∷ s) t h = All-suffix P s t h.1

scrub-hides :
    (fragment : Text) (d : ℕ) (word : Text) (n : ℕ) (tail kept rest : Text)
    → fragment_at fragments (d ∷ (word ++ tail)) ≡ some fragment
    → scrub_key fragment (d ∷ (word ++ tail)) ≡ (kept, rest)
    → length rest ≤ n
    → scrub (suc n) (d ∷ (word ++ tail)) ≡ kept ++ scrub (length rest) rest
unfolding scrub scrub_round
scrub-hides fragment d word n tail kept rest found hidden enough =
    rw (found, hidden) (ap (λ t. kept ++ t) (scrub-fuel n (length rest) rest enough (omega arith)))

-- The same for a text that begins with the word of a key, at which a fragment is found.
scrub_secrets-key :
    (fragment word : Text) (sep c : ℕ) (value rest : Text)
    → fragment_at fragments (word ++ sep ∷ c ∷ (value ++ rest)) ≡ some fragment
    → length fragment ≤ length word
    → All (λ d. is_word d ≡ true) word
    → is_separator sep ≡ true
    → All IsValueChar (c ∷ value)
    → IsCut (λ d. not (ends_value d)) rest
    → scheme_length (c ∷ value ++ rest) ≡ 0
    → All (λ d. is_control d ≡ false) (word ++ sep ∷ c ∷ (value ++ rest))
    → scrub_secrets (word ++ sep ∷ c ∷ (value ++ rest))
      ≡ (word ++ sep ∷ codes "<redacted>") ++ scrub_secrets rest
scrub_secrets-key fragment [] sep c value rest found short words separates plain cut scheme
      visible =
    absurd (
      omega (
        arith,
        fragment_at-nonempty fragments (sep ∷ c ∷ (value ++ rest)) fragment fragments_lem found,
      ))
scrub_secrets-key fragment (d ∷ word) sep c value rest found short words separates plain cut scheme
      visible =
    let tail = sep ∷ c ∷ (value ++ rest) in
    let rest_visible =
      (All-suffix (λ e. is_control e ≡ false) (c ∷ value) rest
        (All-suffix (λ e. is_control e ≡ false) (d ∷ word) tail visible).1) in
    scrub_secrets_visible (d ∷ (word ++ tail)) visible
    ∙ (scrub-hides fragment d word (length (word ++ tail)) tail
          ((d ∷ word) ++ sep ∷ codes "<redacted>") rest found
          (scrub_key-hides fragment (d ∷ word) sep c value rest short words separates plain cut
            scheme)
          (omega (arith, length-append word tail, length-append value rest))
        ∙ ap (λ t. ((d ∷ word) ++ sep ∷ codes "<redacted>") ++ t)
            (sym (scrub_secrets_visible rest rest_visible)))

-- No sensitive fragment begins anywhere in the text, which another follows.
abbrev pub IsBare : Text → Text → Type 0
IsBare [] follows = Unit {0}
IsBare (d ∷ before) follows =
    (fragment_at fragments (d ∷ (before ++ follows)) ≡ none) × IsBare before follows

scrub-IsBare :
    (before follows : Text)
    → IsBare before follows
    → scrub (length (before ++ follows)) (before ++ follows)
      ≡ before ++ scrub (length follows) follows
unfolding scrub scrub_round
scrub-IsBare [] follows bare = refl
scrub-IsBare (d ∷ before) follows bare =
    rw bare.0 (ap (λ t. d ∷ t) (scrub-IsBare before follows bare.1))

-- Of a text with a sensitive key, directly followed by `=` or `:` and by a value up to a delimiter or the
-- end, nothing of the value is left: the text before the key stays, as does the key with its separator,
-- "<redacted>" stands for the value, and the rest is scrubbed as it is. The word in the statement is the
-- key from its first sensitive fragment on, with that whole fragment; what is before it, such as the
-- beginning of `access_token`, is any text in which no sensitive fragment begins. The value has no
-- delimiter, does not begin with the word of an authorization scheme, and no character of the text is a
-- control character.
pub scrub_secrets-hides :
    (before fragment word : Text) (sep c : ℕ) (value rest : Text)
    → IsBare before (word ++ sep ∷ c ∷ (value ++ rest))
    → fragment_at fragments (word ++ sep ∷ c ∷ (value ++ rest)) ≡ some fragment
    → length fragment ≤ length word
    → All (λ d. is_word d ≡ true) word
    → is_separator sep ≡ true
    → All IsValueChar (c ∷ value)
    → IsCut (λ d. not (ends_value d)) rest
    → scheme_length (c ∷ value ++ rest) ≡ 0
    → All (λ d. is_control d ≡ false) (before ++ (word ++ sep ∷ c ∷ (value ++ rest)))
    → scrub_secrets (before ++ (word ++ sep ∷ c ∷ (value ++ rest)))
      ≡ before ++ ((word ++ sep ∷ codes "<redacted>") ++ scrub_secrets rest)
scrub_secrets-hides before fragment word sep c value rest bare found short words separates plain cut
      scheme visible =
    let text = word ++ sep ∷ c ∷ (value ++ rest) in
    let text_visible = All-suffix (λ e. is_control e ≡ false) before text visible in
    scrub_secrets_visible (before ++ text) visible
    ∙ (scrub-IsBare before text bare
        ∙ ap (λ t. before ++ t)
            (sym (scrub_secrets_visible text text_visible)
              ∙ scrub_secrets-key fragment word sep c value rest found short words separates plain
                  cut scheme text_visible))
