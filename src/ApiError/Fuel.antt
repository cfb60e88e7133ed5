-- ===== src/ApiError/Fuel.antt =====
-- Lemmas on the fuel of the loop of `scrub_secrets` (client/error.rs).
use snow_cli.Base.{
  ap, ◌++◌, subst, to_ascii_lowercase, not, length-drop, has_prefix, Option, Bool-cases, drop,
  arith, length, Bool, ℕ, Text, List, All, inr, inl, [], ◌≤◌, ◌-◌, refl, ◌∷◌, suc, zero, none, some,
  ◌≡◌,
}
use snow_cli.ApiError.Scrub.{
  scrub_round, ends_value, scheme_length, is_word, is_quote, span, fragments, fragment_at,
  redact_value, scrub_key, scrub,
}

pub length-span : (p : ℕ → Bool) (s : Text) → length (span p s).1 ≤ length s
unfolding span
length-span p [] = omega arith
length-span p (c ∷ s) = ground (arith, length-span p s)

length-redact_value : (s : Text) → length (redact_value s).1 ≤ length s
unfolding redact_value
length-redact_value s =
    let quotes = span is_quote s in
    let cut = drop (scheme_length quotes.1) quotes.1 in
    omega (
      arith,
      length-span is_quote s,
      length-drop (scheme_length quotes.1) quotes.1,
      length-span (λ c. not (ends_value c)) cut,
    )

length-scrub_key :
    (fragment s : Text) → length (scrub_key fragment s).1 ≤ length s - length fragment
unfolding scrub_key
length-scrub_key fragment s =
    let after = drop (length fragment) s in
    let word = span is_word after in
    let quotes = span is_quote word.1 in
    ground (
      arith,
      length-drop (length fragment) s,
      length-span is_word after,
      length-span is_quote word.1,
      length-drop 1 quotes.1,
      length-redact_value (drop 1 quotes.1),
      length-redact_value quotes.1,
    )

pub fragment_at-nonempty :
    (candidates : List Text) (s fragment : Text)
    → All (λ f. 1 ≤ length f) candidates
    → fragment_at candidates s ≡ some fragment
    → 1 ≤ length fragment
unfolding fragment_at
fragment_at-nonempty [] s fragment long h = absurd (ground arith)
fragment_at-nonempty (first ∷ candidates) s fragment long h =
    elim (Bool-cases (has_prefix first (to_ascii_lowercase s))) [
      | inl here ↦
          (let same : first ≡ fragment = ground arith in subst (λ f. 1 ≤ length f) same long.0)
      | inr other ↦ fragment_at-nonempty candidates s fragment long.1 (ground arith)
    ]

pub fragments_lem : All (λ f. 1 ≤ length f) fragments
fragments_lem = ground arith

-- A round goes on with at most as many characters as follow the first.
scrub_round-cong :
    (left right : Text → Text) (c : ℕ) (s : Text) (found : Option Text)
    → ((fragment : Text) → found ≡ some fragment → 1 ≤ length fragment)
    → ((rest : Text) → length rest ≤ length s → left rest ≡ right rest)
    → scrub_round left c s found ≡ scrub_round right c s found
unfolding scrub_round
scrub_round-cong left right c s none long same = ap (λ t. c ∷ t) (same s (omega arith))
scrub_round-cong left right c s (some fragment) long same =
    ap (λ t. (scrub_key fragment (c ∷ s)).0 ++ t)
      (same (scrub_key fragment (c ∷ s)).1
        (omega (arith, length-scrub_key fragment (c ∷ s), long fragment refl)))

-- With as much fuel as the text is long the loop ends by itself: more changes nothing.
pub scrub-fuel : (n m : ℕ) (s : Text) → length s ≤ n → length s ≤ m → scrub n s ≡ scrub m s
unfolding scrub
scrub-fuel zero zero s h k = refl
scrub-fuel zero (suc m) [] h k = refl
scrub-fuel (suc n) zero [] h k = refl
scrub-fuel (suc n) (suc m) [] h k = refl
scrub-fuel zero (suc m) (c ∷ s) h k = absurd (omega arith)
scrub-fuel (suc n) zero (c ∷ s) h k = absurd (omega arith)
scrub-fuel (suc n) (suc m) (c ∷ s) h k =
    scrub_round-cong (scrub n) (scrub m) c s (fragment_at fragments (c ∷ s))
      (λ fragment same. fragment_at-nonempty fragments (c ∷ s) fragment fragments_lem same)
      (λ rest short. scrub-fuel n m rest (omega arith) (omega arith))
