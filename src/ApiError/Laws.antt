-- ===== src/ApiError/Laws.antt =====
-- What is known of every error.
use snow_cli.Base.{
  unwrap_or, and_then, refl, none, text_eq_iff, sym, subst, Bool-cases, text_eq, any, List, All,
  inr, inl, [], ◌∷◌, true, codes, take, length-append, length-take, arith, length, Option, ℕ, Text,
  ◌≤◌, ◌+◌, some, ◌≡◌,
}
use snow_cli.Json.{Value}
use snow_cli.ApiError.{
  safe_error_detail, error_of, parse_envelope, shown_detail, map_detail, bounded, oauth_names,
  from_envelope, oauth_error_name, Envelope, shown, refine_code, ApiError, from_status, bound_chars,
  by_status,
}
use snow_cli.ApiError.Scrub.{scrub_secrets}

pub length-bound_chars : (text : Text) (n : ℕ) → length (bound_chars text n) ≤ n + 15
unfolding bound_chars
length-bound_chars text n =
    ground (arith, length-take n text, length-append (take n text) (codes "... <truncated>"))

-- No text of an error made of a response that passes the bound.
abbrev pub IsBounded : ApiError → Type 0
IsBounded error =
    (length error.code ≤ 20)
    × (length error.message ≤ 515)
    × ((detail : Text) → error.detail ≡ some (shown detail) → length detail ≤ 515)

length-by_status :
    (status : ℕ) → (length (by_status status).0 ≤ 20) × (length (by_status status).1 ≤ 30)
unfolding by_status
length-by_status status = ground arith

length-refine_code :
    (status : ℕ) (message : Text) (detail : Option Text) (code : Text)
    → refine_code status message detail ≡ some code
    → length code ≤ 20
unfolding refine_code
length-refine_code status message detail code h = ground arith

any-text_eq :
    (P : Text → Type 0) (name : Text) (names : List Text)
    → All P names
    → any (text_eq name) names ≡ true
    → P name
any-text_eq P name [] all_names h = absurd (ground arith)
any-text_eq P name (first ∷ names) all_names h = elim (Bool-cases (text_eq name first)) [
  | inl same ↦ subst P (sym ((text_eq_iff name first).0 same)) all_names.0
  | inr other ↦ any-text_eq P name names all_names.1 (ground arith)
]

oauth_names_lem : All (λ name. length name ≤ 25) oauth_names
oauth_names_lem = ground arith

length-bounded : (text : Text) → length (bounded text) ≤ 515
length-bounded text = length-bound_chars (scrub_secrets text) 500

length-unwrap_or :
    (o : Option Text) (other : Text) (n : ℕ)
    → ((text : Text) → o ≡ some text → length text ≤ n)
    → length other ≤ n
    → length (unwrap_or o other) ≤ n
length-unwrap_or none other n given h = h
length-unwrap_or (some text) other n given h = given text refl

length-shown_detail :
    (o : Option Text) (text : Text)
    → shown_detail (map_detail o) ≡ some (shown text)
    → length text ≤ 515
length-shown_detail none text h = absurd (ground arith)
length-shown_detail (some detail) text h = ground (arith, length-bounded detail)

from_envelope-IsBounded :
    (status : ℕ) (instance_url : Text) (envelope : Envelope)
    → IsBounded (from_envelope status instance_url envelope)
from_envelope-IsBounded status instance_url envelope =
    let message = bounded envelope.envelope_message in
    let detail = map_detail envelope.envelope_detail in
    (
      length-unwrap_or (refine_code status message detail) (by_status status).0 20
          (length-refine_code status message detail) (length-by_status status).0,
      length-bounded envelope.envelope_message,
      length-shown_detail envelope.envelope_detail,
    )

error_of-IsBounded :
    (status : ℕ) (instance_url : Text) (body name : Option Text) (envelope : Option Envelope)
    → ((text : Text) → name ≡ some text → length text ≤ 25)
    → IsBounded (error_of status instance_url body name envelope)
      × ((error_of status instance_url body name envelope).status ≡ status)
      × ((error_of status instance_url body name envelope).instance_url ≡ instance_url)
unfolding error_of safe_error_detail
error_of-IsBounded status instance_url body (some name) envelope h =
    let code_bound = (length-by_status status).0 in
    let name_bound = h name refl in
    let prefix = length-append (codes "OAuth2 token request failed: ") name in
    ((code_bound, ground arith, λ text k. absurd (ground arith)), refl, refl)
error_of-IsBounded status instance_url body none (some envelope) h =
    (from_envelope-IsBounded status instance_url envelope, refl, refl)
error_of-IsBounded status instance_url none none none h =
    let bounds = length-by_status status in
    ((bounds.0, ground arith, λ text k. absurd (ground arith)), refl, refl)
error_of-IsBounded status instance_url (some body) none none h =
    let bounds = length-by_status status in
    ((bounds.0, ground arith, λ text k. ground arith), refl, refl)

module _ {N : Type 0} (parse_json : Text → Option (Value N)) where
  length-oauth_error_name :
      (body name : Text) → oauth_error_name parse_json body ≡ some name → length name ≤ 25
  unfolding oauth_error_name
  length-oauth_error_name body name h =
      ground (arith, any-text_eq (λ n. length n ≤ 25) name oauth_names oauth_names_lem)

  -- The code of an error made of a response has at most 20 characters, its message 515, and so has its
  -- detail where that is shown, whatever the body; the status and the instance are the response's.
  pub from_status-IsBounded :
      (status : ℕ) (instance_url : Text) (body : Option Text)
      → IsBounded (from_status parse_json status instance_url body)
        × ((from_status parse_json status instance_url body).status ≡ status)
        × ((from_status parse_json status instance_url body).instance_url ≡ instance_url)
  unfolding from_status
  from_status-IsBounded status instance_url body =
      error_of-IsBounded status instance_url body (and_then body (oauth_error_name parse_json))
        (and_then body (parse_envelope parse_json)) (by_body body)
    where
      by_body :
          (o : Option Text) (name : Text)
          → and_then o (oauth_error_name parse_json) ≡ some name
          → length name ≤ 25
      by_body none name h = absurd (ground arith)
      by_body (some text) name h = length-oauth_error_name text name h
