-- ===== src/ApiError/Tests.antt =====
-- Runs on concrete bodies. The toy parser reads every body as the same envelope.
use snow_cli.Base.{
  arith, ◌++◌, ◌∷◌, contains, is_whitespace, trim_end_by, trim_start, trim, Option, ℕ, codes, Text,
  refl, none, some, ◌≡◌,
}
use snow_cli.ApiError.{
  by_status, refine_code, bound_chars, envelope_of, parse_envelope, oauth_error_name, error_of,
  from_status,
}
use snow_cli.ApiError.Scrub.{
  fragments, span, redact_value, fragment_at, scrub_key, scrub, scrub_secrets,
}
use snow_cli.ApiError.Laws.{IsBounded, from_status-IsBounded}
use snow_cli.Json.{find_member, no_members, get, string, member_then, object, Value}
use snow_cli.ApiError.Redact.{IsBare, scrub_secrets-hides}

abbrev envelope : Value ℕ
envelope = object (
    member_then (codes "error")
      (object (member_then (codes "message") (string (codes " Invalid table x ")) no_members))
      no_members)

abbrev toy_json : Text → Option (Value ℕ)
toy_json body = some envelope

from_status_run : from_status toy_json 400 (codes "https://a.test") (some (codes "{}")) ≡ record {
  code = codes "INVALID_TABLE";
  message = codes "Invalid table x";
  status = 400;
  detail = none;
  instance_url = codes "https://a.test";
}
unfolding from_status error_of oauth_error_name parse_envelope envelope_of get find_member trim
    trim_start trim_end_by is_whitespace scrub_secrets scrub fragment_at bound_chars refine_code
    by_status contains
from_status_run = refl

scrub_secrets_run :
    scrub_secrets (codes "Access_Token = abc, Authorization: Bearer x.y; bearer zz ok")
    ≡ codes "Access_Token = <redacted>, Authorization: Bearer <redacted>; bearer <redacted> ok"
unfolding scrub_secrets scrub scrub_key fragment_at redact_value span
scrub_secrets_run = refl

from_status-IsBounded_example :
    IsBounded (from_status toy_json 400 (codes "https://a.test") none)
    × ((from_status toy_json 400 (codes "https://a.test") none).status ≡ 400)
    × ((from_status toy_json 400 (codes "https://a.test") none).instance_url
        ≡ codes "https://a.test")
from_status-IsBounded_example = from_status-IsBounded toy_json 400 (codes "https://a.test") none

-- "token=abc;x"
token_lem :
    fragment_at fragments (codes "token" ++ b'=' ∷ b'a' ∷ (codes "bc" ++ codes ";x"))
    ≡ some (codes "token")
unfolding fragment_at
token_lem = refl

access_IsBare :
    IsBare (codes "id=5&access_") (codes "token" ++ b'=' ∷ b'a' ∷ (codes "bc" ++ codes ";x"))
unfolding fragment_at
access_IsBare = ground arith

scrub_secrets-hides_example :
    scrub_secrets
      (codes "id=5&access_" ++ (codes "token" ++ b'=' ∷ b'a' ∷ (codes "bc" ++ codes ";x")))
    ≡ codes "id=5&access_"
      ++ ((codes "token" ++ b'=' ∷ codes "<redacted>") ++ scrub_secrets (codes ";x"))
scrub_secrets-hides_example =
    scrub_secrets-hides (codes "id=5&access_") (codes "token") (codes "token") b'=' b'a'
      (codes "bc") (codes ";x") access_IsBare token_lem (ground arith) (ground arith) refl
      (ground arith) refl refl (ground arith)
