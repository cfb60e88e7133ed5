-- ===== src/ApiError.antt =====
-- client/error.rs: the error made of a response that does not report success. The JSON parser is a
-- parameter.
pub mod Scrub
pub mod Fuel
pub mod Redact
pub mod Laws
mod Tests
use snow_cli.Base.{
  any, contains, bytes, text_eq, take, length, has_prefix, unwrap_or, trim, to_ascii_lowercase, not,
  leb, drop, and_then, is_empty, codes, Option, ℕ, Text, List, [], if◌then◌else◌, ◌||◌, ◌&&◌, ◌==◌,
  ◌++◌, ◌∷◌, none, some, ◌≡◌,
}
use snow_cli.Json.{Value, get, as_str}
use snow_cli.ApiError.Scrub.{scrub_secrets}

-- The detail of an error: text from the envelope, or what stands for a body that is withheld, which
-- is printed as "<response body redacted, N bytes>".
pub data Detail : Type 0 where
  shown : Text → Detail
  redacted : (bytes : ℕ) → Detail

pub record ApiError : Type 0 where
  pub code : Text
  pub message : Text
  pub status : ℕ
  pub detail : Option Detail
  pub instance_url : Text

abbrev pub max_envelope_chars : ℕ
max_envelope_chars = 500

-- The code and the message of a status.
unfoldable pub by_status : ℕ → Text × Text
by_status status =
    if status == 400
    then (codes "BAD_REQUEST", codes "Invalid request parameters")
    else if status == 401
    then (codes "UNAUTHORIZED", codes "Authentication failed")
    else if status == 403
    then (codes "FORBIDDEN", codes "Insufficient permissions")
    else if status == 404
    then (codes "NOT_FOUND", codes "Resource not found")
    else if status == 429
    then (codes "RATE_LIMITED", codes "Too many requests")
    else if leb 500 status
    then (codes "SERVER_ERROR", codes "ServiceNow internal error")
    else (codes "UNKNOWN_ERROR", codes "Unexpected error")

abbrev pub oauth_names : List Text
oauth_names =
    codes "invalid_request"
    ∷ codes "invalid_client"
    ∷ codes "invalid_grant"
    ∷ codes "unauthorized_client"
    ∷ codes "unsupported_grant_type"
    ∷ codes "invalid_scope"
    ∷ codes "access_denied"
    ∷ codes "unsupported_response_type"
    ∷ codes "server_error"
    ∷ codes "temporarily_unavailable"
    ∷ []

-- `bound_chars`
unfoldable pub bound_chars : Text → ℕ → Text
bound_chars text max_chars =
    if is_empty (drop max_chars text)
    then take max_chars text
    else take max_chars text ++ codes "... <truncated>"

unfoldable pub safe_error_detail : Text → Detail
safe_error_detail body = if is_empty (trim body) then shown [] else redacted (length (bytes body))

-- `refine_code`
unfoldable pub refine_code : ℕ → Text → Option Text → Option Text
refine_code status message detail =
    let lower = to_ascii_lowercase message in
    let detail_lower = to_ascii_lowercase (unwrap_or detail []) in
    if has_prefix (codes "invalid table") lower
    then some (codes "INVALID_TABLE")
    else if status == 404 && contains (codes "no record found") lower
    then some (codes "RECORD_NOT_FOUND")
    else if status == 403 && (contains (codes "acl") lower || contains (codes "acl") detail_lower)
    then some (codes "ACL_DENIED")
    else none

-- `ServiceNowErrorEnvelope`
pub record Envelope : Type 0 where
  pub envelope_message : Text
  pub envelope_detail : Option Text

-- `.map(str::trim).filter(|detail| !detail.is_empty() && *detail != message)`
abbrev pub kept_detail : Text → Option Text → Option Text
kept_detail message none = none
kept_detail message (some detail) =
    if not (is_empty (trim detail)) && not (text_eq (trim detail) message)
    then some (trim detail)
    else none

abbrev pub bounded : Text → Text
bounded text = bound_chars (scrub_secrets text) max_envelope_chars

abbrev pub map_detail : Option Text → Option Text
map_detail none = none
map_detail (some detail) = some (bounded detail)

abbrev pub shown_detail : Option Text → Option Detail
shown_detail none = none
shown_detail (some detail) = some (shown detail)

abbrev pub from_envelope : ℕ → Text → Envelope → ApiError
from_envelope status instance_url envelope =
    let message = bounded envelope.envelope_message in
    let detail = map_detail envelope.envelope_detail in
    record {
      code = unwrap_or (refine_code status message detail) (by_status status).0;
      message = message;
      status = status;
      detail = shown_detail detail;
      instance_url = instance_url;
    }

-- The envelope of an `error` object.
unfoldable pub envelope_of : {N : Type 0} → Value N → Option Envelope
envelope_of error = and_then (and_then (get (codes "message") error) as_str) (λ message.
    if is_empty (trim message)
    then none
    else some (record {
      envelope_message = trim message;
      envelope_detail = kept_detail (trim message) (and_then (get (codes "detail") error) as_str);
    }))

-- The error, by what the body holds: the name of an OAuth error, an envelope, or neither.
unfoldable pub error_of : ℕ → Text → Option Text → Option Text → Option Envelope → ApiError
error_of status instance_url body (some name) envelope = record {
  code = (by_status status).0;
  message = codes "OAuth2 token request failed: " ++ name;
  status = status;
  detail = none;
  instance_url = instance_url;
}
error_of status instance_url body none (some envelope) = from_envelope status instance_url envelope
error_of status instance_url body none none = record {
  code = (by_status status).0;
  message = (by_status status).1;
  status = status;
  detail = elim body [ none ↦ none | some text ↦ some (safe_error_detail text) ];
  instance_url = instance_url;
}

module _ {N : Type 0} (parse_json : Text → Option (Value N)) where
  unfoldable pub oauth_error_name : Text → Option Text
  oauth_error_name body =
      and_then (and_then (and_then (parse_json body) (get (codes "error"))) as_str)
        (λ name. if any (text_eq name) oauth_names then some name else none)

  unfoldable pub parse_envelope : Text → Option Envelope
  parse_envelope body = and_then (and_then (parse_json body) (get (codes "error"))) envelope_of

  -- `ApiError::from_status`
  unfoldable pub from_status : ℕ → Text → Option Text → ApiError
  from_status status instance_url body =
      error_of status instance_url body (and_then body oauth_error_name)
        (and_then body parse_envelope)
