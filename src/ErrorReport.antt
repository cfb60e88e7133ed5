-- ===== src/ErrorReport.antt =====
-- error.rs: what the program writes about an error and the code it exits with. An `anyhow` error is
-- its text and the typed errors of its chain, in which `downcast_ref` finds the first of a type; a
-- typed error carries its own text where the source calls `to_string` on it.
pub mod Errors
pub mod Bodies
pub mod Laws
pub mod Chains
mod Tests
use snow_cli.Base.{
  any, contains, bytes, take, drop, length, unwrap_or, to_ascii_lowercase, not, leb, is_empty,
  codes, is_ascii_uppercase, is_ascii_digit, text_eq, map, and_then, ltb, between, Option, ℕ, Text,
  List, Bool, [], if◌then◌else◌, ◌||◌, ◌&&◌, ◌==◌, ◌++◌, ◌∷◌, none, some, true, false, ◌≡◌,
}
use snow_cli.ApiError.Scrub.{scrub_secrets}
use snow_cli.Origin.{UrlCrate}
use snow_cli.Policy.{PolicyMode, full_access, read_only, CommandCapability, as_str}
unfoldable pub use Errors.*

abbrev pub withheld : Text
withheld = codes "Diagnostic text withheld because it may contain a query or script"

abbrev pub markers : List Text
markers =
    codes "sysparm_query"
    ∷ codes "sysparm_script"
    ∷ codes "query="
    ∷ codes "query:"
    ∷ codes "script="
    ∷ codes "script:"
    ∷ []

unfoldable pub has_marker : Text → Bool
has_marker message =
    let lower = to_ascii_lowercase message in any (λ marker. contains marker lower) markers

unfoldable pub truncate_diagnostic : Text → Text
truncate_diagnostic clean =
    if is_empty (drop 500 clean) then take 500 clean else take 500 clean ++ codes "... <truncated>"

unfoldable pub safe_message : Text → Text
safe_message message =
    if has_marker message then withheld else truncate_diagnostic (scrub_secrets message)

abbrev pub is_code_byte : ℕ → Bool
is_code_byte b = is_ascii_uppercase b || is_ascii_digit b || b == b'_'

unfoldable pub valid_code : Text → Bool
valid_code code =
    not (is_empty code)
    && leb (length (bytes code)) 64
    && not (any (λ b. not (is_code_byte b)) (bytes code))

abbrev pub checked_code : Text → Text
checked_code code = if valid_code code then code else codes "UNKNOWN_ERROR"

-- `ErrorOutput::new`
abbrev pub new : Text → Text → ErrorClass → RetryAdvice → ErrorBody
new code message class retry = record {
  code = checked_code code;
  message = safe_message message;
  class = class;
  retry = retry;
  status = none;
  detail = none;
  instance_url = none;
  issues = [];
  issue_count = none;
  issues_truncated = none;
}

abbrev pub safe_option : Option Text → Option Text
safe_option none = none
safe_option (some text) = some (safe_message text)

unfoldable pub api_retry : ℕ → RetryAdvice
api_retry status =
    if status == 408
      || status == 429
      || status == 500
      || status == 502
      || status == 503
      || status == 504
    then safe_reads_only
    else if between 400 499 status
    then never
    else unknown_advice

abbrev pub api_exit_code : ℕ → ℕ
api_exit_code status = if status == 404 then 4 else 5

abbrev pub max_validation_issues : ℕ
max_validation_issues = 100

abbrev pub safe_issue : ValidationIssue → ValidationIssue
safe_issue issue = record {
  kind = issue.kind;
  field = safe_option issue.field;
  record_index = issue.record_index;
  issue_message = safe_message issue.issue_message;
}

abbrev pub with_issues : List ValidationIssue → ErrorBody → ErrorBody
with_issues [] body = body
with_issues (issue ∷ issues) body = record body {
  issue_count = some (length (issue ∷ issues));
  issues_truncated = some (ltb max_validation_issues (length (issue ∷ issues)));
  issues = map safe_issue (take max_validation_issues (issue ∷ issues));
}

-- `{:?}` of the mode
abbrev pub debug_mode : PolicyMode → Text
debug_mode full_access = codes "FullAccess"
debug_mode read_only = codes "ReadOnly"

-- What a failed switch takes from the output of its cause.
abbrev pub with_cause : Option (ErrorBody × ℕ) → ErrorBody → ErrorBody
with_cause none body = body
with_cause (some cause) body = record body {
  status = cause.0.status;
  instance_url = cause.0.instance_url;
  detail = some (safe_message (codes "Cause: " ++ cause.0.code ++ codes ": " ++ cause.0.message));
}

abbrev pub switch_body : Text → ErrorBody
switch_body text = new (codes "SESSION_SWITCH_UNCERTAIN") text command_class manual_review

abbrev pub io_body : Text → ErrorBody
io_body kind =
    new (codes "IO_ERROR") (codes "I/O operation failed (" ++ kind ++ codes ")") io_class
      unknown_advice

-- The fallback of `error_output_and_exit_code`.
abbrev pub internal : Text → ErrorBody × ℕ
internal text = (new (codes "INTERNAL_ERROR") text internal_class unknown_advice, 1)

-- What a downcast that succeeds gives, and its place in the order in which they are tried.
pub record Downcast : Type 0 where
  pub place : ℕ
  pub output : ErrorBody × ℕ

-- The first type that is tried and found; of one type, the outermost error.
abbrev pub preferred : ℕ → ErrorBody × ℕ → Option Downcast → Option Downcast
preferred place output none = some (record { place = place; output = output })
preferred place output (some later) =
    if leb place later.place then some (record { place = place; output = output }) else some later

abbrev pub output_of : Option Downcast → Option (ErrorBody × ℕ)
output_of none = none
output_of (some found) = some found.output

module _ {U : Type 0} (crate : UrlCrate U) (ascii_origin : U → Text) where
  -- The instance as it is shown: the origin of an http or https URL.
  unfoldable pub shown_instance : Text → Option Text
  shown_instance text = and_then (crate.parse_url text) (λ url.
      if text_eq (crate.scheme url) (codes "http") || text_eq (crate.scheme url) (codes "https")
      then some (ascii_origin url)
      else none)

  -- `ErrorOutput::api`
  abbrev pub api_body : Text → Text → ℕ → Option Text → Text → ErrorBody
  api_body code message status detail instance_url =
      record (new code message api_class (api_retry status)) {
        status = some status;
        detail = safe_option detail;
        instance_url = shown_instance instance_url;
      }

  -- The downcasts of `known_error_output_and_exit_code`, by the order in which they are tried.
  unfoldable pub downcasts : Sources → Option Downcast
  downcasts untyped = none
  downcasts (typed (validation_error text issues) rest) =
      preferred 0
        (with_issues issues (new (codes "VALIDATION_ERROR") text validation_class never), 2)
        (downcasts rest)
  downcasts (typed (config_error code text) rest) =
      preferred 1 (new code text config_class never, 2) (downcasts rest)
  downcasts (typed (import_set_row_error text) rest) =
      preferred 2 (new (codes "IMPORT_SET_ROW_ERRORS") text command_class manual_review, 1)
        (downcasts rest)
  downcasts (typed (script_execution_error text) rest) =
      preferred 3 (new (codes "SCRIPT_EXECUTION_FAILED") text command_class manual_review, 1)
        (downcasts rest)
  downcasts (typed (policy_error text mode capability) rest) =
      preferred 4
        (
          record (new (codes "POLICY_DENIED") text policy_class never) {
            detail = some (
                codes "mode="
                ++ debug_mode mode
                ++ codes "; capability="
                ++ codes (as_str capability));
          },
          7,
        )
        (downcasts rest)
  downcasts (typed (session_switch text (request_failed (anyhow _ sources))) rest) =
      preferred 5 (with_cause (output_of (downcasts sources)) (switch_body text), 1)
        (downcasts rest)
  downcasts (typed (session_switch text (verification_failed (anyhow _ sources))) rest) =
      preferred 5 (with_cause (output_of (downcasts sources)) (switch_body text), 1)
        (downcasts rest)
  downcasts (typed (session_switch text mismatch) rest) =
      preferred 5 (switch_body text, 1) (downcasts rest)
  downcasts (typed (session_switch text incomplete_context) rest) =
      preferred 5 (switch_body text, 1) (downcasts rest)
  downcasts (typed (api_error code message status detail instance_url) rest) =
      preferred 6 (api_body code message status detail instance_url, api_exit_code status)
        (downcasts rest)
  downcasts (typed (graphql_error code message detail) rest) =
      preferred 7
        (record (new code message api_class manual_review) { detail = safe_option detail }, 5)
        (downcasts rest)
  downcasts (typed (transport_error code text transient) rest) =
      preferred 8
        (new code text transport_class (if transient then safe_reads_only else unknown_advice), 5)
        (downcasts rest)
  downcasts (typed (reqwest_error code text transient) rest) =
      preferred 9
        (new code text transport_class (if transient then safe_reads_only else unknown_advice), 5)
        (downcasts rest)
  downcasts (typed (authentication_error text) rest) =
      preferred 10 (new (codes "AUTH_FAILED") text auth_class never, 3) (downcasts rest)
  downcasts (typed (broker_error code message) rest) =
      preferred 11 (new code message command_class unknown_advice, 1) (downcasts rest)
  downcasts (typed (cli_error (config code message)) rest) =
      preferred 12 (new code message config_class never, 2) (downcasts rest)
  downcasts (typed (cli_error (auth code message status)) rest) =
      preferred 12 (record (new code message auth_class never) { status = status }, 3)
        (downcasts rest)
  downcasts (typed (cli_error (api code message status detail instance_url)) rest) =
      preferred 12 (api_body code message status detail instance_url, api_exit_code status)
        (downcasts rest)
  downcasts (typed (cli_error (io kind)) rest) = preferred 12 (io_body kind, 6) (downcasts rest)
  downcasts (typed (cli_error (other (anyhow text sources))) rest) =
      preferred 12 (unwrap_or (output_of (downcasts sources)) (internal text)) (downcasts rest)
  downcasts (typed toml_error rest) =
      preferred 13
        (
          new (codes "CONFIG_INVALID")
              (codes "Configuration file is invalid; check TOML syntax and required fields.")
              config_class never,
          2,
        )
        (downcasts rest)
  downcasts (typed json_error rest) =
      preferred 14
        (
          new (codes "INVALID_JSON")
              (codes "Invalid JSON; check input syntax and expected structure.") validation_class
              never,
          2,
        )
        (downcasts rest)
  downcasts (typed (io_error kind) rest) = preferred 15 (io_body kind, 6) (downcasts rest)

  unfoldable pub known_error_output_and_exit_code : AnyhowError → Option (ErrorBody × ℕ)
  known_error_output_and_exit_code (anyhow _ sources) = output_of (downcasts sources)

  unfoldable pub error_output_and_exit_code : AnyhowError → ErrorBody × ℕ
  error_output_and_exit_code (anyhow text sources) =
      unwrap_or (known_error_output_and_exit_code (anyhow text sources)) (internal text)

abbrev pub is_authentication : Source → Bool
is_authentication (authentication_error text) = true
is_authentication _ = false

abbrev pub has_authentication : Sources → Bool
has_authentication untyped = false
has_authentication (typed source rest) = is_authentication source || has_authentication rest

abbrev pub auth_failed : Text
auth_failed = codes "Authentication failed; check stored credentials or run snow-cli auth login."

-- `classify_auth_failure` of auth/mod.rs: the context is a typed error over those of the chain.
unfoldable pub classify_auth_failure : AnyhowError → AnyhowError
classify_auth_failure (anyhow text sources) =
    if has_authentication sources
    then anyhow text sources
    else anyhow auth_failed (typed (authentication_error auth_failed) sources)
