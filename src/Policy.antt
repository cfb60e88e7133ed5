-- ===== src/Policy.antt =====
-- policy.rs: which commands and requests an execution policy permits. The policy is passed as a
-- value; the process-wide copy of its mode (`set_active_policy`) is `store_mode` and `load_mode`.
pub mod Commands
pub mod Decisions
pub mod ReadOnlyCli
pub mod Laws
pub mod Surface
pub mod Permitted
pub mod Exports
mod Tests
use snow_cli.Base.{
  trim, any, to_ascii_lowercase, text_eq, not, ℕ, codes, Text, String, Result, List, Bool,
  if◌then◌else◌, ◌||◌, ◌==◌, ◌++◌, ◌∷◌, false, true, err, ok, ◌≡◌,
}
use snow_cli.Policy.Commands
unfoldable pub use Decisions.*

pub data PolicyMode : Type 0 where
  full_access read_only : PolicyMode

-- `ExecutionPolicy`
pub record ExecutionPolicy : Type 0 where
  pub mode : PolicyMode

pub record PolicyError : Type 0 where
  pub operation : Text
  pub mode : PolicyMode
  pub capability : CommandCapability
  pub reason : String

-- A method is its name, as `http::Method` prints it.
abbrev pub Method : Type 0
Method = Text

abbrev pub method_get : Method
method_get = codes "GET"

module _ {F : Type 0} where
  by_mode : PolicyMode → Commands.Commands F → PolicyDecision
  by_mode full_access command = allow
  by_mode read_only command = read_only_command_decision command

  unfoldable pub decision_for_command : ExecutionPolicy → Commands.Commands F → PolicyDecision
  unfolding by_mode
  decision_for_command policy command = by_mode policy.mode command

  -- The operation in the error is the static name of the command.
  unfoldable pub ensure_command_allowed :
      ExecutionPolicy → Commands.Commands F → Result PolicyError (Unit {0})
  ensure_command_allowed policy command = elim (decision_for_command policy command) [
    | allow ↦ ok tt
    | deny name capability reason ↦ err (record {
      operation = codes name;
      mode = policy.mode;
      capability = capability;
      reason = reason;
    })
  ]

abbrev pub is_full_access : PolicyMode → Bool
is_full_access full_access = true
is_full_access read_only = false

unfoldable pub ensure_request_allowed :
    ExecutionPolicy → Method → (path : Text) → Result PolicyError (Unit {0})
ensure_request_allowed policy method path =
    if is_full_access policy.mode || text_eq method method_get
    then ok tt
    else err (record {
      operation = codes "HTTP " ++ (method ++ b' ' ∷ path);
      mode = policy.mode;
      capability = remote_write;
      reason = "read-only policy permits HTTP GET requests only";
    })

-- `name.trim().to_ascii_lowercase()` is one of the three names.
unfoldable pub is_method_override : Text → Bool
is_method_override name =
    let lower = to_ascii_lowercase (trim name) in
    text_eq lower (codes "x-http-method-override")
    || text_eq lower (codes "x-method-override")
    || text_eq lower (codes "x-http-method")

unfoldable pub ensure_raw_api_headers_allowed :
    ExecutionPolicy → Method → List (Text × Text) → Result PolicyError (Unit {0})
ensure_raw_api_headers_allowed policy method extra_headers =
    if is_full_access policy.mode || not (text_eq method method_get)
    then ok tt
    else if any (λ header. is_method_override header.0) extra_headers
    then err (record {
      operation = codes "api get";
      mode = read_only;
      capability = raw_api_write;
      reason = "read-only policy does not allow method override headers on api get";
    })
    else ok tt

-- `set_active_policy` stores the mode as a byte, and `active_policy` reads it back.
unfoldable pub store_mode : ExecutionPolicy → ℕ
store_mode policy = elim policy.mode [ full_access ↦ 0 | read_only ↦ 1 ]

unfoldable pub load_mode : ℕ → ExecutionPolicy
load_mode byte = if byte == 1 then record { mode = read_only } else record { mode = full_access }
