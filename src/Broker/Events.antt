-- ===== src/Broker/Events.antt =====
-- What happens when snu/broker.rs sends an action, and what its surroundings answer.
use snow_cli.Base.{Bool, ℕ, Text, List, Option, Result, false, true, none, some}
use snow_cli.Json.{Value}
use snow_cli.Gates.{OriginKey, GateName, HelperSecurityGateSupport, legacy_unrestricted}
use snow_cli.Gates.Preflight.{
  BridgeError, PreflightResult, GateDecision, blocked, legacy_unrestricted_decision,
}
use snow_cli.ApiError.{Detail}
use snow_cli.Bridge.Messages.{
  SnuInstance, SnuMessage, Matcher, correlation, action_named, RequestError,
}
use snow_cli.Broker.Sessions.{BrokerOp}

-- The errors of a dispatch.
pub data Failure : Type 0 where
  bridge : RequestError → Failure
  preflight_failed : BridgeError RequestError → Failure
  gate_blocked approval_timeout : Option GateName → Option OriginKey → Failure
  denied : Detail → Failure
  unverified : Failure → Failure
  protocol_changed no_session : Failure

pub data Event (N : Type 0) : Type 0 where
  preflighted : Value N → Result Failure PreflightResult → Event N
  requested : Value N → Matcher → Option ℕ → Option HelperSecurityGateSupport → Event N
  probed : SnuInstance → Result Failure Bool → Event N
  changed : BrokerOp → Event N
  prompted slept stored : Event N
  awaited : Option OriginKey → Event N

abbrev pub Out : Type 0 → Type 0 → Type 0
Out N A = List (Event N) × Result Failure A

-- The answers: to the first preflight and request, to the preflight and request of a retry, to the
-- probe, and to the wait for a `/token`, by what is awaited; the session in the cache, and the clock.
pub record Environment (N : Type 0) : Type 0 where
  pub preflight_reply : Result (BridgeError RequestError) PreflightResult
  pub first_reply : Result RequestError (SnuMessage N)
  pub again_reply : Result (BridgeError RequestError) PreflightResult
  pub second_reply : Result RequestError (SnuMessage N)
  pub probe_reply : Result RequestError (SnuMessage N)
  pub token_reply : Option OriginKey → Result RequestError SnuInstance
  pub cached : OriginKey → Option SnuInstance
  pub now : ℕ

-- The standard library's lower case, and the codec of `SnuInstance`.
pub record Codec (N : Type 0) : Type 0 where
  pub to_lowercase : Text → Text
  pub read_instance : Value N → Option SnuInstance
  pub write_instance : SnuInstance → Value N

-- The way in which an action is sent: `send_action_with_refresh` for a current helper, and
-- `send_legacy_action_with_refresh` for a legacy one, which do the same otherwise.
pub record Route : Type 0 where
  pub awaits : Matcher
  pub requires : Option HelperSecurityGateSupport

abbrev pub current_route : Text → Route
current_route id = record { awaits = correlation id; requires = none }

abbrev pub legacy_route : Text → Route
legacy_route action = record { awaits = action_named action; requires = some legacy_unrestricted }

abbrev pub is_legacy : GateDecision → Bool
is_legacy legacy_unrestricted_decision = true
is_legacy _ = false

abbrev pub is_blocked : GateDecision → Bool
is_blocked blocked = true
is_blocked _ = false

-- A legacy action is sent again only to a legacy helper.
abbrev pub may_repeat : Option HelperSecurityGateSupport → PreflightResult → Bool
may_repeat none preflight = true
may_repeat (some support) preflight = is_legacy preflight.decision

-- The requests of the broker that carry an action.
pub data ActionRequest (N : Type 0) : Type 0 where
  send_action : (payload : Value N) (correlation_id : Text) → ActionRequest N
  send_action_for_action : (payload : Value N) (expected_action : Text) → ActionRequest N
  send_action_with_legacy_fallback :
      (current_payload : Value N) (correlation_id : Text) (legacy_payload : Value N)
      (legacy_expected_action : Text)
      → ActionRequest N
