-- ===== src/Bridge/Messages.antt =====
-- The messages of snu/protocol.rs, and what a request of snu/bridge.rs waits for. The target of a
-- session is its origin before it is printed.
use snow_cli.Base.{
  is_some, and_then, or_else, text_eq, is_empty, not, codes, Bool, Text, Result, Option,
  if◌then◌else◌, ◌||◌, ◌&&◌, false, true, ok, err, none, some,
}
use snow_cli.Json.{Value, Members, get, find_member, as_str, string, object}
use snow_cli.Origin.{UrlCrate, option_eq}
use snow_cli.Gates.{OriginKey, normalize_origin, same_key}

pub record SnuInstance : Type 0 where
  pub name : Text
  pub url : Text
  pub g_ck : Option Text
  pub scope : Option Text

pub record SnuMessage (N : Type 0) : Type 0 where
  pub action : Option Text
  pub agent_request_id : Option Text
  pub instance_info : Option SnuInstance
  pub success : Option Bool
  pub error : Option (Value N)
  pub extra : Members N

-- `Matcher`
pub data Matcher : Type 0 where
  correlation : (id : Text) → Matcher
  action_named : (action : Text) → Matcher
  next_message : Matcher
  session : (target : Option OriginKey) → Matcher

-- A `/token` with a value.
unfoldable pub has_token : SnuInstance → Bool
has_token info = elim info.g_ck [ none ↦ false | some token ↦ not (is_empty token) ]

abbrev pub checks_action_failure : Matcher → Bool
checks_action_failure (correlation id) = true
checks_action_failure (action_named action) = true
checks_action_failure next_message = false
checks_action_failure (session target) = false

module _ {N : Type 0} where
  unfoldable pub is_response_for : Text → SnuMessage N → Bool
  is_response_for id message = option_eq text_eq message.agent_request_id (some id)

  -- The member of an object; an array or a scalar has none.
  abbrev object_member : Text → Option (Value N) → Option (Value N)
  object_member key value = and_then value (get key)

  unfoldable pub error_code : SnuMessage N → Option Text
  error_code message =
      and_then
        (or_else (object_member (codes "code") message.error)
          (find_member (codes "code") message.extra))
        as_str

  -- `text_of` is `Value::to_string`.
  unfoldable pub error_text : (text_of : Value N → Text) → SnuMessage N → Option Text
  error_text text_of message = elim message.error [
    | some (string text) ↦ some text
    | some (object members) ↦
        or_else
          (and_then
            (or_else (find_member (codes "message") members) (find_member (codes "detail") members))
            as_str)
          (some (text_of (object members)))
    | some other ↦ some (text_of other)
    | none ↦ and_then (find_member (codes "error") message.extra) as_str
  ]

module _ {U : Type 0} (crate : UrlCrate U) where
  unfoldable pub instance_matches_session : SnuInstance → Option OriginKey → Bool
  instance_matches_session info target = if not (has_token info) then false else elim target [
    | none ↦ true
    | some origin ↦ option_eq same_key (normalize_origin crate info.url) (some origin)
  ]

  unfoldable pub matches : {N : Type 0} → Matcher → SnuMessage N → Bool
  matches (correlation id) message = is_response_for id message
  matches (action_named action) message = option_eq text_eq message.action (some action)
  matches next_message message = true
  matches (session target) message = elim message.instance_info [
    | none ↦ false
    | some info ↦ instance_matches_session info target
  ]

-- `BridgeError`, without those that only a negotiation gives.
pub data RequestError : Type 0 where
  not_connected port_conflict encode_failed : RequestError
  disconnected paused gate_state_unavailable timeout_error : RequestError
  action_failed : Text → RequestError

-- `success == Some(false)`
abbrev pub is_failure : Option Bool → Bool
is_failure (some false) = true
is_failure _ = false

-- What the waiter's channel gave: nothing in time, nothing ever, or a result.
pub data Received (N : Type 0) : Type 0 where
  elapsed dropped : Received N
  given : Result RequestError (SnuMessage N) → Received N

module _ {N : Type 0} (text_of : Value N → Text) where
  -- The failure convention of the helper, for matchers that check it.
  unfoldable pub check_failure : Bool → SnuMessage N → Result RequestError (SnuMessage N)
  check_failure checks message =
      if checks && (is_failure message.success || is_some message.error)
      then (if option_eq text_eq (error_code message) (some (codes "E_PAUSED"))
          then err paused
          else elim (error_text text_of message) [
            | none ↦ err (action_failed (codes "unknown error"))
            | some text ↦ err (action_failed text)
          ])
      else ok message

  -- The end of `request_bound`, from the waiter's channel on.
  unfoldable pub finish_request : Matcher → Received N → Result RequestError (SnuMessage N)
  finish_request matcher elapsed = err timeout_error
  finish_request matcher dropped = err disconnected
  finish_request matcher (given (err e)) = err e
  finish_request matcher (given (ok message)) =
      check_failure (checks_action_failure matcher) message
