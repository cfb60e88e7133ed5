-- ===== src/Broker/Control.antt =====
-- `dispatch` of snu/broker.rs for the requests on sessions: what is done from the state at the moment
-- where it looks, and what the helper and the user answer.
use snow_cli.Base.{
  ℕ, Result, Option, List, Bool, [], if◌then◌else◌, ◌∷◌, false, true, err, ok, none, some,
}
use snow_cli.Broker.Events.{
  Failure, bridge, no_session, Event, changed, prompted, awaited, stored, probed, Out, Codec,
}
use snow_cli.Bridge.Messages.{SnuMessage, RequestError, SnuInstance}
use snow_cli.Origin.{UrlCrate}
use snow_cli.Broker.Sessions.{
  eviction, session_for_origin, clear_origin, stops, remembers, latest_session, clear_all,
  BrokerState, BrokerOp,
}
use snow_cli.Gates.{normalize_origin, OriginKey}
use snow_cli.Broker.Dispatch.{verified_at, probe_session}

pub data Control : Type 0 where
  ping stop : Control
  wait_session : (is_fresh : Bool) (target : Option OriginKey) → Control
  refreshes clear_sessions verify_session : (target : Option OriginKey) → Control

pub data Answer : Type 0 where
  acknowledged : Answer
  with_instance : SnuInstance → Answer
  with_cleared : List OriginKey → Answer
  with_token_valid : Bool → Answer

-- The answers to the wait for a `/token`, by what is awaited, and to the probe, and the clock.
pub record Replies (N : Type 0) : Type 0 where
  pub token : Option OriginKey → Result RequestError SnuInstance
  pub probe : Result RequestError (SnuMessage N)
  pub at : ℕ

abbrev pub session_of : Option OriginKey → BrokerState → Option SnuInstance
session_of none state = latest_session state
session_of (some origin) state = session_for_origin origin state

abbrev pub cached_session : Bool → Option OriginKey → BrokerState → Option SnuInstance
cached_session true target state = none
cached_session false target state = session_of target state

abbrev pub cleared_by : Option OriginKey → BrokerState → List OriginKey
cleared_by none state = (clear_all state).0
cleared_by (some origin) state = if (clear_origin origin state).0 then origin ∷ [] else []

module _ {N U : Type 0} (crate : UrlCrate U) (codec : Codec N) (replies : Replies N) where
  abbrev pub remembered : Result RequestError SnuInstance → Out N Answer
  remembered (err e) = ([], err (bridge e))
  remembered (ok info) =
      (changed (remembers replies.at info) ∷ stored ∷ [], ok (with_instance info))

  -- `refresh_session`
  unfoldable pub refresh_session : Option OriginKey → Out N Answer
  refresh_session target =
      let rest = remembered (replies.token target) in
      (changed (eviction target) ∷ prompted ∷ awaited target ∷ rest.0, rest.1)

  abbrev pub waited : Option OriginKey → Option SnuInstance → Out N Answer
  waited target (some info) = remembered (ok info)
  waited target none =
      let rest = remembered (replies.token target) in (awaited target ∷ rest.0, rest.1)

  abbrev pub concluded : SnuInstance → Result Failure Bool → Out N Answer
  concluded info (err failure) = ([], err failure)
  concluded info (ok false) = ([], ok (with_token_valid false))
  concluded info (ok true) = (
    verified_at crate codec replies.at (normalize_origin crate info.url),
    ok (with_token_valid true),
  )

  abbrev pub verified_session : Option SnuInstance → Out N Answer
  verified_session none = ([], err no_session)
  verified_session (some info) =
      let probe = probe_session crate codec replies.probe in
      let rest = concluded info probe in (probed info probe ∷ rest.0, rest.1)

  unfoldable pub control : BrokerState → Control → Out N Answer
  control state ping = ([], ok acknowledged)
  control state stop = (changed stops ∷ [], ok acknowledged)
  control state (wait_session is_fresh target) =
      waited target (cached_session is_fresh target state)
  control state (refreshes target) = refresh_session target
  control state (clear_sessions target) =
      (changed (eviction target) ∷ stored ∷ [], ok (with_cleared (cleared_by target state)))
  control state (verify_session target) = verified_session (session_of target state)

-- What is done to the state, if nothing else is done to it meanwhile.
abbrev pub changes : {N : Type 0} → List (Event N) → List BrokerOp
changes [] = []
changes (changed op ∷ events) = op ∷ changes events
changes (event ∷ events) = changes events
