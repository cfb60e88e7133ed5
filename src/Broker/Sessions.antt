-- ===== src/Broker/Sessions.antt =====
-- `BrokerState` of snu/broker.rs: the sessions by their origins, what is known of their freshness, and
-- the clients. The clock is an argument; the sessions are those of SN-Utils' `/token`.
use snow_cli.Base.{
  is_some, and_then, or_else, unwrap_or, text_eq, not, map, Bool, ℕ, List, Option, if◌then◌else◌,
  ◌&&◌, ◌==◌, ◌∷◌, [], ◌-◌, false, true, none, some, suc, leb,
}
use snow_cli.Origin.{UrlCrate, option_eq}
use snow_cli.Gates.{OriginKey, normalize_origin, same_key}
use snow_cli.Bridge.Messages.{SnuInstance}
use snow_cli.Broker.Origins.{get_at, insert_at, remove_at, first_key}

pub record SessionMeta : Type 0 where
  pub captured_at : Option ℕ
  pub last_verified_at : Option ℕ

abbrev pub Sessions : Type 0
Sessions = List (OriginKey × SnuInstance)

pub record BrokerState : Type 0 where
  pub sessions_by_origin : Sessions
  pub meta_by_origin : List (OriginKey × SessionMeta)
  pub latest_origin : Option OriginKey
  pub last_activity : ℕ
  pub active_clients : ℕ
  pub in_flight : ℕ
  pub shutdown : Bool
  pub idle_timeout : ℕ

-- `BrokerState::new`
unfoldable pub new_state : (idle_timeout now : ℕ) → BrokerState
new_state idle_timeout now = record {
  sessions_by_origin = [];
  meta_by_origin = [];
  latest_origin = none;
  last_activity = now;
  active_clients = 0;
  in_flight = 0;
  shutdown = false;
  idle_timeout = idle_timeout;
}

abbrev pub is_changed : Option SnuInstance → SnuInstance → Bool
is_changed none instance_info = true
is_changed (some existing) instance_info = not (option_eq text_eq existing.g_ck instance_info.g_ck)

abbrev pub captured : ℕ → SessionMeta
captured now = record { captured_at = some now; last_verified_at = none }

abbrev pub remember_at : ℕ → SnuInstance → Option OriginKey → BrokerState → BrokerState
remember_at now info none state = state
remember_at now info (some origin) state = record state {
  meta_by_origin =
      if is_changed (get_at origin state.sessions_by_origin) info
      then insert_at origin (captured now) state.meta_by_origin
      else state.meta_by_origin;
  sessions_by_origin = insert_at origin info state.sessions_by_origin;
  latest_origin = some origin;
}

abbrev pub unknown_meta : SessionMeta
unknown_meta = record { captured_at = none; last_verified_at = none }

abbrev pub verified : ℕ → Option SessionMeta → SessionMeta
verified now meta = record {
  captured_at = (unwrap_or meta unknown_meta).captured_at;
  last_verified_at = some now;
}

unfoldable pub mark_verified : ℕ → OriginKey → BrokerState → BrokerState
mark_verified now origin state = record state {
  meta_by_origin =
      if is_some (get_at origin state.sessions_by_origin)
      then insert_at origin (verified now (get_at origin state.meta_by_origin)) state.meta_by_origin
      else state.meta_by_origin;
}

unfoldable pub latest_session : BrokerState → Option SnuInstance
latest_session state =
    and_then state.latest_origin (λ origin. get_at origin state.sessions_by_origin)

unfoldable pub session_for_origin : OriginKey → BrokerState → Option SnuInstance
session_for_origin origin state = get_at origin state.sessions_by_origin

-- Whether anything was removed, and the state without it.
unfoldable pub clear_origin : OriginKey → BrokerState → Bool × BrokerState
clear_origin origin state =
    let remaining = remove_at origin state.sessions_by_origin in
    (
      is_some (get_at origin state.sessions_by_origin),
      record state {
        sessions_by_origin = remaining;
        meta_by_origin = remove_at origin state.meta_by_origin;
        latest_origin =
            if option_eq same_key state.latest_origin (some origin)
            then first_key remaining
            else state.latest_origin;
      },
    )

unfoldable pub clear_all : BrokerState → List OriginKey × BrokerState
clear_all state = (
  map (λ entry. entry.0) state.sessions_by_origin,
  record state { sessions_by_origin = []; meta_by_origin = []; latest_origin = none },
)

-- `latest_origin.filter(|origin| sessions.contains_key(origin))`
abbrev pub present_in : Sessions → Option OriginKey → Option OriginKey
present_in sessions none = none
present_in sessions (some origin) = if is_some (get_at origin sessions) then some origin else none

unfoldable pub restore_sessions : Sessions → Option OriginKey → BrokerState → BrokerState
restore_sessions [] latest state = state
restore_sessions (entry ∷ entries) latest state = record state {
  latest_origin = or_else (present_in (entry ∷ entries) latest) (first_key (entry ∷ entries));
  sessions_by_origin = entry ∷ entries;
}

-- `session_snapshot_is_fresh`
unfoldable pub session_snapshot_is_fresh : (saved_at now : ℕ) → Bool
session_snapshot_is_fresh saved_at now = leb (now - saved_at) 43200

-- What happens to the state under its lock, once it is started.
pub data BrokerOp : Type 0 where
  remembers : (now : ℕ) → SnuInstance → BrokerOp
  verifies : (now : ℕ) → OriginKey → BrokerOp
  clears : OriginKey → BrokerOp
  clears_all : BrokerOp
  enters leaves begins ends : (now : ℕ) → BrokerOp
  stops : BrokerOp
  idles : (now : ℕ) → BrokerOp

-- What is cleared for a target.
abbrev pub eviction : Option OriginKey → BrokerOp
eviction none = clears_all
eviction (some origin) = clears origin

-- The check of the idle task.
abbrev pub is_idle : ℕ → BrokerState → Bool
is_idle now state =
    (state.active_clients == 0)
    && (state.in_flight == 0)
    && leb state.idle_timeout (now - state.last_activity)

module _ {U : Type 0} (crate : UrlCrate U) where
  unfoldable pub remember_session : ℕ → SnuInstance → BrokerState → BrokerState
  remember_session now info state = remember_at now info (normalize_origin crate info.url) state

  unfoldable pub apply_op : BrokerOp → BrokerState → BrokerState
  apply_op (remembers now info) state = remember_session now info state
  apply_op (verifies now origin) state = mark_verified now origin state
  apply_op (clears origin) state = (clear_origin origin state).1
  apply_op clears_all state = (clear_all state).1
  apply_op (enters now) state = record state {
    active_clients = suc state.active_clients;
    last_activity = now;
  }
  apply_op (leaves now) state = record state {
    active_clients = state.active_clients - 1;
    last_activity = now;
  }
  apply_op (begins now) state = record state {
    in_flight = suc state.in_flight;
    last_activity = now;
  }
  apply_op (ends now) state = record state { in_flight = state.in_flight - 1; last_activity = now }
  apply_op stops state = record state { shutdown = true }
  apply_op (idles now) state = if is_idle now state then record state { shutdown = true } else state

  abbrev pub apply_ops : List BrokerOp → BrokerState → BrokerState
  apply_ops [] state = state
  apply_ops (op ∷ ops) state = apply_ops ops (apply_op op state)
