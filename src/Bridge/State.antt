-- ===== src/Bridge/State.antt =====
-- The state that the tasks of snu/bridge.rs share, and the programs of the tasks. A task is what it
-- will do next; what it does under one lock, or in one atomic operation, is one step.
use snow_cli.Base.{
  Bool, ℕ, Text, List, Result, Option, if◌then◌else◌, ◌==◌, ◌++◌, ◌∷◌, [], false, true, err, none,
  some, suc,
}
use snow_cli.Json.{Value}
use snow_cli.Origin.{option_eq}
use snow_cli.Gates.{HelperStatus, HelperSecurityGateSupport, OriginKey, Snapshots, unknown}
use snow_cli.Bridge.Messages.{SnuInstance, SnuMessage, Matcher, RequestError, disconnected}

-- `Waiter`. Its channel has a name, and `closed` says whether the receiver is gone.
pub record Waiter : Type 0 where
  pub channel : ℕ
  pub waits_on : Option ℕ
  pub matcher : Matcher
  pub closed : Bool

-- What is put into the outbound channel of a connection.
pub data Frame (N : Type 0) : Type 0 where
  host_hello : Frame N
  banner : Text → Frame N
  payload : Value N → Frame N
  ping pong : Frame N

-- `Inner`, of a connection its generation, and with what has been sent on each channel. `channels`
-- counts the channels made for waiters.
pub record Inner (N : Type 0) : Type 0 where
  pub generation : ℕ
  pub conn : Option ℕ
  pub waiters : List Waiter
  pub status : HelperStatus
  pub connected : Bool
  pub bound : Bool
  pub pending_banner : Option Text
  pub channels : ℕ
  pub sessions : List SnuInstance
  pub outbound : List (ℕ × Frame N)
  pub answers : List (Waiter × Result RequestError (SnuMessage N))

-- What `request_bound` is called with.
pub record Request (N : Type 0) : Type 0 where
  pub body : Value N
  pub awaited : Matcher
  pub expected_generation : Option ℕ
  pub expected_support : Option HelperSecurityGateSupport

-- Whose code a teardown runs in.
pub data Runner : Type 0 where
  reader heartbeat : Runner

-- `installing` to `marking` are `attach_connection`, from its second operation on; `detaching` to
-- `failing` are `detach_connection`; `capturing` to `routing` are `deliver_message`; `sweeping` and
-- `probing` are a round of `heartbeat_loop`, in which `stale` says what the clock says.
pub data Task (N : Type 0) : Type 0 where
  installing : (generation : ℕ) → Task N
  replacing : (previous generation : ℕ) → Task N
  resetting greeting showing marking : (generation : ℕ) → Task N
  detaching disconnecting failing : Runner → (generation : ℕ) → Task N
  capturing : SnuMessage N → (generation : ℕ) → Task N
  forwarding routing : SnuMessage N → (generation : ℕ) → Task N
  requesting : Request N → (writer_lives : Bool) → Task N
  awaiting_session : Option OriginKey → Task N
  bannering : Text → Task N
  sweeping probing : (stale : Bool) → Task N
  settling_legacy : HelperStatus → Task N
  settling_gated : HelperStatus → Snapshots → Task N

abbrev pub initial_status : ℕ → HelperStatus
initial_status generation = record {
  generation = generation;
  security_gate_support = unknown;
  instance_security_gates = none;
  instance_gates = [];
}

-- `BridgeManager::start`
abbrev pub start : {N : Type 0} → Inner N
start = record {
  generation = 0;
  conn = none;
  waiters = [];
  status = initial_status 0;
  connected = false;
  bound = true;
  pending_banner = none;
  channels = 0;
  sessions = [];
  outbound = [];
  answers = [];
}

abbrev pub is_of : ℕ → Waiter → Bool
is_of generation waiter = option_eq ◌==◌ waiter.waits_on (some generation)

-- What a sweep keeps: the waiters whose receivers are there.
abbrev pub keep_open : List Waiter → List Waiter
keep_open [] = []
keep_open (waiter ∷ waiters) =
    let rest = keep_open waiters in if waiter.closed then rest else waiter ∷ rest

-- A caller drops the receiver of its channel.
abbrev pub close_channel : ℕ → List Waiter → List Waiter
close_channel channel [] = []
close_channel channel (waiter ∷ waiters) =
    (if waiter.channel == channel then record waiter { closed = true } else waiter)
    ∷ close_channel channel waiters

module _ {N : Type 0} where
  -- `waiter.tx.send`: lost if the receiver is gone.
  abbrev pub answer :
      Waiter
      → Result RequestError (SnuMessage N)
      → List (Waiter × Result RequestError (SnuMessage N))
      → List (Waiter × Result RequestError (SnuMessage N))
  answer waiter result answers = if waiter.closed then answers else answers ++ (waiter, result) ∷ []

  -- The loop over the waiters that `fail_waiters_for_generation` and `deliver_message` share: those
  -- that are chosen get the result, the others remain.
  unfoldable pub drain_waiters :
      (Waiter → Bool)
      → Result RequestError (SnuMessage N)
      → List Waiter
      → List (Waiter × Result RequestError (SnuMessage N))
      → List Waiter × List (Waiter × Result RequestError (SnuMessage N))
  drain_waiters chosen result [] answers = ([], answers)
  drain_waiters chosen result (waiter ∷ waiters) answers =
      let rest =
        drain_waiters chosen result waiters
          (if chosen waiter then answer waiter result answers else answers) in
      (if chosen waiter then rest.0 else waiter ∷ rest.0, rest.1)

  abbrev pub answer_all : (Waiter → Bool) → Result RequestError (SnuMessage N) → Inner N → Inner N
  answer_all chosen result inner =
      let drained = drain_waiters chosen result inner.waiters inner.answers in
      record inner { waiters = drained.0; answers = drained.1 }

  -- `fail_waiters_for_generation`
  unfoldable pub fail_waiters_for_generation : ℕ → Inner N → Inner N
  fail_waiters_for_generation generation inner =
      answer_all (is_of generation) (err disconnected) inner

  unfoldable pub send_frame : ℕ → Frame N → Inner N → Inner N
  send_frame generation frame inner = record inner {
    outbound = inner.outbound ++ (generation, frame) ∷ [];
  }

  unfoldable pub push_waiter : Option ℕ → Matcher → Inner N → Inner N
  push_waiter waits_on matcher inner = record inner {
    waiters =
        inner.waiters
        ++ (record {
          channel = inner.channels;
          waits_on = waits_on;
          matcher = matcher;
          closed = false;
        })
          ∷ [];
    channels = suc inner.channels;
  }
