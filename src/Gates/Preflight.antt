-- ===== src/Gates/Preflight.antt =====
-- `negotiate_capabilities` and `preflight` of snu/bridge.rs: what they decide from the reply to the
-- capability request. The task may wait between its steps, and others change the helper's status
-- meanwhile: `before` is the status at the start, `after` when the reply is there, and `status` when
-- the lock is taken at the end.
use snow_cli.Base.{
  ◌<◌, ◌≢◌, unwrap_or, ltb, not, Bool, ℕ, Result, Option, if◌then◌else◌, ◌||◌, ◌==◌, false, true,
  err, ok, none, some, ◌≡◌,
}
use snow_cli.Json.{Value}
use snow_cli.Origin.{UrlCrate}
use snow_cli.Gates.{
  off, approve, auto, with_gates, legacy_unrestricted, gated, with_support, payload_origin, mode_of,
  apply_all, advertises_instance_gates, get_snapshot, gate_for_payload, OriginKey,
  HelperSecurityGateSupport, GateMode, GateName, HelperStatus, Snapshots,
}

-- The report of a reply: the capability that is read, and the snapshots.
pub record Report : Type 0 where
  pub reported_gates : Option ℕ
  pub reported_snapshots : Snapshots

-- How the request for the capabilities ends.
pub data Reply (E : Type 0) : Type 0 where
  reported : Report → Reply E
  unreadable : Reply E
  timed_out : Reply E
  paused : Reply E
  failed : E → Reply E

pub data BridgeError (E : Type 0) : Type 0 where
  disconnected : BridgeError E
  gate_state_unavailable : BridgeError E
  gate_unauthorized : OriginKey → BridgeError E
  helper_paused : BridgeError E
  request_failed : E → BridgeError E

pub data CapabilityNegotiation : Type 0 where
  legacy : (generation : ℕ) → CapabilityNegotiation
  gated_by : HelperStatus → CapabilityNegotiation

pub data GateDecision : Type 0 where
  not_gated legacy_unrestricted_decision blocked approval_required automatic : GateDecision

pub record PreflightResult : Type 0 where
  pub result_generation : Option ℕ
  pub origin : Option OriginKey
  pub gate : Option GateName
  pub decision : GateDecision

abbrev pub is_gated : HelperSecurityGateSupport → Bool
is_gated gated = true
is_gated _ = false

unfoldable pub decision_of : GateMode → GateDecision
decision_of off = blocked
decision_of approve = approval_required
decision_of auto = automatic

module _ {E : Type 0} where
  -- The end of both ways to a legacy helper, under the lock.
  unfoldable pub settle_legacy :
      HelperStatus → HelperStatus → Result (BridgeError E) CapabilityNegotiation × HelperStatus
  settle_legacy before status =
      if not (status.generation == before.generation)
      then (err disconnected, status)
      else if advertises_instance_gates status || is_gated status.security_gate_support
      then (err gate_state_unavailable, status)
      else (ok (legacy status.generation), with_support legacy_unrestricted status)

  -- The end of the way to a gated helper, under the lock. What authorizes comes from the report only.
  unfoldable pub settle_gated :
      HelperStatus
      → Snapshots
      → HelperStatus
      → Result (BridgeError E) CapabilityNegotiation × HelperStatus
  settle_gated before snapshots status =
      if not (status.generation == before.generation)
      then (err disconnected, status)
      else (let refreshed = apply_all snapshots (with_support gated status) in
          (ok (gated_by (with_gates snapshots refreshed)), refreshed))

  unfoldable pub negotiate_capabilities :
      (before after status : HelperStatus)
      → Reply E
      → Result (BridgeError E) CapabilityNegotiation × HelperStatus
  negotiate_capabilities before after status timed_out =
      if not (after.generation == before.generation)
      then (err disconnected, status)
      else if advertises_instance_gates before || advertises_instance_gates after
      then (err gate_state_unavailable, status)
      else settle_legacy before status
  negotiate_capabilities before after status paused = (err helper_paused, status)
  negotiate_capabilities before after status (failed e) =
      if advertises_instance_gates before || advertises_instance_gates after
      then (err gate_state_unavailable, status)
      else (err (request_failed e), status)
  negotiate_capabilities before after status unreadable = (err gate_state_unavailable, status)
  negotiate_capabilities before after status (reported report) =
      if ltb 0 (unwrap_or report.reported_gates 0)
      then settle_gated before report.reported_snapshots status
      else if advertises_instance_gates before || is_gated before.security_gate_support
      then (err gate_state_unavailable, status)
      else settle_legacy before status

  -- The decision for a gated action of an origin.
  unfoldable pub decide :
      GateName → Option OriginKey → CapabilityNegotiation → Result (BridgeError E) PreflightResult
  decide gate origin (legacy generation) = ok (record {
    result_generation = some generation;
    origin = origin;
    gate = some gate;
    decision = legacy_unrestricted_decision;
  })
  decide gate none (gated_by status) = err gate_state_unavailable
  decide gate (some origin) (gated_by status) = elim (get_snapshot origin status.instance_gates) [
    | none ↦ err (gate_unauthorized origin)
    | some snapshot ↦ ok (record {
      result_generation = some status.generation;
      origin = some origin;
      gate = some gate;
      decision = decision_of (mode_of snapshot.gates gate);
    })
  ]

  -- `preflight`, given the end of the negotiation, which is asked only for a gated action.
  unfoldable pub preflight :
      {N U : Type 0}
      → UrlCrate U
      → Value N
      → Result (BridgeError E) CapabilityNegotiation
      → Result (BridgeError E) PreflightResult
  preflight crate payload negotiation = elim (gate_for_payload payload) [
    | none ↦ ok (record {
      result_generation = none;
      origin = payload_origin crate payload;
      gate = none;
      decision = not_gated;
    })
    | some gate ↦ elim negotiation [
      | err e ↦ err e
      | ok negotiated ↦ decide gate (payload_origin crate payload) negotiated
    ]
  ]

-- What a negotiation that ends well rests on: the helper is still the one that was asked, and either it
-- has not said that it has gates, before or at the end, or the reply says so and authorizes alone.
abbrev pub IsNegotiated :
    {E : Type 0} → (before status : HelperStatus) → Reply E → CapabilityNegotiation → Type 0
IsNegotiated before status reply (legacy generation) =
    (generation ≡ before.generation)
    × (status.generation ≡ before.generation)
    × (advertises_instance_gates before ≡ false)
    × (advertises_instance_gates status ≡ false)
    × (status.security_gate_support ≢ gated)
IsNegotiated before status reply (gated_by negotiated) =
    (negotiated.generation ≡ before.generation)
    × (status.generation ≡ before.generation)
    × ((report : Report) × (reply ≡ reported report)
        × (0 < unwrap_or report.reported_gates 0)
        × (negotiated.instance_gates ≡ report.reported_snapshots))
