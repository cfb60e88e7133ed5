-- ===== src/Gates/Tests.antt =====
-- Negotiations and decisions at concrete payloads.
use snow_cli.Base.{
  strip_prefix, split_once, and_then, arith, ℕ, codes, Text, [], refl, ◌∷◌, ok, none, some, ◌≡◌,
}
use snow_cli.Json.{as_str, find_member, get, Value, string, object, no_members, member_then}
use snow_cli.Origin.Tests.{toy}
use snow_cli.Gates.{
  apply_snapshot, normalize_origin, payload_origin, rest_gate, gate_of_action, mode_of, auto,
  same_key, gate_for_payload, delete_records, approve, apply_gate_snapshot, with_gates, unknown,
  off, get_snapshot, HelperStatus, InstanceGates, GateSnapshot, OriginKey,
}
use snow_cli.Gates.Preflight.{
  decision_of, approval_required, decide, settle_gated, PreflightResult, preflight,
  negotiate_capabilities, Reply, reported,
}
use snow_cli.Gates.Decisions.{preflight-IsJustified, IsJustified}
use snow_cli.Gates.Snapshots.{apply_gate_snapshot_comm}

abbrev key : OriginKey
key = record { key_scheme = codes "https"; key_host = codes "a.test"; key_port = 443 }

abbrev modes : InstanceGates
modes = record {
  background_scripts_mode = off;
  delete_records_mode = approve;
  create_artifacts_mode = auto;
  rest_request_mode = auto;
  browser_debugger_mode = off;
}

abbrev snapshot : ℕ → GateSnapshot
snapshot revision = record { revision = revision; gates = modes }

abbrev quiet : HelperStatus
quiet = record {
  generation = 3;
  security_gate_support = unknown;
  instance_security_gates = none;
  instance_gates = [];
}

abbrev reply : Reply Text
reply = reported (record { reported_gates = some 1; reported_snapshots = (key, snapshot 4) ∷ [] })

abbrev deletion : Value ℕ
deletion = object (
    member_then (codes "action") (string (codes "agentRestApi")) (
      member_then (codes "method") (string (codes "delete"))
        (member_then (codes "url") (string (codes "https://a.test/x")) no_members)))

abbrev decided : PreflightResult
decided = record {
  result_generation = some 3;
  origin = some key;
  gate = some delete_records;
  decision = approval_required;
}

decided_lem : preflight toy deletion (negotiate_capabilities quiet quiet quiet reply).0 ≡ ok decided
unfolding preflight negotiate_capabilities settle_gated decide decision_of mode_of gate_for_payload
    gate_of_action rest_gate payload_origin normalize_origin get find_member get_snapshot same_key
    split_once strip_prefix apply_gate_snapshot apply_snapshot
decided_lem = refl

preflight-IsJustified_example : IsJustified toy deletion quiet quiet reply decided
preflight-IsJustified_example =
    preflight-IsJustified toy deletion quiet quiet quiet reply decided decided_lem

apply_gate_snapshot_comm_example :
    get_snapshot key
      (apply_gate_snapshot key
        (snapshot 5)
        (apply_gate_snapshot key (snapshot 4) quiet)).instance_gates
    ≡ get_snapshot key
        (apply_gate_snapshot key
          (snapshot 4)
          (apply_gate_snapshot key (snapshot 5) quiet)).instance_gates
apply_gate_snapshot_comm_example =
    apply_gate_snapshot_comm (key, snapshot 5) (key, snapshot 4) quiet key (λ same. ground arith)

abbrev known : HelperStatus
known = with_gates ((key, snapshot 4) ∷ []) quiet

known_lem : get_snapshot key known.instance_gates ≡ some (snapshot 4)
unfolding get_snapshot same_key
known_lem = refl

rest_lem : and_then (get (codes "action") deletion) as_str ≡ some (codes "agentRestApi")
unfolding get find_member
rest_lem = refl
