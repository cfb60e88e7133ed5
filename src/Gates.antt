-- ===== src/Gates.antt =====
-- snu/gates.rs, `normalize_origin` of snu/protocol.rs, and the decisions of `negotiate_capabilities`
-- and `preflight` of snu/bridge.rs.
pub mod Snapshots
pub mod Preflight
pub mod Decisions
pub mod Classify
mod Tests
use snow_cli.Base.{
  has_prefix, to_ascii_uppercase, unwrap_or, or_else, codes, text_eq, ltb, and_then, ℕ, Text,
  Option, List, Bool, [], if◌then◌else◌, ◌||◌, ◌&&◌, ◌==◌, ◌∷◌, true, none, some, ◌≡◌,
}
use snow_cli.Json.{Value, get, as_str, object}
use snow_cli.Origin.{UrlCrate}

pub data GateMode : Type 0 where
  off approve auto : GateMode

pub data GateName : Type 0 where
  background_scripts delete_records create_artifacts rest_request browser_debugger : GateName

-- `InstanceGates`
pub record InstanceGates : Type 0 where
  pub background_scripts_mode : GateMode
  pub delete_records_mode : GateMode
  pub create_artifacts_mode : GateMode
  pub rest_request_mode : GateMode
  pub browser_debugger_mode : GateMode

unfoldable pub mode_of : InstanceGates → GateName → GateMode
mode_of gates background_scripts = gates.background_scripts_mode
mode_of gates delete_records = gates.delete_records_mode
mode_of gates create_artifacts = gates.create_artifacts_mode
mode_of gates rest_request = gates.rest_request_mode
mode_of gates browser_debugger = gates.browser_debugger_mode

pub record GateSnapshot : Type 0 where
  pub revision : ℕ
  pub gates : InstanceGates

-- A normalized origin, which the source prints as "scheme://host:port".
pub record OriginKey : Type 0 where
  pub key_scheme : Text
  pub key_host : Text
  pub key_port : ℕ

unfoldable pub same_key : OriginKey → OriginKey → Bool
same_key left right =
    text_eq left.key_scheme right.key_scheme
    && text_eq left.key_host right.key_host
    && (left.key_port == right.key_port)

-- A map of snapshots, in the order of its iteration.
abbrev pub Snapshots : Type 0
Snapshots = List (OriginKey × GateSnapshot)

unfoldable pub get_snapshot : OriginKey → Snapshots → Option GateSnapshot
get_snapshot origin [] = none
get_snapshot origin (entry ∷ entries) =
    let found = get_snapshot origin entries in
    if same_key entry.0 origin then some entry.1 else found

unfoldable pub insert_snapshot : OriginKey → GateSnapshot → Snapshots → Snapshots
insert_snapshot origin snapshot [] = (origin, snapshot) ∷ []
insert_snapshot origin snapshot (entry ∷ entries) =
    let rest = insert_snapshot origin snapshot entries in
    if same_key entry.0 origin then (entry.0, snapshot) ∷ entries else entry ∷ rest

pub data HelperSecurityGateSupport : Type 0 where
  unknown legacy_unrestricted gated : HelperSecurityGateSupport

-- `HelperStatus`, of its build the one capability that is read: none without a build or without the
-- capability.
pub record HelperStatus : Type 0 where
  pub generation : ℕ
  pub security_gate_support : HelperSecurityGateSupport
  pub instance_security_gates : Option ℕ
  pub instance_gates : Snapshots

unfoldable pub advertises_instance_gates : HelperStatus → Bool
advertises_instance_gates status = ltb 0 (unwrap_or status.instance_security_gates 0)

-- Whether the snapshot is newer than what is there.
unfoldable pub should_replace : Option GateSnapshot → GateSnapshot → Bool
should_replace none snapshot = true
should_replace (some current) snapshot = ltb current.revision snapshot.revision

unfoldable pub apply_snapshot : OriginKey → GateSnapshot → Snapshots → Snapshots
apply_snapshot origin snapshot entries =
    if should_replace (get_snapshot origin entries) snapshot
    then insert_snapshot origin snapshot entries
    else entries

abbrev pub with_gates : Snapshots → HelperStatus → HelperStatus
with_gates entries status = record {
  generation = status.generation;
  security_gate_support = status.security_gate_support;
  instance_security_gates = status.instance_security_gates;
  instance_gates = entries;
}

abbrev pub with_support : HelperSecurityGateSupport → HelperStatus → HelperStatus
with_support support status = record {
  generation = status.generation;
  security_gate_support = support;
  instance_security_gates = status.instance_security_gates;
  instance_gates = status.instance_gates;
}

-- `HelperStatus::apply_gate_snapshot`
unfoldable pub apply_gate_snapshot : OriginKey → GateSnapshot → HelperStatus → HelperStatus
apply_gate_snapshot origin snapshot status =
    with_gates (apply_snapshot origin snapshot status.instance_gates) status

-- The loop over the snapshots of a report.
abbrev pub apply_all : Snapshots → HelperStatus → HelperStatus
apply_all [] status = status
apply_all (entry ∷ entries) status = apply_all entries (apply_gate_snapshot entry.0 entry.1 status)

-- The gate of a REST call, by its method.
unfoldable pub rest_gate : Text → Option GateName
rest_gate method =
    if text_eq method (codes "GET")
      || text_eq method (codes "HEAD")
      || text_eq method (codes "OPTIONS")
    then none
    else if text_eq method (codes "DELETE")
    then some delete_records
    else some rest_request

unfoldable pub gate_of_action : Text → Text → Option GateName
gate_of_action action method =
    if text_eq action (codes "executeBackgroundScript")
      || text_eq action (codes "agentRunBackgroundScript")
    then some background_scripts
    else if text_eq action (codes "createRecord") || text_eq action (codes "uploadAttachment")
    then some create_artifacts
    else if text_eq action (codes "takeScreenshot")
    then some browser_debugger
    else if text_eq action (codes "agentRestApi")
    then rest_gate (to_ascii_uppercase method)
    else if has_prefix (codes "agentCdp") action
    then some browser_debugger
    else none

module _ {N : Type 0} where
  unfoldable pub gate_for_payload : Value N → Option GateName
  gate_for_payload payload = and_then (and_then (get (codes "action") payload) as_str) (λ action.
      gate_of_action action
        (unwrap_or (and_then (get (codes "method") payload) as_str) (codes "GET")))

module _ {U : Type 0} (crate : UrlCrate U) where
  unfoldable pub normalize_origin : Text → Option OriginKey
  normalize_origin url = and_then (crate.parse_url url) (λ parsed.
      and_then (crate.host_str parsed) (λ host.
        and_then (crate.port_or_known_default parsed) (λ port.
          some (record { key_scheme = crate.scheme parsed; key_host = host; key_port = port }))))

  unfoldable pub payload_origin : {N : Type 0} → Value N → Option OriginKey
  payload_origin payload =
      and_then
        (and_then
          (or_else (and_then (get (codes "instance") payload) (get (codes "url")))
            (get (codes "url") payload))
          as_str)
        normalize_origin
