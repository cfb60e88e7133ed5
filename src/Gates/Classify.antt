-- ===== src/Gates/Classify.antt =====
-- Which REST calls through the helper need no gate.
use snow_cli.Base.{
  text_eq_iff, arith, to_ascii_uppercase, codes, and_then, unwrap_or, Text, ◌⊎◌, ◌↔◌, none, some,
  ◌≡◌,
}
use snow_cli.Json.{Value, get, as_str}
use snow_cli.Gates.{delete_records, rest_gate, gate_of_action, gate_for_payload}

module _ {N : Type 0} where
  -- The method of a REST payload, which is GET where none is given.
  abbrev pub method_of : Value N → Text
  method_of payload = unwrap_or (and_then (get (codes "method") payload) as_str) (codes "GET")

  -- A REST call needs no gate exactly if its method, in any case, is GET, HEAD or OPTIONS, where GET
  -- stands for a method that is not there or no text, and it needs the gate for deletions exactly if
  -- its method is DELETE.
  pub rest-gate_for_payload :
      (payload : Value N)
      → and_then (get (codes "action") payload) as_str ≡ some (codes "agentRestApi")
      → let method = to_ascii_uppercase (method_of payload) in
        ((gate_for_payload payload ≡ none)
          ↔ ((method ≡ codes "GET") ⊎ (method ≡ codes "HEAD") ⊎ (method ≡ codes "OPTIONS")))
        × ((gate_for_payload payload ≡ some delete_records) ↔ (method ≡ codes "DELETE"))
  unfolding gate_for_payload gate_of_action rest_gate
  rest-gate_for_payload payload h =
      let method = to_ascii_uppercase (method_of payload) in
      rw h (
        ground (
          arith,
          text_eq_iff method (codes "GET"),
          text_eq_iff method (codes "HEAD"),
          text_eq_iff method (codes "OPTIONS"),
          text_eq_iff method (codes "DELETE"),
        ))
