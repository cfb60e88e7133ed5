-- ===== src/Broker/Tests.antt =====
-- Runs of snu/broker.rs: a session expires, and an action is sent again with the next one.
use snow_cli.Base.{
  Result, Option, ap, count, contains, not, is_some, subst, arith, any, All, split_once, Bool,
  strip_prefix, and_then, ℕ, Text, List, if◌then◌else◌, ◌∙◌, [], ◌&&◌, refl, ◌∷◌, ◌≡◌, false, true,
  err, ok, none, some, codes,
}
use snow_cli.Origin.Tests.{toy}
use snow_cli.Json.{find_member, Value, get, as_str, string, object, no_members, member_then}
use snow_cli.Broker.Events.{send_action, ActionRequest, Codec, Environment}
use snow_cli.Broker.Codecs.{IsTokenFor, IsTo, IsFaithfulAt, IsCodec}
use snow_cli.Broker.Target.{dispatch_action-AllTo}
use snow_cli.Broker.Sessions.{
  session_for_origin, captured, clears, remembers, verifies, mark_verified, idles, enters,
  restore_sessions, remember_session, new_state, clear_origin, apply_ops, BrokerOp,
  session_snapshot_is_fresh, apply_op, Sessions, BrokerState,
}
use snow_cli.Broker.Control.{clear_sessions, changes, wait_session, control, Replies, Control}
use snow_cli.Broker.Replies.{dispatch_action-IsConcluded, IsConcluded}
use snow_cli.Broker.Discipline.{dispatch_action-IsDispatched, IsDispatched}
use snow_cli.Broker.Kept.{started-IsKept, AreFiled, IsKept}
use snow_cli.Gates.{same_key, normalize_origin, OriginKey}
use snow_cli.Bridge.Messages.{
  has_token, instance_matches_session, action_failed, SnuMessage, SnuInstance, RequestError,
}
use snow_cli.Broker.Cells.{cell_of-apply_ops, cell_ops, cell_of}
use snow_cli.Broker.Dispatch.{
  mark_payload_verified, is_probe_stale_token_text, is_stale_token_text, is_transient_helper_text,
  explain_approval_timeout, probe_session, refresh_and_repeat, repeat_action,
  send_action_with_refresh, preflight_for_dispatch, instance_origin, dispatch_action,
}
use snow_cli.Broker.Origins.{same_key_iff, first_key, remove_at, insert_at, get_at}
use snow_cli.Broker.Served.{control-clears, control-IsRemembered, IsRemembered}
use snow_cli.Gates.Preflight.{automatic, PreflightResult}
use snow_cli.Broker.Course.{is_request}

abbrev instance_at : Text → Text → SnuInstance
instance_at url token = record { name = []; url = url; g_ck = some token; scope = none }

-- A session is written as its URL only.
abbrev url_codec : Codec ℕ
url_codec = record {
  to_lowercase = λ text. text;
  read_instance = λ value.
      and_then (and_then (get (codes "url") value) as_str) (λ url. some (instance_at url []));
  write_instance = λ info. object (member_then (codes "url") (string info.url) no_members);
}

abbrev url_a : Text
url_a = codes "https://a.test"

abbrev url_b : Text
url_b = codes "https://b.test"

abbrev a : OriginKey
a = record { key_scheme = codes "https"; key_host = codes "a.test"; key_port = 443 }

abbrev b : OriginKey
b = record { key_scheme = codes "https"; key_host = codes "b.test"; key_port = 443 }

abbrev old_a : SnuInstance
old_a = instance_at url_a (codes "old")

abbrev new_a : SnuInstance
new_a = instance_at url_a (codes "new")

abbrev only_b : SnuInstance
only_b = instance_at url_b (codes "b")

abbrev two_sessions : Sessions
two_sessions = (a, old_a) ∷ (b, only_b) ∷ []

abbrev two : BrokerState
two = restore_sessions two_sessions (some b) (new_state 1800 0)

abbrev some_ops : List BrokerOp
some_ops = enters 1 ∷ verifies 2 a ∷ remembers 3 new_a ∷ clears b ∷ verifies 4 b ∷ idles 5 ∷ []

renewed :
    (apply_ops toy some_ops two).sessions_by_origin ≡ (a, new_a) ∷ []
    × ((apply_ops toy some_ops two).meta_by_origin ≡ (a, captured 3) ∷ [])
    × ((apply_ops toy some_ops two).latest_origin ≡ some a)
unfolding apply_op remember_session mark_verified clear_origin restore_sessions new_state get_at
    insert_at remove_at normalize_origin same_key first_key strip_prefix split_once
renewed = (refl, refl, refl)

idle_test :
    ((apply_op toy (idles 1799) (new_state 1800 0)).shutdown ≡ false)
    × ((apply_op toy (idles 1800) (new_state 1800 0)).shutdown ≡ true)
    × ((apply_op toy (idles 1800) (apply_op toy (enters 0) (new_state 1800 0))).shutdown ≡ false)
unfolding apply_op new_state
idle_test = (refl, refl, refl)

freshness_test :
    (session_snapshot_is_fresh 10 43210 ≡ true)
    × (session_snapshot_is_fresh 10 43211 ≡ false)
    × (session_snapshot_is_fresh 10 3 ≡ true)
unfolding session_snapshot_is_fresh
freshness_test = (refl, refl, refl)

cell_of-apply_ops_example :
    cell_of a (apply_ops toy some_ops two) ≡ cell_ops toy some_ops a (cell_of a two)
cell_of-apply_ops_example = cell_of-apply_ops toy some_ops a two

at_a : normalize_origin toy url_a ≡ some a
unfolding normalize_origin strip_prefix split_once
at_a = refl

at_b : normalize_origin toy url_b ≡ some b
unfolding normalize_origin strip_prefix split_once
at_b = refl

two_sessions-AreFiled : AreFiled toy two_sessions
unfolding get_at
two_sessions-AreFiled origin info h = by_key (same_key a origin) (same_key b origin) refl refl h
  where
    by_key :
        (is_a is_b : Bool)
        → same_key a origin ≡ is_a
        → same_key b origin ≡ is_b
        → (if is_a then some old_a else if is_b then some only_b else none) ≡ some info
        → normalize_origin toy info.url ≡ some origin
    by_key true is_b same_a same_b found =
        let same : old_a ≡ info = ground arith in
        subst (λ (i : SnuInstance). normalize_origin toy i.url ≡ some origin) same
          (at_a ∙ ap some ((same_key_iff a origin).0 same_a))
    by_key false true same_a same_b found =
        let same : only_b ≡ info = ground arith in
        subst (λ (i : SnuInstance). normalize_origin toy i.url ≡ some origin) same
          (at_b ∙ ap some ((same_key_iff b origin).0 same_b))
    by_key false false same_a same_b found = absurd (ground arith)

started-IsKept_example : IsKept toy (apply_ops toy some_ops two)
started-IsKept_example =
    started-IsKept toy two_sessions (some b) 1800 0 some_ops two_sessions-AreFiled

abbrev payload_a : Value ℕ
payload_a = object (member_then (codes "instance") (url_codec.write_instance old_a) no_members)

abbrev allowed : ℕ → PreflightResult
allowed n = record {
  result_generation = some n;
  origin = some a;
  gate = none;
  decision = automatic;
}

abbrev answer : SnuMessage ℕ
answer = record {
  action = none;
  agent_request_id = some (codes "c1");
  instance_info = none;
  success = some true;
  error = none;
  extra = no_members;
}

-- The helper has the session for those that await one that it matches.
abbrev given : SnuInstance → Option OriginKey → Result RequestError SnuInstance
given info target =
    if instance_matches_session toy info target
    then ok info
    else err (action_failed (codes "no session"))

given-IsTokenFor : (info : SnuInstance) → IsTokenFor toy (given info)
given-IsTokenFor info target found h = ground arith

-- The helper says that the token has expired, a probe confirms it, and `/token` gives the next one.
abbrev expires : Environment ℕ
expires = record {
  preflight_reply = ok (allowed 3);
  first_reply = err (action_failed (codes "http 401"));
  again_reply = ok (allowed 4);
  second_reply = ok answer;
  probe_reply = err (action_failed (codes "http 401"));
  token_reply = given new_a;
  cached = λ origin. some old_a;
  now = 7;
}

abbrev asked : ActionRequest ℕ
asked = send_action payload_a (codes "c1")

sent_again :
    ((dispatch_action toy url_codec expires asked).1 ≡ ok answer)
    × (count is_request (dispatch_action toy url_codec expires asked).0 ≡ 2)
    × (changes (dispatch_action toy url_codec expires asked).0
        ≡ clears a ∷ remembers 7 new_a ∷ verifies 7 a ∷ [])
unfolding dispatch_action send_action_with_refresh repeat_action refresh_and_repeat probe_session
    preflight_for_dispatch explain_approval_timeout is_transient_helper_text is_stale_token_text
    is_probe_stale_token_text mark_payload_verified instance_origin get find_member contains
    normalize_origin strip_prefix split_once instance_matches_session has_token same_key
sent_again = (refl, refl, refl)

dispatch_action-IsDispatched_example :
    IsDispatched toy asked (dispatch_action toy url_codec expires asked).0
dispatch_action-IsDispatched_example = dispatch_action-IsDispatched toy url_codec expires asked

dispatch_action-IsConcluded_example :
    IsConcluded toy url_codec expires
      (preflight_for_dispatch expires.preflight_reply)
      (dispatch_action toy url_codec expires asked)
dispatch_action-IsConcluded_example = dispatch_action-IsConcluded toy url_codec expires asked

url_of :
    (url : Option Text) (info : SnuInstance)
    → and_then url (λ text. some (instance_at text [])) ≡ some info
    → url ≡ some info.url
url_of none info h = absurd (ground arith)
url_of (some url) info h =
    let same : instance_at url [] ≡ info = ground arith in ap (λ (i : SnuInstance). some i.url) same

url_codec-IsCodec : IsCodec url_codec
unfolding get find_member
url_codec-IsCodec = (λ info. refl, λ value. url_of (and_then (get (codes "url") value) as_str))

expires-IsFaithfulAt : IsFaithfulAt toy a expires
unfolding normalize_origin instance_matches_session has_token same_key strip_prefix split_once
expires-IsFaithfulAt = (
  λ info h.
      let same : old_a ≡ info = ground arith in
      subst (λ (i : SnuInstance). normalize_origin toy i.url ≡ some a) same refl,
  given-IsTokenFor new_a,
)

dispatch_action-AllTo_example :
    All (IsTo toy url_codec a) (dispatch_action toy url_codec expires asked).0
unfolding instance_origin normalize_origin get find_member strip_prefix split_once
dispatch_action-AllTo_example =
    dispatch_action-AllTo toy url_codec url_codec-IsCodec a expires expires-IsFaithfulAt asked refl

two-IsKept : IsKept toy two
two-IsKept = started-IsKept toy two_sessions (some b) 1800 0 [] two_sessions-AreFiled

abbrev token_b : Replies ℕ
token_b = record { token = given only_b; probe = ok answer; at = 9 }

abbrev waits : Control
waits = wait_session true (some b)

control-IsRemembered_example :
    IsRemembered toy
      (some b)
      only_b
      (apply_ops toy (changes (control toy url_codec token_b two waits).0) two)
unfolding control instance_matches_session has_token normalize_origin strip_prefix split_once
    same_key
control-IsRemembered_example =
    control-IsRemembered toy url_codec token_b two waits only_b two-IsKept (given-IsTokenFor only_b)
      refl

control-clears_example : any (same_key a) (a ∷ []) ≡ (
    let after =
      apply_ops toy (changes (control toy url_codec token_b two (clear_sessions (some a))).0) two in
    is_some (session_for_origin a two) && not (is_some (session_for_origin a after)))
unfolding control clear_origin get_at same_key restore_sessions
control-clears_example = control-clears toy url_codec token_b two (some a) (a ∷ []) a refl
