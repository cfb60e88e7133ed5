-- ===== src/Transport/Tests.antt =====
-- Runs in a toy world, whose state is the number of requests so far: the first is answered 401 and
-- the credentials are then refreshed.
use snow_cli.Base.{
  strip_prefix, split_once, All, length, Option, ℕ, codes, Text, List, [], if◌then◌else◌, ◌==◌, ◌≤◌,
  ◌+◌, refl, ◌++◌, ◌∷◌, false, true, ok, none, ◌≡◌,
}
use snow_cli.Transport.{
  refreshed, answered, sent, observe_session, observe_session_response_headers, finish, renew,
  settle, send, attempts, is_success, request_with_headers, authorize_instance_request, Response,
  Event, SessionState, World, Client, request_inner, Draft, Headers,
}
use snow_cli.Transport.Drafts.{drafts}
use snow_cli.Transport.Requests.{
  IsSafeDraft, IsRequest, IsRawRead, request_inner-Run, request_inner-IsSafe,
  request_with_headers-IsRawRead,
}
use snow_cli.Origin.Tests.{toy}
use snow_cli.Policy.Surface.{reader}
use snow_cli.Json.{Value}
use snow_cli.Policy.{ensure_request_allowed}
use snow_cli.Origin.{
  same_origin, is_safe_authenticated_url, checked_url, candidate_url, resolve_authenticated_url,
}

abbrev answer : ℕ → Response
answer n = record { status = if n == 0 then 401 else 200; response_headers = []; content = none }

abbrev token : List (Text × Text)
token = (codes "Authorization", codes "Bearer a") ∷ []

abbrev toy_world : World ℕ Text Draft
toy_world = record {
  authenticate = λ n. (ok token, n);
  refresh = λ n. (ok true, n);
  observe_response_headers = λ headers n. (ok tt, n);
  has_native_session = λ n. false;
  build = λ draft. ok draft;
  execute = λ draft n. (ok (answer n), n + 1);
  now = λ n. 0;
}

abbrev no_json : Text → Option (Value ℕ)
no_json text = none

abbrev no_date : Text → Option ℕ
no_date text = none

abbrev no_session : SessionState
no_session = record {
  jsessionid = none;
  form_cookie_header = none;
  native_form_bootstrapped = false;
  form_session = none;
}

abbrev fresh : Client ℕ
fresh = record {
  base_url = codes "https://a.test";
  policy = reader;
  session = no_session;
  world = 0;
  events = [];
}

abbrev made : Draft
made = record {
  method = codes "GET";
  url = codes "https://a.test/api/now";
  headers =
      (codes "Accept", codes "application/json")
      ∷ (codes "Content-Type", codes "application/json")
      ∷ (codes "Authorization", codes "Bearer a")
      ∷ [];
  params = [];
  body = none;
}

retried :
    (request_inner toy_world toy no_json no_date
      (codes "GET")
      (codes "/api/now")
      none
      []
      []
      fresh).1.events
    ≡ sent made ∷ answered 401 ∷ refreshed true ∷ sent made ∷ answered 200 ∷ []
unfolding request_inner snow_cli.Transport.◌>>=◌ authorize_instance_request ensure_request_allowed
    resolve_authenticated_url candidate_url checked_url is_safe_authenticated_url same_origin
    split_once strip_prefix attempts send settle renew finish observe_session_response_headers
    observe_session
retried = refl

request_inner-Run_example :
    IsRequest toy_world toy no_json no_date (codes "GET") (codes "/api/now") none [] [] fresh (
      request_inner toy_world toy no_json no_date (codes "GET") (codes "/api/now") none [] [] fresh)
request_inner-Run_example =
    request_inner-Run toy_world toy no_json no_date (codes "GET") (codes "/api/now") none [] []
      fresh

request_inner-IsSafe_example :
    let out =
      request_inner toy_world toy no_json no_date
        (codes "GET")
        (codes "/api/now")
        none
        []
        []
        fresh in
    (events : List Event) × (out.1.events ≡ fresh.events ++ events)
    × (length (drafts events) ≤ 2)
    × All
        (IsSafeDraft toy_world toy no_json no_date (codes "GET") (codes "/api/now") none [] fresh)
        (drafts events)
    × ((response : Response) → out.0 ≡ ok response → is_success response.status ≡ true)
request_inner-IsSafe_example =
    request_inner-IsSafe toy_world toy no_json no_date (codes "GET") (codes "/api/now") none [] []
      fresh

request_with_headers-IsRawRead_example :
    IsRawRead toy_world toy no_json no_date (codes "GET") token fresh (
      request_with_headers toy_world toy no_json no_date
        (codes "GET")
        (codes "/api/now")
        none
        []
        token
        fresh)
request_with_headers-IsRawRead_example =
    request_with_headers-IsRawRead toy_world toy no_json no_date (codes "GET") (codes "/api/now")
      none [] token fresh refl
