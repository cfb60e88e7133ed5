-- ===== src/Transport.antt =====
-- client/transport.rs: an authenticated request with its retry, and client/session.rs: what a response
-- changes in the session. The authenticator, reqwest and the clock are parameters, as are the `url`
-- crate and the JSON and date parsers.
pub mod Runs
pub mod Laws
pub mod Drafts
pub mod Requests
mod Tests
use snow_cli.Base.{
  or_else, if◌then◌else◌, ◌==◌, suc, zero, none, some, ltb, leb, codes, Bool, ℕ, ok, Text, Result,
  Option, List, [], ◌&&◌, ◌++◌, ◌∷◌, err, ◌≡◌,
}
use snow_cli.Policy.{
  ExecutionPolicy, PolicyError, Method, ensure_request_allowed, ensure_raw_api_headers_allowed,
}
use snow_cli.Origin.{UrlCrate, UrlError, resolve_authenticated_url}
use snow_cli.Cookies.{Headers, merge_cookie_header, extract_jsessionid_from_headers}
use snow_cli.ApiError.{ApiError, from_status}
use snow_cli.Json.{Value}
use snow_cli.Table.{Params}

-- `SessionState` of client/core.rs; a form session is its token.
pub record SessionState : Type 0 where
  pub jsessionid : Option Text
  pub form_cookie_header : Option Text
  pub native_form_bootstrapped : Bool
  pub form_session : Option Text

-- What a request is built from, the headers in the order in which they are given to the builder.
pub record Draft : Type 0 where
  pub method : Method
  pub url : Text
  pub headers : List (Text × Text)
  pub params : Params
  pub body : Option Text

pub record Response : Type 0 where
  pub status : ℕ
  pub response_headers : Headers
  pub content : Option Text

-- What the client uses of the world, whose state is `S`: the authenticator, the HTTP client, the
-- clock. `E` is an error of theirs, and `Q` a built request.
pub record World (S E Q : Type 0) : Type 0 where
  pub authenticate : S → Result E (List (Text × Text)) × S
  pub refresh : S → Result E Bool × S
  pub observe_response_headers : Headers → S → Result E (Unit {0}) × S
  pub has_native_session : S → Bool
  pub build : Draft → Result E Q
  pub execute : Q → S → Result E Response × S
  pub now : S → ℕ

pub data ClientError (E : Type 0) : Type 0 where
  denied : PolicyError → ClientError E
  refused_url : UrlError → ClientError E
  authentication : E → ClientError E
  transport : E → ClientError E
  api : ApiError → ClientError E

-- What happened, in order: a request was sent, a response came with its status, the credentials were
-- refreshed or could not be.
pub data Event : Type 0 where
  sent : Draft → Event
  answered : (status : ℕ) → Event
  refreshed : Bool → Event

-- `SnowClient`, with the state of the world and the events so far.
pub record Client (S : Type 0) : Type 0 where
  pub base_url : Text
  pub policy : ExecutionPolicy
  pub session : SessionState
  pub world : S
  pub events : List Event

-- A computation that may change the client and fail.
abbrev pub Action : Type 0 → Type 0 → Type 0 → Type 0
Action S E A = Client S → Result (ClientError E) A × Client S

-- What follows a result.
abbrev pub resume :
    {S E A B : Type 0}
    → (A → Action S E B)
    → Result (ClientError E) A
    → Client S
    → Result (ClientError E) B × Client S
resume next (err e) client = (err e, client)
resume next (ok a) client = next a client

infixl 5 ◌>>=◌
unfoldable pub ◌>>=◌ : {S E A B : Type 0} → Action S E A → (A → Action S E B) → Action S E B
(action >>= next) client = resume next (action client).0 (action client).1

module _ {S E : Type 0} where
  abbrev pub return : {A : Type 0} → A → Action S E A
  return a client = (ok a, client)

  abbrev pub fail : {A : Type 0} → ClientError E → Action S E A
  fail e client = (err e, client)

  -- A call into the world, whose error is wrapped.
  abbrev pub call : {A : Type 0} → (E → ClientError E) → (S → Result E A × S) → Action S E A
  call wrap operation client =
      let (result, world) = operation client.world in
      (
        elim result [ err e ↦ err (wrap e) | ok a ↦ ok a ],
        record {
          base_url = client.base_url;
          policy = client.policy;
          session = client.session;
          world = world;
          events = client.events;
        },
      )

  abbrev pub log : Event → Action S E (Unit {0})
  log event client = (
    ok tt,
    record {
      base_url = client.base_url;
      policy = client.policy;
      session = client.session;
      world = client.world;
      events = client.events ++ event ∷ [];
    },
  )

abbrev pub is_success : ℕ → Bool
is_success status = leb 200 status && ltb status 300

-- MAX_AUTH_RETRIES
abbrev pub max_auth_retries : ℕ
max_auth_retries = 1

-- What a request's drafts have besides the headers of the authenticator.
abbrev pub with_auth : Draft → List (Text × Text) → List (Text × Text) → Draft
with_auth draft auth_headers extra_headers = record {
  method = draft.method;
  url = draft.url;
  headers =
      (codes "Accept", codes "application/json")
      ∷ (codes "Content-Type", codes "application/json")
      ∷ (auth_headers ++ extra_headers);
  params = draft.params;
  body = draft.body;
}

module _ {S E Q U N : Type 0} (world : World S E Q) (crate : UrlCrate U)
    (parse_json : Text → Option (Value N)) (parse_http_date : Text → Option ℕ) where
  -- The session after the headers of a response, where the authenticator holds no native session.
  unfoldable pub observed : ℕ → Headers → SessionState → SessionState
  observed now headers session = record {
    jsessionid = or_else (extract_jsessionid_from_headers headers) session.jsessionid;
    form_cookie_header = elim session.form_cookie_header [
      | none ↦ none
      | some cookies ↦ some (merge_cookie_header parse_http_date now cookies headers)
    ];
    native_form_bootstrapped = session.native_form_bootstrapped;
    form_session = session.form_session;
  }

  unfoldable pub observe_session : Headers → Action S E (Unit {0})
  observe_session headers client = (
    ok tt,
    record {
      base_url = client.base_url;
      policy = client.policy;
      session =
          if world.has_native_session client.world
          then client.session
          else observed (world.now client.world) headers client.session;
      world = client.world;
      events = client.events;
    },
  )

  -- `SnowClient::observe_session_response_headers`
  unfoldable pub observe_session_response_headers : Headers → Action S E (Unit {0})
  observe_session_response_headers headers =
      call transport (world.observe_response_headers headers) >>= λ _. observe_session headers

  -- The end of the loop's body: a status of success, or an error made of the body.
  unfoldable pub conclude : Text → Response → Result (ClientError E) Response
  conclude base_url response =
      if is_success response.status
      then ok response
      else err (api (from_status parse_json response.status base_url response.content))

  -- The loop's body up to the response's status.
  unfoldable pub send : Draft → List (Text × Text) → Action S E Response
  send draft extra_headers = do
    auth_headers ← call authentication world.authenticate
    request ← λ client. (
      elim (world.build (with_auth draft auth_headers extra_headers)) [
        | err e ↦ err (transport e)
        | ok request ↦ ok request
      ],
      client,
    )
    _ ← log (sent (with_auth draft auth_headers extra_headers))
    response ← call transport (world.execute request)
    _ ← log (answered response.status)
    _ ← observe_session_response_headers response.response_headers
    return response

  unfoldable pub finish : Response → Action S E Response
  finish response client = (conclude client.base_url response, client)

  -- What follows a refused authentication with a retry left: `again` is the loop's next pass.
  unfoldable pub renew : Action S E Response → Response → Bool → Action S E Response
  renew again response renewed =
      log (refreshed renewed) >>= λ _. if renewed then again else finish response

  unfoldable pub settle : Action S E Response → Response → Action S E Response
  settle again response =
      if response.status == 401
      then call authentication world.refresh >>= renew again response
      else finish response

  -- The loop, by the number of retries that are left.
  unfoldable pub attempts : ℕ → Draft → List (Text × Text) → Action S E Response
  attempts zero draft extra_headers = send draft extra_headers >>= finish
  attempts (suc left) draft extra_headers =
      send draft extra_headers >>= settle (attempts left draft extra_headers)

  -- `SnowClient::authorize_instance_request`
  unfoldable pub authorize_instance_request : Method → Text → Client S → Result (ClientError E) Text
  authorize_instance_request method path client =
      elim (ensure_request_allowed client.policy method path) [
        | err e ↦ err (denied e)
        | ok _ ↦ elim (resolve_authenticated_url crate client.base_url path) [
          | err e ↦ err (refused_url e)
          | ok url ↦ ok url
        ]
      ]

  unfoldable pub request_inner :
      Method → Text → Option Text → Params → List (Text × Text) → Action S E Response
  request_inner method path body params extra_headers =
      (λ client. (authorize_instance_request method path client, client)) >>= λ url.
      attempts max_auth_retries
        (record { method = method; url = url; headers = []; params = params; body = body })
        extra_headers

  unfoldable pub request_with_headers :
      Method → Text → Option Text → Params → List (Text × Text) → Action S E Response
  request_with_headers method path body params extra_headers =
      (λ client. (
        elim (ensure_raw_api_headers_allowed client.policy method extra_headers) [
          | err e ↦ err (denied e)
          | ok _ ↦ ok tt
        ],
        client,
      ))
      >>= λ _. request_inner method path body params extra_headers

  unfoldable pub request : Method → Text → Option Text → Params → Action S E Response
  request method path body params = request_inner method path body params []

  -- `SnowClient::get` and its siblings
  unfoldable pub get : Text → Action S E Response
  get path = request (codes "GET") path none []

  unfoldable pub get_with_params : Text → Params → Action S E Response
  get_with_params path params = request (codes "GET") path none params

  unfoldable pub post : Text → Text → Action S E Response
  post path body = request (codes "POST") path (some body) []

  unfoldable pub put : Text → Text → Action S E Response
  put path body = request (codes "PUT") path (some body) []

  unfoldable pub patch : Text → Text → Action S E Response
  patch path body = request (codes "PATCH") path (some body) []

  unfoldable pub delete : Text → Action S E Response
  delete path = request (codes "DELETE") path none []
