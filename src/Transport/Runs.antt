-- ===== src/Transport/Runs.antt =====
-- The runs of a request: which events it adds, with which result.
use snow_cli.Base.{
  append_assoc, append-nil, sym, Option, ◌++◌, ℕ, Text, Result, List, [], refl, ◌∷◌, err, ok, ◌≡◌,
}
use snow_cli.Transport.{
  transport, authentication, observe_session, call, send, observe_session_response_headers, resume,
  with_auth, Action, Response, Client, ClientError, Event, sent, answered, Draft, World, ◌>>=◌,
}
use snow_cli.Origin.{UrlCrate}
use snow_cli.Json.{Value}
use snow_cli.Cookies.{Headers}

-- A computation is understood once its two ends are.
pub bind_cases :
    {S E A B : Type 0} (P : Result (ClientError E) B × Client S → Type 0) (action : Action S E A)
    (next : A → Action S E B) (client : Client S)
    → ((e : ClientError E) → (action client).0 ≡ err e → P (err e, (action client).1))
    → ((a : A) → (action client).0 ≡ ok a → P (next a (action client).1))
    → P ((action >>= next) client)
unfolding ◌>>=◌
bind_cases P action next client on_err on_ok = by_result (action client).0 on_err on_ok
  where
    by_result :
        (result : Result (ClientError _) _)
        → ((e : ClientError _) → result ≡ err e → P (err e, (action client).1))
        → ((a : _) → result ≡ ok a → P (next a (action client).1))
        → P (resume next result (action client).1)
    by_result (err e) on_err on_ok = on_err e refl
    by_result (ok a) on_err on_ok = on_ok a refl

-- A call into the world is understood once both of its answers are.
pub call_cases :
    {S E A B : Type 0} (P : Result (ClientError E) B × Client S → Type 0) (wrap : E → ClientError E)
    (operation : S → Result E A × S) (next : A → Action S E B) (client : Client S)
    → ((e : E)
        → (operation client.world).0 ≡ err e
        → P (err (wrap e), (call wrap operation client).1))
    → ((a : A) → (operation client.world).0 ≡ ok a → P (next a (call wrap operation client).1))
    → P ((call wrap operation >>= next) client)
unfolding ◌>>=◌
call_cases {A = A} P wrap operation next client on_err on_ok =
    by_result (operation client.world).0 on_err on_ok
  where
    by_result :
        (result : Result _ A)
        → ((e : _) → result ≡ err e → P (err (wrap e), (call wrap operation client).1))
        → ((a : A) → result ≡ ok a → P (next a (call wrap operation client).1))
        → P (
            resume next
              (elim result [ err e ↦ err (wrap e) | ok a ↦ ok a ])
              (call wrap operation client).1)
    by_result (err e) on_err on_ok = on_err e refl
    by_result (ok a) on_err on_ok = on_ok a refl

-- So is a result of the world that leaves its state.
result_cases :
    {S E A B : Type 0} (P : Result (ClientError E) B × Client S → Type 0) (wrap : E → ClientError E)
    (result : Result E A) (next : A → Action S E B) (client : Client S)
    → ((e : E) → result ≡ err e → P (err (wrap e), client))
    → ((a : A) → result ≡ ok a → P (next a client))
    → P (resume next (elim result [ err e ↦ err (wrap e) | ok a ↦ ok a ]) client)
result_cases P wrap (err e) next client on_err on_ok = on_err e refl
result_cases P wrap (ok a) next client on_err on_ok = on_ok a refl

-- What a computation does: the state of the world before, the events, the result, the state after.
abbrev pub Course : Type 0 → Type 0 → Type 0 → Type 1
Course S E A = S → List Event → Result (ClientError E) A → S → Type 0

-- A computation goes by a course from the client's world on; the instance and the policy stay.
abbrev pub IsAfter :
    {S E A : Type 0} → Client S → Course S E A → Result (ClientError E) A × Client S → Type 0
IsAfter client Q out =
    (events : List Event) × (out.1.events ≡ client.events ++ events)
    × Q client.world events out.0 out.1.world
    × (out.1.base_url ≡ client.base_url)
    × (out.1.policy ≡ client.policy)

module _ {S E Q : Type 0} (world : World S E Q) where
  -- The request is executed once the authenticator has given its headers.
  abbrev pub executed : S → Q → Result E Response × S
  executed s request = world.execute request (world.authenticate s).1

  -- Then the headers of the response are observed.
  abbrev pub seen : S → Q → Response → Result E (Unit {0}) × S
  seen s request response =
      world.observe_response_headers response.response_headers (executed s request).1

module _ {S E Q : Type 0} (world : World S E Q) (draft : Draft) (extra : List (Text × Text)) where
  -- One pass through the loop's body up to the response's status, from a state of the world. An error
  -- is the one with which a step of it failed.
  pub data Sends (s : S) : List Event → Result (ClientError E) Response → S → Type 0 where
    unauthenticated :
        (e : E)
        → (world.authenticate s).0 ≡ err e
        → Sends s [] (err (authentication e)) (world.authenticate s).1
    unbuilt :
        (auth : List (Text × Text)) (e : E)
        → (world.authenticate s).0 ≡ ok auth
        → world.build (with_auth draft auth extra) ≡ err e
        → Sends s [] (err (transport e)) (world.authenticate s).1
    lost :
        (auth : List (Text × Text)) (request : Q) (e : E)
        → (world.authenticate s).0 ≡ ok auth
        → world.build (with_auth draft auth extra) ≡ ok request
        → (executed world s request).0 ≡ err e
        → Sends s
            (sent (with_auth draft auth extra) ∷ [])
            (err (transport e))
            (executed world s request).1
    unread :
        (auth : List (Text × Text)) (request : Q) (response : Response) (e : E)
        → (world.authenticate s).0 ≡ ok auth
        → world.build (with_auth draft auth extra) ≡ ok request
        → (executed world s request).0 ≡ ok response
        → (seen world s request response).0 ≡ err e
        → Sends s
            (sent (with_auth draft auth extra) ∷ answered response.status ∷ [])
            (err (transport e))
            (seen world s request response).1
    received :
        (auth : List (Text × Text)) (request : Q) (response : Response) (u : Unit {0})
        → (world.authenticate s).0 ≡ ok auth
        → world.build (with_auth draft auth extra) ≡ ok request
        → (executed world s request).0 ≡ ok response
        → (seen world s request response).0 ≡ ok u
        → Sends s
            (sent (with_auth draft auth extra) ∷ answered response.status ∷ [])
            (ok response)
            (seen world s request response).1

module _ {S E Q U N : Type 0} (world : World S E Q) (crate : UrlCrate U)
    (parse_json : Text → Option (Value N)) (parse_http_date : Text → Option ℕ) where
  -- The two ends of `observe_session_response_headers`, of which the session is not looked at.
  observe_cases :
      {B : Type 0} (P : Result (ClientError E) B × Client S → Type 0) (headers : Headers)
      (next : Unit {0} → Action S E B) (client : Client S)
      → (let after = call transport (world.observe_response_headers headers) client in
          ((e : E)
            → (world.observe_response_headers headers client.world).0 ≡ err e
            → P (err (transport e), after.1))
          → ((u : Unit {0})
              → (world.observe_response_headers headers client.world).0 ≡ ok u
              → P (
                  next tt
                    (observe_session world crate parse_json parse_http_date headers after.1).1))
          → P (
              (observe_session_response_headers world crate parse_json parse_http_date headers
                  >>= next)
                client))
  unfolding ◌>>=◌ observe_session_response_headers observe_session
  observe_cases {B} P headers next client on_err on_ok =
      by_result (world.observe_response_headers headers client.world).0 on_err on_ok
    where
      after : Client S
      after = (call {E = E} transport (world.observe_response_headers headers) client).1

      by_result :
          (result : Result E (Unit {0}))
          → ((e : E) → result ≡ err e → P (err (transport e), after))
          → ((u : Unit {0})
              → result ≡ ok u
              → P (
                  next tt (observe_session world crate parse_json parse_http_date headers after).1))
          → (let out =
                resume
                  (λ _. observe_session world crate parse_json parse_http_date headers)
                  (elim result [ err e ↦ err (transport e) | ok u ↦ ok u ])
                  after in
              P (resume next out.0 out.1))
      by_result (err e) on_err on_ok = on_err e refl
      by_result (ok u) on_err on_ok = on_ok u refl

  pub send-Sends :
      (draft : Draft) (extra : List (Text × Text)) (client : Client S)
      → IsAfter client
          (Sends world draft extra)
          (send world crate parse_json parse_http_date draft extra client)
  unfolding send ◌>>=◌ observe_session
  send-Sends draft extra client =
      let after = IsAfter client (Sends world draft extra) in
      call_cases after authentication world.authenticate _ client
        (λ e failed. ([], sym (append-nil client.events), unauthenticated e failed, refl, refl))
        (λ auth allowed.
          result_cases after transport (world.build (with_auth draft auth extra)) _ _
            (λ e failed.
              ([], sym (append-nil client.events), unbuilt auth e allowed failed, refl, refl))
            (λ request built.
              call_cases after transport (world.execute request) _ _
                (λ e failed. (
                  sent (with_auth draft auth extra) ∷ [],
                  refl,
                  lost auth request e allowed built failed,
                  refl,
                  refl,
                ))
                (λ response came.
                  observe_cases after response.response_headers _ _
                    (λ e failed. (
                      sent (with_auth draft auth extra) ∷ answered response.status ∷ [],
                      append_assoc client.events _ _,
                      unread auth request response e allowed built came failed,
                      refl,
                      refl,
                    ))
                    (λ u observed. (
                      sent (with_auth draft auth extra) ∷ answered response.status ∷ [],
                      append_assoc client.events _ _,
                      received auth request response u allowed built came observed,
                      refl,
                      refl,
                    )))))
