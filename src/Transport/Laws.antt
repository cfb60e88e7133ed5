-- ===== src/Transport/Laws.antt =====
-- What every request keeps to.
use snow_cli.Base.{
  append_assoc, ap, arith, inr, ◌∙◌, Bool, sym, inl, if◌then◌else◌, ◌==◌, refl, subst, Result, List,
  ℕ, Option, Text, [], ◌⊎◌, ◌++◌, ◌∷◌, ◌≢◌, false, true, suc, zero, err, ok, ◌≡◌,
}
use snow_cli.Transport.{
  log, renew, authentication, call, Action, settle, conclude, Response, send, ClientError, Client,
  finish, Event, refreshed, Draft, World, ◌>>=◌, attempts,
}
use snow_cli.Transport.Runs.{call_cases, Sends, IsAfter, bind_cases, send-Sends}
use snow_cli.Origin.{UrlCrate}
use snow_cli.Json.{Value}

module _ {S E Q U N : Type 0} (world : World S E Q) (crate : UrlCrate U)
    (parse_json : Text → Option (Value N)) (parse_http_date : Text → Option ℕ) where
  -- The runs of the loop with so many retries left, by the state of the world before, the events, the
  -- result and the state after. The refresh is done from the state that the refused answer has left,
  -- and the retry goes on from the state that the refresh has left.
  pub data Run (base_url : Text) (draft : Draft) (extra : List (Text × Text))
      : ℕ → S → List Event → Result (ClientError E) Response → S → Type 0 where
    failed :
        (left : ℕ) {s t : S} {events : List Event} {e : ClientError E}
        → Sends world draft extra s events (err e) t
        → Run base_url draft extra left s events (err e) t
    settled :
        (left : ℕ) {s t : S} {events : List Event} (response : Response)
        → Sends world draft extra s events (ok response) t
        → (left ≡ 0) ⊎ (response.status ≢ 401)
        → Run base_url draft extra left s events
            (conclude world crate parse_json parse_http_date base_url response)
            t
    refresh_failed :
        (left : ℕ) {s t : S} {events : List Event} (response : Response) (e : E)
        → Sends world draft extra s events (ok response) t
        → response.status ≡ 401
        → (world.refresh t).0 ≡ err e
        → Run base_url draft extra (suc left) s events (err (authentication e)) (world.refresh t).1
    not_renewed :
        (left : ℕ) {s t : S} {events : List Event} (response : Response)
        → Sends world draft extra s events (ok response) t
        → response.status ≡ 401
        → (world.refresh t).0 ≡ ok false
        → Run base_url draft extra
            (suc left)
            s
            (events ++ refreshed false ∷ [])
            (conclude world crate parse_json parse_http_date base_url response)
            (world.refresh t).1
    renewed :
        (left : ℕ) {s t u : S} {events more : List Event} (response : Response)
        {result : Result (ClientError E) Response}
        → Sends world draft extra s events (ok response) t
        → response.status ≡ 401
        → (world.refresh t).0 ≡ ok true
        → Run base_url draft extra left (world.refresh t).1 more result u
        → Run base_url draft extra (suc left) s (events ++ refreshed true ∷ more) result u

  finish-Run :
      (left : ℕ) (draft : Draft) (extra : List (Text × Text)) (start client : Client S)
      (response : Response) {events : List Event}
      → client.base_url ≡ start.base_url
      → Sends world draft extra start.world events (ok response) client.world
      → (left ≡ 0) ⊎ (response.status ≢ 401)
      → Run start.base_url draft extra left start.world events
          (finish world crate parse_json parse_http_date response client).0
          client.world
  unfolding finish
  finish-Run left draft extra start client response {events} base sends stops =
      subst
        (λ url.
          Run start.base_url draft extra left start.world events
            (conclude world crate parse_json parse_http_date url response) client.world)
        (sym base) (settled left response sends stops)

  renew-Run :
      (left : ℕ) (draft : Draft) (extra : List (Text × Text)) (start client : Client S)
      (response : Response) (events : List Event) (again : Action S E Response) (renewed : Bool)
      → ((next : Client S) → IsAfter next (Run next.base_url draft extra left) (again next))
      → client.events ≡ start.events ++ events
      → Sends world draft extra start.world events (ok response) client.world
      → response.status ≡ 401
      → (world.refresh client.world).0 ≡ ok renewed
      → client.base_url ≡ start.base_url
      → client.policy ≡ start.policy
      → IsAfter start (Run start.base_url draft extra (suc left)) (
          renew world crate parse_json parse_http_date again response renewed
            (call {E = E} authentication world.refresh client).1)
  unfolding renew finish
  renew-Run left draft extra start client response events again false step same sends refused
        outcome base policy =
      bind_cases (IsAfter start (Run start.base_url draft extra (suc left))) (log (refreshed false))
        (λ _. finish world crate parse_json parse_http_date response)
        (call {E = E} authentication world.refresh client).1 (λ e k. absurd (ground arith))
        (λ _ k. (
          events ++ refreshed false ∷ [],
          ap (λ xs. xs ++ refreshed false ∷ []) same ∙ append_assoc start.events events _,
          subst
              (λ url.
                Run start.base_url draft extra (suc left) start.world
                  (events ++ refreshed false ∷ [])
                  (conclude world crate parse_json parse_http_date url response)
                  (world.refresh client.world).1)
              (sym base) (not_renewed left response sends refused outcome),
          base,
          policy,
        ))
  renew-Run left draft extra start client response events again true step same sends refused outcome
        base policy =
      bind_cases (IsAfter start (Run start.base_url draft extra (suc left))) (log (refreshed true))
        (λ _. again) (call {E = E} authentication world.refresh client).1
        (λ e k. absurd (ground arith))
        (λ _ k.
          let next =
            (log {E = E} (refreshed true) (call {E = E} authentication world.refresh client).1).1 in
          let (more, same', run, base', policy') = step next in
          (
            events ++ refreshed true ∷ more,
            same'
                ∙ (ap (λ xs. (xs ++ refreshed true ∷ []) ++ more) same
                    ∙ (append_assoc (start.events ++ events) (refreshed true ∷ []) more
                        ∙ append_assoc start.events events (refreshed true ∷ more))),
            renewed left response sends refused outcome (
                subst
                  (λ url.
                    Run url draft extra left (world.refresh client.world).1 more (again next).0
                      (again next).1.world)
                  base run),
            base' ∙ base,
            policy' ∙ policy,
          ))

  settle-Run :
      (left : ℕ) (draft : Draft) (extra : List (Text × Text)) (start client : Client S)
      (response : Response) (events : List Event) (again : Action S E Response)
      → ((next : Client S) → IsAfter next (Run next.base_url draft extra left) (again next))
      → client.events ≡ start.events ++ events
      → Sends world draft extra start.world events (ok response) client.world
      → client.base_url ≡ start.base_url
      → client.policy ≡ start.policy
      → IsAfter start
          (Run start.base_url draft extra (suc left))
          (settle world crate parse_json parse_http_date again response client)
  unfolding settle finish
  settle-Run left draft extra start client response events again step same sends base policy =
      by_status (response.status == 401) refl
    where
      by_status :
          (b : Bool)
          → (response.status == 401) ≡ b
          → IsAfter start (Run start.base_url draft extra (suc left)) (
              (if b
                  then call authentication world.refresh
                    >>= renew world crate parse_json parse_http_date again response
                  else finish world crate parse_json parse_http_date response)
                client)
      by_status false h = (
        events,
        same,
        finish-Run (suc left) draft extra start client response base sends (inr (ground arith)),
        base,
        policy,
      )
      by_status true h =
          call_cases (IsAfter start (Run start.base_url draft extra (suc left))) authentication
            world.refresh (renew world crate parse_json parse_http_date again response) client
            (λ e k.
              (events, same, refresh_failed left response e sends (ground arith) k, base, policy))
            (λ renewed k.
              renew-Run left draft extra start client response events again renewed step same sends
                (ground arith) k base policy)

  -- The loop, from any client, adds the events of a run, with its result.
  pub attempts-Run :
      (left : ℕ) (draft : Draft) (extra : List (Text × Text)) (client : Client S)
      → IsAfter client
          (Run client.base_url draft extra left)
          (attempts world crate parse_json parse_http_date left draft extra client)
  unfolding attempts finish
  attempts-Run zero draft extra client =
      let (events, same, sends, base, policy) =
        send-Sends world crate parse_json parse_http_date draft extra client in
      let after = (send world crate parse_json parse_http_date draft extra client).1 in
      bind_cases (IsAfter client (Run client.base_url draft extra zero))
        (send world crate parse_json parse_http_date draft extra)
        (finish world crate parse_json parse_http_date) client
        (λ e h. (
          events,
          same,
          failed zero
              (subst (λ r. Sends world draft extra client.world events r after.world) h sends),
          base,
          policy,
        ))
        (λ response h. (
          events,
          same,
          finish-Run zero draft extra client
              (send world crate parse_json parse_http_date draft extra client).1 response base
              (subst (λ r. Sends world draft extra client.world events r after.world) h sends)
              (inl refl),
          base,
          policy,
        ))
  attempts-Run (suc left) draft extra client =
      let (events, same, sends, base, policy) =
        send-Sends world crate parse_json parse_http_date draft extra client in
      let after = (send world crate parse_json parse_http_date draft extra client).1 in
      bind_cases (IsAfter client (Run client.base_url draft extra (suc left)))
        (send world crate parse_json parse_http_date draft extra)
        (settle world crate parse_json parse_http_date
          (attempts world crate parse_json parse_http_date left draft extra))
        client
        (λ e h. (
          events,
          same,
          failed (suc left)
              (subst (λ r. Sends world draft extra client.world events r after.world) h sends),
          base,
          policy,
        ))
        (λ response h.
          settle-Run left draft extra client
            (send world crate parse_json parse_http_date draft extra client).1 response events _
            (attempts-Run left draft extra) same
            (subst (λ r. Sends world draft extra client.world events r after.world) h sends) base
            policy)
