-- ===== src/Transport/Requests.antt =====
-- What a whole request promises, under either policy.
use snow_cli.Base.{
  ◌≢◌, All-weaken, append-nil, ◌∙◌, inr, inl, ◌⊎◌, err, sym, subst, length, arith, All, ℕ, ap,
  Result, Option, Text, List, [], ◌≤◌, refl, ◌++◌, ◌∷◌, true, ok, ◌≡◌,
}
use snow_cli.Transport.{
  request_with_headers, attempts, max_auth_retries, Client, is_success, Response, ClientError,
  Event, Draft, World, request_inner, authorize_instance_request,
}
use snow_cli.Transport.Runs.{IsAfter, bind_cases}
use snow_cli.Transport.Laws.{Run, attempts-Run}
use snow_cli.Origin.{resolve_authenticated_url, UrlCrate}
use snow_cli.Origin.Laws.{IsResolved, resolve_authenticated_url_iff}
use snow_cli.Policy.Laws.{
  ensure_raw_api_headers_allowed_iff, IsPlainHeader, ensure_request_allowed_lem,
}
use snow_cli.Json.{Value}
use snow_cli.Policy.{
  ensure_raw_api_headers_allowed, read_only, ensure_request_allowed, method_get, full_access,
  Method,
}
use snow_cli.Table.{Params}
use snow_cli.Transport.Drafts.{drafts, IsMade, Run-drafts, Run-ok}

module _ {S E Q U N : Type 0} (world : World S E Q) (crate : UrlCrate U)
    (parse_json : Text → Option (Value N)) (parse_http_date : Text → Option ℕ) where
  -- The draft of a request, without the headers.
  abbrev pub draft_of : Method → Text → Params → Option Text → Draft
  draft_of method url params body = record {
    method = method;
    url = url;
    headers = [];
    params = params;
    body = body;
  }

  -- The end of a request that is refused, or one that is sent to the URL.
  abbrev pub IsRequest :
      Method
      → Text
      → Option Text
      → Params
      → List (Text × Text)
      → Client S
      → Result (ClientError E) Response × Client S
      → Type 0
  IsRequest method path body params extra client out =
      ((e : ClientError E) × (authorize_instance_request world crate parse_json parse_http_date
            method path client
          ≡ err e)
        × (out ≡ (err e, client)))
      ⊎ ((url : Text) × (authorize_instance_request world crate parse_json parse_http_date method
              path client
            ≡ ok url)
          × IsAfter client
              (Run world crate parse_json parse_http_date client.base_url
                (draft_of method url params body) extra max_auth_retries)
              out)

  -- A request with its retry either is refused before anything is sent, by the policy or because the
  -- URL is not one of the instance, and then nothing changes; or it goes by a run with one retry to its
  -- URL. In a run the authenticator gives its headers, the request is built and sent, and the headers of
  -- the answer are observed, each from the state of the world that the last step left. If a step fails,
  -- its error is the result. If the answer is 401 and the retry is left, the credentials are refreshed:
  -- if that fails, its error is the result; only if they were renewed is the request sent again, as
  -- before. Every other answer, also a 401 that is not renewed or comes to the retry, is the last one,
  -- and the result is what it is concluded to.
  pub request_inner-Run :
      (method : Method) (path : Text) (body : Option Text) (params : Params)
      (extra : List (Text × Text)) (client : Client S)
      → IsRequest method path body params extra client (
          request_inner world crate parse_json parse_http_date method path body params extra client)
  unfolding request_inner
  request_inner-Run method path body params extra client =
      bind_cases (IsRequest method path body params extra client)
        (λ c. (authorize_instance_request world crate parse_json parse_http_date method path c, c))
        (λ url.
          attempts world crate parse_json parse_http_date max_auth_retries
            (draft_of method url params body) extra)
        client (λ e h. inl (e, h, refl))
        (λ url h. inr (
          url,
          h,
          attempts-Run world crate parse_json parse_http_date max_auth_retries
              (draft_of method url params body) extra client,
        ))

  authorize_lem :
      (method : Method) (path url : Text) (client : Client S)
      → authorize_instance_request world crate parse_json parse_http_date method path client
        ≡ ok url
      → ((client.policy.mode ≡ full_access) ⊎ (method ≡ method_get))
        × IsResolved crate client.base_url path url
  unfolding authorize_instance_request
  authorize_lem method path url client h =
      let allowed = ensure_request_allowed client.policy method path in
      let resolved = resolve_authenticated_url crate client.base_url path in
      let parts : (allowed ≡ ok tt) × (resolved ≡ ok url) = ground arith in
      (
        (ensure_request_allowed_lem client.policy method path).0.0 parts.0,
        (resolve_authenticated_url_iff crate client.base_url path url).0 parts.1,
      )

  -- A request that may be sent for the given one.
  abbrev pub IsSafeDraft : Method → Text → Option Text → Params → Client S → Draft → Type 0
  IsSafeDraft method path body params client made =
      (made.method ≡ method)
      × (made.params ≡ params)
      × (made.body ≡ body)
      × ((client.policy.mode ≡ full_access) ⊎ (made.method ≡ method_get))
      × IsResolved crate client.base_url path made.url

  -- Every request that is sent has the given method, parameters and body, and a URL of the instance:
  -- the instance's URL and the request's are safe and have the same scheme, host and port. Under the
  -- read-only policy its method is GET. At most two requests are sent, and a response that is returned
  -- has a status of success.
  pub request_inner-IsSafe :
      (method : Method) (path : Text) (body : Option Text) (params : Params)
      (extra : List (Text × Text)) (client : Client S)
      → let out =
          request_inner world crate parse_json parse_http_date method path body params extra
            client in
        (events : List Event) × (out.1.events ≡ client.events ++ events)
        × (length (drafts events) ≤ 2)
        × All (IsSafeDraft method path body params client) (drafts events)
        × ((response : Response) → out.0 ≡ ok response → is_success response.status ≡ true)
  unfolding drafts
  request_inner-IsSafe method path body params extra client =
      elim (request_inner-Run method path body params extra client) [
        | inl (e, refused, same) ↦ (
          [],
          ap (λ out. out.1.events) same ∙ sym (append-nil client.events),
          ground arith,
          tt,
          λ response h. absurd (ground arith),
        )
        | inr (url, authorized, after) ↦
            let (events, same, run, base, policy) = after in
            let (made, few) =
              Run-drafts world crate parse_json parse_http_date client.base_url
                (draft_of method url params body) extra run in
            let (allowed, resolved) = authorize_lem method path url client authorized in
            (
              events,
              same,
              few,
              All-weaken (IsMade (draft_of method url params body) extra)
                  (IsSafeDraft method path body params client)
                  (λ draft h.
                    subst (IsSafeDraft method path body params client) (sym h.1)
                      (refl, refl, refl, allowed, resolved))
                  (drafts events) made,
              Run-ok world crate parse_json parse_http_date client.base_url
                  (draft_of method url params body) extra run,
            )
      ]

  -- What a raw request in read-only mode has added.
  abbrev pub IsRawRead :
      Method → List (Text × Text) → Client S → Result (ClientError E) Response × Client S → Type 0
  IsRawRead method extra client out =
      (events : List Event) × (out.1.events ≡ client.events ++ events)
      × ((drafts events ≡ []) ⊎ ((method ≡ method_get) × All IsPlainHeader extra))

  -- Under the read-only policy a raw request either sends nothing, or its method is GET and none of its
  -- headers overrides the method.
  pub request_with_headers-IsRawRead :
      (method : Method) (path : Text) (body : Option Text) (params : Params)
      (extra : List (Text × Text)) (client : Client S)
      → client.policy.mode ≡ read_only
      → IsRawRead method extra client (
          request_with_headers world crate parse_json parse_http_date method path body params extra
            client)
  unfolding request_with_headers drafts
  request_with_headers-IsRawRead method path body params extra client reader_mode =
      bind_cases (IsRawRead method extra client) _
        (λ _. request_inner world crate parse_json parse_http_date method path body params extra)
        client (λ e h. ([], sym (append-nil client.events), inl refl))
        (λ _ h.
          let (events, same, few, safe, success) =
            request_inner-IsSafe method path body params extra client in
          let headers = ensure_raw_api_headers_allowed client.policy method extra in
          let checked : headers ≡ ok tt = ground arith in
          (
            events,
            same,
            by_drafts (drafts events) safe
                ((ensure_raw_api_headers_allowed_iff client.policy method extra).0 checked),
          ))
    where
      by_drafts :
          (made : List Draft)
          → All (IsSafeDraft method path body params client) made
          → (client.policy.mode ≡ full_access) ⊎ (method ≢ method_get) ⊎ All IsPlainHeader extra
          → (made ≡ []) ⊎ ((method ≡ method_get) × All IsPlainHeader extra)
      by_drafts [] safe plain = inl refl
      by_drafts (draft ∷ made) safe plain =
          let (same_method, _, _, allowed, _) = safe.0 in
          let is_get : method ≡ method_get = ground arith in
          elim plain [
            | inl full ↦ absurd (ground arith)
            | inr (inl other) ↦ absurd (other is_get)
            | inr (inr headers) ↦ inr (is_get, headers)
          ]
