-- ===== src/Transport/Drafts.antt =====
-- The requests among the events of a run (client/transport.rs), beside the draft they are made of.
use snow_cli.Base.{
  length-append, All-append, sym, subst, false, length, arith, All, ℕ, ap, Result, Option, Text,
  List, [], ◌≤◌, refl, ◌++◌, ◌∷◌, true, suc, ok, ◌≡◌,
}
use snow_cli.Transport.{
  is_success, conclude, Response, ClientError, with_auth, Event, sent, answered, refreshed, Draft,
  World,
}
use snow_cli.Transport.Runs.{Sends, unauthenticated, unbuilt, lost, unread, received}
use snow_cli.Transport.Laws.{Run, failed, settled, refresh_failed, not_renewed, renewed}
use snow_cli.Origin.{UrlCrate}
use snow_cli.Json.{Value}

-- The requests among the events.
unfoldable pub drafts : List Event → List Draft
drafts [] = []
drafts (sent draft ∷ events) = draft ∷ drafts events
drafts (answered status ∷ events) = drafts events
drafts (refreshed done ∷ events) = drafts events

drafts-append : (xs ys : List Event) → drafts (xs ++ ys) ≡ drafts xs ++ drafts ys
unfolding drafts
drafts-append [] ys = refl
drafts-append (sent draft ∷ xs) ys = ap (λ ds. draft ∷ ds) (drafts-append xs ys)
drafts-append (answered status ∷ xs) ys = drafts-append xs ys
drafts-append (refreshed done ∷ xs) ys = drafts-append xs ys

-- A request that differs from the draft in the headers of the authenticator at most.
abbrev pub IsMade : Draft → List (Text × Text) → Draft → Type 0
IsMade draft extra made = (auth : List (Text × Text)) × (made ≡ with_auth draft auth extra)

-- So many requests at most, each made from the draft.
abbrev pub AreMade : Draft → List (Text × Text) → ℕ → List Draft → Type 0
AreMade draft extra n made = All (IsMade draft extra) made × (length made ≤ n)

Sends-drafts :
    {S E Q : Type 0} (world : World S E Q) (draft : Draft) (extra : List (Text × Text)) {s t : S}
    {events : List Event} {result : Result (ClientError E) Response}
    → Sends world draft extra s events result t
    → AreMade draft extra 1 (drafts events)
unfolding drafts
Sends-drafts world draft extra (unauthenticated e _) = (tt, ground arith)
Sends-drafts world draft extra (unbuilt auth e _ _) = (tt, ground arith)
Sends-drafts world draft extra (lost auth request e _ _ _) = (((auth, refl), tt), ground arith)
Sends-drafts world draft extra (unread auth request response e _ _ _ _) =
    (((auth, refl), tt), ground arith)
Sends-drafts world draft extra (received auth request response u _ _ _ _) =
    (((auth, refl), tt), ground arith)

append-AreMade :
    (draft : Draft) (extra : List (Text × Text)) (n : ℕ) (events more : List Event)
    → AreMade draft extra 1 (drafts events)
    → AreMade draft extra n (drafts more)
    → AreMade draft extra (suc n) (drafts (events ++ more))
append-AreMade draft extra n events more first rest =
    subst (AreMade draft extra (suc n)) (sym (drafts-append events more)) (
      All-append (IsMade draft extra) (drafts events) (drafts more) first.0 rest.0,
      ground (arith, length-append (drafts events) (drafts more)),
    )

module _ {S E Q U N : Type 0} (world : World S E Q) (crate : UrlCrate U)
    (parse_json : Text → Option (Value N)) (parse_http_date : Text → Option ℕ) where
  pub Run-drafts :
      (base_url : Text) (draft : Draft) (extra : List (Text × Text)) {left : ℕ} {s t : S}
      {events : List Event} {result : Result (ClientError E) Response}
      → Run world crate parse_json parse_http_date base_url draft extra left s events result t
      → AreMade draft extra (suc left) (drafts events)
  unfolding drafts
  Run-drafts base_url draft extra (failed left sends) =
      let (made, few) = Sends-drafts world draft extra sends in (made, ground arith)
  Run-drafts base_url draft extra (settled left response sends stops) =
      let (made, few) = Sends-drafts world draft extra sends in (made, ground arith)
  Run-drafts base_url draft extra (refresh_failed left response e sends refused outcome) =
      let (made, few) = Sends-drafts world draft extra sends in (made, ground arith)
  Run-drafts base_url draft extra (not_renewed left {events} response sends refused outcome) =
      append-AreMade draft extra (suc left) events (refreshed false ∷ [])
        (Sends-drafts world draft extra sends) (tt, ground arith)
  Run-drafts base_url draft extra
        (renewed left {events} {more} response sends refused outcome run) =
      append-AreMade draft extra (suc left) events (refreshed true ∷ more)
        (Sends-drafts world draft extra sends) (Run-drafts base_url draft extra run)

  pub Run-ok :
      (base_url : Text) (draft : Draft) (extra : List (Text × Text)) {left : ℕ} {s t : S}
      {events : List Event} {result : Result (ClientError E) Response}
      → Run world crate parse_json parse_http_date base_url draft extra left s events result t
      → (response : Response) → result ≡ ok response
      → is_success response.status ≡ true
  unfolding conclude
  Run-ok base_url draft extra (failed left sends) response h = absurd (ground arith)
  Run-ok base_url draft extra (settled left answer sends stops) response h = ground arith
  Run-ok base_url draft extra (refresh_failed left answer e sends refused outcome) response h =
      absurd (ground arith)
  Run-ok base_url draft extra (not_renewed left answer sends refused outcome) response h =
      ground arith
  Run-ok base_url draft extra (renewed left answer sends refused outcome run) response h =
      Run-ok base_url draft extra run response h
