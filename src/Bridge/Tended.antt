-- ===== src/Bridge/Tended.antt =====
-- Who sees to it that a request of snu/bridge.rs ends when its connection does.
use snow_cli.Base.{
  arith, All, All-weaken, All-append, any, Bool, ℕ, List, Result, Option, ◌==◌, ◌||◌, ◌∷◌, [],
  false, true, ok, err, none, some, ◌≡◌, refl,
}
use snow_cli.Origin.{UrlCrate, option_eq}
use snow_cli.Bridge.Messages.{SnuMessage, RequestError, disconnected, Matcher, matches, session}
use snow_cli.Bridge.State.{
  Inner, Task, Runner, Request, Waiter, drain_waiters, close_channel, push_waiter, answer_all,
  is_of, installing, replacing, resetting, greeting, showing, marking, detaching, disconnecting,
  failing, capturing, forwarding, routing, requesting, awaiting_session, bannering, sweeping,
  probing, settling_legacy, settling_gated, fail_waiters_for_generation, send_frame,
}
use snow_cli.Bridge.Steps.{Readers, run_task, replaced, detach_connection, request_under_lock}
use snow_cli.Bridge.Cases.{
  request_cases, banner_cases, send_banner_cases, forward_cases, detach_cases, probe_cases,
}
use snow_cli.Bridge.Waiters.{drain_waiters-All, keep_open-All, close_channel-All}

-- The task is about to fail the requests of the generation.
abbrev pub fails : {N : Type 0} → ℕ → Task N → Bool
fails g (replacing previous generation) = previous == g
fails g (disconnecting runner generation) = generation == g
fails g (failing runner generation) = generation == g
fails g _ = false

abbrev tended_on : Option ℕ → (ℕ → Bool) → Option ℕ → Bool
tended_on conn others none = true
tended_on conn others (some g) = option_eq ◌==◌ conn (some g) || others g

-- The waiter waits for no connection in particular, or for the present one, or for one that `others`
-- names.
abbrev pub is_tended : Option ℕ → (ℕ → Bool) → Waiter → Bool
is_tended conn others waiter = tended_on conn others waiter.waits_on

abbrev pub AreTended : Option ℕ → (ℕ → Bool) → List Waiter → Type 0
AreTended conn others waiters = All (λ waiter. is_tended conn others waiter ≡ true) waiters

tended_on_weaken :
    (conn conn' : Option ℕ) (others others' : ℕ → Bool) (waits_on : Option ℕ)
    → ((g : ℕ)
        → waits_on ≡ some g
        → (option_eq ◌==◌ conn (some g) || others g) ≡ true
        → (option_eq ◌==◌ conn' (some g) || others' g) ≡ true)
    → tended_on conn others waits_on ≡ true
    → tended_on conn' others' waits_on ≡ true
tended_on_weaken conn conn' others others' none given h = refl
tended_on_weaken conn conn' others others' (some g) given h = given g refl h

pub AreTended-weaken :
    (conn conn' : Option ℕ) (others others' : ℕ → Bool) (waiters : List Waiter)
    → ((g : ℕ)
        → (option_eq ◌==◌ conn (some g) || others g) ≡ true
        → (option_eq ◌==◌ conn' (some g) || others' g) ≡ true)
    → AreTended conn others waiters
    → AreTended conn' others' waiters
AreTended-weaken conn conn' others others' waiters given h =
    All-weaken (λ waiter. is_tended conn others waiter ≡ true)
      (λ waiter. is_tended conn' others' waiter ≡ true)
      (λ waiter k.
        tended_on_weaken conn conn' others others' waiter.waits_on (λ g _ e. given g e) k)
      waiters h

-- Failing a generation leaves no waiter of it.
fail-AreTended :
    {N : Type 0} (generation : ℕ) (inner : Inner N) (rest : ℕ → Bool)
    → AreTended inner.conn (λ g. (generation == g) || rest g) inner.waiters
    → AreTended inner.conn rest (fail_waiters_for_generation generation inner).waiters
unfolding fail_waiters_for_generation
fail-AreTended generation inner rest h =
    let P : Waiter → Type 0 =
      λ waiter. is_tended inner.conn (λ g. (generation == g) || rest g) waiter ≡ true in
    All-weaken (λ waiter. P waiter × (is_of generation waiter ≡ false))
      (λ waiter. is_tended inner.conn rest waiter ≡ true)
      (λ waiter k.
        tended_on_weaken inner.conn inner.conn (λ g. (generation == g) || rest g) rest
          waiter.waits_on (λ g same e. ground arith) k.0)
      (drain_waiters (is_of generation) (err disconnected) inner.waiters inner.answers).0
      (drain_waiters-All (is_of generation) (err disconnected) P inner.waiters inner.answers h)

push_waiter-AreTended :
    {N : Type 0} (waits_on : Option ℕ) (matcher : Matcher) (inner : Inner N) (others : ℕ → Bool)
    → tended_on inner.conn others waits_on ≡ true
    → AreTended inner.conn others inner.waiters
    → AreTended inner.conn others (push_waiter waits_on matcher inner).waiters
unfolding push_waiter
push_waiter-AreTended waits_on matcher inner others tended h =
    All-append (λ waiter. is_tended inner.conn others waiter ≡ true) inner.waiters _ h (tended, tt)

pub close_channel-AreTended :
    (channel : ℕ) (conn : Option ℕ) (others : ℕ → Bool) (waiters : List Waiter)
    → AreTended conn others waiters
    → AreTended conn others (close_channel channel waiters)
close_channel-AreTended channel conn others waiters h =
    close_channel-All (λ waiter. is_tended conn others waiter ≡ true) (λ waiter k. k) channel
      waiters h

module _ {N : Type 0} (rest : ℕ → Bool) where
  -- What a step of a task leaves to the others and to what it does next.
  abbrev Leaves : Inner N × List (Task N) → Type 0
  Leaves out = AreTended out.0.conn (λ g. any (fails g) out.1 || rest g) out.0.waiters

  abbrev IsLeft : Inner N → Type 0
  IsLeft inner = AreTended inner.conn rest inner.waiters

  request-IsLeft :
      (request : Request N) (writer_lives : Bool) (inner : Inner N)
      → IsLeft inner
      → IsLeft (request_under_lock request writer_lives inner.conn inner)
  unfolding send_frame push_waiter
  request-IsLeft request writer_lives inner h =
      request_cases IsLeft inner request writer_lives inner.conn h (λ generation same _ _.
        let pushed =
          push_waiter-AreTended (some generation) request.awaited inner rest
            (rw same (ground arith)) h in
        (
          pushed,
          close_channel-AreTended inner.channels inner.conn rest
              (push_waiter (some generation) request.awaited inner).waiters pushed,
        ))

  route-IsLeft :
      (chosen : Waiter → Bool) (result : Result RequestError (SnuMessage N)) (inner : Inner N)
      → IsLeft inner
      → IsLeft (answer_all chosen result inner)
  route-IsLeft chosen result inner h =
      All-weaken (λ waiter. (is_tended inner.conn rest waiter ≡ true) × (chosen waiter ≡ false))
        (λ waiter. is_tended inner.conn rest waiter ≡ true) (λ waiter k. k.0)
        (drain_waiters chosen result inner.waiters inner.answers).0
        (drain_waiters-All chosen result (λ waiter. is_tended inner.conn rest waiter ≡ true)
          inner.waiters inner.answers h)

  install-Leaves :
      (generation : ℕ) (inner : Inner N) (conn : Option ℕ)
      → AreTended conn rest inner.waiters
      → Leaves (record inner { conn = some generation }, replaced conn generation)
  install-Leaves generation inner none h =
      AreTended-weaken none (some generation) rest rest inner.waiters (λ g e. ground arith) h
  install-Leaves generation inner (some previous) h =
      AreTended-weaken (some previous) (some generation) rest
        (λ g. any (fails {N = N} g) (replacing previous generation ∷ []) || rest g) inner.waiters
        (λ g e. ground arith) h

  detach-Leaves :
      (runner : Runner) (generation : ℕ) (inner : Inner N)
      → IsLeft inner
      → Leaves (detach_connection runner generation inner.conn inner)
  detach-Leaves runner generation inner h =
      detach_cases Leaves inner runner generation inner.conn h (λ same.
        AreTended-weaken inner.conn none rest
          (λ g. any (fails {N = N} g) (disconnecting runner generation ∷ []) || rest g)
          inner.waiters (λ g e. ground arith) h)

module _ {N U : Type 0} (crate : UrlCrate U) (readers : Readers N) (rest : ℕ → Bool) where
  pub run_task-Leaves :
      (task : Task N) (inner : Inner N)
      → AreTended inner.conn (λ g. fails g task || rest g) inner.waiters
      → Leaves rest (run_task crate readers task inner)
  unfolding run_task send_frame fail_waiters_for_generation push_waiter
  run_task-Leaves (installing generation) inner h =
      install-Leaves rest generation inner inner.conn h
  run_task-Leaves (replacing previous generation) inner h = fail-AreTended previous inner rest h
  run_task-Leaves (resetting generation) inner h = h
  run_task-Leaves (greeting generation) inner h = h
  run_task-Leaves (showing generation) inner h =
      banner_cases (IsLeft rest) inner generation inner.pending_banner h (λ _. h)
  run_task-Leaves (marking generation) inner h = h
  run_task-Leaves (detaching runner generation) inner h =
      detach-Leaves rest runner generation inner h
  run_task-Leaves (disconnecting runner generation) inner h =
      AreTended-weaken inner.conn inner.conn (λ g. (generation == g) || rest g)
        (λ g. any (fails {N = N} g) (failing runner generation ∷ []) || rest g) inner.waiters
        (λ g e. ground arith) h
  run_task-Leaves (failing runner generation) inner h = fail-AreTended generation inner rest h
  run_task-Leaves (capturing message generation) inner h = h
  run_task-Leaves (forwarding message generation) inner h =
      forward_cases (IsLeft rest) inner message h (λ _. h)
  run_task-Leaves (routing message generation) inner h =
      route-IsLeft rest (λ waiter. matches crate waiter.matcher message) (ok message) inner h
  run_task-Leaves (requesting request writer_lives) inner h =
      request-IsLeft rest request writer_lives inner h
  run_task-Leaves (awaiting_session target) inner h =
      push_waiter-AreTended none (session target) inner rest refl h
  run_task-Leaves (bannering message) inner h =
      send_banner_cases (IsLeft rest) inner message inner.conn h (λ _. h)
  run_task-Leaves (sweeping stale) inner h =
      keep_open-All (λ waiter. is_tended inner.conn rest waiter ≡ true) inner.waiters h
  run_task-Leaves (probing stale) inner h =
      probe_cases (Leaves rest) inner stale inner.conn h (λ _. (h, h))
  run_task-Leaves (settling_legacy before) inner h = h
  run_task-Leaves (settling_gated before snapshots) inner h = h
