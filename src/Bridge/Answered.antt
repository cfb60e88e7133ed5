-- ===== src/Bridge/Answered.antt =====
-- Each request of snu/bridge.rs is answered once at most, and with what it waits for.
use snow_cli.Base.{
  arith, All, count-append, Bool, ℕ, Option, Result, ◌∷◌, [], false, true, none, some, ok, err, ◌≡◌,
  refl, sym, subst,
}
use snow_cli.Origin.{UrlCrate}
use snow_cli.Bridge.Messages.{SnuMessage, RequestError, disconnected, Matcher, matches, session}
use snow_cli.Bridge.State.{
  Inner, Task, Request, Waiter, replacing, showing, detaching, failing, forwarding, routing,
  requesting, awaiting_session, bannering, sweeping, probing, send_frame, push_waiter, answer_all,
  fail_waiters_for_generation, close_channel, is_of,
}
use snow_cli.Bridge.Steps.{
  Readers, System, Step, run, cut_off, accept, begin, give_up, reply_ping, bind, Reach, here, next,
  run_task, request_under_lock,
}
use snow_cli.Bridge.Cases.{
  request_cases, banner_cases, send_banner_cases, forward_cases, detach_cases, probe_cases,
}
use snow_cli.Bridge.Answers.{
  IsRight, IsOnce, is_on, count-drain_waiters, drain_waiters-AreRight, count-keep_open,
  count-close_channel,
}

module _ {N U : Type 0} (crate : UrlCrate U) where
  abbrev pub IsAnswered : Inner N → Type 0
  IsAnswered inner =
      All (IsRight crate) inner.answers × IsOnce inner.channels inner.waiters inner.answers

  answer_all-IsAnswered :
      (chosen : Waiter → Bool) (result : Result RequestError (SnuMessage N)) (inner : Inner N)
      → ((waiter : Waiter) → chosen waiter ≡ true → IsRight crate (waiter, result))
      → IsAnswered inner
      → IsAnswered (answer_all chosen result inner)
  answer_all-IsAnswered chosen result inner right h = (
    drain_waiters-AreRight chosen result crate right inner.waiters inner.answers h.0,
    λ c.
        let fewer = count-drain_waiters chosen result c inner.waiters inner.answers in
        let bounds = h.1 c in
        (omega arith, λ unused. let none_yet = bounds.1 unused in omega arith),
  )

  fail-IsAnswered :
      (generation : ℕ) (inner : Inner N)
      → IsAnswered inner
      → IsAnswered (fail_waiters_for_generation generation inner)
  unfolding fail_waiters_for_generation
  fail-IsAnswered generation inner h =
      answer_all-IsAnswered (is_of generation) (err disconnected) inner
        (λ waiter of. (refl, λ waits. ground arith)) h

  push-IsAnswered :
      (waits_on : Option ℕ) (matcher : Matcher) (inner : Inner N)
      → IsAnswered inner
      → IsAnswered (push_waiter waits_on matcher inner)
  unfolding push_waiter
  push-IsAnswered waits_on matcher inner h = (
    h.0,
    λ c.
        let added : Waiter = record {
          channel = inner.channels;
          waits_on = waits_on;
          matcher = matcher;
          closed = false;
        } in
        let bounds = h.1 c in
        let more = count-append (is_on c) inner.waiters (added ∷ []) in
        (ground arith, λ unused. ground arith),
  )

  close-IsAnswered :
      (channel : ℕ) (inner : Inner N)
      → IsAnswered inner
      → IsAnswered (record inner { waiters = close_channel channel inner.waiters })
  close-IsAnswered channel inner h = (
    h.0,
    λ c.
        let same = count-close_channel c channel inner.waiters in
        let bounds = h.1 c in
        (omega arith, λ unused. let none_yet = bounds.1 unused in omega arith),
  )

  request-IsAnswered :
      (request : Request N) (writer_lives : Bool) (inner : Inner N)
      → IsAnswered inner
      → IsAnswered (request_under_lock request writer_lives inner.conn inner)
  unfolding send_frame
  request-IsAnswered request writer_lives inner h =
      request_cases IsAnswered inner request writer_lives inner.conn h (λ generation _ _ _.
        let pushed = push-IsAnswered (some generation) request.awaited inner h in
        (
          pushed,
          close-IsAnswered inner.channels (push_waiter (some generation) request.awaited inner)
              pushed,
        ))

module _ {N U : Type 0} (crate : UrlCrate U) (readers : Readers N) where
  run_task-IsAnswered :
      (task : Task N) (inner : Inner N)
      → IsAnswered crate inner
      → IsAnswered crate (run_task crate readers task inner).0
  unfolding run_task send_frame
  run_task-IsAnswered (replacing previous generation) inner h =
      fail-IsAnswered crate previous inner h
  run_task-IsAnswered (showing generation) inner h =
      banner_cases (IsAnswered crate) inner generation inner.pending_banner h (λ _. h)
  run_task-IsAnswered (detaching runner generation) inner h =
      detach_cases (λ out. IsAnswered crate out.0) inner runner generation inner.conn h (λ _. h)
  run_task-IsAnswered (failing runner generation) inner h = fail-IsAnswered crate generation inner h
  run_task-IsAnswered (forwarding message generation) inner h =
      forward_cases (IsAnswered crate) inner message h (λ _. h)
  run_task-IsAnswered (routing message generation) inner h =
      answer_all-IsAnswered crate (λ waiter. matches crate waiter.matcher message) (ok message)
        inner (λ waiter fits. fits) h
  run_task-IsAnswered (requesting request writer_lives) inner h =
      request-IsAnswered crate request writer_lives inner h
  run_task-IsAnswered (awaiting_session target) inner h =
      push-IsAnswered crate none (session target) inner h
  run_task-IsAnswered (bannering message) inner h =
      send_banner_cases (IsAnswered crate) inner message inner.conn h (λ _. h)
  run_task-IsAnswered (sweeping stale) inner h = (
    h.0,
    λ c.
        let fewer = count-keep_open c inner.waiters in
        let bounds = h.1 c in
        (omega arith, λ unused. let none_yet = bounds.1 unused in omega arith),
  )
  run_task-IsAnswered (probing stale) inner h =
      probe_cases (λ out. IsAnswered crate out.0) inner stale inner.conn h (λ _. (h, h))
  run_task-IsAnswered _ inner h = h

  Step-IsAnswered :
      {s t : System N}
      → Step crate readers s t
      → IsAnswered crate s.inner
      → IsAnswered crate t.inner
  unfolding send_frame
  Step-IsAnswered {s} {t} (run before after task split same) h =
      subst (λ (u : System N). IsAnswered crate u.inner) (sym same)
        (run_task-IsAnswered task s.inner h)
  Step-IsAnswered (cut_off before after task ends split same) h =
      subst (λ (u : System N). IsAnswered crate u.inner) (sym same) h
  Step-IsAnswered (accept idle same) h =
      subst (λ (u : System N). IsAnswered crate u.inner) (sym same) h
  Step-IsAnswered (begin task begins same) h =
      subst (λ (u : System N). IsAnswered crate u.inner) (sym same) h
  Step-IsAnswered {s} {t} (give_up channel same) h =
      subst (λ (u : System N). IsAnswered crate u.inner) (sym same)
        (close-IsAnswered crate channel s.inner h)
  Step-IsAnswered (reply_ping generation same) h =
      subst (λ (u : System N). IsAnswered crate u.inner) (sym same) h
  Step-IsAnswered (bind bound same) h =
      subst (λ (u : System N). IsAnswered crate u.inner) (sym same) h

  -- In every state that the program reaches, each channel of a waiter has been given one answer at
  -- most, and none while its waiter still waits; an answer that is a message is one that the waiter's
  -- matcher accepts, and any other is the loss of a connection, given to a waiter that waits on one.
  pub Reach-IsAnswered : {s : System N} → Reach crate readers s → IsAnswered crate s.inner
  Reach-IsAnswered here = (tt, λ c. (ground arith, λ _. ground arith))
  Reach-IsAnswered (next reached step) = Step-IsAnswered step (Reach-IsAnswered reached)
