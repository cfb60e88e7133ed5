-- ===== src/Bridge/Tests.antt =====
-- Runs of snu/bridge.rs: a tab connects, a request is sent and answered, the tab goes.
use snow_cli.Base.{length, any, ℕ, codes, ◌++◌, ◌∷◌, [], ◌==◌, false, true, none, some, ◌≡◌, refl}
use snow_cli.Json.{no_members, string}
use snow_cli.Gates.{legacy_unrestricted, advertises_instance_gates}
use snow_cli.Gates.Preflight.{settle_legacy}
use snow_cli.Origin.Tests.{toy}
use snow_cli.Bridge.Messages.{SnuMessage, correlation, matches, is_response_for}
use snow_cli.Bridge.State.{
  Task, Request, reader, installing, resetting, greeting, showing, marking, detaching,
  disconnecting, failing, capturing, forwarding, routing, requesting, settling_legacy,
  initial_status, drain_waiters, fail_waiters_for_generation, send_frame, push_waiter, start,
}
use snow_cli.Bridge.Steps.{
  Readers, System, run, cut_off, accept, begin, Reach, here, next, run_task, may_begin,
  request_under_lock, detach_connection,
}
use snow_cli.Bridge.Waiting.{IsTended, Reach-IsTended}
use snow_cli.Bridge.Drained.{IsDrained, Reach-drains}
use snow_cli.Bridge.Generations.{Reach-IsNewest}
use snow_cli.Bridge.Support.{IsSentTo, requesting-IsSentTo}
use snow_cli.Bridge.Answered.{IsAnswered, Reach-IsAnswered}

-- No metadata is read.
abbrev silent : Readers ℕ
silent = record { read_build = λ _. none; read_update = λ _. none }

abbrev question : Request ℕ
question = record {
  body = string (codes "check");
  awaited = correlation (codes "c1");
  expected_generation = some 1;
  expected_support = some legacy_unrestricted;
}

abbrev reply : SnuMessage ℕ
reply = record {
  action = none;
  agent_request_id = some (codes "c1");
  instance_info = none;
  success = some true;
  error = none;
  extra = no_members;
}

abbrev accepted : System ℕ
accepted = record {
  inner = record (start {N = ℕ}) { generation = 1 };
  tasks = installing 1 ∷ [];
  lost = [];
}

-- A task that is alone takes a step.
abbrev after_run : System ℕ → Task ℕ → System ℕ
after_run s task = record {
  inner = (run_task toy silent task s.inner).0;
  tasks = (run_task toy silent task s.inner).1 ++ [];
  lost = s.lost;
}

ran :
    (s : System ℕ) (task : Task ℕ)
    → s.tasks ≡ task ∷ []
    → Reach toy silent s
    → Reach toy silent (after_run s task)
ran s task alone reached = next reached (run [] [] task alone refl)

abbrev with_task : System ℕ → Task ℕ → System ℕ
with_task s task = record { inner = s.inner; tasks = s.tasks ++ task ∷ []; lost = s.lost }

begun :
    (s : System ℕ) (task : Task ℕ)
    → may_begin task ≡ true
    → Reach toy silent s
    → Reach toy silent (with_task s task)
begun s task begins reached = next reached (begin task begins refl)

abbrev installed : System ℕ
installed = after_run accepted (installing 1)

abbrev shown : System ℕ
shown = after_run (after_run (after_run installed (resetting 1)) (greeting 1)) (showing 1)

abbrev attached : System ℕ
attached = after_run shown (marking 1)

shown-Reach : Reach toy silent shown
unfolding run_task send_frame
shown-Reach = ran _ (showing 1) refl (
    ran _ (greeting 1) refl (
      ran installed (resetting 1) refl
        (ran accepted (installing 1) refl (next here (accept refl refl)))))

attached-Reach : Reach toy silent attached
unfolding run_task send_frame
attached-Reach = ran shown (marking 1) refl shown-Reach

-- The helper turns out to be a legacy one, and a question is sent.
abbrev negotiated : System ℕ
negotiated =
    after_run (with_task attached (settling_legacy (initial_status 1)))
      (settling_legacy (initial_status 1))

abbrev asked : System ℕ
asked = after_run (with_task negotiated (requesting question true)) (requesting question true)

negotiated-Reach : Reach toy silent negotiated
unfolding run_task send_frame
negotiated-Reach =
    ran _ (settling_legacy (initial_status 1)) refl
      (begun attached (settling_legacy (initial_status 1)) refl attached-Reach)

asked-Reach : Reach toy silent asked
unfolding run_task send_frame
asked-Reach =
    ran _ (requesting question true) refl
      (begun negotiated (requesting question true) refl negotiated-Reach)

asked_run :
    (any (λ waiter. waiter.channel == 0) asked.inner.waiters ≡ true) × (asked.inner.conn ≡ some 1)
unfolding run_task send_frame request_under_lock push_waiter settle_legacy advertises_instance_gates
asked_run = (refl, refl)

-- The reader of the connection ends, and tears it down. Its abort of itself cuts it off before it fails
-- the question, which then waits on, with no connection and no task.
abbrev ended : System ℕ
ended =
    after_run (after_run (with_task asked (detaching reader 1)) (detaching reader 1))
      (disconnecting reader 1)

abbrev stranded : System ℕ
stranded = record { inner = ended.inner; tasks = []; lost = 1 ∷ [] }

stranded-Reach : Reach toy silent stranded
unfolding run_task send_frame request_under_lock push_waiter settle_legacy detach_connection
    advertises_instance_gates
stranded-Reach =
    next
      (ran _ (disconnecting reader 1) refl
        (ran _ (detaching reader 1) refl (begun asked (detaching reader 1) refl asked-Reach)))
      (cut_off [] [] (failing reader 1) refl refl refl)

stranded_run :
    (any (λ waiter. waiter.channel == 0) stranded.inner.waiters ≡ true)
    × (stranded.inner.conn ≡ none)
    × (stranded.tasks ≡ [])
unfolding run_task send_frame request_under_lock push_waiter settle_legacy detach_connection
    advertises_instance_gates
stranded_run = (refl, refl, refl)

-- The reader ends while its connection is still being attached; its teardown is over before the last
-- step of the attachment, which says that a tab is connected when none is.
abbrev overtaken : System ℕ
overtaken = record {
  inner = record shown.inner { conn = none; connected = false };
  tasks = marking 1 ∷ [];
  lost = [];
}

overtaken-Reach : Reach toy silent overtaken
unfolding run_task send_frame detach_connection fail_waiters_for_generation drain_waiters
overtaken-Reach =
    next
      (next
        (next (begun shown (detaching reader 1) refl shown-Reach)
          (run (marking 1 ∷ []) [] (detaching reader 1) refl refl))
        (run (marking 1 ∷ []) [] (disconnecting reader 1) refl refl))
      (run (marking 1 ∷ []) [] (failing reader 1) refl refl)

overtaken_run :
    ((after_run overtaken (marking 1)).inner.connected ≡ true)
    × ((after_run overtaken (marking 1)).inner.conn ≡ none)
    × ((after_run overtaken (marking 1)).tasks ≡ [])
unfolding run_task
overtaken_run = (refl, refl, refl)

Reach-IsTended_example : IsTended stranded
Reach-IsTended_example = Reach-IsTended toy silent stranded-Reach

Reach-drains_example : (t : System ℕ) × IsDrained toy silent asked t
Reach-drains_example = Reach-drains toy silent asked-Reach

Reach-IsNewest_example :
    (attached.inner.status.generation ≡ attached.inner.generation)
    × ((g : ℕ) → attached.inner.conn ≡ some g → g ≡ attached.inner.generation)
unfolding run_task send_frame
Reach-IsNewest_example = Reach-IsNewest toy silent attached-Reach refl

requesting-IsSentTo_example :
    IsSentTo 1 question.body negotiated.inner
      (run_task toy silent (requesting question true) negotiated.inner).0
requesting-IsSentTo_example =
    requesting-IsSentTo toy silent question true 1 negotiated-Reach refl refl

-- The reply is routed to the waiter of the question.
abbrev answered : System ℕ
answered =
    after_run
      (after_run (after_run (with_task asked (capturing reply 1)) (capturing reply 1))
        (forwarding reply 1))
      (routing reply 1)

answered-Reach : Reach toy silent answered
unfolding run_task send_frame request_under_lock push_waiter settle_legacy advertises_instance_gates
answered-Reach = ran _ (routing reply 1) refl (
    ran _ (forwarding reply 1) refl
      (ran _ (capturing reply 1) refl (begun asked (capturing reply 1) refl asked-Reach)))

Reach-IsAnswered_example : IsAnswered toy answered.inner
Reach-IsAnswered_example = Reach-IsAnswered toy silent answered-Reach

answered_run : (length answered.inner.answers ≡ 1) × (length answered.inner.waiters ≡ 0)
unfolding run_task send_frame request_under_lock push_waiter settle_legacy advertises_instance_gates
    drain_waiters matches is_response_for
answered_run = (refl, refl)
