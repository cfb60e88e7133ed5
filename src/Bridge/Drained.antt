-- ===== src/Bridge/Drained.antt =====
-- What the tasks of snu/bridge.rs come to when nothing else begins.
use snow_cli.Base.{
  arith, total, total-append, any, ℕ, List, Option, ◌==◌, ◌++◌, ◌∷◌, [], ◌<◌, ◌≤◌, zero, suc, none,
  some, ◌≡◌, refl,
}
use snow_cli.Origin.{UrlCrate}
use snow_cli.Bridge.State.{
  Inner, Task, installing, replacing, resetting, greeting, showing, marking, detaching,
  disconnecting, failing, capturing, forwarding, routing, requesting, awaiting_session, bannering,
  sweeping, probing, settling_legacy, settling_gated,
}
use snow_cli.Bridge.Steps.{Readers, System, run, Reach, next, run_task, replaced}
use snow_cli.Bridge.Cases.{detach_cases, probe_cases}
use snow_cli.Bridge.Tended.{AreTended}
use snow_cli.Bridge.Waiting.{Reach-IsTended}

-- How many steps a task takes at most.
abbrev weight : {N : Type 0} → Task N → ℕ
weight (installing generation) = 6
weight (replacing previous generation) = 5
weight (resetting generation) = 4
weight (greeting generation) = 3
weight (showing generation) = 2
weight (marking generation) = 1
weight (detaching runner generation) = 3
weight (disconnecting runner generation) = 2
weight (failing runner generation) = 1
weight (capturing message generation) = 3
weight (forwarding message generation) = 2
weight (routing message generation) = 1
weight (requesting request writer_lives) = 1
weight (awaiting_session target) = 1
weight (bannering message) = 1
weight (sweeping stale) = 5
weight (probing stale) = 4
weight (settling_legacy before) = 1
weight (settling_gated before snapshots) = 1

total-replaced :
    (N : Type 0) (conn : Option ℕ) (generation : ℕ)
    → total weight (replaced {N = N} conn generation) ≤ 5
total-replaced N none generation = ground arith
total-replaced N (some previous) generation = ground arith

module _ {N U : Type 0} (crate : UrlCrate U) (readers : Readers N) where
  total-run_task :
      (task : Task N) (inner : Inner N)
      → total weight (run_task crate readers task inner).1 < weight task
  unfolding run_task
  total-run_task (installing generation) inner =
      ground (arith, total-replaced N inner.conn generation)
  total-run_task (detaching runner generation) inner =
      detach_cases (λ out. total weight out.1 < 3) inner runner generation inner.conn (ground arith)
        (λ _. ground arith)
  total-run_task (probing stale) inner =
      probe_cases (λ out. total weight out.1 < 4) inner stale inner.conn (ground arith)
        (λ _. (ground arith, ground arith))
  total-run_task _ inner = ground arith

  -- The tasks that there are go on, each in its turn, in any order: nothing begins, nothing is cut off.
  pub data Works : System N → System N → Type 0 where
    idle : {s : System N} → Works s s
    works :
        {s t : System N} (before after : List (Task N)) (task : Task N)
        → s.tasks ≡ before ++ task ∷ after
        → Works
            (record {
              inner = (run_task crate readers task s.inner).0;
              tasks = before ++ ((run_task crate readers task s.inner).1 ++ after);
              lost = s.lost;
            })
            t
        → Works s t

  -- What the tasks of `s` come to.
  abbrev pub IsDrained : System N → System N → Type 0
  IsDrained s t =
      Works s t
      × (t.tasks ≡ [])
      × (t.lost ≡ s.lost)
      × AreTended t.inner.conn (λ g. any (λ n. n == g) t.lost) t.inner.waiters

  drain :
      (fuel : ℕ) (inner : Inner N) (tasks : List (Task N)) (lost : List ℕ)
      → total weight tasks ≤ fuel
      → (let s : System N = record { inner = inner; tasks = tasks; lost = lost } in
          Reach crate readers s → (t : System N) × IsDrained s t)
  drain fuel inner [] lost few reached = (
    record { inner = inner; tasks = []; lost = lost },
    (idle, refl, refl, Reach-IsTended crate readers reached),
  )
  drain zero inner (task ∷ tasks) lost few reached =
      absurd (ground (arith, total-run_task task inner))
  drain (suc fuel) inner (task ∷ tasks) lost few reached =
      let out = run_task crate readers task inner in
      let (t, rest) =
        drain fuel out.0 (out.1 ++ tasks) lost
          (ground (arith, total-append weight out.1 tasks, total-run_task task inner))
          (next reached (run [] tasks task refl refl)) in
      (t, (works [] tasks task refl rest.0, rest.1, rest.2, rest.3))

  -- From every state that the program reaches, the tasks that there are then can go on to a state in
  -- which none is left, by steps of theirs alone, with no further beginning and nothing cut off. In that
  -- state every waiter waits for a session or for the present connection, but for the waiters of a
  -- generation whose teardown was cut off before.
  pub Reach-drains : {s : System N} → Reach crate readers s → (t : System N) × IsDrained s t
  Reach-drains {s} reached =
      drain (total weight s.tasks) s.inner s.tasks s.lost (ground arith) reached
