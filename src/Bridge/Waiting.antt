-- ===== src/Bridge/Waiting.antt =====
-- What holds in every state of snu/bridge.rs of the requests that wait.
use snow_cli.Base.{
  arith, any, any-append, Bool, ℕ, List, ◌==◌, ◌||◌, ◌++◌, ◌∷◌, [], true, suc, ◌≡◌, sym, subst, ap,
}
use snow_cli.Origin.{UrlCrate}
use snow_cli.Bridge.State.{
  Task, installing, replacing, disconnecting, failing, heartbeat, reader, send_frame,
}
use snow_cli.Bridge.Steps.{
  Readers, System, Step, run, cut_off, accept, begin, give_up, reply_ping, bind, Reach, here, next,
  run_task, may_end, abandons,
}
use snow_cli.Bridge.Tended.{
  AreTended, AreTended-weaken, close_channel-AreTended, fails, run_task-Leaves,
}

-- Who fails the requests of a generation, or has been kept from it.
abbrev pub is_failed_by : {N : Type 0} → List (Task N) → List ℕ → ℕ → Bool
is_failed_by tasks lost g = any (fails g) tasks || any (λ n. n == g) lost

-- Every waiter waits for a session, or for the present connection; or a task is about to fail it, or
-- the task that would have was cut off.
abbrev pub IsTended : {N : Type 0} → System N → Type 0
IsTended s = AreTended s.inner.conn (is_failed_by s.tasks s.lost) s.inner.waiters

module _ {N : Type 0} where
  cut_lem :
      (g : ℕ) (task : Task N)
      → may_end task ≡ true
      → fails g task ≡ any (λ n. n == g) (abandons task)
  cut_lem g (replacing previous generation) h = absurd (ground arith)
  cut_lem g (disconnecting runner generation) h = absurd (ground arith)
  cut_lem g (failing reader generation) h = ground arith
  cut_lem g (failing heartbeat generation) h = absurd (ground arith)
  cut_lem g _ h = ground arith

module _ {N U : Type 0} (crate : UrlCrate U) (readers : Readers N) where
  Step-IsTended : {s t : System N} → Step crate readers s t → IsTended s → IsTended t
  unfolding send_frame
  Step-IsTended {s} {t} (run before after task split same) h =
      let rest : ℕ → Bool =
        λ g. any (fails g) before || (any (fails g) after || any (λ n. n == g) s.lost) in
      let out = run_task crate readers task s.inner in
      subst IsTended (sym same) (
        AreTended-weaken out.0.conn out.0.conn (λ g. any (fails g) out.1 || rest g)
          (is_failed_by (before ++ (out.1 ++ after)) s.lost) out.0.waiters
          (λ g e.
            ground (
              arith,
              any-append (fails g) before (out.1 ++ after),
              any-append (fails g) out.1 after,
            ))
          (run_task-Leaves crate readers rest task s.inner (
            AreTended-weaken s.inner.conn s.inner.conn (is_failed_by s.tasks s.lost)
              (λ g. fails g task || rest g) s.inner.waiters
              (λ g e.
                ground
                  (arith, ap (any (fails g)) split, any-append (fails g) before (task ∷ after)))
              h)))
  Step-IsTended {s} {t} (cut_off before after task ends split same) h = subst IsTended (sym same) (
      AreTended-weaken s.inner.conn s.inner.conn (is_failed_by s.tasks s.lost)
        (is_failed_by (before ++ after) (abandons task ++ s.lost)) s.inner.waiters
        (λ g e. ground (
          arith,
          ap (any (fails g)) split,
          any-append (fails g) before (task ∷ after),
          any-append (fails g) before after,
          any-append (λ n. n == g) (abandons task) s.lost,
          cut_lem g task ends,
        ))
        h)
  Step-IsTended {s} {t} (accept idle same) h = subst IsTended (sym same) (
      AreTended-weaken s.inner.conn s.inner.conn (is_failed_by s.tasks s.lost)
        (is_failed_by (s.tasks ++ installing (suc s.inner.generation) ∷ []) s.lost) s.inner.waiters
        (λ g e.
          ground (arith, any-append (fails g) s.tasks (installing (suc s.inner.generation) ∷ [])))
        h)
  Step-IsTended {s} {t} (begin task begins same) h = subst IsTended (sym same) (
      AreTended-weaken s.inner.conn s.inner.conn (is_failed_by s.tasks s.lost)
        (is_failed_by (s.tasks ++ task ∷ []) s.lost) s.inner.waiters
        (λ g e. ground (arith, any-append (fails g) s.tasks (task ∷ []))) h)
  Step-IsTended {s} {t} (give_up channel same) h =
      subst IsTended (sym same) (
        close_channel-AreTended channel s.inner.conn (is_failed_by s.tasks s.lost) s.inner.waiters
          h)
  Step-IsTended (reply_ping generation same) h = subst IsTended (sym same) h
  Step-IsTended (bind bound same) h = subst IsTended (sym same) h

  -- In every state that the program reaches, each waiter waits for a session, or for the present
  -- connection, or a task is about to fail it; or the teardown of its connection was cut off by the
  -- abort of the reader that ran it.
  pub Reach-IsTended : {s : System N} → Reach crate readers s → IsTended s
  Reach-IsTended here = tt
  Reach-IsTended (next reached step) = Step-IsTended step (Reach-IsTended reached)
