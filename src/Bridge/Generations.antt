-- ===== src/Bridge/Generations.antt =====
-- The generations in every state of snu/bridge.rs.
use snow_cli.Base.{
  arith, All, All-append, All-split, All-weaken, any, any_iff, count, count-append, count-eq_zero,
  ℕ, List, Option, ◌++◌, ◌∷◌, [], ◌≤◌, ◌+◌, suc, false, true, some, ◌≡◌, refl, sym, subst, ap,
}
use snow_cli.Origin.{UrlCrate}
use snow_cli.Gates.{HelperStatus}
use snow_cli.Bridge.State.{
  Task, installing, replacing, resetting, greeting, showing, marking, send_frame,
}
use snow_cli.Bridge.Steps.{
  Readers, System, Step, run, cut_off, accept, begin, give_up, reply_ping, bind, Reach, here, next,
  abandons, run_task, is_attaching, may_begin, may_end,
}
use snow_cli.Bridge.Current.{
  is_installing, is_resetting, Carries, IsCurrentAt, run_task-StaysCurrent,
}

abbrev pub IsCurrent : {N : Type 0} → System N → Type 0
IsCurrent s =
    IsCurrentAt s.inner.generation s.inner.conn s.inner.status (count is_installing s.tasks)
      (count is_resetting s.tasks) (count is_attaching s.tasks)
    × All (Carries s.inner.generation) s.tasks

-- Equal numbers serve alike.
IsCurrentAt-same :
    (generation : ℕ) (conn : Option ℕ) (status : HelperStatus) (i i' r r' a a' : ℕ)
    → i ≡ i'
    → r ≡ r'
    → a ≡ a'
    → IsCurrentAt generation conn status i r a
    → IsCurrentAt generation conn status i' r' a'
IsCurrentAt-same generation conn status i i' r r' a a' hi hr ha h =
    (ground arith, ground arith, ground arith, λ g same. ground (arith, h.3 g same))

module _ {N : Type 0} where
  abbrev installs : List (Task N) → ℕ
  installs tasks = count is_installing tasks

  abbrev resets : List (Task N) → ℕ
  resets tasks = count is_resetting tasks

  abbrev attaches : List (Task N) → ℕ
  attaches tasks = count is_attaching tasks

  counts_lem :
      (tasks : List (Task N)) → (installs tasks ≤ resets tasks) × (resets tasks ≤ attaches tasks)
  counts_lem [] = ground arith
  counts_lem (task ∷ tasks) = let rest = counts_lem tasks in by_task task rest
    where
      by_task :
          (task : Task N)
          → (installs tasks ≤ resets tasks) × (resets tasks ≤ attaches tasks)
          → (installs (task ∷ tasks) ≤ resets (task ∷ tasks))
            × (resets (task ∷ tasks) ≤ attaches (task ∷ tasks))
      by_task (installing generation) h = ground arith
      by_task _ h = ground arith

  -- What does not attach a connection carries any generation.
  idle-Carries : (n : ℕ) (task : Task N) → is_attaching task ≡ false → Carries n task
  idle-Carries n (installing generation) h = absurd (ground arith)
  idle-Carries n (replacing previous generation) h = absurd (ground arith)
  idle-Carries n (resetting generation) h = absurd (ground arith)
  idle-Carries n (greeting generation) h = absurd (ground arith)
  idle-Carries n (showing generation) h = absurd (ground arith)
  idle-Carries n (marking generation) h = absurd (ground arith)
  idle-Carries n _ h = tt

  not_attaching : (task : Task N) → may_begin task ≡ true → is_attaching task ≡ false
  not_attaching (installing generation) h = absurd (ground arith)
  not_attaching _ h = ground arith

  not_ending : (task : Task N) → may_end task ≡ true → is_attaching task ≡ false
  not_ending (installing generation) h = absurd (ground arith)
  not_ending _ h = ground arith

module _ {N U : Type 0} (crate : UrlCrate U) (readers : Readers N) where
  run-IsCurrent :
      (s : System N) (before after : List (Task N)) (task : Task N)
      → s.tasks ≡ before ++ task ∷ after
      → IsCurrent s
      → IsCurrent (record {
        inner = (run_task crate readers task s.inner).0;
        tasks = before ++ ((run_task crate readers task s.inner).1 ++ after);
        lost = s.lost;
      })
  run-IsCurrent s before after task split h =
      let inner = s.inner in
      let out = run_task crate readers task inner in
      let before_lem = counts_lem before in
      let after_lem = counts_lem after in
      let carried : All (Carries inner.generation) (before ++ task ∷ after) =
        subst (All (Carries inner.generation)) split h.1 in
      let parts = All-split (Carries inner.generation) before (task ∷ after) carried in
      let (same, current, carries) =
        run_task-StaysCurrent crate readers task inner (installs before + installs after)
          (resets before + resets after) (attaches before + attaches after) (ground arith)
          (ground arith) parts.1.0
          (IsCurrentAt-same inner.generation inner.conn inner.status (installs s.tasks) _
            (resets s.tasks) _ (attaches s.tasks) _
            (ground (arith, ap installs split, count-append is_installing before (task ∷ after)))
            (ground (arith, ap resets split, count-append is_resetting before (task ∷ after)))
            (ground (arith, ap attaches split, count-append is_attaching before (task ∷ after)))
            h.0) in
      (
        IsCurrentAt-same out.0.generation out.0.conn out.0.status _
            (installs (before ++ (out.1 ++ after))) _ (resets (before ++ (out.1 ++ after))) _
            (attaches (before ++ (out.1 ++ after)))
            (ground (
              arith,
              count-append is_installing before (out.1 ++ after),
              count-append is_installing out.1 after,
            ))
            (ground (
              arith,
              count-append is_resetting before (out.1 ++ after),
              count-append is_resetting out.1 after,
            ))
            (ground (
              arith,
              count-append is_attaching before (out.1 ++ after),
              count-append is_attaching out.1 after,
            ))
            current,
        subst (λ n. All (Carries n) (before ++ (out.1 ++ after))) (sym same)
            (All-append (Carries inner.generation) before (out.1 ++ after) parts.0
              (All-append (Carries inner.generation) out.1 after carries parts.1.1)),
      )

  cut_off-IsCurrent :
      (s : System N) (before after : List (Task N)) (task : Task N) (lost : List ℕ)
      → is_attaching task ≡ false
      → s.tasks ≡ before ++ task ∷ after
      → IsCurrent s
      → IsCurrent (record { inner = s.inner; tasks = before ++ after; lost = lost })
  cut_off-IsCurrent s before after task lost idle split h =
      let inner = s.inner in
      let alone = counts_lem (task ∷ []) in
      let carried : All (Carries inner.generation) (before ++ task ∷ after) =
        subst (All (Carries inner.generation)) split h.1 in
      let parts = All-split (Carries inner.generation) before (task ∷ after) carried in
      (
        IsCurrentAt-same inner.generation inner.conn inner.status (installs s.tasks) _
            (resets s.tasks) _ (attaches s.tasks) _
            (ground (
              arith,
              ap installs split,
              count-append is_installing before (task ∷ after),
              count-append is_installing before after,
            ))
            (ground (
              arith,
              ap resets split,
              count-append is_resetting before (task ∷ after),
              count-append is_resetting before after,
            ))
            (ground (
              arith,
              ap attaches split,
              count-append is_attaching before (task ∷ after),
              count-append is_attaching before after,
            ))
            h.0,
        All-append (Carries inner.generation) before after parts.0 parts.1.1,
      )

  begin-IsCurrent :
      (s : System N) (task : Task N)
      → is_attaching task ≡ false
      → IsCurrent s
      → IsCurrent (record { inner = s.inner; tasks = s.tasks ++ task ∷ []; lost = s.lost })
  begin-IsCurrent s task idle h =
      let inner = s.inner in
      let alone = counts_lem (task ∷ []) in
      (
        IsCurrentAt-same inner.generation inner.conn inner.status (installs s.tasks) _
            (resets s.tasks) _ (attaches s.tasks) _
            (ground (arith, count-append is_installing s.tasks (task ∷ [])))
            (ground (arith, count-append is_resetting s.tasks (task ∷ [])))
            (ground (arith, count-append is_attaching s.tasks (task ∷ []))) h.0,
        All-append (Carries inner.generation) s.tasks (task ∷ []) h.1
            (idle-Carries inner.generation task idle, tt),
      )

  accept-IsCurrent :
      (s : System N)
      → any is_attaching s.tasks ≡ false
      → IsCurrent s
      → IsCurrent (record {
        inner = record s.inner { generation = suc s.inner.generation };
        tasks = s.tasks ++ installing (suc s.inner.generation) ∷ [];
        lost = s.lost;
      })
  accept-IsCurrent s idle h =
      let inner = s.inner in
      let fresh : Task N = installing (suc inner.generation) in
      let counts = counts_lem s.tasks in
      let none_attach = count-eq_zero is_attaching s.tasks idle in
      let next_generation = suc inner.generation in
      (
        IsCurrentAt-same next_generation inner.conn inner.status 1 _ 1 _ 1 _
            (ground (arith, count-append is_installing s.tasks (fresh ∷ [])))
            (ground (arith, count-append is_resetting s.tasks (fresh ∷ [])))
            (ground (arith, count-append is_attaching s.tasks (fresh ∷ [])))
            (
              ground arith,
              ground arith,
              ground arith,
              λ g same. (ground (arith, h.0.3 g same), λ zero_is. absurd (ground arith)),
            ),
        All-append (Carries next_generation) s.tasks (fresh ∷ [])
            (All-weaken (λ task. is_attaching task ≡ false) (Carries next_generation)
              (idle-Carries next_generation) s.tasks ((any_iff is_attaching s.tasks).0 idle))
            (refl, tt),
      )

  Step-IsCurrent : {s t : System N} → Step crate readers s t → IsCurrent s → IsCurrent t
  unfolding send_frame
  Step-IsCurrent {s} {t} (run before after task split same) h =
      subst IsCurrent (sym same) (run-IsCurrent s before after task split h)
  Step-IsCurrent {s} {t} (cut_off before after task ends split same) h =
      subst IsCurrent (sym same) (
        cut_off-IsCurrent s before after task (abandons task ++ s.lost) (not_ending task ends) split
          h)
  Step-IsCurrent {s} {t} (accept idle same) h =
      subst IsCurrent (sym same) (accept-IsCurrent s idle h)
  Step-IsCurrent {s} {t} (begin task begins same) h =
      subst IsCurrent (sym same) (begin-IsCurrent s task (not_attaching task begins) h)
  Step-IsCurrent (give_up channel same) h = subst IsCurrent (sym same) h
  Step-IsCurrent (reply_ping generation same) h = subst IsCurrent (sym same) h
  Step-IsCurrent (bind bound same) h = subst IsCurrent (sym same) h

  pub Reach-IsCurrent : {s : System N} → Reach crate readers s → IsCurrent s
  Reach-IsCurrent here =
      ((ground arith, λ _. refl, ground arith, λ g same. absurd (ground arith)), tt)
  Reach-IsCurrent (next reached step) = Step-IsCurrent step (Reach-IsCurrent reached)

  -- In every state that the program reaches, while no connection is being attached, the connection is
  -- the newest, if there is one, and the helper's status belongs to the newest generation.
  pub Reach-IsNewest :
      {s : System N}
      → Reach crate readers s
      → any is_attaching s.tasks ≡ false
      → (s.inner.status.generation ≡ s.inner.generation)
        × ((g : ℕ) → s.inner.conn ≡ some g → g ≡ s.inner.generation)
  Reach-IsNewest {s} reached idle =
      let current = (Reach-IsCurrent reached).0 in
      let counts = counts_lem s.tasks in
      let zero_attach = count-eq_zero is_attaching s.tasks idle in
      (ground arith, λ g same. (current.3 g same).1 (ground arith))
