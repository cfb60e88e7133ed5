-- ===== src/Bridge/Current.antt =====
-- Which generation the connection and the helper's status of snu/bridge.rs belong to.
use snow_cli.Base.{
  arith, All, count, Bool, ℕ, List, Option, ◌∷◌, [], ◌<◌, ◌≤◌, ◌+◌, false, true, none, some, ◌≡◌,
  Text, refl,
}
use snow_cli.Origin.{UrlCrate}
use snow_cli.Gates.{HelperStatus, Snapshots, apply_all, apply_gate_snapshot, with_support, gated}
use snow_cli.Gates.Preflight.{settle_legacy, settle_gated}
use snow_cli.Bridge.Messages.{SnuMessage, RequestError}
use snow_cli.Bridge.Cases.{
  request_cases, banner_cases, send_banner_cases, forward_cases, detach_cases, probe_cases,
  capture_cases,
}
use snow_cli.Bridge.State.{
  Inner, Task, Request, fail_waiters_for_generation, installing, replacing, resetting, greeting,
  showing, marking, detaching, capturing, forwarding, requesting, bannering, probing,
  settling_legacy, settling_gated, send_frame, push_waiter,
}
use snow_cli.Bridge.Steps.{
  Readers, run_task, replaced, with_banner, send_banner, forward, request_under_lock,
  capture_helper_metadata, is_attaching,
}

abbrev pub is_installing : {N : Type 0} → Task N → Bool
is_installing (installing generation) = true
is_installing _ = false

-- The status is still to be reset.
abbrev pub is_resetting : {N : Type 0} → Task N → Bool
is_resetting (installing generation) = true
is_resetting (replacing previous generation) = true
is_resetting (resetting generation) = true
is_resetting _ = false

-- A task that attaches a connection is one of this generation.
abbrev pub Carries : {N : Type 0} → ℕ → Task N → Type 0
Carries n (installing generation) = generation ≡ n
Carries n (replacing previous generation) = generation ≡ n
Carries n (resetting generation) = generation ≡ n
Carries n (greeting generation) = generation ≡ n
Carries n (showing generation) = generation ≡ n
Carries n (marking generation) = generation ≡ n
Carries n _ = Unit {0}

-- Up to the numbers of tasks that install a connection, that have yet to reset the status, and that
-- attach.
abbrev pub IsCurrentAt : ℕ → Option ℕ → HelperStatus → ℕ → ℕ → ℕ → Type 0
IsCurrentAt generation conn status installs resets attaches =
    (attaches ≤ 1)
    × (resets ≡ 0 → status.generation ≡ generation)
    × (0 < resets → status.generation < generation)
    × ((g : ℕ) → conn ≡ some g → (g ≤ generation) × (installs ≡ 0 → g ≡ generation))

-- What most steps leave alone.
abbrev Keeps : {N : Type 0} → Inner N → Inner N → Type 0
Keeps inner out =
    (out.generation ≡ inner.generation)
    × (out.conn ≡ inner.conn)
    × (out.status.generation ≡ inner.status.generation)

module _ {N : Type 0} where
  show-Keeps :
      (generation : ℕ) (inner : Inner N)
      → Keeps inner (with_banner generation inner.pending_banner inner)
  unfolding send_frame
  show-Keeps generation inner =
      banner_cases (Keeps inner) inner generation inner.pending_banner (refl, refl, refl)
        (λ _. (refl, refl, refl))

  send_banner-Keeps :
      (message : Text) (inner : Inner N) → Keeps inner (send_banner message inner.conn inner)
  unfolding send_frame
  send_banner-Keeps message inner =
      send_banner_cases (Keeps inner) inner message inner.conn (refl, refl, refl)
        (λ _. (refl, refl, refl))

  forward-Keeps : (message : SnuMessage N) (inner : Inner N) → Keeps inner (forward message inner)
  forward-Keeps message inner =
      forward_cases (Keeps inner) inner message (refl, refl, refl) (λ _. (refl, refl, refl))

  request-Keeps :
      (request : Request N) (writer_lives : Bool) (inner : Inner N)
      → Keeps inner (request_under_lock request writer_lives inner.conn inner)
  unfolding send_frame push_waiter
  request-Keeps request writer_lives inner =
      request_cases (Keeps inner) inner request writer_lives inner.conn (refl, refl, refl)
        (λ _ _ _ _. ((refl, refl, refl), (refl, refl, refl)))

settle_legacy-generation :
    (before status : HelperStatus)
    → (settle_legacy {E = RequestError} before status).1.generation ≡ status.generation
unfolding settle_legacy
settle_legacy-generation before status = ground arith

apply_all-generation :
    (entries : Snapshots) (status : HelperStatus)
    → (apply_all entries status).generation ≡ status.generation
unfolding apply_gate_snapshot
apply_all-generation [] status = refl
apply_all-generation (entry ∷ entries) status =
    apply_all-generation entries (apply_gate_snapshot entry.0 entry.1 status)

settle_gated-generation :
    (before : HelperStatus) (snapshots : Snapshots) (status : HelperStatus)
    → (settle_gated {E = RequestError} before snapshots status).1.generation ≡ status.generation
unfolding settle_gated
settle_gated-generation before snapshots status =
    ground (arith, apply_all-generation snapshots (with_support gated status))

module _ {N U : Type 0} (crate : UrlCrate U) (readers : Readers N) where
  capture-generation :
      (message : SnuMessage N) (generation : ℕ) (status : HelperStatus)
      → (capture_helper_metadata crate readers message generation status).generation
        ≡ status.generation
  unfolding apply_gate_snapshot
  capture-generation message generation status =
      capture_cases crate readers (λ (out : HelperStatus). out.generation ≡ status.generation)
        status refl (λ _. refl) (λ _ _. refl) message generation

  -- A step of a task beside others of which so many install, reset and attach.
  abbrev pub StaysCurrent : Inner N → ℕ → ℕ → ℕ → Inner N × List (Task N) → Type 0
  StaysCurrent inner i r a out =
      (out.0.generation ≡ inner.generation)
      × IsCurrentAt out.0.generation out.0.conn out.0.status (count is_installing out.1 + i)
          (count is_resetting out.1 + r) (count is_attaching out.1 + a)
      × All (Carries inner.generation) out.1

  pub run_task-StaysCurrent :
      (task : Task N) (inner : Inner N) (i r a : ℕ)
      → i ≤ r
      → r ≤ a
      → Carries inner.generation task
      → IsCurrentAt inner.generation inner.conn inner.status
          (count is_installing (task ∷ []) + i)
          (count is_resetting (task ∷ []) + r)
          (count is_attaching (task ∷ []) + a)
      → StaysCurrent inner i r a (run_task crate readers task inner)
  unfolding run_task send_frame push_waiter fail_waiters_for_generation
  run_task-StaysCurrent (installing generation) inner i r a lo hi carried h = by_previous inner.conn
    where
      by_previous :
          (conn : Option ℕ)
          → StaysCurrent inner i r a
              (record inner { conn = some generation }, replaced conn generation)
      by_previous none = ground arith
      by_previous (some previous) = ground arith
  run_task-StaysCurrent (detaching runner generation) inner i r a lo hi carried h =
      detach_cases (StaysCurrent inner i r a) inner runner generation inner.conn (ground arith)
        (λ _. ground arith)
  run_task-StaysCurrent (probing stale) inner i r a lo hi carried h =
      probe_cases (StaysCurrent inner i r a) inner stale inner.conn (ground arith)
        (λ _. (ground arith, ground arith))
  run_task-StaysCurrent (showing generation) inner i r a lo hi carried h =
      ground (arith, show-Keeps generation inner)
  run_task-StaysCurrent (forwarding message generation) inner i r a lo hi carried h =
      ground (arith, forward-Keeps message inner)
  run_task-StaysCurrent (bannering message) inner i r a lo hi carried h =
      ground (arith, send_banner-Keeps message inner)
  run_task-StaysCurrent (requesting request writer_lives) inner i r a lo hi carried h =
      ground (arith, request-Keeps request writer_lives inner)
  run_task-StaysCurrent (capturing message generation) inner i r a lo hi carried h =
      ground (arith, capture-generation message generation inner.status)
  run_task-StaysCurrent (settling_legacy before) inner i r a lo hi carried h =
      ground (arith, settle_legacy-generation before inner.status)
  run_task-StaysCurrent (settling_gated before snapshots) inner i r a lo hi carried h =
      ground (arith, settle_gated-generation before snapshots inner.status)
  run_task-StaysCurrent _ inner i r a lo hi carried h = ground arith
