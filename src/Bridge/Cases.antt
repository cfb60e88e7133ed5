-- ===== src/Bridge/Cases.antt =====
-- The cases of the longer steps of snu/bridge.rs, for any predicate on what they give.
use snow_cli.Base.{
  arith, if-elim, text_eq, codes, Bool, ℕ, List, Option, if◌then◌else◌, ◌==◌, ◌&&◌, not, ◌++◌, ◌∷◌,
  [], false, true, none, some, ◌≡◌, refl, Text,
}
use snow_cli.Origin.{UrlCrate}
use snow_cli.Json.{Value, object}
use snow_cli.Gates.{
  HelperStatus, OriginKey, GateSnapshot, InstanceGates, apply_gate_snapshot, normalize_origin,
}
use snow_cli.Bridge.Messages.{SnuMessage, SnuInstance, has_token}
use snow_cli.Bridge.State.{
  Inner, Task, Runner, Request, payload, disconnecting, detaching, heartbeat, close_channel,
  push_waiter, send_frame, banner, ping,
}
use snow_cli.Bridge.Steps.{
  Readers, request_under_lock, detach_connection, with_banner, send_banner, forward, probe, is_met,
  same_support, with_build, apply_build, apply_update, update_at, read_metadata, capture_action,
  capture_helper_metadata,
}

of_not : (b : Bool) → not b ≡ false → b ≡ true
of_not b h = ground arith

module _ {N : Type 0} (P : Inner N → Type 0) (inner : Inner N) where
  -- The request is refused, sent, or registered without a writer.
  pub request_cases :
      (request : Request N) (writer_lives : Bool) (conn : Option ℕ)
      → P inner
      → ((generation : ℕ)
          → conn ≡ some generation
          → is_met (λ expected. expected == generation) request.expected_generation ≡ true
          → is_met
              (λ expected.
                (inner.status.generation == generation)
                && same_support inner.status.security_gate_support expected)
              request.expected_support
            ≡ true
          → P (
              send_frame generation
                (payload request.body)
                (push_waiter (some generation) request.awaited inner))
            × (let pushed = push_waiter (some generation) request.awaited inner in
                P (record pushed { waiters = close_channel inner.channels pushed.waiters })))
      → P (request_under_lock request writer_lives conn inner)
  unfolding request_under_lock
  request_cases request writer_lives none refused registered = refused
  request_cases request writer_lives (some generation) refused registered =
      let fits = is_met (λ expected. expected == generation) request.expected_generation in
      let supported =
        is_met
          (λ expected.
            (inner.status.generation == generation)
            && same_support inner.status.security_gate_support expected)
          request.expected_support in
      if-elim P (not fits) inner _ (λ _. refused)
        (λ h.
          if-elim P (not supported) inner _ (λ _. refused)
            (λ k.
              let done = registered generation refl (of_not fits h) (of_not supported k) in
              if-elim P writer_lives _ _ (λ _. done.0) (λ _. done.1)))

  pub banner_cases :
      (generation : ℕ) (pending : Option Text)
      → P inner
      → ((message : Text)
          → P (send_frame generation (banner message) (record inner { pending_banner = none })))
      → P (with_banner generation pending inner)
  banner_cases generation none h k = h
  banner_cases generation (some message) h k = k message

  pub send_banner_cases :
      (message : Text) (conn : Option ℕ)
      → P (record inner { pending_banner = some message })
      → ((generation : ℕ) → P (send_frame generation (banner message) inner))
      → P (send_banner message conn inner)
  send_banner_cases message none h k = h
  send_banner_cases message (some generation) h k = k generation

  pub forward_cases :
      (message : SnuMessage N)
      → P inner
      → ((info : SnuInstance) → P (record inner { sessions = inner.sessions ++ info ∷ [] }))
      → P (forward message inner)
  forward_cases message h k = by_instance message.instance_info
    where
      by_instance :
          (o : Option SnuInstance)
          → P (elim o [
            | none ↦ inner
            | some info ↦
                if has_token info
                then record inner { sessions = inner.sessions ++ info ∷ [] }
                else inner
          ])
      by_instance none = h
      by_instance (some info) = if-elim P (has_token info) _ _ (λ _. k info) (λ _. h)

module _ {N : Type 0} (P : Inner N × List (Task N) → Type 0) (inner : Inner N) where
  pub detach_cases :
      (runner : Runner) (generation : ℕ) (conn : Option ℕ)
      → P (inner, [])
      → (conn ≡ some generation
          → P (record inner { conn = none }, disconnecting runner generation ∷ []))
      → P (detach_connection runner generation conn inner)
  unfolding detach_connection
  detach_cases runner generation none h k = h
  detach_cases runner generation (some current) h k =
      if-elim P (current == generation) _ _ (λ same. k (ground arith)) (λ _. h)

  pub probe_cases :
      (stale : Bool) (conn : Option ℕ)
      → P (inner, [])
      → ((generation : ℕ)
          → P (inner, detaching heartbeat generation ∷ [])
            × P (send_frame generation ping inner, []))
      → P (probe stale conn inner)
  probe_cases stale none h k = h
  probe_cases true (some generation) h k = (k generation).0
  probe_cases false (some generation) h k = (k generation).1

module _ {N U : Type 0} (crate : UrlCrate U) (readers : Readers N) (P : HelperStatus → Type 0)
    (status : HelperStatus) (kept : P status)
    (built : (capability : Option ℕ) → P (with_build capability status))
    (updated : (origin : OriginKey) (snapshot : GateSnapshot)
      → P (apply_gate_snapshot origin snapshot status)) where
  build_cases : (o : Option (Option ℕ)) → P (apply_build o status)
  build_cases none = kept
  build_cases (some capability) = built capability

  update_at_cases :
      (o : Option OriginKey) (update : ℕ × InstanceGates)
      → P (update_at crate readers o update status)
  update_at_cases none update = kept
  update_at_cases (some origin) update =
      updated origin (record { revision = update.0; gates = update.1 })

  update_cases : (o : Option (Text × ℕ × InstanceGates)) → P (apply_update crate readers o status)
  update_cases none = kept
  update_cases (some update) =
      update_at_cases (normalize_origin crate update.0) (update.1, update.2)

  metadata_cases :
      (action : Text) (value : Value N) → P (read_metadata crate readers action value status)
  unfolding read_metadata
  metadata_cases action value =
      if-elim P (text_eq action (codes "helperBuildInfo")) _ _
        (λ _. build_cases (readers.read_build value))
        (λ _.
          if-elim P (text_eq action (codes "helperGatesUpdated")) _ _
            (λ _. update_cases (readers.read_update value)) (λ _. kept))

  action_cases :
      (o : Option Text) (value : Value N) (generation : ℕ)
      → P (capture_action crate readers o value generation status)
  action_cases none value generation = kept
  action_cases (some action) value generation =
      if-elim P (status.generation == generation) _ _ (λ _. metadata_cases action value) (λ _. kept)

  -- The status is kept, or gets a build, or a snapshot.
  pub capture_cases :
      (message : SnuMessage N) (generation : ℕ)
      → P (capture_helper_metadata crate readers message generation status)
  unfolding capture_helper_metadata
  capture_cases message generation = action_cases message.action (object message.extra) generation
