-- ===== src/Bridge/Waiters.antt =====
-- Lemmas on the lists of waiters of snu/bridge.rs, for any predicate on a waiter.
use snow_cli.Base.{
  Bool-cases, inl, inr, All, Bool, ℕ, List, Result, if◌then◌else◌, ◌==◌, ◌∷◌, [], false, true, ◌≡◌,
}
use snow_cli.Bridge.Messages.{SnuMessage, RequestError}
use snow_cli.Bridge.State.{Waiter, drain_waiters, keep_open, close_channel, answer}

module _ {N : Type 0} (chosen : Waiter → Bool) (result : Result RequestError (SnuMessage N)) where
  pub drain_waiters-All :
      (P : Waiter → Type 0) (waiters : List Waiter)
      (answers : List (Waiter × Result RequestError (SnuMessage N)))
      → All P waiters
      → All
          (λ waiter. P waiter × (chosen waiter ≡ false))
          (drain_waiters chosen result waiters answers).0
  unfolding drain_waiters
  drain_waiters-All P [] answers h = tt
  drain_waiters-All P (waiter ∷ waiters) answers h = elim (Bool-cases (chosen waiter)) [
    | inl yes_chosen ↦
        rw yes_chosen (drain_waiters-All P waiters (answer waiter result answers) h.1)
    | inr not_chosen ↦ rw not_chosen ((h.0, not_chosen), drain_waiters-All P waiters answers h.1)
  ]

module _ (P : Waiter → Type 0) where
  All-if :
      (b : Bool) (waiters others : List Waiter)
      → All P waiters
      → All P others
      → All P (if b then waiters else others)
  All-if true waiters others h k = h
  All-if false waiters others h k = k

  pub keep_open-All : (waiters : List Waiter) → All P waiters → All P (keep_open waiters)
  keep_open-All [] h = tt
  keep_open-All (waiter ∷ waiters) h =
      let rest = keep_open-All waiters h.1 in
      All-if waiter.closed (keep_open waiters) (waiter ∷ keep_open waiters) rest (h.0, rest)

  pub close_channel-All :
      (closing : (waiter : Waiter) → P waiter → P (record waiter { closed = true })) (channel : ℕ)
      (waiters : List Waiter)
      → All P waiters
      → All P (close_channel channel waiters)
  close_channel-All closing channel [] h = tt
  close_channel-All closing channel (waiter ∷ waiters) h =
      elim (Bool-cases (waiter.channel == channel)) [
        | inl same ↦ rw same (closing waiter h.0, close_channel-All closing channel waiters h.1)
        | inr other ↦ rw other (h.0, close_channel-All closing channel waiters h.1)
      ]
