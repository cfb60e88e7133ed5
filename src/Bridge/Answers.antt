-- ===== src/Bridge/Answers.antt =====
-- Who answers a waiter of snu/bridge.rs, and how often.
use snow_cli.Base.{
  arith, if-elim, Bool-cases, inl, inr, All, All-append, count, count-append, Bool, ℕ, List, Result,
  ◌==◌, ◌++◌, ◌∷◌, [], ◌≤◌, ◌+◌, true, none, ok, err, ◌≡◌, ◌≢◌, refl, if◌then◌else◌,
}
use snow_cli.Origin.{UrlCrate}
use snow_cli.Bridge.Messages.{SnuMessage, RequestError, disconnected, matches}
use snow_cli.Bridge.State.{Waiter, answer, drain_waiters, keep_open, close_channel}

abbrev pub Answer : Type 0 → Type 0
Answer N = Waiter × Result RequestError (SnuMessage N)

abbrev pub is_on : ℕ → Waiter → Bool
is_on channel waiter = waiter.channel == channel

abbrev pub is_answer_on : {N : Type 0} → ℕ → Answer N → Bool
is_answer_on channel given = is_on channel given.0

-- A message that is given is one that was waited for; an error is the loss of a connection.
abbrev pub IsRight : {N U : Type 0} → UrlCrate U → Answer N → Type 0
IsRight crate (waiter, ok message) = matches crate waiter.matcher message ≡ true
IsRight crate (waiter, err e) = (e ≡ disconnected) × (waiter.waits_on ≢ none)

-- Of the channels so far each has one waiter or one answer at most.
abbrev pub IsOnce : {N : Type 0} → ℕ → List Waiter → List (Answer N) → Type 0
IsOnce channels waiters answers =
    (c : ℕ)
    → (count (is_on c) waiters + count (is_answer_on c) answers ≤ 1)
      × (channels ≤ c → count (is_on c) waiters + count (is_answer_on c) answers ≡ 0)

module _ {N : Type 0} (chosen : Waiter → Bool) (result : Result RequestError (SnuMessage N)) where
  count-answer :
      (c : ℕ) (waiter : Waiter) (answers : List (Answer N))
      → count (is_answer_on c) (answer waiter result answers)
        ≤ count (is_on c) (waiter ∷ []) + count (is_answer_on c) answers
  count-answer c waiter answers =
      if-elim
        (λ out.
          count (is_answer_on c) out
          ≤ count (is_on c) (waiter ∷ []) + count (is_answer_on c) answers)
        waiter.closed answers (answers ++ (waiter, result) ∷ []) (λ _. ground arith)
        (λ _. ground (arith, count-append (is_answer_on c) answers ((waiter, result) ∷ [])))

  -- What is taken from the waiters is as much as the answers grow by, at most.
  pub count-drain_waiters :
      (c : ℕ) (waiters : List Waiter) (answers : List (Answer N))
      → (let out = drain_waiters chosen result waiters answers in
          count (is_on c) out.0 + count (is_answer_on c) out.1
          ≤ count (is_on c) waiters + count (is_answer_on c) answers)
  unfolding drain_waiters
  count-drain_waiters c [] answers = ground arith
  count-drain_waiters c (waiter ∷ waiters) answers = elim (Bool-cases (chosen waiter)) [
    | inl yes_chosen ↦ rw yes_chosen (
        omega (
          arith,
          count-drain_waiters c waiters (answer waiter result answers),
          count-answer c waiter answers,
        ))
    | inr not_chosen ↦ rw not_chosen (omega (arith, count-drain_waiters c waiters answers))
  ]

  pub drain_waiters-AreRight :
      {U : Type 0} (crate : UrlCrate U)
      → ((waiter : Waiter) → chosen waiter ≡ true → IsRight crate (waiter, result))
      → (waiters : List Waiter) (answers : List (Answer N)) → All (IsRight crate) answers
      → All (IsRight crate) (drain_waiters chosen result waiters answers).1
  unfolding drain_waiters
  drain_waiters-AreRight crate right [] answers h = h
  drain_waiters-AreRight crate right (waiter ∷ waiters) answers h =
      drain_waiters-AreRight crate right waiters
        (if chosen waiter then answer waiter result answers else answers)
        (if-elim (All (IsRight crate)) (chosen waiter) (answer waiter result answers) answers
          (λ is_chosen.
            if-elim (All (IsRight crate)) waiter.closed answers (answers ++ (waiter, result) ∷ [])
              (λ _. h)
              (λ _.
                All-append (IsRight crate) answers ((waiter, result) ∷ []) h
                  (right waiter is_chosen, tt)))
          (λ _. h))

pub count-keep_open :
    (c : ℕ) (waiters : List Waiter) → count (is_on c) (keep_open waiters) ≤ count (is_on c) waiters
count-keep_open c [] = ground arith
count-keep_open c (waiter ∷ waiters) =
    if-elim (λ (out : List Waiter). count (is_on c) out ≤ count (is_on c) (waiter ∷ waiters))
      waiter.closed (keep_open waiters) (waiter ∷ keep_open waiters)
      (λ _. omega (arith, count-keep_open c waiters))
      (λ _. omega (arith, count-keep_open c waiters))

pub count-close_channel :
    (c channel : ℕ) (waiters : List Waiter)
    → count (is_on c) (close_channel channel waiters) ≡ count (is_on c) waiters
count-close_channel c channel [] = refl
count-close_channel c channel (waiter ∷ waiters) =
    let first =
      if-elim (λ (out : Waiter). count (is_on c) (out ∷ []) ≡ count (is_on c) (waiter ∷ []))
        (waiter.channel == channel) (record waiter { closed = true }) waiter (λ _. refl)
        (λ _. refl) in
    omega (arith, first, count-close_channel c channel waiters)
