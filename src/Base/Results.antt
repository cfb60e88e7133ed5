-- ===== src/Base/Results.antt =====
-- Rust's `Result`, with its bind.
use mathlib.Core.Path.{◌≡◌, refl}
use native.Mathlib.Omega.{arith}
use mathlib.Core.List.{List, [], ◌∷◌}

pub data Result {ℓ κ} (E : Type ℓ) (A : Type κ) : Type (ℓ ⊔ κ) where
  ok : A → Result E A
  err : E → Result E A

infixl 5 ◌>>=◌ ◌>>◌
-- `?`: what follows runs on the value, an error ends the function.
abbrev pub ◌>>=◌ {α β ε} :
    {Y : Type β} {X : Type α} {E : Type ε} → Result E X → (X → Result E Y) → Result E Y
tried >>= next = elim tried [ err problem ↦ err problem | ok value ↦ next value ]

-- `?` on a check that gives nothing.
abbrev pub ◌>>◌ {β ε} : {E : Type ε} {Y : Type β} → Result E (Unit {0}) → Result E Y → Result E Y
checked >> next = elim checked [ err problem ↦ err problem | ok _ ↦ next ]

-- A function that returns had a value to go on from.
pub ok_from {α β ε} :
    {X : Type α} {Y : Type β} {E : Type ε}
    → (next : X → Result E Y) (tried : Result E X) (result : Y) → (tried >>= next) ≡ ok result
    → (value : X) × ((tried ≡ ok value) × (next value ≡ ok result))
ok_from next (err problem) result h = absurd (ground arith)
ok_from next (ok value) result h = (value, (refl, h))

pub ok_after {β ε} :
    {Y : Type β} {E : Type ε} (checked : Result E (Unit {0})) {next : Result E Y} {result : Y}
    → (checked >> next) ≡ ok result
    → (checked ≡ ok tt) × (next ≡ ok result)
ok_after (err problem) h = absurd (ground arith)
ok_after (ok _) h = (refl, h)

-- `iter().map(f).collect::<Result<Vec<_>, _>>()`: the first error ends the walk.
unfoldable pub collect {ℓ κ μ} :
    {E : Type ℓ} {A : Type κ} {B : Type μ} → (A → Result E B) → List A → Result E (List B)
collect f [] = ok []
collect f (x ∷ xs) = let rest = collect f xs in f x >>= λ y. rest >>= λ ys. ok (y ∷ ys)
