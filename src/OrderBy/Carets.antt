-- ===== src/OrderBy/Carets.antt =====
-- Splitting a text at a character, and dropping a character from its end.
use snow_cli.Base.{
  is_empty, Bool-cases, true, some, false, last?, ends_with, cons_head, arith, All, Text, List,
  Bool, ℕ, trim_end_by, split_on, inr, inl, [], if◌then◌else◌, ◌&&◌, ◌==◌, refl, ◌++◌, ◌∷◌, ◌≢◌,
  ◌≡◌,
}
use snow_cli.OrderBy.Pieces.{split_on-ne-nil}

split_on_step :
    (c d : ℕ) (s : Text)
    → split_on c (d ∷ s) ≡ (if d == c then [] ∷ split_on c s else cons_head d (split_on c s))
unfolding split_on
split_on_step c d s = refl

cons_head-append :
    (d : ℕ) (parts more : List Text)
    → parts ≢ []
    → cons_head d (parts ++ more) ≡ cons_head d parts ++ more
cons_head-append d [] more filled = absurd (filled refl)
cons_head-append d (part ∷ parts) more filled = refl

pub split_on_cat : (c : ℕ) (s t : Text) → split_on c (s ++ c ∷ t) ≡ split_on c s ++ split_on c t
unfolding split_on
split_on_cat c [] t = ground arith
split_on_cat c (d ∷ s) t = ground (
  arith,
  split_on_cat c s t,
  cons_head-append d (split_on c s) (split_on c t),
  split_on-ne-nil c s,
)

last_part :
    (c : ℕ) (parts : List Text)
    → last? parts ≢ some []
    → parts ≢ []
    → (last? ([] ∷ parts) ≢ some []) × (last? (cons_head c parts) ≢ some [])
last_part c [] h filled = absurd (filled refl)
last_part c (p ∷ []) h filled = (h, λ e. cc e)
last_part c (p ∷ q ∷ parts) h filled = (h, h)

-- Split at a character that the text does not end with, the last part is not empty.
pub last-split_on :
    (c : ℕ) (s : Text) → s ≢ [] → ends_with c s ≡ false → last? (split_on c s) ≢ some []
last-split_on c [] filled h = absurd (filled refl)
last-split_on c (d ∷ []) filled h = rw (split_on_step c d []) (rw h (λ e. unfold split_on in cc e))
last-split_on c (d ∷ e ∷ s) filled h =
    let later = last-split_on c (e ∷ s) (λ eq. absurd (cc eq)) h in
    let (apart, joined) = last_part d (split_on c (e ∷ s)) later (split_on-ne-nil c (e ∷ s)) in
    rw (split_on_step c d (e ∷ s))
      (elim (Bool-cases (d == c)) [ inl same ↦ rw same apart | inr other ↦ rw other joined ])

ends_with-cons :
    (c d : ℕ) (rest : Text)
    → ends_with c rest ≡ false
    → ends_with c (if is_empty rest && d == c then [] else d ∷ rest) ≡ false
ends_with-cons c d [] h = ground arith
ends_with-cons c d (e ∷ rest) h = h

pub ends_with-trim_end_by : (c : ℕ) (s : Text) → ends_with c (trim_end_by (λ d. d == c) s) ≡ false
unfolding trim_end_by
ends_with-trim_end_by c [] = refl
ends_with-trim_end_by c (d ∷ s) =
    ends_with-cons c d (trim_end_by (λ d'. d' == c) s) (ends_with-trim_end_by c s)

trimmed_tail-cons :
    (p : ℕ → Bool) (c : ℕ) (s rest tail : Text)
    → All (λ d. p d ≡ true) tail
    → s ≡ rest ++ tail
    → (longer : Text) × All (λ d. p d ≡ true) longer
      × (c ∷ s ≡ (if is_empty rest && p c then [] else c ∷ rest) ++ longer)
trimmed_tail-cons p c s [] tail good same = elim (Bool-cases (p c)) [
  | inl drop ↦ (c ∷ tail, (drop, good), rw (drop, same) refl)
  | inr keep ↦ (tail, good, rw (keep, same) refl)
]
trimmed_tail-cons p c s (d ∷ rest) tail good same = (tail, good, rw same refl)

pub trim_end_by-append :
    (p : ℕ → Bool) (s : Text)
    → (tail : Text) × All (λ d. p d ≡ true) tail × (s ≡ trim_end_by p s ++ tail)
unfolding trim_end_by
trim_end_by-append p [] = ([], tt, refl)
trim_end_by-append p (c ∷ s) =
    let (tail, good, same) = trim_end_by-append p s in
    trimmed_tail-cons p c s (trim_end_by p s) tail good same
