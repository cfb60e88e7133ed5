-- ===== src/OrderBy/Pieces.antt =====
-- The text functions under models/order_by.rs: trimming, splitting at a comma or a colon.
use snow_cli.Base.{
  ℕ, ◌+◌, ◌≡◌, ◌≢◌, refl, Bool, false, [], ◌∷◌, ◌++◌, none, some, Text, All, length, is_whitespace,
  trim_end_by, trim, strip_prefix, rsplit_once, split_on, ◌==◌, arith,
}

-- No character of the text is `c`.
abbrev pub Lacks : ℕ → Text → Type 0
Lacks c s = All (λ d. (d == c) ≡ false) s

abbrev pub HasNoSpace : Text → Type 0
HasNoSpace s = All (λ d. is_whitespace d ≡ false) s

trim_end_by_keep : (p : ℕ → Bool) (s : Text) → All (λ d. p d ≡ false) s → trim_end_by p s ≡ s
unfolding trim_end_by
trim_end_by_keep p [] h = refl
trim_end_by_keep p (c ∷ s) h = ground (arith, trim_end_by_keep p s h.1)

pub trim_of_HasNoSpace : (s : Text) → HasNoSpace s → trim s ≡ s
unfolding trim
trim_of_HasNoSpace [] h = refl
trim_of_HasNoSpace (c ∷ s) h = rw h.0 (trim_end_by_keep is_whitespace (c ∷ s) h)

pub split_on_of_Lacks : (c : ℕ) (s : Text) → Lacks c s → split_on c s ≡ s ∷ []
unfolding split_on
split_on_of_Lacks c [] h = refl
split_on_of_Lacks c (d ∷ s) h = ground (arith, split_on_of_Lacks c s)

pub split_on-append : (c : ℕ) (s t : Text) → Lacks c s → split_on c (s ++ c ∷ t) ≡ s ∷ split_on c t
unfolding split_on
split_on-append c [] t h = ground arith
split_on-append c (d ∷ s) t h = ground (arith, split_on-append c s t)

pub split_on-ne-nil : (c : ℕ) (s : Text) → split_on c s ≢ []
unfolding split_on
split_on-ne-nil c [] = cc
split_on-ne-nil c (d ∷ s) = ground (arith, split_on-ne-nil c s)

pub rsplit_once_of_Lacks : (c : ℕ) (s : Text) → Lacks c s → rsplit_once c s ≡ none
unfolding rsplit_once
rsplit_once_of_Lacks c [] h = refl
rsplit_once_of_Lacks c (d ∷ s) h = rw (rsplit_once_of_Lacks c s h.1) (ground arith)

-- What is left behind a prefix is shorter.
pub length-strip_prefix :
    (p s rest : Text) → strip_prefix p s ≡ some rest → length s ≡ length p + length rest
unfolding strip_prefix
length-strip_prefix [] s rest h = ground arith
length-strip_prefix (c ∷ p) [] rest h = cc
length-strip_prefix (c ∷ p) (d ∷ s) rest h = ground (arith, length-strip_prefix p s rest)

-- A prefix of the prefix is one too.
pub strip_prefix_longer : (p q s : Text) → strip_prefix p s ≡ none → strip_prefix (p ++ q) s ≡ none
unfolding strip_prefix
strip_prefix_longer [] q s h = cc
strip_prefix_longer (c ∷ p) q [] h = refl
strip_prefix_longer (c ∷ p) q (d ∷ s) h = ground (arith, strip_prefix_longer p q s)

pub strip_prefix-append : (p s : Text) → strip_prefix p (p ++ s) ≡ some s
unfolding strip_prefix
strip_prefix-append [] s = refl
strip_prefix-append (c ∷ p) s = ground (arith, strip_prefix-append p s)
