-- ===== src/Preview/Pointer.antt =====
-- The escaping of field names in a JSON pointer (cli/truncation.rs), with a reader for it.
use snow_cli.Base.{
  ==_iff, sym, Bool, false, true, codes, ap, ℕ, Text, [], if◌then◌else◌, ◌&&◌, ◌==◌, refl, ◌++◌,
  ◌∷◌, ◌∙◌, ◌≡◌,
}
use snow_cli.Preview.{replace, escape_json_pointer_segment}

-- Reading an escaped name, as RFC 6901 has it: "~1" is a slash and "~0" a tilde.
unfoldable pub unescape : Text → Text
unescape [] = []
unescape (c ∷ []) = c ∷ []
unescape (c ∷ d ∷ s) =
    let one = unescape (d ∷ s) in
    let two = unescape s in
    if (c == b'~') && (d == b'1')
    then b'/' ∷ two
    else if (c == b'~') && (d == b'0')
    then b'~' ∷ two
    else c ∷ one

-- The escaping of one character.
abbrev escape_char : ℕ → Text
escape_char c = if c == b'~' then codes "~0" else if c == b'/' then codes "~1" else c ∷ []

escape_lem :
    (c : ℕ) (s : Text)
    → escape_json_pointer_segment (c ∷ s) ≡ escape_char c ++ escape_json_pointer_segment s
unfolding escape_json_pointer_segment replace
escape_lem c s = by_char (c == b'~') (c == b'/') refl refl
  where
    by_char :
        (tilde slash : Bool)
        → (c == b'~') ≡ tilde
        → (c == b'/') ≡ slash
        → escape_json_pointer_segment (c ∷ s) ≡ escape_char c ++ escape_json_pointer_segment s
    by_char true slash h k = rw h refl
    by_char false true h k = rw (h, k) refl
    by_char false false h k = rw (h, k) refl

unescape-escape_char : (c : ℕ) (s : Text) → unescape (escape_char c ++ s) ≡ c ∷ unescape s
unfolding unescape
unescape-escape_char c s = by_char (c == b'~') (c == b'/') refl refl s
  where
    by_char :
        (tilde slash : Bool)
        → (c == b'~') ≡ tilde
        → (c == b'/') ≡ slash
        → (t : Text) → unescape (escape_char c ++ t) ≡ c ∷ unescape t
    by_char true slash h k t = rw h (ap (λ d. d ∷ unescape t) (sym ((==_iff c b'~').0 h)))
    by_char false true h k t = rw (h, k) (ap (λ d. d ∷ unescape t) (sym ((==_iff c b'/').0 k)))
    by_char false false h k [] = rw (h, k) refl
    by_char false false h k (d ∷ t) = rw (h, k, h) refl

-- Reading an escaped field name gives the name, so that two fields of a record have different paths.
pub unescape-escape_json_pointer_segment :
    (segment : Text) → unescape (escape_json_pointer_segment segment) ≡ segment
unfolding escape_json_pointer_segment replace unescape
unescape-escape_json_pointer_segment [] = refl
unescape-escape_json_pointer_segment (c ∷ s) =
    ap unescape (escape_lem c s)
    ∙ (unescape-escape_char c (escape_json_pointer_segment s)
        ∙ ap (λ t. c ∷ t) (unescape-escape_json_pointer_segment s))
