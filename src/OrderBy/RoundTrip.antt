-- ===== src/OrderBy/RoundTrip.antt =====
-- `FromStr` and `Display` of models/order_by.rs against each other.
use snow_cli.Base.{
  refl, ok_from, ap, append-nil, true, trim, arith, split_on, map, length, ok, All, Text, collect,
  List, ◌≡◌, ◌≢◌, ◌∙◌, ◌↔◌, [], ◌∷◌,
}
use snow_cli.OrderBy.{shown, parse_key, OrderBy, to_string, show_from, SortKey, parse}
use snow_cli.OrderBy.Canonical.{
  shown-Lacks, parse_key-shown_iff, parse_key-IsValid, IsCanonical, IsValid,
}
use snow_cli.OrderBy.Pieces.{
  split_on-ne-nil, split_on-append, split_on_of_Lacks, trim_of_HasNoSpace,
}

collect-IsValid :
    (items : List Text) (keys : List SortKey)
    → collect parse_key items ≡ ok keys
    → All IsValid keys × (length keys ≡ length items)
unfolding collect
collect-IsValid [] keys h = ground arith
collect-IsValid (item ∷ items) [] h = ground arith
collect-IsValid (item ∷ items) (key ∷ keys) h =
    ground (arith, parse_key-IsValid item key, collect-IsValid items keys)

-- The spelling of the keys is split at its commas only.
split_on-show :
    (key : SortKey) (keys : List SortKey)
    → All IsValid (key ∷ keys)
    → split_on b',' (show_from true (key ∷ keys)) ≡ map shown (key ∷ keys)
unfolding show_from
split_on-show key [] h = rw append-nil (split_on_of_Lacks b',' (shown key) (shown-Lacks key h.0).0)
split_on-show key (next ∷ keys) h =
    split_on-append b',' (shown key) _ (shown-Lacks key h.0).0
    ∙ ap (λ rest. shown key ∷ rest) (split_on-show next keys h.1)

trim-shown : (keys : List SortKey) → All IsValid keys → map trim (map shown keys) ≡ map shown keys
trim-shown [] h = refl
trim-shown (key ∷ keys) h =
    cc (trim_of_HasNoSpace (shown key) (shown-Lacks key h.0).1, trim-shown keys h.1)

collect-shown_iff :
    (keys : List SortKey)
    → All IsValid keys
    → (collect parse_key (map shown keys) ≡ ok keys) ↔ All IsCanonical keys
unfolding collect
collect-shown_iff [] h = (λ e. tt, λ e. refl)
collect-shown_iff (key ∷ keys) h =
    ground (arith, parse_key-shown_iff key h.0, collect-shown_iff keys h.1)

collect-ne-nil :
    (items : List Text) (keys : List SortKey)
    → items ≢ []
    → collect parse_key (map trim items) ≡ ok keys
    → keys ≢ []
unfolding collect
collect-ne-nil [] keys filled h = absurd (filled refl)
collect-ne-nil (item ∷ items) keys filled h = ground arith

-- A parsed specification has at least one key, and no field that `is_bad_field` holds of.
pub parse-IsValid :
    (value : Text) (order : OrderBy)
    → parse value ≡ ok order
    → (order.keys ≢ []) × All IsValid order.keys
unfolding parse
parse-IsValid value order h =
    let (keys, (read, same)) = ok_from _ (collect parse_key (map trim (split_on b',' value))) _ h in
    let filled = collect-ne-nil (split_on b',' value) keys (split_on-ne-nil b',' value) read in
    let (valid, size) = collect-IsValid (map trim (split_on b',' value)) keys read in
    let it : keys ≡ order.keys = cc same in rw (← it) (filled, valid)

to_string_iff :
    (keys : List SortKey)
    → keys ≢ []
    → All IsValid keys
    → (parse (to_string (record { keys = keys })) ≡ ok (record { keys = keys }))
      ↔ All IsCanonical keys
unfolding parse to_string
to_string_iff [] filled h = absurd (filled refl)
to_string_iff (key ∷ keys) filled h =
    rw (split_on-show key keys h)
      (rw (trim-shown (key ∷ keys) h) (ground (arith, collect-shown_iff (key ∷ keys) h)))

-- A parsed specification, written by `Display`, is read back as the same value exactly if none of its
-- ascending fields begins with "ORDERBY".
pub parse-to_string :
    (value : Text) (order : OrderBy)
    → parse value ≡ ok order
    → (parse (to_string order) ≡ ok order) ↔ All IsCanonical order.keys
parse-to_string value order h =
    let (filled, valid) = parse-IsValid value order h in to_string_iff order.keys filled valid
