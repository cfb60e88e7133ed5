-- ===== src/OrderBy/Query.antt =====
-- `to_encoded_query` and `apply_to_query` of models/order_by.rs: what the server finds when it
-- splits the query at its carets.
use snow_cli.Base.{
  not, is_empty, if◌then◌else◌, true, some, trim, last?, ends_with, trim_end_matches, ◌==◌, none,
  codes, ap, false, split_on, ok, map, arith, strip_prefix, All, List, join, collect, Text, [],
  refl, ◌++◌, ◌∷◌, ◌∙◌, ◌↔◌, ◌≢◌, ◌≡◌,
}
use snow_cli.OrderBy.{
  apply_to_query, desc, asc, orderbydesc, orderby, SortDirection, is_bad_field, parse, clause,
  field_and_direction, OrderBy, to_encoded_query, parse_key, SortKey,
}
use snow_cli.OrderBy.Canonical.{field_chars, field-Lacks, IsValid}
use snow_cli.OrderBy.Pieces.{split_on-append, split_on_of_Lacks, Lacks}
use snow_cli.OrderBy.RoundTrip.{parse-IsValid}
use snow_cli.OrderBy.Carets.{last-split_on, trim_end_by-append, split_on_cat, ends_with-trim_end_by}

-- The spelling of an ascending clause must not read as that of a descending one.
abbrev pub IsDistinct : SortKey → Type 0
IsDistinct key = elim key.direction [
  | asc ↦ strip_prefix (codes "DESC") key.field ≡ none
  | desc ↦ Unit {0}
]

parse_key-clause_desc :
    (field : Text)
    → is_bad_field field ≡ false
    → parse_key (orderbydesc ++ field) ≡ ok (record { field = field; direction = desc })
unfolding parse_key field_and_direction strip_prefix
parse_key-clause_desc field good = rw good

parse_key-clause_asc :
    (field : Text)
    → is_bad_field field ≡ false
    → (parse_key (orderby ++ field) ≡ ok (record { field = field; direction = asc }))
      ↔ (strip_prefix (codes "DESC") field ≡ none)
unfolding parse_key field_and_direction strip_prefix
parse_key-clause_asc field good = ground arith

parse_key-clause_iff :
    (key : SortKey) → IsValid key → (parse_key (clause key) ≡ ok key) ↔ IsDistinct key
parse_key-clause_iff key good = by_direction key.direction key.field good
  where
    by_direction :
        (direction : SortDirection) (field : Text)
        → is_bad_field field ≡ false
        → (parse_key (clause (record { field = field; direction = direction }))
            ≡ ok (record { field = field; direction = direction }))
          ↔ IsDistinct (record { field = field; direction = direction })
    by_direction desc field valid = (λ h. tt, λ h. parse_key-clause_desc field valid)
    by_direction asc field valid = parse_key-clause_asc field valid

clause-Lacks : (key : SortKey) → IsValid key → Lacks b'^' (clause key)
clause-Lacks key good = ground (arith, field-Lacks key.field (field_chars key.field good))

split_on-clauses :
    (key : SortKey) (keys : List SortKey)
    → All IsValid (key ∷ keys)
    → split_on b'^' (join (b'^' ∷ []) (map clause (key ∷ keys))) ≡ map clause (key ∷ keys)
unfolding join
split_on-clauses key [] h = split_on_of_Lacks b'^' (clause key) (clause-Lacks key h.0)
split_on-clauses key (next ∷ keys) h =
    split_on-append b'^' (clause key) _ (clause-Lacks key h.0)
    ∙ ap (λ rest. clause key ∷ rest) (split_on-clauses next keys h.1)

collect-clauses_iff :
    (keys : List SortKey)
    → All IsValid keys
    → (collect parse_key (map clause keys) ≡ ok keys) ↔ All IsDistinct keys
unfolding collect
collect-clauses_iff [] h = (λ e. tt, λ e. refl)
collect-clauses_iff (key ∷ keys) h =
    ground (arith, parse_key-clause_iff key h.0, collect-clauses_iff keys h.1)

split_on-to_encoded_query :
    (order : OrderBy)
    → order.keys ≢ []
    → All IsValid order.keys
    → split_on b'^' (to_encoded_query order) ≡ map clause order.keys
unfolding to_encoded_query
split_on-to_encoded_query order = over order.keys
  where
    over :
        (keys : List SortKey)
        → keys ≢ []
        → All IsValid keys
        → split_on b'^' (join (b'^' ∷ []) (map clause keys)) ≡ map clause keys
    over [] filled h = absurd (filled refl)
    over (key ∷ keys) filled h = split_on-clauses key keys h

-- Split at its carets and read clause by clause, the encoded query of a parsed specification gives
-- back its keys exactly if none of its ascending fields begins with "DESC".
pub to_encoded_query-read_back :
    (value : Text) (order : OrderBy)
    → parse value ≡ ok order
    → (collect parse_key (split_on b'^' (to_encoded_query order)) ≡ ok order.keys)
      ↔ All IsDistinct order.keys
to_encoded_query-read_back value order h =
    let (filled, valid) = parse-IsValid value order h in
    rw (split_on-to_encoded_query order filled valid) (collect-clauses_iff order.keys valid)

-- The query as it is given, without the white space around it and the carets at its end.
unfoldable pub given : Text → Text
given query = trim_end_matches b'^' (trim query)

filled-append :
    (q clauses : Text)
    → q ≢ []
    → (if not (is_empty q) then q ++ b'^' ∷ clauses else clauses) ≡ q ++ b'^' ∷ clauses
filled-append [] clauses filled = absurd (filled refl)
filled-append (c ∷ q) clauses filled = refl

apply_to_query_of_given :
    (order : OrderBy) (query : Text)
    → given query ≢ []
    → apply_to_query order (some query) ≡ given query ++ b'^' ∷ to_encoded_query order
unfolding apply_to_query given
apply_to_query_of_given order query filled =
    filled-append (trim_end_matches b'^' (trim query)) (to_encoded_query order) filled

given-ends : (query : Text) → ends_with b'^' (given query) ≡ false
unfolding given trim_end_matches
given-ends query = ends_with-trim_end_by b'^' (trim query)

given-append :
    (query : Text)
    → (carets : Text) × All (λ d. (d == b'^') ≡ true) carets × (trim query ≡ given query ++ carets)
unfolding given trim_end_matches
given-append query = trim_end_by-append (λ d. d == b'^') (trim query)

-- Applied to a query of which something is left without the white space around it and the carets at
-- its end, a parsed specification adds its clauses behind: split at its carets, the result has the
-- conditions of the query, in order and with no empty one at their end, and then the clauses. Only
-- carets were dropped from the end of the trimmed query.
pub apply_to_query-split :
    (value query : Text) (order : OrderBy)
    → parse value ≡ ok order
    → given query ≢ []
    → (split_on b'^' (apply_to_query order (some query))
        ≡ split_on b'^' (given query) ++ map clause order.keys)
      × (last? (split_on b'^' (given query)) ≢ some [])
      × ((carets : Text) × All (λ d. (d == b'^') ≡ true) carets
          × (trim query ≡ given query ++ carets))
apply_to_query-split value query order h filled =
    let (some_keys, valid) = parse-IsValid value order h in
    (
      ap (split_on b'^') (apply_to_query_of_given order query filled)
          ∙ split_on_cat b'^' (given query) (to_encoded_query order)
          ∙ ap (λ parts. split_on b'^' (given query) ++ parts)
              (split_on-to_encoded_query order some_keys valid),
      last-split_on b'^' (given query) filled (given-ends query),
      given-append query,
    )
