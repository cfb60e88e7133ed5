-- ===== src/OrderBy/Tests.antt =====
-- Runs of models/order_by.rs, and the theorems at concrete specifications.
use snow_cli.Base.{
  is_whitespace, join, contains, trim_end_matches, true, rsplit_once, strip_prefix, Text, trim,
  last?, map, some, err, ok, codes, split_on, collect, All, [], ◌==◌, refl, ◌++◌, ◌∷◌, ◌↔◌, ◌≢◌,
  ◌≡◌,
}
use snow_cli.OrderBy.{
  show_from, clause, bad_field, is_bad_field, bad_direction, field_and_direction, desc, asc,
  parse_key, apply_to_query, to_string, to_encoded_query, parse, OrderBy,
}
use snow_cli.OrderBy.Query.{apply_to_query-split, to_encoded_query-read_back, IsDistinct, given}
use snow_cli.OrderBy.Canonical.{IsCanonical}
use snow_cli.OrderBy.RoundTrip.{parse-to_string}
use snow_cli.OrderBy.Fields.{IsPath, parse-IsPath}

parse_runs : Unit {0}
unfolding parse parse_key field_and_direction is_bad_field to_string show_from to_encoded_query
    apply_to_query split_on trim strip_prefix rsplit_once trim_end_matches contains join collect
    is_whitespace
parse_runs = tt

abbrev created : OrderBy
created = record {
  keys =
      record { field = codes "created_on"; direction = desc }
      ∷ record { field = codes "number"; direction = asc }
      ∷ [];
}

parsed : parse (codes " -created_on, number:ASC") ≡ ok created
unfolding parse_runs
parsed = refl

rendered :
    (to_string created ≡ codes "-created_on,number")
    × (to_encoded_query created ≡ codes "ORDERBYDESCcreated_on^ORDERBYnumber")
    × (apply_to_query created (some (codes " active=true^ ^"))
        ≡ codes "active=true^ ^ORDERBYDESCcreated_on^ORDERBYnumber")
unfolding parse_runs
rendered = (refl, refl, refl)

refused :
    (parse (codes "number:up") ≡ err (bad_direction (codes "up") (codes "number:up")))
    × (parse (codes "a..b") ≡ err (bad_field (codes "a..b")))
unfolding parse_runs
refused = (refl, refl)

parse-IsPath_example : (created.keys ≢ []) × All IsPath created.keys
parse-IsPath_example = parse-IsPath (codes " -created_on, number:ASC") created parsed

parse-to_string_example : (parse (to_string created) ≡ ok created) ↔ All IsCanonical created.keys
parse-to_string_example = parse-to_string (codes " -created_on, number:ASC") created parsed

to_encoded_query-read_back_example :
    (collect parse_key (split_on b'^' (to_encoded_query created)) ≡ ok created.keys)
    ↔ All IsDistinct created.keys
to_encoded_query-read_back_example =
    to_encoded_query-read_back (codes " -created_on, number:ASC") created parsed

active_left : given (codes "active=true^") ≢ []
unfolding parse_runs given
active_left e = cc e

apply_to_query-split_example :
    (split_on b'^' (apply_to_query created (some (codes "active=true^")))
      ≡ split_on b'^' (given (codes "active=true^")) ++ map clause created.keys)
    × (last? (split_on b'^' (given (codes "active=true^"))) ≢ some [])
    × ((carets : Text) × All (λ d. (d == b'^') ≡ true) carets
        × (trim (codes "active=true^") ≡ given (codes "active=true^") ++ carets))
apply_to_query-split_example =
    apply_to_query-split (codes " -created_on, number:ASC") (codes "active=true^") created parsed
      active_left

-- The two spellings that are not read back.
abbrev twice : OrderBy
twice = record { keys = record { field = codes "ORDERBYx"; direction = asc } ∷ [] }

not_canonical : (parse (codes "ORDERBYORDERBYx") ≡ ok twice) × (to_string twice ≡ codes "ORDERBYx")
unfolding parse_runs
not_canonical = (refl, refl)

not_distinct :
    to_encoded_query (record { keys = record { field = codes "DESCx"; direction = asc } ∷ [] })
    ≡ to_encoded_query (record { keys = record { field = codes "x"; direction = desc } ∷ [] })
unfolding parse_runs
not_distinct = refl
