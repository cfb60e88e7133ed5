-- ===== src/Cookies/Laws.antt =====
-- The properties of `merge_cookie_header` (config/native_session.rs), beside an abstract map.
use snow_cli.Base.{
  Bool-cases, inr, inl, ◌∙◌, map, arith, ℕ, text_eq_iff, or_else, to_ascii_lowercase, Option, List,
  eq_ignore_ascii_case, Text, [], if◌then◌else◌, refl, ◌++◌, ◌∷◌, ◌↔◌, true, none, some, ◌≡◌,
}
use snow_cli.Cookies.{
  unchanged, delete, set, set, read_update, delete, update, Update, Cookie, retain, merge_all,
}

-- The value of the first cookie with the name, whatever its case.
unfoldable pub lookup : Text → List Cookie → Option Text
lookup name [] = none
lookup name (cookie ∷ cookies) =
    let rest = lookup name cookies in
    if eq_ignore_ascii_case cookie.0 name then some cookie.1 else rest

-- The abstract store: the value of each name.
abbrev pub Store : Type 0
Store = Text → Option Text

unfoldable pub apply : Update → Store → Store
apply unchanged store name = store name
apply (delete deleted) store name = if eq_ignore_ascii_case deleted name then none else store name
apply (set changed value) store name =
    if eq_ignore_ascii_case changed name then some value else store name

lookup-append :
    (name : Text) (xs ys : List Cookie)
    → lookup name (xs ++ ys) ≡ or_else (lookup name xs) (lookup name ys)
unfolding lookup
lookup-append name [] ys = refl
lookup-append name (x ∷ xs) ys = ground (arith, lookup-append name xs ys)

-- Names that are equal to a third are equal.
eq_ignore_ascii_case_iff :
    (s t : Text) → (eq_ignore_ascii_case s t ≡ true) ↔ (to_ascii_lowercase s ≡ to_ascii_lowercase t)
eq_ignore_ascii_case_iff s t = text_eq_iff (to_ascii_lowercase s) (to_ascii_lowercase t)

lookup-retain :
    (name removed : Text) (cookies : List Cookie)
    → lookup name (retain removed cookies)
      ≡ (if eq_ignore_ascii_case removed name then none else lookup name cookies)
unfolding lookup retain
lookup-retain name removed [] = ground arith
lookup-retain name removed (cookie ∷ cookies) = ground (
  arith,
  lookup-retain name removed cookies,
  eq_ignore_ascii_case_iff cookie.0 removed,
  eq_ignore_ascii_case_iff removed name,
  eq_ignore_ascii_case_iff cookie.0 name,
)

-- The list of cookies implements the store.
lookup-update :
    (name : Text) (change : Update) (cookies : List Cookie)
    → lookup name (update change cookies) ≡ apply change (λ n. lookup n cookies) name
unfolding update apply lookup
lookup-update name unchanged cookies = refl
lookup-update name (delete removed) cookies = lookup-retain name removed cookies
lookup-update name (set changed value) cookies = ground (
  arith,
  lookup-append name (retain changed cookies) ((changed, value) ∷ []),
  lookup-retain name changed cookies,
)

-- The store after updates in order.
abbrev pub replay : List Update → Store → Store
replay [] store = store
replay (change ∷ changes) store = replay changes (apply change store)

apply-ext :
    (change : Update) (left right : Store)
    → ((name : Text) → left name ≡ right name)
    → (name : Text) → apply change left name ≡ apply change right name
unfolding apply
apply-ext unchanged left right same name = same name
apply-ext (delete removed) left right same name = ground (arith, same name)
apply-ext (set changed value) left right same name = ground (arith, same name)

replay-ext :
    (changes : List Update) (left right : Store)
    → ((name : Text) → left name ≡ right name)
    → (name : Text) → replay changes left name ≡ replay changes right name
replay-ext [] left right same name = same name
replay-ext (change ∷ changes) left right same name =
    replay-ext changes (apply change left) (apply change right) (apply-ext change left right same)
      name

-- No two cookies have names that differ at most in case.
unfoldable pub IsDistinct : List Cookie → Type 0
IsDistinct [] = Unit
IsDistinct (cookie ∷ cookies) = (lookup cookie.0 cookies ≡ none) × IsDistinct cookies

retain-IsDistinct :
    (removed : Text) (cookies : List Cookie)
    → IsDistinct cookies
    → IsDistinct (retain removed cookies)
unfolding retain IsDistinct
retain-IsDistinct removed [] h = tt
retain-IsDistinct removed (cookie ∷ cookies) h =
    elim (Bool-cases (eq_ignore_ascii_case cookie.0 removed)) [
      | inl same ↦ rw same (retain-IsDistinct removed cookies h.1)
      | inr other ↦ rw other (
        ground (arith, lookup-retain cookie.0 removed cookies),
        retain-IsDistinct removed cookies h.1,
      )
    ]

append-IsDistinct :
    (cookies : List Cookie) (last : Cookie)
    → IsDistinct cookies
    → lookup last.0 cookies ≡ none
    → IsDistinct (cookies ++ last ∷ [])
unfolding IsDistinct lookup
append-IsDistinct [] last h new = (refl, tt)
append-IsDistinct (cookie ∷ cookies) last h new = (
  ground (
    arith,
    lookup-append cookie.0 cookies (last ∷ []),
    eq_ignore_ascii_case_iff cookie.0 last.0,
    eq_ignore_ascii_case_iff last.0 cookie.0,
  ),
  append-IsDistinct cookies last h.1 (ground arith),
)

update-IsDistinct :
    (change : Update) (cookies : List Cookie)
    → IsDistinct cookies
    → IsDistinct (update change cookies)
unfolding update
update-IsDistinct unchanged cookies h = h
update-IsDistinct (delete name) cookies h = retain-IsDistinct name cookies h
update-IsDistinct (set name value) cookies h =
    append-IsDistinct (retain name cookies) (name, value) (retain-IsDistinct name cookies h)
      (ground (arith, lookup-retain name name cookies, eq_ignore_ascii_case_iff name name))

module _ (parse_http_date : Text → Option ℕ) (now : ℕ) where
  -- Merging cookies with the `Set-Cookie` values of a response gives each name, in any case, the value
  -- that it has in an abstract map after the updates that the values ask for, one after the other.
  pub lookup-merge_all :
      (values : List Text) (cookies : List Cookie) (name : Text)
      → lookup name (merge_all parse_http_date now cookies values)
        ≡ replay (map (read_update parse_http_date now) values) (λ n. lookup n cookies) name
  lookup-merge_all [] cookies name = refl
  lookup-merge_all (value ∷ values) cookies name =
      lookup-merge_all values (update (read_update parse_http_date now value) cookies) name
      ∙ replay-ext (map (read_update parse_http_date now) values)
          (λ n. lookup n (update (read_update parse_http_date now value) cookies))
          (apply (read_update parse_http_date now value) (λ n. lookup n cookies))
          (λ n. lookup-update n (read_update parse_http_date now value) cookies) name

  -- Merging leaves no two cookies whose names differ at most in case, if there were none before.
  pub merge_all-IsDistinct :
      (values : List Text) (cookies : List Cookie)
      → IsDistinct cookies
      → IsDistinct (merge_all parse_http_date now cookies values)
  merge_all-IsDistinct [] cookies h = h
  merge_all-IsDistinct (value ∷ values) cookies h =
      merge_all-IsDistinct values (update (read_update parse_http_date now value) cookies)
        (update-IsDistinct (read_update parse_http_date now value) cookies h)
