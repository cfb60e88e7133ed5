-- ===== src/Cookies.antt =====
-- The cookies of responses: `extract_jsessionid_from_headers` of client/session.rs and
-- `merge_cookie_header` of config/native_session.rs.
pub mod Laws
mod Tests
use snow_cli.Base.{
  starts_with, is_ascii_digit, all, strip_prefix, not, map, leb, unwrap_or, trim, split_on, join,
  is_empty, eq_ignore_ascii_case, codes, ℕ, text_eq, split_once, or_else, Bool, Text, Option, List,
  [], if◌then◌else◌, ◌||◌, ◌&&◌, ◌==◌, ◌++◌, ◌∷◌, false, none, some, ◌≡◌,
}

-- The headers of a response in order: the name in lower case, as the `http` crate keeps it, and the
-- value if it is visible ASCII (`to_str`).
abbrev pub Headers : Type 0
Headers = List (Text × Option Text)

-- The values of `headers.get_all(SET_COOKIE)` that `to_str` accepts.
unfoldable pub set_cookies : Headers → List Text
set_cookies [] = []
set_cookies (header ∷ headers) =
    let rest = set_cookies headers in
    if text_eq header.0 (codes "set-cookie")
    then elim header.1 [ none ↦ rest | some value ↦ value ∷ rest ]
    else rest

-- The text before the first semicolon.
unfoldable pub before_semicolon : Text → Text
before_semicolon text = elim (split_once b';' text) [ none ↦ text | some pair ↦ pair.0 ]

-- The session id of one `Set-Cookie` value.
unfoldable pub jsessionid_of : Text → Option Text
jsessionid_of set_cookie = elim (split_once b'=' (before_semicolon set_cookie)) [
  | none ↦ none
  | some pair ↦
      if eq_ignore_ascii_case (trim pair.0) (codes "JSESSIONID") && not (is_empty (trim pair.1))
      then some (trim pair.1)
      else none
]

abbrev first_jsessionid : List Text → Option Text
first_jsessionid [] = none
first_jsessionid (value ∷ values) = or_else (jsessionid_of value) (first_jsessionid values)

unfoldable pub extract_jsessionid_from_headers : Headers → Option Text
extract_jsessionid_from_headers headers = first_jsessionid (set_cookies headers)

abbrev pub Cookie : Type 0
Cookie = Text × Text

-- `filter_map(|cookie| cookie.trim().split_once('='))` on the parts of a cookie header.
unfoldable pub read_cookies : List Text → List Cookie
read_cookies [] = []
read_cookies (part ∷ parts) =
    let rest = read_cookies parts in
    elim (split_once b'=' (trim part)) [ none ↦ rest | some cookie ↦ cookie ∷ rest ]

-- What the attributes of a `Set-Cookie` value have said so far.
pub record Expiry : Type 0 where
  pub max_age_expired : Option Bool
  pub expires : Option ℕ

-- `max_age_expired` of a `Max-Age` value, where it is a number.
unfoldable pub max_age : Text → Option Bool
max_age value =
    let digits = unwrap_or (strip_prefix (codes "-") value) value in
    if not (is_empty digits) && all is_ascii_digit digits
    then some (starts_with b'-' value || all (λ byte. byte == b'0') digits)
    else none

-- `cookies.retain` with the names that differ.
unfoldable pub retain : Text → List Cookie → List Cookie
retain name [] = []
retain name (cookie ∷ cookies) =
    let rest = retain name cookies in
    if eq_ignore_ascii_case cookie.0 name then rest else cookie ∷ rest

-- What one `Set-Cookie` value asks for: nothing, or a cookie to be deleted or set.
pub data Update : Type 0 where
  unchanged : Update
  delete : (name : Text) → Update
  set : (name value : Text) → Update

unfoldable pub update : Update → List Cookie → List Cookie
update unchanged cookies = cookies
update (delete name) cookies = retain name cookies
update (set name value) cookies = retain name cookies ++ (name, value) ∷ []

-- The parser of dates of the `httpdate` crate is a parameter, a time is a number.
module _ (parse_http_date : Text → Option ℕ) (now : ℕ) where
  unfoldable pub read_attribute : Expiry → Text → Expiry
  read_attribute expiry attribute = elim (split_once b'=' (trim attribute)) [
    | none ↦ expiry
    | some pair ↦
        if eq_ignore_ascii_case pair.0 (codes "max-age")
        then record {
          max_age_expired = or_else (max_age (trim pair.1)) expiry.max_age_expired;
          expires = expiry.expires;
        }
        else if eq_ignore_ascii_case pair.0 (codes "expires")
        then record {
          max_age_expired = expiry.max_age_expired;
          expires = or_else (parse_http_date (trim pair.1)) expiry.expires;
        }
        else expiry
  ]

  abbrev pub read_attributes : Expiry → List Text → Expiry
  read_attributes expiry [] = expiry
  read_attributes expiry (attribute ∷ attributes) =
      read_attributes (read_attribute expiry attribute) attributes

  -- Whether the cookie is to be deleted.
  unfoldable pub is_deleted : Text → Expiry → Bool
  is_deleted value expiry =
      is_empty value
      || unwrap_or expiry.max_age_expired
          (elim expiry.expires [ none ↦ false | some date ↦ leb date now ])

  unfoldable pub read_update : Text → Update
  read_update value = elim (split_on b';' value) [
    | [] ↦ unchanged
    | first ∷ parts ↦ elim (split_once b'=' (trim first)) [
      | none ↦ unchanged
      | some cookie ↦
          let expiry = read_attributes (record { max_age_expired = none; expires = none }) parts in
          if is_deleted cookie.1 expiry then delete cookie.0 else set cookie.0 cookie.1
    ]
  ]

  abbrev pub merge_all : List Cookie → List Text → List Cookie
  merge_all cookies [] = cookies
  merge_all cookies (value ∷ values) = merge_all (update (read_update value) cookies) values

  abbrev pub show_cookie : Cookie → Text
  show_cookie cookie = cookie.0 ++ b'=' ∷ cookie.1

  unfoldable pub merge_cookie_header : Text → Headers → Text
  merge_cookie_header cookie_header headers = join (codes "; ") (
      map show_cookie
        (merge_all (read_cookies (split_on b';' cookie_header)) (set_cookies headers)))
