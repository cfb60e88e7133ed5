-- ===== src/Cookies/Tests.antt =====
-- Runs on concrete headers.
use snow_cli.Base.{
  strip_prefix, join, split_on, is_whitespace, trim_end_by, trim_start, trim, split_once, ℕ, map,
  Option, codes, Text, List, [], refl, ◌∷◌, none, some, ◌≡◌,
}
use snow_cli.Cookies.{
  read_cookies, merge_cookie_header, max_age, is_deleted, read_attribute, retain, before_semicolon,
  read_update, jsessionid_of, Cookie, update, set_cookies, merge_all,
  extract_jsessionid_from_headers, Headers,
}
use snow_cli.Cookies.Laws.{lookup, replay, lookup-merge_all, IsDistinct}

abbrev no_date : Text → Option ℕ
no_date value = none

abbrev jar : List Cookie
jar = (codes "JSESSIONID", codes "old") ∷ (codes "glide", codes "1") ∷ []

abbrev values : List Text
values = codes "jsessionid=new; Path=/" ∷ codes "glide=x; Max-Age=0" ∷ []

abbrev response : Headers
response =
    (codes "set-cookie", some (codes "a=b"))
    ∷ (codes "set-cookie", none)
    ∷ (codes "set-cookie", some (codes "JSessionId = abc ; Secure"))
    ∷ []

merged :
    (merge_all no_date 0 jar values ≡ (codes "jsessionid", codes "new") ∷ [])
    × (merge_cookie_header no_date 0 (codes "a=1; b=2;c") response
        ≡ codes "b=2; a=b; JSessionId = abc")
unfolding update read_update retain read_attribute is_deleted max_age merge_cookie_header
    read_cookies set_cookies split_once split_on join trim trim_start trim_end_by strip_prefix
    is_whitespace
merged = (refl, refl)

session : extract_jsessionid_from_headers response ≡ some (codes "abc")
unfolding extract_jsessionid_from_headers set_cookies jsessionid_of before_semicolon split_once trim
    trim_start trim_end_by is_whitespace
session = refl

lookup-merge_all_example :
    lookup (codes "GLIDE") (merge_all no_date 0 jar values)
    ≡ replay (map (read_update no_date 0) values) (λ n. lookup n jar) (codes "GLIDE")
lookup-merge_all_example = lookup-merge_all no_date 0 values jar (codes "GLIDE")

jar_lem : IsDistinct jar
unfolding IsDistinct lookup
jar_lem = (refl, (refl, tt))
