-- ===== src/Origin.antt =====
-- client/core.rs: which URL an authenticated request may go to. The `url` crate is a parameter.
pub mod Laws
pub mod Tests
use snow_cli.Base.{
  ◌>>=◌, ◌>>◌, ◌==◌, codes, ℕ, text_eq, not, has_prefix, eq_ignore_ascii_case, Text, Result, Option,
  Bool, if◌then◌else◌, ◌||◌, ◌&&◌, ◌∷◌, false, true, err, ok, none, some, ◌≡◌,
}

-- What the checks use of `url::Url`: its parser, `join`, its parts and its text.
pub record UrlCrate (U : Type 0) : Type 0 where
  pub parse_url : Text → Option U
  pub join_url : U → Text → Option U
  pub scheme : U → Text
  pub host_str : U → Option Text
  pub port_or_known_default : U → Option ℕ
  pub url_text : U → Text

pub data UrlError : Type 0 where
  invalid_instance_url unsafe_instance_url invalid_request_url join_failed : UrlError
  unsafe_url non_instance_url : UrlError

unfoldable pub is_loopback_host : Text → Bool
is_loopback_host host =
    eq_ignore_ascii_case host (codes "localhost")
    || text_eq host (codes "127.0.0.1")
    || text_eq host (codes "::1")
    || has_prefix (codes "127.") host

-- Equality of optional values, as `==` compares them.
abbrev pub option_eq : {A : Type 0} → (A → A → Bool) → Option A → Option A → Bool
option_eq eq none none = true
option_eq eq (some a) (some b) = eq a b
option_eq eq _ _ = false

module _ {U : Type 0} (crate : UrlCrate U) where
  unfoldable pub is_safe_authenticated_url : U → Bool
  is_safe_authenticated_url url =
      if text_eq (crate.scheme url) (codes "https")
      then true
      else if text_eq (crate.scheme url) (codes "http")
      then elim (crate.host_str url) [ some host ↦ is_loopback_host host | none ↦ false ]
      else false

  unfoldable pub same_origin : U → U → Bool
  same_origin left right =
      text_eq (crate.scheme left) (crate.scheme right)
      && option_eq text_eq (crate.host_str left) (crate.host_str right)
      && option_eq ◌==◌ (crate.port_or_known_default left) (crate.port_or_known_default right)

  unfoldable pub validate_external_url : U → Result UrlError (Unit {0})
  validate_external_url url = if is_safe_authenticated_url url then ok tt else err unsafe_url

  abbrev pub required : {A : Type 0} → UrlError → Option A → Result UrlError A
  required error none = err error
  required error (some a) = ok a

  -- The `candidate` of a path: a URL of its own, or one below the base.
  unfoldable pub candidate_url : U → Text → Result UrlError U
  candidate_url base path =
      if has_prefix (codes "http://") path || has_prefix (codes "https://") path
      then required invalid_request_url (crate.parse_url path)
      else if has_prefix (codes "/") path
      then required join_failed (crate.join_url base path)
      else required join_failed (crate.join_url base (b'/' ∷ path))

  -- The checks on a candidate, and its text.
  unfoldable pub checked_url : U → U → Result UrlError Text
  checked_url base candidate =
      if not (is_safe_authenticated_url candidate)
      then err unsafe_url
      else if not (same_origin base candidate)
      then err non_instance_url
      else ok (crate.url_text candidate)

  unfoldable pub resolve_authenticated_url : Text → Text → Result UrlError Text
  resolve_authenticated_url base_url path = do
    base ← required invalid_instance_url (crate.parse_url base_url)
    if is_safe_authenticated_url base then ok tt else err unsafe_instance_url
    candidate ← candidate_url base path
    checked_url base candidate
