-- ===== src/Origin/Laws.antt =====
-- What a resolved URL is known to be.
use snow_cli.Base.{
  ok_after, ok_from, if◌then◌else◌, err, ok, ==_iff, ◌==◌, text_eq, text_eq_iff, to_ascii_lowercase,
  has_prefix, arith, Option, codes, Text, Bool, [], ◌⊎◌, refl, ◌++◌, ◌∷◌, ◌↔◌, true, none, some,
  ◌≡◌,
}
use snow_cli.Origin.{
  unsafe_instance_url, invalid_instance_url, required, resolve_authenticated_url, checked_url,
  candidate_url, UrlError, option_eq, same_origin, is_safe_authenticated_url, UrlCrate,
  is_loopback_host,
}

-- A host that HTTP is used with: `localhost` in any case, `::1`, or any text that begins with "127.".
abbrev pub IsLoopback : Text → Type 0
IsLoopback host =
    (to_ascii_lowercase host ≡ codes "localhost")
    ⊎ (host ≡ codes "::1")
    ⊎ ((rest : Text) × (host ≡ codes "127." ++ rest))

has_prefix_iff : (p s : Text) → (has_prefix p s ≡ true) ↔ ((rest : Text) × (s ≡ p ++ rest))
has_prefix_iff [] s = (λ h. (s, refl), λ h. refl)
has_prefix_iff (c ∷ p) [] = (λ h. absurd (ground arith), λ h. absurd (ground arith))
has_prefix_iff (c ∷ p) (d ∷ s) = ground (arith, has_prefix_iff p s)

is_loopback_host_iff : (host : Text) → (is_loopback_host host ≡ true) ↔ IsLoopback host
unfolding is_loopback_host
is_loopback_host_iff host = ground (
  arith,
  text_eq_iff (to_ascii_lowercase host) (codes "localhost"),
  text_eq_iff host (codes "127.0.0.1"),
  text_eq_iff host (codes "::1"),
  has_prefix_iff (codes "127.") host,
)

option_eq_iff :
    {A : Type 0} (eq : A → A → Bool) (same : (a b : A) → (eq a b ≡ true) ↔ (a ≡ b)) (o p : Option A)
    → (option_eq eq o p ≡ true) ↔ (o ≡ p)
option_eq_iff eq same none none = (λ h. refl, λ h. refl)
option_eq_iff eq same none (some b) = (λ h. absurd (ground arith), λ h. absurd (ground arith))
option_eq_iff eq same (some a) none = (λ h. absurd (ground arith), λ h. absurd (ground arith))
option_eq_iff eq same (some a) (some b) = ground (arith, same a b)

module _ {U : Type 0} (crate : UrlCrate U) where
  -- HTTPS, or HTTP to a host of those above.
  abbrev pub IsSafeUrl : U → Type 0
  IsSafeUrl url =
      (crate.scheme url ≡ codes "https")
      ⊎ ((crate.scheme url ≡ codes "http")
          × ((host : Text) × (crate.host_str url ≡ some host) × IsLoopback host))

  abbrev pub IsSameOrigin : U → U → Type 0
  IsSameOrigin left right =
      (crate.scheme left ≡ crate.scheme right)
      × (crate.host_str left ≡ crate.host_str right)
      × (crate.port_or_known_default left ≡ crate.port_or_known_default right)

  pub is_safe_authenticated_url_iff :
      (url : U) → (is_safe_authenticated_url crate url ≡ true) ↔ IsSafeUrl url
  unfolding is_safe_authenticated_url
  is_safe_authenticated_url_iff url = by_host (crate.host_str url) refl
    where
      by_host :
          (host : Option Text)
          → crate.host_str url ≡ host
          → (is_safe_authenticated_url crate url ≡ true) ↔ IsSafeUrl url
      by_host none same = ground (
        arith,
        text_eq_iff (crate.scheme url) (codes "https"),
        text_eq_iff (crate.scheme url) (codes "http"),
      )
      by_host (some host) same = ground (
        arith,
        text_eq_iff (crate.scheme url) (codes "https"),
        text_eq_iff (crate.scheme url) (codes "http"),
        is_loopback_host_iff host,
      )

  same_origin_iff :
      (left right : U) → (same_origin crate left right ≡ true) ↔ IsSameOrigin left right
  unfolding same_origin
  same_origin_iff left right = ground (
    arith,
    text_eq_iff (crate.scheme left) (crate.scheme right),
    option_eq_iff text_eq text_eq_iff (crate.host_str left) (crate.host_str right),
    option_eq_iff ◌==◌ ==_iff (crate.port_or_known_default left)
        (crate.port_or_known_default right),
  )

  checked_url_iff :
      (base candidate : U) (text : Text)
      → (checked_url crate base candidate ≡ ok text)
        ↔ (IsSafeUrl candidate × IsSameOrigin base candidate × (crate.url_text candidate ≡ text))
  unfolding checked_url
  checked_url_iff base candidate text =
      ground (arith, is_safe_authenticated_url_iff candidate, same_origin_iff base candidate)

  -- The instance URL and the URL of the request parse and are safe, and they have the same origin.
  abbrev pub IsResolved : Text → Text → Text → Type 0
  IsResolved base_url path text =
      (base : U) × (candidate : U) × (crate.parse_url base_url ≡ some base)
      × (candidate_url crate base path ≡ ok candidate)
      × IsSafeUrl base
      × IsSafeUrl candidate
      × IsSameOrigin base candidate
      × (crate.url_text candidate ≡ text)

  required_iff :
      {A : Type 0} (error : UrlError) (o : Option A) (a : A)
      → (required crate error o ≡ ok a) ↔ (o ≡ some a)
  required_iff error none a = (λ h. absurd (ground arith), λ h. absurd (ground arith))
  required_iff error (some b) a = ground arith

  -- An instance URL and a path give a URL to send a request to exactly if both parse, the instance URL
  -- and the URL of the request are safe, and the two have the same scheme, host and port. A URL is safe
  -- if its scheme is https, or if it is http and the text of its host is `localhost` in any case, `::1`,
  -- or begins with "127.". The result is then the text of the request's URL.
  pub resolve_authenticated_url_iff :
      (base_url path text : Text)
      → (resolve_authenticated_url crate base_url path ≡ ok text) ↔ IsResolved base_url path text
  unfolding resolve_authenticated_url
  resolve_authenticated_url_iff base_url path text = (forward, backward)
    where
      forward :
          resolve_authenticated_url crate base_url path ≡ ok text → IsResolved base_url path text
      forward h =
          let (base, (parsed, h1)) =
            ok_from _ (required crate invalid_instance_url (crate.parse_url base_url)) text h in
          let (safe, h2) =
            ok_after
              (if is_safe_authenticated_url crate base then ok tt else err unsafe_instance_url)
              h1 in
          let (candidate, (resolved, h3)) = ok_from _ (candidate_url crate base path) text h2 in
          let (safe_candidate, same, text_same) = (checked_url_iff base candidate text).0 h3 in
          (
            base,
            candidate,
            (required_iff invalid_instance_url (crate.parse_url base_url) base).0 parsed,
            resolved,
            ground (arith, is_safe_authenticated_url_iff base),
            safe_candidate,
            same,
            text_same,
          )

      backward :
          IsResolved base_url path text → resolve_authenticated_url crate base_url path ≡ ok text
      backward (base, candidate, parsed, resolved, safe, safe_candidate, same, text_same) =
          let checked = (checked_url_iff base candidate text).1 (safe_candidate, same, text_same) in
          let safe' = (is_safe_authenticated_url_iff base).1 safe in
          rw (parsed, safe', resolved) checked
