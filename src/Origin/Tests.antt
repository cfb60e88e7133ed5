-- ===== src/Origin/Tests.antt =====
-- The checks on URLs of a toy crate, in which a URL is its scheme, its host and its path.
use snow_cli.Base.{
  split_once, strip_prefix, Option, codes, Text, [], refl, ◌++◌, ◌↔◌, err, ok, none, some, ◌≡◌,
}
use snow_cli.Origin.{
  non_instance_url, same_origin, is_safe_authenticated_url, checked_url, candidate_url, UrlCrate,
  resolve_authenticated_url,
}
use snow_cli.Origin.Laws.{IsResolved, resolve_authenticated_url_iff}

abbrev pub Parts : Type 0
Parts = Text × Text × Text

-- "https://host" and what follows the host.
abbrev split_parts : Text → Option Parts
split_parts text = elim (strip_prefix (codes "https://") text) [
  | none ↦ none
  | some rest ↦ elim (split_once b'/' rest) [
    | none ↦ some (codes "https", rest, [])
    | some pair ↦ some (codes "https", pair.0, pair.1)
  ]
]

abbrev pub toy : UrlCrate Parts
toy = record {
  parse_url = split_parts;
  join_url = λ base path. some (base.0, base.1, path);
  scheme = λ url. url.0;
  host_str = λ url. some url.1;
  port_or_known_default = λ url. some 443;
  url_text = λ url. url.0 ++ codes "://" ++ url.1 ++ url.2;
}

resolved :
    (resolve_authenticated_url toy (codes "https://a.test") (codes "/api/now")
      ≡ ok (codes "https://a.test/api/now"))
    × (resolve_authenticated_url toy (codes "https://a.test") (codes "https://b.test/api/now")
        ≡ err non_instance_url)
unfolding resolve_authenticated_url candidate_url checked_url is_safe_authenticated_url same_origin
    strip_prefix split_once
resolved = (refl, refl)

resolve_authenticated_url_iff_example :
    (resolve_authenticated_url toy (codes "https://a.test") (codes "/api/now")
      ≡ ok (codes "https://a.test/api/now"))
    ↔ IsResolved toy (codes "https://a.test") (codes "/api/now") (codes "https://a.test/api/now")
resolve_authenticated_url_iff_example =
    resolve_authenticated_url_iff toy (codes "https://a.test") (codes "/api/now")
      (codes "https://a.test/api/now")
