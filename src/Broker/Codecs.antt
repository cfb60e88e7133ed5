-- ===== src/Broker/Codecs.antt =====
-- The session in a payload of snu/broker.rs, and its origin.
use snow_cli.Base.{
  arith, text_eq_iff, and_then, Text, codes, ok, some, none, Option, true, Result, ◌≡◌, refl,
}
use snow_cli.Origin.{UrlCrate}
use snow_cli.Broker.Origins.{same_key_iff}
use snow_cli.Gates.{OriginKey, normalize_origin}
use snow_cli.Bridge.Messages.{SnuInstance, RequestError, instance_matches_session}
use snow_cli.Broker.Events.{Codec, Environment, Event, requested}
use snow_cli.Broker.Dispatch.{instance_origin, insert_member, with_member}
use snow_cli.Json.{
  Value, Members, get, as_str, find_member, no_members, member_then, object, null, bool, number,
  string, array,
}

-- What is relied on of the codec: a session is written with its URL as the text under its key, and
-- what is read has the URL that stands there.
abbrev pub IsCodec : {N : Type 0} → Codec N → Type 0
IsCodec {N} codec =
    ((info : SnuInstance)
      → and_then (get (codes "url") (codec.write_instance info)) as_str ≡ some info.url)
    × ((value : Value N) (info : SnuInstance)
        → codec.read_instance value ≡ some info
        → and_then (get (codes "url") value) as_str ≡ some info.url)

-- Whatever is awaited, a `/token` that comes matches it; one that is awaited for no origin may be of any.
abbrev pub IsTokenFor :
    {U : Type 0} → UrlCrate U → (Option OriginKey → Result RequestError SnuInstance) → Type 0
IsTokenFor crate token =
    (target : Option OriginKey) (info : SnuInstance)
    → token target ≡ ok info
    → instance_matches_session crate info target ≡ true

-- The session of the cache stands at the origin of its URL, and every `/token` matches what is awaited.
abbrev pub IsFaithfulAt : {N U : Type 0} → UrlCrate U → OriginKey → Environment N → Type 0
IsFaithfulAt crate origin environment =
    ((info : SnuInstance)
      → environment.cached origin ≡ some info
      → normalize_origin crate info.url ≡ some origin)
    × IsTokenFor crate environment.token_reply

-- A request with the session of an instance at the origin.
abbrev pub IsTo : {N U : Type 0} → UrlCrate U → Codec N → OriginKey → Event N → Type 0
IsTo crate codec origin (requested payload matcher generation support) =
    instance_origin crate codec payload ≡ some origin
IsTo crate codec origin _ = Unit {0}

pub matches-origin :
    {U : Type 0} (crate : UrlCrate U) (origin : OriginKey) (info : SnuInstance)
    → instance_matches_session crate info (some origin) ≡ true
    → normalize_origin crate info.url ≡ some origin
unfolding instance_matches_session
matches-origin crate origin info h = by_origin (normalize_origin crate info.url) refl
  where
    by_origin :
        (o : Option OriginKey)
        → normalize_origin crate info.url ≡ o
        → normalize_origin crate info.url ≡ some origin
    by_origin none at = absurd (ground arith)
    by_origin (some other) at = ground (arith, same_key_iff other origin)

pub find_member-insert_member :
    {N : Type 0} (key : Text) (value : Value N) (members : Members N)
    → find_member key (insert_member key value members) ≡ some value
unfolding find_member
find_member-insert_member key value no_members = ground (arith, text_eq_iff key key)
find_member-insert_member key value (member_then name old rest) =
    ground (arith, find_member-insert_member key value rest, text_eq_iff key key)

module _ {N U : Type 0} (crate : UrlCrate U) (codec : Codec N) (is_codec : IsCodec codec)
    (origin : OriginKey) where
  pub instance_origin-with_member :
      (info : SnuInstance) (payload : Value N)
      → normalize_origin crate info.url ≡ some origin
      → instance_origin crate codec payload ≡ some origin
      → instance_origin crate codec
          (with_member (codes "instance") (codec.write_instance info) payload)
        ≡ some origin
  unfolding instance_origin get
  instance_origin-with_member info (object members) at h =
      rw
        (
          find_member-insert_member (codes "instance") (codec.write_instance info) members,
          is_codec.0 info,
        )
        at
  instance_origin-with_member info null at h = h
  instance_origin-with_member info (bool b) at h = h
  instance_origin-with_member info (number n) at h = h
  instance_origin-with_member info (string text) at h = h
  instance_origin-with_member info (array items) at h = h

  -- The session that is read of a payload is at the payload's origin.
  pub read_instance-origin :
      (payload : Value N) (info : SnuInstance)
      → and_then (get (codes "instance") payload) codec.read_instance ≡ some info
      → instance_origin crate codec payload ≡ some origin
      → normalize_origin crate info.url ≡ some origin
  unfolding instance_origin
  read_instance-origin payload info read at = by_value (get (codes "instance") payload) read at
    where
      by_value :
          (found : Option (Value N))
          → and_then found codec.read_instance ≡ some info
          → and_then (and_then (and_then found (get (codes "url"))) as_str) (normalize_origin crate)
            ≡ some origin
          → normalize_origin crate info.url ≡ some origin
      by_value none read at = absurd (ground arith)
      by_value (some value) read at = let url = is_codec.1 value info read in ground (arith, url)
