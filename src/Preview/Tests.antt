-- ===== src/Preview/Tests.antt =====
-- Previews of a small record.
use snow_cli.Base.{ℕ, codes, [], refl, ◌∷◌, ◌≡◌}
use snow_cli.Json.{number, string}
use snow_cli.Trees.{text_before}
use snow_cli.Preview.{
  in_record, replace, record_path, set_field, preview_string, preview_value, insert_key, sort_keys,
  record_root, preview_key, preview_keys, get_field, preview_record, Fields,
  escape_json_pointer_segment,
}
use snow_cli.Preview.Pointer.{unescape, unescape-escape_json_pointer_segment}

abbrev sample : Fields ℕ
sample =
    (codes "short", string (codes "abc"))
    ∷ (codes "long", string (codes "abcdef"))
    ∷ (codes "count", number 12345)
    ∷ []

sample_lem : (preview_record 3 record_root 0 (codes "--full") sample) ≡ (
  (codes "short", string (codes "abc"))
      ∷ (codes "long", string (codes "abc"))
      ∷ (codes "count", number 12345)
      ∷ [],
  record {
    path = in_record (codes "long");
    original_chars = 6;
    shown_chars = 3;
    escape_hatch = codes "--full";
  }
      ∷ [],
)
unfolding preview_record preview_keys preview_key sort_keys insert_key text_before preview_value
    preview_string get_field set_field record_path escape_json_pointer_segment replace
sample_lem = refl

unescape-escape_json_pointer_segment_example :
    unescape (escape_json_pointer_segment (codes "a/b~1")) ≡ codes "a/b~1"
unescape-escape_json_pointer_segment_example = unescape-escape_json_pointer_segment (codes "a/b~1")
