-- ===== src/Identifiers/Tests.antt =====
-- Runs of the constructors, and the theorems at concrete texts.
use snow_cli.Base.{◌≡◌, refl, [], Text, codes, bytes, ok, err}
use snow_cli.Identifiers.{
  table_name, sys_id, path_segment, encoded_query_value, bad_table_name, bad_sys_id,
  relative_segment, empty_value, bad_query_value,
}
use snow_cli.Identifiers.Laws.{table_name-embeds, sys_id-embeds}

abbrev user : Text
user = codes "6816f79cc0a8016401c5a33be04be441"

accepted :
    (sys_id user ≡ ok (record { value = user }))
    × (table_name (codes "x_acme_app_table1") ≡ ok (record { value = codes "x_acme_app_table1" }))
unfolding sys_id table_name bytes
accepted = (refl, refl)

refused :
    (table_name (codes "bad/table") ≡ err (bad_table_name (codes "bad/table")))
    × (sys_id (codes "é") ≡ err (bad_sys_id (codes "é")))
    × (path_segment (codes "..") ≡ err (relative_segment (codes "..")))
    × (encoded_query_value [] ≡ err empty_value)
    × (encoded_query_value (codes "a^b") ≡ err (bad_query_value (codes "a^b")))
unfolding sys_id table_name path_segment encoded_query_value bytes
refused = (refl, refl, refl, refl, refl)

table_name-embeds_example :
    (codes "incident" ≡ codes "incident")
    × (path_segment (codes "incident") ≡ ok (record { value = codes "incident" }))
    × (encoded_query_value (codes "incident") ≡ ok (record { value = codes "incident" }))
unfolding table_name
table_name-embeds_example =
    table_name-embeds (codes "incident") (record { value = codes "incident" }) refl

sys_id-embeds_example :
    (table_name user ≡ ok (record { value = user }))
    × (path_segment user ≡ ok (record { value = user }))
    × (encoded_query_value user ≡ ok (record { value = user }))
sys_id-embeds_example = sys_id-embeds user (record { value = user }) accepted.0
