-- ===== src/Dataset/Tests.antt =====
-- Runs of cli/commands/data/package.rs: a package of users and of the incidents that they call in.
use snow_cli.Base.{
  and_then, codes, length, text_eq, ℕ, Text, Option, List, Result, ◌∷◌, [], true, false, some, none,
  ok, err, ◌≡◌, refl,
}
use snow_cli.Json.{Value, get, as_str, string, find_member, null}
use snow_cli.Identifiers.{table_name}
use snow_cli.Trees.{IsAscending, keys, entry_at, put, add, without, assign, drop_key, text_before}
use snow_cli.Dataset.Types.{
  Reference, Marker, ManifestTable, Artifact, Reading, Fields, placeholder_of, json_value_as_text,
}
use snow_cli.Dataset.Order.{Deps, topo_sort_dependencies, loop, ready_of}
use snow_cli.Dataset.Sorted.{IsSortOf, topo_sort_dependencies-IsSortOf}
use snow_cli.Dataset.Tables.{topological_order, manifest_table_map, required_source_keys}
use snow_cli.Dataset.Import.{id_at, insert_id}
use snow_cli.Dataset.Validate.{missing_reference_placeholder}
use snow_cli.Dataset.Package.{PackageResult, not_ready, imported, handle_import_package}
use snow_cli.Dataset.Remap.{IsReading}
use snow_cli.Dataset.Records.{Accepts}
use snow_cli.Dataset.Imported.{IsWhole, handle_import_package-IsWhole}

abbrev a : Text
a = codes "a"

abbrev b : Text
b = codes "b"

abbrev c : Text
c = codes "c"

abbrev chain : Deps
chain = (a, c ∷ []) ∷ (b, []) ∷ (c, b ∷ []) ∷ []

chain-IsAscending : IsAscending (keys chain)
unfolding text_before
chain-IsAscending = ((refl, (refl, tt)), ((refl, tt), (tt, tt)))

sorted_chain :
    (topo_sort_dependencies chain ≡ some (ok (b ∷ c ∷ a ∷ [])))
    × (topo_sort_dependencies ((a, c ∷ []) ∷ (b, []) ∷ (c, a ∷ b ∷ []) ∷ [])
        ≡ some (err (a ∷ c ∷ [])))
unfolding topo_sort_dependencies loop ready_of entry_at put add without assign drop_key text_before
sorted_chain = (refl, refl)

topo_sort_dependencies-IsSortOf_example : IsSortOf chain (topo_sort_dependencies chain)
topo_sort_dependencies-IsSortOf_example = topo_sort_dependencies-IsSortOf chain chain-IsAscending

abbrev caller : Reference
caller = record {
  field = codes "caller";
  target_table = codes "user";
  source_key = codes "login";
  target_key = codes "login";
}

-- The incidents come first in the manifest.
abbrev two_tables : List ManifestTable
two_tables =
    record {
      manifest_name = codes "incident";
      file = codes "i";
      record_count = 1;
      depends_on = [];
      references = caller ∷ [];
    }
    ∷ record {
      manifest_name = codes "user";
      file = codes "u";
      record_count = 1;
      depends_on = [];
      references = [];
    }
    ∷ []

abbrev ann : Marker
ann = record {
  marker_table = codes "user";
  marker_source_key = codes "login";
  marker_target_key = codes "login";
  source_value = codes "ann";
}

abbrev file_of : Text → Fields ℕ → Artifact ℕ
file_of name content = record {
  artifact_table = name;
  source_key_fields = [];
  records = record { source_sys_id = none; fields = content } ∷ [];
}

abbrev files : Value ℕ → Text → Option (Artifact ℕ)
files called name = elim (text_eq name (codes "i")) [
  | true ↦ some (file_of (codes "incident") ((codes "caller", called) ∷ []))
  | false ↦ some (file_of (codes "user") ((codes "login", string (codes "ann")) ∷ []))
]

abbrev text_in : Text → Value ℕ → Option Text
text_in key value = and_then (get key value) as_str

abbrev read_marker : Value ℕ → Option Marker
read_marker value = and_then (get (codes "__reference") value) (λ inner.
    and_then (text_in (codes "target_table") inner) (λ table.
      and_then (text_in (codes "source_key") inner) (λ source.
        and_then (text_in (codes "target_key") inner) (λ target.
          and_then (text_in (codes "source_value") inner) (λ text. some (record {
            marker_table = table;
            marker_source_key = source;
            marker_target_key = target;
            source_value = text;
          }))))))

abbrev plain : Reading ℕ
plain = record { number_text = λ n. []; read_placeholder = read_marker }

plain-IsReading : IsReading plain
unfolding get
plain-IsReading text = refl

-- A server that numbers its records, and keeps them.
abbrev numbers : Text → Fields ℕ → List (Fields ℕ) → Result ℕ (Fields ℕ) × List (Fields ℕ)
numbers table body s = (ok ((codes "sys_id", string (length s ∷ [])) ∷ []), body ∷ s)

numbers-Accepts : Accepts numbers
numbers-Accepts table body s = ((codes "sys_id", string (length s ∷ [])) ∷ [], refl)

abbrev ran : Value ℕ → Option (PackageResult (List (Fields ℕ)) ℕ)
ran called =
    handle_import_package plain numbers (files called) (λ artifacts. ok []) false two_tables []

abbrev sent : Option (PackageResult (List (Fields ℕ)) ℕ) → Option (List (Fields ℕ))
sent (some (imported results outcome)) = some outcome.0.surroundings
sent _ = none

-- The user is created first, and the incident with the user's number.
imported_run :
    sent (ran (placeholder_of ann))
    ≡ some (
        ((codes "caller", string (0 ∷ [])) ∷ [])
        ∷ ((codes "login", string (codes "ann")) ∷ [])
        ∷ [])
unfolding handle_import_package manifest_table_map topological_order required_source_keys
    topo_sort_dependencies loop ready_of entry_at put add without assign drop_key text_before id_at
    insert_id json_value_as_text get find_member table_name
imported_run = refl

-- A record without a caller, as an export writes it, is an issue.
empty_reference_run :
    ran null
    ≡ some (
        not_ready (
          record {
            kind = missing_reference_placeholder;
            issue_field = codes "caller";
            record_index = some 0;
          }
          ∷ []))
unfolding handle_import_package manifest_table_map topological_order required_source_keys
    topo_sort_dependencies loop ready_of entry_at put add without assign drop_key text_before id_at
    insert_id json_value_as_text get find_member table_name
empty_reference_run = refl

handle_import_package-IsWhole_example :
    IsWhole (files (placeholder_of ann)) two_tables (ran (placeholder_of ann))
handle_import_package-IsWhole_example =
    handle_import_package-IsWhole plain plain-IsReading numbers numbers-Accepts
      (files (placeholder_of ann)) (λ artifacts. ok []) false two_tables []
