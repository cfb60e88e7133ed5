-- ===== src/Dataset/Types.antt =====
-- The types of cli/commands/data/types.rs that packages of tables are made of, and the values of a
-- record as text. A number's text and the deserialization of a placeholder are parameters.
use snow_cli.Base.{
  or_else, text_eq, codes, ℕ, Text, Option, List, if◌then◌else◌, true, false, some, none,
}
use snow_cli.Json.{
  Value, Members, null, bool, number, string, array, object, no_members, member_then,
}

pub record Reference : Type 0 where
  pub field : Text
  pub target_table : Text
  pub source_key : Text
  pub target_key : Text

pub record Marker : Type 0 where
  pub marker_table : Text
  pub marker_source_key : Text
  pub marker_target_key : Text
  pub source_value : Text

-- `DatasetTableSpec`, without its limit and its order, which the request takes.
pub record TableSpec : Type 0 where
  pub spec_name : Text
  pub spec_file : Option Text
  pub spec_query : Option Text
  pub spec_fields : Option (List Text)
  pub spec_depends_on : List Text
  pub spec_references : List Reference

pub record ManifestTable : Type 0 where
  pub manifest_name : Text
  pub file : Text
  pub record_count : ℕ
  pub depends_on : List Text
  pub references : List Reference

abbrev pub Fields : Type 0 → Type 0
Fields N = List (Text × Value N)

pub record TableRecord (N : Type 0) : Type 0 where
  pub source_sys_id : Option Text
  pub fields : Fields N

pub record Artifact (N : Type 0) : Type 0 where
  pub artifact_table : Text
  pub source_key_fields : List Text
  pub records : List (TableRecord N)

pub record Reading (N : Type 0) : Type 0 where
  pub number_text : N → Text
  pub read_placeholder : Value N → Option Marker

pub data PackageError : Type 0 where
  missing_dependency : (table dep : Text) → PackageError
  dependency_cycle : List Text → PackageError
  duplicate_table missing_table missing_artifact : Text → PackageError
  unresolvable : (table : Text) → Reference → (sys_id : Text) → PackageError
  invalid_name : Text → PackageError
  unmapped : Reference → Marker → PackageError

-- What `json!` makes of a marker.
abbrev pub placeholder_of : {N : Type 0} → Marker → Value N
placeholder_of marker = object (
    member_then (codes "__reference")
      (object (
        member_then (codes "target_table") (string marker.marker_table) (
          member_then (codes "source_key") (string marker.marker_source_key) (
            member_then (codes "target_key") (string marker.marker_target_key)
              (member_then (codes "source_value") (string marker.source_value) no_members)))))
      no_members)

module _ {N : Type 0} (reading : Reading N) where
  unfoldable mutual
    pub json_value_as_text : Value N → Option Text
    json_value_as_text null = none
    json_value_as_text (string text) = some text
    json_value_as_text (bool true) = some (codes "true")
    json_value_as_text (bool false) = some (codes "false")
    json_value_as_text (number n) = some (reading.number_text n)
    json_value_as_text (object members) =
        or_else (member_as_text (codes "value") members)
          (member_as_text (codes "display_value") members)
    json_value_as_text (array items) = none

    -- `map.get(key).and_then(json_value_as_text)`
    pub member_as_text : Text → Members N → Option Text
    member_as_text key no_members = none
    member_as_text key (member_then name value rest) =
        let text = json_value_as_text value in
        let found = member_as_text key rest in if text_eq name key then text else found
