-- ===== src/Json.antt =====
-- JSON values, as `serde_json::Value` has them, and what the program asks of them. A number is kept
-- as a value of a parameter type.
use snow_cli.Base.{text_eq, if◌then◌else◌, Text, Bool, Option, some, none}

mutual
  pub data Value (N : Type 0) : Type 0 where
    null : Value N
    bool : Bool → Value N
    number : N → Value N
    string : Text → Value N
    array : Values N → Value N
    object : Members N → Value N

  pub data Values (N : Type 0) : Type 0 where
    no_values : Values N
    value_then : Value N → Values N → Values N

  pub data Members (N : Type 0) : Type 0 where
    no_members : Members N
    member_then : Text → Value N → Members N → Members N

module _ {N : Type 0} where
  unfoldable pub find_member : Text → Members N → Option (Value N)
  find_member key no_members = none
  find_member key (member_then name value rest) =
      let found = find_member key rest in if text_eq name key then some value else found

  -- `Value::get` with a key
  unfoldable pub get : Text → Value N → Option (Value N)
  get key (object members) = find_member key members
  get key _ = none

  abbrev pub as_str : Value N → Option Text
  as_str (string text) = some text
  as_str _ = none
