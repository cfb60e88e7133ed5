-- ===== src/Policy/Tests.antt =====
-- The policy at concrete commands and requests.
use snow_cli.Base.{All, codes, Text, String, List, [], ◌⊎◌, refl, ◌∷◌, ◌↔◌, ◌≢◌, ok, ◌≡◌}
use snow_cli.Policy.Commands
use snow_cli.Policy.{
  full_access, read_only_command_decision, method_get, ensure_raw_api_headers_allowed,
  decision_for_command, ensure_command_allowed,
}
use snow_cli.Policy.ReadOnlyCli.{ReadOnlyTableCommands, ReadOnlyCommands, into_full_command}
use snow_cli.Policy.Laws.{
  ensure_raw_api_headers_allowed_iff, IsPlainHeader, into_full_command-allowed_iff, allowed-surface,
}
use snow_cli.Policy.Surface.{IsFullOnly, IsExport, reader}

abbrev read_record : ReadOnlyCommands String
read_record = ReadOnlyCommands.table (ReadOnlyTableCommands.get "incident")

abbrev export_command : ReadOnlyCommands String
export_command = ReadOnlyCommands.profile (Commands.ConfigCommands.export_now_sdk "dev")

into_full_command-allowed_iff_example :
    (ensure_command_allowed reader (into_full_command export_command) ≡ ok tt)
    ↔ (¬ IsExport (into_full_command export_command))
into_full_command-allowed_iff_example = into_full_command-allowed_iff export_command

read_record_lem : ensure_command_allowed reader (into_full_command read_record) ≡ ok tt
unfolding ensure_command_allowed decision_for_command read_only_command_decision into_full_command
read_record_lem = refl

allowed-surface_example :
    ((reduced : ReadOnlyCommands String) × (into_full_command reduced
        ≡ into_full_command read_record))
    ⊎ IsFullOnly (into_full_command read_record)
allowed-surface_example = allowed-surface (into_full_command read_record) read_record_lem

abbrev override : List (Text × Text)
override = (codes " X-HTTP-Method ", codes "DELETE") ∷ []

ensure_raw_api_headers_allowed_iff_example :
    (ensure_raw_api_headers_allowed reader method_get override ≡ ok tt)
    ↔ ((reader.mode ≡ full_access) ⊎ (method_get ≢ method_get) ⊎ All IsPlainHeader override)
ensure_raw_api_headers_allowed_iff_example =
    ensure_raw_api_headers_allowed_iff reader method_get override
