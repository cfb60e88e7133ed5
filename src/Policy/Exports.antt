-- ===== src/Policy/Exports.antt =====
-- The two commands of snow-cli-ro (cli/readonly_args.rs) that write a stored password, and all others,
-- beside the decisions of policy.rs.
use snow_cli.Base.{refl, ◌≢◌, ◌≡◌}
use snow_cli.Policy.Commands
use snow_cli.Policy.{allow, read_only_command_decision}
use snow_cli.Policy.Surface.{IsExport}
use snow_cli.Policy.Permitted.{denied}
use snow_cli.Policy.ReadOnlyCli.{
  ReadOnlyCodesearchCommands, ReadOnlySnuContextCommands, ReadOnlySnuPageCommands,
  ReadOnlySnuRestCommands, ReadOnlySnuCommands, ReadOnlyApiCommands, ReadOnlyAttachmentCommands,
  ReadOnlyScopeCommands, ReadOnlyDataCommands, ReadOnlyTableCommands, ReadOnlySessionCommands,
  ReadOnlyAuthCommands, ReadOnlyCommands, into_full_command,
}

module _ {F : Type 0} where
  pub unless_export :
      (command : ReadOnlyCommands F)
      → ¬ IsExport (into_full_command command)
      → read_only_command_decision (into_full_command command) ≡ allow
  unfolding into_full_command read_only_command_decision
  unless_export (ReadOnlyCommands.auth (ReadOnlyAuthCommands.login f)) _ = refl
  unless_export (ReadOnlyCommands.auth ReadOnlyAuthCommands.logout) _ = refl
  unless_export (ReadOnlyCommands.auth (ReadOnlyAuthCommands.status f)) _ = refl
  unless_export (ReadOnlyCommands.table (ReadOnlyTableCommands.list f)) _ = refl
  unless_export (ReadOnlyCommands.table (ReadOnlyTableCommands.get f)) _ = refl
  unless_export (ReadOnlyCommands.table (ReadOnlyTableCommands.schema f)) _ = refl
  unless_export (ReadOnlyCommands.table (ReadOnlyTableCommands.stats f)) _ = refl
  unless_export (ReadOnlyCommands.session ReadOnlySessionCommands.show) _ = refl
  unless_export (ReadOnlyCommands.session (ReadOnlySessionCommands.options f)) _ = refl
  unless_export (ReadOnlyCommands.session (ReadOnlySessionCommands.attach f)) _ = refl
  unless_export (ReadOnlyCommands.session ReadOnlySessionCommands.forget) _ = refl
  unless_export (ReadOnlyCommands.dataset (ReadOnlyDataCommands.export f)) _ = refl
  unless_export (ReadOnlyCommands.dataset (ReadOnlyDataCommands.export_package f)) _ = refl
  unless_export (ReadOnlyCommands.dataset (ReadOnlyDataCommands.validate f)) _ = refl
  unless_export (ReadOnlyCommands.scope (ReadOnlyScopeCommands.list f)) _ = refl
  unless_export (ReadOnlyCommands.scope (ReadOnlyScopeCommands.inspect f)) _ = refl
  unless_export (ReadOnlyCommands.scope (ReadOnlyScopeCommands.inventory f)) _ = refl
  unless_export (ReadOnlyCommands.attachment (ReadOnlyAttachmentCommands.list f)) _ = refl
  unless_export (ReadOnlyCommands.attachment (ReadOnlyAttachmentCommands.download f)) _ = refl
  unless_export (ReadOnlyCommands.api (ReadOnlyApiCommands.get f)) _ = refl
  unless_export (ReadOnlyCommands.codesearch (ReadOnlyCodesearchCommands.search f)) _ = refl
  unless_export (ReadOnlyCommands.snu (ReadOnlySnuCommands.check_connection f)) _ = refl
  unless_export (ReadOnlyCommands.snu (ReadOnlySnuCommands.get_instance_info f)) _ = refl
  unless_export (ReadOnlyCommands.snu (ReadOnlySnuCommands.wait_token f)) _ = refl
  unless_export (ReadOnlyCommands.snu (ReadOnlySnuCommands.query f)) _ = refl
  unless_export (ReadOnlyCommands.snu (ReadOnlySnuCommands.list_tables f)) _ = refl
  unless_export (ReadOnlyCommands.snu (ReadOnlySnuCommands.get_record f)) _ = refl
  unless_export (ReadOnlyCommands.snu (ReadOnlySnuCommands.schema f)) _ = refl
  unless_export (ReadOnlyCommands.snu (ReadOnlySnuCommands.app_meta f)) _ = refl
  unless_export (ReadOnlyCommands.snu (ReadOnlySnuCommands.records f)) _ = refl
  unless_export (ReadOnlyCommands.snu (ReadOnlySnuCommands.screenshot f)) _ = refl
  unless_export
        (ReadOnlyCommands.snu (ReadOnlySnuCommands.context (ReadOnlySnuContextCommands.get f))) _ =
      refl
  unless_export (ReadOnlyCommands.snu (ReadOnlySnuCommands.rest (ReadOnlySnuRestCommands.get f)))
        _ =
      refl
  unless_export
        (ReadOnlyCommands.snu (ReadOnlySnuCommands.page (ReadOnlySnuPageCommands.form_state f))) _ =
      refl
  unless_export (ReadOnlyCommands.domain f) _ = refl
  unless_export (ReadOnlyCommands.completions f) _ = refl
  unless_export (ReadOnlyCommands.profile (Commands.ConfigCommands.init f)) _ = refl
  unless_export (ReadOnlyCommands.profile (Commands.ConfigCommands.add f)) _ = refl
  unless_export (ReadOnlyCommands.profile (Commands.ConfigCommands.edit f)) _ = refl
  unless_export (ReadOnlyCommands.profile (Commands.ConfigCommands.set_profile f)) _ = refl
  unless_export (ReadOnlyCommands.profile (Commands.ConfigCommands.find_profile f)) _ = refl
  unless_export (ReadOnlyCommands.profile (Commands.ConfigCommands.import_now_sdk f)) _ = refl
  unless_export (ReadOnlyCommands.profile (Commands.ConfigCommands.use_profile f)) _ = refl
  unless_export (ReadOnlyCommands.profile (Commands.ConfigCommands.delete_profile f)) _ = refl
  unless_export (ReadOnlyCommands.profile (Commands.ConfigCommands.output f)) _ = refl
  unless_export (ReadOnlyCommands.profile Commands.ConfigCommands.list_profiles) _ = refl
  unless_export (ReadOnlyCommands.profile Commands.ConfigCommands.list_now_sdk_profiles) _ = refl
  unless_export (ReadOnlyCommands.profile Commands.ConfigCommands.current) _ = refl
  unless_export (ReadOnlyCommands.profile Commands.ConfigCommands.show) _ = refl
  unless_export
        (ReadOnlyCommands.profile (Commands.ConfigCommands.sdk Commands.ProfileSdkCommands.list))
        _ =
      refl
  unless_export
        (ReadOnlyCommands.profile
          (Commands.ConfigCommands.sdk (Commands.ProfileSdkCommands.import f)))
        _ =
      refl
  unless_export
        (ReadOnlyCommands.profile
          (Commands.ConfigCommands.sdk (Commands.ProfileSdkCommands.export f)))
        h =
      absurd (h (IsExport.by_sdk f))
  unless_export (ReadOnlyCommands.profile (Commands.ConfigCommands.export_now_sdk f)) h =
      absurd (h (IsExport.by_name f))

  pub allowed-not-IsExport :
      (command : Commands.Commands F)
      → IsExport command
      → read_only_command_decision command ≢ allow
  unfolding read_only_command_decision
  allowed-not-IsExport _ (IsExport.by_name _) h = denied h
  allowed-not-IsExport _ (IsExport.by_sdk _) h = denied h
