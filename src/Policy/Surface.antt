-- ===== src/Policy/Surface.antt =====
-- The commands of snow-cli-ro (cli/readonly_args.rs) under the read-only policy (policy.rs).
use snow_cli.Base.{some, Option, refl, none, ◌≡◌}
use snow_cli.Policy.Commands
use snow_cli.Policy.{read_only, ExecutionPolicy}
use snow_cli.Policy.ReadOnlyCli.{
  ReadOnlySnuPageCommands, ReadOnlySnuRestCommands, ReadOnlySnuContextCommands, ReadOnlySnuCommands,
  ReadOnlyCodesearchCommands, ReadOnlyApiCommands, ReadOnlyAttachmentCommands,
  ReadOnlyScopeCommands, ReadOnlyDataCommands, ReadOnlySessionCommands, ReadOnlyTableCommands,
  ReadOnlyAuthCommands, ReadOnlyCommands, into_full_command,
}

-- The policy of snow-cli-ro.
abbrev pub reader : ExecutionPolicy
reader = record { mode = read_only }

module _ {F : Type 0} where
  -- The two commands that write a stored password to the now-sdk store.
  pub data IsExport : Commands.Commands F → Type 0 where
    by_name :
        (f : F) → IsExport (Commands.Commands.profile (Commands.ConfigCommands.export_now_sdk f))
    by_sdk :
        (f : F)
        → IsExport (
            Commands.Commands.profile
              (Commands.ConfigCommands.sdk (Commands.ProfileSdkCommands.export f)))

  -- The commands that the policy permits and snow-cli-ro does not offer.
  abbrev pub IsFullOnly : Commands.Commands F → Type 0
  IsFullOnly (Commands.Commands.seed (Commands.SeedCommands.plan f)) = Unit
  IsFullOnly (Commands.Commands.skill (Commands.SkillCommands.install f)) = Unit
  IsFullOnly (Commands.Commands.snu (Commands.SnuCommands.slash f)) = Unit
  IsFullOnly (Commands.Commands.snu (Commands.SnuCommands.tab f)) = Unit
  IsFullOnly (Commands.Commands.snu (Commands.SnuCommands.broker f)) = Unit
  IsFullOnly _ = ⊥

  -- The command of snow-cli-ro that stands for a full command, where there is one.
  unfoldable pub narrow : Commands.Commands F → Option (ReadOnlyCommands F)
  narrow (Commands.Commands.auth (Commands.AuthCommands.login f)) =
      some (ReadOnlyCommands.auth (ReadOnlyAuthCommands.login f))
  narrow (Commands.Commands.auth Commands.AuthCommands.logout) =
      some (ReadOnlyCommands.auth ReadOnlyAuthCommands.logout)
  narrow (Commands.Commands.auth (Commands.AuthCommands.status f)) =
      some (ReadOnlyCommands.auth (ReadOnlyAuthCommands.status f))
  narrow (Commands.Commands.table (Commands.TableCommands.list f)) =
      some (ReadOnlyCommands.table (ReadOnlyTableCommands.list f))
  narrow (Commands.Commands.table (Commands.TableCommands.get f)) =
      some (ReadOnlyCommands.table (ReadOnlyTableCommands.get f))
  narrow (Commands.Commands.table (Commands.TableCommands.schema f)) =
      some (ReadOnlyCommands.table (ReadOnlyTableCommands.schema f))
  narrow (Commands.Commands.table (Commands.TableCommands.stats f)) =
      some (ReadOnlyCommands.table (ReadOnlyTableCommands.stats f))
  narrow (Commands.Commands.session Commands.SessionCommands.show) =
      some (ReadOnlyCommands.session ReadOnlySessionCommands.show)
  narrow (Commands.Commands.session (Commands.SessionCommands.options f)) =
      some (ReadOnlyCommands.session (ReadOnlySessionCommands.options f))
  narrow (Commands.Commands.session (Commands.SessionCommands.attach f)) =
      some (ReadOnlyCommands.session (ReadOnlySessionCommands.attach f))
  narrow (Commands.Commands.session Commands.SessionCommands.forget) =
      some (ReadOnlyCommands.session ReadOnlySessionCommands.forget)
  narrow (Commands.Commands.dataset (Commands.DataCommands.export f)) =
      some (ReadOnlyCommands.dataset (ReadOnlyDataCommands.export f))
  narrow (Commands.Commands.dataset (Commands.DataCommands.export_package f)) =
      some (ReadOnlyCommands.dataset (ReadOnlyDataCommands.export_package f))
  narrow (Commands.Commands.dataset (Commands.DataCommands.validate f)) =
      some (ReadOnlyCommands.dataset (ReadOnlyDataCommands.validate f))
  narrow (Commands.Commands.scope (Commands.ScopeCommands.list f)) =
      some (ReadOnlyCommands.scope (ReadOnlyScopeCommands.list f))
  narrow (Commands.Commands.scope (Commands.ScopeCommands.inspect f)) =
      some (ReadOnlyCommands.scope (ReadOnlyScopeCommands.inspect f))
  narrow (Commands.Commands.scope (Commands.ScopeCommands.inventory f)) =
      some (ReadOnlyCommands.scope (ReadOnlyScopeCommands.inventory f))
  narrow (Commands.Commands.attachment (Commands.AttachmentCommands.list f)) =
      some (ReadOnlyCommands.attachment (ReadOnlyAttachmentCommands.list f))
  narrow (Commands.Commands.attachment (Commands.AttachmentCommands.download f)) =
      some (ReadOnlyCommands.attachment (ReadOnlyAttachmentCommands.download f))
  narrow (Commands.Commands.api (Commands.ApiCommands.get f)) =
      some (ReadOnlyCommands.api (ReadOnlyApiCommands.get f))
  narrow (Commands.Commands.codesearch (Commands.CodesearchCommands.search f)) =
      some (ReadOnlyCommands.codesearch (ReadOnlyCodesearchCommands.search f))
  narrow (Commands.Commands.snu (Commands.SnuCommands.check_connection f)) =
      some (ReadOnlyCommands.snu (ReadOnlySnuCommands.check_connection f))
  narrow (Commands.Commands.snu (Commands.SnuCommands.get_instance_info f)) =
      some (ReadOnlyCommands.snu (ReadOnlySnuCommands.get_instance_info f))
  narrow (Commands.Commands.snu (Commands.SnuCommands.wait_token f)) =
      some (ReadOnlyCommands.snu (ReadOnlySnuCommands.wait_token f))
  narrow (Commands.Commands.snu (Commands.SnuCommands.query f)) =
      some (ReadOnlyCommands.snu (ReadOnlySnuCommands.query f))
  narrow (Commands.Commands.snu (Commands.SnuCommands.list_tables f)) =
      some (ReadOnlyCommands.snu (ReadOnlySnuCommands.list_tables f))
  narrow (Commands.Commands.snu (Commands.SnuCommands.get_record f)) =
      some (ReadOnlyCommands.snu (ReadOnlySnuCommands.get_record f))
  narrow (Commands.Commands.snu (Commands.SnuCommands.schema f)) =
      some (ReadOnlyCommands.snu (ReadOnlySnuCommands.schema f))
  narrow (Commands.Commands.snu (Commands.SnuCommands.app_meta f)) =
      some (ReadOnlyCommands.snu (ReadOnlySnuCommands.app_meta f))
  narrow (Commands.Commands.snu (Commands.SnuCommands.records f)) =
      some (ReadOnlyCommands.snu (ReadOnlySnuCommands.records f))
  narrow (Commands.Commands.snu (Commands.SnuCommands.screenshot f)) =
      some (ReadOnlyCommands.snu (ReadOnlySnuCommands.screenshot f))
  narrow
        (Commands.Commands.snu (Commands.SnuCommands.context (Commands.SnuContextCommands.get f))) =
      some (ReadOnlyCommands.snu (ReadOnlySnuCommands.context (ReadOnlySnuContextCommands.get f)))
  narrow (Commands.Commands.snu (Commands.SnuCommands.rest (Commands.SnuRestCommands.get f))) =
      some (ReadOnlyCommands.snu (ReadOnlySnuCommands.rest (ReadOnlySnuRestCommands.get f)))
  narrow
        (Commands.Commands.snu
          (Commands.SnuCommands.page (Commands.SnuPageCommands.form_state f))) =
      some (ReadOnlyCommands.snu (ReadOnlySnuCommands.page (ReadOnlySnuPageCommands.form_state f)))
  narrow (Commands.Commands.profile command) = some (ReadOnlyCommands.profile command)
  narrow (Commands.Commands.domain f) = some (ReadOnlyCommands.domain f)
  narrow (Commands.Commands.completions f) = some (ReadOnlyCommands.completions f)
  narrow _ = none

  pub narrow_lem :
      (command : ReadOnlyCommands F) → narrow (into_full_command command) ≡ some command
  unfolding into_full_command narrow
  narrow_lem (ReadOnlyCommands.auth (ReadOnlyAuthCommands.login f)) = refl
  narrow_lem (ReadOnlyCommands.auth ReadOnlyAuthCommands.logout) = refl
  narrow_lem (ReadOnlyCommands.auth (ReadOnlyAuthCommands.status f)) = refl
  narrow_lem (ReadOnlyCommands.table (ReadOnlyTableCommands.list f)) = refl
  narrow_lem (ReadOnlyCommands.table (ReadOnlyTableCommands.get f)) = refl
  narrow_lem (ReadOnlyCommands.table (ReadOnlyTableCommands.schema f)) = refl
  narrow_lem (ReadOnlyCommands.table (ReadOnlyTableCommands.stats f)) = refl
  narrow_lem (ReadOnlyCommands.session ReadOnlySessionCommands.show) = refl
  narrow_lem (ReadOnlyCommands.session (ReadOnlySessionCommands.options f)) = refl
  narrow_lem (ReadOnlyCommands.session (ReadOnlySessionCommands.attach f)) = refl
  narrow_lem (ReadOnlyCommands.session ReadOnlySessionCommands.forget) = refl
  narrow_lem (ReadOnlyCommands.dataset (ReadOnlyDataCommands.export f)) = refl
  narrow_lem (ReadOnlyCommands.dataset (ReadOnlyDataCommands.export_package f)) = refl
  narrow_lem (ReadOnlyCommands.dataset (ReadOnlyDataCommands.validate f)) = refl
  narrow_lem (ReadOnlyCommands.scope (ReadOnlyScopeCommands.list f)) = refl
  narrow_lem (ReadOnlyCommands.scope (ReadOnlyScopeCommands.inspect f)) = refl
  narrow_lem (ReadOnlyCommands.scope (ReadOnlyScopeCommands.inventory f)) = refl
  narrow_lem (ReadOnlyCommands.attachment (ReadOnlyAttachmentCommands.list f)) = refl
  narrow_lem (ReadOnlyCommands.attachment (ReadOnlyAttachmentCommands.download f)) = refl
  narrow_lem (ReadOnlyCommands.api (ReadOnlyApiCommands.get f)) = refl
  narrow_lem (ReadOnlyCommands.codesearch (ReadOnlyCodesearchCommands.search f)) = refl
  narrow_lem (ReadOnlyCommands.snu (ReadOnlySnuCommands.check_connection f)) = refl
  narrow_lem (ReadOnlyCommands.snu (ReadOnlySnuCommands.get_instance_info f)) = refl
  narrow_lem (ReadOnlyCommands.snu (ReadOnlySnuCommands.wait_token f)) = refl
  narrow_lem (ReadOnlyCommands.snu (ReadOnlySnuCommands.query f)) = refl
  narrow_lem (ReadOnlyCommands.snu (ReadOnlySnuCommands.list_tables f)) = refl
  narrow_lem (ReadOnlyCommands.snu (ReadOnlySnuCommands.get_record f)) = refl
  narrow_lem (ReadOnlyCommands.snu (ReadOnlySnuCommands.schema f)) = refl
  narrow_lem (ReadOnlyCommands.snu (ReadOnlySnuCommands.app_meta f)) = refl
  narrow_lem (ReadOnlyCommands.snu (ReadOnlySnuCommands.records f)) = refl
  narrow_lem (ReadOnlyCommands.snu (ReadOnlySnuCommands.screenshot f)) = refl
  narrow_lem
        (ReadOnlyCommands.snu (ReadOnlySnuCommands.context (ReadOnlySnuContextCommands.get f))) =
      refl
  narrow_lem (ReadOnlyCommands.snu (ReadOnlySnuCommands.rest (ReadOnlySnuRestCommands.get f))) =
      refl
  narrow_lem
        (ReadOnlyCommands.snu (ReadOnlySnuCommands.page (ReadOnlySnuPageCommands.form_state f))) =
      refl
  narrow_lem (ReadOnlyCommands.profile command) = refl
  narrow_lem (ReadOnlyCommands.domain f) = refl
  narrow_lem (ReadOnlyCommands.completions f) = refl
