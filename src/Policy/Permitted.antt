-- ===== src/Policy/Permitted.antt =====
-- Which commands the read-only policy (policy.rs) permits, constructor by constructor, beside the
-- surface of snow-cli-ro (cli/readonly_args.rs).
use snow_cli.Base.{arith, String, inr, inl, ◌⊎◌, refl, ◌≡◌}
use snow_cli.Policy.Commands
use snow_cli.Policy.{CommandCapability, allow, deny, read_only_command_decision}
use snow_cli.Policy.Surface.{IsFullOnly}
use snow_cli.Policy.ReadOnlyCli.{
  ReadOnlyCodesearchCommands, ReadOnlySnuContextCommands, ReadOnlySnuPageCommands,
  ReadOnlySnuRestCommands, ReadOnlySnuCommands, ReadOnlyApiCommands, ReadOnlyAttachmentCommands,
  ReadOnlyScopeCommands, ReadOnlyDataCommands, ReadOnlyTableCommands, ReadOnlySessionCommands,
  ReadOnlyAuthCommands, ReadOnlyCommands, into_full_command,
}

pub denied :
    {A : Type 0} {name reason : String} {capability : CommandCapability}
    → deny name capability reason ≡ allow
    → A
denied h = absurd (ground arith)

module _ {F : Type 0} where
  pub permitted :
      (command : Commands.Commands F)
      → read_only_command_decision command ≡ allow
      → ((reduced : ReadOnlyCommands F) × (into_full_command reduced ≡ command))
        ⊎ IsFullOnly command
  unfolding into_full_command read_only_command_decision
  permitted (Commands.Commands.auth (Commands.AuthCommands.status f)) _ =
      inl (ReadOnlyCommands.auth (ReadOnlyAuthCommands.status f), refl)
  permitted (Commands.Commands.auth (Commands.AuthCommands.login f)) _ =
      inl (ReadOnlyCommands.auth (ReadOnlyAuthCommands.login f), refl)
  permitted (Commands.Commands.auth Commands.AuthCommands.logout) _ =
      inl (ReadOnlyCommands.auth ReadOnlyAuthCommands.logout, refl)
  permitted (Commands.Commands.auth (Commands.AuthCommands.token f)) h = denied h
  permitted (Commands.Commands.session Commands.SessionCommands.show) _ =
      inl (ReadOnlyCommands.session ReadOnlySessionCommands.show, refl)
  permitted (Commands.Commands.session (Commands.SessionCommands.options f)) _ =
      inl (ReadOnlyCommands.session (ReadOnlySessionCommands.options f), refl)
  permitted (Commands.Commands.session (Commands.SessionCommands.attach f)) _ =
      inl (ReadOnlyCommands.session (ReadOnlySessionCommands.attach f), refl)
  permitted (Commands.Commands.session Commands.SessionCommands.forget) _ =
      inl (ReadOnlyCommands.session ReadOnlySessionCommands.forget, refl)
  permitted (Commands.Commands.session (Commands.SessionCommands.switch f)) h = denied h
  permitted (Commands.Commands.session (Commands.SessionCommands.login f)) h = denied h
  permitted (Commands.Commands.table (Commands.TableCommands.list f)) _ =
      inl (ReadOnlyCommands.table (ReadOnlyTableCommands.list f), refl)
  permitted (Commands.Commands.table (Commands.TableCommands.get f)) _ =
      inl (ReadOnlyCommands.table (ReadOnlyTableCommands.get f), refl)
  permitted (Commands.Commands.table (Commands.TableCommands.schema f)) _ =
      inl (ReadOnlyCommands.table (ReadOnlyTableCommands.schema f), refl)
  permitted (Commands.Commands.table (Commands.TableCommands.stats f)) _ =
      inl (ReadOnlyCommands.table (ReadOnlyTableCommands.stats f), refl)
  permitted (Commands.Commands.table (Commands.TableCommands.create f)) h = denied h
  permitted (Commands.Commands.table (Commands.TableCommands.update f)) h = denied h
  permitted (Commands.Commands.table (Commands.TableCommands.delete f)) h = denied h
  permitted (Commands.Commands.dataset (Commands.DataCommands.export f)) _ =
      inl (ReadOnlyCommands.dataset (ReadOnlyDataCommands.export f), refl)
  permitted (Commands.Commands.dataset (Commands.DataCommands.export_package f)) _ =
      inl (ReadOnlyCommands.dataset (ReadOnlyDataCommands.export_package f), refl)
  permitted (Commands.Commands.dataset (Commands.DataCommands.validate f)) _ =
      inl (ReadOnlyCommands.dataset (ReadOnlyDataCommands.validate f), refl)
  permitted (Commands.Commands.dataset (Commands.DataCommands.import f)) h = denied h
  permitted (Commands.Commands.seed (Commands.SeedCommands.plan f)) _ = inr tt
  permitted (Commands.Commands.seed (Commands.SeedCommands.apply f)) h = denied h
  permitted (Commands.Commands.seed (Commands.SeedCommands.cleanup f)) h = denied h
  permitted (Commands.Commands.scope (Commands.ScopeCommands.list f)) _ =
      inl (ReadOnlyCommands.scope (ReadOnlyScopeCommands.list f), refl)
  permitted (Commands.Commands.scope (Commands.ScopeCommands.inspect f)) _ =
      inl (ReadOnlyCommands.scope (ReadOnlyScopeCommands.inspect f), refl)
  permitted (Commands.Commands.scope (Commands.ScopeCommands.inventory f)) _ =
      inl (ReadOnlyCommands.scope (ReadOnlyScopeCommands.inventory f), refl)
  permitted (Commands.Commands.scope (Commands.ScopeCommands.move_file f)) h = denied h
  permitted (Commands.Commands.attachment (Commands.AttachmentCommands.list f)) _ =
      inl (ReadOnlyCommands.attachment (ReadOnlyAttachmentCommands.list f), refl)
  permitted (Commands.Commands.attachment (Commands.AttachmentCommands.download f)) _ =
      inl (ReadOnlyCommands.attachment (ReadOnlyAttachmentCommands.download f), refl)
  permitted (Commands.Commands.attachment (Commands.AttachmentCommands.upload f)) h = denied h
  permitted (Commands.Commands.import_set (Commands.ImportSetCommands.load f)) h = denied h
  permitted (Commands.Commands.import_set (Commands.ImportSetCommands.transform f)) h = denied h
  permitted (Commands.Commands.api (Commands.ApiCommands.get f)) _ =
      inl (ReadOnlyCommands.api (ReadOnlyApiCommands.get f), refl)
  permitted (Commands.Commands.api (Commands.ApiCommands.post f)) h = denied h
  permitted (Commands.Commands.api (Commands.ApiCommands.put f)) h = denied h
  permitted (Commands.Commands.api (Commands.ApiCommands.delete f)) h = denied h
  permitted (Commands.Commands.snu (Commands.SnuCommands.rest (Commands.SnuRestCommands.get f))) _ =
      inl (ReadOnlyCommands.snu (ReadOnlySnuCommands.rest (ReadOnlySnuRestCommands.get f)), refl)
  permitted (Commands.Commands.snu (Commands.SnuCommands.rest (Commands.SnuRestCommands.post f)))
        h =
      denied h
  permitted (Commands.Commands.snu (Commands.SnuCommands.rest (Commands.SnuRestCommands.put f))) h =
      denied h
  permitted (Commands.Commands.snu (Commands.SnuCommands.rest (Commands.SnuRestCommands.patch f)))
        h =
      denied h
  permitted (Commands.Commands.snu (Commands.SnuCommands.rest (Commands.SnuRestCommands.delete f)))
        h =
      denied h
  permitted
        (Commands.Commands.snu (Commands.SnuCommands.page (Commands.SnuPageCommands.form_state f)))
        _ =
      inl (
        ReadOnlyCommands.snu (ReadOnlySnuCommands.page (ReadOnlySnuPageCommands.form_state f)),
        refl,
      )
  permitted
        (Commands.Commands.snu (Commands.SnuCommands.page (Commands.SnuPageCommands.set_field f)))
        h =
      denied h
  permitted
        (Commands.Commands.snu
          (Commands.SnuCommands.page (Commands.SnuPageCommands.run_ui_action f)))
        h =
      denied h
  permitted (Commands.Commands.snu (Commands.SnuCommands.page (Commands.SnuPageCommands.click f)))
        h =
      denied h
  permitted
        (Commands.Commands.snu (Commands.SnuCommands.page (Commands.SnuPageCommands.navigate f)))
        h =
      denied h
  permitted
        (Commands.Commands.snu (Commands.SnuCommands.context (Commands.SnuContextCommands.get f)))
        _ =
      inl (
        ReadOnlyCommands.snu (ReadOnlySnuCommands.context (ReadOnlySnuContextCommands.get f)),
        refl,
      )
  permitted
        (Commands.Commands.snu
          (Commands.SnuCommands.context (Commands.SnuContextCommands.switch f)))
        h =
      denied h
  permitted (Commands.Commands.snu (Commands.SnuCommands.check_connection f)) _ =
      inl (ReadOnlyCommands.snu (ReadOnlySnuCommands.check_connection f), refl)
  permitted (Commands.Commands.snu (Commands.SnuCommands.get_instance_info f)) _ =
      inl (ReadOnlyCommands.snu (ReadOnlySnuCommands.get_instance_info f), refl)
  permitted (Commands.Commands.snu (Commands.SnuCommands.wait_token f)) _ =
      inl (ReadOnlyCommands.snu (ReadOnlySnuCommands.wait_token f), refl)
  permitted (Commands.Commands.snu (Commands.SnuCommands.list_tables f)) _ =
      inl (ReadOnlyCommands.snu (ReadOnlySnuCommands.list_tables f), refl)
  permitted (Commands.Commands.snu (Commands.SnuCommands.get_record f)) _ =
      inl (ReadOnlyCommands.snu (ReadOnlySnuCommands.get_record f), refl)
  permitted (Commands.Commands.snu (Commands.SnuCommands.app_meta f)) _ =
      inl (ReadOnlyCommands.snu (ReadOnlySnuCommands.app_meta f), refl)
  permitted (Commands.Commands.snu (Commands.SnuCommands.query f)) _ =
      inl (ReadOnlyCommands.snu (ReadOnlySnuCommands.query f), refl)
  permitted (Commands.Commands.snu (Commands.SnuCommands.schema f)) _ =
      inl (ReadOnlyCommands.snu (ReadOnlySnuCommands.schema f), refl)
  permitted (Commands.Commands.snu (Commands.SnuCommands.records f)) _ =
      inl (ReadOnlyCommands.snu (ReadOnlySnuCommands.records f), refl)
  permitted (Commands.Commands.snu (Commands.SnuCommands.slash f)) _ = inr tt
  permitted (Commands.Commands.snu (Commands.SnuCommands.tab f)) _ = inr tt
  permitted (Commands.Commands.snu (Commands.SnuCommands.screenshot f)) _ =
      inl (ReadOnlyCommands.snu (ReadOnlySnuCommands.screenshot f), refl)
  permitted (Commands.Commands.snu (Commands.SnuCommands.broker f)) _ = inr tt
  permitted (Commands.Commands.snu (Commands.SnuCommands.update_record f)) h = denied h
  permitted (Commands.Commands.snu (Commands.SnuCommands.create_record f)) h = denied h
  permitted (Commands.Commands.snu (Commands.SnuCommands.delete_record f)) h = denied h
  permitted (Commands.Commands.snu (Commands.SnuCommands.execute_bg_script f)) h = denied h
  permitted (Commands.Commands.snu (Commands.SnuCommands.attachment_upload f)) h = denied h
  permitted (Commands.Commands.profile command) _ = inl (ReadOnlyCommands.profile command, refl)
  permitted (Commands.Commands.domain f) _ = inl (ReadOnlyCommands.domain f, refl)
  permitted (Commands.Commands.completions f) _ = inl (ReadOnlyCommands.completions f, refl)
  permitted (Commands.Commands.graphql f) h = denied h
  permitted (Commands.Commands.script (Commands.ScriptCommands.run f)) h = denied h
  permitted (Commands.Commands.codesearch (Commands.CodesearchCommands.search f)) _ =
      inl (ReadOnlyCommands.codesearch (ReadOnlyCodesearchCommands.search f), refl)
  permitted (Commands.Commands.skill (Commands.SkillCommands.install f)) _ = inr tt
