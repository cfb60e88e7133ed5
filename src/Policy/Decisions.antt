-- ===== src/Policy/Decisions.antt =====
-- policy.rs: the capabilities, and the decision on each command under the read-only policy, with one
-- function for each nested match.
use snow_cli.Base.{String}
use snow_cli.Policy.Commands

pub data CommandCapability : Type 0 where
  remote_read remote_write raw_api_read raw_api_write credential_export : CommandCapability
  local_config_read local_config_write local_credential_read : CommandCapability
  local_credential_write local_file_write unknown : CommandCapability

unfoldable pub as_str : CommandCapability → String
as_str remote_read = "remote_read"
as_str remote_write = "remote_write"
as_str raw_api_read = "raw_api_read"
as_str raw_api_write = "raw_api_write"
as_str credential_export = "credential_export"
as_str local_config_read = "local_config_read"
as_str local_config_write = "local_config_write"
as_str local_credential_read = "local_credential_read"
as_str local_credential_write = "local_credential_write"
as_str local_file_write = "local_file_write"
as_str unknown = "unknown"

pub data PolicyDecision : Type 0 where
  allow : PolicyDecision
  deny : (command : String) → CommandCapability → (reason : String) → PolicyDecision

module _ {F : Type 0} where
  unfoldable pub sdk_decision : Commands.ProfileSdkCommands F → PolicyDecision
  sdk_decision (Commands.ProfileSdkCommands.export _) =
      deny "profile sdk export" credential_export
        "read-only policy does not allow exporting reusable credentials to the now-sdk store"
  sdk_decision Commands.ProfileSdkCommands.list = allow
  sdk_decision (Commands.ProfileSdkCommands.import _) = allow

  unfoldable pub profile_decision : Commands.ConfigCommands F → PolicyDecision
  unfolding sdk_decision
  profile_decision (Commands.ConfigCommands.export_now_sdk _) =
      deny "profile export-now-sdk" credential_export
        "read-only policy does not allow exporting reusable credentials to the now-sdk store"
  profile_decision (Commands.ConfigCommands.sdk command) = sdk_decision command
  profile_decision _ = allow

  unfoldable pub auth_decision : Commands.AuthCommands F → PolicyDecision
  auth_decision (Commands.AuthCommands.status _) = allow
  auth_decision (Commands.AuthCommands.login _) = allow
  auth_decision Commands.AuthCommands.logout = allow
  auth_decision (Commands.AuthCommands.token _) =
      deny "auth token" credential_export
        "read-only policy does not allow exporting reusable credentials"

  unfoldable pub session_decision : Commands.SessionCommands F → PolicyDecision
  session_decision Commands.SessionCommands.show = allow
  session_decision (Commands.SessionCommands.options _) = allow
  session_decision (Commands.SessionCommands.attach _) = allow
  session_decision Commands.SessionCommands.forget = allow
  session_decision (Commands.SessionCommands.switch _) =
      deny "session switch/login" remote_write
        "Native session switching and login change remote session state"
  session_decision (Commands.SessionCommands.login _) =
      deny "session switch/login" remote_write
        "Native session switching and login change remote session state"

  unfoldable pub table_decision : Commands.TableCommands F → PolicyDecision
  table_decision (Commands.TableCommands.list _) = allow
  table_decision (Commands.TableCommands.get _) = allow
  table_decision (Commands.TableCommands.schema _) = allow
  table_decision (Commands.TableCommands.stats _) = allow
  table_decision (Commands.TableCommands.create _) =
      deny "table write" remote_write "read-only policy does not allow table mutations"
  table_decision (Commands.TableCommands.update _) =
      deny "table write" remote_write "read-only policy does not allow table mutations"
  table_decision (Commands.TableCommands.delete _) =
      deny "table write" remote_write "read-only policy does not allow table mutations"

  unfoldable pub data_decision : Commands.DataCommands F → PolicyDecision
  data_decision (Commands.DataCommands.export _) = allow
  data_decision (Commands.DataCommands.export_package _) = allow
  data_decision (Commands.DataCommands.validate _) = allow
  data_decision (Commands.DataCommands.import _) =
      deny "data import" remote_write "read-only policy does not allow data import"

  unfoldable pub seed_decision : Commands.SeedCommands F → PolicyDecision
  seed_decision (Commands.SeedCommands.plan _) = allow
  seed_decision (Commands.SeedCommands.apply _) =
      deny "seed apply/cleanup" remote_write
        "read-only policy does not allow seed mutations or cleanup deletes"
  seed_decision (Commands.SeedCommands.cleanup _) =
      deny "seed apply/cleanup" remote_write
        "read-only policy does not allow seed mutations or cleanup deletes"

  unfoldable pub scope_decision : Commands.ScopeCommands F → PolicyDecision
  scope_decision (Commands.ScopeCommands.list _) = allow
  scope_decision (Commands.ScopeCommands.inspect _) = allow
  scope_decision (Commands.ScopeCommands.inventory _) = allow
  scope_decision (Commands.ScopeCommands.move_file _) =
      deny "scope move-file" remote_write
        "read-only policy does not allow moving application files between scopes"

  unfoldable pub attachment_decision : Commands.AttachmentCommands F → PolicyDecision
  attachment_decision (Commands.AttachmentCommands.list _) = allow
  attachment_decision (Commands.AttachmentCommands.download _) = allow
  attachment_decision (Commands.AttachmentCommands.upload _) =
      deny "attachment upload" remote_write "read-only policy does not allow attachment uploads"

  unfoldable pub import_set_decision : Commands.ImportSetCommands F → PolicyDecision
  import_set_decision (Commands.ImportSetCommands.load _) =
      deny "import-set" remote_write "read-only policy does not allow import set operations"
  import_set_decision (Commands.ImportSetCommands.transform _) =
      deny "import-set" remote_write "read-only policy does not allow import set operations"

  unfoldable pub api_decision : Commands.ApiCommands F → PolicyDecision
  api_decision (Commands.ApiCommands.get _) = allow
  api_decision (Commands.ApiCommands.post _) =
      deny "api write" raw_api_write "read-only policy allows raw API GET only"
  api_decision (Commands.ApiCommands.put _) =
      deny "api write" raw_api_write "read-only policy allows raw API GET only"
  api_decision (Commands.ApiCommands.delete _) =
      deny "api write" raw_api_write "read-only policy allows raw API GET only"

  unfoldable pub rest_decision : Commands.SnuRestCommands F → PolicyDecision
  rest_decision (Commands.SnuRestCommands.get _) = allow
  rest_decision (Commands.SnuRestCommands.post _) =
      deny "snu rest write" raw_api_write "read-only policy allows SN-Utils Agent API REST GET only"
  rest_decision (Commands.SnuRestCommands.put _) =
      deny "snu rest write" raw_api_write "read-only policy allows SN-Utils Agent API REST GET only"
  rest_decision (Commands.SnuRestCommands.patch _) =
      deny "snu rest write" raw_api_write "read-only policy allows SN-Utils Agent API REST GET only"
  rest_decision (Commands.SnuRestCommands.delete _) =
      deny "snu rest write" raw_api_write "read-only policy allows SN-Utils Agent API REST GET only"

  unfoldable pub page_decision : Commands.SnuPageCommands F → PolicyDecision
  page_decision (Commands.SnuPageCommands.form_state _) = allow
  page_decision (Commands.SnuPageCommands.set_field _) =
      deny "snu page mutation" remote_write "read-only policy allows form-state reads only"
  page_decision (Commands.SnuPageCommands.run_ui_action _) =
      deny "snu page mutation" remote_write "read-only policy allows form-state reads only"
  page_decision (Commands.SnuPageCommands.click _) =
      deny "snu page mutation" remote_write "read-only policy allows form-state reads only"
  page_decision (Commands.SnuPageCommands.navigate _) =
      deny "snu page mutation" remote_write "read-only policy allows form-state reads only"

  unfoldable pub context_decision : Commands.SnuContextCommands F → PolicyDecision
  context_decision (Commands.SnuContextCommands.get _) = allow
  context_decision (Commands.SnuContextCommands.switch _) =
      deny "snu context switch" remote_write
        "read-only policy does not allow switching browser session context"

  unfoldable pub snu_decision : Commands.SnuCommands F → PolicyDecision
  unfolding rest_decision page_decision context_decision
  snu_decision (Commands.SnuCommands.check_connection _) = allow
  snu_decision (Commands.SnuCommands.get_instance_info _) = allow
  snu_decision (Commands.SnuCommands.wait_token _) = allow
  snu_decision (Commands.SnuCommands.list_tables _) = allow
  snu_decision (Commands.SnuCommands.get_record _) = allow
  snu_decision (Commands.SnuCommands.app_meta _) = allow
  snu_decision (Commands.SnuCommands.query _) = allow
  snu_decision (Commands.SnuCommands.schema _) = allow
  snu_decision (Commands.SnuCommands.records _) = allow
  snu_decision (Commands.SnuCommands.slash _) = allow
  snu_decision (Commands.SnuCommands.tab _) = allow
  snu_decision (Commands.SnuCommands.screenshot _) = allow
  snu_decision (Commands.SnuCommands.broker _) = allow
  snu_decision (Commands.SnuCommands.rest command) = rest_decision command
  snu_decision (Commands.SnuCommands.page command) = page_decision command
  snu_decision (Commands.SnuCommands.update_record _) =
      deny "snu update-record" remote_write
        "read-only policy does not allow record updates through SN-Utils"
  snu_decision (Commands.SnuCommands.create_record _) =
      deny "snu create-record" remote_write
        "read-only policy does not allow record creation through SN-Utils"
  snu_decision (Commands.SnuCommands.delete_record _) =
      deny "snu delete-record" remote_write
        "read-only policy does not allow record deletion through SN-Utils"
  snu_decision (Commands.SnuCommands.execute_bg_script _) =
      deny "snu execute-bg-script" remote_write
        "read-only policy does not allow background script execution through SN-Utils"
  snu_decision (Commands.SnuCommands.context command) = context_decision command
  snu_decision (Commands.SnuCommands.attachment_upload _) =
      deny "snu attachment upload" remote_write "read-only policy does not allow attachment uploads"

  -- The match on the whole command.
  unfoldable pub read_only_command_decision : Commands.Commands F → PolicyDecision
  unfolding profile_decision auth_decision session_decision table_decision data_decision
      seed_decision scope_decision attachment_decision import_set_decision api_decision snu_decision
  read_only_command_decision (Commands.Commands.profile command) = profile_decision command
  read_only_command_decision (Commands.Commands.auth command) = auth_decision command
  read_only_command_decision (Commands.Commands.session command) = session_decision command
  read_only_command_decision (Commands.Commands.table command) = table_decision command
  read_only_command_decision (Commands.Commands.dataset command) = data_decision command
  read_only_command_decision (Commands.Commands.seed command) = seed_decision command
  read_only_command_decision (Commands.Commands.scope command) = scope_decision command
  read_only_command_decision (Commands.Commands.attachment command) = attachment_decision command
  read_only_command_decision (Commands.Commands.import_set command) = import_set_decision command
  read_only_command_decision (Commands.Commands.api command) = api_decision command
  read_only_command_decision (Commands.Commands.snu command) = snu_decision command
  read_only_command_decision (Commands.Commands.domain _) = allow
  read_only_command_decision (Commands.Commands.graphql _) =
      deny "graphql" remote_write
        "read-only policy does not allow GraphQL because documents may contain mutations and the endpoint requires POST"
  read_only_command_decision (Commands.Commands.script (Commands.ScriptCommands.run _)) =
      deny "script run" remote_write "read-only policy does not allow background script execution"
  read_only_command_decision (Commands.Commands.codesearch (Commands.CodesearchCommands.search _)) =
      allow
  read_only_command_decision (Commands.Commands.skill (Commands.SkillCommands.install _)) = allow
  read_only_command_decision (Commands.Commands.completions _) = allow
