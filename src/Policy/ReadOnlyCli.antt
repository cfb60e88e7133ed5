-- ===== src/Policy/ReadOnlyCli.antt =====
-- cli/readonly_args.rs: the surface of the executable snow-cli-ro, and its mapping to full commands.
-- As in the full surface, `F` stands for what a variant carries.
use snow_cli.Policy.Commands
use snow_cli.Policy.Commands.{ConfigCommands}

pub data ReadOnlyAuthCommands (F : Type 0) : Type 0 where
  login status : F → ReadOnlyAuthCommands F
  logout : ReadOnlyAuthCommands F

pub data ReadOnlyTableCommands (F : Type 0) : Type 0 where
  list get schema stats : F → ReadOnlyTableCommands F

pub data ReadOnlyDataCommands (F : Type 0) : Type 0 where
  export export_package validate : F → ReadOnlyDataCommands F

pub data ReadOnlyScopeCommands (F : Type 0) : Type 0 where
  list inspect inventory : F → ReadOnlyScopeCommands F

pub data ReadOnlyAttachmentCommands (F : Type 0) : Type 0 where
  list download : F → ReadOnlyAttachmentCommands F

pub data ReadOnlyApiCommands (F : Type 0) : Type 0 where
  get : F → ReadOnlyApiCommands F

pub data ReadOnlyCodesearchCommands (F : Type 0) : Type 0 where
  search : F → ReadOnlyCodesearchCommands F

pub data ReadOnlySnuContextCommands (F : Type 0) : Type 0 where
  get : F → ReadOnlySnuContextCommands F

pub data ReadOnlySnuRestCommands (F : Type 0) : Type 0 where
  get : F → ReadOnlySnuRestCommands F

pub data ReadOnlySnuPageCommands (F : Type 0) : Type 0 where
  form_state : F → ReadOnlySnuPageCommands F

pub data ReadOnlySessionCommands (F : Type 0) : Type 0 where
  options attach : F → ReadOnlySessionCommands F
  show forget : ReadOnlySessionCommands F

pub data ReadOnlySnuCommands (F : Type 0) : Type 0 where
  check_connection get_instance_info wait_token query list_tables : F → ReadOnlySnuCommands F
  get_record schema app_meta records screenshot : F → ReadOnlySnuCommands F
  context : ReadOnlySnuContextCommands F → ReadOnlySnuCommands F
  rest : ReadOnlySnuRestCommands F → ReadOnlySnuCommands F
  page : ReadOnlySnuPageCommands F → ReadOnlySnuCommands F

pub data ReadOnlyCommands (F : Type 0) : Type 0 where
  profile : ConfigCommands F → ReadOnlyCommands F
  auth : ReadOnlyAuthCommands F → ReadOnlyCommands F
  table : ReadOnlyTableCommands F → ReadOnlyCommands F
  domain : F → ReadOnlyCommands F
  session : ReadOnlySessionCommands F → ReadOnlyCommands F
  dataset : ReadOnlyDataCommands F → ReadOnlyCommands F
  scope : ReadOnlyScopeCommands F → ReadOnlyCommands F
  attachment : ReadOnlyAttachmentCommands F → ReadOnlyCommands F
  api : ReadOnlyApiCommands F → ReadOnlyCommands F
  codesearch : ReadOnlyCodesearchCommands F → ReadOnlyCommands F
  snu : ReadOnlySnuCommands F → ReadOnlyCommands F
  completions : F → ReadOnlyCommands F

module _ {F : Type 0} where
  unfoldable pub full_auth : ReadOnlyAuthCommands F → Commands.AuthCommands F
  full_auth (ReadOnlyAuthCommands.login f) = Commands.AuthCommands.login f
  full_auth ReadOnlyAuthCommands.logout = Commands.AuthCommands.logout
  full_auth (ReadOnlyAuthCommands.status f) = Commands.AuthCommands.status f

  unfoldable pub full_table : ReadOnlyTableCommands F → Commands.TableCommands F
  full_table (ReadOnlyTableCommands.list f) = Commands.TableCommands.list f
  full_table (ReadOnlyTableCommands.get f) = Commands.TableCommands.get f
  full_table (ReadOnlyTableCommands.schema f) = Commands.TableCommands.schema f
  full_table (ReadOnlyTableCommands.stats f) = Commands.TableCommands.stats f

  unfoldable pub full_data : ReadOnlyDataCommands F → Commands.DataCommands F
  full_data (ReadOnlyDataCommands.export f) = Commands.DataCommands.export f
  full_data (ReadOnlyDataCommands.export_package f) = Commands.DataCommands.export_package f
  full_data (ReadOnlyDataCommands.validate f) = Commands.DataCommands.validate f

  unfoldable pub full_scope : ReadOnlyScopeCommands F → Commands.ScopeCommands F
  full_scope (ReadOnlyScopeCommands.list f) = Commands.ScopeCommands.list f
  full_scope (ReadOnlyScopeCommands.inspect f) = Commands.ScopeCommands.inspect f
  full_scope (ReadOnlyScopeCommands.inventory f) = Commands.ScopeCommands.inventory f

  unfoldable pub full_attachment : ReadOnlyAttachmentCommands F → Commands.AttachmentCommands F
  full_attachment (ReadOnlyAttachmentCommands.list f) = Commands.AttachmentCommands.list f
  full_attachment (ReadOnlyAttachmentCommands.download f) = Commands.AttachmentCommands.download f

  unfoldable pub full_api : ReadOnlyApiCommands F → Commands.ApiCommands F
  full_api (ReadOnlyApiCommands.get f) = Commands.ApiCommands.get f

  unfoldable pub full_codesearch : ReadOnlyCodesearchCommands F → Commands.CodesearchCommands F
  full_codesearch (ReadOnlyCodesearchCommands.search f) = Commands.CodesearchCommands.search f

  unfoldable pub full_context : ReadOnlySnuContextCommands F → Commands.SnuContextCommands F
  full_context (ReadOnlySnuContextCommands.get f) = Commands.SnuContextCommands.get f

  unfoldable pub full_rest : ReadOnlySnuRestCommands F → Commands.SnuRestCommands F
  full_rest (ReadOnlySnuRestCommands.get f) = Commands.SnuRestCommands.get f

  unfoldable pub full_page : ReadOnlySnuPageCommands F → Commands.SnuPageCommands F
  full_page (ReadOnlySnuPageCommands.form_state f) = Commands.SnuPageCommands.form_state f

  unfoldable pub full_session : ReadOnlySessionCommands F → Commands.SessionCommands F
  full_session ReadOnlySessionCommands.show = Commands.SessionCommands.show
  full_session (ReadOnlySessionCommands.options f) = Commands.SessionCommands.options f
  full_session (ReadOnlySessionCommands.attach f) = Commands.SessionCommands.attach f
  full_session ReadOnlySessionCommands.forget = Commands.SessionCommands.forget

  unfoldable pub full_snu : ReadOnlySnuCommands F → Commands.SnuCommands F
  unfolding full_context full_rest full_page
  full_snu (ReadOnlySnuCommands.check_connection f) = Commands.SnuCommands.check_connection f
  full_snu (ReadOnlySnuCommands.get_instance_info f) = Commands.SnuCommands.get_instance_info f
  full_snu (ReadOnlySnuCommands.wait_token f) = Commands.SnuCommands.wait_token f
  full_snu (ReadOnlySnuCommands.query f) = Commands.SnuCommands.query f
  full_snu (ReadOnlySnuCommands.list_tables f) = Commands.SnuCommands.list_tables f
  full_snu (ReadOnlySnuCommands.get_record f) = Commands.SnuCommands.get_record f
  full_snu (ReadOnlySnuCommands.schema f) = Commands.SnuCommands.schema f
  full_snu (ReadOnlySnuCommands.app_meta f) = Commands.SnuCommands.app_meta f
  full_snu (ReadOnlySnuCommands.records f) = Commands.SnuCommands.records f
  full_snu (ReadOnlySnuCommands.screenshot f) = Commands.SnuCommands.screenshot f
  full_snu (ReadOnlySnuCommands.context command) =
      Commands.SnuCommands.context (full_context command)
  full_snu (ReadOnlySnuCommands.rest command) = Commands.SnuCommands.rest (full_rest command)
  full_snu (ReadOnlySnuCommands.page command) = Commands.SnuCommands.page (full_page command)

  -- `ReadOnlyCommands::into_full_command`
  unfoldable pub into_full_command : ReadOnlyCommands F → Commands.Commands F
  unfolding full_auth full_table full_session full_data full_scope full_attachment full_api
      full_codesearch full_snu
  into_full_command (ReadOnlyCommands.profile command) = Commands.Commands.profile command
  into_full_command (ReadOnlyCommands.domain f) = Commands.Commands.domain f
  into_full_command (ReadOnlyCommands.completions f) = Commands.Commands.completions f
  into_full_command (ReadOnlyCommands.auth command) = Commands.Commands.auth (full_auth command)
  into_full_command (ReadOnlyCommands.table command) = Commands.Commands.table (full_table command)
  into_full_command (ReadOnlyCommands.session command) =
      Commands.Commands.session (full_session command)
  into_full_command (ReadOnlyCommands.dataset command) =
      Commands.Commands.dataset (full_data command)
  into_full_command (ReadOnlyCommands.scope command) = Commands.Commands.scope (full_scope command)
  into_full_command (ReadOnlyCommands.attachment command) =
      Commands.Commands.attachment (full_attachment command)
  into_full_command (ReadOnlyCommands.api command) = Commands.Commands.api (full_api command)
  into_full_command (ReadOnlyCommands.codesearch command) =
      Commands.Commands.codesearch (full_codesearch command)
  into_full_command (ReadOnlyCommands.snu command) = Commands.Commands.snu (full_snu command)
