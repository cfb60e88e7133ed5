-- ===== src/Policy/Commands.antt =====
-- cli/args/*.rs: the subcommands that clap parses. `F` stands for what a variant carries beside a
-- nested subcommand: the policy and the read-only surface read none of it and pass it on.
pub data ProfileSdkCommands (F : Type 0) : Type 0 where
  list : ProfileSdkCommands F
  import export : F → ProfileSdkCommands F

pub data ConfigCommands (F : Type 0) : Type 0 where
  init add edit set_profile find_profile import_now_sdk export_now_sdk : F → ConfigCommands F
  use_profile delete_profile output : F → ConfigCommands F
  list_profiles list_now_sdk_profiles current show : ConfigCommands F
  sdk : ProfileSdkCommands F → ConfigCommands F

pub data AuthCommands (F : Type 0) : Type 0 where
  login status token : F → AuthCommands F
  logout : AuthCommands F

pub data SessionCommands (F : Type 0) : Type 0 where
  login attach options switch : F → SessionCommands F
  show forget : SessionCommands F

pub data TableCommands (F : Type 0) : Type 0 where
  list get create update delete schema stats : F → TableCommands F

pub data DataCommands (F : Type 0) : Type 0 where
  export export_package validate import : F → DataCommands F

pub data SeedCommands (F : Type 0) : Type 0 where
  plan apply cleanup : F → SeedCommands F

pub data ScopeCommands (F : Type 0) : Type 0 where
  list inspect inventory move_file : F → ScopeCommands F

pub data AttachmentCommands (F : Type 0) : Type 0 where
  list download upload : F → AttachmentCommands F

pub data ImportSetCommands (F : Type 0) : Type 0 where
  load transform : F → ImportSetCommands F

pub data ApiCommands (F : Type 0) : Type 0 where
  get post put delete : F → ApiCommands F

pub data ScriptCommands (F : Type 0) : Type 0 where
  run : F → ScriptCommands F

pub data CodesearchCommands (F : Type 0) : Type 0 where
  search : F → CodesearchCommands F

pub data SkillCommands (F : Type 0) : Type 0 where
  install : F → SkillCommands F

pub data SnuRestCommands (F : Type 0) : Type 0 where
  get post put patch delete : F → SnuRestCommands F

pub data SnuPageCommands (F : Type 0) : Type 0 where
  form_state set_field run_ui_action click navigate : F → SnuPageCommands F

pub data SnuContextCommands (F : Type 0) : Type 0 where
  get switch : F → SnuContextCommands F

pub data SnuCommands (F : Type 0) : Type 0 where
  check_connection get_instance_info wait_token query execute_bg_script : F → SnuCommands F
  create_record app_meta list_tables get_record update_record : F → SnuCommands F
  delete_record schema slash tab records screenshot : F → SnuCommands F
  attachment_upload broker : F → SnuCommands F
  rest : SnuRestCommands F → SnuCommands F
  page : SnuPageCommands F → SnuCommands F
  context : SnuContextCommands F → SnuCommands F

pub data Commands (F : Type 0) : Type 0 where
  profile : ConfigCommands F → Commands F
  auth : AuthCommands F → Commands F
  table : TableCommands F → Commands F
  domain : F → Commands F
  session : SessionCommands F → Commands F
  dataset : DataCommands F → Commands F
  seed : SeedCommands F → Commands F
  scope : ScopeCommands F → Commands F
  attachment : AttachmentCommands F → Commands F
  import_set : ImportSetCommands F → Commands F
  api : ApiCommands F → Commands F
  graphql : F → Commands F
  script : ScriptCommands F → Commands F
  codesearch : CodesearchCommands F → Commands F
  snu : SnuCommands F → Commands F
  skill : SkillCommands F → Commands F
  completions : F → Commands F
