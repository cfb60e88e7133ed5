-- ===== src/ErrorReport/Errors.antt =====
-- The errors of error.rs, and what is written about one.
use snow_cli.Base.{Option, ℕ, Text, List, Bool}
use snow_cli.Policy.{PolicyMode, CommandCapability}

-- `ValidationIssue` of models/validation.rs
pub record ValidationIssue : Type 0 where
  pub kind : Text
  pub field : Option Text
  pub record_index : Option ℕ
  pub issue_message : Text

pub data ErrorClass : Type 0 where
  validation_class config_class auth_class policy_class api_class transport_class : ErrorClass
  io_class command_class internal_class : ErrorClass

pub data RetryAdvice : Type 0 where
  never safe_reads_only manual_review unknown_advice : RetryAdvice

-- `ErrorOutput`, which only wraps an `ErrorBody`
pub record ErrorBody : Type 0 where
  pub code : Text
  pub message : Text
  pub class : ErrorClass
  pub retry : RetryAdvice
  pub status : Option ℕ
  pub detail : Option Text
  pub instance_url : Option Text
  pub issues : List ValidationIssue
  pub issue_count : Option ℕ
  pub issues_truncated : Option Bool

mutual
  pub data AnyhowError : Type 0 where
    anyhow : (text : Text) → Sources → AnyhowError

  -- The typed errors of the chain, the outermost first; one with no type of those below is left out.
  pub data Sources : Type 0 where
    untyped : Sources
    typed : Source → Sources → Sources

  pub data Source : Type 0 where
    validation_error : (text : Text) → List ValidationIssue → Source
    config_error : (code text : Text) → Source
    import_set_row_error script_execution_error : (text : Text) → Source
    policy_error : (text : Text) → PolicyMode → CommandCapability → Source
    session_switch : (text : Text) → SwitchError → Source
    api_error :
        (code message : Text) (status : ℕ) (detail : Option Text) (instance_url : Text) → Source
    graphql_error : (code message : Text) (detail : Option Text) → Source
    -- `TransportError`, and a `reqwest::Error` as `classify_transport_error` sees it
    transport_error reqwest_error : (code text : Text) (transient : Bool) → Source
    authentication_error : (text : Text) → Source
    broker_error : (code message : Text) → Source
    cli_error : CliError → Source
    toml_error json_error : Source
    io_error : (kind : Text) → Source

  -- `NativeSessionSwitchError`
  pub data SwitchError : Type 0 where
    request_failed verification_failed : AnyhowError → SwitchError
    mismatch incomplete_context : SwitchError

  pub data CliError : Type 0 where
    config : (code message : Text) → CliError
    auth : (code message : Text) (status : Option ℕ) → CliError
    api : (code message : Text) (status : ℕ) (detail : Option Text) (instance_url : Text) → CliError
    io : (kind : Text) → CliError
    other : AnyhowError → CliError
