-- ===== src/ErrorReport/Laws.antt =====
-- The properties of error.rs: what is written, the exit code and the advice.
use snow_cli.Base.{
  if-elim, leb, arith, codes, Option, Text, ℕ, inr, ◌++◌, none, some, true, false, refl, unwrap_or,
}
use snow_cli.Origin.{UrlCrate}
use snow_cli.ErrorReport.{
  ErrorBody, ErrorClass, RetryAdvice, AnyhowError, validation_class, config_class, auth_class,
  policy_class, api_class, transport_class, io_class, command_class, internal_class, never,
  safe_reads_only, manual_review, unknown_advice, new, api_body, api_retry, api_exit_code, internal,
  known_error_output_and_exit_code, error_output_and_exit_code, anyhow, validation_error,
  config_error, import_set_row_error, script_execution_error, policy_error, session_switch,
  api_error, graphql_error, transport_error, reqwest_error, typed, Sources, Downcast, preferred,
  output_of, downcasts, authentication_error, broker_error, cli_error, toml_error, json_error,
  io_error, untyped, request_failed, verification_failed, mismatch, incomplete_context, config,
  auth, api, io, other,
}
use snow_cli.ErrorReport.Bodies.{
  IsSafe, IsExitOf, IsAdvised, IsGood, IsGoodOption, safe_option-IsShort, new-IsSafe,
  with_issues-IsGood, with_cause-IsGood, policy_detail-IsShort, api_retry-IsAdvised,
}

module _ {U : Type 0} (crate : UrlCrate U) (ascii_origin : U → Text) where
  api_body-IsGood :
      (code message : Text) (status : ℕ) (detail : Option Text) (instance_url : Text)
      → IsGood (
        api_body crate ascii_origin code message status detail instance_url,
        api_exit_code status,
      )
  api_body-IsGood code message status detail instance_url =
      let safe = new-IsSafe code message api_class (api_retry status) in
      (
        (safe.0, safe.1, safe_option-IsShort detail, safe.3, safe.4),
        ground arith,
        (λ h. inr (refl, ground (arith, api_retry-IsAdvised status h)), ground arith),
      )

  new-IsGood :
      (code message : Text) (class : ErrorClass) (retry : RetryAdvice) (n : ℕ)
      → IsExitOf class none n
      → IsAdvised (new code message class retry)
      → IsGood (new code message class retry, n)
  new-IsGood code message class retry n exit advised =
      (new-IsSafe code message class retry, exit, advised)

  unwrap_or-IsGood :
      (output : Option (ErrorBody × ℕ)) (text : Text)
      → IsGoodOption output
      → IsGood (unwrap_or output (internal text))
  unwrap_or-IsGood none text h =
      new-IsGood (codes "INTERNAL_ERROR") text internal_class unknown_advice 1 refl (ground arith)
  unwrap_or-IsGood (some output) text h = h

  preferred-IsGood :
      (place : ℕ) (output : ErrorBody × ℕ) (found : Option Downcast)
      → IsGood output
      → IsGoodOption (output_of found)
      → IsGoodOption (output_of (preferred place output found))
  preferred-IsGood place output none good rest = good
  preferred-IsGood place output (some later) good rest =
      if-elim (λ found. IsGoodOption (output_of found)) (leb place later.place) _ _ (λ _. good)
        (λ _. rest)

  downcasts-IsGood :
      (sources : Sources) → IsGoodOption (output_of (downcasts crate ascii_origin sources))
  unfolding downcasts
  downcasts-IsGood untyped = tt
  downcasts-IsGood (typed (validation_error text issues) rest) =
      preferred-IsGood 0 _ (downcasts crate ascii_origin rest) (with_issues-IsGood issues text)
        (downcasts-IsGood rest)
  downcasts-IsGood (typed (config_error code text) rest) =
      preferred-IsGood 1 _ (downcasts crate ascii_origin rest)
        (new-IsGood code text config_class never 2 refl (ground arith)) (downcasts-IsGood rest)
  downcasts-IsGood (typed (import_set_row_error text) rest) =
      preferred-IsGood 2 _ (downcasts crate ascii_origin rest)
        (new-IsGood (codes "IMPORT_SET_ROW_ERRORS") text command_class manual_review 1 refl
          (ground arith))
        (downcasts-IsGood rest)
  downcasts-IsGood (typed (script_execution_error text) rest) =
      preferred-IsGood 3 _ (downcasts crate ascii_origin rest)
        (new-IsGood (codes "SCRIPT_EXECUTION_FAILED") text command_class manual_review 1 refl
          (ground arith))
        (downcasts-IsGood rest)
  downcasts-IsGood (typed (policy_error text mode capability) rest) =
      preferred-IsGood 4 _ (downcasts crate ascii_origin rest)
        (let safe = new-IsSafe (codes "POLICY_DENIED") text policy_class never in
          (
            (safe.0, safe.1, policy_detail-IsShort mode capability, safe.3, safe.4),
            refl,
            ground arith,
          ))
        (downcasts-IsGood rest)
  downcasts-IsGood (typed (session_switch text (request_failed (anyhow _ sources))) rest) =
      preferred-IsGood 5 _ (downcasts crate ascii_origin rest)
        (with_cause-IsGood (output_of (downcasts crate ascii_origin sources)) text)
        (downcasts-IsGood rest)
  downcasts-IsGood (typed (session_switch text (verification_failed (anyhow _ sources))) rest) =
      preferred-IsGood 5 _ (downcasts crate ascii_origin rest)
        (with_cause-IsGood (output_of (downcasts crate ascii_origin sources)) text)
        (downcasts-IsGood rest)
  downcasts-IsGood (typed (session_switch text mismatch) rest) =
      preferred-IsGood 5 _ (downcasts crate ascii_origin rest) (with_cause-IsGood none text)
        (downcasts-IsGood rest)
  downcasts-IsGood (typed (session_switch text incomplete_context) rest) =
      preferred-IsGood 5 _ (downcasts crate ascii_origin rest) (with_cause-IsGood none text)
        (downcasts-IsGood rest)
  downcasts-IsGood (typed (api_error code message status detail instance_url) rest) =
      preferred-IsGood 6 _ (downcasts crate ascii_origin rest)
        (api_body-IsGood code message status detail instance_url) (downcasts-IsGood rest)
  downcasts-IsGood (typed (graphql_error code message detail) rest) =
      preferred-IsGood 7 _ (downcasts crate ascii_origin rest)
        (let safe = new-IsSafe code message api_class manual_review in
          (
            (safe.0, safe.1, safe_option-IsShort detail, safe.3, safe.4),
            inr (refl, ground arith),
            ground arith,
          ))
        (downcasts-IsGood rest)
  downcasts-IsGood (typed (transport_error code text true) rest) =
      preferred-IsGood 8 _ (downcasts crate ascii_origin rest)
        (new-IsGood code text transport_class safe_reads_only 5 refl (ground arith))
        (downcasts-IsGood rest)
  downcasts-IsGood (typed (reqwest_error code text true) rest) =
      preferred-IsGood 9 _ (downcasts crate ascii_origin rest)
        (new-IsGood code text transport_class safe_reads_only 5 refl (ground arith))
        (downcasts-IsGood rest)
  downcasts-IsGood (typed (transport_error code text false) rest) =
      preferred-IsGood 8 _ (downcasts crate ascii_origin rest)
        (new-IsGood code text transport_class unknown_advice 5 refl (ground arith))
        (downcasts-IsGood rest)
  downcasts-IsGood (typed (reqwest_error code text false) rest) =
      preferred-IsGood 9 _ (downcasts crate ascii_origin rest)
        (new-IsGood code text transport_class unknown_advice 5 refl (ground arith))
        (downcasts-IsGood rest)
  downcasts-IsGood (typed (authentication_error text) rest) =
      preferred-IsGood 10 _ (downcasts crate ascii_origin rest)
        (new-IsGood (codes "AUTH_FAILED") text auth_class never 3 refl (ground arith))
        (downcasts-IsGood rest)
  downcasts-IsGood (typed (broker_error code message) rest) =
      preferred-IsGood 11 _ (downcasts crate ascii_origin rest)
        (new-IsGood code message command_class unknown_advice 1 refl (ground arith))
        (downcasts-IsGood rest)
  downcasts-IsGood (typed (cli_error (config code message)) rest) =
      preferred-IsGood 12 _ (downcasts crate ascii_origin rest)
        (new-IsGood code message config_class never 2 refl (ground arith)) (downcasts-IsGood rest)
  downcasts-IsGood (typed (cli_error (auth code message status)) rest) =
      preferred-IsGood 12 _ (downcasts crate ascii_origin rest)
        ((new-IsSafe code message auth_class never, refl, ground arith)) (downcasts-IsGood rest)
  downcasts-IsGood (typed (cli_error (api code message status detail instance_url)) rest) =
      preferred-IsGood 12 _ (downcasts crate ascii_origin rest)
        (api_body-IsGood code message status detail instance_url) (downcasts-IsGood rest)
  downcasts-IsGood (typed (cli_error (io kind)) rest) =
      preferred-IsGood 12 _ (downcasts crate ascii_origin rest)
        (new-IsGood (codes "IO_ERROR") (codes "I/O operation failed (" ++ kind ++ codes ")")
          io_class unknown_advice 6 refl (ground arith))
        (downcasts-IsGood rest)
  downcasts-IsGood (typed (cli_error (other (anyhow text sources))) rest) =
      preferred-IsGood 12 _ (downcasts crate ascii_origin rest)
        (unwrap_or-IsGood (output_of (downcasts crate ascii_origin sources)) text
          (downcasts-IsGood sources))
        (downcasts-IsGood rest)
  downcasts-IsGood (typed toml_error rest) =
      preferred-IsGood 13 _ (downcasts crate ascii_origin rest)
        (new-IsGood (codes "CONFIG_INVALID")
          (codes "Configuration file is invalid; check TOML syntax and required fields.")
          config_class never 2 refl (ground arith))
        (downcasts-IsGood rest)
  downcasts-IsGood (typed json_error rest) =
      preferred-IsGood 14 _ (downcasts crate ascii_origin rest)
        (new-IsGood (codes "INVALID_JSON")
          (codes "Invalid JSON; check input syntax and expected structure.") validation_class never
          2 refl (ground arith))
        (downcasts-IsGood rest)
  downcasts-IsGood (typed (io_error kind) rest) =
      preferred-IsGood 15 _ (downcasts crate ascii_origin rest)
        (new-IsGood (codes "IO_ERROR") (codes "I/O operation failed (" ++ kind ++ codes ")")
          io_class unknown_advice 6 refl (ground arith))
        (downcasts-IsGood rest)

  error_output_and_exit_code-IsGood :
      (error : AnyhowError) → IsGood (error_output_and_exit_code crate ascii_origin error)
  unfolding error_output_and_exit_code known_error_output_and_exit_code
  error_output_and_exit_code-IsGood (anyhow text sources) =
      unwrap_or-IsGood (output_of (downcasts crate ascii_origin sources)) text
        (downcasts-IsGood sources)

  -- Whatever the error, what is written has a code of 1 to 64 capitals, digits and underscores, at most
  -- 100 issues, and no message, detail, or text of an issue of more than 515 characters.
  pub error_output_and_exit_code-IsSafe :
      (error : AnyhowError) → IsSafe (error_output_and_exit_code crate ascii_origin error).0
  error_output_and_exit_code-IsSafe error = (error_output_and_exit_code-IsGood error).0

  -- The exit code is the one of the class that is written: 2 for validation and configuration, 3 for
  -- authentication, 5 for transport, 6 for input and output, 7 for policy, 1 for commands and internal
  -- errors; for the API it is 4 if the status written is 404, and 5 if it is not.
  pub error_output_and_exit_code-IsExitOf :
      (error : AnyhowError)
      → (let output = error_output_and_exit_code crate ascii_origin error in
          IsExitOf output.0.class output.0.status output.1)
  error_output_and_exit_code-IsExitOf error = (error_output_and_exit_code-IsGood error).1

  -- Retrying safe reads is advised only for errors of the transport, and for errors of the API with
  -- status 408, 429, 500, 502, 503 or 504; an error of a command, which may have changed records, never
  -- carries the advice `never`.
  pub error_output_and_exit_code-IsAdvised :
      (error : AnyhowError) → IsAdvised (error_output_and_exit_code crate ascii_origin error).0
  error_output_and_exit_code-IsAdvised error = (error_output_and_exit_code-IsGood error).2
