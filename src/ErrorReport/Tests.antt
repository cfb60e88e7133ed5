-- ===== src/ErrorReport/Tests.antt =====
-- Runs of the classification of error.rs.
use snow_cli.Base.{if◌then◌else◌, ◌||◌, contains, codes, Text, none, refl, ◌++◌, ◌≡◌, []}
use snow_cli.ApiError.Scrub.{span, redact_value, fragment_at, scrub_key, scrub, scrub_secrets}
use snow_cli.Origin.Tests.{Parts, toy}
use snow_cli.ErrorReport.{
  has_authentication, AnyhowError, anyhow, typed, untyped, Sources, io_error, downcasts,
  classify_auth_failure, api_error, session_switch, request_failed, cli_error, other,
  error_output_and_exit_code, known_error_output_and_exit_code, safe_message, truncate_diagnostic,
  has_marker,
}
use snow_cli.ErrorReport.Chains.{
  has_earlier, auth_output, error_output_and_exit_code-classify_auth_failure,
}
use snow_cli.ErrorReport.Bodies.{IsSafe, IsExitOf, IsAdvised}
use snow_cli.ErrorReport.Laws.{
  error_output_and_exit_code-IsSafe, error_output_and_exit_code-IsExitOf,
  error_output_and_exit_code-IsAdvised,
}

abbrev origin : Parts → Text
origin url = url.0 ++ codes "://" ++ url.1

abbrev not_found : Sources
not_found =
    typed (api_error (codes "NOT_FOUND") (codes "token=abc") 404 none (codes "https://a.test/x"))
      untyped

abbrev missing : AnyhowError
missing = anyhow [] (typed (cli_error (other (anyhow (codes "context") not_found))) untyped)

abbrev switched : AnyhowError
switched = anyhow [] (typed (session_switch (codes "uncertain") (request_failed missing)) untyped)

-- A failure to authenticate is reported as the error of the API or of the transport below it, and as
-- an authentication failure over an I/O error.
classified_run :
    ((error_output_and_exit_code toy origin (classify_auth_failure (anyhow [] not_found))).1 ≡ 4)
    × ((error_output_and_exit_code toy origin
          (classify_auth_failure (anyhow [] (typed (io_error (codes "NotFound")) untyped)))).1
        ≡ 3)
unfolding error_output_and_exit_code known_error_output_and_exit_code downcasts
    classify_auth_failure
classified_run = (refl, refl)

missing_run : (error_output_and_exit_code toy origin missing).1 ≡ 4
unfolding error_output_and_exit_code known_error_output_and_exit_code downcasts
missing_run = refl

switched_run : (error_output_and_exit_code toy origin switched).1 ≡ 1
unfolding error_output_and_exit_code known_error_output_and_exit_code downcasts
switched_run = refl

safe_message_run :
    (safe_message (codes "bad token=abc") ≡ codes "bad token=<redacted>")
    × (safe_message (codes "at Query=x")
        ≡ codes "Diagnostic text withheld because it may contain a query or script")
unfolding safe_message has_marker truncate_diagnostic contains scrub_secrets scrub scrub_key
    fragment_at redact_value span
safe_message_run = (refl, refl)

error_output_and_exit_code-IsSafe_example :
    IsSafe (error_output_and_exit_code toy origin switched).0
error_output_and_exit_code-IsSafe_example = error_output_and_exit_code-IsSafe toy origin switched

error_output_and_exit_code-IsExitOf_example :
    (let output = error_output_and_exit_code toy origin missing in
      IsExitOf output.0.class output.0.status output.1)
error_output_and_exit_code-IsExitOf_example = error_output_and_exit_code-IsExitOf toy origin missing

error_output_and_exit_code-IsAdvised_example :
    IsAdvised (error_output_and_exit_code toy origin switched).0
error_output_and_exit_code-IsAdvised_example =
    error_output_and_exit_code-IsAdvised toy origin switched

error_output_and_exit_code-classify_auth_failure_example :
    error_output_and_exit_code toy origin (classify_auth_failure (anyhow [] not_found)) ≡ (
      if has_authentication not_found || has_earlier not_found
      then error_output_and_exit_code toy origin (anyhow [] not_found)
      else auth_output toy origin)
error_output_and_exit_code-classify_auth_failure_example =
    error_output_and_exit_code-classify_auth_failure toy origin [] not_found
