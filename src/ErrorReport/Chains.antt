-- ===== src/ErrorReport/Chains.antt =====
-- What a chain of typed errors is reported as (error.rs), once auth/mod.rs has classified it.
use snow_cli.Base.{
  if-elim, subst, if◌then◌else◌, ◌||◌, ltb, leb, arith, codes, Bool, ℕ, Option, Text, true, false,
  none, some, ◌≡◌, refl, unwrap_or,
}
use snow_cli.Origin.{UrlCrate}
use snow_cli.ErrorReport.{
  Sources, Source, Downcast, ErrorBody, anyhow, typed, untyped, preferred, output_of, internal,
  downcasts, new, auth_class, never, classify_auth_failure, has_authentication, auth_failed,
  error_output_and_exit_code, known_error_output_and_exit_code, validation_error, config_error,
  import_set_row_error, script_execution_error, policy_error, session_switch, api_error,
  graphql_error, transport_error, reqwest_error, authentication_error, broker_error, cli_error,
  toml_error, json_error, io_error, request_failed, verification_failed, mismatch,
  incomplete_context, config, auth, api, io, other,
}

-- The errors that are reported before an `AuthenticationError` of the same chain.
abbrev pub is_earlier : Source → Bool
is_earlier (authentication_error text) = false
is_earlier (broker_error code message) = false
is_earlier (cli_error error) = false
is_earlier toml_error = false
is_earlier json_error = false
is_earlier (io_error kind) = false
is_earlier _ = true

abbrev pub has_earlier : Sources → Bool
has_earlier untyped = false
has_earlier (typed source rest) = is_earlier source || has_earlier rest

-- Whether a downcast that is tried before the one to `AuthenticationError` has succeeded.
abbrev precedes : Option Downcast → Bool
precedes none = false
precedes (some found) = ltb found.place 10

precedes-earlier :
    (place : ℕ) (output : ErrorBody × ℕ) (found : Option Downcast)
    → ltb place 10 ≡ true
    → precedes (preferred place output found) ≡ true
precedes-earlier place output none h = h
precedes-earlier place output (some late) h =
    if-elim (λ d. precedes d ≡ true) (leb place late.place) _ _ (λ _. h) (λ less. ground arith)

precedes-later :
    (place : ℕ) (output : ErrorBody × ℕ) (found : Option Downcast) (b : Bool)
    → ltb place 10 ≡ false
    → precedes found ≡ b
    → precedes (preferred place output found) ≡ b
precedes-later place output none b h k = ground arith
precedes-later place output (some late) b h k =
    if-elim (λ d. precedes d ≡ b) (leb place late.place) _ _ (λ less. ground arith) (λ _. k)

module _ {U : Type 0} (crate : UrlCrate U) (ascii_origin : U → Text) where
  precedes-downcasts :
      (sources : Sources) → precedes (downcasts crate ascii_origin sources) ≡ has_earlier sources
  unfolding downcasts
  precedes-downcasts untyped = refl
  precedes-downcasts (typed (validation_error text issues) rest) =
      precedes-earlier 0 _ (downcasts crate ascii_origin rest) refl
  precedes-downcasts (typed (config_error code text) rest) =
      precedes-earlier 1 _ (downcasts crate ascii_origin rest) refl
  precedes-downcasts (typed (import_set_row_error text) rest) =
      precedes-earlier 2 _ (downcasts crate ascii_origin rest) refl
  precedes-downcasts (typed (script_execution_error text) rest) =
      precedes-earlier 3 _ (downcasts crate ascii_origin rest) refl
  precedes-downcasts (typed (policy_error text mode capability) rest) =
      precedes-earlier 4 _ (downcasts crate ascii_origin rest) refl
  precedes-downcasts (typed (session_switch text (request_failed (anyhow _ sources))) rest) =
      precedes-earlier 5 _ (downcasts crate ascii_origin rest) refl
  precedes-downcasts (typed (session_switch text (verification_failed (anyhow _ sources))) rest) =
      precedes-earlier 5 _ (downcasts crate ascii_origin rest) refl
  precedes-downcasts (typed (session_switch text mismatch) rest) =
      precedes-earlier 5 _ (downcasts crate ascii_origin rest) refl
  precedes-downcasts (typed (session_switch text incomplete_context) rest) =
      precedes-earlier 5 _ (downcasts crate ascii_origin rest) refl
  precedes-downcasts (typed (api_error code message status detail instance_url) rest) =
      precedes-earlier 6 _ (downcasts crate ascii_origin rest) refl
  precedes-downcasts (typed (graphql_error code message detail) rest) =
      precedes-earlier 7 _ (downcasts crate ascii_origin rest) refl
  precedes-downcasts (typed (transport_error code text transient) rest) =
      precedes-earlier 8 _ (downcasts crate ascii_origin rest) refl
  precedes-downcasts (typed (reqwest_error code text transient) rest) =
      precedes-earlier 9 _ (downcasts crate ascii_origin rest) refl
  precedes-downcasts (typed (authentication_error text) rest) =
      precedes-later 10 _ (downcasts crate ascii_origin rest) _ refl (precedes-downcasts rest)
  precedes-downcasts (typed (broker_error code message) rest) =
      precedes-later 11 _ (downcasts crate ascii_origin rest) _ refl (precedes-downcasts rest)
  precedes-downcasts (typed (cli_error (config code message)) rest) =
      precedes-later 12 _ (downcasts crate ascii_origin rest) _ refl (precedes-downcasts rest)
  precedes-downcasts (typed (cli_error (auth code message status)) rest) =
      precedes-later 12 _ (downcasts crate ascii_origin rest) _ refl (precedes-downcasts rest)
  precedes-downcasts (typed (cli_error (api code message status detail instance_url)) rest) =
      precedes-later 12 _ (downcasts crate ascii_origin rest) _ refl (precedes-downcasts rest)
  precedes-downcasts (typed (cli_error (io kind)) rest) =
      precedes-later 12 _ (downcasts crate ascii_origin rest) _ refl (precedes-downcasts rest)
  precedes-downcasts (typed (cli_error (other (anyhow text sources))) rest) =
      precedes-later 12 _ (downcasts crate ascii_origin rest) _ refl (precedes-downcasts rest)
  precedes-downcasts (typed toml_error rest) =
      precedes-later 13 _ (downcasts crate ascii_origin rest) _ refl (precedes-downcasts rest)
  precedes-downcasts (typed json_error rest) =
      precedes-later 14 _ (downcasts crate ascii_origin rest) _ refl (precedes-downcasts rest)
  precedes-downcasts (typed (io_error kind) rest) =
      precedes-later 15 _ (downcasts crate ascii_origin rest) _ refl (precedes-downcasts rest)

  -- What is written about a failure to authenticate.
  abbrev pub auth_output : ErrorBody × ℕ
  auth_output = (new (codes "AUTH_FAILED") auth_failed auth_class never, 3)

  preferred-auth :
      (text : Text) (found : Option Downcast)
      → unwrap_or (output_of (preferred 10 auth_output found)) (internal auth_failed)
        ≡ (if precedes found then unwrap_or (output_of found) (internal text) else auth_output)
  preferred-auth text none = refl
  preferred-auth text (some late) =
      if-elim
        (λ d.
          unwrap_or (output_of d) (internal auth_failed)
          ≡ (if ltb late.place 10 then late.output else auth_output))
        (leb 10 late.place) _ _ (λ h. ground arith) (λ h. ground arith)

  -- A failure that is classified as one to authenticate is reported as it was if its chain has an
  -- `AuthenticationError` already, or an error of validation, of configuration, of an import set, of a
  -- script, of the policy, of a session switch, of the API, of GraphQL or of the transport. Every other
  -- one, also one of the broker, of the command line or of input and output, is reported as AUTH_FAILED
  -- with the exit code 3.
  pub error_output_and_exit_code-classify_auth_failure :
      (text : Text) (sources : Sources)
      → error_output_and_exit_code crate ascii_origin (classify_auth_failure (anyhow text sources))
        ≡ (if has_authentication sources || has_earlier sources
            then error_output_and_exit_code crate ascii_origin (anyhow text sources)
            else auth_output)
  unfolding error_output_and_exit_code known_error_output_and_exit_code classify_auth_failure
      downcasts
  error_output_and_exit_code-classify_auth_failure text sources =
      by_authentication (has_authentication sources)
    where
      by_authentication :
          (b : Bool)
          → error_output_and_exit_code crate ascii_origin (
              if b
              then anyhow text sources
              else anyhow auth_failed (typed (authentication_error auth_failed) sources))
            ≡ (if b || has_earlier sources
                then error_output_and_exit_code crate ascii_origin (anyhow text sources)
                else auth_output)
      by_authentication true = refl
      by_authentication false =
          subst
            (λ p.
              unwrap_or
                (output_of (preferred 10 auth_output (downcasts crate ascii_origin sources)))
                (internal auth_failed)
              ≡ (if p
                  then unwrap_or (output_of (downcasts crate ascii_origin sources)) (internal text)
                  else auth_output))
            (precedes-downcasts sources)
            (preferred-auth text (downcasts crate ascii_origin sources))
