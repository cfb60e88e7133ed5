-- ===== src/Policy/Laws.antt =====
-- What the policy (policy.rs) and the surface of snow-cli-ro (cli/readonly_args.rs) promise.
use snow_cli.Base.{
  any, text_eq_iff, codes, trim, to_ascii_lowercase, All, List, arith, Text, [], ◌⊎◌, refl, ◌∷◌,
  ◌↔◌, ◌≢◌, false, err, ok, ◌≡◌,
}
use snow_cli.Policy.Commands
use snow_cli.Policy.{
  is_method_override, PolicyMode, remote_write, PolicyError, method_get,
  ensure_raw_api_headers_allowed, store_mode, full_access, load_mode, ensure_request_allowed, allow,
  read_only_command_decision, ensure_command_allowed, read_only, ExecutionPolicy,
  decision_for_command,
}
use snow_cli.Policy.ReadOnlyCli.{ReadOnlyCommands, into_full_command}
use snow_cli.Policy.Surface.{narrow_lem, IsFullOnly, IsExport, reader}
use snow_cli.Policy.Permitted.{permitted}
use snow_cli.Policy.Exports.{unless_export, allowed-not-IsExport}

module _ {F : Type 0} where
  allowed_iff :
      (command : Commands.Commands F)
      → (ensure_command_allowed reader command ≡ ok tt)
        ↔ (read_only_command_decision command ≡ allow)
  unfolding ensure_command_allowed decision_for_command
  allowed_iff command = ground arith

  -- A command of snow-cli-ro passes the read-only policy exactly if it is neither of the two commands
  -- that write a stored password to the now-sdk store.
  pub into_full_command-allowed_iff :
      (command : ReadOnlyCommands F)
      → (ensure_command_allowed reader (into_full_command command) ≡ ok tt)
        ↔ (¬ IsExport (into_full_command command))
  into_full_command-allowed_iff command =
      let full = allowed_iff (into_full_command command) in
      (
        λ h e. allowed-not-IsExport (into_full_command command) e (full.0 h),
        λ h. full.1 (unless_export command h),
      )

  -- Every command that passes the read-only policy is what some command of snow-cli-ro maps to, or it is
  -- one of seed plan, skill install, snu slash, snu tab and snu broker.
  pub allowed-surface :
      (command : Commands.Commands F)
      → ensure_command_allowed reader command ≡ ok tt
      → ((reduced : ReadOnlyCommands F) × (into_full_command reduced ≡ command))
        ⊎ IsFullOnly command
  allowed-surface command h = permitted command ((allowed_iff command).0 h)

  -- Two commands of snow-cli-ro that map to the same full command are the same, with the same arguments.
  pub into_full_command-injective :
      (left right : ReadOnlyCommands F)
      → into_full_command left ≡ into_full_command right
      → left ≡ right
  into_full_command-injective left right h = grind (arith, narrow_lem left, narrow_lem right)

-- A request passes exactly if the policy is full access or the method is GET, and the error of one
-- that does not pass carries the read-only mode and the capability of a remote write.
pub ensure_request_allowed_lem :
    (policy : ExecutionPolicy) (method path : Text)
    → ((ensure_request_allowed policy method path ≡ ok tt)
        ↔ ((policy.mode ≡ full_access) ⊎ (method ≡ method_get)))
      × ((error : PolicyError)
          → ensure_request_allowed policy method path ≡ err error
          → (error.mode ≡ read_only) × (error.capability ≡ remote_write))
unfolding ensure_request_allowed
ensure_request_allowed_lem policy method path = ground (arith, text_eq_iff method method_get)

-- A header's name that does not override the request's method.
abbrev pub IsPlainHeader : Text × Text → Type 0
IsPlainHeader header =
    let name = to_ascii_lowercase (trim header.0) in
    (name ≢ codes "x-http-method-override")
    × (name ≢ codes "x-method-override")
    × (name ≢ codes "x-http-method")

no_override_iff :
    (headers : List (Text × Text))
    → (any (λ header. is_method_override header.0) headers ≡ false) ↔ All IsPlainHeader headers
unfolding is_method_override
no_override_iff [] = (λ h. tt, λ h. refl)
no_override_iff (header ∷ headers) =
    let name = to_ascii_lowercase (trim header.0) in
    ground (
      arith,
      text_eq_iff name (codes "x-http-method-override"),
      text_eq_iff name (codes "x-method-override"),
      text_eq_iff name (codes "x-http-method"),
      no_override_iff headers,
    )

-- The headers of a raw request pass exactly if the policy is full access, the method is not GET or no
-- header's name, trimmed and in lower case, is one of the three that override the method.
pub ensure_raw_api_headers_allowed_iff :
    (policy : ExecutionPolicy) (method : Text) (headers : List (Text × Text))
    → (ensure_raw_api_headers_allowed policy method headers ≡ ok tt)
      ↔ ((policy.mode ≡ full_access) ⊎ (method ≢ method_get) ⊎ All IsPlainHeader headers)
unfolding ensure_raw_api_headers_allowed
ensure_raw_api_headers_allowed_iff policy method headers =
    ground (arith, text_eq_iff method method_get, no_override_iff headers)

-- The policy that is read back from the stored byte is the one that was stored.
pub load_mode-store_mode : (policy : ExecutionPolicy) → load_mode (store_mode policy) ≡ policy
unfolding load_mode store_mode
load_mode-store_mode policy = by_mode policy.mode
  where
    by_mode :
        (mode : PolicyMode)
        → load_mode (store_mode (record { mode = mode })) ≡ record { mode = mode }
    by_mode full_access = refl
    by_mode read_only = refl
