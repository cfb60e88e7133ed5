-- ===== src/ErrorReport/Bodies.antt =====
-- Lemmas on the parts of an `ErrorBody` (error.rs), and the predicates its properties are stated with.
use snow_cli.Base.{
  arith, bytes, subst, sym, if◌then◌else◌, length, length-take, take, map, codes, List, Option,
  Text, ℕ, All, Bool-cases, inl, inr, ◌⊎◌, ◌≢◌, ◌≤◌, ◌≡◌, [], ◌∷◌, ◌++◌, none, some, true, refl,
}
use snow_cli.ApiError.Scrub.{scrub_secrets}
use snow_cli.ApiError.{bound_chars}
use snow_cli.ApiError.Laws.{length-bound_chars}
use snow_cli.Policy.{
  as_str, PolicyMode, full_access, read_only, CommandCapability, remote_read, remote_write,
  raw_api_read, raw_api_write, credential_export, local_config_read, local_config_write,
  local_credential_read, local_credential_write, local_file_write, unknown,
}
use snow_cli.ErrorReport.{
  has_marker, truncate_diagnostic, withheld, ErrorBody, ErrorClass, RetryAdvice, ValidationIssue,
  validation_class, config_class, auth_class, policy_class, api_class, transport_class, io_class,
  command_class, internal_class, never, safe_reads_only, manual_review, safe_message, safe_option,
  valid_code, checked_code, new, api_retry, safe_issue, with_issues, with_cause, switch_body,
  debug_mode,
}

abbrev pub IsShort : Text → Type 0
IsShort text = length text ≤ 515

abbrev pub IsShortOption : Option Text → Type 0
IsShortOption none = Unit {0}
IsShortOption (some text) = IsShort text

-- The code is one of the service's form, and all text is bounded.
abbrev pub IsSafe : ErrorBody → Type 0
IsSafe body =
    (valid_code body.code ≡ true)
    × IsShort body.message
    × IsShortOption body.detail
    × (length body.issues ≤ 100)
    × All (λ issue. IsShort issue.issue_message × IsShortOption issue.field) body.issues

-- The exit codes of a class.
abbrev pub IsExitOf : ErrorClass → Option ℕ → ℕ → Type 0
IsExitOf validation_class status n = n ≡ 2
IsExitOf config_class status n = n ≡ 2
IsExitOf auth_class status n = n ≡ 3
IsExitOf policy_class status n = n ≡ 7
IsExitOf api_class status n = ((n ≡ 4) × (status ≡ some 404)) ⊎ ((n ≡ 5) × (status ≢ some 404))
IsExitOf transport_class status n = n ≡ 5
IsExitOf io_class status n = n ≡ 6
IsExitOf command_class status n = n ≡ 1
IsExitOf internal_class status n = n ≡ 1

-- When a repetition of a read is advised, and what may have changed records.
abbrev pub IsAdvised : ErrorBody → Type 0
IsAdvised body =
    (body.retry ≡ safe_reads_only
      → (body.class ≡ transport_class)
        ⊎ ((body.class ≡ api_class)
            × ((body.status ≡ some 408)
                ⊎ (body.status ≡ some 429)
                ⊎ (body.status ≡ some 500)
                ⊎ (body.status ≡ some 502)
                ⊎ (body.status ≡ some 503)
                ⊎ (body.status ≡ some 504))))
    × (body.class ≡ command_class → body.retry ≢ never)

abbrev pub IsGood : ErrorBody × ℕ → Type 0
IsGood output =
    IsSafe output.0 × IsExitOf output.0.class output.0.status output.1 × IsAdvised output.0

abbrev pub IsGoodOption : Option (ErrorBody × ℕ) → Type 0
IsGoodOption none = Unit {0}
IsGoodOption (some output) = IsGood output

length-truncate_diagnostic : (clean : Text) → length (truncate_diagnostic clean) ≤ 515
unfolding truncate_diagnostic bound_chars
length-truncate_diagnostic clean = length-bound_chars clean 500

length-safe_message : (message : Text) → length (safe_message message) ≤ 515
unfolding safe_message
length-safe_message message = elim (Bool-cases (has_marker message)) [
  | inl marked ↦
      subst
        (λ b. length (if b then withheld else truncate_diagnostic (scrub_secrets message)) ≤ 515)
        (sym marked) (ground arith)
  | inr clean ↦
      subst
        (λ b. length (if b then withheld else truncate_diagnostic (scrub_secrets message)) ≤ 515)
        (sym clean) (length-truncate_diagnostic (scrub_secrets message))
]

pub safe_option-IsShort : (detail : Option Text) → IsShortOption (safe_option detail)
safe_option-IsShort none = tt
safe_option-IsShort (some text) = length-safe_message text

unknown_code_lem : valid_code (codes "UNKNOWN_ERROR") ≡ true
unfolding valid_code bytes
unknown_code_lem = refl

checked_code_lem : (code : Text) → valid_code (checked_code code) ≡ true
checked_code_lem code = elim (Bool-cases (valid_code code)) [
  | inl valid ↦
      subst (λ b. valid_code (if b then code else codes "UNKNOWN_ERROR") ≡ true) (sym valid) valid
  | inr invalid ↦
      subst (λ b. valid_code (if b then code else codes "UNKNOWN_ERROR") ≡ true) (sym invalid)
        unknown_code_lem
]

pub new-IsSafe :
    (code message : Text) (class : ErrorClass) (retry : RetryAdvice)
    → IsSafe (new code message class retry)
new-IsSafe code message class retry =
    (checked_code_lem code, length-safe_message message, tt, ground arith, tt)

issues_lem :
    (issues : List ValidationIssue)
    → (length (map safe_issue issues) ≡ length issues)
      × All
          (λ issue. IsShort issue.issue_message × IsShortOption issue.field)
          (map safe_issue issues)
issues_lem [] = (refl, tt)
issues_lem (issue ∷ issues) =
    let rest = issues_lem issues in
    (
      ground (arith, rest.0),
      ((length-safe_message issue.issue_message, safe_option-IsShort issue.field), rest.1),
    )

with_issues-IsSafe :
    (issues : List ValidationIssue) (body : ErrorBody)
    → IsSafe body
    → IsSafe (with_issues issues body)
with_issues-IsSafe [] body h = h
with_issues-IsSafe (issue ∷ issues) body h =
    let shown = issues_lem (take 100 (issue ∷ issues)) in
    (h.0, h.1, h.2, ground (arith, shown.0, length-take 100 (issue ∷ issues)), shown.1)

pub with_issues-IsGood :
    (issues : List ValidationIssue) (text : Text)
    → IsGood (with_issues issues (new (codes "VALIDATION_ERROR") text validation_class never), 2)
with_issues-IsGood [] text =
    (new-IsSafe (codes "VALIDATION_ERROR") text validation_class never, refl, ground arith)
with_issues-IsGood (issue ∷ issues) text = (
  with_issues-IsSafe (issue ∷ issues) (new (codes "VALIDATION_ERROR") text validation_class never)
      (new-IsSafe (codes "VALIDATION_ERROR") text validation_class never),
  refl,
  ground arith,
)

pub with_cause-IsGood :
    (cause : Option (ErrorBody × ℕ)) (text : Text) → IsGood (with_cause cause (switch_body text), 1)
with_cause-IsGood none text = (
  new-IsSafe (codes "SESSION_SWITCH_UNCERTAIN") text command_class manual_review,
  refl,
  ground arith,
)
with_cause-IsGood (some cause) text =
    let safe = new-IsSafe (codes "SESSION_SWITCH_UNCERTAIN") text command_class manual_review in
    (
      (
        safe.0,
        safe.1,
        length-safe_message (codes "Cause: " ++ cause.0.code ++ codes ": " ++ cause.0.message),
        safe.3,
        safe.4,
      ),
      refl,
      ground arith,
    )

length-as_str : (capability : CommandCapability) → length (codes (as_str capability)) ≤ 30
unfolding as_str
length-as_str remote_read = ground arith
length-as_str remote_write = ground arith
length-as_str raw_api_read = ground arith
length-as_str raw_api_write = ground arith
length-as_str credential_export = ground arith
length-as_str local_config_read = ground arith
length-as_str local_config_write = ground arith
length-as_str local_credential_read = ground arith
length-as_str local_credential_write = ground arith
length-as_str local_file_write = ground arith
length-as_str unknown = ground arith

pub policy_detail-IsShort :
    (mode : PolicyMode) (capability : CommandCapability)
    → IsShort
        (codes "mode=" ++ debug_mode mode ++ codes "; capability=" ++ codes (as_str capability))
policy_detail-IsShort full_access capability = ground (arith, length-as_str capability)
policy_detail-IsShort read_only capability = ground (arith, length-as_str capability)

pub api_retry-IsAdvised :
    (status : ℕ)
    → api_retry status ≡ safe_reads_only
    → (status ≡ 408)
      ⊎ (status ≡ 429)
      ⊎ (status ≡ 500)
      ⊎ (status ≡ 502)
      ⊎ (status ≡ 503)
      ⊎ (status ≡ 504)
unfolding api_retry
api_retry-IsAdvised status h = ground arith
