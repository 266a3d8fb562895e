-- ===== src/Observe/Outcome.antt =====
-- internal/observe/outcome.go. An outcome is the Go struct with all its fields, so that malformed
-- ones exist; states and reasons are the numbers of the two enumerations, 0 for the zero value.
use joy_pi_health.Prelude.{
  ℕ, ◌≤◌, ◌≡◌, ◌⊎◌, ◌↔◌, Bool, true, not, ◌||◌, Option, none, some, [], arith, ltb, ◌==◌,
  if◌then◌else◌, is_some,
}
use joy_pi_health.Text.{Text, bytes}
use joy_pi_health.Errors.{Error, plain, wrapped, is, permission, not_exist}

-- The zero value of a type.
pub record Zero (A : Type 0) : Type 0 where
  pub zero_value : A

instance abbrev pub nat_zero : Zero ℕ
nat_zero = record { zero_value = 0 }

instance abbrev pub text_zero : Zero Text
text_zero = record { zero_value = [] }

abbrev pub reason_unsupported : ℕ
reason_unsupported = 1

abbrev pub reason_permission_denied : ℕ
reason_permission_denied = 2

abbrev pub reason_temporarily_unavailable : ℕ
reason_temporarily_unavailable = 3

abbrev pub state_present : ℕ
state_present = 1

abbrev pub state_unavailable : ℕ
state_unavailable = 2

abbrev pub state_defect : ℕ
state_defect = 3

pub record Outcome (A : Type 0) : Type 0 where
  pub state : ℕ
  pub value : A
  pub reason : ℕ
  pub cause : Option Error

unfoldable pub present : {A : Type 0} → A → Outcome A
present v = record { state = state_present; value = v; reason = 0; cause = none }

abbrev cause_or : Option Error → Text → Option Error
cause_or none t = some (plain t)
cause_or (some e) t = some e

abbrev reason_ok : ℕ → Bool
reason_ok r = not (ltb r reason_unsupported || ltb reason_temporarily_unavailable r)

module _ {A : Type 0} ⦃z : Zero A⦄ where
  unfoldable pub defect : Option Error → Outcome A
  defect cause = record {
    state = state_defect;
    value = z.zero_value;
    reason = 0;
    cause = cause_or cause (bytes "unspecified internal defect");
  }

  unfoldable pub unavailable : ℕ → Option Error → Outcome A
  unfolding defect
  unavailable reason cause =
      if not (reason_ok reason) || not (is_some cause)
      then defect (some (plain (bytes "invalid unavailable outcome")))
      else record {
        state = state_unavailable;
        value = z.zero_value;
        reason = reason;
        cause = cause;
      }

  unfoldable pub acquisition_failure : Option Error → ℕ → Outcome A
  unfolding unavailable
  acquisition_failure none missing =
      defect (some (plain (bytes "acquisition failure has no cause")))
  acquisition_failure (some e) missing =
      if is e permission
      then unavailable reason_permission_denied (some e)
      else if is e not_exist
      then unavailable missing (some e)
      else unavailable reason_temporarily_unavailable (some e)

-- `none` is the error `nil`.
unfoldable pub validate_outcome : {A : Type 0} → Outcome A → Option Error
validate_outcome v =
    if v.state == state_present
    then (if not (v.reason == 0) || is_some v.cause
        then some (plain (bytes "present outcome carries failure metadata"))
        else none)
    else if v.state == state_unavailable
    then (if not (reason_ok v.reason) || not (is_some v.cause)
        then some (plain (bytes "unavailable outcome is incomplete"))
        else none)
    else if v.state == state_defect
    then elim v.cause [
      | none ↦ some (plain (bytes "defect outcome has no cause"))
      | some e ↦ some (wrapped (bytes "collector defect: ") e)
    ]
    else some (plain (bytes "collector returned an unknown outcome state"))

-- The two kinds of outcome that pass: a value, or one of the three reasons with a cause.
abbrev pub HasValue : {A : Type 0} → Outcome A → Type 0
HasValue v = (v.state ≡ state_present) × (v.reason ≡ 0) × (v.cause ≡ none)

abbrev pub HasReason : {A : Type 0} → Outcome A → Type 0
HasReason v =
    (v.state ≡ state_unavailable) × (1 ≤ v.reason) × (v.reason ≤ 3) × (is_some v.cause ≡ true)

abbrev pub IsSound : {A : Type 0} → Outcome A → Type 0
IsSound v = HasValue v ⊎ HasReason v

-- `validateOutcome` accepts exactly the sound outcomes.
pub validate_outcome_iff : {A : Type 0} (v : Outcome A) → (validate_outcome v ≡ none) ↔ IsSound v
unfolding validate_outcome
validate_outcome_iff v = (λ h. ground arith, λ h. ground arith)

module _ (A : Type 0) ⦃z : Zero A⦄ where
  -- Every failed acquisition is reported as unavailable, under the reason of its error.
  pub acquisition_failure_sound :
      (e : Error) (missing : ℕ)
      → 1 ≤ missing
      → missing ≤ 3
      → HasReason (acquisition_failure {A = A} (some e) missing)
        × ((acquisition_failure {A = A} (some e) missing).reason ≡ (
            if is e permission
            then reason_permission_denied
            else if is e not_exist
            then missing
            else reason_temporarily_unavailable))
  unfolding acquisition_failure
  acquisition_failure_sound e missing lo hi = ground arith
