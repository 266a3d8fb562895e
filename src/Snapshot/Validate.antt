-- ===== src/Snapshot/Validate.antt =====
-- The checks of one value each: `validateFinite`, `validateFloat`, `validateAllOrNone`,
-- `validateMemory`, `validateIssues`, `validateFirmwareIssues`. `none` is the error `nil`.
use joy_pi_health.Prelude.{
  ℕ, suc, ◌-◌, Bool, not, ◌&&◌, ◌||◌, Option, none, some, List, [], ◌∷◌, ◌++◌, ltb, ◌==◌,
  if◌then◌else◌, is_some, length,
}
use joy_pi_health.Text.{Text, bytes, text_eq, is_empty}
use joy_pi_health.Text.Utf8.{valid_utf8}
use joy_pi_health.Errors.{Error, plain}
use joy_pi_health.Numbers.{Float64}
use joy_pi_health.Snapshot.{
  Issue, Memory, valid_issue_code, path_throttling, path_throttled, path_undervoltage,
  path_undervolted,
}

-- The first error that is not `nil`.
infixr 30 ◌or_else◌
abbrev pub ◌or_else◌ : Option Error → Option Error → Option Error
none or_else e = e
(some d) or_else e = some d

module _ {F : Type 0} ⦃f : Float64 F⦄ where
  unfoldable pub validate_finite : Option F → Text → Option Error
  validate_finite none name = none
  validate_finite (some x) name =
      if f.is_nan x || f.is_inf x then some (plain (name ++ bytes " must be finite")) else none

  unfoldable pub validate_float : Option F → F → F → Text → Option Error
  unfolding validate_finite
  validate_float none minimum maximum name = validate_finite none name
  validate_float (some x) minimum maximum name =
      validate_finite (some x) name
      or_else (if f.less x minimum || f.less maximum x
          then some (plain (name ++ bytes " is outside its valid range"))
          else none)

unfoldable pub count_true : List Bool → ℕ
count_true [] = 0
count_true (b ∷ bs) = if b then suc (count_true bs) else count_true bs

unfoldable pub validate_all_or_none : Text → List Bool → Option Error
unfolding count_true
validate_all_or_none name present =
    let count = count_true present in
    if not (count == 0) && not (count == length present)
    then some (plain (name ++ bytes " must be entirely present or unavailable"))
    else none

unfoldable pub consistent : Text → Option ℕ → Option ℕ → Option ℕ → Option Error
consistent name (some total) (some available) (some used) =
    if ltb total available || not (used == total - available)
    then some (plain (name ++ bytes " byte values are inconsistent"))
    else none
consistent name _ _ _ = none

unfoldable pub validate_memory : Text → Memory → Option Error
unfolding consistent
validate_memory name m =
    validate_all_or_none name
      (is_some m.total_bytes ∷ is_some m.available_bytes ∷ is_some m.used_bytes ∷ [])
    or_else consistent name m.total_bytes m.available_bytes m.used_bytes

-- The texts of the errors about one issue leave out its index, path and code.
unfoldable pub validate_issue : Issue → Text → Option Error
validate_issue issue expected =
    if not (text_eq issue.path expected)
    then some (plain (bytes "issue path"))
    else if not (valid_issue_code issue.code)
    then some (plain (bytes "issue has invalid code"))
    else if is_empty issue.message || not (valid_utf8 issue.message)
    then some (plain (bytes "issue message must be non-empty UTF-8"))
    else none

unfoldable pub validate_each : List Issue → List Text → Option Error
validate_each [] expected = none
validate_each (issue ∷ issues) [] = none
validate_each (issue ∷ issues) (e ∷ expected) =
    validate_issue issue e or_else validate_each issues expected

unfoldable pub validate_issues : List Issue → List Text → Option Error
unfolding validate_each validate_issue
validate_issues issues expected =
    if not (length issues == length expected)
    then some (plain (bytes "issues count"))
    else validate_each issues expected

unfoldable pub is_firmware_path : Text → Bool
is_firmware_path p =
    text_eq p path_throttling
    || text_eq p path_throttled
    || text_eq p path_undervoltage
    || text_eq p path_undervolted

-- The loop over the issues, with the first one that belongs to the firmware.
unfoldable pub coherent_from : Option Issue → List Issue → Option Error
coherent_from first [] = none
coherent_from none (issue ∷ issues) =
    coherent_from (if is_firmware_path issue.path then some issue else none) issues
coherent_from (some first) (issue ∷ issues) =
    (if is_firmware_path issue.path
        && not (text_eq issue.code first.code && text_eq issue.message first.message)
      then some (plain (bytes "coherent firmware issues must share a code and message"))
      else none)
    or_else coherent_from (some first) issues

unfoldable pub validate_firmware_issues : Option Bool → List Issue → Option Error
unfolding coherent_from is_firmware_path
validate_firmware_issues (some active) issues = none
validate_firmware_issues none issues = coherent_from none issues
