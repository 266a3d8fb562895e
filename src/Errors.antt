-- ===== src/Errors.antt =====
-- Go errors: the sentinels that the code tells apart by `errors.Is`, and the ways to wrap one.
use joy_pi_health.Prelude.{Bool, true, false, ◌||◌, Option, none, some}
use joy_pi_health.Result.{Result, ok, err}
use joy_pi_health.Text.{Text}

pub data Sentinel : Type 0 where
  permission not_exist deadline_exceeded canceled : Sentinel
  no_useful_snapshot too_many_links malformed_firmware_response : Sentinel

-- `plain` is an error with a text alone, `wrapped` one that `%w` makes, `internal_defect` the
-- coordinator's `*internalDefectError`, and `panicked` the value of a panic on its way up.
pub data Error : Type 0 where
  plain : Text → Error
  sentinel : Sentinel → Error
  wrapped : Text → Error → Error
  joined : Error → Error → Error
  internal_defect : Error → Error
  panicked : Text → Error

unfoldable pub same_sentinel : Sentinel → Sentinel → Bool
same_sentinel permission permission = true
same_sentinel not_exist not_exist = true
same_sentinel deadline_exceeded deadline_exceeded = true
same_sentinel canceled canceled = true
same_sentinel no_useful_snapshot no_useful_snapshot = true
same_sentinel too_many_links too_many_links = true
same_sentinel malformed_firmware_response malformed_firmware_response = true
same_sentinel _ _ = false

-- `errors.Is(e, s)`.
unfoldable pub is : Error → Sentinel → Bool
unfolding same_sentinel
is (plain t) s = false
is (sentinel r) s = same_sentinel r s
is (wrapped t e) s = is e s
is (joined e f) s = is e s || is f s
is (internal_defect e) s = is e s
is (panicked t) s = false

-- `isInternalDefect`, by `errors.As`.
unfoldable pub is_internal_defect : Error → Bool
is_internal_defect (plain t) = false
is_internal_defect (sentinel r) = false
is_internal_defect (wrapped t e) = is_internal_defect e
is_internal_defect (joined e f) = is_internal_defect e || is_internal_defect f
is_internal_defect (internal_defect e) = true
is_internal_defect (panicked t) = false

-- A test that returns an error, and one that returns `nil` as an error.
abbrev pub ensure : Bool → Error → Result Error (Unit {0})
ensure true e = ok tt
ensure false e = err e

abbrev pub check : Option Error → Result Error (Unit {0})
check none = ok tt
check (some e) = err e
