-- ===== src/Numbers.antt =====
-- What the code uses of `float64` and of `time.Time`, as parameters of the model: a type with its
-- operations. No law of rounding is assumed.
use joy_pi_health.Prelude.{ℕ, Bool, Option}
use joy_pi_health.Text.{Text}

pub record Float64 (F : Type 0) : Type 0 where
  -- `math.IsNaN(x)` and `math.IsInf(x, 0)`
  pub is_nan : F → Bool
  pub is_inf : F → Bool
  -- `x < y`
  pub less : F → F → Bool
  -- 0, 100, `math.Inf(1)` and -273.15
  pub zero_float : F
  pub hundred : F
  pub infinity : F
  pub absolute_zero : F
  -- `float64(n)` of an unsigned integer, `-x`, `x * y`, `x / y`
  pub of_uint : ℕ → F
  pub negate : F → F
  pub times : F → F → F
  pub over : F → F → F
  -- `strconv.ParseFloat(t, 64)`, `none` for an error
  pub parse_float : Text → Option F
  -- the text of a finite number in `json.Marshal`
  pub format_float : F → Text

pub record Calendar (T : Type 0) : Type 0 where
  -- the zero `time.Time`, and `t.IsZero()`
  pub zero_time : T
  pub is_zero_time : T → Bool
  -- `t.UTC().Format(time.RFC3339Nano)`
  pub format_time : T → Text
  -- whether `time.Parse(time.RFC3339Nano, t)` succeeds
  pub parses_time : Text → Bool
