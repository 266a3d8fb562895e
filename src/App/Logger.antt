-- ===== src/App/Logger.antt =====
-- internal/app/logger.go. `stamp` is the time in the layout RFC3339Nano; a logger is given by its minimum.
pub mod Lines
use joy_pi_health.Prelude.{
  ℕ, Bool, true, false, Option, none, some, List, [], ◌∷◌, ◌++◌, ltb, ◌==◌, if◌then◌else◌,
}
use joy_pi_health.Text.{Text, bytes, split}
use joy_pi_health.Text.Fields.{trim_space}
use joy_pi_health.Config.CommandLine.{LogLevel, debug, info, warn, error}
use joy_pi_health.Observe.Degradation.{
  DegradationRecord, DegradationSeverity, degradation_info, degradation_warn,
}

abbrev pub log_info : ℕ
log_info = 1

abbrev pub log_warn : ℕ
log_warn = 2

abbrev pub log_error : ℕ
log_error = 3

-- `newLineLogger`.
abbrev pub minimum_severity : LogLevel → ℕ
minimum_severity debug = log_info
minimum_severity info = log_info
minimum_severity warn = log_warn
minimum_severity error = log_error

abbrev label : ℕ → Text
label severity =
    if severity == log_warn
    then bytes "WARN"
    else if severity == log_error
    then bytes "ERROR"
    else bytes "INFO"

-- `strings.ReplaceAll` of one byte by a space.
unfoldable pub replace_byte : ℕ → Text → Text
replace_byte c [] = []
replace_byte c (b ∷ t) = (if b == c then 0x20 else b) ∷ replace_byte c t

unfoldable pub one_line : Text → Text
unfolding replace_byte
one_line message = replace_byte 0xd (replace_byte 0xa (trim_space message))

abbrev pub log_line : ℕ → Text → Text → Text
log_line severity stamp message = stamp ++ (0x20 ∷ (label severity ++ (0x20 ∷ one_line message)))

-- `writeAt` on a logger with an output: what it writes.
unfoldable pub write_at : ℕ → ℕ → Text → Text → Option Text
unfolding one_line
write_at minimum severity stamp message =
    if ltb severity minimum then none else some (log_line severity stamp message ++ 0xa ∷ [])

abbrev degradation_severity : DegradationSeverity → ℕ
degradation_severity degradation_info = log_info
degradation_severity degradation_warn = log_warn

abbrev degradation_message : DegradationRecord → Text
degradation_message r =
    (if r.cleared
      then bytes "metric degradation cleared metric="
      else bytes "metric unavailable metric=")
    ++ r.metric
    ++ bytes " reason="
    ++ r.reason

unfoldable pub log_degradation : ℕ → Text → DegradationRecord → Option Text
unfolding write_at
log_degradation minimum stamp r =
    write_at minimum (degradation_severity r.severity) stamp (degradation_message r)

abbrev put_line : Option Text → List Text → List Text
put_line none lines = lines
put_line (some line) lines = line ∷ lines

abbrev write_each : ℕ → Text → List Text → List Text
write_each minimum stamp [] = []
write_each minimum stamp ([] ∷ lines) = write_each minimum stamp lines
write_each minimum stamp ((b ∷ t) ∷ lines) =
    put_line (write_at minimum log_error stamp (b ∷ t)) (write_each minimum stamp lines)

-- `lineLogWriter.Write`: every line of the data that is not empty, as an error.
unfoldable pub write_data : ℕ → Text → Text → List Text
unfolding write_at
write_data minimum stamp data_text = write_each minimum stamp (split 0xa (trim_space data_text))
