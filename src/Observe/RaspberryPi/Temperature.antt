-- ===== src/Observe/RaspberryPi/Temperature.antt =====
-- The collectors of internal/observe/raspberrypi.go. A zone has the answers that are met at it.
use joy_pi_health.Prelude.{
  ℕ, ◌-◌, ◌^◌, Bool, true, false, not, ◌&&◌, ◌||◌, Option, none, some, List, [], ◌∷◌, ltb, ◌==◌,
  if◌then◌else◌,
}
use joy_pi_health.Result.{Result, ok, err}
use joy_pi_health.Text.{Text, bytes, text_eq, is_empty}
use joy_pi_health.Text.Fields.{trim_space}
use joy_pi_health.Text.Decimal.{parse_uint}
use joy_pi_health.Errors.{Error, plain}
use joy_pi_health.Numbers.{Float64}
use joy_pi_health.Observe.Outcome.{
  Outcome, present, unavailable, acquisition_failure, reason_unsupported,
  reason_temporarily_unavailable,
}
use joy_pi_health.Observe.Observations.{FirmwareHealth, RaspberryPiObservation}
use joy_pi_health.Observe.Coordinator.Cycle.{float_zero}

abbrev pub raspberry_pi_thermal_zone_type : Text
raspberry_pi_thermal_zone_type = bytes "cpu-thermal"

pub record Zone : Type 0 where
  pub name : Text
  pub context : Option Error
  pub kind : Result Error Text

abbrev signed : Bool → Option ℕ → Option (Bool × ℕ)
signed negative none = none
signed negative (some n) = some (negative, n)

-- `strconv.ParseInt(t, 10, 64)`: whether the number has a minus, and its magnitude.
unfoldable pub parse_int : Text → Option (Bool × ℕ)
parse_int [] = none
parse_int (b ∷ t) =
    if b == 0x2d
    then signed true (parse_uint 10 (2 ^ 63) t)
    else if b == 0x2b
    then signed false (parse_uint 10 (2 ^ 63 - 1) t)
    else signed false (parse_uint 10 (2 ^ 63 - 1) (b ∷ t))

module _ {F : Type 0} ⦃f : Float64 F⦄ where
  abbrev temporary : Error → Outcome F
  temporary e = unavailable reason_temporarily_unavailable (some e)

  -- The loop over the zones, from the match so far, which is empty for none.
  unfoldable pub find_zone : Text → List Zone → Result (Outcome F) Text
  find_zone found [] = ok found
  find_zone found (z ∷ zones) = elim z.context [
    | some e ↦ err (acquisition_failure (some e) reason_temporarily_unavailable)
    | none ↦ elim z.kind [
      | err e ↦ err (acquisition_failure (some e) reason_temporarily_unavailable)
      | ok kind ↦
          let skipped = find_zone found zones in
          let matched = find_zone z.name zones in
          if not (text_eq (trim_space kind) raspberry_pi_thermal_zone_type)
          then skipped
          else if not (is_empty found)
          then err (temporary (plain (bytes "multiple cpu-thermal zones are present")))
          else matched
    ]
  ]

  -- `float64(millidegrees) / 1000`.
  unfoldable pub degrees : Bool → ℕ → F
  degrees true n = f.over (f.negate (f.of_uint n)) (f.of_uint 1000)
  degrees false n = f.over (f.of_uint n) (f.of_uint 1000)

  unfoldable pub measure : Bool → ℕ → Outcome F
  unfolding degrees
  measure negative n =
      if negative && ltb 273150 n
      then temporary (plain (bytes "SoC temperature is below absolute zero"))
      else if f.is_nan (degrees negative n) || f.is_inf (degrees negative n)
      then temporary (plain (bytes "SoC temperature is not finite"))
      else present (degrees negative n)

  unfoldable pub parse_temperature : Result Error Text → Outcome F
  unfolding measure
  parse_temperature (err e) = acquisition_failure (some e) reason_temporarily_unavailable
  parse_temperature (ok data_text) = elim (parse_int (trim_space data_text)) [
    | none ↦ temporary (plain (bytes "parse SoC temperature"))
    | some (negative, n) ↦ measure negative n
  ]

  -- The source answers the names with what is met at each of them, and the temperature of a zone.
  unfoldable pub collect_soc_temperature :
      Result Error (List Zone) → (Text → Result Error Text) → Outcome F
  unfolding find_zone parse_temperature
  collect_soc_temperature (err e) temperature = acquisition_failure (some e) reason_unsupported
  collect_soc_temperature (ok zones) temperature = elim (find_zone [] zones) [
    | err outcome ↦ outcome
    | ok found ↦
        if is_empty found
        then unavailable reason_unsupported (some (plain (bytes "cpu-thermal zone is absent")))
        else parse_temperature (temperature found)
  ]

  unfoldable pub collect_raspberry_pi :
      Result Error (List Zone)
      → (Text → Result Error Text)
      → Outcome FirmwareHealth
      → RaspberryPiObservation F
  unfolding collect_soc_temperature
  collect_raspberry_pi zones temperature firmware = record {
    temperature = collect_soc_temperature zones temperature;
    firmware = firmware;
  }
