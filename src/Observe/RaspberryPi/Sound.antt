-- ===== src/Observe/RaspberryPi/Sound.antt =====
-- What the collectors of internal/observe/raspberrypi.go observe passes the coordinator's check.
use joy_pi_health.Prelude.{
  ℕ, ◌≤◌, ◌≡◌, refl, subst, Bool, true, false, ◌&&◌, ◌||◌, none, some, List, [], ◌∷◌, arith,
  Bool-cases, Option-cases, inl, inr,
}
use joy_pi_health.Result.{Result, ok, err, Result-cases}
use joy_pi_health.Text.{Text, bytes, text_eq, is_empty}
use joy_pi_health.Text.Fields.{trim_space}
use joy_pi_health.Errors.{Error, plain}
use joy_pi_health.Numbers.{Float64}
use joy_pi_health.Observe.Outcome.{
  Outcome, present, unavailable, acquisition_failure, validate_outcome, reason_unsupported,
  reason_temporarily_unavailable,
}
use joy_pi_health.Observe.Observations.{FirmwareHealth, is_present, validate_raspberry_pi}
use joy_pi_health.Observe.Coordinator.Cycle.{float_zero}
use joy_pi_health.Observe.RaspberryPi.Temperature.{
  raspberry_pi_thermal_zone_type, Zone, parse_int, find_zone, degrees, measure, parse_temperature,
  collect_soc_temperature, collect_raspberry_pi,
}

-- What the division of a whole number of millidegrees keeps, in IEEE arithmetic: it rounds monotonically,
-- and the value at -273150 is the constant -273.15.
pub record RoundsDown (F : Type 0) ⦃f : Float64 F⦄ : Type 0 where
  pub above : (n : ℕ) → f.less (degrees false n) f.absolute_zero ≡ false
  pub below : (n : ℕ) → n ≤ 273150 → f.less (degrees true n) f.absolute_zero ≡ false

module _ (F : Type 0) ⦃f : Float64 F⦄ where
  abbrev IsSane : Outcome F → Type 0
  IsSane o =
      (validate_outcome o ≡ none)
      × ((is_present o && (f.is_nan o.value || f.is_inf o.value || f.less o.value f.absolute_zero))
          ≡ false)

  temporary-IsSane : (e : Error) → IsSane (unavailable reason_temporarily_unavailable (some e))
  unfolding validate_outcome unavailable
  temporary-IsSane e = (refl, refl)

  unsupported-IsSane : (e : Error) → IsSane (unavailable reason_unsupported (some e))
  unfolding validate_outcome unavailable
  unsupported-IsSane e = (refl, refl)

  failure-IsSane :
      (e : Error) → IsSane (acquisition_failure (some e) reason_temporarily_unavailable)
  unfolding acquisition_failure validate_outcome unavailable
  failure-IsSane e = (ground arith, ground arith)

  missing-IsSane : (e : Error) → IsSane (acquisition_failure (some e) reason_unsupported)
  unfolding acquisition_failure validate_outcome unavailable
  missing-IsSane e = (ground arith, ground arith)

  abbrev IsSaneError : Result (Outcome F) Text → Type 0
  IsSaneError (err o) = IsSane o
  IsSaneError (ok t) = Unit

  find_zone-IsSaneError : (found : Text) (zones : List Zone) → IsSaneError (find_zone found zones)
  unfolding find_zone
  find_zone-IsSaneError found [] = tt
  find_zone-IsSaneError found (z ∷ zones) = elim (Option-cases z.context) [
    | inr (e, over) ↦ rw (find_zone, over) (failure-IsSane e)
    | inl live ↦ elim (Result-cases z.kind) [
      | inl (e, bad) ↦ rw (find_zone, live, bad) (failure-IsSane e)
      | inr (kind, good) ↦
          elim (Bool-cases (text_eq (trim_space kind) raspberry_pi_thermal_zone_type)) [
            | inr other ↦ rw (find_zone, live, good, other) (find_zone-IsSaneError found zones)
            | inl same ↦ elim (Bool-cases (is_empty found)) [
              | inl first ↦
                  rw (find_zone, live, good, same, first) (find_zone-IsSaneError z.name zones)
              | inr second ↦
                  rw (find_zone, live, good, same, second)
                    (temporary-IsSane (plain (bytes "multiple cpu-thermal zones are present")))
            ]
          ]
    ]
  ]

  measure-IsSane : RoundsDown F → (negative : Bool) (n : ℕ) → IsSane (measure negative n)
  unfolding measure validate_outcome unavailable present
  measure-IsSane r true n = (ground arith, ground (arith, r.below n))
  measure-IsSane r false n = (ground arith, ground (arith, r.above n))

  parse_temperature-IsSane :
      RoundsDown F → (answer : Result Error Text) → IsSane (parse_temperature answer)
  unfolding parse_temperature
  parse_temperature-IsSane r (err e) = failure-IsSane e
  parse_temperature-IsSane r (ok t) = elim (Option-cases (parse_int (trim_space t))) [
    | inl bad ↦
        rw (parse_temperature, bad) (temporary-IsSane (plain (bytes "parse SoC temperature")))
    | inr ((negative, n), good) ↦ rw (parse_temperature, good) (measure-IsSane r negative n)
  ]

  collect_soc_temperature-IsSane :
      RoundsDown F
      → (zones : Result Error (List Zone)) (temperature : Text → Result Error Text)
      → IsSane (collect_soc_temperature zones temperature)
  unfolding collect_soc_temperature
  collect_soc_temperature-IsSane r (err e) temperature = missing-IsSane e
  collect_soc_temperature-IsSane r (ok zones) temperature =
      elim (Result-cases (find_zone {F = F} [] zones)) [
        | inl (o, bad) ↦
            let sane = subst IsSaneError bad (find_zone-IsSaneError [] zones) in
            rw (collect_soc_temperature, bad) sane
        | inr (found, good) ↦ elim (Bool-cases (is_empty found)) [
          | inl absent ↦
              rw (collect_soc_temperature, good, absent)
                (unsupported-IsSane (plain (bytes "cpu-thermal zone is absent")))
          | inr there ↦
              rw (collect_soc_temperature, good, there)
                (parse_temperature-IsSane r (temperature found))
        ]
      ]

  -- Whatever the thermal source and the context answer, malformed and extreme temperatures included, the
  -- observation of the Raspberry Pi passes the coordinator's check, if the outcome of the firmware
  -- does and the floats round as in IEEE arithmetic.
  pub collect_raspberry_pi_accepted :
      RoundsDown F
      → (zones : Result Error (List Zone)) (temperature : Text → Result Error Text)
        (firmware : Outcome FirmwareHealth)
      → validate_outcome firmware ≡ none
      → validate_raspberry_pi {F = F} (collect_raspberry_pi zones temperature firmware) ≡ none
  unfolding validate_raspberry_pi collect_raspberry_pi
  collect_raspberry_pi_accepted r zones temperature firmware h =
      let (v, w) = collect_soc_temperature-IsSane r zones temperature in rw (v, w, h) refl
