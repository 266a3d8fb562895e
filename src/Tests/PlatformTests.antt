-- ===== src/Tests/PlatformTests.antt =====
-- The firmware's messages, the two devices, and the thermal zones at concrete answers.
use joy_pi_health.Prelude.{
  ℕ, ◌<◌, ◌^◌, ◌≡◌, ◌↔◌, refl, ◌⊎◌, true, not, ◌&&◌, ◌||◌, none, List, [], ◌∷◌, arith,
}
use joy_pi_health.Result.{Result, ok, err}
use joy_pi_health.Text.{Text, bytes, text_eq, has_prefix, trim_prefix}
use joy_pi_health.Text.Fields.{trim_space}
use joy_pi_health.Text.Decimal.{parse_uint}
use joy_pi_health.Errors.{Error, sentinel, permission, not_exist, is}
use joy_pi_health.Observe.Outcome.{present, validate_outcome}
use joy_pi_health.Observe.Observations.{validate_raspberry_pi}
use joy_pi_health.Observe.Coordinator.Cycle.{float_zero}
use joy_pi_health.Observe.RaspberryPi.{firmware_health_from_mask}
use joy_pi_health.Observe.RaspberryPi.Temperature.{
  Zone, collect_soc_temperature, collect_raspberry_pi, degrees, find_zone, parse_int,
  parse_temperature, measure,
}
use joy_pi_health.Observe.RaspberryPi.Sound.{RoundsDown, collect_raspberry_pi_accepted}
use joy_pi_health.Platform.FirmwareProtocol.{parse_get_throttled_property_response, read_mask}
use joy_pi_health.Platform.FirmwareProtocol.Properties.{
  property_response, parse_property_response_iff,
}
use joy_pi_health.Platform.FirmwareDevices.{get_throttled, get_throttled_sound}
use joy_pi_health.Tests.CycleTests.{Sample, finite, samples}

parse_property_response_iff_example :
    (parse_get_throttled_property_response (property_response 0x50005) ≡ ok 0x50005)
    ↔ ((0x50005 < 2 ^ 32) × (property_response 0x50005 ≡ property_response 0x50005))
parse_property_response_iff_example =
    parse_property_response_iff (property_response 0x50005) 0x50005 (
      omega arith,
      (
        omega arith,
        (
          omega arith,
          (
            omega arith,
            (
              omega arith,
              (
                omega arith,
                (
                  omega arith,
                  (
                    omega arith,
                    (
                      omega arith,
                      (
                        omega arith,
                        (
                          omega arith,
                          (
                            omega arith,
                            (
                              omega arith,
                              (
                                omega arith,
                                (
                                  omega arith,
                                  (
                                    omega arith,
                                    (
                                      omega arith,
                                      (
                                        omega arith,
                                        (
                                          omega arith,
                                          (
                                            omega arith,
                                            (
                                              omega arith,
                                              (
                                                omega arith,
                                                (
                                                  omega arith,
                                                  (
                                                    omega arith,
                                                    (
                                                      omega arith,
                                                      (
                                                        omega arith,
                                                        (omega arith, (omega arith, tt)),
                                                      ),
                                                    ),
                                                  ),
                                                ),
                                              ),
                                            ),
                                          ),
                                        ),
                                      ),
                                    ),
                                  ),
                                ),
                              ),
                            ),
                          ),
                        ),
                      ),
                    ),
                  ),
                ),
              ),
            ),
          ),
        ),
      ),
    )

mask_read : read_mask (bytes "throttled=0x50000") ≡ ok 0x50000
unfolding read_mask has_prefix trim_prefix parse_uint
mask_read = refl

abbrev denied : Result Error ℕ
denied = err (sentinel permission)

abbrev five : Result Error ℕ
five = ok 5

get_throttled_sound_example :
    ((mask : ℕ)
      → (get_throttled denied five ≡ ok mask) ↔ (
          (denied ≡ ok mask)
          ⊎ ((e : Error) × (denied ≡ err e)
              × ((is e not_exist || is e permission) ≡ true)
              × (five ≡ ok mask))))
    × ((e d x : Error)
        → denied ≡ err e
        → five ≡ err d
        → (is e not_exist || is e permission) ≡ true
        → get_throttled denied five ≡ err x
        → (is x permission ≡ (is e permission || is d permission))
          × (is x not_exist ≡ (not (is e permission || is d permission) && is d not_exist)))
get_throttled_sound_example = get_throttled_sound denied five

abbrev zones : List Zone
zones =
    record { name = bytes "thermal_zone0"; context = none; kind = ok (bytes "gpu\n") }
    ∷ record { name = bytes "thermal_zone1"; context = none; kind = ok (bytes "cpu-thermal\n") }
    ∷ []

abbrev reading : Text → Result Error Text
reading zone = ok (bytes "48312\n")

temperature_read : collect_soc_temperature {F = Sample} (ok zones) reading ≡ present (finite 48312)
unfolding collect_soc_temperature find_zone parse_temperature parse_int measure degrees trim_space
    text_eq parse_uint present
temperature_read = refl

pub samples_round : RoundsDown Sample
unfolding degrees
samples_round = record { above = λ n. ground arith; below = λ n h. refl }

collect_raspberry_pi_accepted_example :
    validate_raspberry_pi {F = Sample}
      (collect_raspberry_pi (ok zones) reading (present (firmware_health_from_mask 5)))
    ≡ none
unfolding validate_outcome present
collect_raspberry_pi_accepted_example =
    collect_raspberry_pi_accepted Sample samples_round (ok zones) reading
      (present (firmware_health_from_mask 5)) refl
