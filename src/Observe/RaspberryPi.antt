-- ===== src/Observe/RaspberryPi.antt =====
-- The firmware mask of internal/observe/raspberrypi.go; Temperature has the rest of the file.
pub mod Temperature
pub mod Sound
use joy_pi_health.Prelude.{ℕ, ◌+◌, ◌*◌, ◌/◌, ◌%◌, ◌<◌, ◌≡◌, refl, Bool, arith, ◌==◌, if◌then◌else◌}
use joy_pi_health.Observe.Observations.{FirmwareHealth}
use joy_pi_health.Observe.Coordinator.Cycle.{float_zero}

-- Whether `mask & bit` is not 0, for a `bit` that is a power of two.
unfoldable has_bit : ℕ → ℕ → Bool
has_bit bit mask = mask / bit % 2 == 1

unfoldable pub firmware_health_from_mask : ℕ → FirmwareHealth
unfolding has_bit
firmware_health_from_mask mask = record {
  undervoltage_active = has_bit 0x1 mask;
  thermal_throttling_active = has_bit 0x4 mask;
  undervoltage_occurred_since_boot = has_bit 0x10000 mask;
  thermal_throttling_occurred_since_boot = has_bit 0x40000 mask;
}

abbrev bit_of : Bool → ℕ
bit_of b = if b then 1 else 0

-- A mask with the bits of the four flags, and any other bits between and above them.
abbrev pub mask_of : FirmwareHealth → ℕ → ℕ → ℕ → ℕ → ℕ
mask_of h r s t u =
    bit_of h.undervoltage_active
    + 2 * r
    + 4 * bit_of h.thermal_throttling_active
    + 8 * s
    + 0x10000 * bit_of h.undervoltage_occurred_since_boot
    + 0x20000 * t
    + 0x40000 * bit_of h.thermal_throttling_occurred_since_boot
    + 0x80000 * u

below_two : (b : Bool) → bit_of b < 2
below_two b = ground arith

-- A bit with the number below it and the number above it.
read_bit : (b : Bool) (n high : ℕ) → n ≡ bit_of b + 2 * high → (n % 2 == 1) ≡ b
read_bit b n high e = ground (arith, e)

-- The four flags of a firmware mask are read back, whatever its other bits are.
pub firmware_health_from_mask-mask_of :
    (h : FirmwareHealth) (r s t u : ℕ)
    → r < 2
    → s < 0x2000
    → t < 2
    → firmware_health_from_mask (mask_of h r s t u) ≡ h
unfolding firmware_health_from_mask has_bit
firmware_health_from_mask-mask_of h r s t u p q w =
    let a = bit_of h.undervoltage_active in
    let b = bit_of h.thermal_throttling_active in
    let c = bit_of h.undervoltage_occurred_since_boot in
    let d = bit_of h.thermal_throttling_occurred_since_boot in
    let i = below_two h.undervoltage_active in
    let j = below_two h.thermal_throttling_active in
    let k = below_two h.undervoltage_occurred_since_boot in
    let l = below_two h.thermal_throttling_occurred_since_boot in
    let first =
      read_bit h.undervoltage_active (mask_of h r s t u / 1)
        (r + 2 * b + 4 * s + 0x8000 * c + 0x10000 * t + 0x20000 * d + 0x40000 * u) (omega arith) in
    let second =
      read_bit h.thermal_throttling_active (mask_of h r s t u / 4)
        (s + 0x2000 * c + 0x4000 * t + 0x8000 * d + 0x10000 * u) (omega arith) in
    let third =
      read_bit h.undervoltage_occurred_since_boot (mask_of h r s t u / 0x10000) (t + 2 * d + 4 * u)
        (omega arith) in
    let fourth =
      read_bit h.thermal_throttling_occurred_since_boot (mask_of h r s t u / 0x40000) u
        (omega arith) in
    rw (first, second, third, fourth) refl
