-- ===== src/Observe/Observations.antt =====
-- The observations of one cycle, and the coordinator's checks on each of them: `validateHost`,
-- `validateCPULoad`, `validateMemoryOutcome`, `validateFilesystemOutcome`, `validateNetwork`,
-- `validateRaspberryPi`. `none` is the error `nil`.
use joy_pi_health.Prelude.{
  ℕ, ◌-◌, Bool, false, not, ◌&&◌, ◌||◌, Option, none, some, List, [], ◌∷◌, ltb, ◌==◌, if◌then◌else◌,
  length,
}
use joy_pi_health.Text.{Text, bytes, text_eq, text_lt, is_empty}
use joy_pi_health.Text.Utf8.{valid_utf8}
use joy_pi_health.Errors.{Error, plain, wrapped}
use joy_pi_health.Numbers.{Float64}
use joy_pi_health.Snapshot.{maximum_interfaces}
use joy_pi_health.Snapshot.Validate.{◌or_else◌}
use joy_pi_health.Observe.Outcome.{Outcome, state_present, validate_outcome}

pub record HostObservation : Type 0 where
  pub hostname : Outcome Text
  pub uptime : Outcome ℕ

pub record LoadObservation (F : Type 0) : Type 0 where
  pub one_minute : F
  pub five_minutes : F
  pub fifteen_minutes : F

pub record CpuLoadObservation (F : Type 0) : Type 0 where
  pub logical_cpu_count : Outcome ℕ
  pub topology_signature : Text
  pub load : Outcome (LoadObservation F)

-- `memoryObservation`, and `filesystemObservation` with the same fields.
pub record MemoryObservation : Type 0 where
  pub total_bytes : ℕ
  pub available_bytes : ℕ
  pub used_bytes : ℕ

pub record FirmwareHealth : Type 0 where
  pub thermal_throttling_active : Bool
  pub thermal_throttling_occurred_since_boot : Bool
  pub undervoltage_active : Bool
  pub undervoltage_occurred_since_boot : Bool

pub record RaspberryPiObservation (F : Type 0) : Type 0 where
  pub temperature : Outcome F
  pub firmware : Outcome FirmwareHealth

pub record InterfaceObservation : Type 0 where
  pub name : Text
  pub state : Outcome Text
  pub rx_bytes : Outcome ℕ
  pub tx_bytes : Outcome ℕ

pub record NetworkObservation : Type 0 where
  pub interfaces : List InterfaceObservation

pub record CycleObservations (F : Type 0) : Type 0 where
  pub host : HostObservation
  pub cpu_load : CpuLoadObservation F
  pub memory : Outcome MemoryObservation
  pub root : Outcome MemoryObservation
  pub raspberry_pi : RaspberryPiObservation F
  pub network : Outcome NetworkObservation
  pub cpu_utilization : Outcome F

abbrev pub is_present : {A : Type 0} → Outcome A → Bool
is_present v = v.state == state_present

-- `fmt.Errorf("…: %w", err)` around a check.
abbrev pub within : Text → Option Error → Option Error
within t none = none
within t (some e) = some (wrapped t e)

abbrev pub fails : Bool → Text → Option Error
fails b t = if b then some (plain t) else none

unfoldable pub validate_host : HostObservation → Option Error
validate_host v =
    within (bytes "hostname outcome: ") (validate_outcome v.hostname)
    or_else fails
        (is_present v.hostname && (is_empty v.hostname.value || not (valid_utf8 v.hostname.value)))
        (bytes "present hostname is invalid")
    or_else within (bytes "uptime outcome: ") (validate_outcome v.uptime)

unfoldable pub validate_memory_outcome : Text → Outcome MemoryObservation → Option Error
validate_memory_outcome t v =
    validate_outcome v
    or_else fails
        (is_present v
          && (ltb v.value.total_bytes v.value.available_bytes
              || not (v.value.used_bytes == v.value.total_bytes - v.value.available_bytes)))
        t

abbrev memory_text : Text
memory_text = bytes "present memory observation is inconsistent"

abbrev filesystem_text : Text
filesystem_text = bytes "present filesystem observation is inconsistent"

unfoldable pub validate_interface : Option Text → InterfaceObservation → Option Error
validate_interface previous v =
    fails
      (is_empty v.name
        || not (valid_utf8 v.name)
        || elim previous [ none ↦ false | some p ↦ not (text_lt p v.name) ])
      (bytes "present network interfaces are not uniquely ordered by valid name")
    or_else within (bytes "interface state outcome: ") (validate_outcome v.state)
    or_else within (bytes "interface receive outcome: ") (validate_outcome v.rx_bytes)
    or_else within (bytes "interface transmit outcome: ") (validate_outcome v.tx_bytes)
    or_else fails
        (is_present v.state
          && not (
              text_eq v.state.value (bytes "up")
              || text_eq v.state.value (bytes "down")
              || text_eq v.state.value (bytes "unknown")))
        (bytes "interface has an invalid present state")

unfoldable pub validate_interfaces : Option Text → List InterfaceObservation → Option Error
validate_interfaces previous [] = none
validate_interfaces previous (v ∷ vs) =
    validate_interface previous v or_else validate_interfaces (some v.name) vs

unfoldable pub validate_network : Outcome NetworkObservation → Option Error
unfolding validate_interfaces
validate_network v =
    validate_outcome v
    or_else (if is_present v
        then fails (ltb maximum_interfaces (length v.value.interfaces))
            (bytes "present network observation exceeds the interface limit")
          or_else validate_interfaces none v.value.interfaces
        else none)

module _ {F : Type 0} ⦃f : Float64 F⦄ where
  abbrev pub bad_load : F → Bool
  bad_load x = f.is_nan x || f.is_inf x || f.less x f.zero_float

  unfoldable pub validate_cpu_load : CpuLoadObservation F → Option Error
  validate_cpu_load v =
      within (bytes "logical CPU count outcome: ") (validate_outcome v.logical_cpu_count)
      or_else fails (is_present v.logical_cpu_count && (v.logical_cpu_count.value == 0))
          (bytes "present logical CPU count is zero")
      or_else fails (is_present v.logical_cpu_count && is_empty v.topology_signature)
          (bytes "present logical CPU topology has no signature")
      or_else fails (not (is_present v.logical_cpu_count) && not (is_empty v.topology_signature))
          (bytes "unavailable logical CPU topology has a signature")
      or_else within (bytes "load outcome: ") (validate_outcome v.load)
      or_else fails
          (is_present v.load
            && (bad_load v.load.value.one_minute
                || bad_load v.load.value.five_minutes
                || bad_load v.load.value.fifteen_minutes))
          (bytes "present load observation is invalid")

  unfoldable pub validate_raspberry_pi : RaspberryPiObservation F → Option Error
  validate_raspberry_pi v =
      within (bytes "SoC temperature outcome: ") (validate_outcome v.temperature)
      or_else fails
          (is_present v.temperature
            && (f.is_nan v.temperature.value
                || f.is_inf v.temperature.value
                || f.less v.temperature.value f.absolute_zero))
          (bytes "present SoC temperature is invalid")
      or_else within (bytes "firmware outcome: ") (validate_outcome v.firmware)
