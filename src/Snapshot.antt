-- ===== src/Snapshot.antt =====
-- internal/snapshot/snapshot.go: the schema of a snapshot. A pointer to a value is an `Option`.
pub mod Validate
pub mod Document
pub mod Json
pub mod Encode
use joy_pi_health.Prelude.{ℕ, ◌*◌, Bool, true, false, ◌||◌, Option, List, map}
use joy_pi_health.Text.{Text, bytes, text_eq}

abbrev pub schema_version : Text
schema_version = bytes "1.0"

abbrev pub maximum_size : ℕ
maximum_size = 64 * 1024

abbrev pub maximum_interfaces : ℕ
maximum_interfaces = 64

abbrev pub issue_unsupported : Text
issue_unsupported = bytes "unsupported"

abbrev pub issue_permission_denied : Text
issue_permission_denied = bytes "permission_denied"

abbrev pub issue_temporarily_unavailable : Text
issue_temporarily_unavailable = bytes "temporarily_unavailable"

pub record Issue : Type 0 where
  pub path : Text
  pub code : Text
  pub message : Text

pub record Host : Type 0 where
  pub hostname : Text

pub record Cpu (F : Type 0) : Type 0 where
  pub utilization_percent : Option F
  pub logical_cpu_count : Option ℕ

pub record Load (F : Type 0) : Type 0 where
  pub one_minute : Option F
  pub five_minutes : Option F
  pub fifteen_minutes : Option F

-- `Memory` and `RootFilesystem` have the same fields.
pub record Memory : Type 0 where
  pub total_bytes : Option ℕ
  pub available_bytes : Option ℕ
  pub used_bytes : Option ℕ

pub record NetworkInterface : Type 0 where
  pub name : Text
  pub state : Option Text
  pub rx_bytes : Option ℕ
  pub tx_bytes : Option ℕ

pub record RaspberryPi (F : Type 0) : Type 0 where
  pub soc_temperature_celsius : Option F
  pub thermal_throttling_active : Option Bool
  pub thermal_throttling_occurred_since_boot : Option Bool
  pub undervoltage_active : Option Bool
  pub undervoltage_occurred_since_boot : Option Bool

pub record Snapshot (F T : Type 0) : Type 0 where
  pub observed_at : T
  pub host : Host
  pub cpu : Cpu F
  pub load : Load F
  pub memory : Memory
  pub root_filesystem : Memory
  pub uptime_seconds : Option ℕ
  pub network : Option (List NetworkInterface)
  pub raspberry_pi : RaspberryPi F
  pub issues : List Issue

-- `validIssueCode`, and the `switch` on an issue's code.
unfoldable pub valid_issue_code : Text → Bool
valid_issue_code c =
    text_eq c issue_unsupported
    || text_eq c issue_permission_denied
    || text_eq c issue_temporarily_unavailable

abbrev pub path_uptime : Text
path_uptime = bytes "/uptime_seconds"

abbrev pub path_cpu_count : Text
path_cpu_count = bytes "/cpu/logical_cpu_count"

abbrev pub path_load : Text
path_load = bytes "/load"

abbrev pub path_memory : Text
path_memory = bytes "/memory"

abbrev pub path_root : Text
path_root = bytes "/root_filesystem"

abbrev pub path_temperature : Text
path_temperature = bytes "/raspberry_pi/soc_temperature_celsius"

abbrev pub path_throttling : Text
path_throttling = bytes "/raspberry_pi/thermal_throttling_active"

abbrev pub path_throttled : Text
path_throttled = bytes "/raspberry_pi/thermal_throttling_occurred_since_boot"

abbrev pub path_undervoltage : Text
path_undervoltage = bytes "/raspberry_pi/undervoltage_active"

abbrev pub path_undervolted : Text
path_undervolted = bytes "/raspberry_pi/undervoltage_occurred_since_boot"

abbrev pub path_network : Text
path_network = bytes "/network"

abbrev pub path_utilization : Text
path_utilization = bytes "/cpu/utilization_percent"
