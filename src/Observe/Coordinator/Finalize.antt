-- ===== src/Observe/Coordinator/Finalize.antt =====
-- The snapshot of a cycle's observations: the setters of `finalize`, in the order of their calls. A
-- setter fails where `appendUnavailableIssue` panics.
pub mod Total
pub mod Draft
pub mod Agreement
pub mod Accepted
pub mod Checked
pub mod Encodes
use joy_pi_health.Prelude.{
  ℕ, zero, suc, ◌≡◌, Bool, true, false, not, Option, none, some, List, [], ◌∷◌, ◌++◌, map, ◌==◌,
  if◌then◌else◌,
}
use joy_pi_health.Result.{Result, ok, err, ◌>>=◌}
use joy_pi_health.Text.{Text, bytes}
use joy_pi_health.Errors.{Error, panicked}
use joy_pi_health.Snapshot.{
  Snapshot, Issue, NetworkInterface, Memory, Load, issue_unsupported, issue_permission_denied,
  issue_temporarily_unavailable, path_uptime, path_cpu_count, path_load, path_memory, path_root,
  path_temperature, path_throttling, path_throttled, path_undervoltage, path_undervolted,
  path_network, path_utilization,
}
use joy_pi_health.Snapshot.Document.{interface_prefix}
use joy_pi_health.Observe.Outcome.{
  Outcome, reason_unsupported, reason_permission_denied, reason_temporarily_unavailable,
}
use joy_pi_health.Observe.Observations.{
  CycleObservations, LoadObservation, MemoryObservation, FirmwareHealth, InterfaceObservation,
  NetworkObservation, is_present,
}

-- The code and the text of an issue, by the reason.
unfoldable pub issue_of_reason : Text → ℕ → Option Issue
issue_of_reason path reason =
    if reason == reason_unsupported
    then some (record {
      path = path;
      code = issue_unsupported;
      message = bytes "The metric is unsupported on this platform.";
    })
    else if reason == reason_permission_denied
    then some (record {
      path = path;
      code = issue_permission_denied;
      message = bytes "The metric is not accessible to the service account.";
    })
    else if reason == reason_temporarily_unavailable
    then some (record {
      path = path;
      code = issue_temporarily_unavailable;
      message = bytes "The metric is temporarily unavailable.";
    })
    else none

unfoldable pub append_unavailable_issue : List Issue → Text → ℕ → Result Error (List Issue)
unfolding issue_of_reason
append_unavailable_issue issues path reason = elim (issue_of_reason path reason) [
  | none ↦ err (panicked (bytes "invalid availability reason"))
  | some issue ↦ ok (issues ++ issue ∷ [])
]

-- `setValue` on a target that is still nil.
unfoldable pub set_value :
    {A : Type 0} → Outcome A → Text → List Issue → Result Error (Option A × List Issue)
set_value result path issues =
    if is_present result
    then ok (some result.value, issues)
    else (append_unavailable_issue issues path result.reason >>= λ is. ok (none, is))

-- `setMemory` and `setRootFilesystem`.
unfoldable pub set_memory :
    Outcome MemoryObservation → Text → List Issue → Result Error (Memory × List Issue)
set_memory result path issues =
    if is_present result
    then ok (
      record {
        total_bytes = some result.value.total_bytes;
        available_bytes = some result.value.available_bytes;
        used_bytes = some result.value.used_bytes;
      },
      issues,
    )
    else (append_unavailable_issue issues path result.reason >>= λ is.
        ok (record { total_bytes = none; available_bytes = none; used_bytes = none }, is))

unfoldable pub set_load :
    {F : Type 0} → Outcome (LoadObservation F) → List Issue → Result Error (Load F × List Issue)
set_load result issues =
    if is_present result
    then ok (
      record {
        one_minute = some result.value.one_minute;
        five_minutes = some result.value.five_minutes;
        fifteen_minutes = some result.value.fifteen_minutes;
      },
      issues,
    )
    else (append_unavailable_issue issues path_load result.reason >>= λ is.
        ok (record { one_minute = none; five_minutes = none; fifteen_minutes = none }, is))

-- The firmware's four values: all of them, or none and an issue for each.
unfoldable pub firmware_issues : List Issue → ℕ → Result Error (List Issue)
firmware_issues issues reason = do
  issues1 ← append_unavailable_issue issues path_throttling reason
  issues2 ← append_unavailable_issue issues1 path_throttled reason
  issues3 ← append_unavailable_issue issues2 path_undervoltage reason
  append_unavailable_issue issues3 path_undervolted reason

unfoldable pub set_firmware :
    Outcome FirmwareHealth → List Issue → Result Error (Option FirmwareHealth × List Issue)
unfolding firmware_issues
set_firmware result issues =
    if is_present result
    then ok (some result.value, issues)
    else (firmware_issues issues result.reason >>= λ is. ok (none, is))

abbrev pub flag : (FirmwareHealth → Bool) → Option FirmwareHealth → Option Bool
flag f none = none
flag f (some h) = some (f h)

unfoldable pub set_interface :
    ℕ → InterfaceObservation → List Issue → Result Error (NetworkInterface × List Issue)
set_interface index observed issues = do
  (state, issues1) ← set_value observed.state (interface_prefix index ++ bytes "state") issues
  (rx, issues2) ← set_value observed.rx_bytes (interface_prefix index ++ bytes "rx_bytes") issues1
  (tx, issues3) ← set_value observed.tx_bytes (interface_prefix index ++ bytes "tx_bytes") issues2
  ok (record { name = observed.name; state = state; rx_bytes = rx; tx_bytes = tx }, issues3)

unfoldable pub set_interfaces :
    ℕ → List InterfaceObservation → List Issue → Result Error (List NetworkInterface × List Issue)
set_interfaces index [] issues = ok ([], issues)
set_interfaces index (observed ∷ rest) issues =
    set_interface index observed issues >>= λ (n, issues1).
    set_interfaces (suc index) rest issues1 >>= λ (ns, issues2). ok (n ∷ ns, issues2)

unfoldable pub set_network :
    Outcome NetworkObservation
    → List Issue
    → Result Error (Option (List NetworkInterface) × List Issue)
unfolding set_interfaces
set_network result issues =
    if is_present result
    then (set_interfaces 0 result.value.interfaces issues >>= λ (ns, is). ok (some ns, is))
    else (append_unavailable_issue issues path_network result.reason >>= λ is. ok (none, is))

-- The document up to `ObservedAt`, which is given.
module _ {F T : Type 0} where
  unfoldable pub draft : T → CycleObservations F → Result Error (Snapshot F T)
  draft at o = do
    (uptime, i1) ← set_value o.host.uptime path_uptime []
    (count, i2) ← set_value o.cpu_load.logical_cpu_count path_cpu_count i1
    (load, i3) ← set_load o.cpu_load.load i2
    (memory, i4) ← set_memory o.memory path_memory i3
    (root, i5) ← set_memory o.root path_root i4
    (temperature, i6) ← set_value o.raspberry_pi.temperature path_temperature i5
    (firmware, i7) ← set_firmware o.raspberry_pi.firmware i6
    (network, i8) ← set_network o.network i7
    (utilization, i9) ← set_value o.cpu_utilization path_utilization i8
    ok (record {
      observed_at = at;
      host = record { hostname = if is_present o.host.hostname then o.host.hostname.value else [] };
      cpu = record { utilization_percent = utilization; logical_cpu_count = count };
      load = load;
      memory = memory;
      root_filesystem = root;
      uptime_seconds = uptime;
      network = network;
      raspberry_pi = record {
        soc_temperature_celsius = temperature;
        thermal_throttling_active = flag (λ h. h.thermal_throttling_active) firmware;
        thermal_throttling_occurred_since_boot =
            flag (λ h. h.thermal_throttling_occurred_since_boot) firmware;
        undervoltage_active = flag (λ h. h.undervoltage_active) firmware;
        undervoltage_occurred_since_boot = flag (λ h. h.undervoltage_occurred_since_boot) firmware;
      };
      issues = i9;
    })
