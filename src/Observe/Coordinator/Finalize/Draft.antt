-- ===== src/Observe/Coordinator/Finalize/Draft.antt =====
-- The draft of sound observations: it is made without a panic, field by field.
use joy_pi_health.Prelude.{◌≡◌, List, [], ◌++◌, if◌then◌else◌}
use joy_pi_health.Result.{ok}
use joy_pi_health.Snapshot.{
  Snapshot, Issue, path_uptime, path_cpu_count, path_load, path_memory, path_root, path_temperature,
  path_utilization,
}
use joy_pi_health.Observe.Outcome.{IsSound}
use joy_pi_health.Observe.Observations.{CycleObservations, is_present}
use joy_pi_health.Observe.Coordinator.Finalize.{flag, draft}
use joy_pi_health.Observe.Coordinator.Finalize.Total.{
  opt, missing, set_value_lem, memory_of, set_memory_lem, load_of, set_load_lem, missing_firmware,
  set_firmware_lem, network_of, network_issues, SoundNetwork, set_network_lem,
}

module _ {F : Type 0} where
  pub record SoundCycle (o : CycleObservations F) : Type 0 where
    pub uptime : IsSound o.host.uptime
    pub count : IsSound o.cpu_load.logical_cpu_count
    pub load : IsSound o.cpu_load.load
    pub memory : IsSound o.memory
    pub root : IsSound o.root
    pub temperature : IsSound o.raspberry_pi.temperature
    pub firmware : IsSound o.raspberry_pi.firmware
    pub network : SoundNetwork o.network
    pub utilization : IsSound o.cpu_utilization

  -- The issues in two halves: up to the firmware, and all.
  unfoldable pub first_issues : CycleObservations F → List Issue
  first_issues o =
      ((((([] ++ missing o.host.uptime path_uptime)
              ++ missing o.cpu_load.logical_cpu_count path_cpu_count)
            ++ missing o.cpu_load.load path_load)
          ++ missing o.memory path_memory)
        ++ missing o.root path_root)
      ++ missing o.raspberry_pi.temperature path_temperature

  unfoldable pub all_issues : CycleObservations F → List Issue
  all_issues o =
      network_issues o.network (missing_firmware o.raspberry_pi.firmware (first_issues o))
      ++ missing o.cpu_utilization path_utilization

module _ {F T : Type 0} where
  unfoldable pub draft_of : T → CycleObservations F → Snapshot F T
  draft_of at o = record {
    observed_at = at;
    host = record { hostname = if is_present o.host.hostname then o.host.hostname.value else [] };
    cpu = record {
      utilization_percent = opt o.cpu_utilization;
      logical_cpu_count = opt o.cpu_load.logical_cpu_count;
    };
    load = load_of o.cpu_load.load;
    memory = memory_of o.memory;
    root_filesystem = memory_of o.root;
    uptime_seconds = opt o.host.uptime;
    network = network_of o.network;
    raspberry_pi = record {
      soc_temperature_celsius = opt o.raspberry_pi.temperature;
      thermal_throttling_active =
          flag (λ h. h.thermal_throttling_active) (opt o.raspberry_pi.firmware);
      thermal_throttling_occurred_since_boot =
          flag (λ h. h.thermal_throttling_occurred_since_boot) (opt o.raspberry_pi.firmware);
      undervoltage_active = flag (λ h. h.undervoltage_active) (opt o.raspberry_pi.firmware);
      undervoltage_occurred_since_boot =
          flag (λ h. h.undervoltage_occurred_since_boot) (opt o.raspberry_pi.firmware);
    };
    issues = all_issues o;
  }

  -- Sound observations are made into a document: no panic for want of a reason.
  pub draft_lem :
      (at : T) (o : CycleObservations F) → SoundCycle o → draft at o ≡ ok (draft_of at o)
  unfolding draft draft_of all_issues first_issues
  draft_lem at o s = rw (
    set_value_lem o.host.uptime path_uptime [] s.uptime,
    set_value_lem o.cpu_load.logical_cpu_count path_cpu_count _ s.count,
    set_load_lem o.cpu_load.load _ s.load,
    set_memory_lem o.memory path_memory _ s.memory,
    set_memory_lem o.root path_root _ s.root,
    set_value_lem o.raspberry_pi.temperature path_temperature _ s.temperature,
    set_firmware_lem o.raspberry_pi.firmware _ s.firmware,
    set_network_lem o.network _ s.network,
    set_value_lem o.cpu_utilization path_utilization _ s.utilization,
  )
