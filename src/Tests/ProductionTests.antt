-- ===== src/Tests/ProductionTests.antt =====
-- One production cycle: a hostname and an uptime, and nothing else that the platform allows to be read.
use joy_pi_health.Prelude.{ℕ, ◌≡◌, refl, ◌⊎◌, true, false, none, some}
use joy_pi_health.Result.{Result, ok, err}
use joy_pi_health.Text.{bytes, text_eq}
use joy_pi_health.Text.Utf8.{valid_utf8}
use joy_pi_health.Errors.{Error, sentinel, permission, no_useful_snapshot}
use joy_pi_health.Snapshot.Encode.{within_limit}
use joy_pi_health.Observe.Outcome.{present, unavailable, validate_outcome}
use joy_pi_health.Observe.RaspberryPi.{firmware_health_from_mask}
use joy_pi_health.Observe.Generic.{collect_host}
use joy_pi_health.Observe.Cpu.States.{new_cpu_observer}
use joy_pi_health.Observe.Cpu.Observer.{fresh}
use joy_pi_health.Observe.Coordinator.Finalize.Encodes.{cycle_body}
use joy_pi_health.Observe.Coordinator.Cycle.{conclude, with_utilization, collect}
use joy_pi_health.Observe.Coordinator.Healthy.{observed}
use joy_pi_health.Observe.Production.{
  Timing, Readings, cancellation, production_answers, production_cycle_ends,
}
use joy_pi_health.Tests.CycleTests.{Sample, samples, seconds}
use joy_pi_health.Tests.PlatformTests.{samples_round}

abbrev prompt : Timing
prompt = record { lifecycle = none; cycle_over = false; context = none; expired = false }

abbrev unreadable : {A : Type 0} → Result Error A
unreadable = err (sentinel permission)

abbrev readings : Readings ℕ
readings = record {
  host_timing = prompt;
  load_timing = prompt;
  memory_timing = record prompt { expired = true };
  root_timing = prompt;
  pi_timing = prompt;
  network_timing = record prompt { cycle_over = true };
  hostname = ok (bytes "pi");
  uptime = ok (bytes "12.5 7");
  online = unreadable;
  average = unreadable;
  memory_info = unreadable;
  usage = unreadable;
  zones = unreadable;
  temperature = λ zone. unreadable;
  firmware = present (firmware_health_from_mask 5);
  links = unreadable;
  last_lifecycle = none;
  latest_at = 0;
  now = 1;
  report = λ es. none;
}

production_cycle_ends_example :
    ((e : Error) × (cancellation readings ≡ some e)
      × (collect (production_answers {F = Sample} new_cpu_observer readings) ≡ err e))
    ⊎ ((cancellation readings ≡ none)
        × ((collect (production_answers {F = Sample} new_cpu_observer readings)
              ≡ err (sentinel no_useful_snapshot))
            ⊎ (collect (production_answers {F = Sample} new_cpu_observer readings)
                ≡ conclude none (
                    within_limit (
                      cycle_body {F = Sample} {T = ℕ} 1 (
                        with_utilization
                          (production_answers new_cpu_observer readings)
                          (observed (production_answers new_cpu_observer readings))))))))
unfolding validate_outcome present unavailable new_cpu_observer collect_host valid_utf8 text_eq
production_cycle_ends_example =
    production_cycle_ends new_cpu_observer readings (λ x. refl) samples_round (refl, refl)
      (λ es. refl) fresh refl (λ h. cc) refl refl refl
