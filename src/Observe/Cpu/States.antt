-- ===== src/Observe/Cpu/States.antt =====
-- The state of the CPU observer of internal/observe/cpu.go and its operations.

use joy_pi_health.Prelude.{ℕ, Bool, true, false, not, ◌||◌, Option, none, some, [], if◌then◌else◌}
use joy_pi_health.Result.{Result, ok, err}
use joy_pi_health.Text.{bytes}
use joy_pi_health.Errors.{Error, plain}
use joy_pi_health.Numbers.{Float64}
use joy_pi_health.Observe.Outcome.{
  Outcome, Zero, present, unavailable, defect, validate_outcome, reason_temporarily_unavailable,
}
use joy_pi_health.Observe.Observations.{is_present}
use joy_pi_health.Observe.Coordinator.Cycle.{CpuPublication}
use joy_pi_health.Observe.Parsers.{failed}
use joy_pi_health.Observe.Cpu.{CpuSample, TimedCpuSample, calculate_cpu_utilization, sample_zero}

-- The observer's state; `cancelled` is that its context is over.
pub record CpuObserver (F : Type 0) : Type 0 where
  pub publication : Outcome (CpuPublication F)
  pub baseline : Option TimedCpuSample
  pub started : Bool
  pub stopped : Bool
  pub cancelled : Bool

module _ {F : Type 0} ⦃f : Float64 F⦄ where
  instance abbrev pub publication_zero : Zero (CpuPublication F)
  publication_zero = record {
    zero_value = record {
      utilization_percent = f.zero_float;
      sampled_at = 0;
      topology = record { count = 0; signature = [] };
    };
  }

  unfoldable pub new_cpu_observer : CpuObserver F
  new_cpu_observer = record {
    publication =
        unavailable reason_temporarily_unavailable
          (some (plain (bytes "CPU observer has not established a baseline")));
    baseline = none;
    started = false;
    stopped = false;
    cancelled = false;
  }

  abbrev pub published : TimedCpuSample → TimedCpuSample → Outcome (CpuPublication F)
  published previous current = elim (calculate_cpu_utilization {F = F} previous current) [
    | err e ↦ unavailable reason_temporarily_unavailable (some e)
    | ok u ↦ present (record {
      utilization_percent = u;
      sampled_at = current.at;
      topology = current.value.topology;
    })
  ]

  -- What a valid sample, or one that is unavailable, does to the observer.
  unfoldable pub record_sample : ℕ → Outcome CpuSample → CpuObserver F → CpuObserver F
  record_sample at sample o =
      if not (is_present sample)
      then record o { baseline = none; publication = unavailable sample.reason sample.cause }
      else elim o.baseline [
        | none ↦ record o {
          baseline = some (record { value = sample.value; at = at });
          publication =
              unavailable reason_temporarily_unavailable
                (some (plain (bytes "CPU observer requires a second valid sample")));
        }
        | some previous ↦ record o {
          baseline = some (record { value = sample.value; at = at });
          publication = published previous (record { value = sample.value; at = at });
        }
      ]

  -- The error is the value of the panic.
  unfoldable pub observe : ℕ → Outcome CpuSample → CpuObserver F → Result Error (CpuObserver F)
  unfolding record_sample
  observe at sample o = elim (validate_outcome sample) [
    | some e ↦ err e
    | none ↦ ok (if o.stopped || o.cancelled then o else record_sample at sample o)
  ]

  unfoldable pub publish_defect : Error → CpuObserver F → CpuObserver F
  publish_defect e o =
      if o.stopped || o.cancelled then o else record o { publication = defect (some e) }

  -- `Close` up to its wait for the goroutine.
  unfoldable pub close : CpuObserver F → CpuObserver F
  close o = record o { stopped = true; cancelled = true }

  -- `Start` up to its first observation.
  unfoldable pub start : CpuObserver F → Result Error (CpuObserver F)
  start o =
      if o.started || o.stopped
      then failed "CPU observer cannot be started in its current state"
      else ok (record o { started = true })
