-- ===== src/Tests/CollectorTests.antt =====
-- The collectors and the CPU observer at concrete files of the kernel.
use joy_pi_health.Prelude.{
  ℕ, ◌≤◌, ◌≡◌, refl, ◌⊎◌, ◌↔◌, true, false, none, some, List, [], ◌∷◌, ◌++◌, arith, ◌+◌, ◌*◌, ◌<◌,
}
use joy_pi_health.Result.{Result, ok, err}
use joy_pi_health.Text.{Text, bytes, cut, is_empty, split, join, text_eq}
use joy_pi_health.Text.Fields.{trim_space, fields}
use joy_pi_health.Text.Decimal.{parse_uint, format_uint}
use joy_pi_health.Errors.{Error, plain, sentinel, permission}
use joy_pi_health.Observe.Outcome.{Outcome, present, unavailable, validate_outcome}
use joy_pi_health.Observe.Observations.{
  is_present, validate_host, validate_cpu_load, validate_memory_outcome,
}
use joy_pi_health.Observe.Coordinator.Cycle.{
  CpuTopology, CpuPublication, inconsistent, memory_text, filesystem_text,
}
use joy_pi_health.Observe.Parsers.{
  maximum_uint64, maximum_cpu_input, badly_sized, read_range, admit_range, print_range,
  parse_uptime, parse_cpu_topology, parse_memory,
}
use joy_pi_health.Observe.Parsers.Topology.{Ascending, size}
use joy_pi_health.Observe.Parsers.Ranges.{AreItems, AreWritten, parse_cpu_topology_iff}
use joy_pi_health.Observe.Generic.{
  Filesystem, collect_host, collect_cpu_load, collect_memory, collect_root_filesystem,
  probe_readiness,
}
use joy_pi_health.Observe.Generic.Sound.{generic_collectors_sound}
use joy_pi_health.Observe.Generic.Readiness.{probe_readiness_iff}
use joy_pi_health.Observe.Cpu.{
  parse_cpu_counters, parse_boot_id, CpuCounters, CpuSample, TimedCpuSample, CpuAnswers,
  is_percentage, decreased, minimum_sample_interval, maximum_sample_interval,
  calculate_cpu_utilization, collect_cpu_sample,
}
use joy_pi_health.Observe.Cpu.Schedule.{cpu_sample_period, next_target, next_target_after}
use joy_pi_health.Observe.Cpu.States.{CpuObserver, new_cpu_observer, observe}
use joy_pi_health.Observe.Cpu.Utilization.{calculate_cpu_utilization_sound}
use joy_pi_health.Observe.Cpu.Observer.{Reach, observing, fresh, later, Reach-IsConsistent}
use joy_pi_health.Observe.Coordinator.Cycle.{DegradationEvent}
use joy_pi_health.Snapshot.{valid_issue_code}
use joy_pi_health.Observe.Degradation.{
  DegradationRecord, degradation_info, same_key, contains, put_active, find_active, report,
}
use joy_pi_health.Observe.Degradation.Active.{is_active, is_active-report}
use joy_pi_health.Tests.CycleTests.{Sample, finite, samples}

abbrev five_processors : CpuTopology
five_processors = record { count = 5; signature = bytes "0-3,5" }

topology_read : parse_cpu_topology (bytes "0-3,05\n") ≡ ok five_processors
unfolding parse_cpu_topology trim_space split read_range parse_uint admit_range join print_range
    format_uint
topology_read = refl

parse_cpu_topology_iff_example : (parse_cpu_topology (bytes "0-3,05\n") ≡ ok five_processors) ↔ (
    (badly_sized maximum_cpu_input (bytes "0-3,05\n") ≡ false)
    × (is_empty (trim_space (bytes "0-3,05\n")) ≡ false)
    × ((rs : List (ℕ × ℕ)) × AreItems (split b',' (trim_space (bytes "0-3,05\n"))) rs
        × Ascending none rs
        × (five_processors.count ≡ size rs)
        × (size rs ≤ maximum_uint64)
        × ((forms : List Text) × AreWritten rs forms
            × (five_processors.signature ≡ join b',' forms))))
parse_cpu_topology_iff_example = parse_cpu_topology_iff (bytes "0-3,05\n") five_processors

abbrev memory_info : Text
memory_info =
    bytes "MemTotal: 2048 kB"
    ++ (10 ∷ bytes "MemFree: 1 kB")
    ++ (10 ∷ bytes "MemAvailable: 1024 kB")
    ++ (10 ∷ [])

memory_read :
    parse_memory memory_info
    ≡ ok (record { total_bytes = 2097152; available_bytes = 1048576; used_bytes = 1048576 })
unfolding parse_memory split fields text_eq parse_uint
memory_read = refl

abbrev refused : {A : Type 0} → Result Error A
refused = err (sentinel permission)

abbrev root_usage : Result Error Filesystem
root_usage = ok (record { block_size = 4096; total_blocks = 100; available_blocks = 40 })

generic_collectors_sound_example :
    (validate_host (collect_host none (ok (bytes "joy")) (ok (bytes "12.5 7"))) ≡ none)
    × (validate_cpu_load (collect_cpu_load {F = Sample} none (ok (bytes "0-3,05\n")) refused)
        ≡ none)
    × (validate_memory_outcome memory_text (collect_memory none (ok memory_info)) ≡ none)
    × (validate_memory_outcome filesystem_text (collect_root_filesystem none root_usage) ≡ none)
generic_collectors_sound_example =
    generic_collectors_sound Sample none (ok (bytes "joy")) (ok (bytes "12.5 7"))
      (ok (bytes "0-3,05\n")) refused (ok memory_info) root_usage

probe_readiness_iff_example :
    (probe_readiness none none (ok (bytes "joy")) refused root_usage ≡ none) ↔ (
      (is_present (collect_host none (ok (bytes "joy")) refused).hostname ≡ true)
      × ((is_present (collect_host none (ok (bytes "joy")) refused).uptime ≡ true)
          ⊎ (is_present (collect_root_filesystem none root_usage) ≡ true)))
probe_readiness_iff_example = probe_readiness_iff none none (ok (bytes "joy")) refused root_usage

abbrev answers : Text → Text → CpuAnswers
answers stat up = record {
  stat = ok stat;
  online = ok (bytes "0-3,5");
  boot = ok (bytes "0123abcd-0123-0123-0123-0123456789AB\n");
  up = ok up;
}

abbrev sample : CpuCounters → ℕ → CpuSample
sample counters uptime = record {
  counters = counters;
  topology = five_processors;
  boot_id = bytes "0123abcd-0123-0123-0123-0123456789ab";
  uptime = uptime;
}

abbrev first : TimedCpuSample
first = record {
  value = sample (record { c0 = 1; c1 = 2; c2 = 3; c3 = 4; c4 = 5; c5 = 6; c6 = 7; c7 = 8 }) 10;
  at = 0;
}

abbrev second : TimedCpuSample
second = record {
  value = sample (record { c0 = 2; c1 = 2; c2 = 3; c3 = 9; c4 = 5; c5 = 6; c6 = 7; c7 = 8 }) 11;
  at = 1_000_000_000;
}

calculated : calculate_cpu_utilization first second ≡ ok (finite 100)
unfolding calculate_cpu_utilization text_eq
calculated = refl

calculate_cpu_utilization_sound_example :
    (minimum_sample_interval ≤ 1_000_000_000)
    × (1_000_000_000 ≤ maximum_sample_interval)
    × (text_eq first.value.boot_id second.value.boot_id ≡ true)
    × (decreased first.value.counters second.value.counters ≡ false)
    × (1 ≤ 6)
    × (6 ≤ maximum_uint64)
    × (1 ≤ 6)
    × (finite 100 ≡ finite 100)
    × (is_percentage (finite 100) ≡ true)
calculate_cpu_utilization_sound_example =
    calculate_cpu_utilization_sound first second (finite 100)
      (
        omega arith,
        omega arith,
        omega arith,
        omega arith,
        omega arith,
        omega arith,
        omega arith,
        omega arith,
      )
      calculated

abbrev watched : Outcome (CpuPublication Sample) → CpuSample → ℕ → CpuObserver Sample
watched publication baseline at = record {
  publication = publication;
  baseline = some (record { value = baseline; at = at });
  started = false;
  stopped = false;
  cancelled = false;
}

abbrev once : CpuObserver Sample
once =
    watched
      (record {
        state = 2;
        value = record {
          utilization_percent = finite 0;
          sampled_at = 0;
          topology = record { count = 0; signature = [] };
        };
        reason = 3;
        cause = some (plain (bytes "CPU observer requires a second valid sample"));
      })
      first.value 0

abbrev twice : CpuObserver Sample
twice =
    watched
      (record {
        state = 1;
        value = record {
          utilization_percent = finite 100;
          sampled_at = 1_000_000_000;
          topology = five_processors;
        };
        reason = 0;
        cause = none;
      })
      second.value 1_000_000_000

abbrev at_first : CpuAnswers
at_first = answers (bytes "cpu  1 2 3 4 5 6 7 8 9\n") (bytes "10.00 3")

abbrev at_second : CpuAnswers
at_second = answers (bytes "cpu  2 2 3 9 5 6 7 8 9\n") (bytes "11.01 3")

first_sample : collect_cpu_sample at_first ≡ present first.value
unfolding collect_cpu_sample present parse_cpu_counters fields cut text_eq parse_uint
    parse_cpu_topology trim_space split read_range admit_range parse_boot_id parse_uptime join
    print_range format_uint
first_sample = refl

second_sample : collect_cpu_sample at_second ≡ present second.value
unfolding collect_cpu_sample present parse_cpu_counters fields cut text_eq parse_uint
    parse_cpu_topology trim_space split read_range admit_range parse_boot_id parse_uptime join
    print_range format_uint
second_sample = refl

observed_once : observe 0 (present first.value) new_cpu_observer ≡ ok once
unfolding observe present new_cpu_observer unavailable validate_outcome
observed_once = refl

observed_twice : observe 1_000_000_000 (present second.value) once ≡ ok twice
unfolding observe present validate_outcome calculate_cpu_utilization text_eq
observed_twice = refl

run : Reach twice
run =
    later (later fresh (observing 0 at_first new_cpu_observer once (rw first_sample observed_once)))
      (observing 1_000_000_000 at_second once twice (rw second_sample observed_twice))

Reach-IsConsistent_example : inconsistent twice.publication.value ≡ false
Reach-IsConsistent_example = Reach-IsConsistent twice run refl

abbrev no_network : DegradationEvent
no_network = record { metric = bytes "/network"; reason = bytes "temporarily_unavailable" }

abbrev no_load : DegradationEvent
no_load = record { metric = bytes "/load"; reason = bytes "permission_denied" }

abbrev cleared_load : DegradationRecord
cleared_load = record {
  at = 60_000_000_000;
  severity = degradation_info;
  metric = bytes "/load";
  reason = bytes "permission_denied";
  cleared = true;
}

-- A minute after both were logged, the network is still away and the load is back.
cleared_after_a_minute :
    report 60_000_000_000 (no_network ∷ []) ((no_load, 0) ∷ (no_network, 0) ∷ [])
    ≡ ok ((no_network, 0) ∷ [], cleared_load ∷ [])
unfolding report valid_issue_code text_eq contains put_active find_active same_key
cleared_after_a_minute = refl

is_active-report_example :
    is_active no_load ((no_network, 0) ∷ []) ≡ contains no_load (no_network ∷ [])
is_active-report_example =
    is_active-report no_load 60_000_000_000 (no_network ∷ []) ((no_load, 0) ∷ (no_network, 0) ∷ [])
      ((no_network, 0) ∷ [], cleared_load ∷ []) cleared_after_a_minute

-- An observation that ends 2.5 seconds after its target skips two targets.
next_target_after_example :
    (k : ℕ) × (next_target 1_000_000_000 3_500_000_000 ≡ 1_000_000_000 + k * cpu_sample_period)
    × (3_500_000_000 < next_target 1_000_000_000 3_500_000_000)
    × ((k ≡ 0) ⊎ (next_target 1_000_000_000 3_500_000_000 ≤ 3_500_000_000 + cpu_sample_period))
next_target_after_example = next_target_after 1_000_000_000 3_500_000_000
