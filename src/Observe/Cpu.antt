-- ===== src/Observe/Cpu.antt =====
-- internal/observe/cpu.go: one sample of the CPU counters, the utilization between two samples, and
-- the observer that keeps a baseline and publishes. Durations are in nanoseconds.
pub mod Utilization
pub mod States
pub mod Schedule
pub mod Observer
use Prim.Native.String.{String}
use joy_pi_health.Prelude.{
  ℕ, suc, ◌+◌, ◌-◌, Bool, true, false, not, ◌&&◌, ◌||◌, Option, none, some, List, [], ◌∷◌, map, ltb,
  leb, ◌==◌, if◌then◌else◌, length,
}
use joy_pi_health.Result.{Result, ok, err, ◌>>=◌, or_fail}
use joy_pi_health.Text.{Text, bytes, text_eq, cut}
use joy_pi_health.Text.Fields.{fields, trim_space}
use joy_pi_health.Text.Decimal.{is_digit, parse_uint}
use joy_pi_health.Errors.{Error, plain, panicked}
use joy_pi_health.Numbers.{Float64}
use joy_pi_health.Observe.Outcome.{
  Outcome, Zero, present, unavailable, defect, acquisition_failure, validate_outcome,
  reason_unsupported, reason_temporarily_unavailable,
}
use joy_pi_health.Observe.Observations.{is_present}
use joy_pi_health.Observe.Coordinator.Cycle.{CpuTopology, CpuPublication}
use joy_pi_health.Observe.Parsers.{
  maximum_uint64, failed, badly_sized, parse_uptime, parse_cpu_topology,
}

abbrev pub minimum_sample_interval : ℕ
minimum_sample_interval = 900_000_000

abbrev pub maximum_sample_interval : ℕ
maximum_sample_interval = 1_100_000_000

abbrev maximum_cpu_stat_input : ℕ
maximum_cpu_stat_input = 512

abbrev maximum_boot_id_input : ℕ
maximum_boot_id_input = 128

-- The array `cpuCounters`: one field for each index.
pub record CpuCounters : Type 0 where
  pub c0 : ℕ
  pub c1 : ℕ
  pub c2 : ℕ
  pub c3 : ℕ
  pub c4 : ℕ
  pub c5 : ℕ
  pub c6 : ℕ
  pub c7 : ℕ

pub record CpuSample : Type 0 where
  pub counters : CpuCounters
  pub topology : CpuTopology
  pub boot_id : Text
  pub uptime : ℕ

pub record TimedCpuSample : Type 0 where
  pub value : CpuSample
  pub at : ℕ

unfoldable pub read_counter : Text → Result Error ℕ
read_counter t =
    or_fail (plain (bytes "aggregate CPU counters contain an invalid value"))
      (parse_uint 10 maximum_uint64 t)

unfoldable pub read_counters : List Text → Result Error CpuCounters
unfolding read_counter
read_counters (name ∷ f0 ∷ f1 ∷ f2 ∷ f3 ∷ f4 ∷ f5 ∷ f6 ∷ f7 ∷ others) =
    if not (text_eq name (bytes "cpu"))
    then failed "aggregate CPU counters are missing"
    else (read_counter f0 >>= λ c0. read_counter f1 >>= λ c1. read_counter f2 >>= λ c2.
        read_counter f3 >>= λ c3. read_counter f4 >>= λ c4. read_counter f5 >>= λ c5.
        read_counter f6 >>= λ c6. read_counter f7 >>= λ c7.
        ok (record { c0 = c0; c1 = c1; c2 = c2; c3 = c3; c4 = c4; c5 = c5; c6 = c6; c7 = c7 }))
read_counters _ = failed "aggregate CPU counters are missing"

unfoldable pub parse_cpu_counters : Text → Result Error CpuCounters
unfolding read_counters
parse_cpu_counters input =
    if badly_sized maximum_cpu_stat_input input
    then failed "CPU counter input is empty or oversized"
    else read_counters (fields (cut 10 input).0)

-- A dash at four places, and hexadecimal digits at the others.
abbrev boot_id_byte : ℕ → ℕ → Bool
boot_id_byte index b =
    if (index == 8) || (index == 13) || (index == 18) || (index == 23)
    then b == b'-'
    else is_digit b || (leb b'a' b && leb b b'f') || (leb b'A' b && leb b b'F')

is_uuid_from : ℕ → Text → Bool
is_uuid_from index [] = true
is_uuid_from index (b ∷ t) = boot_id_byte index b && is_uuid_from (suc index) t

-- `strings.ToLower` on ASCII letters.
abbrev to_lower : ℕ → ℕ
to_lower b = if leb b'A' b && leb b b'Z' then b + 32 else b

unfoldable pub parse_boot_id : Text → Result Error Text
unfolding is_uuid_from
parse_boot_id input =
    if badly_sized maximum_boot_id_input input
    then failed "boot ID is empty or oversized"
    else if not (length (trim_space input) == 36) || not (is_uuid_from 0 (trim_space input))
    then failed "boot ID is not a UUID"
    else ok (map to_lower (trim_space input))

-- `total + value` in 64 bits, after the test that it does not overflow.
unfoldable pub sum_from : ℕ → List ℕ → Result Error ℕ
sum_from total [] = ok total
sum_from total (value ∷ values) =
    let rest = sum_from (total + value) values in
    if ltb (maximum_uint64 - value) total then failed "CPU counter delta overflows" else rest

unfoldable pub sum_uint64 : List ℕ → Result Error ℕ
unfolding sum_from
sum_uint64 values = sum_from 0 values

abbrev pub decreased : CpuCounters → CpuCounters → Bool
decreased p c =
    ltb c.c0 p.c0
    || ltb c.c1 p.c1
    || ltb c.c2 p.c2
    || ltb c.c3 p.c3
    || ltb c.c4 p.c4
    || ltb c.c5 p.c5
    || ltb c.c6 p.c6
    || ltb c.c7 p.c7

abbrev equal_topology : CpuTopology → CpuTopology → Bool
equal_topology s t = (s.count == t.count) && text_eq s.signature t.signature

-- The tests on two samples before their counters are subtracted.
unfoldable pub check_samples : TimedCpuSample → TimedCpuSample → Result Error (Unit {0})
check_samples p c =
    if ltb c.at (p.at + minimum_sample_interval) || ltb (p.at + maximum_sample_interval) c.at
    then failed "CPU sample interval is outside the valid range"
    else if not (text_eq p.value.boot_id c.value.boot_id) || ltb c.value.uptime p.value.uptime
    then failed "CPU counter epoch changed"
    else if not (equal_topology p.value.topology c.value.topology)
    then failed "CPU topology changed"
    else if decreased p.value.counters c.value.counters
    then failed "CPU counter decreased"
    else ok tt

-- The busy and the total time between two counters.
unfoldable pub busy_and_total : CpuCounters → CpuCounters → Result Error (ℕ × ℕ)
unfolding sum_uint64
busy_and_total p c =
    sum_uint64 ((c.c0 - p.c0) ∷ (c.c1 - p.c1) ∷ (c.c2 - p.c2) ∷ (c.c5 - p.c5) ∷ (c.c6 - p.c6) ∷ [])
    >>= λ busy. elim (sum_uint64 (busy ∷ (c.c3 - p.c3) ∷ (c.c4 - p.c4) ∷ (c.c7 - p.c7) ∷ [])) [
      | err e ↦ failed "CPU counter delta is inconsistent"
      | ok total ↦
          if (total == 0) || ltb total busy
          then failed "CPU counter delta is inconsistent"
          else ok (busy, total)
    ]

module _ {F : Type 0} ⦃f : Float64 F⦄ where
  abbrev pub is_percentage : F → Bool
  is_percentage x = not (f.is_nan x || f.is_inf x || f.less x f.zero_float || f.less f.hundred x)

  unfoldable pub calculate_cpu_utilization : TimedCpuSample → TimedCpuSample → Result Error F
  unfolding check_samples busy_and_total
  calculate_cpu_utilization p c = check_samples p c >>= λ _.
      busy_and_total p.value.counters c.value.counters >>= λ (busy, total).
      if not (is_percentage (f.over (f.times f.hundred (f.of_uint busy)) (f.of_uint total)))
      then failed "CPU utilization is invalid"
      else ok (f.over (f.times f.hundred (f.of_uint busy)) (f.of_uint total))

instance abbrev pub sample_zero : Zero CpuSample
sample_zero = record {
  zero_value = record {
    counters = record { c0 = 0; c1 = 0; c2 = 0; c3 = 0; c4 = 0; c5 = 0; c6 = 0; c7 = 0 };
    topology = record { count = 0; signature = [] };
    boot_id = [];
    uptime = 0;
  };
}

-- The four files of one sample, as the source answers them.
pub record CpuAnswers : Type 0 where
  pub stat : Result Error Text
  pub online : Result Error Text
  pub boot : Result Error Text
  pub up : Result Error Text

-- One file: its value, or the outcome that ends the sample.
unfoldable pub read_file :
    {A : Type 0}
    → Result Error Text
    → (Text → Result Error A)
    → (A → Outcome CpuSample)
    → Outcome CpuSample
read_file (err e) parse next = acquisition_failure (some e) reason_unsupported
read_file (ok input) parse next = elim (parse input) [
  | err e ↦ unavailable reason_temporarily_unavailable (some e)
  | ok v ↦ next v
]

unfoldable pub collect_cpu_sample : CpuAnswers → Outcome CpuSample
unfolding read_file
collect_cpu_sample a = read_file a.stat parse_cpu_counters (λ counters.
    read_file a.online parse_cpu_topology (λ topology. read_file a.boot parse_boot_id (λ boot_id.
      read_file a.up parse_uptime (λ uptime. present (record {
        counters = counters;
        topology = topology;
        boot_id = boot_id;
        uptime = uptime;
      })))))
