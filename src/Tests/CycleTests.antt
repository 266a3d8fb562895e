-- ===== src/Tests/CycleTests.antt =====
-- One collection cycle at concrete answers: a hostname, an uptime, memory and one interface in
-- time, the other domains too late.
use joy_pi_health.Prelude.{
  ℕ, ◌≡◌, refl, ◌⊎◌, ◌↔◌, Bool, true, false, none, some, List, [], ◌∷◌, ltb, ◌==◌,
}
use joy_pi_health.Result.{err}
use joy_pi_health.Text.{Text, bytes, text_eq, text_lt}
use joy_pi_health.Text.Utf8.{valid_utf8}
use joy_pi_health.Text.Decimal.{format_uint}
use joy_pi_health.Errors.{sentinel, no_useful_snapshot}
use joy_pi_health.Numbers.{Float64, Calendar}
use joy_pi_health.Snapshot.Encode.{within_limit}
use joy_pi_health.Observe.Outcome.{
  Outcome, present, unavailable, reason_temporarily_unavailable, validate_outcome, nat_zero,
}
use joy_pi_health.Observe.Observations.{
  CycleObservations, CpuLoadObservation, is_present, validate_host, validate_cpu_load,
  validate_memory_outcome, validate_raspberry_pi, validate_network, validate_interface,
}
use joy_pi_health.Observe.Coordinator.Finalize.Encodes.{cycle_body}
use joy_pi_health.Observe.Coordinator.Cycle.{
  Domain, Answers, DegradationEvent, CpuPublication, copy_cpu, unavailable_cycle,
  collection_deadline, memory_zero, conclude, with_utilization, collect, float_zero,
}
use joy_pi_health.Observe.Coordinator.Laws.{IsUsable, copy_cpu_iff}
use joy_pi_health.Observe.Coordinator.Healthy.{SoundAnswers, observed, collect_ends}

-- Numbers without a fraction, and infinity.
pub data Sample : Type 0 where
  finite : ℕ → Sample
  infinite : Sample

abbrev sample_less : Sample → Sample → Bool
sample_less (finite a) (finite b) = ltb a b
sample_less (finite a) infinite = true
sample_less infinite x = false

abbrev is_infinite : Sample → Bool
is_infinite (finite a) = false
is_infinite infinite = true

abbrev sample_text : Sample → Text
sample_text (finite a) = format_uint a
sample_text infinite = []

instance abbrev pub samples : Float64 Sample
samples = record {
  is_nan = λ x. false;
  is_inf = is_infinite;
  less = sample_less;
  zero_float = finite 0;
  hundred = finite 100;
  infinity = infinite;
  absolute_zero = finite 0;
  of_uint = finite;
  negate = λ x. finite 0;
  times = λ x y. x;
  over = λ x y. x;
  parse_float = λ t. none;
  format_float = sample_text;
}

instance abbrev pub seconds : Calendar ℕ
seconds = record {
  zero_time = 0;
  is_zero_time = λ t. t == 0;
  format_time = format_uint;
  parses_time = λ t. true;
}

nothing : CycleObservations Sample
nothing = unavailable_cycle collection_deadline

abbrev in_time : {A : Type 0} → A → Domain A
in_time v = record { lifecycle = none; cycle_over = false; value = v; expired = false }

abbrev too_late : {A : Type 0} → A → Domain A
too_late v = record { lifecycle = none; cycle_over = true; value = v; expired = true }

abbrev publication : Outcome (CpuPublication Sample)
publication = record {
  state = 1;
  value = record {
    utilization_percent = finite 40;
    sampled_at = 1_000_000_000;
    topology = record { count = 4; signature = bytes "0-3" };
  };
  reason = 0;
  cause = none;
}

answers : Answers Sample ℕ
answers = record {
  host = in_time (record { hostname = present (bytes "pi"); uptime = present 5 });
  cpu_load = too_late nothing.cpu_load;
  memory = in_time (present (record { total_bytes = 8; available_bytes = 3; used_bytes = 5 }));
  root = too_late nothing.root;
  raspberry_pi = too_late nothing.raspberry_pi;
  network = in_time (
      present (record {
        interfaces =
            record {
              name = bytes "eth0";
              state = present (bytes "up");
              rx_bytes = present 7;
              tx_bytes = unavailable reason_temporarily_unavailable (some collection_deadline);
            }
            ∷ [];
      }));
  last_lifecycle = none;
  latest = record publication { state = 2; reason = 3; cause = some collection_deadline };
  latest_at = 0;
  now = 1;
  report = λ es. none;
}

given : Unit {0}
unfolding validate_interface nothing unavailable_cycle answers present unavailable validate_outcome
    validate_host validate_cpu_load validate_memory_outcome validate_raspberry_pi validate_network
    valid_utf8 text_eq text_lt observed
given = tt

answers-SoundAnswers : SoundAnswers answers
unfolding given
answers-SoundAnswers = record {
  host = (refl, refl);
  cpu_load = (refl, refl);
  memory = (refl, refl);
  root = (refl, refl);
  raspberry_pi = (refl, refl);
  network = (refl, refl);
  running = refl;
  latest = refl;
  consistent = λ h. cc;
  past = λ h. cc;
}

answers_named : is_present (observed answers).host.hostname ≡ true
unfolding given
answers_named = refl

answers_taken : (es : List DegradationEvent) → answers.report es ≡ none
unfolding answers
answers_taken es = refl

collect_ends_example :
    (collect answers ≡ err (sentinel no_useful_snapshot))
    ⊎ (collect answers
        ≡ conclude none (
            within_limit
              (cycle_body {F = Sample} {T = ℕ} 1 (with_utilization answers (observed answers)))))
unfolding answers
collect_ends_example =
    collect_ends answers (λ x. refl) (refl, refl) answers_taken answers-SoundAnswers answers_named

abbrev four_cores : CpuLoadObservation Sample
four_cores = record {
  logical_cpu_count = record { state = 1; value = 4; reason = 0; cause = none };
  topology_signature = bytes "0-3";
  load = record {
    state = 2;
    value = record { one_minute = finite 0; five_minutes = finite 0; fifteen_minutes = finite 0 };
    reason = 3;
    cause = some collection_deadline;
  };
}

copy_cpu_iff_example :
    (copy_cpu four_cores publication 2_250_000_000 ≡ present (finite 40))
    ↔ IsUsable four_cores publication 2_250_000_000 (finite 40)
copy_cpu_iff_example = copy_cpu_iff four_cores publication 2_250_000_000 (finite 40)
