-- ===== src/Observe/Production.antt =====
-- The production collectors of internal/observe/coordinator.go in one cycle: each answer of a domain is
-- what its collector makes of the answers of the platform.
use joy_pi_health.Prelude.{
  ℕ, ◌≤◌, ◌≡◌, refl, ◌⊎◌, inl, inr, Bool, true, false, Option, none, some, List, arith,
  Option-cases,
}
use joy_pi_health.Result.{Result, ok, err}
use joy_pi_health.Text.{Text}
use joy_pi_health.Errors.{Error, sentinel, no_useful_snapshot}
use joy_pi_health.Numbers.{Float64, Calendar}
use joy_pi_health.Snapshot.Validate.{◌or_else◌}
use joy_pi_health.Snapshot.Encode.{within_limit}
use joy_pi_health.Observe.Outcome.{Outcome, validate_outcome}
use joy_pi_health.Observe.Observations.{
  CycleObservations, HostObservation, FirmwareHealth, is_present, validate_host, validate_cpu_load,
  validate_memory_outcome, validate_raspberry_pi, validate_network,
}
use joy_pi_health.Observe.Generic.{
  Filesystem, collect_host, collect_cpu_load, collect_memory, collect_root_filesystem,
}
use joy_pi_health.Observe.Generic.Sound.{generic_collectors_sound}
use joy_pi_health.Observe.Network.{Link}
use joy_pi_health.Observe.Network.Collect.{collect_network}
use joy_pi_health.Observe.Network.Sound.{collect_network_accepted}
use joy_pi_health.Observe.RaspberryPi.Temperature.{Zone, collect_raspberry_pi}
use joy_pi_health.Observe.RaspberryPi.Sound.{RoundsDown, collect_raspberry_pi_accepted}
use joy_pi_health.Observe.Cpu.States.{CpuObserver}
use joy_pi_health.Observe.Cpu.Observer.{Reach, Reach-IsConsistent}
use joy_pi_health.Observe.Coordinator.Finalize.Checked.{IsStamp}
use joy_pi_health.Observe.Coordinator.Finalize.Encodes.{cycle_body}
use joy_pi_health.Observe.Coordinator.Cycle.{
  Domain, Answers, DegradationEvent, run_domain, always, memory_text, filesystem_text,
  unavailable_cycle, collection_deadline, conclude, observe_all, with_utilization, collect,
}
use joy_pi_health.Observe.Coordinator.Healthy.{SoundAnswers, kept, observed, collect_ends}

-- The contexts around one domain: the lifecycle's and the cycle's before it, the domain's own at its start
-- and behind it.
pub record Timing : Type 0 where
  pub lifecycle : Option Error
  pub cycle_over : Bool
  pub context : Option Error
  pub expired : Bool

-- Everything that the platform, the contexts and the clocks answer in one cycle.
pub record Readings (T : Type 0) : Type 0 where
  pub host_timing : Timing
  pub load_timing : Timing
  pub memory_timing : Timing
  pub root_timing : Timing
  pub pi_timing : Timing
  pub network_timing : Timing
  pub hostname : Result Error Text
  pub uptime : Result Error Text
  pub online : Result Error Text
  pub average : Result Error Text
  pub memory_info : Result Error Text
  pub usage : Result Error Filesystem
  pub zones : Result Error (List Zone)
  pub temperature : Text → Result Error Text
  pub firmware : Outcome FirmwareHealth
  pub links : Result Error (List Link)
  pub last_lifecycle : Option Error
  pub latest_at : ℕ
  pub now : T
  pub report : List DegradationEvent → Option Error

abbrev domain_of : {A : Type 0} → Timing → A → Domain A
domain_of t v = record {
  lifecycle = t.lifecycle;
  cycle_over = t.cycle_over;
  value = v;
  expired = t.expired;
}

-- The first error of the lifecycle that the cycle finds: before a domain, or before the utilization.
abbrev pub cancellation : {T : Type 0} → Readings T → Option Error
cancellation r =
    r.host_timing.lifecycle or_else r.load_timing.lifecycle or_else r.memory_timing.lifecycle
    or_else r.root_timing.lifecycle or_else r.pi_timing.lifecycle or_else r.network_timing.lifecycle
    or_else r.last_lifecycle

-- The lifecycle goes on through the whole cycle.
record Runs {T : Type 0} (r : Readings T) : Type 0 where
  host : r.host_timing.lifecycle ≡ none
  cpu_load : r.load_timing.lifecycle ≡ none
  memory : r.memory_timing.lifecycle ≡ none
  root : r.root_timing.lifecycle ≡ none
  raspberry_pi : r.pi_timing.lifecycle ≡ none
  network : r.network_timing.lifecycle ≡ none
  last : r.last_lifecycle ≡ none

Runs-of_none : {T : Type 0} (r : Readings T) → cancellation r ≡ none → Runs r
Runs-of_none r h = record {
  host = ground arith;
  cpu_load = ground arith;
  memory = ground arith;
  root = ground arith;
  raspberry_pi = ground arith;
  network = ground arith;
  last = ground arith;
}

-- A domain whose value passes its check is over with the lifecycle's error, or contributes.
run_domain_cases :
    {A : Type 0} (validate : A → Option Error) (old : A) (d : Domain A)
    → validate d.value ≡ none
    → run_domain validate old d ≡ (elim d.lifecycle [ some e ↦ err e | none ↦ ok (kept old d) ])
unfolding run_domain
run_domain_cases validate old d v = elim (Option-cases d.lifecycle) [
  | inr (e, p) ↦ rw p refl
  | inl p ↦ rw (p, v) (ground arith)
]

abbrev pub host_reading : {T : Type 0} → Readings T → HostObservation
host_reading r = collect_host r.host_timing.context r.hostname r.uptime

module _ {F T : Type 0} ⦃f : Float64 F⦄ ⦃c : Calendar T⦄ where
  -- The answers of the production collectors, with what the CPU observer has published.
  abbrev pub production_answers : CpuObserver F → Readings T → Answers F T
  production_answers o r = record {
    host = domain_of r.host_timing (host_reading r);
    cpu_load = domain_of r.load_timing (collect_cpu_load r.load_timing.context r.online r.average);
    memory = domain_of r.memory_timing (collect_memory r.memory_timing.context r.memory_info);
    root = domain_of r.root_timing (collect_root_filesystem r.root_timing.context r.usage);
    raspberry_pi = domain_of r.pi_timing (collect_raspberry_pi r.zones r.temperature r.firmware);
    network = domain_of r.network_timing (collect_network r.network_timing.context r.links);
    last_lifecycle = r.last_lifecycle;
    latest = o.publication;
    latest_at = r.latest_at;
    now = r.now;
    report = r.report;
  }

  -- The values of all domains pass their checks.
  record Checks (a : Answers F T) : Type 0 where
    host : validate_host a.host.value ≡ none
    cpu_load : validate_cpu_load a.cpu_load.value ≡ none
    memory : validate_memory_outcome memory_text a.memory.value ≡ none
    root : validate_memory_outcome filesystem_text a.root.value ≡ none
    raspberry_pi : validate_raspberry_pi a.raspberry_pi.value ≡ none
    network : validate_network a.network.value ≡ none

  production-Checks :
      (o : CpuObserver F) (r : Readings T)
      → RoundsDown F
      → validate_outcome r.firmware ≡ none
      → Checks (production_answers o r)
  production-Checks o r rounds firmware =
      let sound = λ (e : Option Error).
        generic_collectors_sound F e r.hostname r.uptime r.online r.average r.memory_info r.usage in
      record {
        host = (sound r.host_timing.context).0;
        cpu_load = (sound r.load_timing.context).1;
        memory = (sound r.memory_timing.context).2;
        root = (sound r.root_timing.context).3;
        raspberry_pi =
            collect_raspberry_pi_accepted F rounds r.zones r.temperature r.firmware firmware;
        network = collect_network_accepted r.network_timing.context r.links;
      }

  production-SoundAnswers :
      (o : CpuObserver F) (r : Readings T)
      → Reach o
      → Runs r
      → Checks (production_answers o r)
      → validate_outcome o.publication ≡ none
      → (is_present o.publication ≡ true → o.publication.value.sampled_at ≤ r.latest_at)
      → SoundAnswers (production_answers o r)
  production-SoundAnswers o r reached runs k valid past = record {
    host = (runs.host, k.host);
    cpu_load = (runs.cpu_load, k.cpu_load);
    memory = (runs.memory, k.memory);
    root = (runs.root, k.root);
    raspberry_pi = (runs.raspberry_pi, k.raspberry_pi);
    network = (runs.network, k.network);
    running = runs.last;
    latest = valid;
    consistent = Reach-IsConsistent o reached;
    past = past;
  }

  -- The error of the lifecycle that a cycle finds first is its result.
  collect_cancelled :
      (o : CpuObserver F) (r : Readings T) (e : Error)
      → Checks (production_answers o r)
      → cancellation r ≡ some e
      → collect (production_answers o r) ≡ err e
  unfolding collect observe_all
  collect_cancelled o r e k h =
      let a = production_answers o r in
      let start : CycleObservations F = unavailable_cycle collection_deadline in
      rw
        (
          run_domain_cases validate_host start.host (always a.host) k.host,
          run_domain_cases validate_cpu_load start.cpu_load a.cpu_load k.cpu_load,
          run_domain_cases (validate_memory_outcome memory_text) start.memory a.memory k.memory,
          run_domain_cases (validate_memory_outcome filesystem_text) start.root a.root k.root,
          run_domain_cases validate_raspberry_pi start.raspberry_pi a.raspberry_pi k.raspberry_pi,
          run_domain_cases validate_network start.network a.network k.network,
        )
        (ground (arith, h))

  -- A production cycle whose hostname is observed in time ends in the first error of the lifecycle that it
  -- finds before a domain or before the utilization. Without such an error it ends in its snapshot's JSON
  -- text within the limit of 64 KiB, in "no useful snapshot", or in the one internal defect of a text
  -- beyond that limit, whatever the platform answers and whatever other deadlines run out. The CPU observer
  -- is in a state that it reaches, with a publication that is no defect and not from the future; the
  -- firmware's outcome is no defect; the reporter takes every list of events; the time can be
  -- written; the floats round as in IEEE arithmetic, and none is above infinity.
  pub production_cycle_ends :
      (o : CpuObserver F) (r : Readings T)
      → ((x : F) → f.less f.infinity x ≡ false)
      → RoundsDown F
      → IsStamp r.now
      → ((es : List DegradationEvent) → r.report es ≡ none)
      → Reach o
      → validate_outcome o.publication ≡ none
      → (is_present o.publication ≡ true → o.publication.value.sampled_at ≤ r.latest_at)
      → validate_outcome r.firmware ≡ none
      → r.host_timing.expired ≡ false
      → is_present (host_reading r).hostname ≡ true
      → ((e : Error) × (cancellation r ≡ some e) × (collect (production_answers o r) ≡ err e))
        ⊎ ((cancellation r ≡ none)
            × ((collect (production_answers o r) ≡ err (sentinel no_useful_snapshot))
                ⊎ (collect (production_answers o r)
                    ≡ conclude none (
                        within_limit (
                          cycle_body r.now (
                            with_utilization
                              (production_answers o r)
                              (observed (production_answers o r))))))))
  unfolding observed
  production_cycle_ends o r top rounds stamp taken reached valid past firmware soon named =
      let k = production-Checks o r rounds firmware in
      elim (Option-cases (cancellation r)) [
        | inr (e, h) ↦ inl (e, h, collect_cancelled o r e k h)
        | inl h ↦ inr (
          h,
          collect_ends (production_answers o r) top stamp taken
              (production-SoundAnswers o r reached (Runs-of_none r h) k valid past) (rw soon named),
        )
      ]
