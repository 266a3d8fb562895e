-- ===== src/Observe/Coordinator/Cycle.antt =====
-- One cycle: `collect`, `copyCPU`, `runDomain`, `unavailableCycle` and `finalize`. What the
-- collectors, the clocks and the contexts answer during the cycle is given, as one record for each
-- collector; durations are in nanoseconds.
use joy_pi_health.Prelude.{
  ℕ, ◌-◌, Bool, true, false, not, ◌&&◌, ◌||◌, Option, none, some, List, [], ◌∷◌, map, ltb, ◌==◌,
  if◌then◌else◌,
}
use joy_pi_health.Result.{Result, ok, err, ◌>>=◌}
use joy_pi_health.Text.{Text, bytes, text_eq, is_empty}
use joy_pi_health.Errors.{
  Error, plain, wrapped, sentinel, internal_defect, panicked, no_useful_snapshot, is,
}
use joy_pi_health.Numbers.{Float64, Calendar}
use joy_pi_health.Snapshot.{
  Issue, issue_unsupported, issue_permission_denied, issue_temporarily_unavailable,
}
use joy_pi_health.Snapshot.Encode.{Encoded, encode}
use joy_pi_health.Observe.Outcome.{
  Outcome, Zero, nat_zero, text_zero, present, unavailable, defect, validate_outcome,
  reason_unsupported, reason_permission_denied, reason_temporarily_unavailable,
}
use joy_pi_health.Observe.Observations.{
  CycleObservations, HostObservation, CpuLoadObservation, LoadObservation, MemoryObservation,
  RaspberryPiObservation, FirmwareHealth, NetworkObservation, is_present, within, validate_host,
  validate_cpu_load, validate_memory_outcome, validate_raspberry_pi, validate_network,
}
use joy_pi_health.Observe.Coordinator.Finalize.{draft}

abbrev pub maximum_publication_age : ℕ
maximum_publication_age = 1_250_000_000

-- `cpuTopology` and `cpuPublication` of cpu.go.
pub record CpuTopology : Type 0 where
  pub count : ℕ
  pub signature : Text

pub record CpuPublication (F : Type 0) : Type 0 where
  pub utilization_percent : F
  pub sampled_at : ℕ
  pub topology : CpuTopology

-- What one collector meets and answers: the lifecycle's error before it, whether the cycle's
-- deadline is over then, its value, and whether its own deadline is over behind it.
pub record Domain (A : Type 0) : Type 0 where
  pub lifecycle : Option Error
  pub cycle_over : Bool
  pub value : A
  pub expired : Bool

pub record DegradationEvent : Type 0 where
  pub metric : Text
  pub reason : Text

-- A whole cycle's answers. `now` is the wall clock, `latest_at` the observer's clock.
pub record Answers (F T : Type 0) : Type 0 where
  pub host : Domain HostObservation
  pub cpu_load : Domain (CpuLoadObservation F)
  pub memory : Domain (Outcome MemoryObservation)
  pub root : Domain (Outcome MemoryObservation)
  pub raspberry_pi : Domain (RaspberryPiObservation F)
  pub network : Domain (Outcome NetworkObservation)
  pub last_lifecycle : Option Error
  pub latest : Outcome (CpuPublication F)
  pub latest_at : ℕ
  pub now : T
  pub report : List DegradationEvent → Option Error

instance abbrev pub memory_zero : Zero MemoryObservation
memory_zero = record {
  zero_value = record { total_bytes = 0; available_bytes = 0; used_bytes = 0 };
}

instance abbrev pub firmware_zero : Zero FirmwareHealth
firmware_zero = record {
  zero_value = record {
    thermal_throttling_active = false;
    thermal_throttling_occurred_since_boot = false;
    undervoltage_active = false;
    undervoltage_occurred_since_boot = false;
  };
}

instance abbrev pub network_zero : Zero NetworkObservation
network_zero = record { zero_value = record { interfaces = [] } }

-- A collector's value, checked and kept unless a deadline is over.
unfoldable pub run_domain : {A : Type 0} → (A → Option Error) → A → Domain A → Result Error A
run_domain validate kept d = elim d.lifecycle [
  | some e ↦ err e
  | none ↦ if d.cycle_over then ok kept else elim (validate d.value) [
    | some e ↦ err (internal_defect e)
    | none ↦ ok (if d.expired then kept else d.value)
  ]
]

-- The first collector runs whatever the cycle's deadline.
abbrev pub always : {A : Type 0} → Domain A → Domain A
always d = record d { cycle_over = false }

unfoldable pub degradation_code : ℕ → Result Error Text
degradation_code reason =
    if reason == reason_unsupported
    then ok issue_unsupported
    else if reason == reason_permission_denied
    then ok issue_permission_denied
    else if reason == reason_temporarily_unavailable
    then ok issue_temporarily_unavailable
    else err (panicked (bytes "invalid availability reason"))

abbrev pub issue_events : List Issue → List DegradationEvent
issue_events is = map (λ i. record { metric = i.path; reason = i.code }) is

-- The events of a cycle: the hostname's, where that is unavailable, and one for each issue.
unfoldable pub events_of : Outcome Text → List Issue → Result Error (List DegradationEvent)
events_of hostname issues =
    if is_present hostname
    then ok (issue_events issues)
    else (degradation_code hostname.reason >>= λ code.
        ok (record { metric = bytes "/host/hostname"; reason = code } ∷ issue_events issues))

-- `degradation.Report`, whose error is an internal defect, and then a result.
unfoldable pub reported {ℓ} : {A : Type ℓ} → Option Error → Result Error A → Result Error A
reported none r = r
reported (some e) r = err (internal_defect (wrapped (bytes "report degradation: ") e))

abbrev pub memory_text : Text
memory_text = bytes "present memory observation is inconsistent"

abbrev pub filesystem_text : Text
filesystem_text = bytes "present filesystem observation is inconsistent"

abbrev pub collection_deadline : Error
collection_deadline = plain (bytes "collection deadline expired")

-- What the encoder's answer becomes, with the answer of the reporter.
unfoldable pub conclude : Option Error → Result Error Encoded → Result Error Encoded
conclude answer (ok e) = reported answer (ok e)
conclude answer (err e) =
    if is e no_useful_snapshot
    then reported answer (err e)
    else err (internal_defect (wrapped (bytes "finalize snapshot: ") e))

module _ {F : Type 0} ⦃f : Float64 F⦄ where
  instance abbrev pub float_zero : Zero F
  float_zero = record { zero_value = f.zero_float }

  instance abbrev pub load_zero : Zero (LoadObservation F)
  load_zero = record {
    zero_value = record {
      one_minute = f.zero_float;
      five_minutes = f.zero_float;
      fifteen_minutes = f.zero_float;
    };
  }

  -- What a cycle starts from, with the cause of an expired deadline.
  unfoldable pub unavailable_cycle : Error → CycleObservations F
  unavailable_cycle e = record {
    host = record {
      hostname = unavailable reason_temporarily_unavailable (some e);
      uptime = unavailable reason_temporarily_unavailable (some e);
    };
    cpu_load = record {
      logical_cpu_count = unavailable reason_temporarily_unavailable (some e);
      topology_signature = [];
      load = unavailable reason_temporarily_unavailable (some e);
    };
    memory = unavailable reason_temporarily_unavailable (some e);
    root = unavailable reason_temporarily_unavailable (some e);
    raspberry_pi = record {
      temperature = unavailable reason_temporarily_unavailable (some e);
      firmware = unavailable reason_temporarily_unavailable (some e);
    };
    network = unavailable reason_temporarily_unavailable (some e);
    cpu_utilization = unavailable reason_temporarily_unavailable (some e);
  }

  unfoldable pub inconsistent : CpuPublication F → Bool
  inconsistent p =
      f.is_nan p.utilization_percent
      || f.is_inf p.utilization_percent
      || f.less p.utilization_percent f.zero_float
      || f.less f.hundred p.utilization_percent
      || (p.topology.count == 0)
      || is_empty p.topology.signature

  -- The topology of the cycle is that of the publication.
  unfoldable pub same_topology : CpuLoadObservation F → CpuPublication F → Bool
  same_topology t p =
      is_present t.logical_cpu_count
      && (t.logical_cpu_count.value == p.topology.count)
      && text_eq t.topology_signature p.topology.signature

  unfoldable pub copy_cpu : CpuLoadObservation F → Outcome (CpuPublication F) → ℕ → Outcome F
  copy_cpu topology publication now = elim (validate_outcome publication) [
    | some e ↦ defect (some e)
    | none ↦
        if not (is_present publication)
        then record {
          state = publication.state;
          value = f.zero_float;
          reason = publication.reason;
          cause = publication.cause;
        }
        else if inconsistent publication.value
        then defect (some (plain (bytes "CPU publication is internally inconsistent")))
        else if ltb now publication.value.sampled_at
        then defect (some (plain (bytes "CPU publication is from the future")))
        else if ltb maximum_publication_age (now - publication.value.sampled_at)
        then unavailable reason_temporarily_unavailable
            (some (plain (bytes "CPU publication is stale")))
        else if not (same_topology topology publication.value)
        then unavailable reason_temporarily_unavailable
            (some (plain (bytes "CPU publication topology does not match the collection cycle")))
        else present publication.value.utilization_percent
  ]

module _ {F T : Type 0} ⦃f : Float64 F⦄ ⦃c : Calendar T⦄ where
  unfoldable pub finalize :
      (List DegradationEvent → Option Error) → T → CycleObservations F → Result Error Encoded
  unfolding conclude reported events_of
  finalize report now o = do
    document ← draft c.zero_time o
    events ← events_of o.host.hostname document.issues
    elim (is_present o.host.hostname) [
      | false ↦ reported (report events) (err (sentinel no_useful_snapshot))
      | true ↦ conclude (report events) (encode (record document { observed_at = now }))
    ]

  -- The domains in their order, each over what the cycle holds so far.
  unfoldable pub observe_all : Answers F T → Result Error (CycleObservations F)
  unfolding run_domain unavailable_cycle
  observe_all a = do
    let start = unavailable_cycle collection_deadline
    host ← run_domain validate_host start.host (always a.host)
    cpu_load ← run_domain validate_cpu_load start.cpu_load a.cpu_load
    memory ← run_domain (validate_memory_outcome memory_text) start.memory a.memory
    root ← run_domain (validate_memory_outcome filesystem_text) start.root a.root
    raspberry_pi ← run_domain validate_raspberry_pi start.raspberry_pi a.raspberry_pi
    network ← run_domain validate_network start.network a.network
    ok (record {
      host = host;
      cpu_load = cpu_load;
      memory = memory;
      root = root;
      raspberry_pi = raspberry_pi;
      network = network;
      cpu_utilization = start.cpu_utilization;
    })

  unfoldable pub with_utilization : Answers F T → CycleObservations F → CycleObservations F
  with_utilization a o = record o { cpu_utilization = copy_cpu o.cpu_load a.latest a.latest_at }

  unfoldable pub collect : Answers F T → Result Error Encoded
  unfolding observe_all with_utilization
  collect a = observe_all a >>= λ o. elim a.last_lifecycle [
    | some e ↦ err e
    | none ↦
        elim (within (bytes "CPU utilization publication: ")
          (validate_outcome (with_utilization a o).cpu_utilization)) [
            | some e ↦ err (internal_defect e)
            | none ↦ finalize a.report a.now (with_utilization a o)
          ]
  ]
