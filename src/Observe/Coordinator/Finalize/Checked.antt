-- ===== src/Observe/Coordinator/Finalize/Checked.antt =====
-- The document of checked observations passes the checks of `buildDocument`.
use joy_pi_health.Prelude.{
  ℕ, suc, ◌≡◌, refl, Bool, true, false, not, ◌||◌, Option, none, some, List, [], ◌∷◌, arith, ltb,
  ◌==◌, if◌then◌else◌, All, is_some, length,
}
use joy_pi_health.Result.{ok}
use joy_pi_health.Text.{Text, bytes, text_eq, text_eq_iff, text_lt, is_empty}
use joy_pi_health.Text.Utf8.{valid_utf8}
use joy_pi_health.Errors.{Error}
use joy_pi_health.Numbers.{Float64, Calendar}
use joy_pi_health.Snapshot.{maximum_interfaces}
use joy_pi_health.Snapshot.Validate.{
  ◌or_else◌, validate_finite, validate_float, validate_all_or_none, validate_memory, count_true,
  consistent,
}
use joy_pi_health.Snapshot.Document.{
  Tally, check_interface, count_interface, build_interfaces, build_network, check_snapshot,
}
use joy_pi_health.Observe.Outcome.{Outcome, IsSound, validate_outcome, validate_outcome_iff}
use joy_pi_health.Observe.Observations.{
  CycleObservations, HostObservation, MemoryObservation, InterfaceObservation, NetworkObservation,
  FirmwareHealth, is_present, within, validate_host, validate_cpu_load, validate_memory_outcome,
  validate_interface, validate_interfaces, validate_network, validate_raspberry_pi, bad_load,
  LoadObservation, CpuLoadObservation, RaspberryPiObservation,
}
use joy_pi_health.Observe.Coordinator.Finalize.{flag}
use joy_pi_health.Observe.Coordinator.Finalize.Total.{
  opt, memory_of, load_of, interface_of, interfaces_of, SoundInterface, SoundNetwork, network_of,
  length-interfaces_of,
}
use joy_pi_health.Observe.Coordinator.Finalize.Draft.{SoundCycle, draft_of}
use joy_pi_health.Observe.Coordinator.Finalize.Agreement.{count_interfaces}

or_else-none_left : (d e : Option Error) → (d or_else e) ≡ none → (d ≡ none) × (e ≡ none)
or_else-none_left none e h = (refl, h)
or_else-none_left (some d) e h = cc

within-none : (t : Text) (e : Option Error) → within t e ≡ none → e ≡ none
within-none t none h = refl
within-none t (some e) h = cc

sound : {A : Type 0} (v : Outcome A) → validate_outcome v ≡ none → IsSound v
sound v h = (validate_outcome_iff v).0 h

abbrev is_state : Text → Bool
is_state t = text_eq t (bytes "up") || text_eq t (bytes "down") || text_eq t (bytes "unknown")

state_text : (t : Text) → is_state t ≡ true → (is_empty t ≡ false) × (valid_utf8 t ≡ true)
unfolding valid_utf8
state_text t h = ground (
  arith,
  text_eq_iff t (bytes "up"),
  text_eq_iff t (bytes "down"),
  text_eq_iff t (bytes "unknown"),
)

abbrev out_of_order : Option Text → Text → Bool
out_of_order previous name = elim previous [ none ↦ false | some p ↦ not (text_lt p name) ]

interface_parts :
    (previous : Option Text) (v : InterfaceObservation)
    → validate_interface previous v ≡ none
    → (is_empty v.name ≡ false)
      × (valid_utf8 v.name ≡ true)
      × (out_of_order previous v.name ≡ false)
      × (validate_outcome v.state ≡ none)
      × (validate_outcome v.rx_bytes ≡ none)
      × (validate_outcome v.tx_bytes ≡ none)
      × (is_present v.state ≡ true → is_state v.state.value ≡ true)
unfolding validate_interface
interface_parts previous v h = ground arith

-- One interface: its checked observation passes `check_interface`, with the same predecessor.
interface_checked :
    (previous : Option Text) (v : InterfaceObservation)
    → validate_interface previous v ≡ none
    → (check_interface previous (interface_of v) ≡ ok tt) × SoundInterface v
unfolding check_interface interface_of
interface_checked previous v h =
    let (e, u, o, s, r, t, n) = interface_parts previous v h in
    (
      ground (arith, n, state_text v.state.value),
      (sound v.state s, sound v.rx_bytes r, sound v.tx_bytes t),
    )

-- The interfaces: the same order, and the count of each.
interfaces_checked :
    (index : ℕ) (previous : Option Text) (vs : List InterfaceObservation) (t : Tally)
    → validate_interfaces previous vs ≡ none
    → (build_interfaces index previous (interfaces_of vs) t
        ≡ ok (count_interfaces index (interfaces_of vs) t))
      × All SoundInterface vs
unfolding validate_interfaces build_interfaces interfaces_of count_interfaces interface_of
interfaces_checked index previous [] t h = (refl, tt)
interfaces_checked index previous (v ∷ vs) t h =
    let (first, rest) =
      or_else-none_left (validate_interface previous v) (validate_interfaces (some v.name) vs) h in
    let (ok_first, sound_first) = interface_checked previous v first in
    let (ok_rest, sound_rest) =
      interfaces_checked (suc index) (some v.name) vs (count_interface index (interface_of v) t)
        rest in
    (rw ok_first ok_rest, (sound_first, sound_rest))

network_parts :
    (v : Outcome NetworkObservation)
    → validate_network v ≡ none
    → (validate_outcome v ≡ none)
      × (is_present v ≡ true
          → (ltb maximum_interfaces (length v.value.interfaces) ≡ false)
            × (validate_interfaces none v.value.interfaces ≡ none))
unfolding validate_network
network_parts v h = ground arith

pub network_sound : (v : Outcome NetworkObservation) → validate_network v ≡ none → SoundNetwork v
network_sound v h =
    let (o, each) = network_parts v h in
    (
      sound v o,
      λ p.
          (interfaces_checked 0 none v.value.interfaces (record { usable = 0; expected = [] })
            (each p).1).1,
    )

pub network_present :
    (v : Outcome NetworkObservation) (t : Tally)
    → validate_network v ≡ none
    → is_present v ≡ true
    → build_network (network_of v) t ≡ ok (count_interfaces 0 (interfaces_of v.value.interfaces) t)
unfolding build_network network_of
network_present v t h p =
    let (few, each) = (network_parts v h).1 p in
    rw (p, length-interfaces_of v.value.interfaces, few)
      (interfaces_checked 0 none v.value.interfaces t each).0

-- Memory and the root filesystem.
memory_checked :
    (text name : Text) (v : Outcome MemoryObservation)
    → validate_memory_outcome text v ≡ none
    → (validate_memory name (memory_of v) ≡ none) × (validate_outcome v ≡ none)
unfolding validate_memory_outcome validate_memory memory_of validate_all_or_none count_true
    consistent
memory_checked text name v h = ground arith

firmware_checked :
    (t : Text) (o : Option FirmwareHealth)
    → validate_all_or_none t (
        is_some (flag (λ h. h.thermal_throttling_active) o)
        ∷ is_some (flag (λ h. h.thermal_throttling_occurred_since_boot) o)
        ∷ is_some (flag (λ h. h.undervoltage_active) o)
        ∷ is_some (flag (λ h. h.undervoltage_occurred_since_boot) o)
        ∷ [])
      ≡ none
unfolding validate_all_or_none count_true
firmware_checked t none = refl
firmware_checked t (some h) = refl

host_parts :
    (v : HostObservation)
    → validate_host v ≡ none
    → is_present v.hostname ≡ true
    → (is_empty v.hostname.value ≡ false)
      × (valid_utf8 v.hostname.value ≡ true)
      × (validate_outcome v.uptime ≡ none)
unfolding validate_host
host_parts v h p = ground arith

count_checked :
    (v : Outcome ℕ)
    → (is_present v ≡ true → (v.value == 0) ≡ false)
    → (elim (opt v) as (λ o. Bool) [ none ↦ true | some n ↦ not (n == 0) ]) ≡ true
count_checked v h = ground arith

module _ {F : Type 0} ⦃f : Float64 F⦄ where
  -- A utilization that `copyCPU` may publish.
  abbrev pub IsPercentage : Outcome F → Type 0
  IsPercentage v =
      is_present v ≡ true
      → ((f.is_nan v.value || f.is_inf v.value) ≡ false)
        × ((f.less v.value f.zero_float || f.less f.hundred v.value) ≡ false)

  -- The observations that the cycle has checked, with a hostname.
  pub record CheckedCycle (o : CycleObservations F) : Type 0 where
    pub host : validate_host o.host ≡ none
    pub named : is_present o.host.hostname ≡ true
    pub cpu_load : validate_cpu_load o.cpu_load ≡ none
    pub memory :
        validate_memory_outcome (bytes "present memory observation is inconsistent") o.memory ≡ none
    pub root :
        validate_memory_outcome (bytes "present filesystem observation is inconsistent") o.root
        ≡ none
    pub raspberry_pi : validate_raspberry_pi o.raspberry_pi ≡ none
    pub network : validate_network o.network ≡ none
    pub utilization : validate_outcome o.cpu_utilization ≡ none
    pub percentage : IsPercentage o.cpu_utilization

  pub load_parts :
      (v : CpuLoadObservation F)
      → validate_cpu_load v ≡ none
      → (validate_outcome v.logical_cpu_count ≡ none)
        × (validate_outcome v.load ≡ none)
        × (is_present v.logical_cpu_count ≡ true → (v.logical_cpu_count.value == 0) ≡ false)
        × (is_present v.load ≡ true
            → (bad_load v.load.value.one_minute ≡ false)
              × (bad_load v.load.value.five_minutes ≡ false)
              × (bad_load v.load.value.fifteen_minutes ≡ false))
  unfolding validate_cpu_load
  load_parts v h = ground arith

  pub pi_parts :
      (v : RaspberryPiObservation F)
      → validate_raspberry_pi v ≡ none
      → (validate_outcome v.temperature ≡ none)
        × (validate_outcome v.firmware ≡ none)
        × (is_present v.temperature ≡ true
            → (f.is_nan v.temperature.value || f.is_inf v.temperature.value) ≡ false)
  unfolding validate_raspberry_pi
  pi_parts v h = ground arith

  pub SoundCycle-of_Checked : (o : CycleObservations F) → CheckedCycle o → SoundCycle o
  SoundCycle-of_Checked o k = record {
    uptime = sound o.host.uptime (host_parts o.host k.host k.named).2;
    count = sound o.cpu_load.logical_cpu_count (load_parts o.cpu_load k.cpu_load).0;
    load = sound o.cpu_load.load (load_parts o.cpu_load k.cpu_load).1;
    memory = sound o.memory (memory_checked _ (bytes "memory") o.memory k.memory).1;
    root = sound o.root (memory_checked _ (bytes "root filesystem") o.root k.root).1;
    temperature = sound o.raspberry_pi.temperature (pi_parts o.raspberry_pi k.raspberry_pi).0;
    firmware = sound o.raspberry_pi.firmware (pi_parts o.raspberry_pi k.raspberry_pi).1;
    network = network_sound o.network k.network;
    utilization = sound o.cpu_utilization k.utilization;
  }

  float_checked :
      (b : Bool) (x hi : F) (t : Text)
      → (b ≡ true → bad_load x ≡ false)
      → f.less hi x ≡ false
      → validate_float (if b then some x else none) f.zero_float hi t ≡ none
  unfolding validate_float
  float_checked b x hi t h k = ground arith

  percentage_checked :
      (v : Outcome F) (t : Text)
      → IsPercentage v
      → validate_float (opt v) f.zero_float f.hundred t ≡ none
  unfolding validate_float
  percentage_checked v t h = ground arith

  temperature_checked :
      (v : Outcome F) (t : Text)
      → (is_present v ≡ true → (f.is_nan v.value || f.is_inf v.value) ≡ false)
      → validate_finite (opt v) t ≡ none
  unfolding validate_finite
  temperature_checked v t h = ground arith

  load_all_or_none :
      (v : Outcome (LoadObservation F)) (t : Text)
      → validate_all_or_none t (
          is_some (load_of v).one_minute
          ∷ is_some (load_of v).five_minutes
          ∷ is_some (load_of v).fifteen_minutes
          ∷ [])
        ≡ none
  unfolding validate_all_or_none count_true load_of
  load_all_or_none v t = ground arith

-- A time that the document may carry.
abbrev pub IsStamp : {T : Type 0} ⦃c : Calendar T⦄ → T → Type 0
IsStamp ⦃c⦄ at = (c.is_zero_time at ≡ false) × (c.parses_time (c.format_time at) ≡ true)

module _ {F T : Type 0} ⦃f : Float64 F⦄ ⦃c : Calendar T⦄ where
  pub check_snapshot_lem :
      (at : T) (o : CycleObservations F)
      → ((x : F) → f.less f.infinity x ≡ false)
      → IsStamp at
      → CheckedCycle o
      → check_snapshot (draft_of at o) ≡ ok tt
  unfolding check_snapshot draft_of load_of
  check_snapshot_lem at o top (nonzero, parses) k =
      let (e, u, _) = host_parts o.host k.host k.named in
      let (_, _, n, l) = load_parts o.cpu_load k.cpu_load in
      let (_, _, t) = pi_parts o.raspberry_pi k.raspberry_pi in
      rw (
        nonzero,
        k.named,
        e,
        u,
        parses,
        percentage_checked o.cpu_utilization (bytes "cpu utilization") k.percentage,
        count_checked o.cpu_load.logical_cpu_count n,
        float_checked (is_present o.cpu_load.load) _ f.infinity (bytes "one-minute load")
            (λ p. (l p).0) (top _),
        float_checked (is_present o.cpu_load.load) _ f.infinity (bytes "five-minute load")
            (λ p. (l p).1) (top _),
        float_checked (is_present o.cpu_load.load) _ f.infinity (bytes "fifteen-minute load")
            (λ p. (l p).2) (top _),
        temperature_checked o.raspberry_pi.temperature (bytes "SoC temperature") t,
        load_all_or_none o.cpu_load.load (bytes "load"),
        (memory_checked _ (bytes "memory") o.memory k.memory).0,
        (memory_checked _ (bytes "root filesystem") o.root k.root).0,
        firmware_checked (bytes "firmware flags") (opt o.raspberry_pi.firmware),
      )
