-- ===== src/Snapshot/Document.antt =====
-- `buildDocument`: the checks of a whole snapshot, the paths of the issues that it must come with,
-- and the number of its usable values. The wire document holds the snapshot's own values:
-- `copyPointer` copies them, and a copy is the same value.
use joy_pi_health.Prelude.{
  ℕ, suc, ◌+◌, Bool, true, false, not, ◌&&◌, ◌||◌, Option, none, some, List, [], ◌∷◌, ◌++◌, ltb,
  ◌==◌, if◌then◌else◌, is_some, length,
}
use joy_pi_health.Result.{Result, ok, err, ◌>>=◌, ◌>>◌}
use joy_pi_health.Text.{Text, bytes, text_lt, is_empty}
use joy_pi_health.Text.Utf8.{valid_utf8}
use joy_pi_health.Text.Decimal.{format_uint}
use joy_pi_health.Errors.{Error, plain, ensure, check}
use joy_pi_health.Numbers.{Float64, Calendar}
use joy_pi_health.Snapshot.{
  Snapshot, NetworkInterface, Memory, Host, Cpu, Load, RaspberryPi, Issue, schema_version,
  maximum_interfaces, path_uptime, path_cpu_count, path_load, path_memory, path_root,
  path_temperature, path_throttling, path_throttled, path_undervoltage, path_undervolted,
  path_network, path_utilization,
}
use joy_pi_health.Snapshot.Validate.{
  validate_float, validate_finite, validate_all_or_none, validate_memory,
}

-- The counters that `countOrIssue` advances.
pub record Tally : Type 0 where
  pub usable : ℕ
  pub expected : List Text

unfoldable pub count_or_issue : Bool → Text → Tally → Tally
count_or_issue present path t =
    if present
    then record t { usable = t.usable + 1 }
    else record t { expected = t.expected ++ path ∷ [] }

unfoldable pub count_group_or_issue : Bool → ℕ → Text → Tally → Tally
count_group_or_issue present count path t =
    if present
    then record t { usable = t.usable + count }
    else record t { expected = t.expected ++ path ∷ [] }

-- `fmt.Sprintf("/network/interfaces/%d/", index)`.
abbrev pub interface_prefix : ℕ → Text
interface_prefix index = bytes "/network/interfaces/" ++ (format_uint index ++ bytes "/")

-- The tests on one interface. `previous` is the name of the one before, `none` at the first.
unfoldable pub check_interface : Option Text → NetworkInterface → Result Error (Unit {0})
check_interface previous n =
    if is_empty n.name || not (valid_utf8 n.name)
    then err (plain (bytes "network interface has an invalid name"))
    else if elim previous [ none ↦ false | some p ↦ not (text_lt p n.name) ]
    then err (plain (bytes "network interfaces must be uniquely ordered by name"))
    else if elim n.state [ none ↦ false | some s ↦ is_empty s || not (valid_utf8 s) ]
    then err (plain (bytes "network interface has an invalid state"))
    else ok tt

unfoldable pub count_interface : ℕ → NetworkInterface → Tally → Tally
unfolding count_or_issue
count_interface index n t =
    count_or_issue (is_some n.tx_bytes) (interface_prefix index ++ bytes "tx_bytes") (
      count_or_issue (is_some n.rx_bytes) (interface_prefix index ++ bytes "rx_bytes") (
        count_or_issue (is_some n.state) (interface_prefix index ++ bytes "state")
          (record t { usable = t.usable + 1 })))

unfoldable pub build_interfaces :
    ℕ → Option Text → List NetworkInterface → Tally → Result Error Tally
build_interfaces index previous [] t = ok t
build_interfaces index previous (n ∷ ns) t = check_interface previous n >>= λ _.
    build_interfaces (suc index) (some n.name) ns (count_interface index n t)

unfoldable pub build_network : Option (List NetworkInterface) → Tally → Result Error Tally
unfolding build_interfaces
build_network none t = ok (record t { expected = t.expected ++ path_network ∷ [] })
build_network (some ns) t =
    if ltb maximum_interfaces (length ns)
    then err (plain (bytes "network has more than 64 interfaces"))
    else build_interfaces 0 none ns t

-- `wireDocument`.
pub record WireDocument (F : Type 0) : Type 0 where
  pub schema : Text
  pub observed_at : Text
  pub host : Host
  pub cpu : Cpu F
  pub load : Load F
  pub memory : Memory
  pub root_filesystem : Memory
  pub uptime_seconds : Option ℕ
  pub network : Option (List NetworkInterface)
  pub raspberry_pi : RaspberryPi F
  pub issues : List Issue

module _ {F T : Type 0} ⦃f : Float64 F⦄ ⦃c : Calendar T⦄ where
  -- The checks up to the counting.
  unfoldable pub check_snapshot : Snapshot F T → Result Error (Unit {0})
  check_snapshot s = do
    ensure (not (c.is_zero_time s.observed_at)) (plain (bytes "observed_at is required"))
    ensure (not (is_empty s.host.hostname) && valid_utf8 s.host.hostname)
        (plain (bytes "hostname must be non-empty UTF-8"))
    ensure (c.parses_time (c.format_time s.observed_at))
        (plain (bytes "observed_at is not RFC 3339"))
    check
        (validate_float s.cpu.utilization_percent f.zero_float f.hundred (bytes "cpu utilization"))
    ensure (elim s.cpu.logical_cpu_count [ none ↦ true | some n ↦ not (n == 0) ])
        (plain (bytes "logical CPU count must be positive"))
    check (validate_float s.load.one_minute f.zero_float f.infinity (bytes "one-minute load"))
    check (validate_float s.load.five_minutes f.zero_float f.infinity (bytes "five-minute load"))
    check (
        validate_float s.load.fifteen_minutes f.zero_float f.infinity (bytes "fifteen-minute load"))
    check (validate_finite s.raspberry_pi.soc_temperature_celsius (bytes "SoC temperature"))
    check (
        validate_all_or_none (bytes "load") (
          is_some s.load.one_minute
          ∷ is_some s.load.five_minutes
          ∷ is_some s.load.fifteen_minutes
          ∷ []))
    check (validate_memory (bytes "memory") s.memory)
    check (validate_memory (bytes "root filesystem") s.root_filesystem)
    check (
        validate_all_or_none (bytes "firmware flags") (
          is_some s.raspberry_pi.thermal_throttling_active
          ∷ is_some s.raspberry_pi.thermal_throttling_occurred_since_boot
          ∷ is_some s.raspberry_pi.undervoltage_active
          ∷ is_some s.raspberry_pi.undervoltage_occurred_since_boot
          ∷ []))

  -- The counting up to the network, in the order of the calls.
  unfoldable pub count_first : Snapshot F T → Tally
  count_first s =
      let t0 : Tally = record { usable = 0; expected = [] } in
      let t1 = count_or_issue (is_some s.uptime_seconds) path_uptime t0 in
      let t2 = count_or_issue (is_some s.cpu.logical_cpu_count) path_cpu_count t1 in
      let t3 = count_group_or_issue (is_some s.load.one_minute) 3 path_load t2 in
      let t4 = count_group_or_issue (is_some s.memory.total_bytes) 3 path_memory t3 in
      let t5 = count_group_or_issue (is_some s.root_filesystem.total_bytes) 3 path_root t4 in
      let t6 =
        count_or_issue (is_some s.raspberry_pi.soc_temperature_celsius) path_temperature t5 in
      let t7 =
        count_or_issue (is_some s.raspberry_pi.thermal_throttling_active) path_throttling t6 in
      let t8 =
        count_or_issue (is_some s.raspberry_pi.thermal_throttling_occurred_since_boot)
          path_throttled t7 in
      let t9 = count_or_issue (is_some s.raspberry_pi.undervoltage_active) path_undervoltage t8 in
      count_or_issue (is_some s.raspberry_pi.undervoltage_occurred_since_boot) path_undervolted t9

  unfoldable pub wire_document : Snapshot F T → WireDocument F
  wire_document s = record {
    schema = schema_version;
    observed_at = c.format_time s.observed_at;
    host = s.host;
    cpu = s.cpu;
    load = s.load;
    memory = s.memory;
    root_filesystem = s.root_filesystem;
    uptime_seconds = s.uptime_seconds;
    network = s.network;
    raspberry_pi = s.raspberry_pi;
    issues = [];
  }

  unfoldable pub build_document : Snapshot F T → Result Error (WireDocument F × Tally)
  unfolding check_snapshot count_first wire_document
  build_document s = do
    check_snapshot s
    t ← build_network s.network (count_first s)
    ok (wire_document s, count_or_issue (is_some s.cpu.utilization_percent) path_utilization t)
