-- ===== src/Observe/Generic.antt =====
-- The collectors of internal/observe/generic.go. `context` is `ctx.Err()`, and the other arguments
-- are what the source answers: a value or an error.
pub mod Sound
pub mod Readiness
use Prim.Native.String.{String}
use joy_pi_health.Prelude.{
  ℕ, ◌-◌, ◌*◌, ◌/◌, not, ◌||◌, Option, none, some, [], ltb, ◌==◌, if◌then◌else◌,
}
use joy_pi_health.Result.{Result, ok, err}
use joy_pi_health.Text.{Text, bytes, is_empty}
use joy_pi_health.Text.Utf8.{valid_utf8}
use joy_pi_health.Errors.{Error, plain}
use joy_pi_health.Numbers.{Float64}
use joy_pi_health.Observe.Outcome.{
  Outcome, Zero, nat_zero, text_zero, present, unavailable, acquisition_failure, reason_unsupported,
  reason_temporarily_unavailable,
}
use joy_pi_health.Observe.Observations.{
  HostObservation, CpuLoadObservation, LoadObservation, MemoryObservation, is_present, within,
  fails, validate_host, validate_memory_outcome,
}
use joy_pi_health.Snapshot.Validate.{◌or_else◌}
use joy_pi_health.Observe.Coordinator.Cycle.{CpuTopology, memory_zero, load_zero, filesystem_text}
use joy_pi_health.Observe.Parsers.{
  maximum_uint64, parse_uptime, parse_cpu_topology, parse_load, parse_memory,
}

-- `platform.Filesystem`.
pub record Filesystem : Type 0 where
  pub block_size : ℕ
  pub total_blocks : ℕ
  pub available_blocks : ℕ

module _ {A : Type 0} ⦃z : Zero A⦄ where
  abbrev pub temporarily : Error → Outcome A
  temporarily e = unavailable reason_temporarily_unavailable (some e)

  -- The outcome of a value that is read and then parsed.
  unfoldable pub parsed : {B : Type 0} → (B → Result Error A) → Result Error B → Outcome A
  parsed parse (err e) = acquisition_failure (some e) reason_unsupported
  parsed parse (ok input) = elim (parse input) [ err e ↦ temporarily e | ok v ↦ present v ]

unfoldable pub check_hostname : Text → Result Error Text
check_hostname hostname =
    if is_empty hostname || not (valid_utf8 hostname)
    then err (plain (bytes "hostname is empty or invalid UTF-8"))
    else ok hostname

unfoldable pub collect_host : Option Error → Result Error Text → Result Error Text → HostObservation
unfolding parsed check_hostname
collect_host (some e) hostname uptime = record { hostname = temporarily e; uptime = temporarily e }
collect_host none hostname uptime = record {
  hostname = parsed check_hostname hostname;
  uptime = parsed parse_uptime uptime;
}

-- The count of a topology, and its signature, which is empty for an error.
abbrev signature_of : Result Error CpuTopology → Text
signature_of (ok t) = t.signature
signature_of (err e) = []

abbrev count_of : Result Error CpuTopology → Result Error ℕ
count_of (ok t) = ok t.count
count_of (err e) = err e

abbrev topology_of : Result Error Text → Result Error CpuTopology
topology_of (ok input) = parse_cpu_topology input
topology_of (err e) = err e

module _ {F : Type 0} ⦃f : Float64 F⦄ where
  unfoldable pub collect_cpu_load :
      Option Error → Result Error Text → Result Error Text → CpuLoadObservation F
  unfolding parsed
  collect_cpu_load (some e) online average = record {
    logical_cpu_count = temporarily e;
    topology_signature = [];
    load = temporarily e;
  }
  collect_cpu_load none online average = record {
    logical_cpu_count = parsed (λ input. count_of (parse_cpu_topology input)) online;
    topology_signature = signature_of (topology_of online);
    load = parsed parse_load average;
  }

unfoldable pub collect_memory : Option Error → Result Error Text → Outcome MemoryObservation
unfolding parsed
collect_memory (some e) info = temporarily e
collect_memory none info = parsed parse_memory info

-- The products are taken in 64 bits after the tests that they do not overflow.
unfoldable pub measure_filesystem : Filesystem → Result Error MemoryObservation
measure_filesystem v =
    if v.block_size == 0
    then err (plain (bytes "filesystem block values overflow"))
    else if ltb (maximum_uint64 / v.block_size) v.total_blocks
        || ltb (maximum_uint64 / v.block_size) v.available_blocks
    then err (plain (bytes "filesystem block values overflow"))
    else if ltb (v.total_blocks * v.block_size) (v.available_blocks * v.block_size)
    then err (plain (bytes "filesystem available bytes exceed total bytes"))
    else ok (record {
      total_bytes = v.total_blocks * v.block_size;
      available_bytes = v.available_blocks * v.block_size;
      used_bytes = v.total_blocks * v.block_size - v.available_blocks * v.block_size;
    })

unfoldable pub collect_root_filesystem :
    Option Error → Result Error Filesystem → Outcome MemoryObservation
unfolding parsed measure_filesystem
collect_root_filesystem (some e) usage = temporarily e
collect_root_filesystem none usage = parsed measure_filesystem usage

-- `ProbeReadiness`, with `ctx.Err()` at the start of each of the two collectors. `none` is `nil`.
unfoldable pub probe_readiness :
    Option Error
    → Option Error
    → Result Error Text
    → Result Error Text
    → Result Error Filesystem
    → Option Error
unfolding collect_host collect_root_filesystem
probe_readiness context later hostname uptime usage =
    let host = collect_host context hostname uptime in
    let root = collect_root_filesystem later usage in
    within (bytes "readiness host observation: ") (validate_host host)
    or_else fails (not (is_present host.hostname)) (bytes "required hostname is unavailable")
    or_else (if is_present host.uptime
        then none
        else within (bytes "readiness root-filesystem observation: ")
            (validate_memory_outcome filesystem_text root)
          or_else fails (not (is_present root)) (bytes "no useful readiness metric is available"))
