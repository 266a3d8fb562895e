-- ===== src/Observe/Parsers.antt =====
-- The readers of internal/observe/generic.go: `parseUptime`, `parseCPUTopology`, `parseLoad` and
-- `parseMemory`, from the bytes of the kernel's files.
pub mod Topology
pub mod Ranges
pub mod MemoryInfo
use Prim.Native.String.{String}
use joy_pi_health.Prelude.{
  ℕ, ◌+◌, ◌-◌, ◌*◌, ◌%◌, ◌^◌, Bool, true, false, not, ◌&&◌, ◌||◌, Option, none, some, List, [], ◌∷◌,
  ◌++◌, map, all, length, ltb, leb, ◌==◌, if◌then◌else◌, is_some,
}
use joy_pi_health.Result.{Result, ok, err, ◌>>=◌, or_fail}
use joy_pi_health.Text.{Text, bytes, text_eq, is_empty, split, join, contains_byte}
use joy_pi_health.Text.Fields.{fields, trim_space}
use joy_pi_health.Text.Decimal.{is_digit, parse_uint, format_uint}
use joy_pi_health.Errors.{Error, plain}
use joy_pi_health.Numbers.{Float64}
use joy_pi_health.Observe.Observations.{LoadObservation, MemoryObservation, bad_load}
use joy_pi_health.Observe.Coordinator.Cycle.{CpuTopology}

-- `math.MaxUint64`.
abbrev pub maximum_uint64 : ℕ
maximum_uint64 = 18446744073709551615

abbrev pub maximum_uptime_input : ℕ
maximum_uptime_input = 128

abbrev pub maximum_cpu_input : ℕ
maximum_cpu_input = 4096

abbrev pub maximum_load_input : ℕ
maximum_load_input = 256

abbrev pub maximum_memory_input : ℕ
maximum_memory_input = 65536

abbrev pub failed : {A : Type 0} → String → Result Error A
failed t = err (plain (bytes t))

-- Empty, or longer than the limit.
abbrev pub badly_sized : ℕ → Text → Bool
badly_sized maximum input = is_empty input || ltb maximum (length input)

abbrev decimal_digits : Text → Bool
decimal_digits t = all is_digit t

-- The whole seconds, of one part or two around a point.
unfoldable pub parse_seconds : List Text → Result Error ℕ
parse_seconds (whole ∷ []) =
    if is_empty whole || not (decimal_digits whole)
    then failed "uptime is not a non-negative decimal"
    else or_fail (plain (bytes "strconv.ParseUint")) (parse_uint 10 maximum_uint64 whole)
parse_seconds (whole ∷ fraction ∷ []) =
    if is_empty whole
      || (is_empty fraction || not (decimal_digits fraction))
      || not (decimal_digits whole)
    then failed "uptime is not a non-negative decimal"
    else or_fail (plain (bytes "strconv.ParseUint")) (parse_uint 10 maximum_uint64 whole)
parse_seconds _ = failed "uptime is not a non-negative decimal"

unfoldable pub parse_uptime : Text → Result Error ℕ
unfolding parse_seconds
parse_uptime input = elim (fields input) [
  | [] ↦
      if badly_sized maximum_uptime_input input
      then failed "uptime input is empty or oversized"
      else failed "uptime value is missing"
  | first ∷ others ↦
      if badly_sized maximum_uptime_input input
      then failed "uptime input is empty or oversized"
      else parse_seconds (split b'.' first)
]

unfoldable pub read_bound : Text → Result Error ℕ
read_bound t =
    or_fail (plain (bytes "CPU list contains an invalid number")) (parse_uint 10 maximum_uint64 t)

-- `start` or `start-end`.
unfoldable pub read_range : List Text → Result Error (ℕ × ℕ)
unfolding read_bound
read_range (first ∷ []) =
    if is_empty first
    then failed "CPU list contains an invalid range"
    else (read_bound first >>= λ start. ok (start, start))
read_range (first ∷ last ∷ []) =
    if is_empty first
    then failed "CPU list contains an invalid range"
    else (read_bound first >>= λ start.
        if is_empty last
        then failed "CPU list contains an invalid range"
        else elim (parse_uint 10 maximum_uint64 last) [
          | none ↦ failed "CPU list contains an invalid range"
          | some end ↦
              if ltb end start then failed "CPU list contains an invalid range" else ok (start, end)
        ])
read_range _ = failed "CPU list contains an invalid range"

-- `end - start + 1`, which wraps at 64 bits.
abbrev pub range_length : ℕ × ℕ → ℕ
range_length (start, end) = (end - start + 1) % 2 ^ 64

-- The new count, unless the range does not follow the previous one or the count overflows.
unfoldable pub admit_range : Option ℕ → ℕ → ℕ × ℕ → Result Error ℕ
admit_range previous count (start, end) =
    if elim previous [ none ↦ false | some p ↦ leb start p ]
    then failed "CPU list is overlapping or unordered"
    else if (range_length (start, end) == 0)
        || ltb (maximum_uint64 - range_length (start, end)) count
    then failed "CPU count overflows"
    else ok (count + range_length (start, end))

unfoldable pub print_range : ℕ × ℕ → Text
print_range (start, end) =
    if start == end then format_uint start else format_uint start ++ b'-' ∷ format_uint end

-- The loop over the items: the last bound before them, the count so far.
unfoldable pub parse_ranges : Option ℕ → ℕ → List Text → Result Error (ℕ × List Text)
parse_ranges previous count [] = ok (count, [])
parse_ranges previous count (item ∷ rest) = read_range (split b'-' item) >>= λ (start, end).
    admit_range previous count (start, end) >>= λ count1.
    parse_ranges (some end) count1 rest >>= λ (total, canonical).
    ok (total, print_range (start, end) ∷ canonical)

unfoldable pub parse_cpu_topology : Text → Result Error CpuTopology
unfolding parse_ranges
parse_cpu_topology input =
    if badly_sized maximum_cpu_input input
    then failed "CPU list is empty or oversized"
    else if is_empty (trim_space input)
    then failed "CPU list is empty"
    else (parse_ranges none 0 (split b',' (trim_space input)) >>= λ (count, canonical).
        if count == 0
        then failed "CPU list contains no processors"
        else ok (record { count = count; signature = join b',' canonical }))

module _ {F : Type 0} ⦃f : Float64 F⦄ where
  unfoldable pub read_load : Text → Result Error F
  read_load t = elim (f.parse_float t) [
    | none ↦ failed "load input contains an invalid value"
    | some x ↦ if bad_load x then failed "load input contains an invalid value" else ok x
  ]

  unfoldable pub read_loads : List Text → Result Error (LoadObservation F)
  unfolding read_load
  read_loads (first ∷ second ∷ third ∷ others) = do
    one ← read_load first
    five ← read_load second
    fifteen ← read_load third
    ok (record { one_minute = one; five_minutes = five; fifteen_minutes = fifteen })
  read_loads _ = failed "load input has fewer than three values"

  unfoldable pub parse_load : Text → Result Error (LoadObservation F)
  unfolding read_loads
  parse_load input =
      if badly_sized maximum_load_input input
      then failed "load input is empty or oversized"
      else read_loads (fields input)

-- The map `values` of the entries found.
unfoldable pub find_entry : Text → List (Text × ℕ) → Option ℕ
find_entry k [] = none
find_entry k ((j, v) ∷ m) = if text_eq j k then some v else find_entry k m

-- A text without one final byte, if it ends in that.
unfoldable pub trim_last : ℕ → Text → Text
trim_last c [] = []
trim_last c (b ∷ []) = if b == c then [] else b ∷ []
trim_last c (b ∷ d ∷ t) = b ∷ trim_last c (d ∷ t)

abbrev drop_last_empty : List Text → List Text
drop_last_empty [] = []
drop_last_empty (l ∷ []) = if is_empty l then [] else l ∷ []
drop_last_empty (l ∷ m ∷ ls) = l ∷ drop_last_empty (m ∷ ls)

-- The lines of `bufio.ScanLines`.
unfoldable pub scan_lines : Text → List Text
unfolding trim_last
scan_lines input = map (trim_last 13) (drop_last_empty (split 10 input))

unfoldable pub read_amount : Text → List (Text × ℕ) → List Text → Result Error (List (Text × ℕ))
unfolding find_entry
read_amount name values (amount ∷ unit ∷ []) =
    if is_some (find_entry name values) || not (text_eq unit (bytes "kB"))
    then err (plain (bytes "invalid or duplicate " ++ (name ++ bytes " entry")))
    else elim (parse_uint 10 maximum_uint64 amount) [
      | none ↦ err (plain (bytes "invalid " ++ (name ++ bytes " value")))
      | some kilobytes ↦
          if ltb 18014398509481983 kilobytes
          then err (plain (bytes "invalid " ++ (name ++ bytes " value")))
          else ok ((name, kilobytes * 1024) ∷ values)
    ]
read_amount name values _ = err (plain (bytes "invalid or duplicate " ++ (name ++ bytes " entry")))

unfoldable pub read_entry : List (Text × ℕ) → List Text → Result Error (List (Text × ℕ))
unfolding read_amount
read_entry values [] = ok values
read_entry values (first ∷ others) =
    if text_eq (trim_last b':' first) (bytes "MemTotal")
      || text_eq (trim_last b':' first) (bytes "MemAvailable")
    then read_amount (trim_last b':' first) values others
    else ok values

unfoldable pub read_entries : List (Text × ℕ) → List Text → Result Error (List (Text × ℕ))
unfolding read_entry
read_entries values [] = ok values
read_entries values (line ∷ rest) = read_entry values (fields line) >>= λ vs. read_entries vs rest

-- The two entries that must be there, in order.
unfoldable pub conclude_memory : List (Text × ℕ) → Result Error MemoryObservation
conclude_memory values = elim (find_entry (bytes "MemTotal") values) [
  | none ↦ failed "required memory values are missing or inconsistent"
  | some total ↦ elim (find_entry (bytes "MemAvailable") values) [
    | none ↦ failed "required memory values are missing or inconsistent"
    | some available ↦
        if ltb total available
        then failed "required memory values are missing or inconsistent"
        else ok (record {
          total_bytes = total;
          available_bytes = available;
          used_bytes = total - available;
        })
  ]
]

-- A line that fills the scanner's buffer of 64 KiB is an error of the scanner.
unfoldable pub parse_memory : Text → Result Error MemoryObservation
unfolding scan_lines read_entries conclude_memory
parse_memory input =
    if badly_sized maximum_memory_input input
    then failed "memory input is empty or oversized"
    else if (length input == maximum_memory_input) && not (contains_byte 10 input)
    then failed "bufio.Scanner: token too long"
    else (read_entries [] (scan_lines input) >>= λ values. conclude_memory values)
