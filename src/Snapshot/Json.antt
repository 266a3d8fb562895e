-- ===== src/Snapshot/Json.antt =====
-- `json.Marshal` of a wire document: objects in the order of their fields, `null` for a nil
-- pointer, strings with the escapes of `encoding/json`. What is marshalled has passed
-- `buildDocument` and `validateIssues`, so that its strings are valid UTF-8 and its numbers finite;
-- a number that is not finite is an error here too.
use joy_pi_health.Prelude.{
  ℕ, ◌+◌, ◌-◌, ◌/◌, ◌%◌, ◌≡◌, Bool, true, false, ◌&&◌, ◌||◌, Option, none, some, List, [], ◌∷◌,
  ◌++◌, map, arith, ltb, ◌==◌, if◌then◌else◌,
}
use joy_pi_health.Result.{Result, ok, err}
use joy_pi_health.Text.{Text, bytes}
use joy_pi_health.Text.Decimal.{format_uint}
use joy_pi_health.Errors.{Error, plain}
use joy_pi_health.Numbers.{Float64}
use joy_pi_health.Snapshot.{Issue, NetworkInterface, Memory, Cpu, Load, RaspberryPi}
use joy_pi_health.Snapshot.Document.{WireDocument}

hex_digit : ℕ → ℕ
hex_digit d = if ltb d 10 then b'0' + d else (b'a' + (d - 10))

-- One byte of a string: the short escapes, `\u00xx` for other control bytes and for `<`, `>`, `&`.
escape_byte : ℕ → Text
unfolding hex_digit
escape_byte b =
    if (b == b'"') || (b == 92)
    then 92 ∷ b ∷ []
    else if b == 8
    then 92 ∷ b'b' ∷ []
    else if b == 12
    then 92 ∷ b'f' ∷ []
    else if b == 10
    then 92 ∷ b'n' ∷ []
    else if b == 13
    then 92 ∷ b'r' ∷ []
    else if b == 9
    then 92 ∷ b't' ∷ []
    else if ltb b 32 || (b == b'<') || (b == b'>') || (b == b'&')
    then 92 ∷ b'u' ∷ b'0' ∷ b'0' ∷ hex_digit (b / 16) ∷ hex_digit (b % 16) ∷ []
    else b ∷ []

-- U+2028 and U+2029 are escaped too.
escape : Text → Text
unfolding escape_byte
escape [] = []
escape (a ∷ []) = escape_byte a
escape (a ∷ b ∷ []) = escape_byte a ++ escape_byte b
escape (a ∷ b ∷ c ∷ t) = elim ((a == 0xe2) && (b == 0x80) && ((c == 0xa8) || (c == 0xa9))) [
  | true ↦ 92 ∷ (bytes "u202" ++ ((c - 0xa0) + b'0') ∷ escape t)
  | false ↦ escape_byte a ++ escape (b ∷ c ∷ t)
]

unfoldable pub json_string : Text → Text
unfolding escape
json_string t = b'"' ∷ (escape t ++ b'"' ∷ [])

json_uint : ℕ → Text
json_uint n = format_uint n

json_bool : Bool → Text
json_bool true = bytes "true"
json_bool false = bytes "false"

nullable : {A : Type 0} → (A → Text) → Option A → Text
nullable print none = bytes "null"
nullable print (some a) = print a

-- Members and elements, with commas between them.
commas : List Text → Text
commas [] = []
commas (t ∷ []) = t
commas (t ∷ u ∷ ts) = t ++ (b',' ∷ commas (u ∷ ts))

unfoldable pub json_object : List (Text × Text) → Text
unfolding json_string commas
json_object members =
    b'{' ∷ (commas (map (λ m. json_string m.0 ++ (b':' ∷ m.1)) members) ++ b'}' ∷ [])

json_array : List Text → Text
unfolding commas
json_array elements = b'[' ∷ (commas elements ++ b']' ∷ [])

json_memory : Memory → Text
unfolding json_object nullable json_uint
json_memory m = json_object (
    (bytes "total_bytes", nullable json_uint m.total_bytes)
    ∷ (bytes "available_bytes", nullable json_uint m.available_bytes)
    ∷ (bytes "used_bytes", nullable json_uint m.used_bytes)
    ∷ [])

json_interface : NetworkInterface → Text
unfolding json_object nullable json_uint
json_interface n = json_object (
    (bytes "name", json_string n.name)
    ∷ (bytes "state", nullable json_string n.state)
    ∷ (bytes "rx_bytes", nullable json_uint n.rx_bytes)
    ∷ (bytes "tx_bytes", nullable json_uint n.tx_bytes)
    ∷ [])

json_network : List NetworkInterface → Text
unfolding json_object json_array json_interface
json_network ns = json_object ((bytes "interfaces", json_array (map json_interface ns)) ∷ [])

json_issue : Issue → Text
unfolding json_object
json_issue i = json_object (
    (bytes "path", json_string i.path)
    ∷ (bytes "code", json_string i.code)
    ∷ (bytes "message", json_string i.message)
    ∷ [])

module _ {F : Type 0} ⦃f : Float64 F⦄ where
  json_cpu : Cpu F → Text
  unfolding json_object nullable json_uint
  json_cpu x = json_object (
      (bytes "utilization_percent", nullable f.format_float x.utilization_percent)
      ∷ (bytes "logical_cpu_count", nullable json_uint x.logical_cpu_count)
      ∷ [])

  json_load : Load F → Text
  unfolding json_object nullable
  json_load x = json_object (
      (bytes "one_minute", nullable f.format_float x.one_minute)
      ∷ (bytes "five_minutes", nullable f.format_float x.five_minutes)
      ∷ (bytes "fifteen_minutes", nullable f.format_float x.fifteen_minutes)
      ∷ [])

  json_raspberry_pi : RaspberryPi F → Text
  unfolding json_object nullable json_bool
  json_raspberry_pi x = json_object (
      (bytes "soc_temperature_celsius", nullable f.format_float x.soc_temperature_celsius)
      ∷ (bytes "thermal_throttling_active", nullable json_bool x.thermal_throttling_active)
      ∷ (
        bytes "thermal_throttling_occurred_since_boot",
        nullable json_bool x.thermal_throttling_occurred_since_boot,
      )
      ∷ (bytes "undervoltage_active", nullable json_bool x.undervoltage_active)
      ∷ (
        bytes "undervoltage_occurred_since_boot",
        nullable json_bool x.undervoltage_occurred_since_boot,
      )
      ∷ [])

  -- Whether a number can be written.
  unfoldable pub finite : Option F → Bool
  finite none = true
  finite (some x) = if f.is_nan x || f.is_inf x then false else true

  unfoldable pub all_finite : WireDocument F → Bool
  unfolding finite
  all_finite d =
      finite d.cpu.utilization_percent
      && finite d.load.one_minute
      && finite d.load.five_minutes
      && finite d.load.fifteen_minutes
      && finite d.raspberry_pi.soc_temperature_celsius

  unfoldable pub json_document : WireDocument F → Text
  unfolding json_cpu json_load json_raspberry_pi json_memory json_network json_issue json_array
  json_document d = json_object (
      (bytes "schema_version", json_string d.schema)
      ∷ (bytes "observed_at", json_string d.observed_at)
      ∷ (bytes "host", json_object ((bytes "hostname", json_string d.host.hostname) ∷ []))
      ∷ (bytes "cpu", json_cpu d.cpu)
      ∷ (bytes "load", json_load d.load)
      ∷ (bytes "memory", json_memory d.memory)
      ∷ (bytes "root_filesystem", json_memory d.root_filesystem)
      ∷ (bytes "uptime_seconds", nullable json_uint d.uptime_seconds)
      ∷ (bytes "network", nullable json_network d.network)
      ∷ (bytes "raspberry_pi", json_raspberry_pi d.raspberry_pi)
      ∷ (bytes "issues", json_array (map json_issue d.issues))
      ∷ [])

  unfoldable pub marshal : WireDocument F → Result Error Text
  unfolding json_document
  marshal d =
      if all_finite d then ok (json_document d) else err (plain (bytes "json: unsupported value"))

  marshal-ne-nil : (d : WireDocument F) → ok [] ≡ marshal d → ⊥
  unfolding marshal json_document json_object
  marshal-ne-nil d h = ground arith
