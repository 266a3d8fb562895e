-- ===== src/Observe/Coordinator/Finalize/Total.antt =====
-- The setters at sound outcomes: they do not panic, and what they append.
use joy_pi_health.Prelude.{
  ℕ, suc, ◌≤◌, ◌≡◌, refl, ap, inl, inr, true, Option, none, some, List, [], ◌∷◌, ◌++◌, arith, ◌==◌,
  if◌then◌else◌, All, Bool-cases, length,
}
use joy_pi_health.Result.{ok}
use joy_pi_health.Text.{Text, bytes}
use joy_pi_health.Snapshot.{
  Issue, NetworkInterface, Memory, Load, issue_unsupported, issue_permission_denied,
  issue_temporarily_unavailable, path_load, path_throttling, path_throttled, path_undervoltage,
  path_undervolted, path_network,
}
use joy_pi_health.Snapshot.Document.{interface_prefix}
use joy_pi_health.Observe.Outcome.{Outcome, IsSound, reason_unsupported, reason_permission_denied}
use joy_pi_health.Observe.Observations.{
  LoadObservation, MemoryObservation, FirmwareHealth, InterfaceObservation, NetworkObservation,
  is_present,
}
use joy_pi_health.Observe.Coordinator.Finalize.{
  append_unavailable_issue, set_value, set_memory, set_load, firmware_issues, set_firmware,
  set_interface, set_interfaces, set_network,
}

unfoldable pub code_of : ℕ → Text
code_of r =
    if r == reason_unsupported
    then issue_unsupported
    else if r == reason_permission_denied
    then issue_permission_denied
    else issue_temporarily_unavailable

unfoldable pub message_of : ℕ → Text
message_of r =
    if r == reason_unsupported
    then bytes "The metric is unsupported on this platform."
    else if r == reason_permission_denied
    then bytes "The metric is not accessible to the service account."
    else bytes "The metric is temporarily unavailable."

abbrev pub reason_issue : Text → ℕ → Issue
reason_issue path r = record { path = path; code = code_of r; message = message_of r }

-- The value of an outcome, and the issues of one that has none.
abbrev pub opt : {A : Type 0} → Outcome A → Option A
opt v = if is_present v then some v.value else none

abbrev pub missing : {A : Type 0} → Outcome A → Text → List Issue
missing v path = if is_present v then [] else reason_issue path v.reason ∷ []

pub append_lem :
    (issues : List Issue) (path : Text) (r : ℕ)
    → 1 ≤ r
    → r ≤ 3
    → append_unavailable_issue issues path r ≡ ok (issues ++ reason_issue path r ∷ [])
unfolding append_unavailable_issue code_of message_of
append_lem issues path r lo hi = ground arith

append-nil' : (is : List Issue) → is ≡ is ++ []
append-nil' [] = refl
append-nil' (i ∷ is) = ap (λ t. i ∷ t) (append-nil' is)

pub set_value_lem :
    {A : Type 0} (v : Outcome A) (path : Text) (is : List Issue)
    → IsSound v
    → set_value v path is ≡ ok (opt v, is ++ missing v path)
unfolding set_value
set_value_lem v path is h = ground (arith, append_lem is path v.reason, append-nil' is)

unfoldable pub memory_of : Outcome MemoryObservation → Memory
memory_of v = record {
  total_bytes = if is_present v then some v.value.total_bytes else none;
  available_bytes = if is_present v then some v.value.available_bytes else none;
  used_bytes = if is_present v then some v.value.used_bytes else none;
}

pub set_memory_lem :
    (v : Outcome MemoryObservation) (path : Text) (is : List Issue)
    → IsSound v
    → set_memory v path is ≡ ok (memory_of v, is ++ missing v path)
unfolding set_memory memory_of
set_memory_lem v path is h = ground (arith, append_lem is path v.reason, append-nil' is)

unfoldable pub load_of : {F : Type 0} → Outcome (LoadObservation F) → Load F
load_of v = record {
  one_minute = if is_present v then some v.value.one_minute else none;
  five_minutes = if is_present v then some v.value.five_minutes else none;
  fifteen_minutes = if is_present v then some v.value.fifteen_minutes else none;
}

pub set_load_lem :
    {F : Type 0} (v : Outcome (LoadObservation F)) (is : List Issue)
    → IsSound v
    → set_load v is ≡ ok (load_of v, is ++ missing v path_load)
unfolding set_load load_of
set_load_lem v is h = ground (arith, append_lem is path_load v.reason, append-nil' is)

-- The four issues of the firmware, one after the other.
unfoldable pub missing_firmware : Outcome FirmwareHealth → List Issue → List Issue
missing_firmware v is =
    if is_present v
    then is
    else (((is ++ reason_issue path_throttling v.reason ∷ [])
          ++ reason_issue path_throttled v.reason ∷ [])
        ++ reason_issue path_undervoltage v.reason ∷ [])
      ++ reason_issue path_undervolted v.reason ∷ []

firmware_issues_lem :
    (is : List Issue) (r : ℕ)
    → 1 ≤ r
    → r ≤ 3
    → firmware_issues is r
      ≡ ok (
          (((is ++ reason_issue path_throttling r ∷ []) ++ reason_issue path_throttled r ∷ [])
            ++ reason_issue path_undervoltage r ∷ [])
          ++ reason_issue path_undervolted r ∷ [])
unfolding firmware_issues
firmware_issues_lem is r lo hi = rw (
  append_lem is path_throttling r lo hi,
  append_lem _ path_throttled r lo hi,
  append_lem _ path_undervoltage r lo hi,
  append_lem _ path_undervolted r lo hi,
)

pub set_firmware_lem :
    (v : Outcome FirmwareHealth) (is : List Issue)
    → IsSound v
    → set_firmware v is ≡ ok (opt v, missing_firmware v is)
unfolding set_firmware missing_firmware
set_firmware_lem v is h = ground (arith, firmware_issues_lem is v.reason)

unfoldable pub interface_of : InterfaceObservation → NetworkInterface
interface_of v = record {
  name = v.name;
  state = opt v.state;
  rx_bytes = opt v.rx_bytes;
  tx_bytes = opt v.tx_bytes;
}

unfoldable pub interface_issues : ℕ → InterfaceObservation → List Issue → List Issue
interface_issues index v is =
    ((is ++ missing v.state (interface_prefix index ++ bytes "state"))
      ++ missing v.rx_bytes (interface_prefix index ++ bytes "rx_bytes"))
    ++ missing v.tx_bytes (interface_prefix index ++ bytes "tx_bytes")

abbrev pub SoundInterface : InterfaceObservation → Type 0
SoundInterface v = IsSound v.state × IsSound v.rx_bytes × IsSound v.tx_bytes

set_interface_lem :
    (index : ℕ) (v : InterfaceObservation) (is : List Issue)
    → SoundInterface v
    → set_interface index v is ≡ ok (interface_of v, interface_issues index v is)
unfolding set_interface interface_of interface_issues
set_interface_lem index v is (s, r, t) = rw (
  set_value_lem v.state (interface_prefix index ++ bytes "state") is s,
  set_value_lem v.rx_bytes (interface_prefix index ++ bytes "rx_bytes") _ r,
  set_value_lem v.tx_bytes (interface_prefix index ++ bytes "tx_bytes") _ t,
)

unfoldable pub interfaces_of : List InterfaceObservation → List NetworkInterface
interfaces_of [] = []
interfaces_of (v ∷ vs) = interface_of v ∷ interfaces_of vs

unfoldable pub interfaces_issues : ℕ → List InterfaceObservation → List Issue → List Issue
interfaces_issues index [] is = is
interfaces_issues index (v ∷ vs) is = interfaces_issues (suc index) vs (interface_issues index v is)

set_interfaces_lem :
    (index : ℕ) (vs : List InterfaceObservation) (is : List Issue)
    → All SoundInterface vs
    → set_interfaces index vs is ≡ ok (interfaces_of vs, interfaces_issues index vs is)
unfolding set_interfaces interfaces_of interfaces_issues
set_interfaces_lem index [] is h = refl
set_interfaces_lem index (v ∷ vs) is (h, hs) = rw (
  set_interface_lem index v is h,
  set_interfaces_lem (suc index) vs (interface_issues index v is) hs,
)

pub length-interfaces_of : (vs : List InterfaceObservation) → length (interfaces_of vs) ≡ length vs
unfolding interfaces_of
length-interfaces_of [] = refl
length-interfaces_of (v ∷ vs) = ap suc (length-interfaces_of vs)

unfoldable pub network_of : Outcome NetworkObservation → Option (List NetworkInterface)
network_of v = if is_present v then some (interfaces_of v.value.interfaces) else none

unfoldable pub network_issues : Outcome NetworkObservation → List Issue → List Issue
network_issues v is =
    if is_present v
    then interfaces_issues 0 v.value.interfaces is
    else is ++ reason_issue path_network v.reason ∷ []

-- A sound outcome of the network, with sound interfaces where it is present.
abbrev pub SoundNetwork : Outcome NetworkObservation → Type 0
SoundNetwork v = IsSound v × (is_present v ≡ true → All SoundInterface v.value.interfaces)

pub set_network_lem :
    (v : Outcome NetworkObservation) (is : List Issue)
    → SoundNetwork v
    → set_network v is ≡ ok (network_of v, network_issues v is)
unfolding set_network network_of network_issues
set_network_lem v is (h, each) = elim (Bool-cases (is_present v)) [
  | inl p ↦ rw (p, set_interfaces_lem 0 v.value.interfaces is (each p))
  | inr p ↦ rw (p, append_lem is path_network v.reason (ground arith) (ground arith))
]
