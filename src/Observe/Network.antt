-- ===== src/Observe/Network.antt =====
-- internal/observe/network.go, with `Link` of internal/platform/platform.go: which network links are
-- externally capable; Collect has what is observed of them. An `int32` is its bit pattern below 2^32.
pub mod Collect
pub mod External
pub mod Fuel
pub mod Names
pub mod Sound
pub mod Reports
use joy_pi_health.Prelude.{
  ℕ, zero, suc, ◌+◌, ◌/◌, ◌%◌, ◌^◌, Bool, true, false, not, ◌&&◌, ◌||◌, Option, none, some, List,
  [], ◌∷◌, ◌++◌, ltb, leb, ◌==◌, if◌then◌else◌, length, is_some,
}
use joy_pi_health.Result.{Result, ok, err, ◌>>=◌}
use joy_pi_health.Text.{Text, bytes, text_eq, text_lt, has_prefix, contains_byte, is_empty}
use joy_pi_health.Text.Utf8.{valid_utf8}
use joy_pi_health.Errors.{Error, plain, sentinel, panicked, too_many_links, is}
use joy_pi_health.Snapshot.{maximum_interfaces}
use joy_pi_health.Observe.Outcome.{
  Outcome, Zero, nat_zero, text_zero, present, unavailable, acquisition_failure, reason_unsupported,
  reason_temporarily_unavailable,
}
use joy_pi_health.Observe.Observations.{InterfaceObservation, NetworkObservation}
use joy_pi_health.Observe.Coordinator.Cycle.{network_zero}

pub record Link : Type 0 where
  pub index : ℕ
  pub name : Text
  pub hardware_type : ℕ
  pub flags : ℕ
  pub kind : Text
  pub link_index : Option ℕ
  pub master_index : Option ℕ
  pub oper_state : Option ℕ
  pub rx_bytes : Option ℕ
  pub tx_bytes : Option ℕ
  pub device_path : Text

abbrev pub ethernet_hardware_type : ℕ
ethernet_hardware_type = 1

-- `value <= 0` of an `int32`.
abbrev not_positive : ℕ → Bool
not_positive pattern = (pattern == 0) || leb (2 ^ 31) pattern

-- `link.Flags&loopbackFlag == 0`, whose flag is 8.
abbrev pub not_loopback : Link → Bool
not_loopback l = (l.flags / 8) % 2 == 0

unfoldable pub valid_device_path : Text → Bool
valid_device_path path =
    has_prefix path (bytes "/sys/devices/") && not (text_eq path (bytes "/sys/devices/"))

unfoldable pub physical_device_path : Text → Bool
physical_device_path path = not (has_prefix path (bytes "/sys/devices/virtual/"))

-- `topology.links[index]`.
unfoldable pub find_link : ℕ → List Link → Option Link
find_link i [] = none
find_link i (l ∷ ls) = if l.index == i then some l else find_link i ls

unfoldable pub is_named : Text → List Link → Bool
is_named n [] = false
is_named n (l ∷ ls) = text_eq l.name n || is_named n ls

-- One link against those before it.
unfoldable pub check_link : List Link → Link → Result Error (Unit {0})
check_link earlier l =
    if not_positive l.index || is_empty l.name || contains_byte 0 l.name || not (valid_utf8 l.name)
    then err (plain (bytes "interface identity is invalid"))
    else if is_some (find_link l.index earlier)
    then err (plain (bytes "interface index is duplicated"))
    else if is_named l.name earlier
    then err (plain (bytes "interface name is duplicated"))
    else if not (valid_device_path l.device_path)
    then err (plain (bytes "interface has an invalid device path"))
    else ok tt

unfoldable pub check_links : List Link → List Link → Result Error (Unit {0})
check_links earlier [] = ok tt
check_links earlier (l ∷ ls) = check_link earlier l >>= λ _. check_links (l ∷ earlier) ls

abbrev pub is_vlan : Link → Bool
is_vlan l = text_eq l.kind (bytes "vlan")

abbrev pub groups_members : Link → Bool
groups_members l = text_eq l.kind (bytes "bond") || text_eq l.kind (bytes "bridge")

abbrev is_known : List Link → Option ℕ → Bool
is_known links none = false
is_known links (some i) = is_some (find_link i links)

-- The master and the lower link of one link.
unfoldable pub check_references : List Link → Link → Result Error (Unit {0})
check_references links l =
    if is_some l.master_index && not (is_known links l.master_index)
    then err (plain (bytes "interface refers to an unknown master"))
    else if is_vlan l && not (is_some l.link_index)
    then err (plain (bytes "VLAN interface lacks its lower link"))
    else if is_vlan l && not (is_known links l.link_index)
    then err (plain (bytes "VLAN interface refers to an unknown lower link"))
    else ok tt

unfoldable pub check_all_references : List Link → List Link → Result Error (Unit {0})
check_all_references links [] = ok tt
check_all_references links (l ∷ ls) =
    check_references links l >>= λ _. check_all_references links ls

-- `newLinkTopology`. Its maps of links and members are read off the links.
unfoldable pub new_link_topology : List Link → Result Error (Unit {0})
unfolding check_links check_all_references
new_link_topology links = check_links [] links >>= λ _. check_all_references links links

abbrev is_member : ℕ → Option ℕ → Bool
is_member master none = false
is_member master (some i) = i == master

-- `topology.members[index]`.
unfoldable pub members_of : ℕ → List Link → List ℕ
members_of master [] = []
members_of master (l ∷ ls) =
    let rest = members_of master ls in
    if is_member master l.master_index then l.index ∷ rest else rest

-- `no_fuel` is no error of the program.
pub data Fault : Type 0 where
  no_fuel : Fault
  failure : Error → Fault

abbrev pub Resolved : Type 0
Resolved = List (ℕ × Bool)

abbrev pub find_resolved : ℕ → Resolved → Option Bool
find_resolved i [] = none
find_resolved i ((j, r) ∷ m) = if j == i then some r else find_resolved i m

abbrev pub is_visiting : ℕ → List ℕ → Bool
is_visiting i [] = false
is_visiting i (j ∷ js) = (j == i) || is_visiting i js

abbrev pub Search : Type 0
Search = Resolved → ℕ → Result Fault (Bool × Resolved)

-- The loop over the members, up to the first that is external.
unfoldable pub any_member : Search → List ℕ → Resolved → Result Fault (Bool × Resolved)
any_member recur [] m = ok (false, m)
any_member recur (i ∷ is) m =
    recur m i >>= λ (r, m1). elim r [ true ↦ ok (true, m1) | false ↦ any_member recur is m1 ]

-- The body of `externallyCapable` once the link is found.
unfoldable pub resolve_link : Search → List Link → Link → Resolved → Result Fault (Bool × Resolved)
resolve_link recur links l m =
    if not (not_loopback l && (l.hardware_type == ethernet_hardware_type))
    then ok (false, m)
    else if physical_device_path l.device_path
    then ok (true, m)
    else if is_vlan l
    then elim l.link_index [
      | none ↦ err (failure (panicked (bytes "nil pointer dereference")))
      | some lower ↦ recur m lower
    ]
    else if groups_members l
    then any_member recur (members_of l.index links) m
    else ok (false, m)

-- `externallyCapable` on fuel. The indexes that are being visited form the stack of the calls.
unfoldable pub externally_capable : ℕ → List Link → List ℕ → Search
externally_capable zero links visiting m i = err no_fuel
externally_capable (suc fuel) links visiting m i =
    let recur = externally_capable fuel links (i ∷ visiting) in
    elim (find_resolved i m) [
      | some r ↦ ok (r, m)
      | none ↦ elim (is_visiting i visiting) [
        | true ↦ err (failure (plain (bytes "interface topology contains a cycle")))
        | false ↦ elim (find_link i links) [
          | none ↦ err (failure (plain (bytes "interface topology refers to an unknown link")))
          | some l ↦ resolve_link recur links l m >>= λ (r, m1). ok (r, (i, r) ∷ m1)
        ]
      ]
    ]

-- One more than the number of links, none of which is visited twice at a time.
abbrev pub enough_fuel : List Link → ℕ
enough_fuel links = suc (length links)
