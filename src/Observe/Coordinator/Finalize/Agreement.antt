-- ===== src/Observe/Coordinator/Finalize/Agreement.antt =====
-- The issues that the coordinator appends are those that `buildDocument` expects, in its order.
use mathlib.Core.List.{map-append}
use joy_pi_health.Prelude.{
  ℕ, suc, ◌+◌, ◌≡◌, refl, ap, ◌∙◌, inl, inr, Bool, true, false, List, [], ◌∷◌, ◌++◌, map, arith,
  All, All-append, Bool-cases, is_some,
}
use joy_pi_health.Text.{Text, bytes, text_eq, is_empty}
use joy_pi_health.Text.Utf8.{valid_utf8}
use joy_pi_health.Snapshot.{
  Issue, NetworkInterface, valid_issue_code, path_throttling, path_throttled, path_undervoltage,
  path_undervolted,
}
use joy_pi_health.Snapshot.Validate.{is_firmware_path}
use joy_pi_health.Snapshot.Document.{
  Tally, count_or_issue, count_group_or_issue, count_interface, interface_prefix,
}
use joy_pi_health.Observe.Outcome.{Outcome}
use joy_pi_health.Observe.Observations.{FirmwareHealth, InterfaceObservation, is_present}
use joy_pi_health.Observe.Coordinator.Finalize.Total.{
  code_of, message_of, reason_issue, opt, missing, missing_firmware, interface_of, interface_issues,
  interfaces_of, interfaces_issues,
}

-- An issue that `validateIssues` takes, and one that agrees with the firmware's reason `r` where
-- it belongs to the firmware.
abbrev pub IsGood : ℕ → Issue → Type 0
IsGood r i =
    (valid_issue_code i.code ≡ true)
    × (is_empty i.message ≡ false)
    × (valid_utf8 i.message ≡ true)
    × (is_firmware_path i.path ≡ true → (i.code ≡ code_of r) × (i.message ≡ message_of r))

abbrev pub paths : List Issue → List Text
paths is = map (λ i. i.path) is

-- So far the issues are the expected ones.
pub record Agree (r : ℕ) (is : List Issue) (expected : List Text) : Type 0 where
  pub same : paths is ≡ expected
  pub good : All (IsGood r) is

code_of_valid : (r : ℕ) → valid_issue_code (code_of r) ≡ true
unfolding valid_issue_code code_of text_eq
code_of_valid r = ground arith

message_of_valid : (r : ℕ) → (is_empty (message_of r) ≡ false) × (valid_utf8 (message_of r) ≡ true)
unfolding message_of valid_utf8
message_of_valid r = ground arith

reason_issue-IsGood :
    (r q : ℕ) (path : Text)
    → (is_firmware_path path ≡ true → q ≡ r)
    → IsGood r (reason_issue path q)
reason_issue-IsGood r q path h = (
  code_of_valid q,
  (message_of_valid q).0,
  (message_of_valid q).1,
  λ p. (ap code_of (h p), ap message_of (h p)),
)

pub Agree-append :
    (r q : ℕ) (path : Text) (is : List Issue) (expected : List Text)
    → (is_firmware_path path ≡ true → q ≡ r)
    → Agree r is expected
    → Agree r (is ++ reason_issue path q ∷ []) (expected ++ path ∷ [])
Agree-append r q path is expected h a = record {
  same = map-append (λ i. i.path) is _ ∙ ap (λ t. t ++ path ∷ []) a.same;
  good = All-append (IsGood r) is _ a.good (reason_issue-IsGood r q path h, tt);
}

append-nil' : (is : List Issue) → is ++ [] ≡ is
append-nil' [] = refl
append-nil' (i ∷ is) = ap (λ t. i ∷ t) (append-nil' is)

-- One metric: the setter's issue is the one that the count expects.
pub missing-Agree :
    {A : Type 0} (r : ℕ) (v : Outcome A) (b : Bool) (path : Text) (is : List Issue) (t : Tally)
    → is_firmware_path path ≡ false
    → b ≡ is_present v
    → Agree r is t.expected
    → Agree r (is ++ missing v path) (count_or_issue b path t).expected
unfolding count_or_issue
missing-Agree r v b path is t h e a = elim (Bool-cases (is_present v)) [
  | inl p ↦ rw (e, p, append-nil' is) a
  | inr p ↦ rw (e, p) (Agree-append r v.reason path is t.expected (λ k. cc (h, k)) a)
]

pub missing_group-Agree :
    {A : Type 0} (r : ℕ) (v : Outcome A) (b : Bool) (n : ℕ) (path : Text) (is : List Issue)
    (t : Tally)
    → is_firmware_path path ≡ false
    → b ≡ is_present v
    → Agree r is t.expected
    → Agree r (is ++ missing v path) (count_group_or_issue b n path t).expected
unfolding count_group_or_issue
missing_group-Agree r v b n path is t h e a = elim (Bool-cases (is_present v)) [
  | inl p ↦ rw (e, p, append-nil' is) a
  | inr p ↦ rw (e, p) (Agree-append r v.reason path is t.expected (λ k. cc (h, k)) a)
]

-- The firmware's four issues.
pub firmware-Agree :
    (v : Outcome FirmwareHealth) (b : Bool) (is : List Issue) (t : Tally)
    → b ≡ is_present v
    → Agree v.reason is t.expected
    → Agree v.reason
        (missing_firmware v is)
        (count_or_issue b path_undervolted (
          count_or_issue b path_undervoltage
            (count_or_issue b path_throttled (count_or_issue b path_throttling t)))).expected
unfolding count_or_issue missing_firmware
firmware-Agree v b is t e a = elim (Bool-cases (is_present v)) [
  | inl p ↦ rw (e, p) a
  | inr p ↦
      rw (e, p)
        (Agree-append v.reason v.reason path_undervolted _ _ (λ _. refl)
          (Agree-append v.reason v.reason path_undervoltage _ _ (λ _. refl)
            (Agree-append v.reason v.reason path_throttled _ _ (λ _. refl)
              (Agree-append v.reason v.reason path_throttling is t.expected (λ _. refl) a))))
]

-- The paths of the interfaces are not the firmware's.
interface_path : (t : Text) → is_firmware_path (bytes "/network/interfaces/" ++ t) ≡ false
unfolding is_firmware_path text_eq
interface_path t = refl

append_assoc_path : (index : ℕ) (t : Text) → is_firmware_path (interface_prefix index ++ t) ≡ false
unfolding is_firmware_path text_eq
append_assoc_path index t = refl

pub is_some-opt : {A : Type 0} (v : Outcome A) → is_some (opt v) ≡ is_present v
is_some-opt v = ground arith

interface-Agree :
    (r index : ℕ) (v : InterfaceObservation) (is : List Issue) (t : Tally)
    → Agree r is t.expected
    → Agree r (interface_issues index v is) (count_interface index (interface_of v) t).expected
unfolding interface_issues count_interface interface_of
interface-Agree r index v is t a =
    missing-Agree r v.tx_bytes _ _ _ _ (append_assoc_path index (bytes "tx_bytes"))
      (is_some-opt v.tx_bytes)
      (missing-Agree r v.rx_bytes _ _ _ _ (append_assoc_path index (bytes "rx_bytes"))
        (is_some-opt v.rx_bytes)
        (missing-Agree r v.state _ _ is (record t { usable = t.usable + 1 })
          (append_assoc_path index (bytes "state")) (is_some-opt v.state) a))

-- The issues of all interfaces, counted one after the other.
unfoldable pub count_interfaces : ℕ → List NetworkInterface → Tally → Tally
count_interfaces index [] t = t
count_interfaces index (n ∷ ns) t = count_interfaces (suc index) ns (count_interface index n t)

pub interfaces-Agree :
    (r index : ℕ) (vs : List InterfaceObservation) (is : List Issue) (t : Tally)
    → Agree r is t.expected
    → Agree r (interfaces_issues index vs is) (count_interfaces index (interfaces_of vs) t).expected
unfolding interfaces_issues interfaces_of count_interfaces
interfaces-Agree r index [] is t a = a
interfaces-Agree r index (v ∷ vs) is t a =
    interfaces-Agree r (suc index) vs (interface_issues index v is)
      (count_interface index (interface_of v) t) (interface-Agree r index v is t a)
