-- ===== src/Observe/Coordinator/Finalize/Encodes.antt =====
-- The coordinator and the snapshot package agree: the document of a checked cycle is encoded, or
-- has nothing useful in it, or is too long.
use joy_pi_health.Prelude.{
  ℕ, ◌≡◌, refl, ◌∙◌, ◌⊎◌, inl, inr, Bool, true, false, ◌||◌, none, some, List, [], ◌∷◌, ◌++◌, arith,
  ◌==◌, if◌then◌else◌, Bool-cases, is_some,
}
use joy_pi_health.Result.{ok, err}
use joy_pi_health.Text.{Text, text_eq}
use joy_pi_health.Errors.{sentinel, no_useful_snapshot}
use joy_pi_health.Numbers.{Float64, Calendar}
use joy_pi_health.Snapshot.{
  Issue, path_uptime, path_cpu_count, path_load, path_memory, path_root, path_temperature,
  path_network, path_utilization,
}
use joy_pi_health.Snapshot.Validate.{is_firmware_path}
use joy_pi_health.Snapshot.Document.{
  Tally, count_or_issue, build_network, count_first, wire_document, build_document,
}
use joy_pi_health.Snapshot.Json.{marshal, all_finite, finite, json_document}
use joy_pi_health.Snapshot.Encode.{encode, encode_checked, within_limit}
use joy_pi_health.Observe.Outcome.{Outcome}
use joy_pi_health.Observe.Observations.{
  CycleObservations, FirmwareHealth, NetworkObservation, is_present, validate_network, bad_load,
}
use joy_pi_health.Observe.Coordinator.Finalize.{flag}
use joy_pi_health.Observe.Coordinator.Finalize.Total.{
  opt, memory_of, load_of, missing_firmware, network_of, network_issues, interfaces_of,
}
use joy_pi_health.Observe.Coordinator.Finalize.Draft.{draft_of, first_issues, all_issues}
use joy_pi_health.Observe.Coordinator.Finalize.Agreement.{
  Agree, Agree-append, missing-Agree, missing_group-Agree, firmware-Agree, interfaces-Agree,
  count_interfaces, is_some-opt,
}
use joy_pi_health.Observe.Coordinator.Finalize.Accepted.{
  validate_issues_of_Agree, validate_firmware_of_Agree,
}
use joy_pi_health.Observe.Coordinator.Finalize.Checked.{
  CheckedCycle, IsStamp, check_snapshot_lem, network_present, load_parts, pi_parts,
}

is_some-flag :
    (g : FirmwareHealth → Bool) (v : Outcome FirmwareHealth)
    → is_some (flag g (opt v)) ≡ is_present v
is_some-flag g v = ground arith

is_some-present : {A : Type 0} (b : Bool) (x : A) → is_some (if b then some x else none) ≡ b
is_some-present true x = refl
is_some-present false x = refl

network_absent :
    (v : Outcome NetworkObservation) (t : Tally)
    → is_present v ≡ false
    → build_network (network_of v) t ≡ ok (record t { expected = t.expected ++ path_network ∷ [] })
unfolding build_network network_of
network_absent v t p = rw p

firmware_network : is_firmware_path path_network ≡ false
unfolding is_firmware_path text_eq
firmware_network = refl

-- The network's issues, where it is counted.
network-Agree :
    (r : ℕ) (v : Outcome NetworkObservation) (is : List Issue) (t : Tally)
    → validate_network v ≡ none
    → Agree r is t.expected
    → (u : Tally) × (build_network (network_of v) t ≡ ok u)
      × Agree r (network_issues v is) u.expected
unfolding network_issues
network-Agree r v is t h a = elim (Bool-cases (is_present v)) [
  | inl p ↦ (
    count_interfaces 0 (interfaces_of v.value.interfaces) t,
    network_present v t h p,
    rw p (interfaces-Agree r 0 v.value.interfaces is t a),
  )
  | inr p ↦ (
    record t { expected = t.expected ++ path_network ∷ [] },
    network_absent v t p,
    rw p (Agree-append r v.reason path_network is t.expected (λ k. cc (firmware_network, k)) a),
  )
]

module _ {F : Type 0} ⦃f : Float64 F⦄ where
  finite_opt :
      (b : Bool) (x : F)
      → (b ≡ true → (f.is_nan x || f.is_inf x) ≡ false)
      → finite (if b then some x else none) ≡ true
  unfolding finite
  finite_opt b x h = ground arith

  not_bad : (x : F) → bad_load x ≡ false → (f.is_nan x || f.is_inf x) ≡ false
  not_bad x h = ground arith

module _ {F T : Type 0} ⦃f : Float64 F⦄ ⦃c : Calendar T⦄ where
  first-Agree :
      (at : T) (o : CycleObservations F)
      → Agree o.raspberry_pi.firmware.reason
          (missing_firmware o.raspberry_pi.firmware (first_issues o))
          (count_first (draft_of at o)).expected
  unfolding count_first draft_of first_issues load_of memory_of is_firmware_path text_eq
  first-Agree at o =
      rw
        (
          is_some-flag (λ h. h.thermal_throttling_active) o.raspberry_pi.firmware,
          is_some-flag (λ h. h.thermal_throttling_occurred_since_boot) o.raspberry_pi.firmware,
          is_some-flag (λ h. h.undervoltage_active) o.raspberry_pi.firmware,
          is_some-flag (λ h. h.undervoltage_occurred_since_boot) o.raspberry_pi.firmware,
        )
        (firmware-Agree o.raspberry_pi.firmware (is_present o.raspberry_pi.firmware) _ _ refl (
          missing-Agree _ o.raspberry_pi.temperature _ path_temperature _ _ refl
            (is_some-opt o.raspberry_pi.temperature)
            (missing_group-Agree _ o.root _ 3 path_root _ _ refl (is_some-present _ _) (
              missing_group-Agree _ o.memory _ 3 path_memory _ _ refl (is_some-present _ _) (
                missing_group-Agree _ o.cpu_load.load _ 3 path_load _ _ refl (is_some-present _ _) (
                  missing-Agree _ o.cpu_load.logical_cpu_count _ path_cpu_count _ _ refl
                    (is_some-opt o.cpu_load.logical_cpu_count)
                    (missing-Agree _ o.host.uptime _ path_uptime []
                      (record { usable = 0; expected = [] }) refl (is_some-opt o.host.uptime)
                      (record { same = refl; good = tt }))))))))

  build-Agree :
      (at : T) (o : CycleObservations F)
      → ((x : F) → f.less f.infinity x ≡ false)
      → IsStamp at
      → CheckedCycle o
      → (u : Tally) × (build_document (draft_of at o) ≡ ok (wire_document (draft_of at o), u))
        × Agree o.raspberry_pi.firmware.reason (all_issues o) u.expected
  unfolding build_document all_issues is_firmware_path text_eq draft_of
  build-Agree at o top stamp k =
      let (t, built, a) =
        network-Agree o.raspberry_pi.firmware.reason o.network _ (count_first (draft_of at o))
          k.network (first-Agree at o) in
      (
        count_or_issue (is_some (opt o.cpu_utilization)) path_utilization t,
        rw (check_snapshot_lem at o top stamp k, built),
        missing-Agree _ o.cpu_utilization _ path_utilization _ t refl
            (is_some-opt o.cpu_utilization) a,
      )

  document_finite :
      (at : T) (o : CycleObservations F)
      → CheckedCycle o
      → all_finite (record (wire_document (draft_of at o)) { issues = all_issues o }) ≡ true
  unfolding all_finite wire_document draft_of load_of
  document_finite at o k =
      let (_, _, _, l) = load_parts o.cpu_load k.cpu_load in
      let (_, _, t) = pi_parts o.raspberry_pi k.raspberry_pi in
      rw (
        finite_opt (is_present o.cpu_utilization) o.cpu_utilization.value (λ p. (k.percentage p).0),
        finite_opt (is_present o.cpu_load.load) o.cpu_load.load.value.one_minute
            (λ p. not_bad o.cpu_load.load.value.one_minute (l p).0),
        finite_opt (is_present o.cpu_load.load) o.cpu_load.load.value.five_minutes
            (λ p. not_bad o.cpu_load.load.value.five_minutes (l p).1),
        finite_opt (is_present o.cpu_load.load) o.cpu_load.load.value.fifteen_minutes
            (λ p. not_bad o.cpu_load.load.value.fifteen_minutes (l p).2),
        finite_opt (is_present o.raspberry_pi.temperature) o.raspberry_pi.temperature.value t,
      )

  -- The JSON text of a cycle's document.
  pub cycle_body : T → CycleObservations F → Text
  cycle_body at o = json_document (record (wire_document (draft_of at o)) { issues = all_issues o })

  -- A cycle whose observations have passed the coordinator's checks is never refused by the
  -- snapshot package: its document is encoded into its JSON text, has nothing useful in it, or is
  -- longer than the limit. (No float is above infinity.)
  pub encode-draft_of :
      (at : T) (o : CycleObservations F)
      → ((x : F) → f.less f.infinity x ≡ false)
      → IsStamp at
      → CheckedCycle o
      → (encode (draft_of at o) ≡ err (sentinel no_useful_snapshot))
        ⊎ (encode (draft_of at o) ≡ within_limit (cycle_body at o))
  unfolding cycle_body marshal draft_of
  encode-draft_of at o top stamp k =
      let (u, built, a) = build-Agree at o top stamp k in
      let same =
        encode_checked (draft_of at o) (wire_document (draft_of at o)) u built
          (validate_issues_of_Agree _ (all_issues o) u.expected a)
          (validate_firmware_of_Agree _ (draft_of at o).raspberry_pi.thermal_throttling_active
            (all_issues o) u.expected a) in
      elim (Bool-cases (u.usable == 0)) [
        | inl empty ↦ inl (same ∙ rw empty)
        | inr useful ↦ inr (same ∙ rw (useful, document_finite at o k))
      ]
