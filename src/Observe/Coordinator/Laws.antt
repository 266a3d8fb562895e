-- ===== src/Observe/Coordinator/Laws.antt =====
-- What a cycle promises: only checked observations are published, and the snapshot package takes
-- every document that is made of them.
use joy_pi_health.Prelude.{
  ℕ, ◌+◌, ◌-◌, ◌≤◌, ◌≡◌, ◌≢◌, refl, sym, subst, ◌∙◌, ◌⊎◌, inl, inr, ◌↔◌, true, false, Option, none,
  List, [], ◌∷◌, arith,
}
use joy_pi_health.Result.{Result, ok, err, ◌>>=◌, >>=-eq-ok, ok-injective}
use joy_pi_health.Text.{Text, text_eq_iff, is_empty}
use joy_pi_health.Errors.{Error, sentinel, no_useful_snapshot, is}
use joy_pi_health.Numbers.{Float64, Calendar}
use joy_pi_health.Snapshot.{Snapshot}
use joy_pi_health.Snapshot.Encode.{Encoded, encode, within_limit}
use joy_pi_health.Observe.Outcome.{
  Outcome, unavailable, defect, present, validate_outcome, validate_outcome_iff,
}
use joy_pi_health.Observe.Observations.{
  CycleObservations, CpuLoadObservation, is_present, validate_host, validate_cpu_load,
  validate_memory_outcome, validate_raspberry_pi, validate_network,
}
use joy_pi_health.Observe.Coordinator.Finalize.Draft.{draft_of, draft_lem, all_issues}
use joy_pi_health.Observe.Coordinator.Finalize.Checked.{
  IsPercentage, CheckedCycle, IsStamp, SoundCycle-of_Checked,
}
use joy_pi_health.Observe.Coordinator.Finalize.Encodes.{encode-draft_of, cycle_body}
use joy_pi_health.Observe.Coordinator.Cycle.{
  Domain, Answers, CpuPublication, DegradationEvent, run_domain, always, events_of, issue_events,
  reported, memory_text, filesystem_text, maximum_publication_age, collection_deadline, conclude,
  unavailable_cycle, copy_cpu, inconsistent, same_topology, finalize, observe_all, memory_zero,
  firmware_zero, network_zero,
}

-- A domain's result has passed its check.
run_domain-checked :
    {A : Type 0} (validate : A → Option Error) (kept : A) (d : Domain A) (v : A)
    → validate kept ≡ none
    → run_domain validate kept d ≡ ok v
    → validate v ≡ none
unfolding run_domain
run_domain-checked validate kept d v k h = ground arith

start_checked :
    (F : Type 0) ⦃f : Float64 F⦄ (e : Error)
    → let s : CycleObservations F = unavailable_cycle e in
      (validate_host s.host ≡ none)
      × (validate_cpu_load s.cpu_load ≡ none)
      × (validate_memory_outcome memory_text s.memory ≡ none)
      × (validate_memory_outcome filesystem_text s.root ≡ none)
      × (validate_raspberry_pi s.raspberry_pi ≡ none)
      × (validate_network s.network ≡ none)
unfolding unavailable_cycle unavailable validate_host validate_cpu_load validate_memory_outcome
    validate_raspberry_pi validate_network validate_outcome
start_checked F e = (refl, refl, refl, refl, refl, refl)

is_empty_iff : (t : Text) → (is_empty t ≡ false) ↔ (t ≢ [])
is_empty_iff [] = (λ h. cc, λ h. absurd (h refl))
is_empty_iff (b ∷ t) = (λ h p. cc, λ h. refl)

module _ {F : Type 0} ⦃f : Float64 F⦄ where
  -- A publication of the utilization that a cycle can use at a time: present and with no failure, of a number between 0 and 100,
  -- of at least one processor, not from the future, at most 1.25 seconds old, and of the processors that
  -- the cycle has observed.
  pub record IsUsable (t : CpuLoadObservation F) (p : Outcome (CpuPublication F)) (now : ℕ) (x : F)
      : Type 0 where
    pub published : p.state ≡ 1
    pub clean : (p.reason ≡ 0) × (p.cause ≡ none)
    pub same : p.value.utilization_percent ≡ x
    pub number : (f.is_nan x ≡ false) × (f.is_inf x ≡ false)
    pub in_range : (f.less x f.zero_float ≡ false) × (f.less f.hundred x ≡ false)
    pub counted : p.value.topology.count ≢ 0
    pub signed : p.value.topology.signature ≢ []
    pub past : p.value.sampled_at ≤ now
    pub recent : now ≤ p.value.sampled_at + 1_250_000_000
    pub observed : t.logical_cpu_count.state ≡ 1
    pub same_count : t.logical_cpu_count.value ≡ p.value.topology.count
    pub same_signature : t.topology_signature ≡ p.value.topology.signature

  -- The same by the tests of `copyCPU`.
  copy_cpu_tests :
      (t : CpuLoadObservation F) (p : Outcome (CpuPublication F)) (now : ℕ) (x : F)
      → (copy_cpu t p now ≡ present x) ↔ (
          (validate_outcome p ≡ none)
          × (is_present p ≡ true)
          × (inconsistent p.value ≡ false)
          × (p.value.sampled_at ≤ now)
          × (now - p.value.sampled_at ≤ maximum_publication_age)
          × (same_topology t p.value ≡ true)
          × (p.value.utilization_percent ≡ x))
  unfolding copy_cpu present unavailable defect
  copy_cpu_tests t p now x = (λ h. ground arith, λ h. ground arith)

  -- `copyCPU` hands a utilization over as present exactly from a publication of that value that the cycle
  -- can use.
  pub copy_cpu_iff :
      (t : CpuLoadObservation F) (p : Outcome (CpuPublication F)) (now : ℕ) (x : F)
      → (copy_cpu t p now ≡ present x) ↔ IsUsable t p now x
  unfolding inconsistent same_topology
  copy_cpu_iff t p now x = (
    λ h.
        let (v, i, c, past, age, same, e) = (copy_cpu_tests t p now x).0 h in
        let sign = is_empty_iff p.value.topology.signature in
        let text = text_eq_iff t.topology_signature p.value.topology.signature in
        record {
          published = ground arith;
          clean = ground (arith, (validate_outcome_iff p).0 v);
          same = e;
          number = rw (sym e) (ground arith);
          in_range = rw (sym e) (ground arith);
          counted = λ z. ground arith;
          signed = sign.0 (ground arith);
          past = past;
          recent = omega arith;
          observed = ground arith;
          same_count = ground arith;
          same_signature = text.0 (ground arith);
        },
    λ u.
        let sign = (is_empty_iff p.value.topology.signature).1 u.signed in
        let text =
          (text_eq_iff t.topology_signature p.value.topology.signature).1 u.same_signature in
        (copy_cpu_tests t p now x).1 (
          (validate_outcome_iff p).1 (inl (u.published, u.clean.0, u.clean.1)),
          ground (arith, u.published),
          rw u.same (ground (arith, sign, u.counted, u.number, u.in_range)),
          u.past,
          omega (arith, u.recent),
          ground (arith, text, u.observed, u.same_count),
          u.same,
        ),
  )

  copy_cpu-value :
      (t : CpuLoadObservation F) (p : Outcome (CpuPublication F)) (now : ℕ)
      → is_present (copy_cpu t p now) ≡ true
      → ((copy_cpu t p now).value ≡ p.value.utilization_percent) × (inconsistent p.value ≡ false)
  unfolding copy_cpu present unavailable defect
  copy_cpu-value t p now h = ground arith

  -- Every utilization that `copyCPU` hands over is a number between 0 and 100.
  pub copy_cpu-IsPercentage :
      (t : CpuLoadObservation F) (p : Outcome (CpuPublication F)) (now : ℕ)
      → IsPercentage (copy_cpu t p now)
  unfolding inconsistent
  copy_cpu-IsPercentage t p now h =
      let (same, fits) = copy_cpu-value t p now h in rw same (ground arith)

  -- The observations without the utilization have passed their checks.
  pub record CheckedDomains (o : CycleObservations F) : Type 0 where
    pub host : validate_host o.host ≡ none
    pub cpu_load : validate_cpu_load o.cpu_load ≡ none
    pub memory : validate_memory_outcome memory_text o.memory ≡ none
    pub root : validate_memory_outcome filesystem_text o.root ≡ none
    pub raspberry_pi : validate_raspberry_pi o.raspberry_pi ≡ none
    pub network : validate_network o.network ≡ none

module _ {F T : Type 0} ⦃f : Float64 F⦄ ⦃c : Calendar T⦄ where
  pub observe_all-CheckedDomains :
      (a : Answers F T) (o : CycleObservations F) → observe_all a ≡ ok o → CheckedDomains o
  unfolding observe_all
  observe_all-CheckedDomains a o h =
      let (h1, h2, h3, h4, h5, h6) = start_checked F collection_deadline in
      let (host, e1, g1) = >>=-eq-ok (run_domain validate_host _ (always a.host)) _ h in
      let (cpu_load, e2, g2) = >>=-eq-ok (run_domain validate_cpu_load _ a.cpu_load) _ g1 in
      let (memory, e3, g3) =
        >>=-eq-ok (run_domain (validate_memory_outcome memory_text) _ a.memory) _ g2 in
      let (root, e4, g4) =
        >>=-eq-ok (run_domain (validate_memory_outcome filesystem_text) _ a.root) _ g3 in
      let (pi, e5, g5) = >>=-eq-ok (run_domain validate_raspberry_pi _ a.raspberry_pi) _ g4 in
      let (network, e6, g6) = >>=-eq-ok (run_domain validate_network _ a.network) _ g5 in
      subst CheckedDomains (ok-injective g6) (record {
        host = run_domain-checked validate_host _ (always a.host) host h1 e1;
        cpu_load = run_domain-checked validate_cpu_load _ a.cpu_load cpu_load h2 e2;
        memory = run_domain-checked (validate_memory_outcome memory_text) _ a.memory memory h3 e3;
        root = run_domain-checked (validate_memory_outcome filesystem_text) _ a.root root h4 e4;
        raspberry_pi = run_domain-checked validate_raspberry_pi _ a.raspberry_pi pi h5 e5;
        network = run_domain-checked validate_network _ a.network network h6 e6;
      })

  -- The end of `finalize`, where there is a hostname.
  finish_named :
      (report : List DegradationEvent → Option Error) (now : T) (hostname : Outcome Text)
      (d : Snapshot F T)
      → is_present hostname ≡ true
      → (events_of hostname d.issues >>= λ events.
          elim (is_present hostname) as (λ _. Result Error Encoded) [
            | false ↦ reported (report events) (err (sentinel no_useful_snapshot))
            | true ↦ conclude (report events) (encode (record d { observed_at = now }))
          ])
        ≡ conclude (report (issue_events d.issues)) (encode (record d { observed_at = now }))
  unfolding events_of
  finish_named report now hostname d h = rw h

  -- The document of a cycle with a hostname, in the encoder's words.
  finalize_named :
      (report : List DegradationEvent → Option Error) (now : T) (o : CycleObservations F)
      → CheckedCycle o
      → finalize report now o
        ≡ conclude (report (issue_events (all_issues o))) (encode (draft_of now o))
  unfolding finalize draft_of
  finalize_named report now o k =
      rw (draft_lem c.zero_time o (SoundCycle-of_Checked o k))
        (finish_named report now o.host.hostname (draft_of c.zero_time o) k.named)

  -- How a cycle with a hostname ends, if the reporter takes its events and its time can be
  -- written: in an encoded snapshot, in "no useful snapshot", or in the one internal defect of a
  -- document that is too long.
  pub finalize_ends :
      (report : List DegradationEvent → Option Error) (now : T) (o : CycleObservations F)
      → ((x : F) → f.less f.infinity x ≡ false)
      → IsStamp now
      → report (issue_events (all_issues o)) ≡ none
      → CheckedCycle o
      → (finalize report now o ≡ err (sentinel no_useful_snapshot))
        ⊎ (finalize report now o ≡ conclude none (within_limit (cycle_body now o)))
  unfolding conclude reported is
  finalize_ends report now o top stamp taken k =
      let same = finalize_named report now o k in
      elim (encode-draft_of now o top stamp k) [
        | inl empty ↦ inl (same ∙ rw (taken, empty))
        | inr body ↦ inr (same ∙ rw (taken, body))
      ]
