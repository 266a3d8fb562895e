-- ===== src/Observe/Coordinator/Healthy.antt =====
-- Cycles whose collectors answer soundly, whatever deadlines run out in them.
use joy_pi_health.Prelude.{
  ℕ, ◌≤◌, ◌≡◌, ◌∙◌, ◌⊎◌, inl, inr, true, false, Option, none, List, arith, if◌then◌else◌,
}
use joy_pi_health.Result.{ok, err}
use joy_pi_health.Errors.{Error, sentinel, no_useful_snapshot}
use joy_pi_health.Numbers.{Float64, Calendar}
use joy_pi_health.Snapshot.Encode.{within_limit}
use joy_pi_health.Observe.Outcome.{
  Outcome, unavailable, defect, present, validate_outcome, validate_outcome_iff,
}
use joy_pi_health.Observe.Observations.{
  CycleObservations, CpuLoadObservation, is_present, validate_host, validate_cpu_load,
  validate_memory_outcome, validate_raspberry_pi, validate_network,
}
use joy_pi_health.Observe.Coordinator.Finalize.Checked.{CheckedCycle, IsStamp}
use joy_pi_health.Observe.Coordinator.Finalize.Encodes.{cycle_body}
use joy_pi_health.Observe.Coordinator.Cycle.{
  Domain, Answers, CpuPublication, DegradationEvent, run_domain, always, memory_text,
  filesystem_text, conclude, unavailable_cycle, collection_deadline, copy_cpu, inconsistent,
  observe_all, with_utilization, collect, finalize,
}
use joy_pi_health.Observe.Coordinator.Laws.{
  observe_all-CheckedDomains, copy_cpu-IsPercentage, finalize_ends,
}

-- A domain that is reached and whose value passes its check.
abbrev pub Sound : {A : Type 0} → (A → Option Error) → Domain A → Type 0
Sound validate d = (d.lifecycle ≡ none) × (validate d.value ≡ none)

-- What a sound domain contributes: its value, or what was there before a deadline ran out.
abbrev pub kept : {A : Type 0} → A → Domain A → A
kept old d = if d.cycle_over then old else (if d.expired then old else d.value)

run_domain-Sound :
    {A : Type 0} (validate : A → Option Error) (old : A) (d : Domain A)
    → Sound validate d
    → run_domain validate old d ≡ ok (kept old d)
unfolding run_domain
run_domain-Sound validate old d (l, v) = rw (l, v) (ground arith)

module _ {F : Type 0} ⦃f : Float64 F⦄ where
  copy_cpu_sound :
      (t : CpuLoadObservation F) (p : Outcome (CpuPublication F)) (now : ℕ)
      → validate_outcome p ≡ none
      → (is_present p ≡ true → inconsistent p.value ≡ false)
      → (is_present p ≡ true → p.value.sampled_at ≤ now)
      → validate_outcome (copy_cpu t p now) ≡ none
  unfolding copy_cpu present unavailable defect
  copy_cpu_sound t p now v i past =
      (validate_outcome_iff _).1 (ground (arith, (validate_outcome_iff p).0 v))

module _ {F T : Type 0} ⦃f : Float64 F⦄ ⦃c : Calendar T⦄ where
  pub record SoundAnswers (a : Answers F T) : Type 0 where
    pub host : Sound validate_host a.host
    pub cpu_load : Sound validate_cpu_load a.cpu_load
    pub memory : Sound (validate_memory_outcome memory_text) a.memory
    pub root : Sound (validate_memory_outcome filesystem_text) a.root
    pub raspberry_pi : Sound validate_raspberry_pi a.raspberry_pi
    pub network : Sound validate_network a.network
    pub running : a.last_lifecycle ≡ none
    pub latest : validate_outcome a.latest ≡ none
    pub consistent : is_present a.latest ≡ true → inconsistent a.latest.value ≡ false
    pub past : is_present a.latest ≡ true → a.latest.value.sampled_at ≤ a.latest_at

  -- The observations of a cycle, as a function of its answers.
  unfoldable pub observed : Answers F T → CycleObservations F
  observed a =
      let start : CycleObservations F = unavailable_cycle collection_deadline in
      record {
        host = kept start.host (always a.host);
        cpu_load = kept start.cpu_load a.cpu_load;
        memory = kept start.memory a.memory;
        root = kept start.root a.root;
        raspberry_pi = kept start.raspberry_pi a.raspberry_pi;
        network = kept start.network a.network;
        cpu_utilization = start.cpu_utilization;
      }

  observe_all-Sound : (a : Answers F T) → SoundAnswers a → observe_all a ≡ ok (observed a)
  unfolding observe_all observed
  observe_all-Sound a s = rw (
    run_domain-Sound validate_host _ (always a.host) s.host,
    run_domain-Sound validate_cpu_load _ a.cpu_load s.cpu_load,
    run_domain-Sound (validate_memory_outcome memory_text) _ a.memory s.memory,
    run_domain-Sound (validate_memory_outcome filesystem_text) _ a.root s.root,
    run_domain-Sound validate_raspberry_pi _ a.raspberry_pi s.raspberry_pi,
    run_domain-Sound validate_network _ a.network s.network,
  )

  collect-finalize :
      (a : Answers F T)
      → SoundAnswers a
      → collect a ≡ finalize a.report a.now (with_utilization a (observed a))
  unfolding collect with_utilization observed
  collect-finalize a s = rw (
    observe_all-Sound a s,
    s.running,
    copy_cpu_sound (observed a).cpu_load a.latest a.latest_at s.latest s.consistent s.past,
  )

  checked_cycle :
      (a : Answers F T)
      → SoundAnswers a
      → is_present (observed a).host.hostname ≡ true
      → CheckedCycle (with_utilization a (observed a))
  unfolding with_utilization
  checked_cycle a s named =
      let d = observe_all-CheckedDomains a (observed a) (observe_all-Sound a s) in
      record {
        host = d.host;
        named = named;
        cpu_load = d.cpu_load;
        memory = d.memory;
        root = d.root;
        raspberry_pi = d.raspberry_pi;
        network = d.network;
        utilization =
            copy_cpu_sound (observed a).cpu_load a.latest a.latest_at s.latest s.consistent s.past;
        percentage = copy_cpu-IsPercentage (observed a).cpu_load a.latest a.latest_at;
      }

  -- A cycle whose collectors answer soundly, with a hostname in time, ends in its snapshot's JSON
  -- text within the limit of 64 KiB, in "no useful snapshot", or in the one internal defect of a
  -- text beyond that limit, whatever other deadlines run out: what the coordinator finalizes is
  -- never refused by the snapshot package for its values or its issues. The reporter takes every
  -- list of events, the time can be written, and no float is above infinity.
  pub collect_ends :
      (a : Answers F T)
      → ((x : F) → f.less f.infinity x ≡ false)
      → IsStamp a.now
      → ((es : List DegradationEvent) → a.report es ≡ none)
      → SoundAnswers a
      → is_present (observed a).host.hostname ≡ true
      → (collect a ≡ err (sentinel no_useful_snapshot))
        ⊎ (collect a
            ≡ conclude none (within_limit (cycle_body a.now (with_utilization a (observed a)))))
  collect_ends a top stamp taken s named =
      let k = checked_cycle a s named in
      elim (finalize_ends a.report a.now (with_utilization a (observed a)) top stamp (taken _) k) [
        | inl e ↦ inl (collect-finalize a s ∙ e)
        | inr e ↦ inr (collect-finalize a s ∙ e)
      ]
