-- ===== src/Observe/Cpu/Observer.antt =====
-- The CPU observer as a step relation: what it has published in every state that it can reach.
use joy_pi_health.Prelude.{
  ℕ, ◌≤◌, ◌≡◌, subst, inl, inr, Bool, true, false, ◌||◌, Option, some, arith, if◌then◌else◌,
  Bool-cases, Option-cases,
}
use joy_pi_health.Result.{Result, ok, err, >>=-eq-ok, ok-injective, Result-cases}
use joy_pi_health.Text.{Text, is_empty}
use joy_pi_health.Errors.{Error}
use joy_pi_health.Numbers.{Float64}
use joy_pi_health.Observe.Outcome.{
  Outcome, Zero, present, unavailable, defect, acquisition_failure, validate_outcome,
}
use joy_pi_health.Observe.Observations.{is_present}
use joy_pi_health.Observe.Coordinator.Cycle.{CpuTopology, CpuPublication, inconsistent}
use joy_pi_health.Observe.Parsers.Topology.{parse_cpu_topology-IsTopology}
use joy_pi_health.Observe.Cpu.{
  sample_zero, CpuAnswers, CpuSample, TimedCpuSample, is_percentage, calculate_cpu_utilization,
  check_samples, busy_and_total, read_file, collect_cpu_sample,
}
use joy_pi_health.Observe.Cpu.States.{
  publication_zero, CpuObserver, new_cpu_observer, record_sample, observe, publish_defect, close,
  start, published,
}
use joy_pi_health.Observe.Cpu.Utilization.{percentage_of}

module _ {F : Type 0} ⦃f : Float64 F⦄ where
  -- One operation on the observer: `Start`, an observation of whatever the source answers, the
  -- publication of a defect, and `Close`.
  pub data Step : CpuObserver F → CpuObserver F → Type 0 where
    starting : (o p : CpuObserver F) → start o ≡ ok p → Step o p
    observing :
        (at : ℕ) (a : CpuAnswers) (o p : CpuObserver F)
        → observe at (collect_cpu_sample a) o ≡ ok p
        → Step o p
    failing : (e : Error) (o : CpuObserver F) → Step o (publish_defect e o)
    closing : (o : CpuObserver F) → Step o (close o)

  pub data Reach : CpuObserver F → Type 0 where
    fresh : Reach new_cpu_observer
    later : {o p : CpuObserver F} → Reach o → Step o p → Reach p

abbrev IsTopology : CpuTopology → Type 0
IsTopology t = (1 ≤ t.count) × (is_empty t.signature ≡ false)

module _ {A : Type 0} where
  abbrev Holds : (A → Type 0) → Outcome A → Type 0
  Holds P v = is_present v ≡ true → P v.value

unavailable-Holds :
    {A : Type 0} ⦃z : Zero A⦄ (P : A → Type 0) (r : ℕ) (c : Option Error)
    → Holds P (unavailable r c)
unfolding unavailable defect
unavailable-Holds P r c h = absurd (ground arith)

failure-Holds :
    {A : Type 0} ⦃z : Zero A⦄ (P : A → Type 0) (e : Error) (missing : ℕ)
    → Holds P (acquisition_failure (some e) missing)
unfolding acquisition_failure unavailable defect
failure-Holds P e missing h = absurd (ground arith)

read_file-Holds :
    {A : Type 0} (P : CpuSample → Type 0) (r : Result Error Text) (parse : Text → Result Error A)
    (next : A → Outcome CpuSample)
    → ((input : Text) (v : A) → parse input ≡ ok v → Holds P (next v))
    → Holds P (read_file r parse next)
unfolding read_file
read_file-Holds P (err e) parse next k h = failure-Holds P e _ h
read_file-Holds P (ok input) parse next k h = elim (Result-cases (parse input)) [
  | inl (e, bad) ↦ absurd (unavailable-Holds (λ s. ⊥) _ _ (rw (read_file, bad) at h))
  | inr (v, good) ↦ rw (read_file, good) (k input v good (rw (read_file, good) at h))
]

abbrev HasTopology : CpuSample → Type 0
HasTopology s = IsTopology s.topology

sample_topology : (a : CpuAnswers) → Holds HasTopology (collect_cpu_sample a)
unfolding collect_cpu_sample present
sample_topology a = read_file-Holds HasTopology a.stat _ _ (λ i0 counters e0.
    read_file-Holds HasTopology a.online _ _ (λ i1 topology e1.
      read_file-Holds HasTopology a.boot _ _ (λ i2 boot_id e2.
        read_file-Holds HasTopology a.up _ _ (λ i3 uptime e3 h.
          let (pos, bound, signed) = parse_cpu_topology-IsTopology i1 topology e1 in
          (pos, signed)))))

module _ {F : Type 0} ⦃f : Float64 F⦄ where
  -- What `copyCPU` asks of a publication.
  abbrev IsConsistent : CpuPublication F → Type 0
  IsConsistent p = inconsistent p ≡ false

  consistent :
      (u : F) (at : ℕ) (t : CpuTopology)
      → is_percentage u ≡ true
      → IsTopology t
      → IsConsistent (record { utilization_percent = u; sampled_at = at; topology = t })
  unfolding inconsistent
  consistent u at t p (pos, signed) = ground (arith, p, pos, signed)

  calculated :
      (p c : TimedCpuSample) (u : F) → calculate_cpu_utilization p c ≡ ok u → is_percentage u ≡ true
  unfolding calculate_cpu_utilization
  calculated p c u h =
      let (t, q, h1) = >>=-eq-ok (check_samples p c) _ h in
      let (x, r, h2) = >>=-eq-ok (busy_and_total p.value.counters c.value.counters) _ h1 in
      (percentage_of (f.over (f.times f.hundred (f.of_uint x.0)) (f.of_uint x.1)) u h2).1

module _ (F : Type 0) ⦃f : Float64 F⦄ where
  published-Holds :
      (p c : TimedCpuSample)
      → IsTopology c.value.topology
      → Holds (IsConsistent {F = F}) (published {F = F} p c)
  unfolding present
  published-Holds p c t h = elim (Result-cases (calculate_cpu_utilization {F = F} p c)) [
    | inl (e, bad) ↦
        absurd (unavailable-Holds {A = CpuPublication F} (λ s. ⊥) _ _ (rw (published, bad) at h))
    | inr (u, good) ↦
        rw (published, good) (consistent u c.at c.value.topology (calculated p c u good) t)
  ]

module _ {F : Type 0} ⦃f : Float64 F⦄ where
  record-Holds :
      (at : ℕ) (sample : Outcome CpuSample) (o : CpuObserver F)
      → Holds HasTopology sample
      → Holds IsConsistent (record_sample at sample o).publication
  unfolding record_sample
  record-Holds at sample o s = elim (Bool-cases (is_present sample)) [
    | inr absent ↦ rw (record_sample, absent) (unavailable-Holds IsConsistent _ _)
    | inl here ↦ elim (Option-cases o.baseline) [
      | inl first ↦ rw (record_sample, here, first) (unavailable-Holds IsConsistent _ _)
      | inr (previous, kept) ↦
          rw (record_sample, here, kept) (published-Holds F previous _ (s here))
    ]
  ]

  if-Holds :
      (b : Bool) (o p : CpuObserver F)
      → Holds IsConsistent o.publication
      → Holds IsConsistent p.publication
      → Holds IsConsistent (if b then o else p).publication
  if-Holds true o p h k = h
  if-Holds false o p h k = k

  observe-Holds :
      (at : ℕ) (a : CpuAnswers) (o p : CpuObserver F)
      → observe at (collect_cpu_sample a) o ≡ ok p
      → Holds IsConsistent o.publication
      → Holds IsConsistent p.publication
  unfolding observe
  observe-Holds at a o p h k = elim (Option-cases (validate_outcome (collect_cpu_sample a))) [
    | inr (e, bad) ↦ cc (rw (observe, bad) at h)
    | inl sound ↦
        let g = ok-injective (rw (observe, sound) at h) in
        subst (λ q. Holds IsConsistent q.publication) g
          (if-Holds (o.stopped || o.cancelled) o _ k
            (record-Holds at (collect_cpu_sample a) o (sample_topology a)))
  ]

  defect-Holds :
      (e : Error) (o : CpuObserver F)
      → Holds IsConsistent o.publication
      → Holds IsConsistent (publish_defect e o).publication
  unfolding publish_defect defect
  defect-Holds e o k = if-Holds (o.stopped || o.cancelled) o _ k (λ h. absurd (ground arith))

  started-Holds :
      (o p : CpuObserver F)
      → start o ≡ ok p
      → Holds IsConsistent o.publication
      → Holds IsConsistent p.publication
  unfolding start
  started-Holds o p h k = elim (Bool-cases (o.started || o.stopped)) [
    | inl bad ↦ cc (rw (start, bad) at h)
    | inr free ↦
        subst (λ q. Holds IsConsistent q.publication) (ok-injective (rw (start, free) at h)) k
  ]

  -- Whatever the source has answered, and in whatever order the observer was started, observed,
  -- failed and closed, a utilization that it has published passes the tests of `copyCPU`: it is a
  -- number from 0 to 100, and its topology has processors and a signature.
  pub Reach-IsConsistent :
      (o : CpuObserver F)
      → Reach o
      → is_present o.publication ≡ true
      → inconsistent o.publication.value ≡ false
  unfolding new_cpu_observer close
  Reach-IsConsistent o fresh = unavailable-Holds (IsConsistent {F = F}) _ _
  Reach-IsConsistent o (later r (starting q p h)) = started-Holds q p h (Reach-IsConsistent q r)
  Reach-IsConsistent o (later r (observing at a q p h)) =
      observe-Holds at a q p h (Reach-IsConsistent q r)
  Reach-IsConsistent o (later r (failing e q)) = defect-Holds e q (Reach-IsConsistent q r)
  Reach-IsConsistent o (later r (closing q)) = Reach-IsConsistent q r
