-- ===== src/Observe/Cpu/Utilization.antt =====
-- What a calculated utilization of internal/observe/cpu.go says of its two samples.
use joy_pi_health.Prelude.{
  ℕ, ◌+◌, ◌-◌, ◌≤◌, ◌≡◌, sym, subst, ◌∙◌, ap, inl, inr, true, false, not, ◌||◌, List, All, [], ◌∷◌,
  arith, ltb, ◌==◌, if◌then◌else◌, Bool-cases,
}
use joy_pi_health.Result.{ok, err, >>=-eq-ok, ok-injective, Result-cases}
use joy_pi_health.Text.{text_eq}
use joy_pi_health.Numbers.{Float64}
use joy_pi_health.Observe.Parsers.{maximum_uint64, failed}
use joy_pi_health.Observe.Cpu.{
  CpuCounters, TimedCpuSample, minimum_sample_interval, maximum_sample_interval, sum_from,
  sum_uint64, check_samples, busy_and_total, calculate_cpu_utilization, is_percentage, decreased,
}

-- The sum as a mathematical number.
abbrev pub sum : List ℕ → ℕ
sum [] = 0
sum (value ∷ values) = value + sum values

sum_from_inv :
    (total : ℕ) (values : List ℕ) (n : ℕ)
    → total ≤ maximum_uint64
    → All (λ v. v ≤ maximum_uint64) values
    → sum_from total values ≡ ok n
    → (n ≡ total + sum values) × (n ≤ maximum_uint64)
unfolding sum_from
sum_from_inv total [] n b w h = let e = ok-injective h in (omega (arith, e), omega (arith, e))
sum_from_inv total (value ∷ values) n b (v, w) h =
    elim (Bool-cases (ltb (maximum_uint64 - value) total)) [
      | inl over ↦ cc (rw over at h)
      | inr fits ↦
          let room : total + value ≤ maximum_uint64 = ground (arith, v, fits) in
          let (e, m) = sum_from_inv (total + value) values n room w (rw fits at h) in
          (omega (arith, e), m)
    ]

sum_uint64_inv :
    (values : List ℕ) (n : ℕ)
    → All (λ v. v ≤ maximum_uint64) values
    → sum_uint64 values ≡ ok n
    → (n ≡ sum values) × (n ≤ maximum_uint64)
unfolding sum_uint64
sum_uint64_inv values n w h =
    let (e, m) = sum_from_inv 0 values n (omega arith) w h in (omega (arith, e), m)

-- The counters are 64-bit numbers.
abbrev pub Fits : CpuCounters → Type 0
Fits c =
    (c.c0 ≤ maximum_uint64)
    × (c.c1 ≤ maximum_uint64)
    × (c.c2 ≤ maximum_uint64)
    × (c.c3 ≤ maximum_uint64)
    × (c.c4 ≤ maximum_uint64)
    × (c.c5 ≤ maximum_uint64)
    × (c.c6 ≤ maximum_uint64)
    × (c.c7 ≤ maximum_uint64)

-- The time that a processor was busy, and all of it, in exact numbers.
abbrev pub busy_time : CpuCounters → CpuCounters → ℕ
busy_time p c = (c.c0 - p.c0) + (c.c1 - p.c1) + (c.c2 - p.c2) + (c.c5 - p.c5) + (c.c6 - p.c6)

abbrev pub total_time : CpuCounters → CpuCounters → ℕ
total_time p c = busy_time p c + (c.c3 - p.c3) + (c.c4 - p.c4) + (c.c7 - p.c7)

counted :
    (p c : CpuCounters) (busy total : ℕ) (x : ℕ × ℕ)
    → busy ≡ busy_time p c
    → total ≡ total_time p c
    → total ≤ maximum_uint64
    → (if (total == 0) || ltb total busy
        then failed "CPU counter delta is inconsistent"
        else ok (busy, total))
      ≡ ok x
    → (x ≡ (busy_time p c, total_time p c))
      × (1 ≤ total_time p c)
      × (total_time p c ≤ maximum_uint64)
counted p c busy total x e t k h = elim (Bool-cases ((total == 0) || ltb total busy)) [
  | inl bad ↦ cc (rw bad at h)
  | inr good ↦ (
    sym (ok-injective (rw good at h)) ∙ ap (λ b. (b, total)) e ∙ ap (λ n. (busy_time p c, n)) t,
    ground (arith, good, t),
    omega (arith, t, k),
  )
]

totals :
    (p c : CpuCounters) (busy : ℕ) (x : ℕ × ℕ)
    → Fits c
    → busy ≡ busy_time p c
    → busy ≤ maximum_uint64
    → (elim (sum_uint64 (busy ∷ (c.c3 - p.c3) ∷ (c.c4 - p.c4) ∷ (c.c7 - p.c7) ∷ [])) [
      | err e ↦ failed "CPU counter delta is inconsistent"
      | ok total ↦
          if (total == 0) || ltb total busy
          then failed "CPU counter delta is inconsistent"
          else ok (busy, total)
    ])
      ≡ ok x
    → (x ≡ (busy_time p c, total_time p c))
      × (1 ≤ total_time p c)
      × (total_time p c ≤ maximum_uint64)
totals p c busy x (l0, l1, l2, l3, l4, l5, l6, l7) e m h =
    let deltas = busy ∷ (c.c3 - p.c3) ∷ (c.c4 - p.c4) ∷ (c.c7 - p.c7) ∷ [] in
    elim (Result-cases (sum_uint64 deltas)) [
      | inl (bad, p0) ↦ cc (rw p0 at h)
      | inr (total, p0) ↦
          let (t, k) =
            sum_uint64_inv deltas total (m, (omega arith, (omega arith, (omega arith, tt)))) p0 in
          let exact : total ≡ total_time p c = omega (arith, t, e) in
          counted p c busy total x e exact k (rw p0 at h)
    ]

busy_and_total_inv :
    (p c : CpuCounters) (x : ℕ × ℕ)
    → Fits c
    → busy_and_total p c ≡ ok x
    → (x ≡ (busy_time p c, total_time p c))
      × (1 ≤ total_time p c)
      × (total_time p c ≤ maximum_uint64)
unfolding busy_and_total
busy_and_total_inv p c x w h =
    let deltas =
      (c.c0 - p.c0) ∷ (c.c1 - p.c1) ∷ (c.c2 - p.c2) ∷ (c.c5 - p.c5) ∷ (c.c6 - p.c6) ∷ [] in
    let (busy, q, h1) = >>=-eq-ok (sum_uint64 deltas) _ h in
    let (l0, l1, l2, l3, l4, l5, l6, l7) = w in
    let (e, m) =
      sum_uint64_inv deltas busy
        (omega arith, (omega arith, (omega arith, (omega arith, (omega arith, tt))))) q in
    totals p c busy x w (omega (arith, e)) m h1

check_samples_inv :
    (p c : TimedCpuSample)
    → check_samples p c ≡ ok tt
    → (p.at + minimum_sample_interval ≤ c.at)
      × (c.at ≤ p.at + maximum_sample_interval)
      × (text_eq p.value.boot_id c.value.boot_id ≡ true)
      × (decreased p.value.counters c.value.counters ≡ false)
unfolding check_samples
check_samples_inv p c h = ground arith

module _ {F : Type 0} ⦃f : Float64 F⦄ where
  pub percentage_of :
      (v u : F)
      → (if not (is_percentage v) then failed "CPU utilization is invalid" else ok v) ≡ ok u
      → (u ≡ v) × (is_percentage u ≡ true)
  percentage_of v u h = elim (Bool-cases (is_percentage v)) [
    | inr bad ↦ cc (rw bad at h)
    | inl good ↦
        let e = ok-injective (rw good at h) in (sym e, subst (λ y. is_percentage y ≡ true) e good)
  ]

  -- A utilization that is calculated is 100 times the exact busy time over the exact total time of
  -- the two samples, without overflow or a division by zero, between 0 and 100; the samples are
  -- from 0.9 to 1.1 seconds apart, of one boot, and no counter has decreased.
  pub calculate_cpu_utilization_sound :
      (p c : TimedCpuSample) (u : F)
      → Fits c.value.counters
      → calculate_cpu_utilization p c ≡ ok u
      → (let busy = busy_time p.value.counters c.value.counters in
          let total = total_time p.value.counters c.value.counters in
          (p.at + minimum_sample_interval ≤ c.at)
          × (c.at ≤ p.at + maximum_sample_interval)
          × (text_eq p.value.boot_id c.value.boot_id ≡ true)
          × (decreased p.value.counters c.value.counters ≡ false)
          × (1 ≤ total)
          × (total ≤ maximum_uint64)
          × (busy ≤ total)
          × (u ≡ f.over (f.times f.hundred (f.of_uint busy)) (f.of_uint total))
          × (is_percentage u ≡ true))
  unfolding calculate_cpu_utilization
  calculate_cpu_utilization_sound p c u w h =
      let (t, q, h1) = >>=-eq-ok (check_samples p c) _ h in
      let (x, r, h2) = >>=-eq-ok (busy_and_total p.value.counters c.value.counters) _ h1 in
      let (e, pos, m) = busy_and_total_inv p.value.counters c.value.counters x w r in
      let (lo, hi, boot, mono) = check_samples_inv p c q in
      let (v, k) =
        percentage_of (f.over (f.times f.hundred (f.of_uint x.0)) (f.of_uint x.1)) u h2 in
      (
        lo,
        hi,
        boot,
        mono,
        pos,
        m,
        omega arith,
        v ∙ ap (λ y. f.over (f.times f.hundred (f.of_uint y.0)) (f.of_uint y.1)) e,
        k,
      )
