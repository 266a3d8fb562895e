-- ===== src/Observe/Degradation/Active.antt =====
-- Which degradations are active after a report of internal/observe/degradation.go.
use joy_pi_health.Prelude.{
  ℕ, ◌≡◌, ap, ◌∙◌, inl, inr, Bool, true, ◌&&◌, ◌||◌, List, [], ◌∷◌, arith, ltb, Bool-cases, is_some,
  length,
}
use joy_pi_health.Result.{ok, >>=-eq-ok, ok-injective}
use joy_pi_health.Text.{text_eq_iff}
use joy_pi_health.Observe.Coordinator.Cycle.{DegradationEvent}
use joy_pi_health.Observe.Degradation.{
  Active, DegradationRecord, maximum_degradation_states, same_key, contains, find_active,
  put_active, last_logged, check_events, log_events, remaining, report,
}

-- `_, exists := reporter.active[key]`.
abbrev pub is_active : DegradationEvent → Active → Bool
is_active k m = is_some (find_active k m)

same_key-eq : (j k : DegradationEvent) → same_key j k ≡ true → j ≡ k
unfolding same_key
same_key-eq j k h =
    let p = (text_eq_iff j.metric k.metric).0 (ground arith) in
    let q = (text_eq_iff j.reason k.reason).0 (ground arith) in
    ap (λ x. record { metric = x; reason = j.reason }) p
    ∙ ap (λ y. record { metric = k.metric; reason = y }) q

is_active-put :
    (j k : DegradationEvent) (t : ℕ) (m : Active)
    → is_active k (put_active j t m) ≡ (same_key j k || is_active k m)
unfolding put_active find_active
is_active-put j k t [] = ground arith
is_active-put j k t ((i, s) ∷ m) = elim (Bool-cases (same_key i j)) [
  | inl same ↦ let e = ap (λ x. same_key x k) (same_key-eq i j same) in ground (arith, same, e)
  | inr other ↦ ground (arith, other, is_active-put j k t m)
]

is_active-log :
    (k : DegradationEvent) (now : ℕ) (es : List DegradationEvent) (m : Active)
    → is_active k (log_events now es m).0 ≡ (is_active k m || contains k es)
unfolding log_events contains
is_active-log k now [] m = ground arith
is_active-log k now (e ∷ es) m =
    let t = last_logged now (find_active e m) in
    let first = is_active-put e k t m in
    let rest = is_active-log k now es (put_active e t m) in ground (arith, first, rest)

is_active-remaining :
    (k : DegradationEvent) (es : List DegradationEvent) (m : Active)
    → is_active k (remaining es m) ≡ (is_active k m && contains k es)
unfolding remaining find_active
is_active-remaining k es [] = ground arith
is_active-remaining k es ((j, s) ∷ m) = elim (Bool-cases (same_key j k)) [
  | inl same ↦
      let e = ap (λ x. contains x es) (same_key-eq j k same) in
      ground (arith, same, e, is_active-remaining k es m)
  | inr other ↦ ground (arith, other, is_active-remaining k es m)
]

-- After a report that succeeds, exactly the degradations of its events are active: a degradation
-- of the cycle is remembered, and every other one is forgotten.
pub is_active-report :
    (k : DegradationEvent) (now : ℕ) (events : List DegradationEvent) (m : Active)
    (result : Active × List DegradationRecord)
    → report now events m ≡ ok result
    → is_active k result.0 ≡ contains k events
unfolding report
is_active-report k now events m result h =
    elim (Bool-cases (ltb maximum_degradation_states (length events))) [
      | inl over ↦ cc (rw (report, over) at h)
      | inr fits ↦
          let (t, p, q) = >>=-eq-ok (check_events [] events) _ (rw (report, fits) at h) in
          let e = ap (λ r. is_active k r.0) (ok-injective q) in
          let logged = is_active-log k now events m in
          let kept = is_active-remaining k events (log_events now events m).0 in
          ground (arith, e, logged, kept)
    ]
