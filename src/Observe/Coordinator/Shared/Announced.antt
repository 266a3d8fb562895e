-- ===== src/Observe/Coordinator/Shared/Announced.antt =====
-- Who hears of a defect in internal/observe/coordinator.go, and when the fatal function is called.
use joy_pi_health.Prelude.{
  ℕ, ◌≤◌, ◌<◌, ◌≡◌, refl, sym, ap, subst, ◌∙◌, ◌⊎◌, inl, inr, true, some, arith, is_some,
  Bool-cases,
}
use joy_pi_health.Result.{Result, err}
use joy_pi_health.Errors.{Error, is_internal_defect}
use joy_pi_health.Snapshot.Encode.{Encoded}
use joy_pi_health.Observe.Coordinator.Shared.{
  Cycle, collecting, recorded, announced, concluded, Coordinator, absent, live, over, notify,
  keep_failure, announce_failure, start_cycle, join, snapshot, answer, result_of, is_defect,
  record_result, announce_result, conclude_cycle,
}
use joy_pi_health.Observe.Coordinator.Shared.Steps.{
  Step, calling, announcing_failure, recording, announcing_result, concluding, Reach, fresh, later,
  Reach-Inv, kept_result, told_result, join_cases,
}

result_of-concluded :
    (s : Cycle) (r : Result Error Encoded) → result_of s ≡ some r → s ≡ concluded r
result_of-concluded collecting r p = cc
result_of-concluded (recorded s) r p = cc
result_of-concluded (announced s) r p = cc
result_of-concluded (concluded s) r p = cc

-- In every state that the coordinator reaches, a caller that has waited for a cycle and is answered with an
-- internal defect finds the failure kept, and the fatal function called exactly once.
pub defect_announced :
    {c : Coordinator} (i : ℕ) (e : Error)
    → Reach c
    → i < c.next
    → answer i c ≡ some (err e)
    → is_internal_defect e ≡ true
    → (is_some c.failed ≡ true) × (c.fatal_calls ≡ 1)
unfolding answer
defect_announced {c = c} i e r h p d =
    let v = Reach-Inv r in
    let done = result_of-concluded (c.cycles i) (err e) p in
    let told = v.told i (err e) h (ap told_result done) d in
    (v.kept i (err e) h (ap kept_result done) d, v.calls ∙ rw told refl)

-- A cycle behind its part under the lock, with a defect that it has not announced.
record Pending (c : Coordinator) (i : ℕ) (r : Result Error Encoded) : Type 0 where
  is_started : i < c.next
  waits : c.cycles i ≡ recorded r
  defective : is_defect r ≡ true

-- Who has announced a failure, or is going to.
abbrev Owed : Coordinator → Type 0
Owed c =
    (c.notified ≡ true)
    ⊎ (1 ≤ c.announcing)
    ⊎ ((i : ℕ) × (r : Result Error Encoded) × Pending c i r)

-- A step that leaves the counters alone, and the cycles that wait, leaves what is owed.
Owed-mono :
    {c d : Coordinator}
    → (c.notified ≡ true → d.notified ≡ true)
    → (1 ≤ c.announcing → 1 ≤ d.announcing)
    → ((i : ℕ) (r : Result Error Encoded) → Pending c i r → Pending d i r)
    → Owed c
    → Owed d
Owed-mono f g h (inl n) = inl (f n)
Owed-mono f g h (inr (inl m)) = inr (inl (g m))
Owed-mono f g h (inr (inr (i, r, p))) = inr (inr (i, r, h i r p))

start_cycle-Owed : (c : Coordinator) → Owed c → Owed (start_cycle c)
unfolding start_cycle
start_cycle-Owed c o =
    Owed-mono {c = c} {d = start_cycle c} (λ n. n) (λ n. n)
      (λ i r p.
        let h = p.is_started in
        record {
          is_started = omega arith;
          waits = ground (arith, p.waits);
          defective = p.defective;
        })
      o

join-Owed : (c : Coordinator) → Owed c → Owed (join c).0
join-Owed c o = elim (join_cases c) [
  | inl p ↦ subst (λ d. Owed d) (sym p) o
  | inr (n, a, p) ↦ subst (λ d. Owed d) (sym p) (start_cycle-Owed c o)
]

join-failed : (c : Coordinator) → is_some (join c).0.failed ≡ true → is_some c.failed ≡ true
unfolding start_cycle
join-failed c f = elim (join_cases c) [ inl p ↦ cc | inr (n, a, p) ↦ ground (arith, p, n) ]

record_result-Owed :
    (c : Coordinator) (i : ℕ) (r : Result Error Encoded)
    → i < c.next
    → c.cycles i ≡ collecting
    → (is_some c.failed ≡ true → Owed c)
    → is_some (record_result i r c).failed ≡ true
    → Owed (record_result i r c)
unfolding record_result
record_result-Owed c i r h e before f = elim (Bool-cases (is_some c.failed)) [
  | inl old ↦
      Owed-mono {c = c} {d = record_result i r c} (λ n. n) (λ n. n)
        (λ j s p. record {
          is_started = p.is_started;
          waits = ground (arith, p.waits);
          defective = p.defective;
        })
        (before old)
  | inr fresh_failure ↦
      inr
        (inr (i, r, record { is_started = h; waits = ground arith; defective = ground (arith, f) }))
]

announce_result-Owed :
    (c : Coordinator) (i : ℕ) (r : Result Error Encoded)
    → c.cycles i ≡ recorded r
    → Owed c
    → Owed (announce_result i r c)
unfolding announce_result notify
announce_result-Owed c i r e o = elim (Bool-cases (is_defect r)) [
  | inl bad ↦ inl (ground arith)
  | inr good ↦
      Owed-mono {c = c} {d = announce_result i r c} (λ n. ground arith) (λ n. ground arith)
        (λ j s p. record {
          is_started = ground (arith, p.is_started);
          waits = ground (arith, p.waits, p.defective);
          defective = p.defective;
        })
        o
]

conclude_cycle-Owed :
    (c : Coordinator) (i : ℕ) (r : Result Error Encoded)
    → c.cycles i ≡ announced r
    → Owed c
    → Owed (conclude_cycle i r c)
unfolding conclude_cycle
conclude_cycle-Owed c i r e o =
    Owed-mono {c = c} {d = conclude_cycle i r c} (λ n. n) (λ n. n)
      (λ j s p. record {
        is_started = p.is_started;
        waits = ground (arith, p.waits);
        defective = p.defective;
      })
      o

announce_result-failed :
    (c : Coordinator) (i : ℕ) (r : Result Error Encoded)
    → is_some (announce_result i r c).failed ≡ true
    → is_some c.failed ≡ true
unfolding announce_result notify
announce_result-failed c i r f = ground arith

conclude_cycle-failed :
    (c : Coordinator) (i : ℕ) (r : Result Error Encoded)
    → is_some (conclude_cycle i r c).failed ≡ true
    → is_some c.failed ≡ true
unfolding conclude_cycle
conclude_cycle-failed c i r f = f

Step-Owed :
    {c d : Coordinator}
    → Step c d
    → (is_some c.failed ≡ true → Owed c)
    → is_some d.failed ≡ true
    → Owed d
unfolding snapshot keep_failure announce_failure notify
Step-Owed (calling c absent) before f = inr (inl (omega arith))
Step-Owed (calling c (over e)) before f = before f
Step-Owed (calling c live) before f = join-Owed c (before (join-failed c f))
Step-Owed (announcing_failure c h) before f = inl refl
Step-Owed (recording c i r h e) before f = record_result-Owed c i r h e before f
Step-Owed (announcing_result c i r h e) before f =
    announce_result-Owed c i r e (before (announce_result-failed c i r f))
Step-Owed (concluding c i r h e) before f =
    conclude_cycle-Owed c i r e (before (conclude_cycle-failed c i r f))

Reach-Owed : {c : Coordinator} → Reach c → is_some c.failed ≡ true → Owed c
Reach-Owed fresh f = cc
Reach-Owed (later r s) f = Step-Owed s (Reach-Owed r) f

-- In every state that the coordinator reaches in which a failure is kept, with which calls are refused, the
-- fatal function has been called exactly once, or never, and then a call of `Snapshot` or a cycle can take
-- the step that calls it.
pub failure_owed :
    {c : Coordinator} (e : Error)
    → Reach c
    → c.failed ≡ some e
    → (c.fatal_calls ≡ 1)
      ⊎ ((c.fatal_calls ≡ 0) × ((d : Coordinator) × Step c d × (d.fatal_calls ≡ 1)))
unfolding announce_failure announce_result notify
failure_owed {c = c} e r f =
    let v = Reach-Inv r in
    elim (Bool-cases c.notified) [
      | inl told ↦ inl (v.calls ∙ rw told refl)
      | inr quiet ↦
          let none_yet : c.fatal_calls ≡ 0 = v.calls ∙ rw quiet refl in
          elim (Reach-Owed r (ap is_some f)) [
            | inl told ↦ cc
            | inr (inl m) ↦
                inr (none_yet, (announce_failure c, announcing_failure c m, ground arith))
            | inr (inr (i, s, p)) ↦ inr (
              none_yet,
              (
                announce_result i s c,
                announcing_result c i s p.is_started p.waits,
                ground (arith, p.defective),
              ),
            )
          ]
    ]
