-- ===== src/Observe/Coordinator/Shared/Failure.antt =====
-- What stays in the coordinator of internal/observe/coordinator.go, whatever steps come later.
use joy_pi_health.Prelude.{ℕ, ◌<◌, ◌≡◌, refl, sym, subst, ◌∙◌, inl, inr, some, arith}
use joy_pi_health.Result.{Result}
use joy_pi_health.Errors.{Error}
use joy_pi_health.Snapshot.Encode.{Encoded}
use joy_pi_health.Observe.Coordinator.Shared.{
  collecting, recorded, announced, concluded, Coordinator, RequestContext, absent, live, over,
  refused, notify, keep_failure, announce_failure, start_cycle, join, snapshot, answer,
  record_result, announce_result, conclude_cycle,
}
use joy_pi_health.Observe.Coordinator.Shared.Steps.{
  Step, calling, announcing_failure, recording, announcing_result, concluding, Steps, none_left,
  next_step, join_cases,
}

-- Once a failure is kept, it stays, and no step starts a cycle.
record Failed (e : Error) (n : ℕ) (d : Coordinator) : Type 0 where
  kept : d.failed ≡ some e
  count : d.next ≡ n

snapshot-Failed :
    (e : Error) (c : Coordinator) (context : RequestContext)
    → c.failed ≡ some e
    → Failed e c.next (snapshot context c).0
unfolding snapshot keep_failure join
snapshot-Failed e c absent f = record { kept = rw f refl; count = refl }
snapshot-Failed e c (over d) f = record { kept = f; count = refl }
snapshot-Failed e c live f = record { kept = rw f refl; count = rw f refl }

record_result-Failed :
    (e : Error) (c : Coordinator) (i : ℕ) (r : Result Error Encoded)
    → c.failed ≡ some e
    → Failed e c.next (record_result i r c)
unfolding record_result
record_result-Failed e c i r f = record { kept = ground (arith, f); count = refl }

announce_result-Failed :
    (e : Error) (c : Coordinator) (i : ℕ) (r : Result Error Encoded)
    → c.failed ≡ some e
    → Failed e c.next (announce_result i r c)
unfolding announce_result notify
announce_result-Failed e c i r f = record { kept = ground (arith, f); count = ground (arith, f) }

Step-Failed : {c d : Coordinator} (e : Error) → Step c d → c.failed ≡ some e → Failed e c.next d
unfolding announce_failure conclude_cycle notify
Step-Failed e (calling c context) f = snapshot-Failed e c context f
Step-Failed e (recording c i r h p) f = record_result-Failed e c i r f
Step-Failed e (announcing_failure c h) f = record { kept = f; count = refl }
Step-Failed e (announcing_result c i r h p) f = announce_result-Failed e c i r f
Step-Failed e (concluding c i r h p) f = record { kept = f; count = refl }

Steps-Failed : {c d : Coordinator} (e : Error) → Steps c d → c.failed ≡ some e → Failed e c.next d
Steps-Failed e none_left f = record { kept = f; count = refl }
Steps-Failed e (next_step s p) f =
    let one = Step-Failed e s f in
    let rest = Steps-Failed e p one.kept in
    record { kept = rest.kept; count = rest.count ∙ one.count }

-- Once a failure is kept, then after any further steps the same failure is kept, no cycle has been
-- started, and a live call is refused with that failure and changes nothing.
pub failure_persists :
    {c d : Coordinator} (e : Error)
    → Steps c d
    → c.failed ≡ some e
    → (d.failed ≡ some e) × (d.next ≡ c.next) × (snapshot live d ≡ (d, refused e))
unfolding snapshot join
failure_persists e p f = let all = Steps-Failed e p f in (all.kept, all.count, rw all.kept refl)

-- A cycle that is concluded with a result.
record Concluded (i : ℕ) (r : Result Error Encoded) (d : Coordinator) : Type 0 where
  is_started : i < d.next
  result : d.cycles i ≡ concluded r

start_cycle-Concluded :
    (c : Coordinator) (i : ℕ) (r : Result Error Encoded)
    → Concluded i r c
    → Concluded i r (start_cycle c)
unfolding start_cycle
start_cycle-Concluded c i r v =
    let h = v.is_started in record { is_started = omega arith; result = ground (arith, v.result) }

snapshot-Concluded :
    (c : Coordinator) (context : RequestContext) (i : ℕ) (r : Result Error Encoded)
    → Concluded i r c
    → Concluded i r (snapshot context c).0
unfolding snapshot keep_failure
snapshot-Concluded c absent i r v = record { is_started = v.is_started; result = v.result }
snapshot-Concluded c (over d) i r v = v
snapshot-Concluded c live i r v = elim (join_cases c) [
  | inl p ↦ subst (λ d. Concluded i r d) (sym p) v
  | inr (n, o, p) ↦ subst (λ d. Concluded i r d) (sym p) (start_cycle-Concluded c i r v)
]

Step-Concluded :
    {c d : Coordinator} (i : ℕ) (r : Result Error Encoded)
    → Step c d
    → Concluded i r c
    → Concluded i r d
unfolding announce_failure record_result announce_result conclude_cycle notify
Step-Concluded i r (calling c context) v = snapshot-Concluded c context i r v
Step-Concluded i r (announcing_failure c h) v = record {
  is_started = v.is_started;
  result = v.result;
}
Step-Concluded i r (recording c j s k q) v = record {
  is_started = v.is_started;
  result = ground (arith, v.result);
}
Step-Concluded i r (announcing_result c j s k q) v = record {
  is_started = ground (arith, v.is_started);
  result = ground (arith, v.result);
}
Step-Concluded i r (concluding c j s k q) v = record {
  is_started = v.is_started;
  result = ground (arith, v.result);
}

Steps-Concluded :
    {c d : Coordinator} (i : ℕ) (r : Result Error Encoded)
    → Steps c d
    → Concluded i r c
    → Concluded i r d
Steps-Concluded i r none_left v = v
Steps-Concluded i r (next_step s p) v = Steps-Concluded i r p (Step-Concluded i r s v)

recorded_cycle :
    (c : Coordinator) (i : ℕ) (r : Result Error Encoded)
    → (record_result i r c).cycles i ≡ recorded r
unfolding record_result
recorded_cycle c i r = ground arith

announced_cycle :
    (c : Coordinator) (i : ℕ) (r : Result Error Encoded)
    → i < c.next
    → (i < (announce_result i r c).next) × ((announce_result i r c).cycles i ≡ announced r)
unfolding announce_result notify
announced_cycle c i r h = (ground arith, ground arith)

Concluded-conclude_cycle :
    (c : Coordinator) (i : ℕ) (r : Result Error Encoded)
    → i < c.next
    → Concluded i r (conclude_cycle i r c)
unfolding conclude_cycle
Concluded-conclude_cycle c i r h = record { is_started = h; result = ground arith }

-- A cycle that collects can end with any result, and then the callers that wait for it are answered with
-- that result, whatever steps follow.
pub answer_comes :
    {c : Coordinator} (i : ℕ) (r : Result Error Encoded)
    → i < c.next
    → c.cycles i ≡ collecting
    → (d : Coordinator) × Steps c d × ((e : Coordinator) → Steps d e → answer i e ≡ some r)
unfolding answer record_result
answer_comes {c = c} i r h p =
    let kept = record_result i r c in
    let told = announce_result i r kept in
    let (below, waits) = announced_cycle kept i r h in
    let one = recording c i r h p in
    let two = announcing_result kept i r h (recorded_cycle c i r) in
    let three = concluding told i r below waits in
    (
      conclude_cycle i r told,
      next_step one (next_step two (next_step three none_left)),
      λ e q. rw ((Steps-Concluded i r q (Concluded-conclude_cycle told i r below)).result) refl,
    )
