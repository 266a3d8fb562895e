-- ===== src/Observe/Coordinator/Shared/Steps.antt =====
-- The steps of the coordinator of internal/observe/coordinator.go, and what holds of every state
-- that they reach.
use joy_pi_health.Prelude.{
  ℕ, ◌≤◌, ◌<◌, ◌≡◌, refl, sym, subst, ◌⊎◌, inl, inr, true, Option, none, some, arith, if◌then◌else◌,
  is_some, Option-cases,
}
use joy_pi_health.Result.{Result}
use joy_pi_health.Errors.{Error}
use joy_pi_health.Snapshot.Encode.{Encoded}
use joy_pi_health.Observe.Coordinator.Shared.{
  Cycle, collecting, recorded, announced, concluded, Coordinator, new_coordinator, RequestContext,
  absent, live, over, refused, waiting, keep_failure, announce_failure, start_cycle, join, snapshot,
  is_defect, record_result, announce_result, conclude_cycle,
}

-- A call of `Snapshot` up to its wait or its end, the rest of `fail`, the end of a collection with any
-- result, its announcement, and the release of its callers.
pub data Step : Coordinator → Coordinator → Type 0 where
  calling : (c : Coordinator) (context : RequestContext) → Step c (snapshot context c).0
  announcing_failure : (c : Coordinator) → 1 ≤ c.announcing → Step c (announce_failure c)
  recording :
      (c : Coordinator) (i : ℕ) (r : Result Error Encoded)
      → i < c.next
      → c.cycles i ≡ collecting
      → Step c (record_result i r c)
  announcing_result :
      (c : Coordinator) (i : ℕ) (r : Result Error Encoded)
      → i < c.next
      → c.cycles i ≡ recorded r
      → Step c (announce_result i r c)
  concluding :
      (c : Coordinator) (i : ℕ) (r : Result Error Encoded)
      → i < c.next
      → c.cycles i ≡ announced r
      → Step c (conclude_cycle i r c)

pub data Reach : Coordinator → Type 0 where
  fresh : Reach new_coordinator
  later : {c d : Coordinator} → Reach c → Step c d → Reach d

-- The result of a cycle behind its collection, and behind its announcement.
abbrev pub kept_result : Cycle → Option (Result Error Encoded)
kept_result collecting = none
kept_result (recorded r) = some r
kept_result (announced r) = some r
kept_result (concluded r) = some r

abbrev pub told_result : Cycle → Option (Result Error Encoded)
told_result collecting = none
told_result (recorded r) = none
told_result (announced r) = some r
told_result (concluded r) = some r

-- The cycle that is active is the one that collects, and the first defect is kept and announced.
pub record Inv (c : Coordinator) : Type 0 where
  pub started : (i : ℕ) → c.active ≡ some i → (i < c.next) × (c.cycles i ≡ collecting)
  pub single : (i : ℕ) → i < c.next → c.cycles i ≡ collecting → c.active ≡ some i
  pub kept :
      (i : ℕ) (r : Result Error Encoded)
      → i < c.next
      → kept_result (c.cycles i) ≡ some r
      → is_defect r ≡ true
      → is_some c.failed ≡ true
  pub told :
      (i : ℕ) (r : Result Error Encoded)
      → i < c.next
      → told_result (c.cycles i) ≡ some r
      → is_defect r ≡ true
      → c.notified ≡ true
  pub calls : c.fatal_calls ≡ (if c.notified then 1 else 0)
  pub caused : c.notified ≡ true → is_some c.failed ≡ true
  pub owed : 1 ≤ c.announcing → is_some c.failed ≡ true

Inv-new : Inv new_coordinator
Inv-new = record {
  started = λ i e. cc;
  single = λ i h e. absurd (omega arith);
  kept = λ i r h. absurd (omega arith);
  told = λ i r h. absurd (omega arith);
  calls = refl;
  caused = λ e. cc;
  owed = λ h. absurd (omega arith);
}

start_cycle-Inv : (c : Coordinator) → c.active ≡ none → Inv c → Inv (start_cycle c)
unfolding start_cycle
start_cycle-Inv c o v = record {
  started = λ j p. ground (arith, v.started j);
  single = λ j p q. ground (arith, v.single j);
  kept = λ j s p q d. ground (arith, v.kept j s);
  told = λ j s p q d. ground (arith, v.told j s);
  calls = v.calls;
  caused = v.caused;
  owed = v.owed;
}

-- `join` starts a cycle exactly if nothing failed and none is active.
pub join_cases :
    (c : Coordinator)
    → ((join c).0 ≡ c) ⊎ (c.failed ≡ none × c.active ≡ none × (join c).0 ≡ start_cycle c)
unfolding join
join_cases c = elim (Option-cases c.failed) [
  | inl n ↦ elim (Option-cases c.active) [
    | inl o ↦ inr (n, o, rw (n, o) refl)
    | inr (i, o) ↦ inl (rw (n, o) refl)
  ]
  | inr (e, n) ↦ inl (rw n refl)
]

join-Inv : (c : Coordinator) → Inv c → Inv (join c).0
join-Inv c v = elim (join_cases c) [
  | inl p ↦ subst (λ d. Inv d) (sym p) v
  | inr (n, o, p) ↦ subst (λ d. Inv d) (sym p) (start_cycle-Inv c o v)
]

keep_failure-Inv : (e : Error) (c : Coordinator) → Inv c → Inv (keep_failure e c).0
unfolding keep_failure
keep_failure-Inv e c v = record {
  started = v.started;
  single = v.single;
  kept = λ j s p q d. refl;
  told = v.told;
  calls = v.calls;
  caused = λ n. refl;
  owed = λ h. refl;
}

announce_failure-Inv : (c : Coordinator) → 1 ≤ c.announcing → Inv c → Inv (announce_failure c)
unfolding announce_failure
announce_failure-Inv c h v = record {
  started = v.started;
  single = v.single;
  kept = v.kept;
  told = λ j s p q d. refl;
  calls = ground (arith, v.calls);
  caused = λ n. v.owed h;
  owed = λ n. v.owed h;
}

snapshot-Inv : (context : RequestContext) (c : Coordinator) → Inv c → Inv (snapshot context c).0
unfolding snapshot
snapshot-Inv absent c v = keep_failure-Inv _ c v
snapshot-Inv (over e) c v = v
snapshot-Inv live c v = join-Inv c v

record_result-Inv :
    (c : Coordinator) (i : ℕ) (r : Result Error Encoded)
    → i < c.next
    → c.cycles i ≡ collecting
    → Inv c
    → Inv (record_result i r c)
unfolding record_result
record_result-Inv c i r h e v = record {
  started = λ j p. ground (arith, v.started j, v.single i);
  single = λ j p q. ground (arith, v.single j);
  kept = λ j s p q d. ground (arith, v.kept j s);
  told = λ j s p q d. ground (arith, v.told j s);
  calls = v.calls;
  caused = λ n. ground (arith, v.caused);
  owed = λ n. ground (arith, v.owed);
}

announce_result-Inv :
    (c : Coordinator) (i : ℕ) (r : Result Error Encoded)
    → i < c.next
    → c.cycles i ≡ recorded r
    → Inv c
    → Inv (announce_result i r c)
unfolding announce_result
announce_result-Inv c i r h e v = record {
  started = λ j p. ground (arith, v.started j);
  single = λ j p q. ground (arith, v.single j);
  kept = λ j s p q d. ground (arith, v.kept j s, v.kept i r);
  told = λ j s p q d. ground (arith, v.told j s);
  calls = ground (arith, v.calls);
  caused = λ n. ground (arith, v.caused, v.kept i r);
  owed = λ n. ground (arith, v.owed);
}

conclude_cycle-Inv :
    (c : Coordinator) (i : ℕ) (r : Result Error Encoded)
    → i < c.next
    → c.cycles i ≡ announced r
    → Inv c
    → Inv (conclude_cycle i r c)
unfolding conclude_cycle
conclude_cycle-Inv c i r h e v = record {
  started = λ j p. ground (arith, v.started j);
  single = λ j p q. ground (arith, v.single j);
  kept = λ j s p q d. ground (arith, v.kept j s, v.kept i r);
  told = λ j s p q d. ground (arith, v.told j s, v.told i r);
  calls = v.calls;
  caused = v.caused;
  owed = v.owed;
}

Step-Inv : {c d : Coordinator} → Step c d → Inv c → Inv d
Step-Inv (calling c context) v = snapshot-Inv context c v
Step-Inv (recording c i r h e) v = record_result-Inv c i r h e v
Step-Inv (announcing_failure c h) v = announce_failure-Inv c h v
Step-Inv (announcing_result c i r h e) v = announce_result-Inv c i r h e v
Step-Inv (concluding c i r h e) v = conclude_cycle-Inv c i r h e v

pub Reach-Inv : {c : Coordinator} → Reach c → Inv c
Reach-Inv fresh = Inv-new
Reach-Inv (later r s) = Step-Inv s (Reach-Inv r)

-- A list of steps.
pub data Steps : Coordinator → Coordinator → Type 0 where
  none_left : {c : Coordinator} → Steps c c
  next_step : {c d e : Coordinator} → Step c d → Steps d e → Steps c e

pub Steps-Reach : {c d : Coordinator} → Steps c d → Reach c → Reach d
Steps-Reach none_left r = r
Steps-Reach (next_step s p) r = Steps-Reach p (later r s)

-- The cycle of a live call collects, and no other does.
pub record WaitsForOnly (i : ℕ) (d : Coordinator) : Type 0 where
  pub is_started : i < d.next
  pub collects : d.cycles i ≡ collecting
  pub only : (j : ℕ) → j < d.next → d.cycles j ≡ collecting → j ≡ i

reply_of_join :
    (c : Coordinator)
    → ((e : Error) × c.failed ≡ some e × join c ≡ (c, refused e))
      ⊎ ((i : ℕ) × c.failed ≡ none × (join c).0.active ≡ some i × (join c).1 ≡ waiting i)
unfolding join start_cycle
reply_of_join c = elim (Option-cases c.failed) [
  | inl n ↦ elim (Option-cases c.active) [
    | inl o ↦ inr (c.next, n, rw (n, o) refl, rw (n, o) refl)
    | inr (i, o) ↦ inr (i, n, rw (n, o) refl, rw (n, o) refl)
  ]
  | inr (e, n) ↦ inl (e, n, rw n refl)
]

-- In every state that the coordinator reaches, a live call is refused with the kept failure and
-- changes nothing, or nothing has failed, and it waits for a cycle that collects, the only one.
pub snapshot_live :
    {c : Coordinator}
    → Reach c
    → ((e : Error) × c.failed ≡ some e × snapshot live c ≡ (c, refused e))
      ⊎ ((i : ℕ) × c.failed ≡ none
          × (snapshot live c).1 ≡ waiting i
          × WaitsForOnly i (snapshot live c).0)
unfolding snapshot
snapshot_live {c = c} r = elim (reply_of_join c) [
  | inl found ↦ inl found
  | inr (i, n, a, w) ↦
      let v = join-Inv c (Reach-Inv r) in
      inr (
        i,
        n,
        w,
        record {
          is_started = (v.started i a).0;
          collects = (v.started i a).1;
          only = λ j h p. ground (arith, v.single j h p);
        },
      )
]
