-- ===== src/Tests/SharedTests.antt =====
-- The coordinator's shared state at one cycle that ends in a defect.
use joy_pi_health.Prelude.{ℕ, ◌<◌, ◌≡◌, refl, ◌⊎◌, true, none, some, arith, is_some}
use joy_pi_health.Result.{err}
use joy_pi_health.Text.{bytes}
use joy_pi_health.Errors.{Error, plain, internal_defect, is_internal_defect}
use joy_pi_health.Observe.Coordinator.Shared.{
  Coordinator, new_coordinator, live, refused, waiting, notify, start_cycle, join, snapshot, answer,
  recorded, record_result, announce_result, conclude_cycle,
}
use joy_pi_health.Observe.Coordinator.Shared.Steps.{
  Reach, fresh, later, Step, calling, recording, announcing_result, concluding, Steps, next_step,
  none_left, WaitsForOnly, snapshot_live,
}
use joy_pi_health.Observe.Coordinator.Shared.Announced.{defect_announced, failure_owed}
use joy_pi_health.Observe.Coordinator.Shared.Failure.{failure_persists, answer_comes}

abbrev broken : Error
broken = internal_defect (plain (bytes "broken"))

abbrev called : Coordinator
called = (snapshot live new_coordinator).0

abbrev kept : Coordinator
kept = record_result 0 (err broken) called

abbrev told : Coordinator
told = conclude_cycle 0 (err broken) (announce_result 0 (err broken) kept)

Reach-called : Reach called
Reach-called = later fresh (calling new_coordinator live)

begun : 0 < kept.next
unfolding snapshot join start_cycle record_result
begun = omega arith

recorded_kept : kept.cycles 0 ≡ recorded (err broken)
unfolding snapshot join start_cycle record_result
recorded_kept = refl

Reach-kept : Reach kept
unfolding snapshot join start_cycle
Reach-kept = later Reach-called (recording called 0 (err broken) (omega arith) refl)

Reach-told : Reach told
unfolding announce_result notify is_internal_defect
Reach-told =
    later (later Reach-kept (announcing_result kept 0 (err broken) begun recorded_kept))
      (concluding (announce_result 0 (err broken) kept) 0 (err broken) begun refl)

snapshot_live_example :
    ((e : Error) × called.failed ≡ some e × snapshot live called ≡ (called, refused e))
    ⊎ ((i : ℕ) × called.failed ≡ none
        × (snapshot live called).1 ≡ waiting i
        × WaitsForOnly i (snapshot live called).0)
snapshot_live_example = snapshot_live Reach-called

defect_announced_example : (is_some told.failed ≡ true) × (told.fatal_calls ≡ 1)
unfolding snapshot join start_cycle record_result announce_result conclude_cycle notify answer
    is_internal_defect
defect_announced_example = defect_announced 0 broken Reach-told (omega arith) refl refl

-- A call is refused between the lock and the announcement.
failed_kept : kept.failed ≡ some broken
unfolding snapshot join start_cycle record_result is_internal_defect
failed_kept = refl

failure_owed_example :
    (kept.fatal_calls ≡ 1)
    ⊎ ((kept.fatal_calls ≡ 0) × ((d : Coordinator) × Step kept d × (d.fatal_calls ≡ 1)))
failure_owed_example = failure_owed broken Reach-kept failed_kept

failed_told : told.failed ≡ some broken
unfolding snapshot join start_cycle record_result announce_result conclude_cycle notify
    is_internal_defect
failed_told = refl

failure_persists_example :
    ((snapshot live told).0.failed ≡ some broken)
    × ((snapshot live told).0.next ≡ told.next)
    × (snapshot live (snapshot live told).0 ≡ ((snapshot live told).0, refused broken))
failure_persists_example =
    failure_persists broken (next_step (calling told live) none_left) failed_told

answer_comes_example :
    (d : Coordinator) × Steps called d
    × ((e : Coordinator) → Steps d e → answer 0 e ≡ some (err broken))
unfolding snapshot join start_cycle
answer_comes_example = answer_comes {c = called} 0 (err broken) (omega arith) refl
