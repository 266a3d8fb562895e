-- ===== src/Observe/Firmware/Slot.antt =====
-- How the slot of the executor of internal/observe/firmware_executor.go comes back after a transaction,
-- whatever its callers and its closing do in between.
use joy_pi_health.Prelude.{
  ℕ, ◌<◌, ◌≡◌, ap, inl, inr, true, none, some, is_some, Bool-cases, Option-cases,
}
use joy_pi_health.Result.{Result}
use joy_pi_health.Errors.{Error}
use joy_pi_health.Observe.Outcome.{Outcome}
use joy_pi_health.Observe.Coordinator.Cycle.{firmware_zero}
use joy_pi_health.Observe.Firmware.{FirmwareResult, FirmwareExecutor, returned, transaction_outcome}
use joy_pi_health.Observe.Firmware.Invariant.{Inv}
use joy_pi_health.Observe.Firmware.Steps.{Steps}

-- The channel of a request holds a result.
record Answered (i : ℕ) (v : FirmwareResult) (e : FirmwareExecutor) : Type 0 where
  below : i < e.next
  holds : (e.requests i).result ≡ some v

-- The result that the end of a transaction sends.
abbrev pub sent : FirmwareExecutor → ℕ → Result Error ℕ → FirmwareResult
sent e i r = record { token = (e.requests i).token; outcome = transaction_outcome r }

-- Behind its result the worker runs, without a failure.
running :
    {d : FirmwareExecutor} (i : ℕ)
    → Inv d
    → d.worker ≡ returned i
    → (d.started ≡ true) × (d.failed ≡ none)
running {d = d} i v w = (
  elim (Bool-cases d.started) [ inl s ↦ s | inr s ↦ absurd (cc ((v.unstarted s).0)) ],
  elim (Option-cases d.failed) [ inl f ↦ f | inr (e, f) ↦ absurd (cc (v.dead (ap is_some f))) ],
)
