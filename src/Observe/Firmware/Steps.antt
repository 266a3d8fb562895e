-- ===== src/Observe/Firmware/Steps.antt =====
-- The steps of the executor of internal/observe/firmware_executor.go, in any order of the callers, the
-- worker and the closing.
use joy_pi_health.Prelude.{ℕ, ◌≡◌, Bool, true, Option, some, List, ◌∷◌}
use joy_pi_health.Result.{Result, ok}
use joy_pi_health.Errors.{Error}
use joy_pi_health.Observe.Coordinator.Cycle.{firmware_zero}
use joy_pi_health.Observe.Firmware.{
  idle, transacting, returned, FirmwareExecutor, new_firmware_executor, start, admit, recover,
  take_request, return_result, free_slot, end_run, close,
}
use joy_pi_health.Observe.Firmware.Invariant.{Inv, Inv-new, start-Inv, close-Inv, admit-Inv}
use joy_pi_health.Observe.Firmware.Work.{
  free_slot-Inv, end_run-Inv, take_request-Inv, return_result-Inv, recover-Inv,
}

pub data Step : FirmwareExecutor → FirmwareExecutor → Type 0 where
  starting : (e d : FirmwareExecutor) → start e ≡ ok d → Step e d
  observing :
      (e : FirmwareExecutor) (live : Bool) (token : Option ℕ) → Step e (admit live token e).0
  closing : (e : FirmwareExecutor) → Step e (close e)
  taking :
      (e : FirmwareExecutor) (i : ℕ) (rest : List ℕ)
      → e.worker ≡ idle
      → e.queue ≡ i ∷ rest
      → Step e (take_request i rest e)
  returning :
      (e : FirmwareExecutor) (i : ℕ) (r : Result Error ℕ)
      → e.worker ≡ transacting i
      → Step e (return_result i r e)
  -- A panic of the transaction.
  panicking :
      (e : FirmwareExecutor) (i : ℕ) (d : Error)
      → e.worker ≡ transacting i
      → Step e (recover (some i) d e)
  freeing : (e : FirmwareExecutor) (i : ℕ) → e.worker ≡ returned i → Step e (free_slot e)
  ending : (e : FirmwareExecutor) → e.worker ≡ idle → e.stopping ≡ true → Step e (end_run e)

pub data Reach : FirmwareExecutor → Type 0 where
  fresh : Reach new_firmware_executor
  later : {e d : FirmwareExecutor} → Reach e → Step e d → Reach d

-- A list of steps.
pub data Steps : FirmwareExecutor → FirmwareExecutor → Type 0 where
  none_left : {e : FirmwareExecutor} → Steps e e
  next_step : {c d e : FirmwareExecutor} → Step c d → Steps d e → Steps c e

Step-Inv : {e d : FirmwareExecutor} → Step e d → Inv e → Inv d
Step-Inv (starting e d h) v = start-Inv e d h v
Step-Inv (observing e live token) v = admit-Inv e live token v
Step-Inv (closing e) v = close-Inv e v
Step-Inv (taking e i rest w q) v = take_request-Inv e i rest w q v
Step-Inv (returning e i r w) v = return_result-Inv e i r w v
Step-Inv (panicking e i d w) v = recover-Inv e i d w v
Step-Inv (freeing e i w) v = free_slot-Inv e i w v
Step-Inv (ending e w s) v = end_run-Inv e w s v

pub Reach-Inv : {e : FirmwareExecutor} → Reach e → Inv e
Reach-Inv fresh = Inv-new
Reach-Inv (later r s) = Step-Inv s (Reach-Inv r)
