-- ===== src/Observe/Firmware.antt =====
-- internal/observe/firmware_executor.go. A request is a number, in the order of the admissions; its
-- token and its result channel are kept under it. Tokens are numbers.
pub mod Invariant
pub mod Work
pub mod Steps
pub mod Ready
pub mod Slot
use joy_pi_health.Prelude.{
  ℕ, suc, ◌+◌, Bool, true, false, not, ◌||◌, Option, none, some, List, [], ◌∷◌, ◌++◌, ◌==◌,
  if◌then◌else◌, is_some,
}
use joy_pi_health.Result.{Result, ok, err}
use joy_pi_health.Text.{bytes}
use joy_pi_health.Errors.{Error, plain, internal_defect}
use joy_pi_health.Observe.Outcome.{
  Outcome, present, unavailable, defect, acquisition_failure, reason_unsupported,
  reason_temporarily_unavailable,
}
use joy_pi_health.Observe.Observations.{FirmwareHealth}
use joy_pi_health.Observe.Coordinator.Cycle.{firmware_zero}
use joy_pi_health.Observe.RaspberryPi.{firmware_health_from_mask}

pub record FirmwareResult : Type 0 where
  pub token : Option ℕ
  pub outcome : Outcome FirmwareHealth

-- The result channel has room for one result.
pub record FirmwareRequest : Type 0 where
  pub token : Option ℕ
  pub result : Option FirmwareResult

-- Where `run` is: not begun, at its select, in the transaction, between the result and the unlocking
-- of `busy`, and after its end.
pub data Worker : Type 0 where
  unborn idle ended : Worker
  transacting returned : ℕ → Worker

pub record FirmwareExecutor : Type 0 where
  pub started : Bool
  pub stopping : Bool
  pub busy : Bool
  pub failed : Option Error
  pub queue : List ℕ
  pub worker : Worker
  pub next : ℕ
  pub requests : ℕ → FirmwareRequest
  pub fatal_calls : ℕ

abbrev pub no_request : FirmwareRequest
no_request = record { token = none; result = none }

abbrev pub new_firmware_executor : FirmwareExecutor
new_firmware_executor = record {
  started = false;
  stopping = false;
  busy = false;
  failed = none;
  queue = [];
  worker = unborn;
  next = 0;
  requests = λ i. no_request;
  fatal_calls = 0;
}

unfoldable pub start : FirmwareExecutor → Result Error FirmwareExecutor
start e =
    if e.started || e.stopping || is_some e.failed
    then err (plain (bytes "firmware executor cannot be started"))
    else ok (record e { started = true; worker = idle })

-- `none` is the error `nil`.
unfoldable pub ready : FirmwareExecutor → Option Error
ready e =
    if not e.started || e.stopping || e.busy || is_some e.failed
    then some (plain (bytes "firmware executor is not ready"))
    else none

-- What `Observe` does before its select: it returns, or waits for a request.
pub data Admission : Type 0 where
  refused : Outcome FirmwareHealth → Admission
  admitted : ℕ → Admission

abbrev pub put_request : (ℕ → FirmwareRequest) → ℕ → FirmwareRequest → ℕ → FirmwareRequest
put_request f i a j = if i == j then a else f j

unfoldable pub reserve : Option ℕ → FirmwareExecutor → FirmwareExecutor
reserve token e = record e {
  busy = true;
  queue = e.queue ++ e.next ∷ [];
  next = suc e.next;
  requests = put_request e.requests e.next (record { token = token; result = none });
}

-- `live` is that the context is not nil.
unfoldable pub admit : Bool → Option ℕ → FirmwareExecutor → FirmwareExecutor × Admission
unfolding reserve
admit live token e =
    if not live || not (is_some token)
    then (
      e,
      refused (
          defect
            (some (plain (bytes "firmware observation requires a context and cycle identity")))),
    )
    else elim e.failed [
      | some d ↦ (e, refused (defect (some d)))
      | none ↦
          if not e.started || e.stopping
          then (e, refused (defect (some (plain (bytes "firmware executor is not running")))))
          else if e.busy
          then (
            e,
            refused (
                unavailable reason_temporarily_unavailable
                  (some (plain (bytes "firmware executor is busy")))),
          )
          else (reserve token e, admitted e.next)
    ]

abbrev pub same_token : Option ℕ → Option ℕ → Bool
same_token none none = true
same_token (some s) (some t) = s == t
same_token _ _ = false

-- The select of `Observe` with a result, and with a context that is over.
unfoldable pub receive : Option ℕ → FirmwareResult → Outcome FirmwareHealth
receive token r =
    if same_token r.token token
    then r.outcome
    else defect (some (plain (bytes "firmware result has the wrong cycle identity")))

unfoldable pub abandon : Option Error → Outcome FirmwareHealth
abandon cause = unavailable reason_temporarily_unavailable cause

-- A result that is sent to a request, unless its channel is full.
unfoldable pub deliver : ℕ → Outcome FirmwareHealth → FirmwareExecutor → FirmwareExecutor
deliver i v e = elim (e.requests i).result [
  | some r ↦ e
  | none ↦ record e {
    requests = put_request e.requests i (record {
      token = (e.requests i).token;
      result = some (record { token = (e.requests i).token; outcome = v });
    });
  }
]

-- The outcome of a transaction.
unfoldable pub transaction_outcome : Result Error ℕ → Outcome FirmwareHealth
transaction_outcome (ok mask) = present (firmware_health_from_mask mask)
transaction_outcome (err e) = acquisition_failure (some e) reason_unsupported

abbrev pub end_failed : FirmwareExecutor → FirmwareExecutor
end_failed x = record x { worker = ended; fatal_calls = x.fatal_calls + 1 }

-- The deferred function of `run` after a panic, with the active request: a full channel would block it
-- before its end.
unfoldable pub recover : Option ℕ → Error → FirmwareExecutor → FirmwareExecutor
unfolding deliver
recover active e x =
    let y = record x { failed = some (internal_defect e) } in
    elim active [
      | none ↦ end_failed y
      | some i ↦ elim (x.requests i).result [
        | some r ↦ y
        | none ↦ end_failed (deliver i (defect (some (internal_defect e))) y)
      ]
    ]

-- `run` takes a request from its channel. Without a token it panics.
unfoldable pub take_request : ℕ → List ℕ → FirmwareExecutor → FirmwareExecutor
unfolding recover
take_request i rest e = elim (e.requests i).token [
  | none ↦
      recover none (plain (bytes "firmware executor accepted an empty cycle identity"))
        (record e { queue = rest })
  | some t ↦ record e { queue = rest; worker = transacting i }
]

-- The end of a transaction, and then the unlocking of `busy`.
unfoldable pub return_result : ℕ → Result Error ℕ → FirmwareExecutor → FirmwareExecutor
unfolding deliver transaction_outcome
return_result i r e = record (deliver i (transaction_outcome r) e) { worker = returned i }

unfoldable pub free_slot : FirmwareExecutor → FirmwareExecutor
free_slot e = record e { busy = false; worker = idle }

-- `run` sees that `stop` is closed.
unfoldable pub end_run : FirmwareExecutor → FirmwareExecutor
end_run e = record e { worker = ended }

-- `Close` with a context, up to its wait, which it leaves without an error.
unfoldable pub close : FirmwareExecutor → FirmwareExecutor
close e = if e.started then record e { stopping = true } else e
