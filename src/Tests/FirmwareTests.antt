-- ===== src/Tests/FirmwareTests.antt =====
-- The firmware executor, started, and at one transaction.
use joy_pi_health.Prelude.{ℕ, ◌≡◌, refl, Bool, true, Option, none, some, []}
use joy_pi_health.Result.{ok}
use joy_pi_health.Observe.Firmware.{
  FirmwareExecutor, new_firmware_executor, start, admit, reserve, take_request, return_result,
  close, transacting, idle,
}
use joy_pi_health.Observe.Firmware.Steps.{Reach, fresh, later, starting, observing, taking}
use joy_pi_health.Observe.Firmware.Ready.{transaction_exclusive}

abbrev begun : FirmwareExecutor
begun = record new_firmware_executor { started = true; worker = idle }

abbrev asked : FirmwareExecutor
asked = (admit true (some 5) begun).0

abbrev busy : FirmwareExecutor
busy = take_request 0 [] asked

Reach-begun : Reach begun
unfolding start
Reach-begun = later fresh (starting new_firmware_executor begun refl)

Reach-busy : Reach busy
unfolding admit reserve
Reach-busy = later (later Reach-begun (observing begun true (some 5))) (taking asked 0 [] refl refl)

transacting_busy : busy.worker ≡ transacting 0
unfolding admit reserve take_request
transacting_busy = refl

transaction_exclusive_example :
    (busy.queue ≡ [])
    × ((busy.requests 0).result ≡ none)
    × ((live : Bool) (token : Option ℕ) → (admit live token busy).0 ≡ busy)
transaction_exclusive_example = transaction_exclusive 0 Reach-busy transacting_busy

abbrev finished : FirmwareExecutor
finished = return_result 0 (ok 0x50005) busy

-- The executor is closed between the result and the unlocking of the slot.
abbrev closed : FirmwareExecutor
closed = close finished
