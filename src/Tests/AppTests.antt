-- ===== src/Tests/AppTests.antt =====
-- The lifecycle of the process at one run, a startup without a listener, the gate at a failure during a notification.
use joy_pi_health.Prelude.{◌≤◌, ◌≡◌, ◌≢◌, ◌↔◌, refl, ◌⊎◌, true, false, none, some, [], is_some}
use joy_pi_health.Result.{ok, err}
use joy_pi_health.Text.{bytes}
use joy_pi_health.Errors.{plain}
use joy_pi_health.Config.CommandLine.{Config, ConfigError, help_requested, resolve}
use joy_pi_health.App.Run.{Lifecycle, signalled, run, operate}
use joy_pi_health.App.Run.Codes.{IsStopped, run_exit, releases, notifications, server_released}
use joy_pi_health.App.Startup.{StartAnswers, start_http}
use joy_pi_health.App.Startup.Release.{left, no_parts, first_failure, start_http_releases}
use joy_pi_health.App.Gate.{Gate, new_gate, prevented, begin_notify, decide, end_notify, detect}
use joy_pi_health.App.Gate.Once.{
  Reach, fresh, later, beginning, detecting, deciding_result, ending, next_step, none_left,
  fatal_prevents_ready,
}

abbrev stopped : Lifecycle
stopped = record {
  signalled_before = false;
  start_error = none;
  signalled_by_start = false;
  fatal_by_start = false;
  early = none;
  notify_error = none;
  signalled_by_notify = false;
  fatal_by_notify = false;
  late = signalled;
  stopping = record { shutdown_error = none; served = some none };
}

run_exit_example :
    (((run [] [] stopped).code ≡ 0) ↔ (
      (resolve [] [] ≡ err help_requested)
      ⊎ ((c : Config) × (resolve [] [] ≡ ok c) × IsStopped stopped)))
    × (((run [] [] stopped).code ≡ 2)
        ↔ ((e : ConfigError) × (resolve [] [] ≡ err e) × (e ≢ help_requested)))
    × ((run [] [] stopped).code ≤ 2)
    × (((run [] [] stopped).errors ≡ []) ↔ ((run [] [] stopped).code ≡ 0))
    × (((run [] [] stopped).help ≡ true) ↔ (resolve [] [] ≡ err help_requested))
run_exit_example = run_exit [] [] stopped

server_released_example :
    ((stopped.signalled_before ≡ false)
      × (stopped.start_error ≡ none)
      × (1 ≤ releases (operate stopped).calls)
      × (notifications (operate stopped).calls ≤ 1))
    ⊎ (((stopped.signalled_before ≡ true) ⊎ (is_some stopped.start_error ≡ true))
        × ((operate stopped).calls ≡ []))
server_released_example = server_released stopped

abbrev no_listener : StartAnswers
no_listener = record {
  new_observer = none;
  new_executor = none;
  start_executor = none;
  new_reporter = none;
  wire_coordinator = none;
  listen = some (plain (bytes "address in use"));
  start_observer = none;
  probe = none;
  executor_ready = none;
}

start_http_releases_example :
    ((start_http no_listener).0 ≡ first_failure no_listener)
    × (left no_parts (start_http no_listener).1 ≡ no_parts)
start_http_releases_example = start_http_releases no_listener

abbrev asked : Gate
asked = (begin_notify none new_gate).0

abbrev failed_while_sending : Gate
failed_while_sending = detect asked

Reach-failed_while_sending : Reach failed_while_sending
Reach-failed_while_sending = later (later fresh (beginning new_gate none refl)) (detecting asked)

abbrev notified : Gate
notified = end_notify (decide none failed_while_sending)

fatal_prevents_ready_example :
    (notified.ready ≡ false)
    × (notified.sends ≤ 1)
    × (begin_notify none notified ≡ (notified, some (some prevented)))
unfolding begin_notify detect decide
fatal_prevents_ready_example =
    fatal_prevents_ready none Reach-failed_while_sending
      (next_step (deciding_result failed_while_sending none refl)
        (next_step (ending (decide none failed_while_sending) refl) none_left))
      refl (refl, λ p. cc)
