-- ===== src/App/Run.antt =====
-- `run`, `shutDown` and `unexpectedServeExit` of internal/app/app.go. What the signals, the server, the
-- readiness gate and the clock answer is a record.
pub mod Codes
use joy_pi_health.Prelude.{
  ℕ, Bool, true, false, Option, none, some, List, [], ◌∷◌, ◌++◌, if◌then◌else◌, is_some,
}
use joy_pi_health.Result.{Result, ok, err}
use joy_pi_health.Text.{Text, bytes}
use joy_pi_health.Errors.{Error}
use joy_pi_health.Config.CommandLine.{ConfigError, help_requested, message, resolve}

-- What a select of `run` receives: the end of the signal context, a fatal error, the end of `Serve`.
pub data Event : Type 0 where
  signalled fatal_reported : Event
  served : Option Error → Event

-- `served` is what `Serve` returned before the deadline of two seconds.
pub record Stopping : Type 0 where
  pub shutdown_error : Option Error
  pub served : Option (Option Error)

-- Each field that begins with `signalled` or `fatal` is the state at that test.
pub record Lifecycle : Type 0 where
  pub signalled_before : Bool
  pub start_error : Option Error
  pub signalled_by_start : Bool
  pub fatal_by_start : Bool
  pub early : Option Event
  pub notify_error : Option Error
  pub signalled_by_notify : Bool
  pub fatal_by_notify : Bool
  pub late : Event
  pub stopping : Stopping

-- The calls of `run` on the server, and of the readiness gate.
pub data Call : Type 0 where
  shutting closing notifying : Call

-- The exit code, whether the help is written to standard output, the errors that `run` itself reports on
-- standard error, and the calls. The lines that the HTTP server and the degradation reporter write there
-- through the logger are not among the errors.
pub record Exit : Type 0 where
  pub code : ℕ
  pub help : Bool
  pub errors : List Text
  pub calls : List Call

abbrev pub quiet_exit : Exit
quiet_exit = record { code = 0; help = false; errors = []; calls = [] }

abbrev failing_exit : Text → List Call → Exit
failing_exit line calls = record { code = 1; help = false; errors = line ∷ []; calls = calls }

abbrev internal_failure : Text
internal_failure = bytes "operational error: internal service failure"

abbrev shutdown_calls : Stopping → List Call
shutdown_calls s = shutting ∷ (if is_some s.shutdown_error then closing ∷ [] else [])

unfoldable pub shut_down : Stopping → Exit
shut_down s = elim s.served [
  | none ↦
      failing_exit (bytes "operational error: shutdown exceeded two seconds")
        (shutdown_calls s ++ closing ∷ [])
  | some serve_error ↦
      if is_some s.shutdown_error
      then failing_exit (bytes "operational error: graceful shutdown failed") (shutdown_calls s)
      else if is_some serve_error
      then failing_exit (bytes "operational error: HTTP server failed during shutdown")
          (shutdown_calls s)
      else record quiet_exit { calls = shutdown_calls s }
]

unfoldable pub unexpected_serve_exit : Option Error → Exit
unexpected_serve_exit (some e) =
    failing_exit (bytes "operational error: HTTP server failed") (closing ∷ [])
unexpected_serve_exit none =
    failing_exit (bytes "operational error: HTTP server stopped unexpectedly") (closing ∷ [])

-- A failure is logged, and the server is shut down, whose own exit code is dropped.
abbrev fail_and_shut_down : Text → Stopping → Exit
fail_and_shut_down line s = record (shut_down s) { code = 1; errors = line ∷ (shut_down s).errors }

unfoldable pub on_event : Event → Stopping → Exit
unfolding shut_down unexpected_serve_exit
on_event signalled s = shut_down s
on_event fatal_reported s = fail_and_shut_down internal_failure s
on_event (served e) s = unexpected_serve_exit e

abbrev after_notifying : Exit → Exit
after_notifying x = record x { calls = notifying ∷ x.calls }

-- From the notification to the end.
unfoldable pub notify_and_wait : Lifecycle → Exit
unfolding on_event
notify_and_wait l = after_notifying (
    if is_some l.notify_error
    then (if l.signalled_by_notify
        then shut_down l.stopping
        else if l.fatal_by_notify
        then fail_and_shut_down internal_failure l.stopping
        else fail_and_shut_down (bytes "operational error: readiness notification failed")
            l.stopping)
    else on_event l.late l.stopping)

-- From a failure of `startHTTP`.
unfoldable pub start_failed : Lifecycle → Exit
start_failed l =
    if l.signalled_by_start
    then quiet_exit
    else if l.fatal_by_start
    then failing_exit internal_failure []
    else failing_exit (bytes "operational error: service startup failed") []

-- `run` with a configuration.
unfoldable pub operate : Lifecycle → Exit
unfolding start_failed on_event notify_and_wait
operate l =
    if l.signalled_before
    then quiet_exit
    else if is_some l.start_error
    then start_failed l
    else elim l.early [ some e ↦ on_event e l.stopping | none ↦ notify_and_wait l ]

abbrev pub is_help : ConfigError → Bool
is_help help_requested = true
is_help _ = false

-- From an error of `config.Resolve`.
unfoldable pub not_configured : ConfigError → Exit
not_configured e = if is_help e then record quiet_exit { help = true } else record quiet_exit {
  code = 2;
  errors = (bytes "joy-pi-health: configuration error: " ++ message e) ∷ [];
}

unfoldable pub run : List Text → List Text → Lifecycle → Exit
unfolding operate not_configured
run args environment l = elim (resolve args environment) [
  | ok c ↦ operate l
  | err e ↦ not_configured e
]
