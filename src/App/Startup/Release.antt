-- ===== src/App/Startup/Release.antt =====
-- What a startup of internal/app/app.go that fails leaves behind.
use joy_pi_health.Prelude.{
  ◌≡◌, Bool, true, false, not, ◌&&◌, Option, none, some, List, [], ◌∷◌, arith, is_some,
}
use joy_pi_health.Errors.{Error}
use joy_pi_health.Snapshot.Validate.{◌or_else◌}
use joy_pi_health.App.Startup.{
  Action, observer_created, firmware_created, firmware_started, server_listening, observer_started,
  server_closed, observer_closed, firmware_closed, StartAnswers, start_http, wire_up,
  start_and_probe,
}

-- The parts of the runtime that are not closed: an observer, an executor, the worker of an executor, and a
-- server.
pub record Parts : Type 0 where
  pub observer : Bool
  pub executor : Bool
  pub worker : Bool
  pub server : Bool

abbrev pub no_parts : Parts
no_parts = record { observer = false; executor = false; worker = false; server = false }

abbrev pub all_parts : Parts
all_parts = record { observer = true; executor = true; worker = true; server = true }

abbrev pub after : Action → Parts → Parts
after observer_created p = record p { observer = true }
after firmware_created p = record p { executor = true }
after firmware_started p = record p { worker = true }
after server_listening p = record p { server = true }
after observer_started p = p
after server_closed p = record p { server = false }
after observer_closed p = record p { observer = false }
after firmware_closed p = record p { executor = false; worker = false }

abbrev pub left : Parts → List Action → Parts
left p [] = p
left p (a ∷ rest) = left (after a p) rest

-- The first error, in the order of the source.
abbrev pub first_failure : StartAnswers → Option Error
first_failure a =
    a.new_observer or_else a.new_executor or_else a.start_executor or_else a.new_reporter
    or_else a.wire_coordinator or_else a.listen or_else a.start_observer or_else a.probe
    or_else a.executor_ready

-- The executor is created and cannot be started.
abbrev pub is_stuck : StartAnswers → Bool
is_stuck a =
    not (is_some a.new_observer) && not (is_some a.new_executor) && is_some a.start_executor

-- What is left: everything of a startup without an error, and nothing of one with an error but an executor
-- that could not be started.
abbrev pub remains : StartAnswers → Parts
remains a = elim (first_failure a) [
  | none ↦ all_parts
  | some e ↦ record no_parts { executor = is_stuck a }
]

-- The startup returns the first error of its steps. With one, the observer, the server and the worker of
-- the executor have been closed again if they were created or started, and the executor too, unless the
-- error is that of its start; without one, all of them are there.
pub start_http_releases :
    (a : StartAnswers)
    → ((start_http a).0 ≡ first_failure a) × (left no_parts (start_http a).1 ≡ remains a)
unfolding start_http wire_up start_and_probe
start_http_releases a = ground arith
