-- ===== src/App/Gate.antt =====
-- The readiness gate of internal/app/readiness.go. `notify` holds the lock, and `markFatal` sets one flag
-- before it waits for it: a notification is three steps, up to its send, the test of that flag behind
-- the send, and the assignment of `ready`.
pub mod Once
use joy_pi_health.Prelude.{
  ℕ, ◌+◌, Bool, true, false, not, ◌&&◌, ◌||◌, Option, none, some, List, [], ◌∷◌, if◌then◌else◌,
  is_some,
}
use joy_pi_health.Text.{Text, bytes, text_eq, cut, has_prefix, trim_prefix, is_empty}
use joy_pi_health.Errors.{Error, plain}

-- Where the notification is that holds the lock, if there is one: in its send, or between its last test
-- of `detected` and the assignment of `ready`.
pub data Phase : Type 0 where
  resting sending deciding : Phase

-- `sends` counts the calls of `send`.
pub record Gate : Type 0 where
  pub attempted : Bool
  pub ready : Bool
  pub fatal : Bool
  pub result : Option Error
  pub detected : Bool
  pub phase : Phase
  pub sends : ℕ

abbrev pub new_gate : Gate
new_gate = record {
  attempted = false;
  ready = false;
  fatal = false;
  result = none;
  detected = false;
  phase = resting;
  sends = 0;
}

-- The two steps of `markFatal`.
unfoldable pub detect : Gate → Gate
detect g = record g { detected = true }

unfoldable pub mark_fatal : Gate → Gate
mark_fatal g = record g { fatal = true }

abbrev pub prevented : Error
prevented = plain (bytes "fatal lifecycle transition prevents readiness")

-- `notify` up to its send; it returns at once with the second part. `context` is `ctx.Err()`.
unfoldable pub begin_notify : Option Error → Gate → Gate × Option (Option Error)
begin_notify context g =
    if g.fatal || g.detected then (g, some (some prevented)) else elim context [
      | some e ↦ (g, some (some e))
      | none ↦
          if g.attempted
          then (g, some g.result)
          else (record g { attempted = true; phase = sending; sends = g.sends + 1 }, none)
    ]

-- `notify` from the answer of its send to the result, by a test of `detected`.
unfoldable pub decide : Option Error → Gate → Gate
decide sent g = record g { result = if g.detected then some prevented else sent; phase = deciding }

-- The end of `notify`.
unfoldable pub end_notify : Gate → Gate
end_notify g = record g { ready = not (is_some g.result); phase = resting }

-- `effectiveEnvironmentValue`.
abbrev later_value : Text → Text → Text → Text
later_value key entry value =
    let (name, rest) = cut 0x3d entry in
    elim rest [ none ↦ value | some candidate ↦ if text_eq name key then candidate else value ]

unfoldable pub scan_environment : Text → List Text → Text → Text
scan_environment key [] value = value
scan_environment key (entry ∷ entries) value =
    scan_environment key entries (later_value key entry value)

unfoldable pub effective_environment_value : List Text → Text → Text
unfolding scan_environment
effective_environment_value environment key = scan_environment key environment []

-- A name that begins with `@` is an abstract socket.
unfoldable pub systemd_socket_address : Text → Text
systemd_socket_address socket =
    if has_prefix socket (bytes "@") then 0 ∷ trim_prefix socket (bytes "@") else socket

abbrev pub ready_payload : Text
ready_payload = bytes "READY=1"

-- What `notifySystemdReady` sends to which address, if anything.
unfoldable pub notify_systemd_ready : List Text → Option (Text × Text)
unfolding effective_environment_value systemd_socket_address
notify_systemd_ready environment =
    let socket = effective_environment_value environment (bytes "NOTIFY_SOCKET") in
    if is_empty socket then none else some (systemd_socket_address socket, ready_payload)
