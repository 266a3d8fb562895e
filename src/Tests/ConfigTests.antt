-- ===== src/Tests/ConfigTests.antt =====
-- The configuration at concrete command lines and environments.
use joy_pi_health.Prelude.{◌≡◌, refl, ◌↔◌, inl, true, false, List, [], ◌∷◌, arith}
use joy_pi_health.Result.{ok, err}
use joy_pi_health.Text.{Text, bytes, has_prefix, text_eq, cut, trim_prefix, split}
use joy_pi_health.Text.Decimal.{parse_uint, format_uint}
use joy_pi_health.Config.Address.{
  parse_octet, parse_ipv4, format_address, is_loopback, is_multicast, is_broadcast,
}
use joy_pi_health.Config.CommandLine.{
  Config, warn, Values, lookup, is_known_option, is_known_environment, check_name, read_option,
  store, parse_command_line, parse_environment, select_value, parse_address, parse_port,
  parse_boolean, parse_log_level, resolve, repeated, requires_value, not_acknowledged,
  help_requested, unknown_environment, multicast, environment_listen_port,
}
use joy_pi_health.Config.Grammar.{Line, parse_command_line_iff}
use joy_pi_health.Config.Environment.{
  last_value, any_foreign, parse_environment_iff, lookup-parse_environment,
}
use joy_pi_health.Config.Laws.{IsValid, resolve-IsValid, print_arguments, resolve-print_arguments}
use joy_pi_health.Config.Precedence.{validate_effective, resolve_iff}

abbrev arguments : List Text
arguments = bytes "--listen-port=9000" ∷ bytes "--log-level" ∷ bytes "warn" ∷ []

abbrev entries : List Text
entries =
    bytes "HOME=/" ∷ bytes "JOY_PI_HEALTH_LISTEN_PORT=1" ∷ bytes "JOY_PI_HEALTH_LISTEN_PORT=81" ∷ []

abbrev local : Config
local = record {
  listen_address = record { a = 127; b = 0; c = 0; d = 1 };
  listen_port = 9000;
  allow_non_loopback = false;
  log_level = warn;
}

running : Unit {0}
unfolding resolve parse_command_line read_option check_name store lookup is_known_option
    is_known_environment has_prefix text_eq cut trim_prefix parse_environment select_value
    parse_address parse_port parse_boolean parse_log_level parse_ipv4 parse_octet split parse_uint
    format_uint format_address is_loopback is_multicast is_broadcast last_value
running = tt

resolves : resolve arguments entries ≡ ok local
unfolding running
resolves = refl

refusals :
    (resolve (bytes "--listen-port=1" ∷ bytes "--listen-port" ∷ bytes "2" ∷ []) []
      ≡ err (repeated (bytes "listen-port")))
    × (resolve (bytes "--log-level" ∷ bytes "--help" ∷ []) []
        ≡ err (requires_value (bytes "log-level")))
    × (resolve (bytes "--help" ∷ []) [] ≡ err help_requested)
    × (resolve (bytes "--listen-address=0.0.0.0" ∷ []) [] ≡ err not_acknowledged)
    × (resolve (bytes "--listen-address=224.0.0.1" ∷ []) [] ≡ err multicast)
    × (resolve [] (bytes "JOY_PI_HEALTH_PORT=1" ∷ []) ≡ err unknown_environment)
unfolding running
refusals = (refl, refl, refl, refl, refl, refl)

local-IsValid : IsValid local
unfolding is_loopback is_multicast is_broadcast
local-IsValid = record {
  address = omega arith;
  no_multicast = refl;
  no_broadcast = refl;
  port_positive = omega arith;
  port_16_bits = omega arith;
  exposed = inl refl;
}

resolve-IsValid_example : IsValid local
resolve-IsValid_example = resolve-IsValid arguments entries local resolves

environment_read :
    parse_environment entries
    ≡ ok ((environment_listen_port, bytes "81") ∷ (environment_listen_port, bytes "1") ∷ [])
unfolding running
environment_read = refl

resolve-print_arguments_example : resolve (print_arguments local) entries ≡ ok local
resolve-print_arguments_example =
    resolve-print_arguments local entries _ local-IsValid environment_read

resolve_iff_example : (resolve arguments entries ≡ ok local) ↔ (
    (vs : Values) × Line [] arguments vs
    × (any_foreign entries ≡ false)
    × (validate_effective vs entries ≡ ok local))
resolve_iff_example = resolve_iff arguments entries local

parse_command_line_iff_example :
    (parse_command_line arguments
      ≡ ok ((bytes "log-level", bytes "warn") ∷ (bytes "listen-port", bytes "9000") ∷ []))
    ↔ Line [] arguments
        ((bytes "log-level", bytes "warn") ∷ (bytes "listen-port", bytes "9000") ∷ [])
parse_command_line_iff_example = parse_command_line_iff arguments _

parse_environment_iff_example :
    (parse_environment (bytes "JOY_PI_HEALTH_PORT=1" ∷ []) ≡ err unknown_environment)
    ↔ (any_foreign (bytes "JOY_PI_HEALTH_PORT=1" ∷ []) ≡ true)
parse_environment_iff_example = parse_environment_iff (bytes "JOY_PI_HEALTH_PORT=1" ∷ [])

lookup-parse_environment_example :
    lookup environment_listen_port
      ((environment_listen_port, bytes "81") ∷ (environment_listen_port, bytes "1") ∷ [])
    ≡ last_value environment_listen_port entries
unfolding is_known_environment text_eq
lookup-parse_environment_example =
    lookup-parse_environment entries _ environment_listen_port refl environment_read
