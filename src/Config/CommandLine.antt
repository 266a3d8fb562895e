-- ===== src/Config/CommandLine.antt =====
-- `Resolve` and the parsers that it calls. A Go map is an association list whose newest entry
-- comes first.
use joy_pi_health.Prelude.{
  ℕ, Bool, true, false, not, ◌&&◌, ◌||◌, Option, none, some, List, [], ◌∷◌, ◌++◌, ◌==◌,
  if◌then◌else◌, all, is_some,
}
use joy_pi_health.Result.{Result, ok, err, ◌>>=◌}
use joy_pi_health.Text.{Text, bytes, text_eq, is_empty, has_prefix, trim_prefix, cut}
use joy_pi_health.Text.Decimal.{parse_uint, is_digit}
use joy_pi_health.Config.Address.{
  Address, parse_ipv4, format_address, is_loopback, is_multicast, is_broadcast,
}

abbrev pub option_listen_address : Text
option_listen_address = bytes "listen-address"

abbrev pub option_listen_port : Text
option_listen_port = bytes "listen-port"

abbrev pub option_allow_non_loopback : Text
option_allow_non_loopback = bytes "allow-non-loopback"

abbrev pub option_log_level : Text
option_log_level = bytes "log-level"

abbrev pub option_help : Text
option_help = bytes "help"

abbrev pub environment_prefix : Text
environment_prefix = bytes "JOY_PI_HEALTH_"

abbrev pub environment_listen_address : Text
environment_listen_address = environment_prefix ++ bytes "LISTEN_ADDRESS"

abbrev pub environment_listen_port : Text
environment_listen_port = environment_prefix ++ bytes "LISTEN_PORT"

abbrev pub environment_allow_non_loopback : Text
environment_allow_non_loopback = environment_prefix ++ bytes "ALLOW_NON_LOOPBACK"

abbrev pub environment_log_level : Text
environment_log_level = environment_prefix ++ bytes "LOG_LEVEL"

abbrev pub default_listen_address : Text
default_listen_address = bytes "127.0.0.1"

abbrev pub default_listen_port : Text
default_listen_port = bytes "8080"

abbrev pub default_allow_non_loopback : Text
default_allow_non_loopback = bytes "false"

abbrev pub default_log_level : Text
default_log_level = bytes "info"

pub data LogLevel : Type 0 where
  debug info warn error : LogLevel

pub record Config : Type 0 where
  pub listen_address : Address
  pub listen_port : ℕ
  pub allow_non_loopback : Bool
  pub log_level : LogLevel

-- `ErrHelp`, and one constructor for each configuration diagnostic.
pub data ConfigError : Type 0 where
  help_requested : ConfigError
  not_an_option : ConfigError
  help_not_sole : ConfigError
  unknown_option : ConfigError
  repeated requires_value empty_value : Text → ConfigError
  unknown_environment : ConfigError
  not_canonical multicast broadcast : ConfigError
  port_empty port_invalid : ConfigError
  not_boolean : ConfigError
  not_log_level : ConfigError
  not_acknowledged : ConfigError

abbrev pub Values : Type 0
Values = List (Text × Text)

-- `values[key]`.
unfoldable pub lookup : Text → Values → Option Text
lookup k [] = none
lookup k ((j, v) ∷ m) = if text_eq j k then some v else lookup k m

unfoldable pub is_known_option : Text → Bool
is_known_option name =
    text_eq name option_listen_address
    || text_eq name option_listen_port
    || text_eq name option_allow_non_loopback
    || text_eq name option_log_level

unfoldable pub is_known_environment : Text → Bool
is_known_environment name =
    text_eq name environment_listen_address
    || text_eq name environment_listen_port
    || text_eq name environment_allow_non_loopback
    || text_eq name environment_log_level

-- The tests on an argument's name, before its value is looked for.
unfoldable pub check_name : Values → Text → Result ConfigError (Unit {0})
check_name values name =
    if text_eq name option_help
    then err help_not_sole
    else if not (is_known_option name)
    then err unknown_option
    else if is_some (lookup name values)
    then err (repeated name)
    else ok tt

-- The name of an option, and its value where the argument has one after `=`.
unfoldable pub read_option : Values → Text → Result ConfigError (Text × Option Text)
read_option values argument =
    if not (has_prefix argument (bytes "--"))
    then err not_an_option
    else (check_name values (cut b'=' (trim_prefix argument (bytes "--"))).0 >>= λ _.
        ok (cut b'=' (trim_prefix argument (bytes "--"))))

unfoldable pub store : Values → Text → Text → Result ConfigError Values
store values name value =
    if is_empty value then err (empty_value name) else ok ((name, value) ∷ values)

-- The loop over the arguments. An option without `=` takes the next argument, unless that begins
-- with two dashes.
unfoldable pub parse_command_line_from : Values → List Text → Result ConfigError Values
parse_command_line_from values [] = ok values
parse_command_line_from values (argument ∷ []) = read_option values argument >>= λ (name, joined).
    elim joined [ none ↦ err (requires_value name) | some value ↦ store values name value ]
parse_command_line_from values (argument ∷ next ∷ rest) =
    read_option values argument >>= λ (name, joined). elim joined [
      | none ↦ elim (has_prefix next (bytes "--")) [
        | true ↦ err (requires_value name)
        | false ↦ store values name next >>= λ vs. parse_command_line_from vs rest
      ]
      | some value ↦ store values name value >>= λ vs. parse_command_line_from vs (next ∷ rest)
    ]

unfoldable pub parse_command_line : List Text → Result ConfigError Values
unfolding parse_command_line_from
parse_command_line args = parse_command_line_from [] args

-- `value, found := strings.Cut(entry, "=")`, with the empty value where there is no `=`.
abbrev pub value_or_empty : Option Text → Text
value_or_empty none = []
value_or_empty (some v) = v

unfoldable pub parse_environment_from : Values → List Text → Result ConfigError Values
parse_environment_from values [] = ok values
parse_environment_from values (entry ∷ rest) =
    let name = (cut b'=' entry).0 in
    let value = value_or_empty (cut b'=' entry).1 in
    let known = is_known_environment name in
    if has_prefix name environment_prefix && not known
    then err unknown_environment
    else parse_environment_from (if known then (name, value) ∷ values else values) rest

unfoldable pub parse_environment : List Text → Result ConfigError Values
unfolding parse_environment_from
parse_environment entries = parse_environment_from [] entries

unfoldable pub select_value : Values → Text → Values → Text → Text → Text
select_value command_line option environment key fallback = elim (lookup option command_line) [
  | some value ↦ value
  | none ↦ elim (lookup key environment) [ some value ↦ value | none ↦ fallback ]
]

unfoldable pub parse_address : Text → Result ConfigError Address
parse_address value = elim (parse_ipv4 value) [
  | none ↦ err not_canonical
  | some address ↦
      if not (text_eq (format_address address) value)
      then err not_canonical
      else if is_multicast address
      then err multicast
      else if is_broadcast address
      then err broadcast
      else ok address
]

unfoldable pub parse_port : Text → Result ConfigError ℕ
parse_port value =
    if is_empty value
    then err port_empty
    else if not (all is_digit value)
    then err port_invalid
    else elim (parse_uint 10 65535 value) [
      | none ↦ err port_invalid
      | some port ↦ if port == 0 then err port_invalid else ok port
    ]

unfoldable pub parse_boolean : Text → Result ConfigError Bool
parse_boolean value =
    if text_eq value (bytes "true")
    then ok true
    else if text_eq value (bytes "false")
    then ok false
    else err not_boolean

unfoldable pub parse_log_level : Text → Result ConfigError LogLevel
parse_log_level value =
    if text_eq value (bytes "debug")
    then ok debug
    else if text_eq value (bytes "info")
    then ok info
    else if text_eq value (bytes "warn")
    then ok warn
    else if text_eq value (bytes "error")
    then ok error
    else err not_log_level

abbrev pub asks_for_help : List Text → Bool
asks_for_help [] = false
asks_for_help (argument ∷ []) = text_eq argument (bytes "--" ++ option_help)
asks_for_help (argument ∷ next ∷ rest) = false

-- The last test: a listener that is not on the loopback must be acknowledged.
abbrev acknowledged : Config → Result ConfigError Config
acknowledged c =
    if not (is_loopback c.listen_address) && not c.allow_non_loopback
    then err not_acknowledged
    else ok c

unfoldable pub validate_texts : Text → Text → Text → Text → Result ConfigError Config
validate_texts address_text port_text allow_text log_level_text = do
  address ← parse_address address_text
  port ← parse_port port_text
  allow ← parse_boolean allow_text
  level ← parse_log_level log_level_text
  acknowledged (record {
    listen_address = address;
    listen_port = port;
    allow_non_loopback = allow;
    log_level = level;
  })

unfoldable pub resolve : List Text → List Text → Result ConfigError Config
unfolding validate_texts
resolve args environment =
    let resolved : Result ConfigError Config = parse_command_line args >>= λ command_line.
    parse_environment environment >>= λ effective.
    validate_texts
      (select_value command_line option_listen_address effective environment_listen_address
        default_listen_address)
      (select_value command_line option_listen_port effective environment_listen_port
        default_listen_port)
      (select_value command_line option_allow_non_loopback effective environment_allow_non_loopback
        default_allow_non_loopback)
      (select_value command_line option_log_level effective environment_log_level
        default_log_level) in
    if asks_for_help args then err help_requested else resolved

-- The text of a diagnostic.
pub message : ConfigError → Text
message help_requested = bytes "help requested"
message not_an_option = bytes "positional and single-dash arguments are not supported"
message help_not_sole = bytes "--help must be used as the sole argument"
message unknown_option = bytes "unknown command-line option"
message (repeated name) = bytes "command-line option --" ++ (name ++ bytes " was repeated")
message (requires_value name) =
    bytes "command-line option --" ++ (name ++ bytes " requires a value")
message (empty_value name) = bytes "command-line option --" ++ (name ++ bytes " cannot be empty")
message unknown_environment = bytes "unknown JOY_PI_HEALTH_ environment variable"
message not_canonical = bytes "listen address must be a canonical IPv4 literal"
message multicast = bytes "multicast listen addresses are not supported"
message broadcast = bytes "broadcast listen addresses are not supported"
message port_empty = bytes "listen port cannot be empty"
message port_invalid = bytes "listen port must be a decimal integer from 1 through 65535"
message not_boolean = bytes "allow-non-loopback must be exactly true or false"
message not_log_level = bytes "log level must be debug, info, warn, or error"
message not_acknowledged = bytes "wildcard or non-loopback binding requires allow-non-loopback=true"
