-- ===== src/Config/Laws.antt =====
-- What `Resolve` promises: the validity of every configuration, and the precedence of its sources.
use joy_pi_health.Prelude.{
  ℕ, ◌<◌, ◌≡◌, ◌≢◌, refl, ◌⊎◌, inl, inr, Bool, true, false, none, some, List, [], ◌∷◌, ◌++◌, arith,
  if◌then◌else◌, Bool-cases, Option-cases,
}
use joy_pi_health.Result.{Result, ok, err, >>=-eq-ok}
use joy_pi_health.Text.{Text, bytes, text_eq, is_empty, text_eq_iff, text_eq_refl}
use joy_pi_health.Text.Decimal.{format_uint, parse_uint-le}
use joy_pi_health.Text.Decimal.RoundTrip.{
  parse_uint-format_uint, format_uint_digits, format_uint-ne-nil,
}
use joy_pi_health.Config.Address.{
  Address, parse_ipv4, format_address, is_loopback, is_multicast, is_broadcast,
}
use joy_pi_health.Config.Address.Canonical.{
  IsAddress, parse_ipv4-format_address, format_address-parse_ipv4,
}
use joy_pi_health.Config.Grammar.{Line, done, joined, parse_command_line_iff}
use joy_pi_health.Config.CommandLine.{
  environment_listen_address, environment_listen_port, environment_allow_non_loopback,
  environment_log_level, default_listen_address, default_listen_port, default_allow_non_loopback,
  default_log_level, Config, LogLevel, debug, info, warn, error, ConfigError, not_canonical,
  multicast, broadcast, Values, lookup, is_known_option, parse_command_line, parse_environment,
  select_value, parse_address, parse_port, parse_boolean, parse_log_level, validate_texts, resolve,
  asks_for_help, option_listen_address, option_listen_port, option_allow_non_loopback,
  option_log_level,
}

pub record IsValid (c : Config) : Type 0 where
  pub address : IsAddress c.listen_address
  pub no_multicast : is_multicast c.listen_address ≡ false
  pub no_broadcast : is_broadcast c.listen_address ≡ false
  pub port_positive : 0 < c.listen_port
  pub port_16_bits : c.listen_port < 65536
  pub exposed : (is_loopback c.listen_address ≡ true) ⊎ (c.allow_non_loopback ≡ true)

-- `parseAddress` without its canonical check: that check never fails.
pub parse_address_lem :
    (t : Text)
    → parse_address t ≡ elim (parse_ipv4 t) as (λ o. Result ConfigError Address) [
      | none ↦ err not_canonical
      | some x ↦
          if is_multicast x then err multicast else if is_broadcast x then err broadcast else ok x
    ]
unfolding parse_address
parse_address_lem t = elim (Option-cases (parse_ipv4 t)) [
  | inl e ↦ rw (e, parse_address)
  | inr (x, e) ↦
      rw (e, parse_address)
        (rw ((text_eq_iff (format_address x) t).1 (format_address-parse_ipv4 t x e).0))
]

parse_address_inv :
    (t : Text) (x : Address)
    → parse_address t ≡ ok x
    → (is_multicast x ≡ false) × (is_broadcast x ≡ false) × IsAddress x
unfolding parse_address
parse_address_inv t x e = ground (arith, format_address-parse_ipv4 t x)

parse_port_inv : (t : Text) (n : ℕ) → parse_port t ≡ ok n → (0 < n) × (n < 65536)
unfolding parse_port
parse_port_inv t n e = ground (arith, parse_uint-le 10 65535 t n)

validate_texts_inv :
    (a p b l : Text) (c : Config)
    → validate_texts a p b l ≡ ok c
    → (parse_address a ≡ ok c.listen_address)
      × (parse_port p ≡ ok c.listen_port)
      × (parse_boolean b ≡ ok c.allow_non_loopback)
      × (parse_log_level l ≡ ok c.log_level)
      × ((is_loopback c.listen_address ≡ true) ⊎ (c.allow_non_loopback ≡ true))
unfolding validate_texts
validate_texts_inv a p b l c h = ground arith

validate_texts-IsValid : (a p b l : Text) (c : Config) → validate_texts a p b l ≡ ok c → IsValid c
validate_texts-IsValid a p b l c h =
    let (ea, ep, eb, el, exposed) = validate_texts_inv a p b l c h in
    let (m, br, v) = parse_address_inv a c.listen_address ea in
    let (lo, hi) = parse_port_inv p c.listen_port ep in
    record {
      address = v;
      no_multicast = m;
      no_broadcast = br;
      port_positive = lo;
      port_16_bits = hi;
      exposed = exposed;
    }

-- Whatever the arguments and the environment: a configuration that `resolve` returns has an IPv4
-- address that is neither multicast nor broadcast, a port from 1 to 65535, and a listener that is
-- on the loopback unless other exposure is acknowledged.
pub resolve-IsValid :
    (args environment : List Text) (c : Config) → resolve args environment ≡ ok c → IsValid c
unfolding resolve
resolve-IsValid args environment c h = elim (Bool-cases (asks_for_help args)) [
  | inl asked ↦ cc (rw asked at h)
  | inr plain ↦
      let (vs, _, h') = >>=-eq-ok (parse_command_line args) _ (rw plain at h) in
      let (es, _, h'') = >>=-eq-ok (parse_environment environment) _ h' in
      validate_texts-IsValid _ _ _ _ c h''
]

-- The texts of a configuration.
pub boolean_text : Bool → Text
boolean_text true = bytes "true"
boolean_text false = bytes "false"

pub log_level_text : LogLevel → Text
log_level_text debug = bytes "debug"
log_level_text info = bytes "info"
log_level_text warn = bytes "warn"
log_level_text error = bytes "error"

parse_boolean_text : (b : Bool) → parse_boolean (boolean_text b) ≡ ok b
unfolding parse_boolean boolean_text text_eq
parse_boolean_text true = refl
parse_boolean_text false = refl

parse_log_level_text : (l : LogLevel) → parse_log_level (log_level_text l) ≡ ok l
unfolding parse_log_level log_level_text text_eq
parse_log_level_text debug = refl
parse_log_level_text info = refl
parse_log_level_text warn = refl
parse_log_level_text error = refl

is_empty_format : (n : ℕ) → is_empty (format_uint n) ≡ false
is_empty_format n = go (format_uint n) (format_uint-ne-nil n)
  where
    go : (t : Text) → t ≢ [] → is_empty t ≡ false
    go [] h = absurd (h refl)
    go (c ∷ t) h = refl

parse_port_text : (n : ℕ) → 0 < n → n < 65536 → parse_port (format_uint n) ≡ ok n
unfolding parse_port
parse_port_text n lo hi =
    rw (is_empty_format n, format_uint_digits n, parse_uint-format_uint 65535 n (omega arith))
      (ground arith)

parse_address_text :
    (x : Address)
    → IsAddress x
    → is_multicast x ≡ false
    → is_broadcast x ≡ false
    → parse_address (format_address x) ≡ ok x
unfolding parse_address
parse_address_text x v m b =
    rw (parse_ipv4-format_address x v, parse_address, text_eq_refl (format_address x), m, b)

validate_texts_of_IsValid :
    (c : Config)
    → IsValid c
    → validate_texts
        (format_address c.listen_address)
        (format_uint c.listen_port)
        (boolean_text c.allow_non_loopback)
        (log_level_text c.log_level)
      ≡ ok c
unfolding validate_texts
validate_texts_of_IsValid c v =
    rw
      (
        parse_address_text c.listen_address v.address v.no_multicast v.no_broadcast,
        parse_port_text c.listen_port v.port_positive v.port_16_bits,
        parse_boolean_text c.allow_non_loopback,
        parse_log_level_text c.log_level,
      )
      (ground arith)

-- The whole configuration as arguments, each value after `=`.
pub print_arguments : Config → List Text
print_arguments c =
    (bytes "--listen-address=" ++ format_address c.listen_address)
    ∷ (bytes "--listen-port=" ++ format_uint c.listen_port)
    ∷ (bytes "--allow-non-loopback=" ++ boolean_text c.allow_non_loopback)
    ∷ (bytes "--log-level=" ++ log_level_text c.log_level)
    ∷ []

values_of : Config → Values
values_of c =
    (option_log_level, log_level_text c.log_level)
    ∷ (option_allow_non_loopback, boolean_text c.allow_non_loopback)
    ∷ (option_listen_port, format_uint c.listen_port)
    ∷ (option_listen_address, format_address c.listen_address)
    ∷ []

is_empty_address : (x : Address) → is_empty (format_address x) ≡ false
unfolding format_address
is_empty_address x = go (format_uint x.a) _ (format_uint-ne-nil x.a)
  where
    go : (t s : Text) → t ≢ [] → is_empty (t ++ s) ≡ false
    go [] s h = absurd (h refl)
    go (c ∷ t) s h = refl

is_empty_boolean : (b : Bool) → is_empty (boolean_text b) ≡ false
unfolding boolean_text
is_empty_boolean true = refl
is_empty_boolean false = refl

is_empty_level : (l : LogLevel) → is_empty (log_level_text l) ≡ false
unfolding log_level_text
is_empty_level debug = refl
is_empty_level info = refl
is_empty_level warn = refl
is_empty_level error = refl

print_arguments-Line : (c : Config) → Line [] (print_arguments c) (values_of c)
unfolding print_arguments values_of is_known_option lookup text_eq
print_arguments-Line c =
    joined option_listen_address (format_address c.listen_address) _ refl refl refl
      (is_empty_address c.listen_address)
      (joined option_listen_port (format_uint c.listen_port) _ refl refl refl
        (is_empty_format c.listen_port)
        (joined option_allow_non_loopback (boolean_text c.allow_non_loopback) _ refl refl refl
          (is_empty_boolean c.allow_non_loopback)
          (joined option_log_level (log_level_text c.log_level) _ refl refl refl
            (is_empty_level c.log_level) done)))

validate_of_values :
    (c : Config) (es : Values)
    → IsValid c
    → validate_texts
        (select_value
          (values_of c)
          option_listen_address
          es
          environment_listen_address
          default_listen_address)
        (select_value
          (values_of c)
          option_listen_port
          es
          environment_listen_port
          default_listen_port)
        (select_value
          (values_of c)
          option_allow_non_loopback
          es
          environment_allow_non_loopback
          default_allow_non_loopback)
        (select_value (values_of c) option_log_level es environment_log_level default_log_level)
      ≡ ok c
unfolding values_of select_value lookup text_eq
validate_of_values c es v = validate_texts_of_IsValid c v

-- A valid configuration written on the command line is resolved to itself, whatever the
-- environment says, so long as no unknown `JOY_PI_HEALTH_` variable is in it.
pub resolve-print_arguments :
    (c : Config) (environment : List Text) (es : Values)
    → IsValid c
    → parse_environment environment ≡ ok es
    → resolve (print_arguments c) environment ≡ ok c
unfolding resolve print_arguments
resolve-print_arguments c environment es v e =
    rw ((parse_command_line_iff _ _).1 (print_arguments-Line c), e) (validate_of_values c es v)
