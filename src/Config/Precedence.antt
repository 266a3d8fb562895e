-- ===== src/Config/Precedence.antt =====
-- `Resolve` as a whole, against the grammar of the command line and the last entries of the
-- environment.
use joy_pi_health.Prelude.{
  ◌≡◌, refl, sym, ap, ◌∙◌, ◌↔◌, inl, inr, true, false, Option, none, some, List, [], ◌∷◌, ◌++◌,
  arith, Bool-cases,
}
use joy_pi_health.Result.{Result, ok, >>=-eq-ok}
use joy_pi_health.Text.{Text, bytes, text_eq, text_eq_iff, contains_byte, contains_byte-append_self}
use joy_pi_health.Config.CommandLine.{
  Config, ConfigError, Values, lookup, is_known_environment, parse_command_line, parse_environment,
  select_value, validate_texts, resolve, asks_for_help, option_listen_address, option_listen_port,
  option_allow_non_loopback, option_log_level, option_help, environment_listen_address,
  environment_listen_port, environment_allow_non_loopback, environment_log_level,
  default_listen_address, default_listen_port, default_allow_non_loopback, default_log_level,
}
use joy_pi_health.Config.Grammar.{Line, done, joined, separate, parse_command_line_iff}
use joy_pi_health.Config.Environment.{
  last_value, any_foreign, lookup-parse_environment, parse_environment_of_own, any_foreign_of_ok,
}

abbrev first_of_three : Option Text → Option Text → Text → Text
first_of_three (some v) o fallback = v
first_of_three none (some v) fallback = v
first_of_three none none fallback = fallback

-- The value that counts: of the command line, else the environment's last, else the default.
abbrev pub effective : Values → List Text → Text → Text → Text → Text
effective vs environment option key fallback =
    first_of_three (lookup option vs) (last_value key environment) fallback

select-effective :
    (vs es : Values) (environment : List Text) (option key fallback : Text)
    → is_known_environment key ≡ true
    → parse_environment environment ≡ ok es
    → select_value vs option es key fallback ≡ effective vs environment option key fallback
unfolding select_value
select-effective vs es environment option key fallback k h =
    ground (arith, lookup-parse_environment environment es key k h)

pub validate_effective : Values → List Text → Result ConfigError Config
validate_effective vs environment =
    validate_texts
      (effective vs environment option_listen_address environment_listen_address
        default_listen_address)
      (effective vs environment option_listen_port environment_listen_port default_listen_port)
      (effective vs environment option_allow_non_loopback environment_allow_non_loopback
        default_allow_non_loopback)
      (effective vs environment option_log_level environment_log_level default_log_level)

validate_selected : Values → Values → Result ConfigError Config
validate_selected vs es =
    validate_texts
      (select_value vs option_listen_address es environment_listen_address default_listen_address)
      (select_value vs option_listen_port es environment_listen_port default_listen_port)
      (select_value vs option_allow_non_loopback es environment_allow_non_loopback
        default_allow_non_loopback)
      (select_value vs option_log_level es environment_log_level default_log_level)

validate-effective :
    (vs es : Values) (environment : List Text)
    → parse_environment environment ≡ ok es
    → validate_selected vs es ≡ validate_effective vs environment
unfolding validate_selected validate_effective is_known_environment text_eq
validate-effective vs es environment h = rw (
  select-effective vs es environment option_listen_address environment_listen_address
      default_listen_address refl h,
  select-effective vs es environment option_listen_port environment_listen_port default_listen_port
      refl h,
  select-effective vs es environment option_allow_non_loopback environment_allow_non_loopback
      default_allow_non_loopback refl h,
  select-effective vs es environment option_log_level environment_log_level default_log_level refl
      h,
)

-- The argument that asks for help has no `=`.
joined_not_help :
    (name value argument : Text)
    → argument ≡ bytes "--" ++ (name ++ b'=' ∷ value)
    → text_eq argument (bytes "--" ++ option_help) ≡ false
unfolding contains_byte
joined_not_help name value argument e =
    elim (Bool-cases (text_eq argument (bytes "--" ++ option_help))) [
      | inl same ↦ cc (
        ap (contains_byte b'=') ((text_eq_iff _ _).0 same),
        contains_byte-append_self b'=' (bytes "--" ++ name) value,
      )
      | inr other ↦ other
    ]

-- A line of the grammar is no request for help.
not_help_of_Line :
    {vs ws : Values} {args : List Text} → Line vs args ws → asks_for_help args ≡ false
not_help_of_Line done = refl
not_help_of_Line (joined {rest = []} name value argument e k l n more) =
    joined_not_help name value argument e
not_help_of_Line (joined {rest = a ∷ r} name value argument e k l n more) = refl
not_help_of_Line (separate name value argument e k l n p more) = refl

resolve_parts :
    (args environment : List Text) (c : Config)
    → resolve args environment ≡ ok c
    → (vs : Values) × (es : Values) × (parse_command_line args ≡ ok vs)
      × (parse_environment environment ≡ ok es)
      × (validate_selected vs es ≡ ok c)
unfolding resolve validate_selected
resolve_parts args environment c h = elim (Bool-cases (asks_for_help args)) [
  | inl asked ↦ cc (rw asked at h)
  | inr plain ↦
      let (vs, p, h') = >>=-eq-ok (parse_command_line args) _ (rw plain at h) in
      let (es, q, h'') = >>=-eq-ok (parse_environment environment) _ h' in (vs, es, p, q, h'')
]

resolve_whole :
    (args environment : List Text) (c : Config) (vs es : Values)
    → asks_for_help args ≡ false
    → parse_command_line args ≡ ok vs
    → parse_environment environment ≡ ok es
    → validate_selected vs es ≡ ok c
    → resolve args environment ≡ ok c
unfolding resolve validate_selected
resolve_whole args environment c vs es a p q h = rw (a, p, q) h

-- `resolve` returns a configuration exactly if the arguments are a line of the grammar, the
-- environment holds no unknown variable of the service, and the four texts that count (the
-- command line's, else the environment's last, else the default) are valid and make up that
-- configuration.
pub resolve_iff :
    (args environment : List Text) (c : Config)
    → (resolve args environment ≡ ok c) ↔ (
        (vs : Values) × Line [] args vs
        × (any_foreign environment ≡ false)
        × (validate_effective vs environment ≡ ok c))
resolve_iff args environment c = (
  λ h.
      let (vs, es, p, q, h') = resolve_parts args environment c h in
      (
        vs,
        (parse_command_line_iff args vs).0 p,
        any_foreign_of_ok environment es q,
        sym (validate-effective vs es environment q) ∙ h',
      ),
  λ (vs, line, own, h).
      let q = parse_environment_of_own environment own in
      resolve_whole args environment c vs _ (not_help_of_Line line)
        ((parse_command_line_iff args vs).1 line) q (validate-effective vs _ environment q ∙ h),
)
