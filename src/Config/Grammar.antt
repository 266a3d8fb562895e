-- ===== src/Config/Grammar.antt =====
-- The command lines that are accepted, as a grammar: what `parse_command_line` reads and refuses.
use joy_pi_health.Prelude.{
  ◌≡◌, refl, ap, subst, ◌∙◌, inl, inr, ◌↔◌, true, false, Option, none, some, List, [], ◌∷◌, ◌++◌,
  arith, Bool-cases,
}
use joy_pi_health.Result.{Result, ok, >>=-eq-ok}
use joy_pi_health.Text.{
  Text, bytes, text_eq, is_empty, has_prefix, trim_prefix, cut, contains_byte, text_eq_iff,
  has_prefix-append, trim_prefix-append, has_prefix-eq-append, cut-append, cut-eq-some, cut-eq-none,
  cut_absent,
}
use joy_pi_health.Config.CommandLine.{
  Values, ConfigError, lookup, is_known_option, check_name, read_option, store,
  parse_command_line_from, parse_command_line, option_help, option_listen_port,
  option_listen_address, option_allow_non_loopback, option_log_level,
}

abbrev dashes : Text
dashes = bytes "--"

-- A command line that gives the options of a map one by one, each as `--name=value` or as
-- `--name value`, the newest entry of the map last.
pub data Line : Values → List Text → Values → Type 0 where
  done : {vs : Values} → Line vs [] vs
  joined :
      {vs ws : Values} {rest : List Text} (name value argument : Text)
      → argument ≡ dashes ++ (name ++ b'=' ∷ value)
      → is_known_option name ≡ true
      → lookup name vs ≡ none
      → is_empty value ≡ false
      → Line ((name, value) ∷ vs) rest ws
      → Line vs (argument ∷ rest) ws
  separate :
      {vs ws : Values} {rest : List Text} (name value argument : Text)
      → argument ≡ dashes ++ name
      → is_known_option name ≡ true
      → lookup name vs ≡ none
      → is_empty value ≡ false
      → has_prefix value dashes ≡ false
      → Line ((name, value) ∷ vs) rest ws
      → Line vs (argument ∷ value ∷ rest) ws

-- The names of the options hold no `=`, and none of them is `help`.
known_no_equals : (name : Text) → is_known_option name ≡ true → contains_byte b'=' name ≡ false
unfolding is_known_option contains_byte
known_no_equals name h = ground (
  arith,
  text_eq_iff name option_listen_address,
  text_eq_iff name option_listen_port,
  text_eq_iff name option_allow_non_loopback,
  text_eq_iff name option_log_level,
)

known_not_help : (name : Text) → is_known_option name ≡ true → text_eq name option_help ≡ false
unfolding is_known_option text_eq
known_not_help name h = ground (
  arith,
  text_eq_iff name option_listen_address,
  text_eq_iff name option_listen_port,
  text_eq_iff name option_allow_non_loopback,
  text_eq_iff name option_log_level,
)

check_name_known :
    (vs : Values) (name : Text)
    → is_known_option name ≡ true
    → lookup name vs ≡ none
    → check_name vs name ≡ ok tt
unfolding check_name
check_name_known vs name h k = rw (known_not_help name h, h, k)

read_option_joined :
    (vs : Values) (name value : Text)
    → is_known_option name ≡ true
    → lookup name vs ≡ none
    → read_option vs (dashes ++ (name ++ b'=' ∷ value)) ≡ ok (name, some value)
unfolding read_option
read_option_joined vs name value h k = rw (
  has_prefix-append dashes (name ++ b'=' ∷ value),
  trim_prefix-append dashes (name ++ b'=' ∷ value),
  cut-append b'=' name value (known_no_equals name h),
  check_name_known vs name h k,
)

read_option_separate :
    (vs : Values) (name : Text)
    → is_known_option name ≡ true
    → lookup name vs ≡ none
    → read_option vs (dashes ++ name) ≡ ok (name, none)
unfolding read_option
read_option_separate vs name h k = rw (
  has_prefix-append dashes name,
  trim_prefix-append dashes name,
  cut_absent b'=' name (known_no_equals name h),
  check_name_known vs name h k,
)

-- What a successful `read_option` says of its argument.
abbrev Reads : Values → Text → Text → Option Text → Type 0
Reads vs argument name (some value) =
    (argument ≡ dashes ++ (name ++ b'=' ∷ value))
    × (is_known_option name ≡ true)
    × (lookup name vs ≡ none)
Reads vs argument name none =
    (argument ≡ dashes ++ name) × (is_known_option name ≡ true) × (lookup name vs ≡ none)

check_name_inv :
    (vs : Values) (name : Text)
    → check_name vs name ≡ ok tt
    → (is_known_option name ≡ true) × (lookup name vs ≡ none)
unfolding check_name
check_name_inv vs name h = ground arith

read_option_parts :
    (vs : Values) (argument : Text) {r : Text × Option Text}
    → read_option vs argument ≡ ok r
    → (has_prefix argument dashes ≡ true)
      × (check_name vs (cut b'=' (trim_prefix argument dashes)).0 ≡ ok tt)
      × (cut b'=' (trim_prefix argument dashes) ≡ r)
unfolding read_option
read_option_parts vs argument h = ground arith

Reads-of_cut :
    (vs : Values) (argument body name : Text) (value : Option Text)
    → argument ≡ dashes ++ body
    → cut b'=' body ≡ (name, value)
    → is_known_option name ≡ true
    → lookup name vs ≡ none
    → Reads vs argument name value
Reads-of_cut vs argument body name none e c k l =
    (e ∙ ap (λ t. dashes ++ t) (cut-eq-none b'=' body (ap (λ r. r.1) c) ∙ ap (λ r. r.0) c), k, l)
Reads-of_cut vs argument body name (some value) e c k l = (
  e
      ∙ ap (λ t. dashes ++ t)
          (cut-eq-some b'=' body value (ap (λ r. r.1) c) ∙ ap (λ r. r.0 ++ b'=' ∷ value) c),
  k,
  l,
)

read_option_inv :
    (vs : Values) (argument name : Text) (value : Option Text)
    → read_option vs argument ≡ ok (name, value)
    → Reads vs argument name value
read_option_inv vs argument name value h =
    let (prefixed, checked, same) = read_option_parts vs argument h in
    let (known, fresh) = check_name_inv vs _ checked in
    Reads-of_cut vs argument (trim_prefix argument dashes) name value
      (has_prefix-eq-append argument dashes prefixed) same
      (subst (λ n. is_known_option n ≡ true) (ap (λ r. r.0) same) known)
      (subst (λ n. lookup n vs ≡ none) (ap (λ r. r.0) same) fresh)

store_inv :
    (vs ws : Values) (name value : Text)
    → store vs name value ≡ ok ws
    → (is_empty value ≡ false) × (ws ≡ (name, value) ∷ vs)
unfolding store
store_inv vs ws name value h = ground arith

store_ok :
    (vs : Values) (name value : Text)
    → is_empty value ≡ false
    → store vs name value ≡ ok ((name, value) ∷ vs)
unfolding store
store_ok vs name value h = rw h

-- Every line of the grammar is read, into the map that it gives.
pub parse_of_Line :
    {vs ws : Values} {args : List Text} → Line vs args ws → parse_command_line_from vs args ≡ ok ws
unfolding parse_command_line_from has_prefix
parse_of_Line done = refl
parse_of_Line {vs} (joined name value argument e k l n done) =
    rw (e, read_option_joined vs name value k l, store_ok vs name value n)
parse_of_Line {vs} (joined {rest = a ∷ r} name value argument e k l n line) =
    let ih = parse_of_Line line in
    rw (e, read_option_joined vs name value k l, store_ok vs name value n) ih
parse_of_Line {vs} (separate name value argument e k l n p line) =
    let ih = parse_of_Line line in
    rw (e, read_option_separate vs name k l, p, store_ok vs name value n) ih

Line-joined :
    {vs us ws : Values} {rest : List Text} (argument name value : Text)
    → Reads vs argument name (some value)
    → store vs name value ≡ ok us
    → Line us rest ws
    → Line vs (argument ∷ rest) ws
Line-joined {vs} {us} {ws} {rest} argument name value (e, k, l) s line =
    let (n, same) = store_inv vs us name value s in
    joined name value argument e k l n (subst (λ u. Line u rest ws) same line)

Line-separate :
    {vs us ws : Values} {rest : List Text} (argument name value : Text)
    → Reads vs argument name none
    → has_prefix value dashes ≡ false
    → store vs name value ≡ ok us
    → Line us rest ws
    → Line vs (argument ∷ value ∷ rest) ws
Line-separate {vs} {us} {ws} {rest} argument name value (e, k, l) p s line =
    let (n, same) = store_inv vs us name value s in
    separate name value argument e k l n p (subst (λ u. Line u rest ws) same line)

ok-injective :
    {vs ws : Values} → (ok vs) ≡ (let r : Result ConfigError Values = ok ws in r) → vs ≡ ws
ok-injective h = cc

Line-last :
    (vs ws : Values) (argument : Text) (r : Text × Option Text)
    → read_option vs argument ≡ ok r
    → parse_command_line_from vs (argument ∷ []) ≡ ok ws
    → Line vs (argument ∷ []) ws
unfolding parse_command_line_from
Line-last vs ws argument (name, none) e h = cc (rw e at h)
Line-last vs ws argument (name, some value) e h =
    Line-joined argument name value (read_option_inv vs argument name _ e) (rw e at h) done

Line-next :
    (vs ws : Values) (argument next : Text) (rest : List Text) (r : Text × Option Text)
    → read_option vs argument ≡ ok r
    → parse_command_line_from vs (argument ∷ next ∷ rest) ≡ ok ws
    → ((us : Values) → parse_command_line_from us rest ≡ ok ws → Line us rest ws)
    → ((us : Values) → parse_command_line_from us (next ∷ rest) ≡ ok ws → Line us (next ∷ rest) ws)
    → Line vs (argument ∷ next ∷ rest) ws
unfolding parse_command_line_from has_prefix
Line-next vs ws argument next rest (name, none) e h ih ih' =
    elim (Bool-cases (has_prefix next dashes)) [
      | inl p ↦ cc (rw (e, p) at h)
      | inr p ↦
          let (us, s, more) = >>=-eq-ok (store vs name next) _ (rw (e, p) at h) in
          Line-separate argument name next (read_option_inv vs argument name _ e) p s (ih us more)
    ]
Line-next vs ws argument next rest (name, some value) e h ih ih' =
    let (us, s, more) = >>=-eq-ok (store vs name value) _ (rw e at h) in
    Line-joined argument name value (read_option_inv vs argument name _ e) s (ih' us more)

-- What is read is a line of the grammar.
pub Line-of_parse :
    (vs : Values) (args : List Text) (ws : Values)
    → parse_command_line_from vs args ≡ ok ws
    → Line vs args ws
unfolding parse_command_line_from
Line-of_parse vs [] ws h = subst (λ w. Line vs [] w) (ok-injective h) done
Line-of_parse vs (argument ∷ []) ws h =
    let (r, read, more) = >>=-eq-ok (read_option vs argument) _ h in
    Line-last vs ws argument r read h
Line-of_parse vs (argument ∷ next ∷ rest) ws h =
    let (r, read, more) = >>=-eq-ok (read_option vs argument) _ h in
    Line-next vs ws argument next rest r read h (λ us. Line-of_parse us rest ws)
      (λ us. Line-of_parse us (next ∷ rest) ws)

-- `parse_command_line` returns a map exactly for the command lines of the grammar that give it:
-- each option known, given once and with a value that is not empty, a value in an argument of its
-- own not beginning with two dashes.
pub parse_command_line_iff :
    (args : List Text) (ws : Values) → (parse_command_line args ≡ ok ws) ↔ Line [] args ws
unfolding parse_command_line
parse_command_line_iff args ws = (Line-of_parse [] args ws, parse_of_Line)
