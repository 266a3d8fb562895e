-- ===== src/Config/Environment.antt =====
-- The environment: which entries count, and which are refused.
use joy_pi_health.Prelude.{
  ◌≡◌, refl, ◌↔◌, ◌∙◌, Bool, true, false, not, ◌&&◌, ◌||◌, Option, none, some, List, [], ◌∷◌, arith,
  if◌then◌else◌,
}
use joy_pi_health.Result.{ok, err}
use joy_pi_health.Text.{Text, text_eq, has_prefix, cut, text_eq_iff}
use joy_pi_health.Config.CommandLine.{
  Values, unknown_environment, lookup, is_known_environment, environment_prefix, value_or_empty,
  parse_environment_from, parse_environment,
}

abbrev pub entry_name : Text → Text
entry_name entry = (cut b'=' entry).0

abbrev pub entry_value : Text → Text
entry_value entry = value_or_empty (cut b'=' entry).1

-- An entry that is refused: it has the service's prefix and names no variable of the service.
abbrev pub is_foreign : Text → Bool
is_foreign entry =
    has_prefix (entry_name entry) environment_prefix
    && not (is_known_environment (entry_name entry))

-- The value of the last entry with this name.
unfoldable pub last_value : Text → List Text → Option Text
last_value key [] = none
last_value key (entry ∷ rest) = elim (last_value key rest) [
  | some value ↦ some value
  | none ↦ if text_eq (entry_name entry) key then some (entry_value entry) else none
]

abbrev or_else : Option Text → Option Text → Option Text
or_else none o = o
or_else (some v) o = some v

lookup-parse_from :
    (vs ws : Values) (entries : List Text) (key : Text)
    → is_known_environment key ≡ true
    → parse_environment_from vs entries ≡ ok ws
    → lookup key ws ≡ or_else (last_value key entries) (lookup key vs)
unfolding parse_environment_from last_value lookup
lookup-parse_from vs ws [] key k h = ground arith
lookup-parse_from vs ws (entry ∷ rest) key k h = ground (
  arith,
  text_eq_iff (entry_name entry) key,
  lookup-parse_from ((entry_name entry, entry_value entry) ∷ vs) ws rest key k,
  lookup-parse_from vs ws rest key k,
)

-- Of several entries for one variable the last counts.
pub lookup-parse_environment :
    (entries : List Text) (ws : Values) (key : Text)
    → is_known_environment key ≡ true
    → parse_environment entries ≡ ok ws
    → lookup key ws ≡ last_value key entries
unfolding parse_environment lookup
lookup-parse_environment entries ws key k h =
    ground (arith, lookup-parse_from [] ws entries key k h)

abbrev pub any_foreign : List Text → Bool
any_foreign [] = false
any_foreign (entry ∷ rest) = is_foreign entry || any_foreign rest

-- The entries that name a variable of the service, the last first.
pub effective_from : Values → List Text → Values
effective_from vs [] = vs
effective_from vs (entry ∷ rest) =
    effective_from
      (if is_known_environment (entry_name entry)
        then (entry_name entry, entry_value entry) ∷ vs
        else vs)
      rest

parse_from_lem :
    (vs : Values) (entries : List Text)
    → parse_environment_from vs entries
      ≡ (if any_foreign entries then err unknown_environment else ok (effective_from vs entries))
unfolding parse_environment_from effective_from
parse_from_lem vs [] = refl
parse_from_lem vs (entry ∷ rest) = ground (
  arith,
  parse_from_lem ((entry_name entry, entry_value entry) ∷ vs) rest,
  parse_from_lem vs rest,
)

-- The environment is refused exactly if an entry has the service's prefix and an unknown name;
-- entries of other names, with `=` or without, are passed over.
pub parse_environment_iff :
    (entries : List Text)
    → (parse_environment entries ≡ err unknown_environment) ↔ (any_foreign entries ≡ true)
unfolding parse_environment
parse_environment_iff entries =
    (λ h. ground (arith, parse_from_lem [] entries), λ h. parse_from_lem [] entries ∙ rw h)

pub parse_environment_of_own :
    (entries : List Text)
    → any_foreign entries ≡ false
    → parse_environment entries ≡ ok (effective_from [] entries)
unfolding parse_environment
parse_environment_of_own entries h = parse_from_lem [] entries ∙ rw h

pub any_foreign_of_ok :
    (entries : List Text) (ws : Values)
    → parse_environment entries ≡ ok ws
    → any_foreign entries ≡ false
unfolding parse_environment
any_foreign_of_ok entries ws h = ground (arith, parse_from_lem [] entries)
