-- ===== src/Text/Decimal/RoundTrip.antt =====
-- Printing and reading a decimal number are inverse to each other.
use mathlib.Core.List.{append-nil}
use mathlib.Core.Logic.{◌≢◌}
use joy_pi_health.Prelude.{
  ℕ, zero, suc, ◌+◌, ◌*◌, ◌/◌, ◌%◌, ◌≤◌, ◌<◌, ◌≡◌, refl, ◌∙◌, true, false, some, [], ◌∷◌, ◌++◌,
  arith, all,
}
use joy_pi_health.Text.{Text, contains_byte}
use joy_pi_health.Text.Decimal.{
  is_digit, digit_value, parse_step, parse_from, parse_uint, format_from, format_uint,
}

-- More fuel changes nothing.
format_from_fuel :
    (f g n : ℕ) (acc : Text) → n < f → n < g → format_from f n acc ≡ format_from g n acc
unfolding format_from
format_from_fuel zero g n acc h k = elim h [ ]
format_from_fuel (suc f) zero n acc h k = elim k [ ]
format_from_fuel (suc f) (suc g) n acc h k =
    ground (arith, format_from_fuel f g (n / 10) ((b'0' + n % 10) ∷ acc))

format_step :
    (n d : ℕ) (acc : Text)
    → 0 < n
    → d < 10
    → format_from (suc (n * 10 + d)) (n * 10 + d) acc ≡ format_from (suc n) n ((b'0' + d) ∷ acc)
unfolding format_from
format_step n d acc h k = ground (arith, format_from_fuel (n * 10 + d) (suc n) n ((b'0' + d) ∷ acc))

-- The value of the digit of a number.
digit_value_digit : (d : ℕ) → d < 10 → digit_value (b'0' + d) ≡ d
unfolding digit_value
digit_value_digit d h = ground arith

digit_of_value : (c : ℕ) → digit_value c < 10 → b'0' + digit_value c ≡ c
unfolding digit_value
digit_of_value c h = ground arith

parse_step-digit :
    (limit acc d : ℕ)
    → d < 10
    → acc * 10 + d ≤ limit
    → parse_step 10 limit acc (b'0' + d) ≡ some (acc * 10 + d)
unfolding parse_step
parse_step-digit limit acc d h k = ground (arith, digit_value_digit d h)

parse_format_from :
    (f limit n : ℕ) (rest : Text)
    → n < f
    → n ≤ limit
    → parse_from 10 limit 0 (format_from f n rest) ≡ parse_from 10 limit n rest
unfolding parse_from format_from
parse_format_from zero limit n rest h k = elim h [ ]
parse_format_from (suc f) limit n rest h k = ground (
  arith,
  parse_format_from f limit (n / 10) ((b'0' + n % 10) ∷ rest),
  parse_step-digit limit (n / 10) (n % 10),
  parse_step-digit limit 0 (n % 10),
)

format_from-ne-nil : (f n : ℕ) (rest : Text) → n < f → format_from f n rest ≢ []
unfolding format_from
format_from-ne-nil zero n rest h = elim h [ ]
format_from-ne-nil (suc f) n rest h =
    ground (arith, format_from-ne-nil f (n / 10) ((b'0' + n % 10) ∷ rest))

parse_uint_of_ne :
    (base limit : ℕ) (t : Text) → t ≢ [] → parse_uint base limit t ≡ parse_from base limit 0 t
unfolding parse_uint
parse_uint_of_ne base limit [] h = absurd (h refl)
parse_uint_of_ne base limit (c ∷ t) h = refl

-- A number within the limit is read back from its decimal form.
pub parse_uint-format_uint :
    (limit n : ℕ) → n ≤ limit → parse_uint 10 limit (format_uint n) ≡ some n
unfolding format_uint parse_from
parse_uint-format_uint limit n h =
    parse_uint_of_ne 10 limit _ (format_from-ne-nil (suc n) n [] (omega arith))
    ∙ parse_format_from (suc n) limit n [] (omega arith) h

-- The first digit of a number of several digits is not 0.
abbrev pub IsCanonical : Text → Type 0
IsCanonical [] = ⊥
IsCanonical (c ∷ []) = Unit
IsCanonical (c ∷ d ∷ t) = c ≢ b'0'

format_parse_from :
    (limit acc : ℕ) (t rest : Text) (n : ℕ)
    → 0 < acc
    → parse_from 10 limit acc t ≡ some n
    → format_from (suc n) n rest ≡ format_from (suc acc) acc (t ++ rest)
unfolding parse_from parse_step
format_parse_from limit acc [] rest n h e = ground arith
format_parse_from limit acc (c ∷ t) rest n h e = ground (
  arith,
  format_parse_from limit (acc * 10 + digit_value c) t rest n,
  format_step acc (digit_value c) (t ++ rest),
  digit_of_value c,
)

format_digit : (d : ℕ) (rest : Text) → d < 10 → format_from (suc d) d rest ≡ (b'0' + d) ∷ rest
unfolding format_from
format_digit d rest h = ground arith

format_parse_first :
    (limit c : ℕ) (t : Text) (n : ℕ)
    → IsCanonical (c ∷ t)
    → parse_from 10 limit 0 (c ∷ t) ≡ some n
    → format_from (suc n) n [] ≡ c ∷ t
unfolding parse_from parse_step
format_parse_first limit c [] n h e =
    ground (arith, format_digit (digit_value c) [], digit_of_value c)
format_parse_first limit c (d ∷ t) n h e = ground (
  arith,
  format_parse_from limit (digit_value c) (d ∷ t) [] n,
  format_digit (digit_value c) ((d ∷ t) ++ []),
  digit_of_value c,
  append-nil (d ∷ t),
)

-- A canonical decimal text is printed back from its number.
pub format_uint-parse_uint :
    (limit : ℕ) (t : Text) (n : ℕ)
    → IsCanonical t
    → parse_uint 10 limit t ≡ some n
    → format_uint n ≡ t
unfolding parse_uint format_uint
format_uint-parse_uint limit [] n h e = absurd h
format_uint-parse_uint limit (c ∷ t) n h e = format_parse_first limit c t n h e

format_from_digits :
    (f n : ℕ) (acc : Text) → all is_digit acc ≡ true → all is_digit (format_from f n acc) ≡ true
unfolding format_from
format_from_digits zero n acc h = h
format_from_digits (suc f) n acc h =
    ground (arith, format_from_digits f (n / 10) ((b'0' + n % 10) ∷ acc))

pub format_uint_digits : (n : ℕ) → all is_digit (format_uint n) ≡ true
unfolding format_uint
format_uint_digits n = format_from_digits (suc n) n [] refl

pub format_uint-ne-nil : (n : ℕ) → format_uint n ≢ []
unfolding format_uint
format_uint-ne-nil n = format_from-ne-nil (suc n) n [] (omega arith)

-- Digits hold no byte that is no digit.
pub digits_without :
    (c : ℕ) (t : Text) → is_digit c ≡ false → all is_digit t ≡ true → contains_byte c t ≡ false
unfolding contains_byte
digits_without c [] h k = refl
digits_without c (b ∷ t) h k = ground (arith, digits_without c t)

pub format_uint_without : (c n : ℕ) → is_digit c ≡ false → contains_byte c (format_uint n) ≡ false
format_uint_without c n h = digits_without c (format_uint n) h (format_uint_digits n)

format_from-IsCanonical :
    (f n c : ℕ) (acc : Text) → 0 < n → n < f → IsCanonical (format_from f n (c ∷ acc))
unfolding format_from
format_from-IsCanonical zero n c acc h k = elim k [ ]
format_from-IsCanonical (suc f) n c acc h k =
    ground (arith, format_from-IsCanonical f (n / 10) (b'0' + n % 10) (c ∷ acc))

-- The decimal form of a number has no leading zero.
pub format_uint-IsCanonical : (n : ℕ) → IsCanonical (format_uint n)
unfolding format_uint format_from
format_uint-IsCanonical n = ground (arith, format_from-IsCanonical n (n / 10) (b'0' + n % 10) [])
