-- ===== src/Text/Decimal.antt =====
-- `strconv.ParseUint` and `strconv.FormatUint` for base 10 and 16.
pub mod RoundTrip
pub mod Numeral
use joy_pi_health.Prelude.{
  ℕ, zero, suc, ◌+◌, ◌-◌, ◌*◌, ◌/◌, ◌%◌, ◌≤◌, ◌<◌, ◌≡◌, refl, ◌↔◌, ◌⊎◌, inl, inr, Bool, true, false,
  ◌&&◌, Option, none, some, List, [], ◌∷◌, ◌++◌, arith, leb, ◌==◌, if◌then◌else◌, Bool-cases, all,
  length,
}
use joy_pi_health.Text.{Text, bytes}

abbrev pub is_digit : ℕ → Bool
is_digit c = leb b'0' c && leb c b'9'

-- The value of a digit; 99 for any other byte.
unfoldable pub digit_value : ℕ → ℕ
digit_value c =
    if is_digit c
    then c - b'0'
    else if leb b'a' c && leb c b'z'
    then c - b'a' + 10
    else if leb b'A' c && leb c b'Z'
    then c - b'A' + 10
    else 99

-- One round of the loop: `none` for a byte that is no digit of the base, or past the limit.
parse_step : ℕ → ℕ → ℕ → ℕ → Option ℕ
unfolding digit_value
parse_step base limit acc c =
    let d = digit_value c in
    if leb base d then none else if leb (acc * base + d) limit then some (acc * base + d) else none

parse_from : ℕ → ℕ → ℕ → Text → Option ℕ
parse_from base limit acc [] = some acc
parse_from base limit acc (c ∷ t) = elim (parse_step base limit acc c) [
  | none ↦ none
  | some n ↦ parse_from base limit n t
]

-- `strconv.ParseUint` with the largest value instead of the number of bits. Both kinds of error,
-- a bad digit and a value out of range, are `none`.
unfoldable pub parse_uint : ℕ → ℕ → Text → Option ℕ
unfolding parse_from parse_step
parse_uint base limit [] = none
parse_uint base limit (c ∷ t) = parse_from base limit 0 (c ∷ t)

-- `strconv.FormatUint(n, 10)`. A number has fewer decimal digits than its value plus one.
format_from : ℕ → ℕ → Text → Text
format_from zero n acc = acc
format_from (suc f) n acc = elim (n / 10) [
  | zero ↦ (b'0' + n % 10) ∷ acc
  | suc m ↦ format_from f (suc m) ((b'0' + n % 10) ∷ acc)
]

unfoldable pub format_uint : ℕ → Text
unfolding format_from
format_uint n = format_from (suc n) n []

parse_from-le :
    (base limit acc : ℕ) (t : Text) (n : ℕ)
    → acc ≤ limit
    → parse_from base limit acc t ≡ some n
    → n ≤ limit
unfolding parse_from parse_step
parse_from-le base limit acc [] n h e = ground arith
parse_from-le base limit acc (c ∷ t) n h e =
    ground (arith, parse_from-le base limit (acc * base + digit_value c) t n)

-- What is parsed is in range.
pub parse_uint-le :
    (base limit : ℕ) (t : Text) (n : ℕ) → parse_uint base limit t ≡ some n → n ≤ limit
unfolding parse_uint
parse_uint-le base limit [] n e = cc
parse_uint-le base limit (c ∷ t) n e = parse_from-le base limit 0 (c ∷ t) n (omega arith) e

decimals :
    (parse_uint 10 65535 (bytes "8080") ≡ some 8080)
    × (parse_uint 10 65535 (bytes "65536") ≡ none)
    × (parse_uint 16 0xffffffff (bytes "5000F") ≡ some 0x5000f)
    × (format_uint 65535 ≡ bytes "65535")
unfolding parse_uint format_uint
decimals = (refl, refl, refl, refl)
