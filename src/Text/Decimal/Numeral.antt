-- ===== src/Text/Decimal/Numeral.antt =====
-- What `strconv.ParseUint` reads in base 10: decimal numerals, by their value.
use joy_pi_health.Prelude.{
  ℕ, ◌+◌, ◌-◌, ◌*◌, ◌≤◌, ◌≡◌, ◌≢◌, refl, ◌↔◌, true, some, [], ◌∷◌, arith, all,
}
use joy_pi_health.Text.{Text}
use joy_pi_health.Text.Decimal.{is_digit, digit_value, parse_step, parse_from, parse_uint}

-- The value of digits behind a number.
abbrev pub value : ℕ → Text → ℕ
value acc [] = acc
value acc (c ∷ t) = value (acc * 10 + (c - b'0')) t

-- A text of digits, at least one, of a value within a limit.
pub record Numeral (limit : ℕ) (t : Text) (n : ℕ) : Type 0 where
  pub full : t ≢ []
  pub digits : all is_digit t ≡ true
  pub valued : value 0 t ≡ n
  pub within : n ≤ limit

value-ge : (acc : ℕ) (t : Text) → acc ≤ value acc t
value-ge acc [] = omega arith
value-ge acc (c ∷ t) = omega (arith, value-ge (acc * 10 + (c - b'0')) t)

parse_from-value :
    (limit acc : ℕ) (t : Text) (n : ℕ)
    → parse_from 10 limit acc t ≡ some n
    → acc ≤ limit
    → (all is_digit t ≡ true) × (value acc t ≡ n) × (n ≤ limit)
unfolding parse_from parse_step digit_value
parse_from-value limit acc [] n e h = ground arith
parse_from-value limit acc (c ∷ t) n e h =
    ground (arith, parse_from-value limit (acc * 10 + (c - b'0')) t n)

value-parse_from :
    (limit acc : ℕ) (t : Text)
    → all is_digit t ≡ true
    → value acc t ≤ limit
    → parse_from 10 limit acc t ≡ some (value acc t)
unfolding parse_from parse_step digit_value
value-parse_from limit acc [] d h = refl
value-parse_from limit acc (c ∷ t) d h =
    ground
      (arith, value-parse_from limit (acc * 10 + (c - b'0')) t, value-ge (acc * 10 + (c - b'0')) t)

pub parse_uint_iff :
    (limit : ℕ) (t : Text) (n : ℕ) → (parse_uint 10 limit t ≡ some n) ↔ Numeral limit t n
unfolding parse_uint
parse_uint_iff limit [] n = (λ h. cc, λ v. absurd (v.full refl))
parse_uint_iff limit (c ∷ t) n = (
  λ h.
      let (d, e, w) = parse_from-value limit 0 (c ∷ t) n h (omega arith) in
      record { full = λ p. cc; digits = d; valued = e; within = w },
  λ v.
      rw (value-parse_from limit 0 (c ∷ t) v.digits (omega (arith, v.valued, v.within)))
        (ground (arith, v.valued)),
)
