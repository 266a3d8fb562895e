-- ===== src/Text/Utf8.antt =====
-- `utf8.ValidString`.
use joy_pi_health.Prelude.{ℕ, ◌≡◌, refl, Bool, true, false, ◌&&◌, [], ◌∷◌, leb, if◌then◌else◌}
use joy_pi_health.Text.{Text}

abbrev between : ℕ → ℕ → ℕ → Bool
between lo hi b = leb lo b && leb b hi

-- The bounds of the second byte depend on the first: no overlong form, no surrogate, nothing
-- above U+10FFFF.
second_ok : ℕ → ℕ → Bool
second_ok a b =
    if between 0xe0 0xe0 a
    then between 0xa0 0xbf b
    else if between 0xed 0xed a
    then between 0x80 0x9f b
    else if between 0xf0 0xf0 a
    then between 0x90 0xbf b
    else if between 0xf4 0xf4 a
    then between 0x80 0x8f b
    else between 0x80 0xbf b

unfoldable pub valid_utf8 : Text → Bool
unfolding second_ok
valid_utf8 [] = true
valid_utf8 (a ∷ []) = leb a 0x7f
valid_utf8 (a ∷ b ∷ []) = if leb a 0x7f then leb b 0x7f else between 0xc2 0xdf a && second_ok a b
valid_utf8 (a ∷ b ∷ c ∷ []) = elim (leb a 0x7f) [
  | true ↦ valid_utf8 (b ∷ c ∷ [])
  | false ↦ elim (between 0xc2 0xdf a) [
    | true ↦ second_ok a b && leb c 0x7f
    | false ↦ between 0xe0 0xef a && second_ok a b && between 0x80 0xbf c
  ]
]
valid_utf8 (a ∷ b ∷ c ∷ d ∷ t) = elim (leb a 0x7f) [
  | true ↦ valid_utf8 (b ∷ c ∷ d ∷ t)
  | false ↦ elim (between 0xc2 0xdf a) [
    | true ↦ second_ok a b && valid_utf8 (c ∷ d ∷ t)
    | false ↦ elim (between 0xe0 0xef a) [
      | true ↦ second_ok a b && between 0x80 0xbf c && valid_utf8 (d ∷ t)
      | false ↦
          between 0xf0 0xf4 a
          && second_ok a b
          && between 0x80 0xbf c
          && between 0x80 0xbf d
          && valid_utf8 t
    ]
  ]
]

utf8_examples :
    (valid_utf8 (0x70 ∷ 0xc3 ∷ 0xa9 ∷ 0xe2 ∷ 0x82 ∷ 0xac ∷ 0xf0 ∷ 0x9f ∷ 0x98 ∷ 0x80 ∷ []) ≡ true)
    × (valid_utf8 (0xc0 ∷ 0x80 ∷ []) ≡ false)
    × (valid_utf8 (0xed ∷ 0xa0 ∷ 0x80 ∷ []) ≡ false)
    × (valid_utf8 (0x41 ∷ 0xe2 ∷ 0x82 ∷ []) ≡ false)
unfolding valid_utf8
utf8_examples = (refl, refl, refl, refl)
