-- ===== src/Text/Fields.antt =====
-- White space as Go's `unicode.IsSpace` has it, over UTF-8 bytes: `strings.TrimSpace`,
-- `strings.Fields` and `bytes.Fields`. The lead byte of a space of several bytes is no
-- continuation byte, so that walking by bytes meets the same spaces as walking by runes.
use joy_pi_health.Prelude.{
  ℕ, zero, suc, ◌+◌, ◌≡◌, refl, Bool, true, false, ◌&&◌, ◌||◌, List, [], ◌∷◌, ◌++◌, leb, ◌==◌,
  if◌then◌else◌,
}
use joy_pi_health.Text.{Text, bytes}

-- The bytes that the space at the head takes, or 0.
space_width2 : ℕ → ℕ → ℕ
space_width2 a b = if (a == 0xc2) && ((b == 0x85) || (b == 0xa0)) then 2 else 0

space_width3 : ℕ → ℕ → ℕ → ℕ
space_width3 a b c =
    if (a == 0xe1) && (b == 0x9a) && (c == 0x80)
    then 3
    else if (a == 0xe2)
        && (b == 0x80)
        && ((leb 0x80 c && leb c 0x8a) || (c == 0xa8) || (c == 0xa9) || (c == 0xaf))
    then 3
    else if (a == 0xe2) && (b == 0x81) && (c == 0x9f)
    then 3
    else if (a == 0xe3) && (b == 0x80) && (c == 0x80)
    then 3
    else 0

is_space : ℕ → Bool
is_space b = (leb 9 b && leb b 13) || (b == 32)

unfoldable pub space_width : Text → ℕ
unfolding space_width2 space_width3 is_space
space_width [] = 0
space_width (a ∷ []) = if is_space a then 1 else 0
space_width (a ∷ b ∷ []) = if is_space a then 1 else space_width2 a b
space_width (a ∷ b ∷ c ∷ t) = if is_space a then 1 else (space_width2 a b + space_width3 a b c)

-- Nothing but white space, after a number of bytes of a space already begun.
blank_after : ℕ → Text → Bool
blank_after k [] = true
blank_after (suc k) (b ∷ t) = blank_after k t
blank_after zero (b ∷ t) = elim (space_width (b ∷ t)) [ zero ↦ false | suc k ↦ blank_after k t ]

trim_right : Text → Text
trim_right [] = []
trim_right (b ∷ t) = let rest = trim_right t in if blank_after 0 (b ∷ t) then [] else b ∷ rest

trim_left : ℕ → Text → Text
trim_left k [] = []
trim_left (suc k) (b ∷ t) = trim_left k t
trim_left zero (b ∷ t) = elim (space_width (b ∷ t)) [ zero ↦ b ∷ t | suc k ↦ trim_left k t ]

unfoldable pub trim_space : Text → Text
unfolding trim_left trim_right blank_after space_width
trim_space t = trim_right (trim_left 0 t)

abbrev emit : Text → List Text → List Text
emit [] fs = fs
emit (b ∷ t) fs = (b ∷ t) ∷ fs

-- The field read so far, the bytes of a space still to skip, and the rest.
fields_from : Text → ℕ → Text → List Text
fields_from cur k [] = emit cur []
fields_from cur (suc k) (b ∷ t) = fields_from cur k t
fields_from cur zero (b ∷ t) = elim (space_width (b ∷ t)) [
  | zero ↦ fields_from (cur ++ b ∷ []) 0 t
  | suc k ↦ emit cur (fields_from [] k t)
]

unfoldable pub fields : Text → List Text
unfolding fields_from space_width
fields t = fields_from [] 0 t

fields_example : fields (bytes " 12.5\t7 \n") ≡ bytes "12.5" ∷ bytes "7" ∷ []
unfolding fields
fields_example = refl

trim_space_example :
    trim_space (0xc2 ∷ 0xa0 ∷ 32 ∷ 0x41 ∷ 32 ∷ 0x42 ∷ 0xe2 ∷ 0x80 ∷ 0xa8 ∷ []) ≡ bytes "A B"
unfolding trim_space
trim_space_example = refl
