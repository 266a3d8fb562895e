-- ===== src/App/Logger/Lines.antt =====
-- A message that is logged by internal/app/logger.go is one line.
use joy_pi_health.Prelude.{
  ℕ, ◌≤◌, ◌≡◌, ◌≢◌, refl, ◌∙◌, false, ◌||◌, none, some, [], ◌∷◌, ◌++◌, arith, ◌<◌, ◌⊎◌, Bool-cases,
  inl, inr, ltb,
}
use joy_pi_health.Text.{Text, contains_byte}
use joy_pi_health.Text.Fields.{trim_space}
use joy_pi_health.App.Logger.{label, log_line, replace_byte, one_line, write_at}

contains_byte-append :
    (c : ℕ) (s t : Text) → contains_byte c (s ++ t) ≡ (contains_byte c s || contains_byte c t)
unfolding contains_byte
contains_byte-append c [] t = refl
contains_byte-append c (b ∷ s) t = ground (arith, contains_byte-append c s t)

contains_byte-replace_byte :
    (c : ℕ) (t : Text) → c ≢ 0x20 → contains_byte c (replace_byte c t) ≡ false
unfolding contains_byte replace_byte
contains_byte-replace_byte c [] h = refl
contains_byte-replace_byte c (b ∷ t) h = ground (arith, h, contains_byte-replace_byte c t h)

-- A replacement brings in no byte but the space.
contains_byte-replace_other :
    (c d : ℕ) (t : Text)
    → c ≢ 0x20
    → contains_byte c t ≡ false
    → contains_byte c (replace_byte d t) ≡ false
unfolding contains_byte replace_byte
contains_byte-replace_other c d [] h k = refl
contains_byte-replace_other c d (b ∷ t) h k =
    ground (arith, h, k, contains_byte-replace_other c d t h)

one_line_lem :
    (t : Text) → (contains_byte 0xa (one_line t) ≡ false) × (contains_byte 0xd (one_line t) ≡ false)
unfolding one_line
one_line_lem t = (
  contains_byte-replace_other 0xa 0xd (replace_byte 0xa (trim_space t)) (λ p. cc)
      (contains_byte-replace_byte 0xa (trim_space t) (λ p. cc)),
  contains_byte-replace_byte 0xd (replace_byte 0xa (trim_space t)) (λ p. cc),
)

label_lem :
    (severity : ℕ)
    → (contains_byte 0xa (label severity) ≡ false) × (contains_byte 0xd (label severity) ≡ false)
unfolding contains_byte
label_lem severity = (ground arith, ground arith)

log_line_lem :
    (c severity : ℕ) (stamp message : Text)
    → c ≢ 0x20
    → contains_byte c stamp ≡ false
    → contains_byte c (label severity) ≡ false
    → contains_byte c (one_line message) ≡ false
    → contains_byte c (log_line severity stamp message) ≡ false
unfolding contains_byte
log_line_lem c severity stamp message h s l m =
    let tail : Text = 0x20 ∷ one_line message in
    let p = contains_byte-append c stamp (0x20 ∷ (label severity ++ tail)) in
    let q = contains_byte-append c (label severity) tail in p ∙ ground (arith, h, s, q, l, m)

-- A text without a line feed or a carriage return.
abbrev pub IsLine : Text → Type 0
IsLine t = (contains_byte 0xa t ≡ false) × (contains_byte 0xd t ≡ false)

-- A message of any bytes, line feeds included, is written as one line exactly if its severity reaches the
-- minimum, and not at all otherwise, where the text of the time is a line.
pub write_at-IsLine :
    (minimum severity : ℕ) (stamp message : Text)
    → IsLine stamp
    → ((severity < minimum) × (write_at minimum severity stamp message ≡ none))
      ⊎ ((minimum ≤ severity)
          × ((line : Text) × IsLine line
              × (write_at minimum severity stamp message ≡ some (line ++ 0xa ∷ []))))
unfolding write_at
write_at-IsLine minimum severity stamp message (feed, return) =
    elim (Bool-cases (ltb severity minimum)) [
      | inl below ↦ inl (ground (arith, below), rw (write_at, below) refl)
      | inr enough ↦
          let (f, r) = label_lem severity in
          let (g, s) = one_line_lem message in
          inr (
            ground (arith, enough),
            (
              log_line severity stamp message,
              (
                log_line_lem 0xa severity stamp message (λ p. cc) feed f g,
                log_line_lem 0xd severity stamp message (λ p. cc) return r s,
              ),
              rw (write_at, enough) refl,
            ),
          )
    ]
