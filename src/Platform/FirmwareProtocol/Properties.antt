-- ===== src/Platform/FirmwareProtocol/Properties.antt =====
-- The property responses that internal/platform/firmware_protocol.go accepts.
use joy_pi_health.Prelude.{
  ℕ, zero, suc, ◌+◌, ◌*◌, ◌/◌, ◌%◌, ◌^◌, ◌≡◌, ◌<◌, refl, sym, subst, ap, ◌∙◌, ◌↔◌, not, ◌||◌, List,
  [], ◌∷◌, All, arith, ltb, ◌==◌, if◌then◌else◌, length,
}
use joy_pi_health.Result.{Result, ok}
use joy_pi_health.Text.{Text}
use joy_pi_health.Errors.{Error}
use joy_pi_health.Platform.FirmwareProtocol.{
  firmware_response_ok, firmware_get_throttled, firmware_end_tag, firmware_tag_response, malformed,
  put_words, word, parse_get_throttled_property_response,
}

-- The response of the firmware to a property request.
abbrev pub property_response : ℕ → Text
property_response mask =
    put_words
      (28 ∷ firmware_response_ok ∷ firmware_get_throttled ∷ 4 ∷ 0x80000004 ∷ mask ∷ firmware_end_tag
        ∷ [])
      []

property_response_read :
    (mask : ℕ)
    → mask < 2 ^ 32
    → parse_get_throttled_property_response (property_response mask) ≡ ok mask
unfolding parse_get_throttled_property_response
property_response_read mask h = ap ok (omega arith)

abbrev pub IsByte : ℕ → Type 0
IsByte b = b < 0x100

abbrev words_of : (ℕ → ℕ) → ℕ → List ℕ
words_of f zero = []
words_of f (suc n) = f 0 ∷ words_of (λ i. f (suc i)) n

-- A buffer of whole words is made of its words.
put_words-words_of :
    (n : ℕ) (t : Text)
    → length t ≡ 4 * n
    → All IsByte t
    → put_words (words_of (λ i. word i t) n) [] ≡ t
put_words-words_of zero [] h a = refl
put_words-words_of zero (b ∷ t) h a = absurd (omega arith)
put_words-words_of (suc n) [] h a = absurd (omega arith)
put_words-words_of (suc n) (b ∷ []) h a = absurd (omega arith)
put_words-words_of (suc n) (b ∷ c ∷ []) h a = absurd (omega arith)
put_words-words_of (suc n) (b ∷ c ∷ d ∷ []) h a = absurd (omega arith)
put_words-words_of (suc n) (b ∷ c ∷ d ∷ e ∷ t) h (i, (j, (k, (l, a)))) =
    let v = b + 0x100 * c + 0x10000 * d + 0x1000000 * e in
    let p : v % 0x100 ≡ b = omega arith in
    let q : v / 0x100 % 0x100 ≡ c = omega arith in
    let r : v / 0x10000 % 0x100 ≡ d = omega arith in
    let s : v / 0x1000000 % 0x100 ≡ e = omega arith in
    rw (p, q, r, s, put_words-words_of n t (omega arith) a) refl

word_lt : (i : ℕ) (t : Text) → All IsByte t → word i t < 2 ^ 32
word_lt zero [] a = omega arith
word_lt zero (b ∷ []) a = omega arith
word_lt zero (b ∷ c ∷ []) a = omega arith
word_lt zero (b ∷ c ∷ d ∷ []) a = omega arith
word_lt zero (b ∷ c ∷ d ∷ e ∷ t) (i, (j, (k, (l, a)))) = omega arith
word_lt (suc n) [] a = omega arith
word_lt (suc n) (b ∷ []) a = omega arith
word_lt (suc n) (b ∷ c ∷ []) a = omega arith
word_lt (suc n) (b ∷ c ∷ d ∷ []) a = omega arith
word_lt (suc n) (b ∷ c ∷ d ∷ e ∷ t) (i, (j, (k, (l, a)))) = word_lt n t a

record Accepted (t : Text) (mask : ℕ) : Type 0 where
  size : length t ≡ 28
  first : word 0 t ≡ 28
  second : word 1 t ≡ firmware_response_ok
  third : word 2 t ≡ firmware_get_throttled
  fourth : word 3 t ≡ 4
  fifth : word 4 t ≡ 0x80000004
  sixth : word 5 t ≡ mask
  last : word 6 t ≡ firmware_end_tag

-- The tests of the parser on the length of a buffer and on its words.
abbrev decide : ℕ → ℕ → ℕ → ℕ → ℕ → ℕ → ℕ → ℕ → Result Error ℕ
decide n a b c d e f g =
    if not (n == 28)
      || not (a == 28)
      || not (b == firmware_response_ok)
      || not (c == firmware_get_throttled)
      || not (d == 4)
      || not (g == firmware_end_tag)
    then malformed
    else if ltb e firmware_tag_response || not (e % firmware_tag_response == 4)
    then malformed
    else ok f

decide_lem :
    (n a b c d e f g mask : ℕ)
    → e < 2 ^ 32
    → decide n a b c d e f g ≡ ok mask
    → (n ≡ 28)
      × (a ≡ 28)
      × (b ≡ firmware_response_ok)
      × (c ≡ firmware_get_throttled)
      × (d ≡ 4)
      × (e ≡ 0x80000004)
      × (f ≡ mask)
      × (g ≡ firmware_end_tag)
decide_lem n a b c d e f g mask small h = ground arith

parsed-Accepted :
    (t : Text) (mask : ℕ)
    → All IsByte t
    → parse_get_throttled_property_response t ≡ ok mask
    → Accepted t mask
unfolding parse_get_throttled_property_response
parsed-Accepted t mask a h =
    let (p, q, r, s, u, v, w, x) =
      decide_lem (length t) (word 0 t) (word 1 t) (word 2 t) (word 3 t) (word 4 t) (word 5 t)
        (word 6 t) mask (word_lt 4 t a) h in
    record {
      size = p;
      first = q;
      second = r;
      third = s;
      fourth = u;
      fifth = v;
      sixth = w;
      last = x;
    }

-- A buffer of bytes is accepted with a mask exactly if it is the response of seven words with this
-- 32-bit mask.
pub parse_property_response_iff :
    (t : Text) (mask : ℕ)
    → All IsByte t
    → (parse_get_throttled_property_response t ≡ ok mask)
      ↔ ((mask < 2 ^ 32) × (t ≡ property_response mask))
parse_property_response_iff t mask a = (
  λ h.
      let v = parsed-Accepted t mask a h in
      let whole = put_words-words_of 7 t v.size a in
      (
        subst (λ m. m < 2 ^ 32) v.sixth (word_lt 5 t a),
        sym whole ∙ rw (v.first, v.second, v.third, v.fourth, v.fifth, v.sixth, v.last) refl,
      ),
  λ (small, same).
      ap parse_get_throttled_property_response same ∙ property_response_read mask small,
)
