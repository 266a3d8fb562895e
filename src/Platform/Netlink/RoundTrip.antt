-- ===== src/Platform/Netlink/RoundTrip.antt =====
-- The attributes of internal/platform/netlink.go are read as they are written.
use joy_pi_health.Prelude.{
  ℕ, zero, suc, ◌+◌, ◌-◌, ◌*◌, ◌/◌, ◌%◌, ◌≡◌, ◌≤◌, ◌<◌, refl, ap, ◌∙◌, false, ◌||◌, List, [], ◌∷◌,
  ◌++◌, All, arith, ltb, length, take, length-append,
}
use joy_pi_health.Result.{Result, ok, ◌>>=◌}
use joy_pi_health.Text.{Text}
use joy_pi_health.Errors.{Error}
use joy_pi_health.Platform.Netlink.{NetlinkAttribute, aligned, attributes_from, parse_attributes}

abbrev zeros : ℕ → Text
zeros zero = []
zeros (suc n) = 0 ∷ zeros n

-- An attribute in a message: its length and its kind, its content, and zeros up to a multiple of four.
abbrev pub print_attribute : NetlinkAttribute → Text → Text
print_attribute a rest =
    let size = 4 + length a.content in
    size % 0x100
    ∷ size / 0x100
    ∷ a.kind % 0x100
    ∷ a.kind / 0x100
    ∷ ((a.content ++ zeros (aligned size - size)) ++ rest)

abbrev pub print_attributes : List NetlinkAttribute → Text
print_attributes [] = []
print_attributes (a ∷ others) = print_attribute a (print_attributes others)

-- The kind has no flag bits, and the length fits in 16 bits.
abbrev pub IsPrintable : NetlinkAttribute → Type 0
IsPrintable a = (a.kind < 0x4000) × (4 + length a.content < 0x10000)

length-zeros : (n : ℕ) → length (zeros n) ≡ n
length-zeros zero = refl
length-zeros (suc n) = ap suc (length-zeros n)

take-append : (s t : Text) → take (length s) (s ++ t) ≡ s
take-append [] t = refl
take-append (b ∷ s) t = ap (λ u. b ∷ u) (take-append s t)

append_assoc_lem : (r s t : Text) → (r ++ s) ++ t ≡ r ++ (s ++ t)
append_assoc_lem [] s t = refl
append_assoc_lem (b ∷ r) s t = ap (λ u. b ∷ u) (append_assoc_lem r s t)

-- The content and the padding are passed over.
attributes_from-skip : (s t : Text) → attributes_from (length s) (s ++ t) ≡ attributes_from 0 t
unfolding attributes_from
attributes_from-skip [] t = refl
attributes_from-skip (b ∷ s) t = attributes_from-skip s t

abbrev extend : ℕ → Text → List NetlinkAttribute → Result Error (List NetlinkAttribute)
extend kind content others = ok (record { kind = kind; content = content } ∷ others)

-- One attribute, whose length is within the message.
attributes_from-header :
    (a b c d n k : ℕ) (t : Text)
    → a + 0x100 * b ≡ n
    → (c + 0x100 * d) % 0x4000 ≡ k
    → 4 ≤ n
    → n ≤ 4 + length t
    → aligned n ≤ 4 + length t
    → attributes_from 0 (a ∷ b ∷ c ∷ d ∷ t)
      ≡ (attributes_from (aligned n - 4) t >>= extend k (take (n - 4) t))
unfolding attributes_from
attributes_from-header a b c d n k t e f small fits padded =
    let p : (ltb n 4 || ltb (4 + length t) n) ≡ false = ground arith in
    let q : ltb (4 + length t) (aligned n) ≡ false = ground arith in
    rw (attributes_from, e, f, p, q) refl

print_attribute_read :
    (a : NetlinkAttribute) (rest : Text)
    → IsPrintable a
    → attributes_from 0 (print_attribute a rest)
      ≡ (attributes_from 0 rest >>= λ others. ok (a ∷ others))
print_attribute_read a rest (flags, fits) =
    let n = 4 + length a.content in
    let padding = zeros (aligned n - n) in
    let content_end : Text = a.content ++ padding in
    let l = length-append a.content padding in
    let z = length-zeros (aligned n - n) in
    let m = length-append content_end rest in
    let size : aligned n - 4 ≡ length content_end = omega (arith, l, z) in
    let whole =
      attributes_from-header (n % 0x100) (n / 0x100) (a.kind % 0x100) (a.kind / 0x100) n a.kind
        (content_end ++ rest) (omega arith) (omega arith) (omega arith) (omega (arith, l, z, m))
        (omega (arith, l, z, m)) in
    let passed =
      ap (λ k. attributes_from k (content_end ++ rest)) size
      ∙ attributes_from-skip content_end rest in
    let first : take (n - 4) (content_end ++ rest) ≡ a.content =
      ap (λ k. take k (content_end ++ rest)) (omega arith)
      ∙ (ap (λ u. take (length a.content) u) (append_assoc_lem a.content padding rest)
          ∙ take-append a.content (padding ++ rest)) in
    whole ∙ rw (passed, first) refl

-- The attributes of a message are read as they are written, whatever their contents, if each kind has no
-- flag bits and each length fits in 16 bits.
pub parse_attributes-print_attributes :
    (attributes : List NetlinkAttribute)
    → All IsPrintable attributes
    → parse_attributes (print_attributes attributes) ≡ ok attributes
unfolding parse_attributes attributes_from
parse_attributes-print_attributes [] p = refl
parse_attributes-print_attributes (a ∷ others) (p, q) =
    print_attribute_read a (print_attributes others) p
    ∙ rw (parse_attributes-print_attributes others q) refl
