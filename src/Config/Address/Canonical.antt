-- ===== src/Config/Address/Canonical.antt =====
-- The text of an IPv4 address and its four fields determine one another.
use joy_pi_health.Prelude.{ℕ, ◌≤◌, ◌≡◌, refl, ◌∙◌, some, List, [], ◌∷◌, arith}
use joy_pi_health.Text.{Text, split, join, split-append, split_absent, join-split}
use joy_pi_health.Text.Decimal.{parse_uint, format_uint, parse_uint-le}
use joy_pi_health.Text.Decimal.RoundTrip.{
  IsCanonical, parse_uint-format_uint, format_uint-parse_uint, format_uint-IsCanonical,
  format_uint_without,
}
use joy_pi_health.Config.Address.{Address, parse_octet, parse_octets, parse_ipv4, format_address}

pub record IsAddress (x : Address) : Type 0 where
  pub a_byte : x.a ≤ 255
  pub b_byte : x.b ≤ 255
  pub c_byte : x.c ≤ 255
  pub d_byte : x.d ≤ 255

parse_octet_canonical : (t : Text) → IsCanonical t → parse_octet t ≡ parse_uint 10 255 t
unfolding parse_octet
parse_octet_canonical [] h = absurd h
parse_octet_canonical (x ∷ []) h = refl
parse_octet_canonical (x ∷ y ∷ t) h = ground arith

parse_octet-format_uint : (n : ℕ) → n ≤ 255 → parse_octet (format_uint n) ≡ some n
parse_octet-format_uint n h =
    parse_octet_canonical (format_uint n) (format_uint-IsCanonical n)
    ∙ parse_uint-format_uint 255 n h

format_uint-parse_octet :
    (t : Text) (n : ℕ) → parse_octet t ≡ some n → (format_uint n ≡ t) × (n ≤ 255)
unfolding parse_octet
format_uint-parse_octet [] n e = cc
format_uint-parse_octet (x ∷ []) n e =
    (format_uint-parse_uint 255 (x ∷ []) n tt e, parse_uint-le 10 255 (x ∷ []) n e)
format_uint-parse_octet (x ∷ y ∷ t) n e =
    ground (arith, format_uint-parse_uint 255 (x ∷ y ∷ t) n, parse_uint-le 10 255 (x ∷ y ∷ t) n)

-- The address that is printed is read back.
pub parse_ipv4-format_address : (x : Address) → IsAddress x → parse_ipv4 (format_address x) ≡ some x
unfolding parse_ipv4 format_address parse_octets
parse_ipv4-format_address x v = rw (
  split-append b'.' (format_uint x.a) _ (format_uint_without b'.' x.a refl),
  split-append b'.' (format_uint x.b) _ (format_uint_without b'.' x.b refl),
  split-append b'.' (format_uint x.c) _ (format_uint_without b'.' x.c refl),
  split_absent b'.' (format_uint x.d) (format_uint_without b'.' x.d refl),
  parse_octet-format_uint x.a v.a_byte,
  parse_octet-format_uint x.b v.b_byte,
  parse_octet-format_uint x.c v.c_byte,
  parse_octet-format_uint x.d v.d_byte,
)

parse_octets_inv :
    (ts : List Text) (x : Address)
    → parse_octets ts ≡ some x
    → (format_address x ≡ join b'.' ts) × IsAddress x
unfolding parse_octets format_address join
parse_octets_inv (p ∷ q ∷ r ∷ s ∷ []) x e = ground (
  arith,
  format_uint-parse_octet p x.a,
  format_uint-parse_octet q x.b,
  format_uint-parse_octet r x.c,
  format_uint-parse_octet s x.d,
)
parse_octets_inv _ x e = cc

-- Every text that is read as an IPv4 address is its canonical form: a text with a leading zero, a
-- missing or an extra field is not read at all.
pub format_address-parse_ipv4 :
    (t : Text) (x : Address) → parse_ipv4 t ≡ some x → (format_address x ≡ t) × IsAddress x
unfolding parse_ipv4
format_address-parse_ipv4 t x e =
    let (same, v) = parse_octets_inv (split b'.' t) x e in (same ∙ join-split b'.' t, v)
