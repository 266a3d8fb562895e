-- ===== src/Config/Address.antt =====
-- The listener address: `parseAddress`, with the IPv4 part of `net/netip` that it uses. Every text
-- that `netip.ParseAddr` reads as no IPv4 address fails in `parseAddress`, so that `parse_ipv4`
-- is `none` for an IPv6 address too.
pub mod Canonical
use joy_pi_health.Prelude.{
  ℕ, ◌/◌, ◌<◌, ◌≡◌, refl, Bool, true, false, not, ◌&&◌, Option, none, some, List, [], ◌∷◌, ◌++◌,
  arith, ◌==◌, if◌then◌else◌,
}
use joy_pi_health.Text.{Text, bytes, split, text_eq}
use joy_pi_health.Text.Decimal.{parse_uint, format_uint}

-- A 4-byte `netip.Addr`.
pub record Address : Type 0 where
  pub a : ℕ
  pub b : ℕ
  pub c : ℕ
  pub d : ℕ

-- One field of a dotted quad: no leading zero, at most 255.
unfoldable pub parse_octet : Text → Option ℕ
parse_octet [] = none
parse_octet (x ∷ []) = parse_uint 10 255 (x ∷ [])
parse_octet (x ∷ y ∷ t) = if x == b'0' then none else parse_uint 10 255 (x ∷ y ∷ t)

infixl 5 ◌>>=◌
abbrev ◌>>=◌ : {A B : Type 0} → Option A → (A → Option B) → Option B
none >>= f = none
some x >>= f = f x

parse_octets : List Text → Option Address
parse_octets (p ∷ q ∷ r ∷ s ∷ []) = do
  a ← parse_octet p
  b ← parse_octet q
  c ← parse_octet r
  d ← parse_octet s
  some (record { a = a; b = b; c = c; d = d })
parse_octets _ = none

unfoldable pub parse_ipv4 : Text → Option Address
unfolding parse_octets
parse_ipv4 t = parse_octets (split b'.' t)

-- `Addr.String` of an IPv4 address.
unfoldable pub format_address : Address → Text
format_address x =
    format_uint x.a
    ++ (b'.' ∷ (format_uint x.b ++ (b'.' ∷ (format_uint x.c ++ (b'.' ∷ format_uint x.d)))))

-- 127.0.0.0/8.
unfoldable pub is_loopback : Address → Bool
is_loopback x = x.a == 127

-- 224.0.0.0/4.
unfoldable pub is_multicast : Address → Bool
is_multicast x = x.a / 16 == 14

-- 255.255.255.255.
unfoldable pub is_broadcast : Address → Bool
is_broadcast x = (x.a == 255) && (x.b == 255) && (x.c == 255) && (x.d == 255)

addresses :
    (parse_ipv4 (bytes "192.168.0.17") ≡ some (record { a = 192; b = 168; c = 0; d = 17 }))
    × (parse_ipv4 (bytes "192.168.00.17") ≡ none)
    × (parse_ipv4 (bytes "192.168.0.256") ≡ none)
    × (parse_ipv4 (bytes "1.2.3.4.5") ≡ none)
    × (parse_ipv4 (bytes "::ffff:1.2.3.4") ≡ none)
    × (parse_ipv4 (bytes "1.2..4") ≡ none)
unfolding parse_ipv4 parse_octet split parse_uint
addresses = (refl, refl, refl, refl, refl, refl)
