-- ===== src/Text.antt =====
-- Go strings and byte slices as lists of bytes, with what the code uses of `strings`, `bytes` and
-- `strconv` on them.
pub mod Fields
pub mod Decimal
pub mod Utf8
use Prim.Native.Char.{code}
use Prim.Native.String.{String}
use joy_pi_health.Prelude.{
  ℕ, ◌≡◌, refl, ap, ◌↔◌, Bool, true, false, ◌&&◌, ◌||◌, Option, none, some, List, [], ◌∷◌, ◌++◌,
  arith, ltb, ◌==◌, ==_iff, if◌then◌else◌, Bool-cases,
}

abbrev pub Text : Type 0
Text = List ℕ

-- The bytes of an ASCII literal.
abbrev pub bytes : String → Text
bytes String.[] = []
bytes (String.◌∷◌ c s) = code c ∷ bytes s

unfoldable pub text_eq : Text → Text → Bool
text_eq [] [] = true
text_eq [] (b ∷ t) = false
text_eq (a ∷ s) [] = false
text_eq (a ∷ s) (b ∷ t) = (a == b) && text_eq s t

-- `s == ""`.
abbrev pub is_empty : Text → Bool
is_empty [] = true
is_empty (b ∷ t) = false

-- `strings.Compare(s, t) < 0`: by bytes, a proper prefix first.
unfoldable pub text_lt : Text → Text → Bool
text_lt [] [] = false
text_lt [] (b ∷ t) = true
text_lt (a ∷ s) [] = false
text_lt (a ∷ s) (b ∷ t) = ltb a b || ((a == b) && text_lt s t)

unfoldable pub has_prefix : Text → Text → Bool
has_prefix s [] = true
has_prefix [] (b ∷ p) = false
has_prefix (a ∷ s) (b ∷ p) = (a == b) && has_prefix s p

-- What follows a prefix of the given length.
unfoldable pub trim_prefix : Text → Text → Text
trim_prefix s [] = s
trim_prefix [] (b ∷ p) = []
trim_prefix (a ∷ s) (b ∷ p) =
    let rest = trim_prefix s p in if has_prefix (a ∷ s) (b ∷ p) then rest else a ∷ s

-- `strings.Cut` at one byte: the text before it, and what follows, or `none` where it is absent.
unfoldable pub cut : ℕ → Text → Text × Option Text
cut c [] = ([], none)
cut c (b ∷ t) = let r = cut c t in if b == c then ([], some t) else (b ∷ r.0, r.1)

-- `strings.Split` at one byte. There is always one part at least: the first, and the others.
unfoldable pub split_first : ℕ → Text → Text × List Text
split_first c [] = ([], [])
split_first c (b ∷ t) =
    let r = split_first c t in if b == c then ([], r.0 ∷ r.1) else (b ∷ r.0, r.1)

unfoldable pub split : ℕ → Text → List Text
unfolding split_first
split c t = let r = split_first c t in r.0 ∷ r.1

unfoldable pub contains_byte : ℕ → Text → Bool
contains_byte c [] = false
contains_byte c (b ∷ t) = (b == c) || contains_byte c t

pub text_eq_iff : (s t : Text) → (text_eq s t ≡ true) ↔ (s ≡ t)
unfolding text_eq
text_eq_iff [] [] = ground arith
text_eq_iff [] (b ∷ t) = ground arith
text_eq_iff (a ∷ s) [] = ground arith
text_eq_iff (a ∷ s) (b ∷ t) = ground (arith, text_eq_iff s t)

pub text_eq_refl : (s : Text) → text_eq s s ≡ true
text_eq_refl s = (text_eq_iff s s).1 refl

pub has_prefix-append : (p s : Text) → has_prefix (p ++ s) p ≡ true
unfolding has_prefix
has_prefix-append [] s = refl
has_prefix-append (b ∷ p) s = ground (arith, has_prefix-append p s)

pub trim_prefix-append : (p s : Text) → trim_prefix (p ++ s) p ≡ s
unfolding trim_prefix has_prefix
trim_prefix-append [] s = refl
trim_prefix-append (b ∷ p) s = ground (arith, trim_prefix-append p s, has_prefix-append p s)

-- A text without the byte is cut at the byte that follows it.
pub cut-append : (c : ℕ) (s t : Text) → contains_byte c s ≡ false → cut c (s ++ c ∷ t) ≡ (s, some t)
unfolding cut contains_byte
cut-append c [] t h = ground arith
cut-append c (b ∷ s) t h = ground (arith, cut-append c s t)

pub text_lt_irrefl : (s : Text) → text_lt s s ≡ false
unfolding text_lt
text_lt_irrefl [] = refl
text_lt_irrefl (b ∷ s) = ground (arith, text_lt_irrefl s)

pub text_lt_trans : (r s t : Text) → text_lt r s ≡ true → text_lt s t ≡ true → text_lt r t ≡ true
unfolding text_lt
text_lt_trans [] [] t h k = k
text_lt_trans [] (b ∷ s) [] h k = cc
text_lt_trans [] (b ∷ s) (c ∷ t) h k = refl
text_lt_trans (a ∷ r) [] t h k = cc
text_lt_trans (a ∷ r) (b ∷ s) [] h k = cc
text_lt_trans (a ∷ r) (b ∷ s) (c ∷ t) h k = ground (arith, text_lt_trans r s t)

pub has_prefix-eq-append : (s p : Text) → has_prefix s p ≡ true → s ≡ p ++ trim_prefix s p
unfolding has_prefix trim_prefix
has_prefix-eq-append s [] h = refl
has_prefix-eq-append [] (b ∷ p) h = cc
has_prefix-eq-append (a ∷ s) (b ∷ p) h = ground (arith, has_prefix-eq-append s p)

-- What `cut` found, put together again.
pub cut-eq-some : (c : ℕ) (s t : Text) → (cut c s).1 ≡ some t → s ≡ (cut c s).0 ++ c ∷ t
unfolding cut
cut-eq-some c [] t h = cc
cut-eq-some c (b ∷ s) t h = ground (arith, cut-eq-some c s t)

pub cut-eq-none : (c : ℕ) (s : Text) → (cut c s).1 ≡ none → s ≡ (cut c s).0
unfolding cut
cut-eq-none c [] h = refl
cut-eq-none c (b ∷ s) h = ground (arith, cut-eq-none c s)

pub cut_absent : (c : ℕ) (s : Text) → contains_byte c s ≡ false → cut c s ≡ (s, none)
unfolding cut contains_byte
cut_absent c [] h = refl
cut_absent c (b ∷ s) h = ground (arith, cut_absent c s)

-- A text without the byte is the first part.
pub split-append :
    (c : ℕ) (s t : Text) → contains_byte c s ≡ false → split c (s ++ c ∷ t) ≡ s ∷ split c t
unfolding split split_first contains_byte
split-append c [] t h = ground arith
split-append c (b ∷ s) t h = ground (arith, split-append c s t)

pub split_absent : (c : ℕ) (s : Text) → contains_byte c s ≡ false → split c s ≡ s ∷ []
unfolding split split_first contains_byte
split_absent c [] h = refl
split_absent c (b ∷ s) h = ground (arith, split_absent c s)

-- The parts, put together again with the byte between them.
unfoldable pub join : ℕ → List Text → Text
join c [] = []
join c (s ∷ []) = s
join c (s ∷ t ∷ ts) = s ++ (c ∷ join c (t ∷ ts))

join-split_first : (c : ℕ) (t : Text) → join c ((split_first c t).0 ∷ (split_first c t).1) ≡ t
unfolding split_first join
join-split_first c [] = refl
join-split_first c (b ∷ t) = ground (arith, join-split_first c t)

pub join-split : (c : ℕ) (t : Text) → join c (split c t) ≡ t
unfolding split
join-split c t = join-split_first c t

pub contains_byte-append_self : (c : ℕ) (s t : Text) → contains_byte c (s ++ c ∷ t) ≡ true
unfolding contains_byte
contains_byte-append_self c [] t = ground arith
contains_byte-append_self c (b ∷ s) t = ground (arith, contains_byte-append_self c s t)

pub append_assoc_text : (r s t : Text) → (r ++ s) ++ t ≡ r ++ (s ++ t)
append_assoc_text [] s t = refl
append_assoc_text (b ∷ r) s t = rw (append_assoc_text r s t)
