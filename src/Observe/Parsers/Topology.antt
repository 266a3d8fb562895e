-- ===== src/Observe/Parsers/Topology.antt =====
-- What `parseCPUTopology` of internal/observe/generic.go reads: ranges of processors in ascending
-- order, their number without overflow, and the list in canonical form.
use joy_pi_health.Prelude.{
  ℕ, ◌+◌, ◌-◌, ◌≤◌, ◌<◌, ◌≡◌, ◌≢◌, refl, sym, ap, subst, ◌∙◌, ◌↔◌, inl, inr, false, Option, none,
  some, List, [], ◌∷◌, ◌++◌, map, arith, ltb, ◌==◌, if◌then◌else◌, Bool-cases, Option-cases,
}
use joy_pi_health.Result.{Result, ok, ◌>>=◌, >>=-eq-ok, or_fail-eq-ok, ok-injective}
use joy_pi_health.Text.{Text, is_empty, split, join}
use joy_pi_health.Text.Fields.{trim_space}
use joy_pi_health.Text.Decimal.{parse_uint, parse_uint-le, format_uint}
use joy_pi_health.Text.Decimal.RoundTrip.{format_uint-ne-nil}
use joy_pi_health.Errors.{Error}
use joy_pi_health.Observe.Coordinator.Cycle.{CpuTopology}
use joy_pi_health.Observe.Parsers.{
  maximum_uint64, failed, badly_sized, maximum_cpu_input, read_bound, read_range, admit_range,
  print_range, parse_ranges, parse_cpu_topology,
}

abbrev Follows : Option ℕ → ℕ → Type 0
Follows none s = Unit
Follows (some p) s = p < s

-- Ranges that are not empty, each above the one before it.
abbrev pub Ascending : Option ℕ → List (ℕ × ℕ) → Type 0
Ascending previous [] = Unit
Ascending previous (r ∷ rs) = Follows previous r.0 × (r.0 ≤ r.1) × Ascending (some r.1) rs

-- The number of processors in the ranges.
abbrev pub size : List (ℕ × ℕ) → ℕ
size [] = 0
size (r ∷ rs) = (r.1 - r.0 + 1) + size rs

-- The ranges that the items of a list stand for.
abbrev pub Denote : List Text → List (ℕ × ℕ) → Type 0
Denote [] [] = Unit
Denote (item ∷ items) (r ∷ rs) = (read_range (split b'-' item) ≡ ok r) × Denote items rs
Denote _ _ = ⊥

read_bound-le : (t : Text) (n : ℕ) → read_bound t ≡ ok n → n ≤ maximum_uint64
unfolding read_bound
read_bound-le t n h = parse_uint-le 10 maximum_uint64 t n (or_fail-eq-ok _ _ h)

read_last :
    (last : Text) (start : ℕ) (r : ℕ × ℕ)
    → (if is_empty last
        then failed "CPU list contains an invalid range"
        else elim (parse_uint 10 maximum_uint64 last) [
          | none ↦ failed "CPU list contains an invalid range"
          | some end ↦
              if ltb end start then failed "CPU list contains an invalid range" else ok (start, end)
        ])
      ≡ ok r
    → (r.0 ≤ r.1) × (r.1 ≤ maximum_uint64)
read_last last start r h = elim (Option-cases (parse_uint 10 maximum_uint64 last)) [
  | inl bad ↦ ground (arith, bad)
  | inr (end, good) ↦
      let bound = parse_uint-le 10 maximum_uint64 last end good in ground (arith, good, bound)
]

read_range-le :
    (bounds : List Text) (r : ℕ × ℕ)
    → read_range bounds ≡ ok r
    → (r.0 ≤ r.1) × (r.1 ≤ maximum_uint64)
unfolding read_range
read_range-le [] r h = cc
read_range-le (first ∷ []) r h = elim (Bool-cases (is_empty first)) [
  | inl empty ↦ cc (rw empty at h)
  | inr other ↦
      let (start, p, q) = >>=-eq-ok (read_bound first) _ (rw other at h) in
      subst (λ x. (x.0 ≤ x.1) × (x.1 ≤ maximum_uint64)) (ok-injective q)
        (omega arith, read_bound-le first start p)
]
read_range-le (first ∷ last ∷ []) r h = elim (Bool-cases (is_empty first)) [
  | inl empty ↦ cc (rw empty at h)
  | inr other ↦
      let (start, p, q) = >>=-eq-ok (read_bound first) _ (rw other at h) in read_last last start r q
]
read_range-le (a ∷ b ∷ c ∷ rest) r h = cc

admit_range_iff :
    (previous : Option ℕ) (count : ℕ) (r : ℕ × ℕ) (n : ℕ)
    → r.0 ≤ r.1
    → r.1 ≤ maximum_uint64
    → count ≤ maximum_uint64
    → (admit_range previous count r ≡ ok n)
      ↔ (Follows previous r.0 × (n ≡ count + (r.1 - r.0 + 1)) × (n ≤ maximum_uint64))
unfolding admit_range
admit_range_iff none count r n a b c = (λ h. ground arith, λ h. ground arith)
admit_range_iff (some p) count r n a b c = (λ h. ground arith, λ h. ground arith)

parse_ranges_inv :
    (previous : Option ℕ) (count : ℕ) (items : List Text) (x : ℕ × List Text)
    → count ≤ maximum_uint64
    → parse_ranges previous count items ≡ ok x
    → (rs : List (ℕ × ℕ)) × Denote items rs
      × Ascending previous rs
      × (x.0 ≡ count + size rs)
      × (x.0 ≤ maximum_uint64)
      × (x.1 ≡ map print_range rs)
unfolding parse_ranges
parse_ranges_inv previous count [] x c h =
    let e = ap (λ y. y.0) (ok-injective h) in
    ([], tt, tt, omega (arith, e), omega (arith, e, c), sym (ap (λ y. y.1) (ok-injective h)))
parse_ranges_inv previous count (item ∷ rest) x c h =
    let (r, p, h1) = >>=-eq-ok (read_range (split b'-' item)) _ h in
    let (count1, q, h2) = >>=-eq-ok (admit_range previous count r) _ h1 in
    let (y, t, h3) = >>=-eq-ok (parse_ranges (some r.1) count1 rest) _ h2 in
    let (lo, hi) = read_range-le _ r p in
    let (f, e, m) = (admit_range_iff previous count r count1 lo hi c).0 q in
    let (rs, d, a, e1, m1, k) = parse_ranges_inv (some r.1) count1 rest y m t in
    let z = ap (λ y. y.0) (ok-injective h3) in
    (
      r ∷ rs,
      (p, d),
      (f, lo, a),
      omega (arith, z, e, e1),
      omega (arith, z, m1),
      sym (ap (λ y. y.1) (ok-injective h3)) ∙ ap (λ l. print_range r ∷ l) k,
    )

parse_ranges_whole :
    (previous : Option ℕ) (count : ℕ) (items : List Text) (rs : List (ℕ × ℕ))
    → Denote items rs
    → Ascending previous rs
    → count + size rs ≤ maximum_uint64
    → parse_ranges previous count items ≡ ok (count + size rs, map print_range rs)
unfolding parse_ranges
parse_ranges_whole previous count [] [] d a m = ap (λ k. ok (k, [])) (omega arith)
parse_ranges_whole previous count [] (r ∷ rs) d a m = absurd d
parse_ranges_whole previous count (item ∷ rest) [] d a m = absurd d
parse_ranges_whole previous count (item ∷ rest) (r ∷ rs) (p, d) (f, lo, a) m =
    let (le, hi) = read_range-le _ r p in
    let q : admit_range previous count r ≡ ok (count + (r.1 - r.0 + 1)) =
      (admit_range_iff previous count r _ lo hi (omega arith)).1 (f, refl, omega arith) in
    let t = parse_ranges_whole (some r.1) (count + (r.1 - r.0 + 1)) rest rs d a (omega arith) in
    rw (p, q, t) (ap (λ k. ok (k, print_range r ∷ map print_range rs)) (omega arith))

size_pos :
    (c : ℕ) (t : Text) (rs : List (ℕ × ℕ))
    → Denote (split c t) rs
    → (r : ℕ × ℕ) × (rest : List (ℕ × ℕ)) × (rs ≡ r ∷ rest) × (1 ≤ size rs)
unfolding split
size_pos c t [] d = absurd d
size_pos c t (r ∷ rs) d = (r, rs, refl, omega arith)

abbrev made : ℕ → Text → Result Error CpuTopology
made count signature = ok (record { count = count; signature = signature })

counted :
    (count : ℕ) (signature : Text)
    → 1 ≤ count
    → (if count == 0 then failed "CPU list contains no processors" else made count signature)
      ≡ made count signature
counted count signature h = ground arith

topology_eq :
    (t : CpuTopology) (count : ℕ) (signature : Text)
    → count ≡ t.count
    → t.signature ≡ signature
    → made count signature ≡ ok t
topology_eq t count signature h k = ap (λ c. made c signature) h ∙ ap (made t.count) (sym k)

accepted :
    (input : Text) (t : CpuTopology)
    → (parse_ranges none 0 (split b',' (trim_space input)) >>= λ (count, canonical).
        if count == 0
        then failed "CPU list contains no processors"
        else ok (record { count = count; signature = join b',' canonical }))
      ≡ ok t
    → (rs : List (ℕ × ℕ)) × Denote (split b',' (trim_space input)) rs
      × Ascending none rs
      × (t.count ≡ size rs)
      × (size rs ≤ maximum_uint64)
      × (t.signature ≡ join b',' (map print_range rs))
accepted input t h =
    let (x, p, h1) = >>=-eq-ok (parse_ranges none 0 (split b',' (trim_space input))) _ h in
    let (rs, d, a, n, m, k) = parse_ranges_inv none 0 _ x (omega arith) p in
    let (r, rest, e, pos) = size_pos b',' (trim_space input) rs d in
    elim (Bool-cases (x.0 == 0)) [
      | inl none_at_all ↦ cc (rw none_at_all at h1)
      | inr some_at_all ↦
          let z = ok-injective (rw some_at_all at h1) in
          (
            rs,
            d,
            a,
            omega (arith, ap (λ y. y.count) z, n),
            omega (arith, m, n),
            sym (ap (λ y. y.signature) z) ∙ ap (join b',') k,
          )
    ]

-- The accepted inputs and their results, by the readers and the printer of one range.
pub parse_cpu_topology_items :
    (input : Text) (t : CpuTopology)
    → (parse_cpu_topology input ≡ ok t) ↔ (
        (badly_sized maximum_cpu_input input ≡ false)
        × (is_empty (trim_space input) ≡ false)
        × ((rs : List (ℕ × ℕ)) × Denote (split b',' (trim_space input)) rs
            × Ascending none rs
            × (t.count ≡ size rs)
            × (size rs ≤ maximum_uint64)
            × (t.signature ≡ join b',' (map print_range rs))))
unfolding parse_cpu_topology
parse_cpu_topology_items input t = (
  λ h. elim (Bool-cases (badly_sized maximum_cpu_input input)) [
    | inl bad ↦ cc (rw bad at h)
    | inr sized ↦ elim (Bool-cases (is_empty (trim_space input))) [
      | inl bad ↦ cc (rw (sized, bad) at h)
      | inr full ↦ (sized, full, accepted input t (rw (sized, full) at h))
    ]
  ],
  λ (sized, full, (rs, d, a, n, m, k)).
      let whole = parse_ranges_whole none 0 (split b',' (trim_space input)) rs d a (omega arith) in
      let (r, rest, e, pos) = size_pos b',' (trim_space input) rs d in
      rw (sized, full, whole)
        (counted (0 + size rs) _ (omega (arith, pos)) ∙ topology_eq t _ _ (omega (arith, n)) k),
)

is_empty-append : (s t : Text) → s ≢ [] → is_empty (s ++ t) ≡ false
is_empty-append [] t h = absurd (h refl)
is_empty-append (b ∷ s) t h = refl

is_empty_of_ne : (s : Text) → s ≢ [] → is_empty s ≡ false
is_empty_of_ne [] h = absurd (h refl)
is_empty_of_ne (b ∷ s) h = refl

print_range-ne-nil : (r : ℕ × ℕ) → is_empty (print_range r) ≡ false
unfolding print_range
print_range-ne-nil (start, end) = elim (Bool-cases (start == end)) [
  | inl same ↦ rw same (is_empty_of_ne _ (format_uint-ne-nil start))
  | inr other ↦ rw other (is_empty-append _ (b'-' ∷ format_uint end) (format_uint-ne-nil start))
]

topology_text :
    (r : ℕ × ℕ) (rs : List (ℕ × ℕ)) → is_empty (join b',' (map print_range (r ∷ rs))) ≡ false
unfolding join
topology_text r [] = print_range-ne-nil r
topology_text r (s ∷ rs) =
    is_empty-append (print_range r) _ (λ e. cc (ap is_empty e, print_range-ne-nil r))

-- A topology that is read has a processor, no more than a 64-bit counter holds, and a signature.
pub parse_cpu_topology-IsTopology :
    (input : Text) (t : CpuTopology)
    → parse_cpu_topology input ≡ ok t
    → (1 ≤ t.count) × (t.count ≤ maximum_uint64) × (is_empty t.signature ≡ false)
parse_cpu_topology-IsTopology input t h =
    let (sized, full, (rs, d, a, n, m, k)) = (parse_cpu_topology_items input t).0 h in
    let (r, rest, e, pos) = size_pos b',' (trim_space input) rs d in
    (
      omega (arith, n, pos),
      omega (arith, n, m),
      ap is_empty (k ∙ ap (λ l. join b',' (map print_range l)) e) ∙ topology_text r rest,
    )
