-- ===== src/Observe/Parsers/Ranges.antt =====
-- The CPU lists of `parseCPUTopology` of internal/observe/generic.go by their grammar: decimal numbers
-- and pairs of them with a dash, and how a list is written in canonical form.
use joy_pi_health.Prelude.{
  ℕ, ◌≤◌, ◌≡◌, ◌≢◌, refl, sym, ap, subst, ◌∙◌, ◌↔◌, ◌⊎◌, inl, inr, false, none, some, List, [], ◌∷◌,
  ◌++◌, map, arith, ltb, ◌==◌, if◌then◌else◌, Bool-cases, Option-cases,
}
use joy_pi_health.Result.{ok, >>=-eq-ok, or_fail-eq-ok, ok-injective}
use joy_pi_health.Text.{Text, is_empty, split, join, join-split, split_absent, split-append}
use joy_pi_health.Text.Fields.{trim_space}
use joy_pi_health.Text.Decimal.{parse_uint, format_uint}
use joy_pi_health.Text.Decimal.RoundTrip.{digits_without}
use joy_pi_health.Text.Decimal.Numeral.{Numeral, parse_uint_iff}
use joy_pi_health.Observe.Coordinator.Cycle.{CpuTopology}
use joy_pi_health.Observe.Parsers.{
  maximum_uint64, failed, badly_sized, maximum_cpu_input, read_bound, read_range, print_range,
  parse_cpu_topology,
}
use joy_pi_health.Observe.Parsers.Topology.{Denote, Ascending, size, parse_cpu_topology_items}

-- A 64-bit number in decimal digits.
abbrev pub Number : Text → ℕ → Type 0
Number t n = Numeral maximum_uint64 t n

-- One item of a list: a number, which stands for itself, or two of them with a dash, the first not
-- above the second.
abbrev pub IsItem : Text → ℕ × ℕ → Type 0
IsItem item r =
    (Number item r.0 × (r.1 ≡ r.0))
    ⊎ ((first : Text) × (last : Text) × (item ≡ first ++ b'-' ∷ last)
        × Number first r.0
        × Number last r.1
        × (r.0 ≤ r.1))

abbrev pub AreItems : List Text → List (ℕ × ℕ) → Type 0
AreItems [] [] = Unit
AreItems (item ∷ items) (r ∷ rs) = IsItem item r × AreItems items rs
AreItems _ _ = ⊥

-- The canonical form of a range: one number without leading zeros, or two of them with a dash.
abbrev pub IsWritten : ℕ × ℕ → Text → Type 0
IsWritten r t =
    ((r.0 ≡ r.1) × (t ≡ format_uint r.0))
    ⊎ ((r.0 ≢ r.1) × (t ≡ format_uint r.0 ++ b'-' ∷ format_uint r.1))

abbrev pub AreWritten : List (ℕ × ℕ) → List Text → Type 0
AreWritten [] [] = Unit
AreWritten (r ∷ rs) (t ∷ ts) = IsWritten r t × AreWritten rs ts
AreWritten _ _ = ⊥

is_empty-Number : (t : Text) (n : ℕ) → Number t n → is_empty t ≡ false
is_empty-Number [] n v = absurd (v.full refl)
is_empty-Number (b ∷ t) n v = refl

read_bound_iff : (t : Text) (n : ℕ) → (read_bound t ≡ ok n) ↔ Number t n
unfolding read_bound
read_bound_iff t n = (
  λ h. (parse_uint_iff maximum_uint64 t n).0 (or_fail-eq-ok _ _ h),
  λ v. rw ((parse_uint_iff maximum_uint64 t n).1 v) refl,
)

read_last_iff :
    (first last : Text) (start : ℕ) (r : ℕ × ℕ)
    → Number first start
    → (if is_empty last
        then failed "CPU list contains an invalid range"
        else elim (parse_uint 10 maximum_uint64 last) [
          | none ↦ failed "CPU list contains an invalid range"
          | some end ↦
              if ltb end start then failed "CPU list contains an invalid range" else ok (start, end)
        ])
      ≡ ok r
    → IsItem (first ++ b'-' ∷ last) r
read_last_iff first last start r v h = elim (Option-cases (parse_uint 10 maximum_uint64 last)) [
  | inl bad ↦ ground (arith, bad)
  | inr (end, good) ↦
      let w = (parse_uint_iff maximum_uint64 last end).0 good in
      let (a, b, le) : (start ≡ r.0) × (end ≡ r.1) × (start ≤ end) = ground (arith, good) in
      inr (
        first,
        last,
        refl,
        subst (λ n. Number first n) a v,
        subst (λ n. Number last n) b w,
        omega arith,
      )
]

read_range-IsItem :
    (bounds : List Text) (r : ℕ × ℕ) → read_range bounds ≡ ok r → IsItem (join b'-' bounds) r
unfolding read_range join
read_range-IsItem [] r h = cc
read_range-IsItem (first ∷ []) r h = elim (Bool-cases (is_empty first)) [
  | inl empty ↦ cc (rw empty at h)
  | inr other ↦
      let (start, p, q) = >>=-eq-ok (read_bound first) _ (rw other at h) in
      inl (
        subst (λ n. Number first n) (ap (λ x. x.0) (ok-injective q))
            ((read_bound_iff first start).0 p),
        sym (ap (λ x. x.1) (ok-injective q)) ∙ ap (λ x. x.0) (ok-injective q),
      )
]
read_range-IsItem (first ∷ last ∷ []) r h = elim (Bool-cases (is_empty first)) [
  | inl empty ↦ cc (rw empty at h)
  | inr other ↦
      let (start, p, q) = >>=-eq-ok (read_bound first) _ (rw other at h) in
      read_last_iff first last start r ((read_bound_iff first start).0 p) q
]
read_range-IsItem (a ∷ b ∷ c ∷ rest) r h = cc

read_range-Number :
    (item : Text) (r : ℕ × ℕ) → Number item r.0 → r.1 ≡ r.0 → read_range (item ∷ []) ≡ ok r
unfolding read_range
read_range-Number item r v e =
    rw (is_empty-Number item r.0 v, (read_bound_iff item r.0).1 v) (ap (λ n. ok (r.0, n)) (sym e))

read_pair :
    (first last : Text) (r : ℕ × ℕ)
    → Number first r.0
    → Number last r.1
    → r.0 ≤ r.1
    → read_range (first ∷ last ∷ []) ≡ ok r
unfolding read_range
read_pair first last r v w le =
    rw
      (
        is_empty-Number first r.0 v,
        (read_bound_iff first r.0).1 v,
        is_empty-Number last r.1 w,
        (parse_uint_iff maximum_uint64 last r.1).1 w,
      )
      (ground arith)

-- The items that the loop reads are those of the grammar.
read_range_iff : (item : Text) (r : ℕ × ℕ) → (read_range (split b'-' item) ≡ ok r) ↔ IsItem item r
read_range_iff item r = (
  λ h. subst (λ t. IsItem t r) (join-split b'-' item) (read_range-IsItem (split b'-' item) r h),
  λ v. elim v [
    | inl (n, e) ↦
        subst (λ l. read_range l ≡ ok r)
          (sym (split_absent b'-' item (digits_without b'-' item refl n.digits)))
          (read_range-Number item r n e)
    | inr (first, last, e, n, m, le) ↦
        subst (λ l. read_range l ≡ ok r)
          (sym (
            ap (split b'-') e
            ∙ split-append b'-' first last (digits_without b'-' first refl n.digits)
            ∙ ap (λ l. first ∷ l)
                (split_absent b'-' last (digits_without b'-' last refl m.digits))))
          (read_pair first last r n m le)
  ],
)

Denote_iff : (items : List Text) (rs : List (ℕ × ℕ)) → Denote items rs ↔ AreItems items rs
Denote_iff [] [] = (λ d. d, λ d. d)
Denote_iff [] (r ∷ rs) = (λ d. d, λ d. d)
Denote_iff (item ∷ items) [] = (λ d. d, λ d. d)
Denote_iff (item ∷ items) (r ∷ rs) = (
  λ (d, ds). ((read_range_iff item r).0 d, (Denote_iff items rs).0 ds),
  λ (d, ds). ((read_range_iff item r).1 d, (Denote_iff items rs).1 ds),
)

print_range-IsWritten : (r : ℕ × ℕ) → IsWritten r (print_range r)
unfolding print_range
print_range-IsWritten (start, end) = elim (Bool-cases (start == end)) [
  | inl same ↦ inl (ground arith, rw same)
  | inr other ↦ inr (λ e. ground arith, rw other)
]

IsWritten-print_range : (r : ℕ × ℕ) (t : Text) → IsWritten r t → t ≡ print_range r
unfolding print_range
IsWritten-print_range (start, end) t (inl (e, p)) = p ∙ ground arith
IsWritten-print_range (start, end) t (inr (e, p)) = p ∙ ground arith

print_ranges-AreWritten : (rs : List (ℕ × ℕ)) → AreWritten rs (map print_range rs)
print_ranges-AreWritten [] = tt
print_ranges-AreWritten (r ∷ rs) = (print_range-IsWritten r, print_ranges-AreWritten rs)

AreWritten-print_ranges :
    (rs : List (ℕ × ℕ)) (ts : List Text) → AreWritten rs ts → ts ≡ map print_range rs
AreWritten-print_ranges [] [] w = refl
AreWritten-print_ranges [] (t ∷ ts) w = absurd w
AreWritten-print_ranges (r ∷ rs) [] w = absurd w
AreWritten-print_ranges (r ∷ rs) (t ∷ ts) (w, ws) =
    cc (IsWritten-print_range r t w, AreWritten-print_ranges rs ts ws)

-- `parseCPUTopology` accepts exactly the inputs of a proper size whose items, between commas, are numbers
-- or pairs of numbers of 64 bits with a dash, in ascending order and with no more than 2^64 - 1 processors
-- together; it returns their number, and as the signature the canonical forms of the ranges with commas.
pub parse_cpu_topology_iff :
    (input : Text) (t : CpuTopology)
    → (parse_cpu_topology input ≡ ok t) ↔ (
        (badly_sized maximum_cpu_input input ≡ false)
        × (is_empty (trim_space input) ≡ false)
        × ((rs : List (ℕ × ℕ)) × AreItems (split b',' (trim_space input)) rs
            × Ascending none rs
            × (t.count ≡ size rs)
            × (size rs ≤ maximum_uint64)
            × ((forms : List Text) × AreWritten rs forms × (t.signature ≡ join b',' forms))))
parse_cpu_topology_iff input t = (
  λ h.
      let (sized, full, (rs, d, a, n, m, k)) = (parse_cpu_topology_items input t).0 h in
      (
        sized,
        full,
        (rs, (Denote_iff _ rs).0 d, a, n, m, (map print_range rs, print_ranges-AreWritten rs, k)),
      ),
  λ (sized, full, (rs, d, a, n, m, (forms, w, k))). (parse_cpu_topology_items input t).1 (
    sized,
    full,
    (rs, (Denote_iff _ rs).1 d, a, n, m, k ∙ ap (join b',') (AreWritten-print_ranges rs forms w)),
  ),
)
