-- ===== src/Observe/Parsers/MemoryInfo.antt =====
-- What the entries of /proc/meminfo that `parseMemory` reads amount to.
use joy_pi_health.Prelude.{
  ℕ, ◌-◌, ◌≤◌, ◌≡◌, subst, inl, inr, not, ◌&&◌, ◌||◌, some, List, [], ◌∷◌, All, length, arith, ltb,
  ◌==◌, Bool-cases, Option-cases, is_some,
}
use joy_pi_health.Result.{ok, >>=-eq-ok, ok-injective}
use joy_pi_health.Text.{Text, bytes, text_eq, contains_byte}
use joy_pi_health.Text.Fields.{fields}
use joy_pi_health.Text.Decimal.{parse_uint}
use joy_pi_health.Observe.Outcome.{nat_zero, text_zero}
use joy_pi_health.Observe.Observations.{MemoryObservation}
use joy_pi_health.Observe.Coordinator.Cycle.{memory_zero, load_zero}
use joy_pi_health.Observe.Parsers.{
  maximum_uint64, maximum_memory_input, badly_sized, parse_memory, conclude_memory, read_entries,
  scan_lines, find_entry, read_amount, read_entry, trim_last,
}

abbrev pub IsMemory : MemoryObservation → Type 0
IsMemory m =
    (m.available_bytes ≤ m.total_bytes)
    × (m.used_bytes ≡ m.total_bytes - m.available_bytes)
    × (m.total_bytes ≤ maximum_uint64)

-- Every entry fits in 64 bits.
abbrev Bounded : List (Text × ℕ) → Type 0
Bounded values = All (λ e. e.1 ≤ maximum_uint64) values

find_entry-le :
    (k : Text) (values : List (Text × ℕ)) (n : ℕ)
    → Bounded values
    → find_entry k values ≡ some n
    → n ≤ maximum_uint64
unfolding find_entry
find_entry-le k [] n b h = cc
find_entry-le k (e ∷ values) n b h = ground (arith, find_entry-le k values n)

read_amount-Bounded :
    (name : Text) (values vs : List (Text × ℕ)) (others : List Text)
    → Bounded values
    → read_amount name values others ≡ ok vs
    → Bounded vs
unfolding read_amount
read_amount-Bounded name values vs [] b h = cc
read_amount-Bounded name values vs (amount ∷ []) b h = cc
read_amount-Bounded name values vs (amount ∷ unit ∷ []) b h =
    elim (Bool-cases (is_some (find_entry name values) || not (text_eq unit (bytes "kB")))) [
      | inl bad ↦ cc (rw (read_amount, bad) at h)
      | inr fit ↦ elim (Option-cases (parse_uint 10 maximum_uint64 amount)) [
        | inl bad ↦ cc (rw (read_amount, fit, bad) at h)
        | inr (n, good) ↦ elim (Bool-cases (ltb 18014398509481983 n)) [
          | inl bad ↦ cc (rw (read_amount, fit, good, bad) at h)
          | inr small ↦
              subst Bounded (ok-injective (rw (read_amount, fit, good, small) at h))
                (ground (arith, small), b)
        ]
      ]
    ]
read_amount-Bounded name values vs (amount ∷ unit ∷ more ∷ others) b h = cc

read_entry-Bounded :
    (values vs : List (Text × ℕ)) (fs : List Text)
    → Bounded values
    → read_entry values fs ≡ ok vs
    → Bounded vs
unfolding read_entry
read_entry-Bounded values vs [] b h = subst Bounded (ok-injective h) b
read_entry-Bounded values vs (first ∷ others) b h =
    elim (Bool-cases (
      text_eq (trim_last b':' first) (bytes "MemTotal")
      || text_eq (trim_last b':' first) (bytes "MemAvailable"))) [
        | inl read ↦ read_amount-Bounded _ values vs others b (rw read at h)
        | inr other ↦ subst Bounded (ok-injective (rw other at h)) b
      ]

read_entries-Bounded :
    (values vs : List (Text × ℕ)) (lines : List Text)
    → Bounded values
    → read_entries values lines ≡ ok vs
    → Bounded vs
unfolding read_entries
read_entries-Bounded values vs [] b h = subst Bounded (ok-injective h) b
read_entries-Bounded values vs (line ∷ rest) b h =
    let (ws, p, q) = >>=-eq-ok (read_entry values (fields line)) _ h in
    read_entries-Bounded ws vs rest (read_entry-Bounded values ws (fields line) b p) q

conclude_memory-IsMemory :
    (values : List (Text × ℕ)) (m : MemoryObservation)
    → Bounded values
    → conclude_memory values ≡ ok m
    → IsMemory m
unfolding conclude_memory
conclude_memory-IsMemory values m b h = elim (Option-cases (find_entry (bytes "MemTotal") values)) [
  | inl absent ↦ cc (rw (conclude_memory, absent) at h)
  | inr (total, found) ↦
      let bound = find_entry-le (bytes "MemTotal") values total b found in
      ground (arith, found, bound)
]

pub parse_memory-IsMemory : (t : Text) (m : MemoryObservation) → parse_memory t ≡ ok m → IsMemory m
unfolding parse_memory
parse_memory-IsMemory t m h = elim (Bool-cases (badly_sized maximum_memory_input t)) [
  | inl bad ↦ cc (rw bad at h)
  | inr sized ↦ elim (Bool-cases ((length t == maximum_memory_input) && not (contains_byte 10 t))) [
    | inl bad ↦ cc (rw (sized, bad) at h)
    | inr short ↦
        let (vs, p, q) = >>=-eq-ok (read_entries [] (scan_lines t)) _ (rw (sized, short) at h) in
        conclude_memory-IsMemory vs m (read_entries-Bounded [] vs (scan_lines t) tt p) q
  ]
]
