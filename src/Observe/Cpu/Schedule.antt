-- ===== src/Observe/Cpu/Schedule.antt =====
-- The schedule of `run` in internal/observe/cpu.go: the target of the next observation.
use joy_pi_health.Prelude.{
  ℕ, zero, suc, ◌+◌, ◌*◌, ◌≤◌, ◌<◌, ◌≡◌, ◌⊎◌, inl, inr, arith, leb, if◌then◌else◌, Bool-cases,
}

abbrev pub cpu_sample_period : ℕ
cpu_sample_period = 1_000_000_000

-- The loop `for next <= now`, on fuel.
unfoldable pub advance : ℕ → ℕ → ℕ → ℕ
advance zero next now = next
advance (suc fuel) next now =
    let rest = advance fuel (next + cpu_sample_period) now in if leb next now then rest else next

-- Each round adds a second, so that there are at most as many as nanoseconds up to now.
unfoldable pub next_target : ℕ → ℕ → ℕ
unfolding advance
next_target next now = advance (suc now) next now

advance_after :
    (fuel next now : ℕ)
    → now < next + fuel * cpu_sample_period
    → (k : ℕ) × (advance fuel next now ≡ next + k * cpu_sample_period)
      × (now < advance fuel next now)
      × ((k ≡ 0) ⊎ (advance fuel next now ≤ now + cpu_sample_period))
unfolding advance
advance_after zero next now h = (0, omega arith, omega arith, inl (omega arith))
advance_after (suc fuel) next now h = elim (Bool-cases (leb next now)) [
  | inr past ↦ (0, ground (arith, past), ground (arith, past), inl (omega arith))
  | inl due ↦
      let (k, e, a, b) = advance_after fuel (next + cpu_sample_period) now (omega arith) in
      (suc k, ground (arith, due, e), ground (arith, due, a), inr (ground (arith, due, e, a, b)))
]

-- After an observation the next target is later than now, on the grid of whole seconds from the
-- first target, and no more than a second away unless the target was still ahead.
pub next_target_after :
    (next now : ℕ)
    → (k : ℕ) × (next_target next now ≡ next + k * cpu_sample_period)
      × (now < next_target next now)
      × ((k ≡ 0) ⊎ (next_target next now ≤ now + cpu_sample_period))
unfolding next_target
next_target_after next now = advance_after (suc now) next now (omega arith)
