-- ===== src/Observe/Firmware/Invariant.antt =====
-- What holds of the executor of internal/observe/firmware_executor.go between any two steps, and that
-- its callers keep it.
use joy_pi_health.Prelude.{
  ℕ, ◌<◌, ◌≡◌, refl, sym, subst, ◌⊎◌, inl, inr, Bool, true, false, not, ◌||◌, Option, none, some,
  List, [], ◌∷◌, ◌++◌, arith, if◌then◌else◌, is_some, Bool-cases, Option-cases,
}
use joy_pi_health.Result.{ok}
use joy_pi_health.Observe.Coordinator.Cycle.{firmware_zero}
use joy_pi_health.Observe.Firmware.{
  FirmwareResult, unborn, idle, ended, transacting, returned, FirmwareExecutor,
  new_firmware_executor, start, reserve, admit, close,
}

-- A request that waits for its result.
abbrev pub IsOpen : FirmwareExecutor → ℕ → Type 0
IsOpen e i = (i < e.next) × (is_some (e.requests i).token ≡ true) × ((e.requests i).result ≡ none)

pub record Inv (e : FirmwareExecutor) : Type 0 where
  pub none_queued : e.busy ≡ false → e.queue ≡ []
  pub one_queued : (i : ℕ) (rest : List ℕ) → e.queue ≡ i ∷ rest → (rest ≡ []) × IsOpen e i
  pub transaction :
      (i : ℕ) → e.worker ≡ transacting i → (e.queue ≡ []) × (e.busy ≡ true) × IsOpen e i
  pub result : (i : ℕ) → e.worker ≡ returned i → (e.queue ≡ []) × (e.busy ≡ true)
  pub unstarted : e.started ≡ false → (e.worker ≡ unborn) × (e.busy ≡ false)
  pub alive : e.worker ≡ unborn → e.started ≡ false
  pub over : e.worker ≡ ended → (e.stopping ≡ true) ⊎ (is_some e.failed ≡ true)
  pub dead : is_some e.failed ≡ true → e.worker ≡ ended
  pub calls : e.fatal_calls ≡ (if is_some e.failed then 1 else 0)
  pub answers :
      (i : ℕ) (r : FirmwareResult) → (e.requests i).result ≡ some r → r.token ≡ (e.requests i).token

pub Inv-new : Inv new_firmware_executor
Inv-new = record {
  none_queued = λ b. refl;
  one_queued = λ i rest q. cc;
  transaction = λ i w. cc;
  result = λ i w. cc;
  unstarted = λ b. (refl, refl);
  alive = λ w. refl;
  over = λ w. cc;
  dead = λ f. cc;
  calls = refl;
  answers = λ i r q. cc;
}

abbrev pub begun : FirmwareExecutor → FirmwareExecutor
begun e = record e { started = true; worker = idle }

pub start_lem :
    (e d : FirmwareExecutor)
    → start e ≡ ok d
    → (e.started ≡ false) × (is_some e.failed ≡ false) × (d ≡ begun e)
unfolding start
start_lem e d h = ground (arith, h)

begun-Inv :
    (e : FirmwareExecutor) → e.started ≡ false → is_some e.failed ≡ false → Inv e → Inv (begun e)
begun-Inv e s f v = record {
  none_queued = v.none_queued;
  one_queued = v.one_queued;
  transaction = λ i w. cc;
  result = λ i w. cc;
  unstarted = λ p. cc;
  alive = λ w. cc;
  over = λ w. cc;
  dead = λ n. cc;
  calls = v.calls;
  answers = v.answers;
}

pub start-Inv : (e d : FirmwareExecutor) → start e ≡ ok d → Inv e → Inv d
start-Inv e d h v =
    let (s, f, p) = start_lem e d h in subst (λ x. Inv x) (sym p) (begun-Inv e s f v)

queue_end :
    (is : List ℕ) (n i : ℕ) (rest : List ℕ)
    → is ≡ []
    → is ++ n ∷ [] ≡ i ∷ rest
    → (n ≡ i) × (rest ≡ [])
queue_end [] n i rest z q = (cc, cc)
queue_end (j ∷ js) n i rest z q = cc

pub reserve-Inv :
    (e : FirmwareExecutor) (token : Option ℕ)
    → is_some token ≡ true
    → e.failed ≡ none
    → e.started ≡ true
    → e.busy ≡ false
    → Inv e
    → Inv (reserve token e)
unfolding reserve
reserve-Inv e token t f s b v = record {
  none_queued = λ p. cc;
  one_queued = λ i rest q.
      let (same, last) = queue_end e.queue e.next i rest (v.none_queued b) q in
      (last, (omega arith, ground (arith, t), ground arith));
  transaction = λ i w. absurd (cc ((v.transaction i w).1));
  result = λ i w. absurd (cc ((v.result i w).1));
  unstarted = λ p. cc;
  alive = v.alive;
  over = v.over;
  dead = v.dead;
  calls = v.calls;
  answers = λ i r q. ground (arith, v.answers i r);
}

closed-Inv : (e : FirmwareExecutor) → Inv e → Inv (record e { stopping = true })
closed-Inv e v = record {
  none_queued = v.none_queued;
  one_queued = v.one_queued;
  transaction = v.transaction;
  result = v.result;
  unstarted = v.unstarted;
  alive = v.alive;
  over = λ w. inl refl;
  dead = v.dead;
  calls = v.calls;
  answers = v.answers;
}

pub close-Inv : (e : FirmwareExecutor) → Inv e → Inv (close e)
unfolding close
close-Inv e v = elim (Bool-cases e.started) [
  | inl b ↦
      subst (λ s. Inv (if s then record e { stopping = true } else e)) (sym b) (closed-Inv e v)
  | inr b ↦ subst (λ s. Inv (if s then record e { stopping = true } else e)) (sym b) v
]

-- What `admit` does to the executor: nothing, or it reserves the slot.
pub admit_cases :
    (e : FirmwareExecutor) (live : Bool) (token : Option ℕ)
    → ((admit live token e).0 ≡ e)
      ⊎ (is_some token ≡ true
          × e.failed ≡ none
          × e.started ≡ true
          × e.busy ≡ false
          × (admit live token e).0 ≡ reserve token e)
unfolding admit
admit_cases e live token = elim (Bool-cases (not live || not (is_some token))) [
  | inl b ↦ inl (rw (admit, b) refl)
  | inr b ↦ elim (Option-cases e.failed) [
    | inr (d, f) ↦ inl (simp (admit, b, f))
    | inl f ↦ elim (Bool-cases (not e.started || e.stopping)) [
      | inl s ↦ inl (simp (admit, b, f, s))
      | inr s ↦ elim (Bool-cases e.busy) [
        | inl y ↦ inl (simp (admit, b, f, s, y))
        | inr y ↦ inr (ground arith, f, ground arith, y, simp (admit, b, f, s, y))
      ]
    ]
  ]
]

pub admit-Inv :
    (e : FirmwareExecutor) (live : Bool) (token : Option ℕ) → Inv e → Inv (admit live token e).0
admit-Inv e live token v = elim (admit_cases e live token) [
  | inl p ↦ subst (λ d. Inv d) (sym p) v
  | inr (t, f, s, b, p) ↦ subst (λ d. Inv d) (sym p) (reserve-Inv e token t f s b v)
]
