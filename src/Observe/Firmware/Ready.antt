-- ===== src/Observe/Firmware/Ready.antt =====
-- What the callers of the executor of internal/observe/firmware_executor.go get.
use joy_pi_health.Prelude.{
  ◌↔◌, ℕ, ◌≡◌, ◌≢◌, refl, ◌∙◌, ◌⊎◌, inl, inr, Bool, true, false, Option, none, some, [], arith,
  Option-cases,
}
use joy_pi_health.Observe.Coordinator.Cycle.{firmware_zero}
use joy_pi_health.Observe.Firmware.{
  FirmwareResult, ended, transacting, FirmwareExecutor, ready, Admission, refused, admitted, admit,
  same_token, receive,
}
use joy_pi_health.Observe.Firmware.Invariant.{admit_cases}
use joy_pi_health.Observe.Firmware.Steps.{Reach, Reach-Inv}

abbrev pub is_admitted : Admission → Bool
is_admitted (refused v) = false
is_admitted (admitted i) = true

-- `Ready` accepts exactly if a call with a context and a cycle would be admitted.
pub ready_iff :
    (e : FirmwareExecutor) (token : ℕ)
    → (ready e ≡ none) ↔ (is_admitted (admit true (some token) e).1 ≡ true)
unfolding ready admit
ready_iff e token = elim (Option-cases e.failed) [
  | inr (d, f) ↦ rw f (λ h. ground arith, λ h. cc)
  | inl f ↦ (λ h. ground arith, λ h. ground arith)
]

-- In every state that the executor reaches, while the transaction of a request runs, none is queued,
-- the channel of its result is empty, and no call changes the executor.
pub transaction_exclusive :
    {e : FirmwareExecutor} (i : ℕ)
    → Reach e
    → e.worker ≡ transacting i
    → (e.queue ≡ [])
      × ((e.requests i).result ≡ none)
      × ((live : Bool) (token : Option ℕ) → (admit live token e).0 ≡ e)
transaction_exclusive {e = e} i r w =
    let (bare, busy, (below, token, free)) = (Reach-Inv r).transaction i w in
    (
      bare,
      free,
      λ live t. elim (admit_cases e live t) [ inl p ↦ p | inr (k, f, s, b, p) ↦ absurd (cc) ],
    )

same_token_refl : (token : Option ℕ) → same_token token token ≡ true
same_token_refl none = refl
same_token_refl (some t) = ground arith

-- In every state that the executor reaches, a caller gets from the channel of its request the outcome
-- that was sent, and never the defect of a wrong cycle identity.
pub own_result :
    {e : FirmwareExecutor} (i : ℕ) (r : FirmwareResult)
    → Reach e
    → (e.requests i).result ≡ some r
    → receive (e.requests i).token r ≡ r.outcome
unfolding receive
own_result {e = e} i r reached h =
    let same = (Reach-Inv reached).answers i r h in
    rw (same, same_token_refl (e.requests i).token) refl

-- In every state that the executor reaches, the fatal function was called once if a failure is kept, and
-- then the worker is over and the executor not ready; otherwise it was not called.
pub failure_final :
    {e : FirmwareExecutor}
    → Reach e
    → ((e.failed ≡ none) × (e.fatal_calls ≡ 0))
      ⊎ ((e.fatal_calls ≡ 1) × (e.worker ≡ ended) × ready e ≢ none)
unfolding ready
failure_final {e = e} r =
    let v = Reach-Inv r in
    elim (Option-cases e.failed) [
      | inl f ↦ inl (f, v.calls ∙ rw f refl)
      | inr (d, f) ↦ inr (v.calls ∙ rw f refl, v.dead (rw f refl), λ h. ground (arith, f, h))
    ]
