-- ===== src/Observe/Firmware/Work.antt =====
-- The steps of `run` of internal/observe/firmware_executor.go keep the invariant.
use joy_pi_health.Prelude.{
  ap, ℕ, ◌+◌, ◌≡◌, ◌≢◌, refl, sym, subst, inl, inr, true, none, some, List, ◌∷◌, arith, is_some,
  Option-cases,
}
use joy_pi_health.Result.{Result}
use joy_pi_health.Errors.{Error, internal_defect}
use joy_pi_health.Observe.Outcome.{Outcome, defect}
use joy_pi_health.Observe.Observations.{FirmwareHealth}
use joy_pi_health.Observe.Coordinator.Cycle.{firmware_zero}
use joy_pi_health.Observe.Firmware.{
  transaction_outcome, FirmwareResult, FirmwareRequest, idle, ended, transacting, returned,
  FirmwareExecutor, put_request, deliver, end_failed, recover, take_request, return_result,
  free_slot, end_run,
}
use joy_pi_health.Observe.Firmware.Invariant.{IsOpen, Inv}

pub free_slot-Inv :
    (e : FirmwareExecutor) (i : ℕ) → e.worker ≡ returned i → Inv e → Inv (free_slot e)
unfolding free_slot
free_slot-Inv e i w v = record {
  none_queued = λ p. (v.result i w).0;
  one_queued = v.one_queued;
  transaction = λ j q. cc;
  result = λ j q. cc;
  unstarted = λ p. absurd (cc ((v.unstarted p).0));
  alive = λ q. cc;
  over = λ q. cc;
  dead = λ f. absurd (cc (v.dead f));
  calls = v.calls;
  answers = v.answers;
}

pub end_run-Inv :
    (e : FirmwareExecutor) → e.worker ≡ idle → e.stopping ≡ true → Inv e → Inv (end_run e)
unfolding end_run
end_run-Inv e w s v = record {
  none_queued = v.none_queued;
  one_queued = v.one_queued;
  transaction = λ j q. cc;
  result = λ j q. cc;
  unstarted = λ p. absurd (cc ((v.unstarted p).0));
  alive = λ q. cc;
  over = λ q. inl s;
  dead = λ f. refl;
  calls = v.calls;
  answers = v.answers;
}

abbrev pub taken : ℕ → List ℕ → FirmwareExecutor → FirmwareExecutor
taken i rest e = record e { queue = rest; worker = transacting i }

-- A request that the worker takes has a token.
pub take_request_lem :
    (e : FirmwareExecutor) (i : ℕ) (rest : List ℕ)
    → is_some (e.requests i).token ≡ true
    → take_request i rest e ≡ taken i rest e
unfolding take_request
take_request_lem e i rest t = elim (Option-cases (e.requests i).token) [
  | inl n ↦ cc
  | inr (k, n) ↦ rw (take_request, n) refl
]

pub take_request-Inv :
    (e : FirmwareExecutor) (i : ℕ) (rest : List ℕ)
    → e.worker ≡ idle
    → e.queue ≡ i ∷ rest
    → Inv e
    → Inv (take_request i rest e)
take_request-Inv e i rest w q v =
    let (last, (below, token, free)) = v.one_queued i rest q in
    subst (λ x. Inv x) (sym (take_request_lem e i rest token))
      (record {
        none_queued = λ b. last;
        one_queued = λ j others p. cc;
        transaction = λ j p.
            let same : i ≡ j = cc in
            (
              last,
              ground (arith, v.none_queued),
              subst (λ k. IsOpen e k) same (below, token, free),
            );
        result = λ j p. cc;
        unstarted = λ b. absurd (cc ((v.unstarted b).0));
        alive = λ p. cc;
        over = λ p. cc;
        dead = λ f. absurd (cc (v.dead f));
        calls = v.calls;
        answers = v.answers;
      })

-- The channel of a request that waits takes a result.
abbrev pub filled : FirmwareExecutor → ℕ → Outcome FirmwareHealth → ℕ → FirmwareRequest
filled e i v = put_request e.requests i (record {
  token = (e.requests i).token;
  result = some (record { token = (e.requests i).token; outcome = v });
})

filled_answers :
    (e : FirmwareExecutor) (i : ℕ) (v : Outcome FirmwareHealth)
    → Inv e
    → (j : ℕ) (r : FirmwareResult) → (filled e i v j).result ≡ some r
    → r.token ≡ (filled e i v j).token
filled_answers e i v inv j r p = ground (arith, inv.answers j r)

pub return_result_lem :
    (e : FirmwareExecutor) (i : ℕ) (r : Result Error ℕ)
    → (e.requests i).result ≡ none
    → return_result i r e
      ≡ record e { worker = returned i; requests = filled e i (transaction_outcome r) }
unfolding return_result deliver
return_result_lem e i r n = rw (deliver, n) refl

pub return_result-Inv :
    (e : FirmwareExecutor) (i : ℕ) (r : Result Error ℕ)
    → e.worker ≡ transacting i
    → Inv e
    → Inv (return_result i r e)
return_result-Inv e i r w v =
    let (bare, busy, (below, token, free)) = v.transaction i w in
    subst (λ x. Inv x) (sym (return_result_lem e i r free))
      (record {
        none_queued = λ b. bare;
        one_queued = λ j others p. cc;
        transaction = λ j p. cc;
        result = λ j p. (bare, busy);
        unstarted = λ b. absurd (cc ((v.unstarted b).0));
        alive = λ p. cc;
        over = λ p. cc;
        dead = λ f. absurd (cc (v.dead f));
        calls = v.calls;
        answers = filled_answers e i (transaction_outcome r) v;
      })

abbrev crashed : FirmwareExecutor → ℕ → Error → FirmwareExecutor
crashed e i d = record e {
  failed = some d;
  worker = ended;
  fatal_calls = e.fatal_calls + 1;
  requests = filled e i (defect (some d));
}

pub deliver_lem :
    (e : FirmwareExecutor) (i : ℕ) (v : Outcome FirmwareHealth)
    → (e.requests i).result ≡ none
    → deliver i v e ≡ record e { requests = filled e i v }
unfolding deliver
deliver_lem e i v n = rw (deliver, n) refl

recover_lem :
    (e : FirmwareExecutor) (i : ℕ) (d : Error)
    → (e.requests i).result ≡ none
    → recover (some i) d e ≡ crashed e i (internal_defect d)
unfolding recover deliver
recover_lem e i d n =
    let v : Outcome FirmwareHealth = defect (some (internal_defect d)) in
    rw (recover, n)
      (ap end_failed (deliver_lem (record e { failed = some (internal_defect d) }) i v n))

pub recover-Inv :
    (e : FirmwareExecutor) (i : ℕ) (d : Error)
    → e.worker ≡ transacting i
    → Inv e
    → Inv (recover (some i) d e)
recover-Inv e i d w v =
    let (bare, busy, (below, token, free)) = v.transaction i w in
    let alive : is_some e.failed ≢ true = λ f. cc (v.dead f) in
    subst (λ x. Inv x) (sym (recover_lem e i d free))
      (record {
        none_queued = λ b. bare;
        one_queued = λ j others p. cc;
        transaction = λ j p. cc;
        result = λ j p. cc;
        unstarted = λ b. absurd (cc ((v.unstarted b).0));
        alive = λ p. cc;
        over = λ p. inr refl;
        dead = λ f. refl;
        calls = ground (arith, v.calls, alive);
        answers = filled_answers e i (defect (some (internal_defect d))) v;
      })
