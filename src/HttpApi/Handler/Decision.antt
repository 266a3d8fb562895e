-- ===== src/HttpApi/Handler/Decision.antt =====
-- When a request gets the snapshot, when the handler fails, and that its slot is given back.
use joy_pi_health.Prelude.{
  ◌+◌, ◌≤◌, ◌<◌, ◌≡◌, ◌⊎◌, inl, inr, ◌↔◌, Bool, true, false, none, some, [], arith, length,
}
use joy_pi_health.Result.{Result, ok, err, Result-cases}
use joy_pi_health.Text.{text_eq_iff}
use joy_pi_health.Errors.{Error}
use joy_pi_health.Snapshot.{maximum_size}
use joy_pi_health.Snapshot.Encode.{Encoded, is_valid_body, encoded_length}
use joy_pi_health.HttpApi.Handler.{
  Request, Handler, Answer, snapshot_path, method_get, maximum_admitted_requests, success,
  is_expected, screen, enter, admit, release, set_failed, settle, write_internal_error,
  call_provider, conclude, serve_http,
}

-- A plain `GET /v1/snapshot` with no query and no body.
abbrev pub IsPlain : Request → Type 0
IsPlain r =
    (r.escaped_path ≡ snapshot_path)
    × (r.method ≡ method_get)
    × (r.raw_query ≡ [])
    × (r.transfer_encoding ≡ [])
    × (r.content_length ≡ 0)

screen_iff : (r : Request) → (screen r ≡ none) ↔ IsPlain r
unfolding screen
screen_iff r = (
  λ h. ground (arith, text_eq_iff r.escaped_path snapshot_path, text_eq_iff r.method method_get),
  λ h. ground (arith, text_eq_iff r.escaped_path snapshot_path, text_eq_iff r.method method_get),
)

-- What is asked of the provider's answer for a snapshot to be sent.
abbrev pub Delivers : Answer → Encoded → Type 0
Delivers a e =
    (a.request_over ≡ false)
    × (call_provider a.provided ≡ ok e)
    × (a.deadline_over ≡ false)
    × (1 ≤ length e.body)
    × (length e.body ≤ maximum_size)

conclude_iff :
    (h : Handler) (a : Answer) (e : Encoded)
    → ((conclude h a).1 ≡ some (success e)) ↔ ((h.failed ≡ false) × Delivers a e)
unfolding conclude write_internal_error is_valid_body encoded_length
conclude_iff h a e = (λ p. ground arith, λ p. ground arith)

-- A request is answered with a snapshot exactly if it is a plain `GET` of the snapshot's path, the
-- handler has not failed, one of the eight slots is free, and the provider returns, in time and to
-- a client that still waits, an encoded snapshot of 1 byte to 64 KiB; and then with that one.
pub serve_http_iff :
    (h : Handler) (r : Request) (a : Answer) (e : Encoded)
    → ((serve_http h r a).1 ≡ some (success e))
      ↔ (IsPlain r × (h.failed ≡ false) × (h.slots < maximum_admitted_requests) × Delivers a e)
unfolding serve_http enter admit
serve_http_iff h r a e = (
  λ p. ground (arith, screen_iff r, conclude_iff (record h { slots = h.slots + 1 }) a e),
  λ p. ground (arith, screen_iff r, conclude_iff (record h { slots = h.slots + 1 }) a e),
)

-- What makes the handler fail: an error that is not expected, or a body that is not valid.
abbrev pub IsDefective : Result Error Encoded → Type 0
IsDefective (err e) = is_expected e ≡ false
IsDefective (ok e) = (length e.body ≡ 0) ⊎ (maximum_size < length e.body)

abbrev pub is_ok : Result Error Encoded → Bool
is_ok (ok e) = true
is_ok (err e) = false

conclude_failed :
    (h : Handler) (a : Answer)
    → ((conclude h a).0.failed ≡ true) ↔ (
        (h.failed ≡ true)
        ⊎ ((a.request_over ≡ false)
            × IsDefective (call_provider a.provided)
            × ((is_ok (call_provider a.provided) ≡ false) ⊎ (a.deadline_over ≡ false))))
unfolding conclude write_internal_error set_failed is_valid_body encoded_length
conclude_failed h a = elim (Result-cases (call_provider a.provided)) [
  | inl (e, bad) ↦ rw bad (λ p. ground (arith, bad), λ p. ground (arith, bad))
  | inr (e, good) ↦ rw good (λ p. ground (arith, good), λ p. ground (arith, good))
]

conclude_slots : (h : Handler) (a : Answer) → (conclude h a).0.slots ≡ h.slots
unfolding conclude write_internal_error set_failed
conclude_slots h a = ground arith

-- Whatever a request is answered, its slot is given back; and a handler that had not failed has
-- failed behind it exactly if the request was plain and admitted, its client still waits, and the
-- provider either ended in an error that is not expected or returned in time an encoded snapshot
-- that is empty or larger than 64 KiB.
pub serve_http_state :
    (h : Handler) (r : Request) (a : Answer)
    → h.failed ≡ false
    → ((serve_http h r a).0.slots ≡ h.slots)
      × (((serve_http h r a).0.failed ≡ true) ↔ (
          IsPlain r
          × (h.slots < maximum_admitted_requests)
          × (a.request_over ≡ false)
          × IsDefective (call_provider a.provided)
          × ((is_ok (call_provider a.provided) ≡ false) ⊎ (a.deadline_over ≡ false))))
unfolding serve_http enter admit release settle
serve_http_state h r a f = (
  ground (arith, conclude_slots (record h { slots = h.slots + 1 }) a),
  (
    λ p. ground (arith, screen_iff r, conclude_failed (record h { slots = h.slots + 1 }) a),
    λ (p, q, o, d, t).
        let z = (conclude_failed (record h { slots = h.slots + 1 }) a).1 (inr (o, d, t)) in
        ground (arith, screen_iff r, z),
  ),
)
