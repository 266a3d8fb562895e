-- ===== src/HttpApi/Handler/Admission.antt =====
-- The requests in flight at one handler of internal/httpapi/handler.go, in any order. The test of the
-- failure flag and the admission are two steps, as are the setting of that flag and `fatalOnce.Do`, and
-- other requests come in between; an answer is given by what was seen of the flag before.
use joy_pi_health.Prelude.{
  ℕ, ◌+◌, ◌-◌, ◌≤◌, ◌≡◌, ◌≢◌, refl, ◌⊎◌, Bool, true, false, none, some, arith, if◌then◌else◌,
}
use joy_pi_health.Snapshot.Encode.{Encoded}
use joy_pi_health.HttpApi.Handler.{
  Handler, Answer, new_handler, maximum_admitted_requests, success, enter, admit, release,
  set_failed, call_fatal, write_internal_error, conclude, recover,
}

-- The handler; the requests between the test of the failure flag and their admission; the admitted ones up
-- to their answer; those of them between the flag and `fatalOnce.Do`; and the panics between these two,
-- whose requests hold no slot.
pub record System : Type 0 where
  pub handler : Handler
  pub waiting : ℕ
  pub running : ℕ
  pub marking : ℕ
  pub panicked : ℕ

abbrev pub quiet : System
quiet = record { handler = new_handler; waiting = 0; running = 0; marking = 0; panicked = 0 }

-- What a request has seen of the failure flag, which is never taken back.
abbrev pub Saw : Bool → Handler → Type 0
Saw seen h = (seen ≡ true) → h.failed ≡ true

-- That an answer makes the handler fail, with the flag as it was seen.
abbrev pub fails : Bool → Handler → Answer → Bool
fails seen h a = (conclude (record h { failed = seen }) a).2

pub data Step : System → System → Type 0 where
  entering : (s : System) → enter s.handler ≡ none → Step s (record s { waiting = s.waiting + 1 })
  admitting :
      (s : System) (h : Handler)
      → 1 ≤ s.waiting
      → admit s.handler ≡ some h
      → Step s (record s { handler = h; waiting = s.waiting - 1; running = s.running + 1 })
  refusing :
      (s : System)
      → 1 ≤ s.waiting
      → admit s.handler ≡ none
      → Step s (record s { waiting = s.waiting - 1 })
  concluding :
      (s : System) (seen : Bool) (a : Answer)
      → 1 ≤ s.running
      → Saw seen s.handler
      → fails seen s.handler a ≡ false
      → Step s (record s { handler = release s.handler; running = s.running - 1 })
  marking_failed :
      (s : System) (seen : Bool) (a : Answer)
      → 1 ≤ s.running
      → Saw seen s.handler
      → fails seen s.handler a ≡ true
      → Step s (record s {
        handler = set_failed s.handler;
        running = s.running - 1;
        marking = s.marking + 1;
      })
  announcing :
      (s : System)
      → 1 ≤ s.marking
      → Step s (record s { handler = release (call_fatal s.handler); marking = s.marking - 1 })
  -- A panic of an admitted request, whose slot is given back first, before its answer or behind it.
  recovering :
      (s : System) (committed : Bool)
      → 1 ≤ s.running
      → Step s (record s {
        handler = (recover (release s.handler) committed).0;
        running = s.running - 1;
        panicked = s.panicked + 1;
      })
  recovering_marked :
      (s : System) (committed : Bool)
      → 1 ≤ s.marking
      → Step s (record s {
        handler = (recover (release s.handler) committed).0;
        marking = s.marking - 1;
        panicked = s.panicked + 1;
      })
  -- A panic of a request that is not admitted.
  failing :
      (s : System) (committed : Bool)
      → Step s (record s { handler = (recover s.handler committed).0; panicked = s.panicked + 1 })
  announcing_panic :
      (s : System)
      → 1 ≤ s.panicked
      → Step s (record s { handler = call_fatal s.handler; panicked = s.panicked - 1 })

pub data Reach : System → Type 0 where
  fresh : Reach quiet
  later : {s t : System} → Reach s → Step s t → Reach t

pub record Inv (s : System) : Type 0 where
  pub held : s.handler.slots ≡ s.running + s.marking
  pub within : s.running + s.marking ≤ maximum_admitted_requests
  pub calls : s.handler.fatal_calls ≡ (if s.handler.notified then 1 else 0)
  pub caused : s.handler.notified ≡ true → s.handler.failed ≡ true
  pub marked : 1 ≤ s.marking + s.panicked → s.handler.failed ≡ true
  pub owed : s.handler.failed ≡ true → (s.handler.notified ≡ true) ⊎ (1 ≤ s.marking + s.panicked)

-- What `conclude` does to the handler: nothing, or it sets the flag.
pub conclude_handler :
    (h : Handler) (a : Answer)
    → (((conclude h a).0 ≡ h) × ((conclude h a).2 ≡ false))
      ⊎ (((conclude h a).0 ≡ set_failed h) × ((conclude h a).2 ≡ true))
unfolding conclude write_internal_error
conclude_handler h a = ground arith

Step-Inv : {s t : System} → Step s t → Inv s → Inv t
unfolding enter admit release set_failed call_fatal recover
Step-Inv (entering s h) v = ground arith
Step-Inv (admitting s h w e) v = ground arith
Step-Inv (refusing s w e) v = ground arith
Step-Inv (concluding s seen a w p q) v = ground arith
Step-Inv (marking_failed s seen a w p q) v = ground arith
Step-Inv (announcing s w) v = ground arith
Step-Inv (recovering s committed w) v = ground arith
Step-Inv (recovering_marked s committed w) v = ground arith
Step-Inv (failing s committed) v = ground arith
Step-Inv (announcing_panic s w) v = ground arith

Reach-Inv : {s : System} → Reach s → Inv s
Reach-Inv fresh = record {
  held = refl;
  within = omega arith;
  calls = refl;
  caused = λ p. cc;
  marked = λ p. absurd (omega arith);
  owed = λ p. cc;
}
Reach-Inv (later r st) = Step-Inv st (Reach-Inv r)

-- In every order of requests, answers and panics: at most eight requests are admitted, and each holds
-- one slot; if the handler has not failed, `fatal` has not been called, and otherwise it has been called
-- once, or never, and then a request is between the failure flag and that call.
pub admission_safe :
    (s : System)
    → Reach s
    → (s.running + s.marking ≤ maximum_admitted_requests)
      × (s.handler.slots ≡ s.running + s.marking)
      × (((s.handler.failed ≡ false) × (s.handler.fatal_calls ≡ 0))
          ⊎ ((s.handler.failed ≡ true)
              × ((s.handler.fatal_calls ≡ 1)
                  ⊎ ((s.handler.fatal_calls ≡ 0) × (1 ≤ s.marking + s.panicked)))))
admission_safe s r = let v = Reach-Inv r in (v.within, v.held, ground arith)

failed-Step : {s t : System} → Step s t → s.handler.failed ≡ true → t.handler.failed ≡ true
unfolding enter admit release set_failed call_fatal recover
failed-Step (entering s h) f = f
failed-Step (admitting s h w e) f = ground arith
failed-Step (refusing s w e) f = f
failed-Step (concluding s seen a w p q) f = f
failed-Step (marking_failed s seen a w p q) f = refl
failed-Step (announcing s w) f = f
failed-Step (recovering s committed w) f = refl
failed-Step (recovering_marked s committed w) f = refl
failed-Step (failing s committed) f = refl
failed-Step (announcing_panic s w) f = f

pub data Steps (s : System) : System → Type 0 where
  stay : Steps s s
  step : {t u : System} → Steps s t → Step t u → Steps s u

failed-Steps : {s t : System} → Steps s t → s.handler.failed ≡ true → t.handler.failed ≡ true
failed-Steps stay f = f
failed-Steps (step ss st) f = failed-Step st (failed-Steps ss f)

-- Once the handler has failed it never recovers: whatever steps follow, a new request is turned away
-- with the status 503 before its admission, and one that sees the flag behind its call is sent no snapshot.
pub failure_sticks :
    (s t : System)
    → Steps s t
    → s.handler.failed ≡ true
    → (enter t.handler ≢ none)
      × ((a : Answer) (e : Encoded) → (conclude t.handler a).1 ≢ some (success e))
unfolding enter conclude
failure_sticks s t ss f = let g = failed-Steps ss f in (λ p. ground arith, λ a e p. ground arith)
