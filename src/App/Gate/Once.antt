-- ===== src/App/Gate/Once.antt =====
-- Readiness is notified at most once, and never after a fatal failure.
use joy_pi_health.Prelude.{
  ◌≤◌, ◌≡◌, ◌≢◌, refl, true, false, Option, some, arith, if◌then◌else◌, is_some,
}
use joy_pi_health.Errors.{Error}
use joy_pi_health.App.Gate.{
  resting, sending, deciding, Gate, new_gate, detect, mark_fatal, prevented, begin_notify, decide,
  end_notify,
}

-- The lock is held from the beginning of a notification to its end; a detection needs no lock.
pub data Step : Gate → Gate → Type 0 where
  detecting : (g : Gate) → Step g (detect g)
  marking : (g : Gate) → g.phase ≡ resting → g.detected ≡ true → Step g (mark_fatal g)
  beginning :
      (g : Gate) (context : Option Error) → g.phase ≡ resting → Step g (begin_notify context g).0
  deciding_result : (g : Gate) (sent : Option Error) → g.phase ≡ sending → Step g (decide sent g)
  ending : (g : Gate) → g.phase ≡ deciding → Step g (end_notify g)

pub data Reach : Gate → Type 0 where
  fresh : Reach new_gate
  later : {g h : Gate} → Reach g → Step g h → Reach h

pub data Steps : Gate → Gate → Type 0 where
  none_left : {g : Gate} → Steps g g
  next_step : {f g h : Gate} → Step f g → Steps g h → Steps f h

-- The readiness is not granted: there is none, and no notification is about to assign it.
abbrev pub IsOpen : Gate → Type 0
IsOpen g = (g.ready ≡ false) × ((g.phase ≡ deciding) → is_some g.result ≡ true)

record Inv (g : Gate) : Type 0 where
  once : g.sends ≡ (if g.attempted then 1 else 0)
  busy : g.phase ≢ resting → (g.attempted ≡ true) × (g.fatal ≡ false)
  known : g.fatal ≡ true → g.detected ≡ true

Step-Inv : {g h : Gate} → Step g h → Inv g → Inv h
unfolding detect mark_fatal begin_notify decide end_notify
Step-Inv (detecting g) v = record { once = v.once; busy = v.busy; known = λ f. refl }
Step-Inv (marking g s d) v = record { once = v.once; busy = λ p. absurd (p s); known = λ f. d }
Step-Inv (beginning g context s) v = record {
  once = ground (arith, v.once);
  busy = λ p. ground (arith, p);
  known = λ p. ground (arith, p, v.known);
}
Step-Inv (deciding_result g sent s) v = record {
  once = v.once;
  busy = λ p. v.busy (λ r. cc);
  known = v.known;
}
Step-Inv (ending g s) v = record { once = v.once; busy = λ p. absurd (p refl); known = v.known }

Reach-Inv : {g : Gate} → Reach g → Inv g
Reach-Inv fresh = record { once = refl; busy = λ p. absurd (p refl); known = λ p. cc }
Reach-Inv (later r s) = Step-Inv s (Reach-Inv r)

-- After a detection the gate stays as it is: not granted, and detected.
Step-IsOpen :
    {g h : Gate} → Step g h → g.detected ≡ true → IsOpen g → (h.detected ≡ true) × IsOpen h
unfolding detect mark_fatal begin_notify decide end_notify
Step-IsOpen (detecting g) d o = (refl, o)
Step-IsOpen (marking g s k) d o = (d, o)
Step-IsOpen (beginning g context s) d (r, t) =
    (ground arith, (ground arith, λ p. ground (arith, p)))
Step-IsOpen (deciding_result g sent s) d (r, t) = (d, (r, λ p. rw d refl))
Step-IsOpen (ending g s) d (r, t) = (d, (ground (arith, t s), λ p. cc))

Steps-IsOpen :
    {g h : Gate} → Steps g h → g.detected ≡ true → IsOpen g → (h.detected ≡ true) × IsOpen h
Steps-IsOpen none_left d o = (d, o)
Steps-IsOpen (next_step s p) d o = let (e, q) = Step-IsOpen s d o in Steps-IsOpen p e q

Steps-Reach : {g h : Gate} → Steps g h → Reach g → Reach h
Steps-Reach none_left r = r
Steps-Reach (next_step s p) r = Steps-Reach p (later r s)

-- If a fatal failure is detected while the gate is not ready and no notification has passed its last test
-- without an error, then whatever steps follow, the gate never becomes ready, and later notifications are
-- refused; the notification is sent at most once.
pub fatal_prevents_ready :
    {g h : Gate} (context : Option Error)
    → Reach g
    → Steps g h
    → g.detected ≡ true
    → IsOpen g
    → (h.ready ≡ false) × (h.sends ≤ 1) × (begin_notify context h ≡ (h, some (some prevented)))
unfolding begin_notify
fatal_prevents_ready context r p d o =
    let (e, (s, t)) = Steps-IsOpen p d o in
    let v = Reach-Inv (Steps-Reach p r) in (s, ground (arith, v.once), ground arith)
