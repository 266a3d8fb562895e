-- ===== src/HttpApi/Listener/Slots.antt =====
-- The slots of the listener of internal/httpapi/server.go in every state that it can reach.
use joy_pi_health.Prelude.{
  ℕ, zero, suc, ◌+◌, ◌≤◌, ◌≡◌, refl, ap, Bool, true, false, some, List, [], ◌∷◌, ◌++◌, arith,
  if◌then◌else◌,
}
use joy_pi_health.HttpApi.Listener.{
  Listener, new_limited_listener, acquire, refuse, accepted, mark, holds, close_connection, close,
}

-- One operation: a slot taken, an `Accept` refused or finished, a connection or the listener closed.
pub data Step : Listener → Listener → Type 0 where
  taking : (l k : Listener) → acquire l ≡ some k → Step l k
  refusing : (l k : Listener) → refuse l ≡ some k → Step l k
  accepting : (l : Listener) (connected : Bool) → 1 ≤ l.accepting → Step l (accepted connected l)
  closing_connection : (l : Listener) (i : ℕ) → Step l (close_connection i l)
  closing : (l : Listener) → Step l (close l)

pub data Reach (limit : ℕ) : Listener → Type 0 where
  fresh : Reach limit (new_limited_listener limit)
  later : {l k : Listener} → Reach limit l → Step l k → Reach limit k

-- The connections that are not released.
abbrev pub open_connections : List Bool → ℕ
open_connections [] = 0
open_connections (b ∷ bs) = (if b then 0 else 1) + open_connections bs

open_connections-append :
    (bs : List Bool) → open_connections (bs ++ false ∷ []) ≡ suc (open_connections bs)
open_connections-append [] = omega arith
open_connections-append (b ∷ bs) = ground (arith, open_connections-append bs)

open_connections-mark :
    (i : ℕ) (bs : List Bool)
    → open_connections (mark i bs) + (if holds i bs then 1 else 0) ≡ open_connections bs
open_connections-mark i [] = ground arith
open_connections-mark zero (b ∷ bs) = ground arith
open_connections-mark (suc i) (b ∷ bs) = ground (arith, open_connections-mark i bs)

-- Each slot is held by one call of `Accept` or one connection, and there are no more than the limit.
pub record Inv (limit : ℕ) (l : Listener) : Type 0 where
  pub bounded : l.limit ≡ limit
  pub held : l.slots ≡ l.accepting + open_connections l.connections
  pub within : l.slots ≤ limit

Step-Inv : {limit : ℕ} {l k : Listener} → Step l k → Inv limit l → Inv limit k
unfolding acquire refuse accepted close_connection close
Step-Inv (taking l k h) v = ground arith
Step-Inv (refusing l k h) v = ground arith
Step-Inv (accepting l true h) v = ground (arith, open_connections-append l.connections)
Step-Inv (accepting l false h) v = ground arith
Step-Inv (closing_connection l i) v = ground (arith, open_connections-mark i l.connections)
Step-Inv (closing l) v = ground arith

Reach-Inv : {limit : ℕ} {l : Listener} → Reach limit l → Inv limit l
unfolding new_limited_listener
Reach-Inv fresh = record { bounded = refl; held = omega arith; within = omega arith }
Reach-Inv (later r s) = Step-Inv s (Reach-Inv r)

-- In every order of accepting, closing and closing again, the listener holds no more connections
-- than its limit, and every slot belongs to a call of `Accept` or to an open connection: none leaks,
-- and none is released twice.
pub slots_held :
    (limit : ℕ) (l : Listener)
    → Reach limit l
    → (l.slots ≡ l.accepting + open_connections l.connections) × (l.slots ≤ limit)
slots_held limit l r = let v = Reach-Inv r in omega (arith, v.held, v.within)

holds-mark : (i : ℕ) (bs : List Bool) → holds i (mark i bs) ≡ false
holds-mark i [] = ground arith
holds-mark zero (b ∷ bs) = refl
holds-mark (suc i) (b ∷ bs) = holds-mark i bs

mark-mark : (i : ℕ) (bs : List Bool) → mark i (mark i bs) ≡ mark i bs
mark-mark i [] = ground arith
mark-mark zero (b ∷ bs) = refl
mark-mark (suc i) (b ∷ bs) = ap (λ cs. b ∷ cs) (mark-mark i bs)

-- A connection that is closed again gives back nothing.
pub close_connection_twice :
    (i : ℕ) (l : Listener) → close_connection i (close_connection i l) ≡ close_connection i l
unfolding close_connection
close_connection_twice i l = ground (arith, holds-mark i l.connections, mark-mark i l.connections)
