-- ===== src/HttpApi/Listener.antt =====
-- The listener of internal/httpapi/server.go that holds a limited number of connections: its slots,
-- and what each operation does to them. The listener below it is given by what it answers.
pub mod Slots
use joy_pi_health.Prelude.{
  ℕ, zero, suc, ◌+◌, ◌-◌, Bool, true, false, Option, none, some, List, [], ◌∷◌, ◌++◌, ltb,
  if◌then◌else◌,
}
use joy_pi_health.Result.{Result, ok, err}

abbrev pub maximum_connections : ℕ
maximum_connections = 16

-- `slots` by the number of its tokens; `accepting` counts the calls of `Accept` that hold one, and
-- `connections` has the state of each `releaseOnce`, true once it is done.
pub record Listener : Type 0 where
  pub limit : ℕ
  pub slots : ℕ
  pub closed : Bool
  pub accepting : ℕ
  pub connections : List Bool

unfoldable pub new_limited_listener : ℕ → Listener
new_limited_listener limit = record {
  limit = limit;
  slots = 0;
  closed = false;
  accepting = 0;
  connections = [];
}

-- The `select` of `Accept` where it sends: there is a free slot.
unfoldable pub acquire : Listener → Option Listener
acquire l =
    if ltb l.slots l.limit
    then some (record l { slots = l.slots + 1; accepting = l.accepting + 1 })
    else none

-- The `select` of `Accept` where it is closed: `net.ErrClosed`, with no slot taken.
unfoldable pub refuse : Listener → Option Listener
refuse l = if l.closed then some l else none

-- The rest of `Accept`, by whether the listener below has a connection.
unfoldable pub accepted : Bool → Listener → Listener
accepted true l = record l {
  accepting = l.accepting - 1;
  connections = l.connections ++ false ∷ [];
}
accepted false l = record l { accepting = l.accepting - 1; slots = l.slots - 1 }

abbrev pub mark : ℕ → List Bool → List Bool
mark i [] = []
mark zero (b ∷ bs) = true ∷ bs
mark (suc i) (b ∷ bs) = b ∷ mark i bs

-- Whether a connection holds its slot.
abbrev pub holds : ℕ → List Bool → Bool
holds i [] = false
holds zero (b ∷ bs) = if b then false else true
holds (suc i) (b ∷ bs) = holds i bs

-- `Close` of a connection, which may be called again.
unfoldable pub close_connection : ℕ → Listener → Listener
close_connection i l = record l {
  slots = if holds i l.connections then l.slots - 1 else l.slots;
  connections = mark i l.connections;
}

-- `Close` of the listener.
unfoldable pub close : Listener → Listener
close l = record l { closed = true }
