-- ===== src/Observe/Coordinator/Shared.antt =====
-- The state that the callers of `Snapshot` and the cycles share in internal/observe/coordinator.go:
-- `Snapshot`, `run` and `fail`. A cycle is a number, in the order of their starts. A part under the lock,
-- a call of `fatalOnce` and the closing of a channel are steps of their own. A caller whose own context
-- ends returns its error, and leaves this state as it is.
pub mod Steps
pub mod Announced
pub mod Failure
use joy_pi_health.Prelude.{
  ℕ, suc, ◌+◌, ◌-◌, Bool, true, false, not, ◌&&◌, ◌||◌, Option, none, some, ◌==◌, if◌then◌else◌,
  is_some,
}
use joy_pi_health.Result.{Result, ok, err}
use joy_pi_health.Text.{bytes}
use joy_pi_health.Errors.{Error, plain, internal_defect, is_internal_defect}
use joy_pi_health.Snapshot.Encode.{Encoded}

-- Where `run` is: in the collection, behind its part under the lock, behind `fatalOnce`, and behind the
-- closing of `done`.
pub data Cycle : Type 0 where
  collecting : Cycle
  recorded announced concluded : Result Error Encoded → Cycle

-- `announcing` is the number of calls of `fail` between their lock and `fatalOnce`; `notified` is that
-- `fatalOnce` is done; `next` is the number of cycles that were started.
pub record Coordinator : Type 0 where
  pub active : Option ℕ
  pub failed : Option Error
  pub announcing : ℕ
  pub notified : Bool
  pub fatal_calls : ℕ
  pub next : ℕ
  pub cycles : ℕ → Cycle

abbrev pub new_coordinator : Coordinator
new_coordinator = record {
  active = none;
  failed = none;
  announcing = 0;
  notified = false;
  fatal_calls = 0;
  next = 0;
  cycles = λ i. collecting;
}

abbrev pub update : (ℕ → Cycle) → ℕ → Cycle → ℕ → Cycle
update f i a j = if i == j then a else f j

-- The context of a request: nil, over with an error, or live.
pub data RequestContext : Type 0 where
  absent live : RequestContext
  over : Error → RequestContext

-- `Snapshot` returns at once, waits for a cycle, or goes on in `fail` and returns then.
pub data Reply : Type 0 where
  refused failing : Error → Reply
  waiting : ℕ → Reply

unfoldable pub notify : Coordinator → Coordinator
notify c = record c {
  notified = true;
  fatal_calls = if c.notified then c.fatal_calls else c.fatal_calls + 1;
}

abbrev pub first_error : Option Error → Error → Error
first_error none e = e
first_error (some d) e = d

-- `fail` under the lock: the first failure stays, and is returned in the end.
unfoldable pub keep_failure : Error → Coordinator → Coordinator × Error
keep_failure e c = (
  record c { failed = some (first_error c.failed e); announcing = c.announcing + 1 },
  first_error c.failed e,
)

-- The rest of `fail`.
unfoldable pub announce_failure : Coordinator → Coordinator
unfolding notify
announce_failure c = notify (record c { announcing = c.announcing - 1 })

-- A new cycle, which becomes the active one.
unfoldable pub start_cycle : Coordinator → Coordinator
start_cycle c = record c {
  active = some c.next;
  next = suc c.next;
  cycles = update c.cycles c.next collecting;
}

-- The part of `Snapshot` under the lock.
unfoldable pub join : Coordinator → Coordinator × Reply
join c = elim c.failed [
  | some e ↦ (c, refused e)
  | none ↦ elim c.active [ some i ↦ (c, waiting i) | none ↦ (start_cycle c, waiting c.next) ]
]

unfoldable pub snapshot : RequestContext → Coordinator → Coordinator × Reply
unfolding keep_failure join
snapshot absent c = (
  (keep_failure (internal_defect (plain (bytes "request context is nil"))) c).0,
  failing (keep_failure (internal_defect (plain (bytes "request context is nil"))) c).1,
)
snapshot (over e) c = (c, refused e)
snapshot live c = join c

abbrev pub result_of : Cycle → Option (Result Error Encoded)
result_of collecting = none
result_of (recorded r) = none
result_of (announced r) = none
result_of (concluded r) = some r

-- What a caller that waits returns once its cycle is done; nothing before.
unfoldable pub answer : ℕ → Coordinator → Option (Result Error Encoded)
answer i c = result_of (c.cycles i)

abbrev pub is_defect : Result Error Encoded → Bool
is_defect (ok e) = false
is_defect (err e) = is_internal_defect e

abbrev error_of : Result Error Encoded → Option Error
error_of (ok e) = none
error_of (err e) = some e

abbrev pub same_cycle : Option ℕ → ℕ → Bool
same_cycle none i = false
same_cycle (some j) i = j == i

-- The end of `run` under the lock: a defect is kept, unless one is already, with the result.
unfoldable pub record_result : ℕ → Result Error Encoded → Coordinator → Coordinator
record_result i r c = record c {
  failed = if is_defect r && not (is_some c.failed) then error_of r else c.failed;
  active = if same_cycle c.active i then none else c.active;
  cycles = update c.cycles i (recorded r);
}

-- `run` behind the lock: a defect is announced.
unfoldable pub announce_result : ℕ → Result Error Encoded → Coordinator → Coordinator
unfolding notify
announce_result i r c =
    let d = if is_defect r then notify c else c in
    record d { cycles = update d.cycles i (announced r) }

-- The end of `run`: the callers are released.
unfoldable pub conclude_cycle : ℕ → Result Error Encoded → Coordinator → Coordinator
conclude_cycle i r c = record c { cycles = update c.cycles i (concluded r) }
