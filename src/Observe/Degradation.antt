-- ===== src/Observe/Degradation.antt =====
-- internal/observe/degradation.go: the reporter's map of active degradations, and the records that
-- it emits. Times are in nanoseconds, and the map is an association list with one entry for a key.
pub mod Active
use joy_pi_health.Prelude.{
  ℕ, ◌-◌, Bool, true, false, not, ◌&&◌, ◌||◌, Option, none, some, List, [], ◌∷◌, ◌++◌, map, ltb,
  leb, if◌then◌else◌, is_some, length,
}
use joy_pi_health.Result.{Result, ok, err, ◌>>=◌}
use joy_pi_health.Text.{Text, bytes, text_eq, text_lt, is_empty}
use joy_pi_health.Errors.{Error, plain}
use joy_pi_health.Snapshot.{valid_issue_code}
use joy_pi_health.Observe.Coordinator.Cycle.{DegradationEvent}

abbrev degradation_reminder_interval : ℕ
degradation_reminder_interval = 300_000_000_000

abbrev pub maximum_degradation_states : ℕ
maximum_degradation_states = 204

pub data DegradationSeverity : Type 0 where
  degradation_info degradation_warn : DegradationSeverity

pub record DegradationRecord : Type 0 where
  pub at : ℕ
  pub severity : DegradationSeverity
  pub metric : Text
  pub reason : Text
  pub cleared : Bool

-- `degradationKey` has the fields of an event; the entry is the time of its last record.
abbrev pub Active : Type 0
Active = List (DegradationEvent × ℕ)

unfoldable pub same_key : DegradationEvent → DegradationEvent → Bool
same_key j k = text_eq j.metric k.metric && text_eq j.reason k.reason

unfoldable pub contains : DegradationEvent → List DegradationEvent → Bool
contains k [] = false
contains k (e ∷ es) = same_key e k || contains k es

unfoldable pub find_active : DegradationEvent → Active → Option ℕ
find_active k [] = none
find_active k ((j, t) ∷ m) = if same_key j k then some t else find_active k m

unfoldable pub put_active : DegradationEvent → ℕ → Active → Active
put_active k t [] = (k, t) ∷ []
put_active k t ((j, s) ∷ m) =
    let rest = put_active k t m in if same_key j k then (j, t) ∷ m else (j, s) ∷ rest

-- The loop that checks the events, with those already met.
unfoldable pub check_events :
    List DegradationEvent → List DegradationEvent → Result Error (Unit {0})
check_events current [] = ok tt
check_events current (e ∷ es) =
    let rest = check_events (e ∷ current) es in
    if is_empty e.metric || not (valid_issue_code e.reason)
    then err (plain (bytes "invalid degradation identity"))
    else if contains e current
    then err (plain (bytes "duplicate degradation identity"))
    else rest

-- Whether an event is recorded now: it is new, or its last record is five minutes old.
unfoldable pub is_due : ℕ → Option ℕ → Bool
is_due now none = true
is_due now (some last) = leb degradation_reminder_interval (now - last)

abbrev warning : ℕ → DegradationEvent → DegradationRecord
warning now e = record {
  at = now;
  severity = degradation_warn;
  metric = e.metric;
  reason = e.reason;
  cleared = false;
}

abbrev recovery : ℕ → DegradationEvent → DegradationRecord
recovery now e = record {
  at = now;
  severity = degradation_info;
  metric = e.metric;
  reason = e.reason;
  cleared = true;
}

abbrev pub last_logged : ℕ → Option ℕ → ℕ
last_logged now none = now
last_logged now (some last) = if is_due now (some last) then now else last

-- The loop over the events: the new map, and the warnings.
unfoldable pub log_events : ℕ → List DegradationEvent → Active → Active × List DegradationRecord
unfolding is_due
log_events now [] m = (m, [])
log_events now (e ∷ es) m =
    let rest = log_events now es (put_active e (last_logged now (find_active e m)) m) in
    (rest.0, if is_due now (find_active e m) then warning now e ∷ rest.1 else rest.1)

unfoldable pub recovered : List DegradationEvent → Active → List DegradationEvent
recovered current [] = []
recovered current ((j, s) ∷ m) =
    let rest = recovered current m in if contains j current then rest else j ∷ rest

unfoldable pub remaining : List DegradationEvent → Active → Active
remaining current [] = []
remaining current ((j, s) ∷ m) =
    let rest = remaining current m in if contains j current then (j, s) ∷ rest else rest

-- By the metric, and by the reason where the metrics are equal.
abbrev before : DegradationEvent → DegradationEvent → Bool
before j k =
    if text_eq j.metric k.metric then text_lt j.reason k.reason else text_lt j.metric k.metric

-- `sort.Slice`, whose keys are all different here.
insert : DegradationEvent → List DegradationEvent → List DegradationEvent
insert k [] = k ∷ []
insert k (e ∷ es) = let rest = insert k es in if before e k then e ∷ rest else k ∷ e ∷ es

unfoldable pub sort_keys : List DegradationEvent → List DegradationEvent
unfolding insert
sort_keys [] = []
sort_keys (k ∷ ks) = insert k (sort_keys ks)

unfoldable pub report :
    ℕ → List DegradationEvent → Active → Result Error (Active × List DegradationRecord)
unfolding check_events log_events recovered remaining sort_keys
report now events m =
    if ltb maximum_degradation_states (length events)
    then err (plain (bytes "degradation event limit exceeded"))
    else (check_events [] events >>= λ _. ok (
      remaining events (log_events now events m).0,
      (log_events now events m).1
          ++ map (recovery now) (sort_keys (recovered events (log_events now events m).0)),
    ))
