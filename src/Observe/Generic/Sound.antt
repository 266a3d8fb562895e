-- ===== src/Observe/Generic/Sound.antt =====
-- What the collectors of internal/observe/generic.go observe passes the coordinator's checks.
use native.Mathlib.Nat
use joy_pi_health.Prelude.{
  ℕ, ◌*◌, ◌/◌, ◌≤◌, ◌≡◌, refl, subst, ◌⊎◌, inl, inr, true, false, Option, none, some, List, [], ◌∷◌,
  arith, Bool-cases,
}
use joy_pi_health.Result.{Result, ok, err, >>=-eq-ok, ok-injective, Result-cases}
use joy_pi_health.Text.{Text, is_empty}
use joy_pi_health.Text.Fields.{fields}
use joy_pi_health.Text.Utf8.{valid_utf8}
use joy_pi_health.Errors.{Error}
use joy_pi_health.Numbers.{Float64}
use joy_pi_health.Observe.Outcome.{
  Outcome, Zero, nat_zero, text_zero, present, unavailable, validate_outcome, HasValue, HasReason,
  acquisition_failure_sound, reason_unsupported,
}
use joy_pi_health.Observe.Observations.{
  HostObservation, CpuLoadObservation, LoadObservation, MemoryObservation, bad_load, validate_host,
  validate_cpu_load, validate_memory_outcome,
}
use joy_pi_health.Observe.Coordinator.Cycle.{memory_zero, load_zero, memory_text, filesystem_text}
use joy_pi_health.Observe.Parsers.{
  maximum_uint64, badly_sized, parse_uptime, parse_cpu_topology, parse_load, read_load, read_loads,
  maximum_load_input, parse_memory,
}
use joy_pi_health.Observe.Parsers.Topology.{parse_cpu_topology-IsTopology}
use joy_pi_health.Observe.Parsers.MemoryInfo.{IsMemory, parse_memory-IsMemory}
use joy_pi_health.Observe.Generic.{
  Filesystem, temporarily, parsed, check_hostname, collect_host, collect_cpu_load, collect_memory,
  measure_filesystem, collect_root_filesystem,
}

-- An outcome that is a value with a property, or a reason with a cause.
abbrev pub IsSoundWith : {A : Type 0} → (A → Type 0) → Outcome A → Type 0
IsSoundWith P v = (HasValue v × P v.value) ⊎ HasReason v

temporarily_sound : (A : Type 0) ⦃z : Zero A⦄ (e : Error) → HasReason (temporarily {A = A} e)
unfolding unavailable
temporarily_sound A e = (refl, omega arith, omega arith, refl)

-- What a parser ensures holds of the outcome that is made of its answer.
pub parsed-IsSoundWith :
    {A B : Type 0} ⦃z : Zero A⦄ (P : A → Type 0) (parse : B → Result Error A) (r : Result Error B)
    → ((b : B) (a : A) → parse b ≡ ok a → P a)
    → IsSoundWith P (parsed parse r)
unfolding parsed present
parsed-IsSoundWith {A = A} P parse (err e) h =
    inr (acquisition_failure_sound A e reason_unsupported (omega arith) (omega arith)).0
parsed-IsSoundWith {A = A} P parse (ok b) h = elim (Result-cases (parse b)) [
  | inl (e, bad) ↦ rw (parsed, bad) (inr (temporarily_sound A e))
  | inr (a, good) ↦ rw (parsed, good) (inl ((refl, refl, refl), h b a good))
]

abbrev IsHostname : Text → Type 0
IsHostname t = (is_empty t ≡ false) × (valid_utf8 t ≡ true)

check_hostname-IsHostname : (t u : Text) → check_hostname t ≡ ok u → IsHostname u
unfolding check_hostname
check_hostname-IsHostname t u h = ground arith

host_accepted :
    (v : HostObservation)
    → IsSoundWith IsHostname v.hostname
    → IsSoundWith (λ n. Unit) v.uptime
    → validate_host v ≡ none
unfolding validate_host validate_outcome
host_accepted v h u = ground arith

memory_accepted :
    (t : Text) (v : Outcome MemoryObservation)
    → IsSoundWith IsMemory v
    → validate_memory_outcome t v ≡ none
unfolding validate_memory_outcome validate_outcome
memory_accepted t v h = ground arith

product-le : (limit n k : ℕ) → 1 ≤ k → n ≤ limit / k → n * k ≤ limit
product-le limit n k h = (Nat.le-div_iff_mul-le h).0

measure-IsMemory :
    (b : Filesystem) (m : MemoryObservation) → measure_filesystem b ≡ ok m → IsMemory m
unfolding measure_filesystem
measure-IsMemory b m h =
    let total = product-le maximum_uint64 b.total_blocks b.block_size in
    let available = product-le maximum_uint64 b.available_blocks b.block_size in
    ground (arith, total, available)

collect_memory-IsSoundWith :
    (context : Option Error) (info : Result Error Text)
    → IsSoundWith IsMemory (collect_memory context info)
unfolding collect_memory
collect_memory-IsSoundWith (some e) info = inr (temporarily_sound MemoryObservation e)
collect_memory-IsSoundWith none info =
    parsed-IsSoundWith IsMemory parse_memory info parse_memory-IsMemory

collect_root_filesystem-IsSoundWith :
    (context : Option Error) (usage : Result Error Filesystem)
    → IsSoundWith IsMemory (collect_root_filesystem context usage)
unfolding collect_root_filesystem
collect_root_filesystem-IsSoundWith (some e) usage = inr (temporarily_sound MemoryObservation e)
collect_root_filesystem-IsSoundWith none usage =
    parsed-IsSoundWith IsMemory measure_filesystem usage measure-IsMemory

pub collected_root :
    (context : Option Error) (usage : Result Error Filesystem)
    → validate_memory_outcome filesystem_text (collect_root_filesystem context usage) ≡ none
collected_root context usage =
    memory_accepted filesystem_text _ (collect_root_filesystem-IsSoundWith context usage)

pub collected_host :
    (context : Option Error) (hostname uptime : Result Error Text)
    → validate_host (collect_host context hostname uptime) ≡ none
unfolding collect_host
collected_host (some e) hostname uptime =
    host_accepted _ (inr (temporarily_sound Text e)) (inr (temporarily_sound ℕ e))
collected_host none hostname uptime =
    host_accepted _
      (parsed-IsSoundWith IsHostname check_hostname hostname check_hostname-IsHostname)
      (parsed-IsSoundWith (λ n. Unit) parse_uptime uptime (λ b a h. tt))

module _ {F : Type 0} ⦃f : Float64 F⦄ where
  abbrev IsLoad : LoadObservation F → Type 0
  IsLoad l =
      (bad_load l.one_minute ≡ false)
      × (bad_load l.five_minutes ≡ false)
      × (bad_load l.fifteen_minutes ≡ false)

  cpu_load_accepted :
      (v : CpuLoadObservation F)
      → ((HasValue v.logical_cpu_count
            × (1 ≤ v.logical_cpu_count.value)
            × (is_empty v.topology_signature ≡ false))
          ⊎ (HasReason v.logical_cpu_count × (is_empty v.topology_signature ≡ true)))
      → IsSoundWith IsLoad v.load
      → validate_cpu_load v ≡ none
  unfolding validate_cpu_load validate_outcome
  cpu_load_accepted v c l = ground arith

  read_load-good : (t : Text) (x : F) → read_load t ≡ ok x → bad_load x ≡ false
  unfolding read_load
  read_load-good t x h = ground arith

  read_loads-IsLoad : (fs : List Text) (l : LoadObservation F) → read_loads fs ≡ ok l → IsLoad l
  unfolding read_loads
  read_loads-IsLoad [] l h = cc
  read_loads-IsLoad (first ∷ []) l h = cc
  read_loads-IsLoad (first ∷ second ∷ []) l h = cc
  read_loads-IsLoad (first ∷ second ∷ third ∷ others) l h =
      let (one, p, h1) = >>=-eq-ok (read_load first) _ h in
      let (five, q, h2) = >>=-eq-ok (read_load second) _ h1 in
      let (fifteen, r, h3) = >>=-eq-ok (read_load third) _ h2 in
      subst IsLoad (ok-injective h3)
        (read_load-good first one p, read_load-good second five q, read_load-good third fifteen r)

  parse_load-IsLoad : (t : Text) (l : LoadObservation F) → parse_load t ≡ ok l → IsLoad l
  unfolding parse_load
  parse_load-IsLoad t l h = elim (Bool-cases (badly_sized maximum_load_input t)) [
    | inl bad ↦ cc (rw bad at h)
    | inr sized ↦ read_loads-IsLoad (fields t) l (rw sized at h)
  ]

  abbrev CountAgrees : CpuLoadObservation F → Type 0
  CountAgrees v =
      (HasValue v.logical_cpu_count
        × (1 ≤ v.logical_cpu_count.value)
        × (is_empty v.topology_signature ≡ false))
      ⊎ (HasReason v.logical_cpu_count × (is_empty v.topology_signature ≡ true))

module _ (F : Type 0) ⦃f : Float64 F⦄ where
  cpu_count_sound :
      (context : Option Error) (online average : Result Error Text)
      → CountAgrees {F = F} (collect_cpu_load context online average)
  unfolding collect_cpu_load parsed present
  cpu_count_sound (some e) online average = inr (temporarily_sound ℕ e, refl)
  cpu_count_sound none (err e) average =
      inr ((acquisition_failure_sound ℕ e reason_unsupported (omega arith) (omega arith)).0, refl)
  cpu_count_sound none (ok t) average = elim (Result-cases (parse_cpu_topology t)) [
    | inl (e, bad) ↦ rw (collect_cpu_load, parsed, bad) (inr (temporarily_sound ℕ e, refl))
    | inr (a, good) ↦
        let (pos, bound, signed) = parse_cpu_topology-IsTopology t a good in
        rw (collect_cpu_load, parsed, good) (inl ((refl, refl, refl), pos, signed))
  ]

  collect_cpu_load-IsSoundWith :
      (context : Option Error) (online average : Result Error Text)
      → IsSoundWith IsLoad (collect_cpu_load {F = F} context online average).load
  unfolding collect_cpu_load
  collect_cpu_load-IsSoundWith (some e) online average =
      inr (temporarily_sound (LoadObservation F) e)
  collect_cpu_load-IsSoundWith none online average =
      parsed-IsSoundWith IsLoad parse_load average parse_load-IsLoad

  -- Whatever the context and the source answer, errors and malformed files included, the values of
  -- the generic collectors pass the coordinator's checks: no such answer is an internal defect.
  pub generic_collectors_sound :
      (context : Option Error) (hostname uptime online average info : Result Error Text)
      (usage : Result Error Filesystem)
      → (validate_host (collect_host context hostname uptime) ≡ none)
        × (validate_cpu_load (collect_cpu_load {F = F} context online average) ≡ none)
        × (validate_memory_outcome memory_text (collect_memory context info) ≡ none)
        × (validate_memory_outcome filesystem_text (collect_root_filesystem context usage) ≡ none)
  generic_collectors_sound context hostname uptime online average info usage = (
    collected_host context hostname uptime,
    cpu_load_accepted _ (cpu_count_sound context online average)
        (collect_cpu_load-IsSoundWith context online average),
    memory_accepted memory_text _ (collect_memory-IsSoundWith context info),
    collected_root context usage,
  )
