-- ===== src/Observe/Network/Sound.antt =====
-- What `collectNetwork` of internal/observe/network.go observes: it passes the coordinator's check,
-- and it reports exactly the external links.
use joy_pi_health.Prelude.{
  ℕ, suc, ◌≤◌, ◌≡◌, refl, subst, ap, ◌∙◌, inl, inr, Bool, true, false, not, ◌&&◌, ◌||◌, Option,
  none, some, List, [], ◌∷◌, All, arith, ltb, if◌then◌else◌, Bool-cases, length,
}
use joy_pi_health.Result.{Result, ok, err, >>=-eq-ok, ok-injective, Result-cases}
use joy_pi_health.Text.{Text, bytes, text_eq, text_lt}
use joy_pi_health.Errors.{Error, is, too_many_links}
use joy_pi_health.Snapshot.{maximum_interfaces}
use joy_pi_health.Observe.Outcome.{
  text_zero, nat_zero, present, unavailable, defect, acquisition_failure, validate_outcome,
  reason_unsupported, acquisition_failure_sound,
}
use joy_pi_health.Observe.Observations.{
  InterfaceObservation, NetworkObservation, is_present, validate_interface, validate_interfaces,
  validate_network,
}
use joy_pi_health.Observe.Coordinator.Cycle.{network_zero}
use joy_pi_health.Observe.Network.{
  Link, Resolved, new_link_topology, is_named, externally_capable, enough_fuel,
}
use joy_pi_health.Observe.Network.Collect.{
  observed, observe_links, operational_state, counter_value, temporarily_unavailable, cause_of,
  sort_interfaces, insert_interface, observe_network, collect_network,
}
use joy_pi_health.Observe.Network.External.{AllAgree, Agrees, externally_capable-Decides}
use joy_pi_health.Observe.Network.Names.{
  Distinct, new_link_topology-Distinct, is_reported, AllDistinct, Ordered, sort-Ordered,
}

-- The values of an interface, apart from its name.
abbrev IsSane : InterfaceObservation → Type 0
IsSane v =
    (validate_outcome v.state ≡ none)
    × (validate_outcome v.rx_bytes ≡ none)
    × (validate_outcome v.tx_bytes ≡ none)
    × ((is_present v.state
          && not (
              text_eq v.state.value (bytes "up")
              || text_eq v.state.value (bytes "down")
              || text_eq v.state.value (bytes "unknown")))
        ≡ false)

operational_state_sane :
    (o : Option ℕ)
    → (validate_outcome (operational_state o) ≡ none)
      × ((is_present (operational_state o)
            && not (
                text_eq (operational_state o).value (bytes "up")
                || text_eq (operational_state o).value (bytes "down")
                || text_eq (operational_state o).value (bytes "unknown")))
          ≡ false)
unfolding operational_state validate_outcome present unavailable defect text_eq
operational_state_sane none = (refl, refl)
operational_state_sane (some value) = ground arith

counter_value_sane : (o : Option ℕ) (t : Text) → validate_outcome (counter_value o t) ≡ none
unfolding counter_value validate_outcome present unavailable defect
counter_value_sane none t = refl
counter_value_sane (some value) t = refl

observed-IsSane : (l : Link) → IsSane (observed l)
observed-IsSane l =
    let (s, t) = operational_state_sane l.oper_state in
    (s, counter_value_sane l.rx_bytes _, counter_value_sane l.tx_bytes _, t)

abbrev pub kept_after : Bool → Link → List InterfaceObservation → List InterfaceObservation
kept_after external l rest = if external then observed l ∷ rest else rest

-- A round of the loop over the links.
pub observe_links_step :
    (links : List Link) (m : Resolved) (l : Link) (ls : List Link) (vs : List InterfaceObservation)
    → AllAgree links m
    → observe_links links m (l ∷ ls) ≡ ok vs
    → (r : Bool) × (m1 : Resolved) × (rest : List InterfaceObservation) × Agrees links r l.index
      × AllAgree links m1
      × (observe_links links m1 ls ≡ ok rest)
      × (kept_after r l rest ≡ vs)
unfolding observe_links
observe_links_step links m l ls vs a h =
    let (x, p, q) = >>=-eq-ok (externally_capable (enough_fuel links) links [] m l.index) _ h in
    let (rest, p1, q1) = >>=-eq-ok (observe_links links x.1 ls) _ q in
    let (g, b) = externally_capable-Decides (enough_fuel links) links [] m l.index x a p in
    (x.0, x.1, rest, g, b, p1, ok-injective q1)

-- What the loop keeps of its links.
abbrev Keeps : List Link → List InterfaceObservation → Type 0
Keeps ls vs =
    (length vs ≤ length ls)
    × All IsSane vs
    × ((n : Text) → is_named n ls ≡ false → is_reported n vs ≡ false)
    × (Distinct ls → AllDistinct vs)

Keeps-kept_after :
    (r : Bool) (l : Link) (ls : List Link) (vs : List InterfaceObservation)
    → Keeps ls vs
    → Keeps (l ∷ ls) (kept_after r l vs)
unfolding is_named is_reported
Keeps-kept_after false l ls vs (small, sane, names, distinct) =
    (omega arith, sane, λ n e. names n (ground (arith, e)), λ d. distinct d.2)
Keeps-kept_after true l ls vs (small, sane, names, distinct) = (
  omega arith,
  (observed-IsSane l, sane),
  λ n e. ground (arith, e, names n),
  λ (valid, fresh, d). (valid, names l.name fresh, distinct d),
)

observe_links-Keeps :
    (links : List Link) (m : Resolved) (ls : List Link) (vs : List InterfaceObservation)
    → AllAgree links m
    → observe_links links m ls ≡ ok vs
    → Keeps ls vs
unfolding observe_links is_reported
observe_links-Keeps links m [] vs a h =
    subst (Keeps []) (ok-injective h) (omega arith, tt, λ n e. refl, λ d. tt)
observe_links-Keeps links m (l ∷ ls) vs a h =
    let (r, m1, rest, g, b, p, q) = observe_links_step links m l ls vs a h in
    subst (Keeps (l ∷ ls)) q
      (Keeps-kept_after r l ls rest (observe_links-Keeps links m1 ls rest b p))

insert-IsSane :
    (v : InterfaceObservation) (vs : List InterfaceObservation)
    → IsSane v
    → All IsSane vs
    → All IsSane (insert_interface v vs)
unfolding insert_interface
insert-IsSane v [] s a = (s, tt)
insert-IsSane v (w ∷ ws) s (t, a) = elim (Bool-cases (text_lt w.name v.name)) [
  | inl above ↦ rw (insert_interface, above) (t, insert-IsSane v ws s a)
  | inr below ↦ rw (insert_interface, below) (s, (t, a))
]

length-insert :
    (v : InterfaceObservation) (vs : List InterfaceObservation)
    → length (insert_interface v vs) ≡ suc (length vs)
unfolding insert_interface
length-insert v [] = refl
length-insert v (w ∷ ws) = ground (arith, length-insert v ws)

sort-IsSane :
    (vs : List InterfaceObservation)
    → All IsSane vs
    → All IsSane (sort_interfaces vs) × (length (sort_interfaces vs) ≡ length vs)
unfolding sort_interfaces
sort-IsSane [] a = (tt, refl)
sort-IsSane (v ∷ vs) (s, a) =
    let (b, e) = sort-IsSane vs a in
    (insert-IsSane v (sort_interfaces vs) s b, length-insert v (sort_interfaces vs) ∙ ap suc e)

Ordered-accepted :
    (p : Option Text) (vs : List InterfaceObservation)
    → Ordered p vs
    → All IsSane vs
    → validate_interfaces p vs ≡ none
unfolding validate_interfaces validate_interface
Ordered-accepted p [] o a = refl
Ordered-accepted none (v ∷ vs) ((e, u), f, o) ((s, r, t, k), a) =
    ground (arith, Ordered-accepted (some v.name) vs o a)
Ordered-accepted (some n) (v ∷ vs) ((e, u), f, o) ((s, r, t, k), a) =
    ground (arith, Ordered-accepted (some v.name) vs o a)

temporarily_accepted : (e : Error) → validate_network (temporarily_unavailable e) ≡ none
unfolding validate_network validate_outcome unavailable
temporarily_accepted e = refl

failure_accepted :
    (e : Error) → validate_network (acquisition_failure (some e) reason_unsupported) ≡ none
unfolding validate_network validate_outcome
failure_accepted e =
    let s =
      (acquisition_failure_sound NetworkObservation e reason_unsupported (omega arith)
        (omega arith)).0 in
    ground (arith, s)

present_accepted :
    (vs : List InterfaceObservation)
    → length vs ≤ maximum_interfaces
    → Ordered none vs
    → All IsSane vs
    → validate_network (present (record { interfaces = vs })) ≡ none
unfolding validate_network validate_outcome present
present_accepted vs small o a = ground (arith, Ordered-accepted none vs o a)

observe_network_accepted : (links : List Link) → validate_network (observe_network links) ≡ none
unfolding observe_network
observe_network_accepted links = elim (Bool-cases (ltb maximum_interfaces (length links))) [
  | inl many ↦ rw (observe_network, many) (temporarily_accepted _)
  | inr few ↦ elim (Result-cases (new_link_topology links)) [
    | inl (e, bad) ↦ rw (observe_network, few, bad) (temporarily_accepted e)
    | inr (u, good) ↦ elim (Result-cases (observe_links links [] links)) [
      | inl (e, bad) ↦ rw (observe_network, few, good, bad) (temporarily_accepted (cause_of e))
      | inr (vs, seen) ↦
          let (small, sane, names, distinct) = observe_links-Keeps links [] links vs tt seen in
          let (sane1, same) = sort-IsSane vs sane in
          rw (observe_network, few, good, seen)
            (present_accepted (sort_interfaces vs) (ground (arith, few, small, same))
              (sort-Ordered vs (distinct (new_link_topology-Distinct links good))) sane1)
    ]
  ]
]

-- Whatever the context and the source answer, malformed, duplicated and cyclic links included, what
-- `collectNetwork` observes passes the coordinator's check: at most 64 interfaces with valid names
-- in strictly ascending order, and valid states.
pub collect_network_accepted :
    (context : Option Error) (links : Result Error (List Link))
    → validate_network (collect_network context links) ≡ none
unfolding collect_network
collect_network_accepted (some e) links = temporarily_accepted e
collect_network_accepted none (err e) = elim (Bool-cases (is e too_many_links)) [
  | inl many ↦ rw (collect_network, many) (temporarily_accepted e)
  | inr other ↦ rw (collect_network, other) (failure_accepted e)
]
collect_network_accepted none (ok links) = observe_network_accepted links
