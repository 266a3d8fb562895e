-- ===== src/Observe/Network/Collect.antt =====
-- `collectNetwork` of internal/observe/network.go: what is observed of the external links.
use joy_pi_health.Prelude.{
  ℕ, ◌&&◌, Option, none, some, List, [], ◌∷◌, ◌++◌, ltb, leb, ◌==◌, if◌then◌else◌, length,
}
use joy_pi_health.Result.{Result, ok, err, ◌>>=◌}
use joy_pi_health.Text.{Text, bytes, text_lt}
use joy_pi_health.Errors.{Error, plain, sentinel, panicked, too_many_links, is}
use joy_pi_health.Snapshot.{maximum_interfaces}
use joy_pi_health.Observe.Outcome.{
  Outcome, nat_zero, text_zero, present, unavailable, acquisition_failure, reason_unsupported,
  reason_temporarily_unavailable,
}
use joy_pi_health.Observe.Observations.{InterfaceObservation, NetworkObservation}
use joy_pi_health.Observe.Coordinator.Cycle.{network_zero}
use joy_pi_health.Observe.Network.{
  no_fuel, failure, Link, new_link_topology, Fault, Resolved, externally_capable, enough_fuel,
}

unfoldable pub operational_state : Option ℕ → Outcome Text
operational_state none =
    unavailable reason_temporarily_unavailable (some (plain (bytes "operational state is missing")))
operational_state (some value) =
    if value == 0
    then present (bytes "unknown")
    else if value == 6
    then present (bytes "up")
    else if leb 1 value && leb value 5
    then present (bytes "down")
    else unavailable reason_temporarily_unavailable
        (some (plain (bytes "operational state is invalid")))

unfoldable pub counter_value : Option ℕ → Text → Outcome ℕ
counter_value none what =
    unavailable reason_temporarily_unavailable (some (plain (what ++ bytes " is missing")))
counter_value (some value) what = present value

abbrev pub observed : Link → InterfaceObservation
observed l = record {
  name = l.name;
  state = operational_state l.oper_state;
  rx_bytes = counter_value l.rx_bytes (bytes "receive byte counter");
  tx_bytes = counter_value l.tx_bytes (bytes "transmit byte counter");
}

-- The loop over the links.
unfoldable pub observe_links :
    List Link → Resolved → List Link → Result Fault (List InterfaceObservation)
observe_links links m [] = ok []
observe_links links m (l ∷ ls) =
    externally_capable (enough_fuel links) links [] m l.index >>= λ (external, m1).
    observe_links links m1 ls >>= λ rest. ok (if external then observed l ∷ rest else rest)

-- `sort.Slice` by the names, which are all different here.
unfoldable pub insert_interface :
    InterfaceObservation → List InterfaceObservation → List InterfaceObservation
insert_interface v [] = v ∷ []
insert_interface v (w ∷ ws) =
    let rest = insert_interface v ws in if text_lt w.name v.name then w ∷ rest else v ∷ w ∷ ws

unfoldable pub sort_interfaces : List InterfaceObservation → List InterfaceObservation
unfolding insert_interface
sort_interfaces [] = []
sort_interfaces (v ∷ vs) = insert_interface v (sort_interfaces vs)

abbrev pub temporarily_unavailable : Error → Outcome NetworkObservation
temporarily_unavailable e = unavailable reason_temporarily_unavailable (some e)

-- The error of a fault: the fuel that is given is enough.
abbrev pub cause_of : Fault → Error
cause_of no_fuel = panicked (bytes "no fuel")
cause_of (failure e) = e

unfoldable pub observe_network : List Link → Outcome NetworkObservation
unfolding new_link_topology observe_links sort_interfaces
observe_network links =
    if ltb maximum_interfaces (length links)
    then temporarily_unavailable (sentinel too_many_links)
    else elim (new_link_topology links) [
      | err e ↦ temporarily_unavailable e
      | ok u ↦ elim (observe_links links [] links) [
        | err fault ↦ temporarily_unavailable (cause_of fault)
        | ok interfaces ↦ present (record { interfaces = sort_interfaces interfaces })
      ]
    ]

-- The context's error before, and the links that the source reads.
unfoldable pub collect_network :
    Option Error → Result Error (List Link) → Outcome NetworkObservation
unfolding observe_network
collect_network (some e) links = temporarily_unavailable e
collect_network none (err e) =
    if is e too_many_links
    then temporarily_unavailable e
    else acquisition_failure (some e) reason_unsupported
collect_network none (ok links) = observe_network links
