-- ===== src/Observe/Network/Reports.antt =====
-- Which interfaces `collectNetwork` of internal/observe/network.go reports.
use joy_pi_health.Prelude.{
  ◌≡◌, refl, subst, ap, ◌⊎◌, inl, inr, ◌↔◌, Bool, true, false, none, List, [], ◌∷◌, arith, ltb,
  Bool-cases, length,
}
use joy_pi_health.Result.{ok, ok-injective, Result-cases}
use joy_pi_health.Text.{Text, text_eq}
use joy_pi_health.Errors.{Error, sentinel, too_many_links}
use joy_pi_health.Snapshot.{maximum_interfaces}
use joy_pi_health.Observe.Outcome.{present, unavailable}
use joy_pi_health.Observe.Observations.{InterfaceObservation, is_present}
use joy_pi_health.Observe.Coordinator.Cycle.{network_zero}
use joy_pi_health.Observe.Network.{Link, Resolved, new_link_topology}
use joy_pi_health.Observe.Network.Collect.{
  observe_links, temporarily_unavailable, cause_of, observe_network, collect_network,
}
use joy_pi_health.Observe.Network.External.{External, AllAgree, Agrees}
use joy_pi_health.Observe.Network.Names.{is_reported, is_reported-sort}
use joy_pi_health.Observe.Network.Sound.{observe_links_step, kept_after}

abbrev pub AmongLinks : Link → List Link → Type 0
AmongLinks l [] = ⊥
AmongLinks l (k ∷ ks) = (l ≡ k) ⊎ AmongLinks l ks

-- One of the links has the name and is external in the whole topology.
abbrev pub HasExternal : List Link → List Link → Text → Type 0
HasExternal links ls n =
    (l : Link) × AmongLinks l ls × (text_eq l.name n ≡ true) × External links l.index

module _ (links : List Link) (n : Text) where
  kept_iff :
      (r : Bool) (l : Link) (ls : List Link) (rest : List InterfaceObservation)
      → Agrees links r l.index
      → (is_reported n rest ≡ true) ↔ HasExternal links ls n
      → (is_reported n (kept_after r l rest) ≡ true) ↔ HasExternal links (l ∷ ls) n
  unfolding is_reported
  kept_iff true l ls rest g (there, back) = (
    λ h. elim (Bool-cases (text_eq l.name n)) [
      | inl same ↦ (l, inl refl, same, g)
      | inr other ↦ let (k, m, e, x) = there (ground (arith, h, other)) in (k, inr m, e, x)
    ],
    λ (k, m, e, x). elim m [
      | inl same ↦ ground (arith, e, ap (λ y. text_eq y.name n) same)
      | inr later ↦ ground (arith, back (k, later, e, x))
    ],
  )
  kept_iff false l ls rest g (there, back) = (
    λ h. let (k, m, e, x) = there h in (k, inr m, e, x),
    λ (k, m, e, x). elim m [
      | inl same ↦ absurd (g (subst (λ y. External links y.index) same x))
      | inr later ↦ back (k, later, e, x)
    ],
  )

  observe_links_iff :
      (m : Resolved) (ls : List Link) (vs : List InterfaceObservation)
      → AllAgree links m
      → observe_links links m ls ≡ ok vs
      → (is_reported n vs ≡ true) ↔ HasExternal links ls n
  unfolding observe_links is_reported
  observe_links_iff m [] vs a h =
      subst (λ ws. (is_reported n ws ≡ true) ↔ HasExternal links [] n) (ok-injective h)
        (λ e. cc, λ (l, m, e, x). absurd m)
  observe_links_iff m (l ∷ ls) vs a h =
      let (r, m1, rest, g, b, p, q) = observe_links_step links m l ls vs a h in
      subst (λ ws. (is_reported n ws ≡ true) ↔ HasExternal links (l ∷ ls) n) q
        (kept_iff r l ls rest g (observe_links_iff m1 ls rest b p))

absent : (e : Error) → is_present (temporarily_unavailable e) ≡ true → ⊥
unfolding unavailable
absent e h = cc

-- Where the links are observed, a name is reported exactly if a link of that name is external: an
-- Ethernet device, a VLAN over an external link, or a bond or bridge with an external member.
pub collect_network_iff :
    (links : List Link) (n : Text)
    → is_present (collect_network none (ok links)) ≡ true
    → (is_reported n (collect_network none (ok links)).value.interfaces ≡ true)
      ↔ HasExternal links links n
unfolding collect_network observe_network present
collect_network_iff links n h = elim (Bool-cases (ltb maximum_interfaces (length links))) [
  | inl many ↦
      absurd (absent (sentinel too_many_links) (rw (collect_network, observe_network, many) at h))
  | inr few ↦ elim (Result-cases (new_link_topology links)) [
    | inl (e, bad) ↦ absurd (absent e (rw (collect_network, observe_network, few, bad) at h))
    | inr (u, good) ↦ elim (Result-cases (observe_links links [] links)) [
      | inl (e, bad) ↦
          absurd (absent (cause_of e) (rw (collect_network, observe_network, few, good, bad) at h))
      | inr (vs, seen) ↦
          rw (collect_network, observe_network, few, good, seen)
            (rw (is_reported-sort n vs) (observe_links_iff links n [] links vs tt seen))
    ]
  ]
]
