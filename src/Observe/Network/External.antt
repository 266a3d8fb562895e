-- ===== src/Observe/Network/External.antt =====
-- What `externallyCapable` of internal/observe/network.go decides, against an inductive description
-- of the links that lead out of the host.
use joy_pi_health.Prelude.{
  ℕ, zero, suc, ◌≡◌, refl, sym, subst, ◌∙◌, ◌⊎◌, inl, inr, Bool, true, false, ◌&&◌, Option, none,
  some, List, [], ◌∷◌, arith, ◌==◌, Bool-cases, Option-cases,
}
use joy_pi_health.Result.{ok, err, >>=-eq-ok, ok-injective}
use joy_pi_health.Errors.{Error}
use joy_pi_health.Observe.Network.{
  Link, failure, Resolved, Search, find_link, find_resolved, is_visiting, is_vlan, groups_members,
  not_loopback, ethernet_hardware_type, physical_device_path, members_of, any_member, resolve_link,
  externally_capable,
}

abbrev pub is_ethernet : Link → Bool
is_ethernet l = not_loopback l && (l.hardware_type == ethernet_hardware_type)

abbrev pub Among : ℕ → List ℕ → Type 0
Among i [] = ⊥
Among i (j ∷ js) = (i ≡ j) ⊎ Among i js

some-injective : {A : Type 0} {x y : A} → some x ≡ some y → x ≡ y
some-injective h = cc

module _ (links : List Link) where
  -- An Ethernet link is external if it is a device, a VLAN over an external link, or a bond or
  -- bridge with an external member.
  pub data External : ℕ → Type 0 where
    device :
        (i : ℕ) (l : Link)
        → find_link i links ≡ some l
        → is_ethernet l ≡ true
        → physical_device_path l.device_path ≡ true
        → External i
    vlan :
        (i : ℕ) (l : Link) (lower : ℕ)
        → find_link i links ≡ some l
        → is_ethernet l ≡ true
        → is_vlan l ≡ true
        → l.link_index ≡ some lower
        → External lower
        → External i
    group :
        (i : ℕ) (l : Link) (member : ℕ)
        → find_link i links ≡ some l
        → is_ethernet l ≡ true
        → is_vlan l ≡ false
        → groups_members l ≡ true
        → Among member (members_of l.index links)
        → External member
        → External i

  -- An answer for a link, and the answers that are kept.
  abbrev pub Agrees : Bool → ℕ → Type 0
  Agrees true i = External i
  Agrees false i = External i → ⊥

  abbrev pub AllAgree : Resolved → Type 0
  AllAgree [] = Unit
  AllAgree ((i, r) ∷ m) = Agrees r i × AllAgree m

  find-Agrees :
      (i : ℕ) (m : Resolved) (r : Bool) → AllAgree m → find_resolved i m ≡ some r → Agrees r i
  find-Agrees i [] r a h = cc
  find-Agrees i ((j, s) ∷ m) r (a, b) h = elim (Bool-cases (j == i)) [
    | inl same ↦
        let e : j ≡ i = ground (arith, same) in
        subst (λ x. Agrees x i) (some-injective (rw same at h)) (subst (Agrees s) e a)
    | inr other ↦ find-Agrees i m r b (rw other at h)
  ]

  -- A search whose answers agree.
  abbrev Faithful : Search → Type 0
  Faithful recur =
      (m : Resolved) (i : ℕ) (x : Bool × Resolved)
      → AllAgree m
      → recur m i ≡ ok x
      → Agrees x.0 i × AllAgree x.1

  -- Whether one of the members is external.
  abbrev AnyExternal : Bool → List ℕ → Type 0
  AnyExternal true is = (j : ℕ) × Among j is × External j
  AnyExternal false is = (j : ℕ) → Among j is → External j → ⊥

  AnyExternal-cons :
      (i : ℕ) (is : List ℕ) (r : Bool)
      → (External i → ⊥)
      → AnyExternal r is
      → AnyExternal r (i ∷ is)
  AnyExternal-cons i is true n (j, p, q) = (j, inr p, q)
  AnyExternal-cons i is false n s =
      λ j p q. elim p [ inl e ↦ n (subst External e q) | inr later ↦ s j later q ]

  any_member-AnyExternal :
      (recur : Search) (is : List ℕ) (m : Resolved) (x : Bool × Resolved)
      → Faithful recur
      → AllAgree m
      → any_member recur is m ≡ ok x
      → AnyExternal x.0 is × AllAgree x.1
  unfolding any_member
  any_member-AnyExternal recur [] m x f a h =
      subst (λ y. AnyExternal y.0 [] × AllAgree y.1) (ok-injective h) (λ j p q. p, a)
  any_member-AnyExternal recur (i ∷ is) m x f a h =
      let (y, p, q) = >>=-eq-ok (recur m i) _ h in
      let (g, b) = f m i y a p in
      elim (Bool-cases y.0) [
        | inl external ↦
            subst (λ z. AnyExternal z.0 (i ∷ is) × AllAgree z.1) (ok-injective (rw external at q))
              ((i, inl refl, subst (λ r. Agrees r i) external g), b)
        | inr internal ↦
            let (s, c) = any_member-AnyExternal recur is y.1 x f b (rw internal at q) in
            (AnyExternal-cons i is x.0 (subst (λ r. Agrees r i) internal g) s, c)
      ]

  -- What the description says of a link.
  abbrev Leads : Link → Type 0
  Leads l =
      (is_ethernet l ≡ true)
      × ((physical_device_path l.device_path ≡ true)
          ⊎ ((is_vlan l ≡ true) × ((j : ℕ) × (l.link_index ≡ some j) × External j))
          ⊎ ((is_vlan l ≡ false)
              × (groups_members l ≡ true)
              × AnyExternal true (members_of l.index links)))

  External-Leads : (i : ℕ) → External i → (l : Link) × (find_link i links ≡ some l) × Leads l
  External-Leads i (device _ l f e p) = (l, f, (e, inl p))
  External-Leads i (vlan _ l lower f e v w x) = (l, f, (e, inr (inl (v, (lower, w, x)))))
  External-Leads i (group _ l member f e v w x y) = (l, f, (e, inr (inr (v, w, (member, x, y)))))

  found-Leads : (i : ℕ) (l : Link) → find_link i links ≡ some l → External i → Leads l
  found-Leads i l f x =
      let (k, g, p) = External-Leads i x in subst Leads (some-injective (sym g ∙ f)) p

  abbrev Decides : ℕ → Bool × Resolved → Type 0
  Decides i x = Agrees x.0 i × AllAgree x.1

  module _ (recur : Search) (f : Faithful recur) (i : ℕ) (l : Link)
      (found : find_link i links ≡ some l) where
    lower-Decides :
        (o : Option ℕ) (m : Resolved) (x : Bool × Resolved) (e : Error)
        → l.link_index ≡ o
        → is_ethernet l ≡ true
        → physical_device_path l.device_path ≡ false
        → is_vlan l ≡ true
        → AllAgree m
        → (elim o [ none ↦ err (failure e) | some lower ↦ recur m lower ]) ≡ ok x
        → Decides i x
    lower-Decides none m x e w c p v a h = cc
    lower-Decides (some lower) m (true, m1) e w c p v a h =
        let (g, b) = f m lower (true, m1) a h in (vlan i l lower found c v w g, b)
    lower-Decides (some lower) m (false, m1) e w c p v a h =
        let (g, b) = f m lower (false, m1) a h in
        (
          λ y. elim (found-Leads i l found y).1 [
            | inl q ↦ cc
            | inr (inl (v', (j, w', z))) ↦ g (subst External (some-injective (sym w' ∙ w)) z)
            | inr (inr (v', g', r)) ↦ cc
          ],
          b,
        )

    members-Decides :
        (m : Resolved) (x : Bool × Resolved)
        → is_ethernet l ≡ true
        → physical_device_path l.device_path ≡ false
        → is_vlan l ≡ false
        → groups_members l ≡ true
        → AllAgree m
        → any_member recur (members_of l.index links) m ≡ ok x
        → Decides i x
    members-Decides m x c p v g a h =
        let (s, b) = any_member-AnyExternal recur (members_of l.index links) m x f a h in
        (answer x.0 s, b)
      where
        answer : (r : Bool) → AnyExternal r (members_of l.index links) → Agrees r i
        answer true (j, w, y) = group i l j found c v g w y
        answer false n = λ y. elim (found-Leads i l found y).1 [
          | inl q ↦ cc
          | inr (inl (v', r)) ↦ cc
          | inr (inr (v', g', (j, w, z))) ↦ n j w z
        ]

    -- The body of `externallyCapable` decides the description, if the calls that it makes do.
    resolve_link-Decides :
        (m : Resolved) (x : Bool × Resolved)
        → AllAgree m
        → resolve_link recur links l m ≡ ok x
        → Decides i x
    unfolding resolve_link
    resolve_link-Decides m x a h = elim (Bool-cases (is_ethernet l)) [
      | inr other ↦
          subst (Decides i) (ok-injective (rw (resolve_link, other) at h))
            (λ y. cc (other, (found-Leads i l found y).0), a)
      | inl wired ↦ elim (Bool-cases (physical_device_path l.device_path)) [
        | inl physical ↦
            subst (Decides i) (ok-injective (rw (resolve_link, wired, physical) at h))
              (device i l found wired physical, a)
        | inr virtual ↦ elim (Bool-cases (is_vlan l)) [
          | inl tagged ↦
              lower-Decides l.link_index m x _ refl wired virtual tagged a
                (rw (resolve_link, wired, virtual, tagged) at h)
          | inr untagged ↦ elim (Bool-cases (groups_members l)) [
            | inl grouped ↦
                members-Decides m x wired virtual untagged grouped a
                  (rw (resolve_link, wired, virtual, untagged, grouped) at h)
            | inr single ↦
                subst (Decides i)
                  (ok-injective (rw (resolve_link, wired, virtual, untagged, single) at h))
                  (λ y. internal virtual untagged single (found-Leads i l found y), a)
          ]
        ]
      ]
    ]
      where
        internal :
            physical_device_path l.device_path ≡ false
            → is_vlan l ≡ false
            → groups_members l ≡ false
            → Leads l
            → ⊥
        internal p v g (e, inl q) = cc
        internal p v g (e, inr (inl (w, r))) = cc
        internal p v g (e, inr (inr (w, g', r))) = cc

-- Whatever is being visited and whatever was resolved before rightly, an answer of the search says
-- whether the link is external, and so do all the answers that it keeps.
pub externally_capable-Decides :
    (fuel : ℕ) (links : List Link) (visiting : List ℕ) (m : Resolved) (i : ℕ) (x : Bool × Resolved)
    → AllAgree links m
    → externally_capable fuel links visiting m i ≡ ok x
    → Agrees links x.0 i × AllAgree links x.1
unfolding externally_capable
externally_capable-Decides zero links visiting m i x a h = cc
externally_capable-Decides (suc fuel) links visiting m i x a h =
    elim (Option-cases (find_resolved i m)) [
      | inr (r, known) ↦
          subst (Decides links i) (ok-injective (rw (externally_capable, known) at h))
            (find-Agrees links i m r a known, a)
      | inl unknown ↦ elim (Bool-cases (is_visiting i visiting)) [
        | inl again ↦ cc (rw (externally_capable, unknown, again) at h)
        | inr first ↦ elim (Option-cases (find_link i links)) [
          | inl absent ↦ cc (rw (externally_capable, unknown, first, absent) at h)
          | inr (l, found) ↦
              let recur = externally_capable fuel links (i ∷ visiting) in
              let (y, p, q) =
                >>=-eq-ok (resolve_link recur links l m) _
                  (rw (externally_capable, unknown, first, found) at h) in
              let (g, b) =
                resolve_link-Decides links recur
                  (λ m1 j z. externally_capable-Decides fuel links (i ∷ visiting) m1 j z) i l found
                  m y a p in
              subst (Decides links i) (ok-injective q) (g, (g, b))
        ]
      ]
    ]
