-- ===== src/Observe/Network/Names.antt =====
-- The names of the links and of the interfaces in internal/observe/network.go: different, valid, and
-- in ascending order after the sort.
use joy_pi_health.Prelude.{
  ◌≡◌, refl, subst, ◌∙◌, inl, inr, Bool, true, false, ◌||◌, Option, none, some, List, [], ◌∷◌,
  arith, Bool-cases,
}
use joy_pi_health.Result.{ok, >>=-eq-ok}
use joy_pi_health.Text.{Text, text_eq, text_eq_iff, text_eq_refl, text_lt, is_empty}
use joy_pi_health.Text.Utf8.{valid_utf8}
use joy_pi_health.Observe.Observations.{InterfaceObservation}
use joy_pi_health.Observe.Network.{Link, is_named, check_link, check_links, new_link_topology}
use joy_pi_health.Observe.Network.Collect.{insert_interface, sort_interfaces}

text_lt_total : (s t : Text) → text_lt s t ≡ false → text_eq s t ≡ false → text_lt t s ≡ true
unfolding text_lt text_eq
text_lt_total [] [] h k = cc
text_lt_total [] (b ∷ t) h k = cc
text_lt_total (a ∷ s) [] h k = refl
text_lt_total (a ∷ s) (b ∷ t) h k = ground (arith, text_lt_total s t)

text_eq_sym : (s t : Text) → text_eq s t ≡ text_eq t s
unfolding text_eq
text_eq_sym [] [] = refl
text_eq_sym [] (b ∷ t) = refl
text_eq_sym (a ∷ s) [] = refl
text_eq_sym (a ∷ s) (b ∷ t) = ground (arith, text_eq_sym s t)

-- A name that can be published.
abbrev pub IsName : Text → Type 0
IsName n = (is_empty n ≡ false) × (valid_utf8 n ≡ true)

-- Links with valid names, all different.
abbrev pub Distinct : List Link → Type 0
Distinct [] = Unit
Distinct (l ∷ ls) = IsName l.name × (is_named l.name ls ≡ false) × Distinct ls

check_link-IsName :
    (earlier : List Link) (l : Link)
    → check_link earlier l ≡ ok tt
    → IsName l.name × (is_named l.name earlier ≡ false)
unfolding check_link
check_link-IsName earlier l h = ground arith

-- A name that came earlier comes no more.
earlier_named :
    (n : Text) (earlier ls : List Link)
    → check_links earlier ls ≡ ok tt
    → is_named n earlier ≡ true
    → is_named n ls ≡ false
unfolding check_links is_named
earlier_named n earlier [] h e = refl
earlier_named n earlier (l ∷ ls) h e =
    let (u, p, q) = >>=-eq-ok (check_link earlier l) _ h in
    let (valid, fresh) = check_link-IsName earlier l p in
    let rest = earlier_named n (l ∷ earlier) ls q (ground (arith, e)) in
    elim (Bool-cases (text_eq l.name n)) [
      | inl same ↦
          cc (subst (λ x. is_named x earlier ≡ false) ((text_eq_iff l.name n).0 same) fresh, e)
      | inr other ↦ ground (arith, other, rest)
    ]

check_links-Distinct : (earlier ls : List Link) → check_links earlier ls ≡ ok tt → Distinct ls
unfolding check_links is_named
check_links-Distinct earlier [] h = tt
check_links-Distinct earlier (l ∷ ls) h =
    let (u, p, q) = >>=-eq-ok (check_link earlier l) _ h in
    let (valid, fresh) = check_link-IsName earlier l p in
    (
      valid,
      earlier_named l.name (l ∷ earlier) ls q (ground (arith, text_eq_refl l.name)),
      check_links-Distinct (l ∷ earlier) ls q,
    )

pub new_link_topology-Distinct : (ls : List Link) → new_link_topology ls ≡ ok tt → Distinct ls
unfolding new_link_topology
new_link_topology-Distinct ls h =
    let (u, p, q) = >>=-eq-ok (check_links [] ls) _ h in check_links-Distinct [] ls p

-- The same of interfaces.
unfoldable pub is_reported : Text → List InterfaceObservation → Bool
is_reported n [] = false
is_reported n (v ∷ vs) = text_eq v.name n || is_reported n vs

abbrev pub AllDistinct : List InterfaceObservation → Type 0
AllDistinct [] = Unit
AllDistinct (v ∷ vs) = IsName v.name × (is_reported v.name vs ≡ false) × AllDistinct vs

abbrev pub Follows : Option Text → Text → Type 0
Follows none n = Unit
Follows (some p) n = text_lt p n ≡ true

-- Valid names in strictly ascending order.
abbrev pub Ordered : Option Text → List InterfaceObservation → Type 0
Ordered p [] = Unit
Ordered p (v ∷ vs) = IsName v.name × Follows p v.name × Ordered (some v.name) vs

insert-Ordered :
    (p : Option Text) (v : InterfaceObservation) (vs : List InterfaceObservation)
    → IsName v.name
    → Follows p v.name
    → is_reported v.name vs ≡ false
    → Ordered p vs
    → Ordered p (insert_interface v vs)
unfolding insert_interface is_reported
insert-Ordered p v [] n f r o = (n, f, tt)
insert-Ordered p v (w ∷ ws) n f r (m, g, o) = elim (Bool-cases (text_lt w.name v.name)) [
  | inl above ↦
      rw (insert_interface, above)
        (m, g, insert-Ordered (some w.name) v ws n above (ground (arith, r)) o)
  | inr below ↦
      rw (insert_interface, below)
        (n, f, (m, text_lt_total w.name v.name below (ground (arith, r)), o))
]

pub is_reported-insert :
    (n : Text) (v : InterfaceObservation) (vs : List InterfaceObservation)
    → is_reported n (insert_interface v vs) ≡ (text_eq v.name n || is_reported n vs)
unfolding insert_interface is_reported
is_reported-insert n v [] = refl
is_reported-insert n v (w ∷ ws) = ground (arith, is_reported-insert n v ws)

pub is_reported-sort :
    (n : Text) (vs : List InterfaceObservation)
    → is_reported n (sort_interfaces vs) ≡ is_reported n vs
unfolding sort_interfaces is_reported
is_reported-sort n [] = refl
is_reported-sort n (v ∷ vs) =
    ground (arith, is_reported-insert n v (sort_interfaces vs), is_reported-sort n vs)

pub sort-Ordered :
    (vs : List InterfaceObservation) → AllDistinct vs → Ordered none (sort_interfaces vs)
unfolding sort_interfaces
sort-Ordered [] d = tt
sort-Ordered (v ∷ vs) (n, r, d) =
    insert-Ordered none v (sort_interfaces vs) n tt (is_reported-sort v.name vs ∙ r)
      (sort-Ordered vs d)
