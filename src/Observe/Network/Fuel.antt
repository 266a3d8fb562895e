-- ===== src/Observe/Network/Fuel.antt =====
-- The search of `externallyCapable` in internal/observe/network.go ends: no link is visited twice at
-- a time, so that its recursion is no deeper than there are links.
use joy_pi_health.Prelude.{
  ℕ, zero, suc, ◌+◌, ◌≤◌, ◌<◌, ◌≡◌, ◌≢◌, refl, sym, Bool, true, false, Option, none, some, List, [],
  ◌∷◌, arith, ◌==◌, if◌then◌else◌, length, Bool-cases, Option-cases, inl, inr, subst,
}
use joy_pi_health.Result.{Result, ok, err, ◌>>=◌}
use joy_pi_health.Errors.{Error}
use joy_pi_health.Observe.Network.{
  Link, Fault, no_fuel, failure, Resolved, Search, find_link, find_resolved, is_visiting,
  members_of, any_member, resolve_link, externally_capable, enough_fuel,
}
use joy_pi_health.Observe.Network.Collect.{observe_links}

-- The links that are not being visited.
unvisited : List ℕ → List Link → ℕ
unvisited visiting [] = 0
unvisited visiting (l ∷ ls) =
    (if is_visiting l.index visiting then 0 else 1) + unvisited visiting ls

unvisited-cons :
    (i : ℕ) (visiting : List ℕ) (ls : List Link)
    → unvisited (i ∷ visiting) ls ≤ unvisited visiting ls
unfolding unvisited
unvisited-cons i visiting [] = omega arith
unvisited-cons i visiting (l ∷ ls) = ground (arith, unvisited-cons i visiting ls)

unvisited_falls :
    (i : ℕ) (visiting : List ℕ) (ls : List Link) (l : Link)
    → find_link i ls ≡ some l
    → is_visiting i visiting ≡ false
    → unvisited (i ∷ visiting) ls < unvisited visiting ls
unfolding unvisited find_link
unvisited_falls i visiting [] l f v = cc
unvisited_falls i visiting (k ∷ ls) l f v = elim (Bool-cases (k.index == i)) [
  | inl same ↦
      let e : k.index ≡ i = ground (arith, same) in
      let v' = subst (λ j. is_visiting j visiting ≡ false) (sym e) v in
      ground (arith, same, v', unvisited-cons i visiting ls)
  | inr other ↦ ground (arith, other, unvisited_falls i visiting ls l, unvisited-cons i visiting ls)
]

unvisited-le-length : (ls : List Link) → unvisited [] ls ≤ length ls
unfolding unvisited
unvisited-le-length [] = omega arith
unvisited-le-length (l ∷ ls) = omega (arith, unvisited-le-length ls)

abbrev Ends : {A : Type 0} → Result Fault A → Type 0
Ends r = r ≢ err no_fuel

>>=-Ends :
    {A B : Type 0} (r : Result Fault A) (f : A → Result Fault B)
    → Ends r
    → ((a : A) → Ends (f a))
    → Ends (r >>= f)
>>=-Ends (ok a) f h k = k a
>>=-Ends (err no_fuel) f h k = absurd (h refl)
>>=-Ends (err (failure e)) f h k = λ p. cc

ok-Ends : {A : Type 0} (a : A) → Ends (ok a)
ok-Ends a p = cc

if-Ends :
    {A : Type 0} (b : Bool) (x y : Result Fault A) → Ends x → Ends y → Ends (if b then x else y)
if-Ends true x y h k = h
if-Ends false x y h k = k

continue-Ends :
    (r : Bool) (x y : Result Fault (Bool × Resolved))
    → Ends x
    → Ends y
    → Ends (elim r [ true ↦ x | false ↦ y ])
continue-Ends true x y h k = h
continue-Ends false x y h k = k

module _ (recur : Search) (h : (m : Resolved) (i : ℕ) → Ends (recur m i)) where
  any_member-Ends : (is : List ℕ) (m : Resolved) → Ends (any_member recur is m)
  unfolding any_member
  any_member-Ends [] m = λ p. cc
  any_member-Ends (i ∷ is) m =
      >>=-Ends (recur m i) _ (h m i) (λ x. continue-Ends x.0 _ _ (λ p. cc) (any_member-Ends is x.1))

  lower-Ends :
      (o : Option ℕ) (m : Resolved) (e : Error)
      → Ends (elim o [ none ↦ err (failure e) | some lower ↦ recur m lower ])
  lower-Ends none m e = λ p. cc
  lower-Ends (some lower) m e = h m lower

  resolve_link-Ends :
      (links : List Link) (l : Link) (m : Resolved) → Ends (resolve_link recur links l m)
  unfolding resolve_link
  resolve_link-Ends links l m = if-Ends _ (ok (false, m)) _ (ok-Ends (false, m)) (
      if-Ends _ (ok (true, m)) _ (ok-Ends (true, m)) (
        if-Ends _ _ _ (lower-Ends l.link_index m _) (
          if-Ends _ _ (ok (false, m)) (any_member-Ends (members_of l.index links) m)
            (ok-Ends (false, m)))))

-- With more fuel than there are links left to visit, the search ends by itself.
externally_capable-Ends :
    (fuel : ℕ) (links : List Link) (visiting : List ℕ) (m : Resolved) (i : ℕ)
    → unvisited visiting links < fuel
    → Ends (externally_capable fuel links visiting m i)
unfolding externally_capable
externally_capable-Ends zero links visiting m i h = absurd (omega arith)
externally_capable-Ends (suc fuel) links visiting m i h = elim (Option-cases (find_resolved i m)) [
  | inr (r, known) ↦ rw (externally_capable, known) (λ p. cc)
  | inl unknown ↦ elim (Bool-cases (is_visiting i visiting)) [
    | inl again ↦ rw (externally_capable, unknown, again) (λ p. cc)
    | inr first ↦ elim (Option-cases (find_link i links)) [
      | inl absent ↦ rw (externally_capable, unknown, first, absent) (λ p. cc)
      | inr (l, found) ↦
          let falls = unvisited_falls i visiting links l found first in
          rw (externally_capable, unknown, first, found)
            (>>=-Ends (resolve_link (externally_capable fuel links (i ∷ visiting)) links l m) _
              (resolve_link-Ends (externally_capable fuel links (i ∷ visiting))
                (λ m1 j.
                  externally_capable-Ends fuel links (i ∷ visiting) m1 j (omega (arith, falls, h)))
                links l m)
              (λ x p. cc))
    ]
  ]
]

-- The search for external links ends on every list of links, cycles included: the fuel of one more than
-- their number is never used up.
pub observe_links-Ends :
    (links : List Link) (m : Resolved) (ls : List Link) → observe_links links m ls ≢ err no_fuel
unfolding observe_links
observe_links-Ends links m [] = λ p. cc
observe_links-Ends links m (l ∷ ls) =
    >>=-Ends (externally_capable (enough_fuel links) links [] m l.index) _
      (externally_capable-Ends (enough_fuel links) links [] m l.index
        (omega (arith, unvisited-le-length links)))
      (λ x. >>=-Ends (observe_links links x.1 ls) _ (observe_links-Ends links x.1 ls) (λ y p. cc))
