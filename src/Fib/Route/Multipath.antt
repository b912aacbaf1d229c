-- ===== src/Fib/Route/Multipath.antt =====
-- Next hops that were merged into a route are taken out again.
use sart.Common.{
  ◌≡◌, refl, ◌∙◌, ◌||◌, Bool, true, false, List, [], ◌∷◌, ◌++◌, All, ok, ◌>>=◌, Eq, Bool-cases, inl,
  inr,
}
use mathlib.Core.List.{append-nil}
use sart.Net.Equality.{addr_eq, addr_eq_iff}
use sart.Fib.Route.{
  Route, NextHop, has_gateway, without, is_other_route, merge_multipath, pop_multipath,
}

-- No next hop has a gateway of the others.
abbrev pub AreApart : List NextHop → List NextHop → Type 0
AreApart others ns = All (λ n. has_gateway n.gateway others ≡ false) ns

abbrev AreIn : List NextHop → List NextHop → Type 0
AreIn others ns = All (λ n. has_gateway n.gateway others ≡ true) ns

without_apart : (others ns : List NextHop) → AreApart others ns → without others ns ≡ ns
unfolding without
without_apart others [] h = refl
without_apart others (n ∷ ns) h = rw (h.0, without_apart others ns h.1) refl

without_in : (others ns : List NextHop) → AreIn others ns → without others ns ≡ []
unfolding without
without_in others [] h = refl
without_in others (n ∷ ns) h = rw (h.0, without_in others ns h.1) refl

without-append :
    (others ns ms : List NextHop)
    → without others (ns ++ ms) ≡ without others ns ++ without others ms
unfolding without
without-append others [] ms = refl
without-append others (n ∷ ns) ms = elim (Bool-cases (has_gateway n.gateway others)) [
  | inl e ↦ rw (e, without-append others ns ms) refl
  | inr e ↦ rw (e, without-append others ns ms) refl
]

or_true : (b : Bool) → b || true ≡ true
or_true true = refl
or_true false = refl

AreIn-cons : (o : NextHop) (others ns : List NextHop) → AreIn others ns → AreIn (o ∷ others) ns
unfolding has_gateway
AreIn-cons o others [] h = tt
AreIn-cons o others (n ∷ ns) h =
    (rw h.0 (or_true (addr_eq o.gateway n.gateway)), AreIn-cons o others ns h.1)

AreIn-self : (ns : List NextHop) → AreIn ns ns
unfolding has_gateway
AreIn-self [] = tt
AreIn-self (n ∷ ns) =
    (rw ((addr_eq_iff n.gateway n.gateway).1 refl) refl, AreIn-cons n ns ns (AreIn-self ns))

AreIn-without : (others ns all : List NextHop) → AreIn all ns → AreIn all (without others ns)
unfolding without
AreIn-without others [] all h = tt
AreIn-without others (n ∷ ns) all h = elim (Bool-cases (has_gateway n.gateway others)) [
  | inl e ↦ rw e (AreIn-without others ns all h.1)
  | inr e ↦ rw e (h.0, AreIn-without others ns all h.1)
]

module _ {N : Type 0} ⦃e : Eq N⦄ where
  -- Two routes of the same destination and kind: the next hops of the second that are merged into the
  -- first are taken out again, if no gateway of the first is one of the second.
  pub pop_multipath-merge_multipath :
      (r second : Route N)
      → is_other_route r second ≡ false
      → AreApart second.next_hops r.next_hops
      → (merge_multipath r second >>= λ m. pop_multipath m second) ≡ ok r
  unfolding merge_multipath pop_multipath is_other_route
  pop_multipath-merge_multipath r second same apart =
      let added = without r.next_hops second.next_hops in
      let back : without second.next_hops (r.next_hops ++ added) ≡ r.next_hops =
        without-append second.next_hops r.next_hops added
        ∙ rw
            (
              without_apart second.next_hops r.next_hops apart,
              without_in second.next_hops added (
                  AreIn-without r.next_hops second.next_hops second.next_hops
                    (AreIn-self second.next_hops)),
            )
            (append-nil r.next_hops) in
      let again : is_other_route (record r { next_hops = r.next_hops ++ added }) second ≡ false =
        same in
      rw (same, again, back) refl
