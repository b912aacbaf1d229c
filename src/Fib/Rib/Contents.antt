-- ===== src/Fib/Rib/Contents.antt =====
-- What a destination holds after a route was inserted or removed.
use sart.Common.{
  ◌≡◌, ◌≢◌, refl, sym, ◌∙◌, ◌==◌, Bool, true, false, Option, none, some, List, [], ◌∷◌,
  if◌then◌else◌, All, ok, panic, length, arith, ltb, Bool-cases, inl, inr, ==_iff, ne→==,
}
use sart.Fib.Route.{Route, NextHop, Protocol, protocol_key}
use sart.Fib.Rib.{
  put_sorted, sort, replace_or_push, publish, insert_routes, find_protocol, distance, hops_match,
  is_removed, take_removed, publish_removed, remove_routes, after_removal,
}
use sart.Fib.Rib.Order.{
  All-sort, IsSorted, IsUnique, sort-IsSorted, sort-IsUnique, replace_or_push-IsUnique,
}

if_again :
    {A : Type 0} (b : Bool) (x y z : A)
    → (if b then x else z) ≡ (if b then x else if b then y else z)
if_again true x y z = refl
if_again false x y z = refl

module _ {N : Type 0} (q : Protocol) where
  -- The key that is looked for.
  abbrev is_wanted : Route N → Bool
  is_wanted r = protocol_key r.protocol == protocol_key q

  find-put_sorted :
      (r : Route N) (rs : List (Route N))
      → All (λ s. protocol_key s.protocol ≢ protocol_key r.protocol) rs
      → find_protocol q (put_sorted r rs) ≡ (if is_wanted r then some r else find_protocol q rs)
  unfolding find_protocol put_sorted
  find-put_sorted r [] n = refl
  find-put_sorted r (s ∷ rs) n = elim (Bool-cases (ltb (distance s) (distance r))) [
    | inl e ↦ elim (Bool-cases (is_wanted s)) [
      | inl w ↦
          let other : is_wanted r ≡ false =
            ne→== (protocol_key r.protocol) (protocol_key q)
              (λ k. n.0 ((==_iff (protocol_key s.protocol) (protocol_key q)).0 w ∙ sym k)) in
          rw (e, w, other) refl
      | inr w ↦ rw (e, w) (find-put_sorted r rs n.1)
    ]
    | inr e ↦ rw e refl
  ]

  find-sort : (rs : List (Route N)) → IsUnique rs → find_protocol q (sort rs) ≡ find_protocol q rs
  unfolding find_protocol sort
  find-sort [] h = refl
  find-sort (r ∷ rs) h =
      find-put_sorted r (sort rs)
        (All-sort (λ s. protocol_key s.protocol ≢ protocol_key r.protocol) rs h.0)
      ∙ rw (find-sort rs h.1) refl

  find-replace_or_push :
      (route : Route N) (rs : List (Route N))
      → find_protocol q (replace_or_push route rs)
        ≡ (if is_wanted route then some route else find_protocol q rs)
  unfolding find_protocol replace_or_push
  find-replace_or_push route [] = refl
  find-replace_or_push route (r ∷ rs) =
      elim (Bool-cases (protocol_key r.protocol == protocol_key route.protocol)) [
        | inl e ↦
            let same = (==_iff (protocol_key r.protocol) (protocol_key route.protocol)).0 e in
            rw (e, same) (if_again (is_wanted route) (some route) (some r) (find_protocol q rs))
        | inr e ↦ elim (Bool-cases (is_wanted r)) [
          | inl w ↦
              let same = (==_iff (protocol_key r.protocol) (protocol_key q)).0 w in
              let other : is_wanted route ≡ false =
                ne→== (protocol_key route.protocol) (protocol_key q) (λ k.
                  let t =
                    (==_iff (protocol_key r.protocol) (protocol_key route.protocol)).1
                      (same ∙ sym k) in
                  absurd cc) in
              rw (e, w, other) refl
          | inr w ↦ rw (e, w) (find-replace_or_push route rs)
        ]
      ]

hops_match_one :
    (ns hops : List NextHop) → length ns ≡ 1 → hops_match {E = Unit {0}} ns hops ≡ ok true
unfolding hops_match
hops_match_one [] hops h = absurd (omega (arith, h))
hops_match_one (n ∷ []) hops h = refl
hops_match_one (n ∷ m ∷ ns) hops h = absurd (omega (arith, h))

hops_match_none :
    (ns hops : List NextHop) → length ns ≡ 0 → hops_match {E = Unit {0}} ns hops ≡ panic
unfolding hops_match
hops_match_none [] hops h = refl
hops_match_none (n ∷ ns) hops h = absurd (omega (arith, h))

module _ {N : Type 0} where
  -- A published route is the first of the routes.
  abbrev pub IsFirst : List (Route N) → Option (Route N × Bool) → Type 0
  IsFirst rs none = Unit
  IsFirst rs (some (p, replaced)) = (tail : List (Route N)) × (rs ≡ p ∷ tail)

  publish-IsFirst : (old : Route N) (rs : List (Route N)) → IsFirst rs (publish old rs)
  unfolding publish
  publish-IsFirst old [] = tt
  publish-IsFirst old (r ∷ rs) = elim (Bool-cases (ltb (distance old) (distance r))) [
    | inl e ↦ rw e tt
    | inr e ↦ rw e (rs, refl)
  ]

  -- After an insertion into the routes of a destination, which are one for each protocol at most and
  -- sorted by distance, they are so again; the new route is the one of its protocol, and the routes
  -- of the other protocols are as before; and a route that is published is the first of them.
  pub insert_routes_lem :
      (route : Route N) (rs : List (Route N)) (q : Protocol)
      → IsUnique rs
      → IsSorted rs
      → IsSorted (insert_routes route rs).0
        × IsUnique (insert_routes route rs).0
        × (find_protocol q (insert_routes route rs).0 ≡ (
            if protocol_key route.protocol == protocol_key q
            then some route
            else find_protocol q rs))
        × IsFirst (insert_routes route rs).0 (insert_routes route rs).1
  unfolding insert_routes find_protocol
  insert_routes_lem route [] q h k = ((tt, tt), (tt, tt), refl, ([], refl))
  insert_routes_lem route (old ∷ rs) q h k =
      let next = replace_or_push route (old ∷ rs) in
      let unique = replace_or_push-IsUnique route (old ∷ rs) h in
      (
        sort-IsSorted next,
        sort-IsUnique next unique,
        find-sort q next unique ∙ find-replace_or_push q route (old ∷ rs),
        publish-IsFirst old (sort next),
      )

  -- A route with one next hop removes the first route, if that has one next hop too, whatever their
  -- gateways, protocols and distances.
  pub remove_routes_one :
      (route r : Route N) (rs : List (Route N))
      → length r.next_hops ≡ 1
      → length route.next_hops ≡ 1
      → remove_routes {E = Unit {0}} route (r ∷ rs) ≡ ok (rs, publish_removed 0 r rs)
  unfolding remove_routes after_removal take_removed is_removed
  remove_routes_one route r rs one other =
      rw (one, other, hops_match_one r.next_hops route.next_hops one) refl

  -- Routes without next hops end the removal in a panic.
  pub remove_routes_none :
      (route r : Route N) (rs : List (Route N))
      → length r.next_hops ≡ 0
      → length route.next_hops ≡ 0
      → remove_routes {E = Unit {0}} route (r ∷ rs) ≡ panic
  unfolding remove_routes after_removal take_removed is_removed
  remove_routes_none route r rs none_left other =
      rw (none_left, other, hops_match_none r.next_hops route.next_hops none_left) refl
