-- ===== src/Fib/Rib.antt =====
-- sartd/src/fib/src/rib.rs, and the calls of it in sartd/src/fib/src/channel.rs. A call returns the new
-- table and its result.
pub mod Order
pub mod Contents
use sart.Common.{
  ℕ, zero, suc, ◌==◌, ◌&&◌, Bool, true, false, not, Option, none, some, List, [], ◌∷◌, ◌++◌,
  if◌then◌else◌, length, get_elem?, Outcome, ok, panic, ◌>>=◌, Eq, ltb,
}
use sart.Common.Dict.{Dict, lookup, insert}
use sart.Net.Equality.{addr_eq}
use sart.Fib.Route.{Route, NextHop, IpVersion, Protocol, ip_version_into, ad_number, protocol_key}

pub record Rib (N : Type 0) : Type 0 where
  pub ip_version : IpVersion
  pub table : Dict N (List (Route N))

abbrev pub same_version : IpVersion → IpVersion → Bool
same_version v w = ip_version_into v == ip_version_into w

-- The loop on `0..r.next_hops.len() - 1` over two lists of the same length: all but the last gateways
-- are compared. Without next hops the subtraction wraps, and the first access is out of bounds.
unfoldable pub hops_match : {E : Type 0} → List NextHop → List NextHop → Outcome E Bool
hops_match [] hops = panic
hops_match (n ∷ []) hops = ok true
hops_match (n ∷ m ∷ ns) [] = panic
hops_match (n ∷ m ∷ ns) (h ∷ hops) =
    let rest = hops_match (m ∷ ns) hops in
    if not (addr_eq n.gateway h.gateway) then ok false else rest

module _ {N : Type 0} where
  abbrev pub same_protocol : Route N → Route N → Bool
  same_protocol r s = protocol_key r.protocol == protocol_key s.protocol

  abbrev pub distance : Route N → ℕ
  distance r = ad_number r.ad

  -- `sort`, which is stable, by the administrative distance.
  unfoldable pub put_sorted : Route N → List (Route N) → List (Route N)
  put_sorted r [] = r ∷ []
  put_sorted r (s ∷ rs) =
      let rest = put_sorted r rs in if ltb (distance s) (distance r) then s ∷ rest else r ∷ s ∷ rs

  unfoldable pub sort : List (Route N) → List (Route N)
  unfolding put_sorted
  sort [] = []
  sort (r ∷ rs) = put_sorted r (sort rs)

  -- The first route of the same protocol is replaced; where there is none, the route is pushed.
  unfoldable pub replace_or_push : Route N → List (Route N) → List (Route N)
  replace_or_push route [] = route ∷ []
  replace_or_push route (r ∷ rs) =
      let rest = replace_or_push route rs in if same_protocol r route then route ∷ rs else r ∷ rest

  -- What is published if the first of the sorted routes is not behind the old one. The list is not empty.
  unfoldable pub publish : Route N → List (Route N) → Option (Route N × Bool)
  publish old_published [] = none
  publish old_published (new_published ∷ rs) =
      if ltb (distance old_published) (distance new_published)
      then none
      else some (new_published, true)

  unfoldable pub insert_routes : Route N → List (Route N) → List (Route N) × Option (Route N × Bool)
  unfolding sort replace_or_push publish
  insert_routes route [] = (route ∷ [], some (route, false))
  insert_routes route (old_published ∷ rs) =
      let sorted = sort (replace_or_push route (old_published ∷ rs)) in
      (sorted, publish old_published sorted)

  unfoldable pub is_removed : {E : Type 0} → Route N → Route N → Outcome E Bool
  unfolding hops_match
  is_removed route r =
      if not (length r.next_hops == length route.next_hops)
      then ok false
      else hops_match r.next_hops route.next_hops

  -- The route was found one place later, behind another.
  abbrev pub one_later :
      Route N → Option (ℕ × Route N × List (Route N)) → Option (ℕ × Route N × List (Route N))
  one_later r none = none
  one_later r (some (i, t, others)) = some (suc i, t, r ∷ others)

  -- `position` and `routes.remove(index)`: the index, the route and the others.
  unfoldable pub take_removed :
      {E : Type 0} → Route N → List (Route N) → Outcome E (Option (ℕ × Route N × List (Route N)))
  unfolding is_removed
  take_removed route [] = ok none
  take_removed {E} route (r ∷ rs) =
      let rest : Outcome E (Option (ℕ × Route N × List (Route N))) = take_removed route rs in
      is_removed route r >>= λ found.
      if found then ok (some (0, r, rs)) else (rest >>= λ o. ok (one_later r o))

  -- What is published after a removal: the next route, or the removed one where no other is left.
  unfoldable pub publish_removed : ℕ → Route N → List (Route N) → Option (Route N × Bool)
  publish_removed zero ret_route [] = some (ret_route, false)
  publish_removed zero ret_route (r ∷ rs) = some (r, true)
  publish_removed (suc index) ret_route rs = none

  -- Without a route to remove, the routes stay as they were.
  unfoldable pub after_removal :
      List (Route N)
      → Option (ℕ × Route N × List (Route N))
      → List (Route N) × Option (Route N × Bool)
  unfolding publish_removed
  after_removal routes none = (routes, none)
  after_removal routes (some (index, ret_route, others)) =
      (others, publish_removed index ret_route others)

  unfoldable pub remove_routes :
      {E : Type 0} → Route N → List (Route N) → Outcome E (List (Route N) × Option (Route N × Bool))
  unfolding take_removed after_removal
  remove_routes route routes =
      take_removed route routes >>= λ found. ok (after_removal routes found)

  -- `find(|r| r.protocol.eq(&protocol))` of `Channel::get_route`.
  unfoldable pub find_protocol : Protocol → List (Route N) → Option (Route N)
  find_protocol protocol [] = none
  find_protocol protocol (r ∷ rs) =
      let rest = find_protocol protocol rs in
      if protocol_key r.protocol == protocol_key protocol then some r else rest

module _ {N : Type 0} ⦃e : Eq N⦄ where
  unfoldable pub rib_new : IpVersion → Rib N
  rib_new protocol = record { ip_version = protocol; table = [] }

  unfoldable pub rib_get : N → Rib N → Option (List (Route N))
  unfolding lookup
  rib_get destination rib = lookup destination rib.table

  abbrev pub insert_found :
      Rib N → N → Route N → Option (List (Route N)) → Rib N × Option (Route N × Bool)
  insert_found rib destination route none =
      (record rib { table = insert destination (route ∷ []) rib.table }, some (route, false))
  insert_found rib destination route (some routes) =
      let (next, published) = insert_routes route routes in
      (record rib { table = insert destination next rib.table }, published)

  unfoldable pub rib_insert : Rib N → N → Route N → Rib N × Option (Route N × Bool)
  unfolding ip_version_into lookup insert insert_routes
  rib_insert rib destination route =
      if not (same_version route.version rib.ip_version)
      then (rib, none)
      else insert_found rib destination route (lookup destination rib.table)

  abbrev pub first_of : Option (List (Route N)) → Option (Route N)
  first_of none = none
  first_of (some []) = none
  first_of (some (r ∷ rs)) = some r

  unfoldable pub rib_get_published : N → Rib N → Option (Route N)
  unfolding lookup
  rib_get_published destination rib = first_of (lookup destination rib.table)

  abbrev all_routes : Dict N (List (Route N)) → List (Route N)
  all_routes [] = []
  all_routes ((n, routes) ∷ d) = routes ++ all_routes d

  unfoldable pub rib_list : Rib N → Option (List (Route N))
  rib_list rib = if length rib.table == 0 then none else some (all_routes rib.table)

  abbrev pub remove_found :
      {E : Type 0}
      → Rib N
      → Route N
      → Option (List (Route N))
      → Outcome E (Rib N × Option (Route N × Bool))
  remove_found rib route none = ok (rib, none)
  remove_found rib route (some []) = ok (rib, none)
  remove_found rib route (some (r ∷ rs)) = remove_routes route (r ∷ rs) >>= λ s.
      ok (record rib { table = insert route.destination s.0 rib.table }, s.1)

  unfoldable pub rib_remove :
      {E : Type 0} → Rib N → Route N → Outcome E (Rib N × Option (Route N × Bool))
  unfolding ip_version_into lookup insert remove_routes
  rib_remove rib route =
      if not (same_version route.version rib.ip_version)
      then ok (rib, none)
      else remove_found rib route (lookup route.destination rib.table)

  abbrev pub find_found : Protocol → Option (List (Route N)) → Option (Route N)
  find_found protocol none = none
  find_found protocol (some routes) = find_protocol protocol routes

  unfoldable pub get_route : N → Protocol → Rib N → Option (Route N)
  unfolding lookup find_protocol
  get_route destination protocol rib = find_found protocol (lookup destination rib.table)

  -- `Channel::list_routes`, `register_route` and `remove_route`.
  unfoldable pub list_routes : Rib N → Option (List (Route N))
  unfolding rib_list
  list_routes rib = rib_list rib

  unfoldable pub register_route : Rib N → Route N → Rib N × Option (Route N × Bool)
  unfolding rib_insert
  register_route rib route = rib_insert rib route.destination route

  unfoldable pub remove_stored :
      {E : Type 0}
      → Rib N
      → Route N
      → Option (List (Route N))
      → Outcome E (Rib N × Option (Route N × Bool))
  unfolding rib_remove
  remove_stored rib route none = ok (rib, none)
  remove_stored rib route (some []) = ok (rib, none)
  remove_stored rib route (some (r ∷ rs)) = rib_remove rib route

  unfoldable pub remove_route :
      {E : Type 0} → Rib N → Route N → Outcome E (Rib N × Option (Route N × Bool))
  unfolding rib_get remove_stored
  remove_route rib route = remove_stored rib route (rib_get route.destination rib)
