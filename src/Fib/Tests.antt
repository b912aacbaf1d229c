-- ===== src/Fib/Tests.antt =====
-- Examples of the forwarding daemon's routes. The networks are numbers.
use sart.Common.{ℕ, ◌≡◌, ◌==◌, refl, none, some, [], ◌∷◌, if◌then◌else◌, ok, ◌>>=◌, nat_eq}
use sart.Net.{IpAddr}
use sart.Fib.Route.{
  Route, NextHop, IpVersion, NextHopFlags, Scope, Kind, AdministrativeDistance, Protocol,
  protocol_key, has_gateway, is_other_route, merge_multipath, pop_multipath, ip_version_into,
}
use sart.Fib.Route.Multipath.{pop_multipath-merge_multipath}
use sart.Common.{Always, arith}
use sart.Common.Dict.{lookup, insert}
use sart.Fib.Server.{RequestType, handle_request}
use sart.Fib.Server.Invariant.{IsTidy, put-IsTidy, handle_request-IsTidy}
use sart.Fib.Rib.{Rib, rib_new, insert_routes, find_protocol, remove_routes, publish_removed}
use sart.Fib.Rib.Order.{IsSorted, IsUnique}
use sart.Fib.Rib.Contents.{IsFirst, insert_routes_lem, remove_routes_one}

abbrev hop : ℕ → NextHop
hop n = record {
  gateway = IpAddr.v4 (record { a = 10; b = 0; c = 0; d = n });
  weight = 1;
  flags = NextHopFlags.empty;
  interface = 2;
}

abbrev route_by : Protocol → AdministrativeDistance → ℕ → Route ℕ
route_by protocol ad n = record {
  destination = 0;
  version = IpVersion.v4;
  protocol = protocol;
  scope = Scope.universe;
  kind = Kind.unicast;
  next_hops = hop n ∷ [];
  source = none;
  priority = 0;
  ad = ad;
  table = 254;
}

abbrev by_bgp : Route ℕ
by_bgp = route_by Protocol.bgp AdministrativeDistance.ebgp 1

abbrev by_static : Route ℕ
by_static = route_by Protocol.static AdministrativeDistance.static 2

insert_routes_lem_example :
    IsSorted (insert_routes by_static (by_bgp ∷ [])).0
    × IsUnique (insert_routes by_static (by_bgp ∷ [])).0
    × (find_protocol Protocol.bgp (insert_routes by_static (by_bgp ∷ [])).0 ≡ (
        if protocol_key by_static.protocol == protocol_key Protocol.bgp
        then some by_static
        else find_protocol Protocol.bgp (by_bgp ∷ [])))
    × IsFirst (insert_routes by_static (by_bgp ∷ [])).0 (insert_routes by_static (by_bgp ∷ [])).1
insert_routes_lem_example = insert_routes_lem by_static (by_bgp ∷ []) Protocol.bgp (tt, tt) (tt, tt)

-- The static route is in front, and the removal of the BGP route takes it away.
remove_routes_one_example :
    remove_routes {E = Unit {0}} by_bgp (by_static ∷ by_bgp ∷ [])
    ≡ ok (by_bgp ∷ [], publish_removed 0 by_static (by_bgp ∷ []))
remove_routes_one_example = remove_routes_one by_bgp by_static (by_bgp ∷ []) refl refl

pop_multipath-merge_multipath_example :
    (merge_multipath by_bgp (record by_bgp { next_hops = hop 3 ∷ [] }) >>= λ m.
    pop_multipath m (record by_bgp { next_hops = hop 3 ∷ [] }))
    ≡ ok by_bgp
unfolding is_other_route has_gateway ip_version_into
pop_multipath-merge_multipath_example =
    pop_multipath-merge_multipath by_bgp (record by_bgp { next_hops = hop 3 ∷ [] }) refl (refl, tt)

abbrev two_routes : Rib ℕ
two_routes = record { ip_version = IpVersion.v4; table = (0, by_static ∷ by_bgp ∷ []) ∷ [] }

empty-IsTidy : IsTidy (rib_new {N = ℕ} IpVersion.v4)
unfolding rib_new lookup
empty-IsTidy n = tt

two_routes-IsTidy : IsTidy two_routes
unfolding insert rib_new
two_routes-IsTidy =
    put-IsTidy (rib_new IpVersion.v4) 0 (by_static ∷ by_bgp ∷ [])
      (((omega arith, tt), (tt, tt)), (((λ q. omega (arith, q)), tt), (tt, tt))) empty-IsTidy

handle_request-IsTidy_example :
    Always (λ s. IsTidy s.0) (handle_request {E = Unit {0}} RequestType.add by_bgp two_routes)
handle_request-IsTidy_example =
    handle_request-IsTidy RequestType.add by_bgp two_routes two_routes-IsTidy
