-- ===== src/Bgp/Rib.antt =====
-- sartd/src/bgp/src/rib.rs: the choice of the best path, and the Loc-RIB that keeps, for each
-- network, the paths from the best down. `N` is the type `ipnet::IpNet`.
-- `insert` and `drop` return beside their result the table that they leave, which is changed on
-- some error paths too.
pub mod Withdraw
pub mod Store
pub mod Single
pub mod Adj
pub mod Removal
pub mod Preference
pub mod Change
mod Tests
pub mod LocRib
use Prim.Native.Nat.{compare, Ordering}
use sart.Common.{
  ℕ, zero, suc, ◌+◌, ◌-◌, ◌%◌, ◌^◌, ◌==◌, Bool, true, false, not, ◌&&◌, ◌||◌, Option, none, some,
  List, [], ◌∷◌, ◌++◌, map, if◌then◌else◌, ltb, leb, length, get_elem?, set, Outcome, ok, err,
  panic, or_panic, ok_or, ◌>>=◌, Eq,
}
use sart.Common.Dict.{Dict, lookup, insert}
use sart.Common.Dict
use sart.Net.{Ipv4Addr, IpAddr}
use sart.Bgp.Family.{Afi, AddressFamily, afi_eq}
use sart.Bgp.Path.{BgpPath, PathKind, BestPathReason, is_local_originated, is_equal_cost, kind}

pub data RibError : Type 0 where
  invalid_address_family next_hop_must_be_set address_family_not_set : RibError
  peer_already_registered peer_not_found manager_down : RibError
  protocol_is_already_registered path_not_found unhandlable_event : RibError
  failed_to_connect_to_fib_endpoint unknown_rib_kind : RibError

pub data LocRibStatus (N : Type 0) : Type 0 where
  not_changed : LocRibStatus N
  withdrawn : N → PathKind → LocRibStatus N
  best_path_changed : N → ℕ → LocRibStatus N
  multi_path_added : LocRibStatus N
  multi_path_withdrawn : N → ℕ → Option IpAddr → LocRibStatus N
  addtional_path_added : N → ℕ → LocRibStatus N
  additional_path_withdrawn : N → ℕ → LocRibStatus N

-- Addresses in order: octet by octet, and IPv4 before IPv6.
unfoldable pub cmp_octets : List ℕ → List ℕ → Ordering
cmp_octets [] [] = Ordering.eq
cmp_octets [] (y ∷ ys) = Ordering.lt
cmp_octets (x ∷ xs) [] = Ordering.gt
cmp_octets (x ∷ xs) (y ∷ ys) =
    let rest = cmp_octets xs ys in
    elim (compare x y) [
      | Ordering.eq ↦ rest
      | Ordering.lt ↦ Ordering.lt
      | Ordering.gt ↦ Ordering.gt
    ]

abbrev octets4 : Ipv4Addr → List ℕ
octets4 x = x.a ∷ x.b ∷ x.c ∷ x.d ∷ []

unfoldable pub cmp_ipv4 : Ipv4Addr → Ipv4Addr → Ordering
unfolding cmp_octets
cmp_ipv4 x y = cmp_octets (octets4 x) (octets4 y)

unfoldable pub cmp_addr : IpAddr → IpAddr → Ordering
unfolding cmp_octets
cmp_addr (IpAddr.v4 x) (IpAddr.v4 y) = cmp_octets (octets4 x) (octets4 y)
cmp_addr (IpAddr.v4 x) (IpAddr.v6 y) = Ordering.lt
cmp_addr (IpAddr.v6 x) (IpAddr.v4 y) = Ordering.gt
cmp_addr (IpAddr.v6 x) (IpAddr.v6 y) = cmp_octets x.octets y.octets

-- What is true comes first.
abbrev pub true_first : Bool → Bool → Ordering
true_first true true = Ordering.eq
true_first true false = Ordering.lt
true_first false true = Ordering.gt
true_first false false = Ordering.eq

module _ {N : Type 0} where
  -- `Ordering::Less`: the new path `a` is preferred to the path `b` of the table.
  unfoldable pub compare_weight : BgpPath N → BgpPath N → Ordering
  compare_weight a b = Ordering.eq

  unfoldable pub compare_local_pref : BgpPath N → BgpPath N → Ordering
  compare_local_pref a b = compare b.local_pref a.local_pref

  unfoldable pub compare_local_originated : BgpPath N → BgpPath N → Ordering
  compare_local_originated a b = true_first (is_local_originated a) (is_local_originated b)

  unfoldable pub compare_as_path : BgpPath N → BgpPath N → Ordering
  compare_as_path a b = compare (length a.as_sequence) (length b.as_sequence)

  unfoldable pub compare_origin : BgpPath N → BgpPath N → Ordering
  compare_origin a b = compare a.origin b.origin

  unfoldable pub compare_med : BgpPath N → BgpPath N → Ordering
  compare_med a b = compare a.med b.med

  unfoldable pub compare_external : BgpPath N → BgpPath N → Ordering
  compare_external a b =
      true_first (not (a.local_asn == a.peer_asn)) (not (b.local_asn == b.peer_asn))

  unfoldable pub compare_older_route : BgpPath N → BgpPath N → Ordering
  compare_older_route a b =
      elim (true_first (not (a.local_asn == a.peer_asn)) (not (b.local_asn == b.peer_asn))) [
        | Ordering.eq ↦ compare a.timestamp b.timestamp
        | Ordering.lt ↦ Ordering.eq
        | Ordering.gt ↦ Ordering.eq
      ]

  unfoldable pub compare_peer_router_id : BgpPath N → BgpPath N → Ordering
  unfolding cmp_ipv4
  compare_peer_router_id a b = cmp_ipv4 a.peer_id b.peer_id

  unfoldable pub compare_peer_addr : BgpPath N → BgpPath N → Ordering
  unfolding cmp_addr
  compare_peer_addr a b = cmp_addr a.peer_addr b.peer_addr

abbrev pub is_less : Ordering → Bool
is_less Ordering.lt = true
is_less Ordering.eq = false
is_less Ordering.gt = false

abbrev pub Comparison : Type 0 → Type 0
Comparison N = BestPathReason × (BgpPath N → BgpPath N → Ordering)

module _ {N : Type 0} where
  unfoldable pub get_comparison_funcs : Bool → List (Comparison N)
  get_comparison_funcs multi_path =
      (BestPathReason.weight, compare_weight)
      ∷ (BestPathReason.local_pref, compare_local_pref)
      ∷ (BestPathReason.local_originated, compare_local_originated)
      ∷ (BestPathReason.as_path, compare_as_path)
      ∷ (BestPathReason.origin, compare_origin)
      ∷ (BestPathReason.multi_exit_disc, compare_med)
      ∷ (BestPathReason.external, compare_external)
      ∷ (if multi_path
          then []
          else (BestPathReason.older_route, compare_older_route)
            ∷ (BestPathReason.router_id, compare_peer_router_id)
            ∷ (BestPathReason.peer_addr, compare_peer_addr)
            ∷ [])

  -- `for (r, f) in funcs { if f(a, b) == Less { … break; } }`
  unfoldable pub first_less : List (Comparison N) → BgpPath N → BgpPath N → Option BestPathReason
  first_less [] a b = none
  first_less ((r, f) ∷ funcs) a b = if is_less (f a b) then some r else first_less funcs a b

  -- The first path of the table to which the new one is preferred, by its position from `idx` on.
  unfoldable pub position_of :
      List (Comparison N) → BgpPath N → ℕ → List (BgpPath N) → ℕ × BestPathReason
  unfolding first_less
  position_of funcs path idx [] = (idx, BestPathReason.not_best)
  position_of funcs path idx (p ∷ ps) = elim (first_less funcs path p) [
    | some r ↦ (idx, r)
    | none ↦ position_of funcs path (idx + 1) ps
  ]

  -- `iter().rposition(|p| p.best)`
  unfoldable pub last_best : List (BgpPath N) → Option ℕ
  last_best [] = none
  last_best (p ∷ ps) = elim (last_best ps) [
    | some i ↦ some (suc i)
    | none ↦ if p.best then some 0 else none
  ]

  -- `Vec::insert`, at a position that is at most the length.
  unfoldable pub insert_at : ℕ → BgpPath N → List (BgpPath N) → List (BgpPath N)
  insert_at zero path ps = path ∷ ps
  insert_at (suc i) path [] = path ∷ []
  insert_at (suc i) path (p ∷ ps) = p ∷ insert_at i path ps

  unfoldable pub unmark : BgpPath N → BgpPath N
  unmark p = if p.best then record p { best = false; reason = BestPathReason.not_best } else p
