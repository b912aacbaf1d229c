-- ===== src/Bgp/Path.antt =====
-- sartd/src/bgp/src/path.rs: a route as the routing table holds it.
-- `N` is the type `ipnet::IpNet`; a `SystemTime` is a number.
pub mod Equality
pub mod Builder
mod Tests
use sart.Common.{
  ℕ, ◌+◌, ◌==◌, Bool, true, false, not, ◌&&◌, ◌||◌, Option, none, some, List, [], ◌∷◌, ◌++◌, map,
  if◌then◌else◌, ltb, leb, length, Outcome, ok, err, ◌>>=◌,
}
use sart.Net.{Ipv4Addr, IpAddr}
use sart.Net.Equality.{ipv4_eq}
use sart.Bgp.Family.{AddressFamily}
use sart.Bgp.Packet.Attribute.{
  Attribute, AttributeError, invalid_next_hop_attribute, as_2bytes_limit, as_trans,
  origin_incomplete, new_origin, new_as_path, new_as4_path, new_nexthop, new_local_pref, new_med,
}

pub data BestPathReason : Type 0 where
  only_path weight local_pref local_originated as_path origin multi_exit_disc : BestPathReason
  external igp_metric older_route router_id peer_addr : BestPathReason
  equal_cost_milti_path not_best : BestPathReason

pub data PathKind : Type 0 where
  local internal external : PathKind

pub record BgpPath (N : Type 0) : Type 0 where
  pub id : ℕ
  pub best : Bool
  pub reason : BestPathReason
  pub timestamp : ℕ
  pub local_id : Ipv4Addr
  pub local_asn : ℕ
  pub peer_id : Ipv4Addr
  pub peer_addr : IpAddr
  pub peer_asn : ℕ
  pub family : AddressFamily
  pub origin : ℕ
  pub local_pref : ℕ
  pub med : ℕ
  pub as_sequence : List ℕ
  pub as_set : List ℕ
  pub next_hops : List IpAddr
  pub propagate_attributes : List (Attribute N)
  pub prefix : N

-- `contains`
unfoldable pub contains : List ℕ → ℕ → Bool
contains [] n = false
contains (x ∷ xs) n = x == n || contains xs n

-- The AS numbers that need four bytes, and those that do not.
unfoldable pub filter_as4 : List ℕ → List ℕ
filter_as4 [] = []
filter_as4 (n ∷ ns) = let rest = filter_as4 ns in if ltb as_2bytes_limit n then n ∷ rest else rest

unfoldable pub filter_as2 : List ℕ → List ℕ
filter_as2 [] = []
filter_as2 (n ∷ ns) = let rest = filter_as2 ns in if leb n as_2bytes_limit then n ∷ rest else rest

unfoldable pub trans_as4 : List ℕ → List ℕ
trans_as4 = map (λ n. if ltb as_2bytes_limit n then as_trans else n)

abbrev pub no_asns : List ℕ → Bool
no_asns [] = true
no_asns (x ∷ xs) = false

abbrev pub same : Bool → Bool → Bool
same true b = b
same false b = not b

abbrev pub is_internal : PathKind → Bool
is_internal PathKind.internal = true
is_internal PathKind.local = false
is_internal PathKind.external = false

abbrev pub is_external_kind : PathKind → Bool
is_external_kind PathKind.external = true
is_external_kind PathKind.local = false
is_external_kind PathKind.internal = false

module _ {N : Type 0} where
  unfoldable pub is_local_originated : BgpPath N → Bool
  is_local_originated p = ipv4_eq p.local_id p.peer_id

  unfoldable pub is_external : BgpPath N → Bool
  unfolding is_local_originated
  is_external p = not (is_local_originated p) && not (p.local_asn == p.peer_asn)

  unfoldable pub kind : BgpPath N → PathKind
  kind p =
      if ipv4_eq p.local_id p.peer_id
      then PathKind.local
      else if p.local_asn == p.peer_asn
      then PathKind.internal
      else PathKind.external

  unfoldable pub has_as : BgpPath N → ℕ → Bool
  unfolding contains
  has_as p asn =
      if contains p.as_sequence asn then true else if contains p.as_set asn then true else false

  unfoldable pub has_own_as : BgpPath N → Bool
  unfolding has_as
  has_own_as p = has_as p p.local_asn

  unfoldable pub is_equal_cost : BgpPath N → BgpPath N → Bool
  is_equal_cost p q =
      if not (p.local_pref == q.local_pref)
      then false
      else if not (length p.as_sequence == length q.as_sequence)
      then false
      else if not (p.origin == q.origin)
      then false
      else if not (p.med == q.med)
      then false
      else if not (same (p.local_asn == p.peer_asn) (q.local_asn == q.peer_asn))
      then false
      else true

  -- The rewriting of `to_outgoing`, step by step; it returns `Ok` always.
  unfoldable pub outgoing_origin : BgpPath N → Bool → BgpPath N
  unfolding kind
  outgoing_origin p is_ibgp =
      if is_internal (kind p) && not is_ibgp then record p { origin = origin_incomplete } else p

  unfoldable pub outgoing_as : BgpPath N → Bool → ℕ → BgpPath N
  outgoing_as p is_ibgp asn =
      if not is_ibgp then record p { as_sequence = asn ∷ p.as_sequence } else p

  unfoldable pub outgoing_hops : BgpPath N → Bool → List IpAddr → BgpPath N
  unfolding kind
  outgoing_hops p is_ibgp next_hops = if is_ibgp && is_external_kind (kind p) then p else record p {
    next_hops = next_hops;
    local_pref = if is_ibgp && p.local_pref == 0 then 100 else p.local_pref;
  }

  unfoldable pub to_outgoing : BgpPath N → Bool → ℕ → List IpAddr → BgpPath N
  unfolding outgoing_origin outgoing_as outgoing_hops
  to_outgoing p is_ibgp asn next_hops =
      outgoing_hops (outgoing_as (outgoing_origin p is_ibgp) is_ibgp asn) is_ibgp next_hops

  -- The attributes for the AS path; two of them where the peer does not speak four-byte numbers.
  unfoldable pub as_attributes : BgpPath N → Bool → List (Attribute N)
  unfolding filter_as4 filter_as2 trans_as4
  as_attributes p as4_enabled =
      if as4_enabled
      then new_as_path p.as_sequence p.as_set true ∷ []
      else (let as4_seq = filter_as4 p.as_sequence in
          let as4_set = filter_as4 p.as_set in
          let as_seq = trans_as4 p.as_sequence in
          let short = filter_as2 p.as_set in
          let as_set =
            if ltb (length short) (length p.as_set) then short ++ (as_trans ∷ []) else short in
          new_as_path as_seq as_set true
          ∷ (if not (no_asns as4_seq) || not (no_asns as4_set)
              then new_as4_path as4_seq as4_set true ∷ []
              else []))

  -- The attribute for the first next hop: an IPv6 one is left to `MP_REACH_NLRI`.
  abbrev hop_attribute : IpAddr → List (Attribute N)
  hop_attribute (IpAddr.v4 addr) = new_nexthop addr ∷ []
  hop_attribute (IpAddr.v6 addr) = []

  abbrev hop_attributes : List IpAddr → Outcome AttributeError (List (Attribute N))
  hop_attributes [] = err invalid_next_hop_attribute
  hop_attributes (h ∷ hs) = ok (hop_attribute h)

  unfoldable pub attributes : BgpPath N → Bool → Outcome AttributeError (List (Attribute N))
  unfolding as_attributes
  attributes p as4_enabled = do
    o ← new_origin p.origin
    hops ← hop_attributes p.next_hops
    ok (
        o
        ∷ (as_attributes p as4_enabled
            ++ (hops
                ++ ((if not (p.local_pref == 0) then new_local_pref p.local_pref ∷ [] else [])
                    ++ (if not (p.med == 0) then new_med p.med ∷ [] else [])))))
