-- ===== src/Bgp/Path/Builder.antt =====
-- `PathBuilder`: paths from the attributes of an UPDATE message. The setters have the prefix
-- `with_`. The identifier that the standard library's hasher gives and the time are parameters.
pub mod Merge
use sart.Common.{
  ℕ, ◌+◌, ◌%◌, ◌^◌, ◌==◌, Bool, true, false, ◌&&◌, Option, some, List, [], ◌∷◌, ◌++◌, map,
  if◌then◌else◌, get_elem?, Outcome, ok, or_panic, ◌>>=◌,
}
use sart.Net.{Ipv4Addr, IpAddr}
use sart.Bgp.Family.{AddressFamily, ipv4_unicast}
use sart.Bgp.Packet.Attribute.{
  Prefix, Base, AsSegment, Attribute, AttributeError, as_sequence_type, as_trans, origin_igp,
  flag_partial, base_is_optional, base_is_transitive, is_optional, is_transitive, is_recognized,
}
use sart.Bgp.Path.{BgpPath, BestPathReason}

pub record PathBuilder (N : Type 0) : Type 0 where
  pub local_id : Ipv4Addr
  pub local_asn : ℕ
  pub peer_id : Ipv4Addr
  pub peer_addr : IpAddr
  pub peer_asn : ℕ
  pub family : AddressFamily
  pub next_hop : List IpAddr
  pub origin : ℕ
  pub as_sequence : List ℕ
  pub as_set : List ℕ
  pub as4_sequence : List ℕ
  pub as4_set : List ℕ
  pub local_pref : ℕ
  pub med : ℕ
  pub propagate_attrs : List (Attribute N)
  pub nlri : List (Prefix N)

-- `Base::set_partial`, which adds the flag.
abbrev pub set_partial : Base → Base
set_partial b = record b { flag = (b.flag + flag_partial) % 2 ^ 8 }

-- The closure that `build` maps over the AS numbers: `i` counts the numbers that have been taken from
-- the four-byte list.
unfoldable pub merge : List ℕ → ℕ → List ℕ → Outcome AttributeError (ℕ × List ℕ)
merge as4 i [] = ok (i, [])
merge as4 i (s ∷ ss) =
    let (n, k) : Option ℕ × ℕ = if s == as_trans then (get_elem? as4 i, i + 1) else (some s, i) in
    or_panic n >>= λ m. merge as4 k ss >>= λ r. ok (r.0, m ∷ r.1)

module _ {N : Type 0} where
  unfoldable pub builder : Ipv4Addr → ℕ → Ipv4Addr → IpAddr → ℕ → PathBuilder N
  builder local_id local_asn peer_id peer_addr peer_asn = record {
    local_id = local_id;
    local_asn = local_asn;
    peer_id = peer_id;
    peer_addr = peer_addr;
    peer_asn = peer_asn;
    family = ipv4_unicast;
    next_hop = [];
    origin = origin_igp;
    as_sequence = [];
    as_set = [];
    as4_sequence = [];
    as4_set = [];
    local_pref = 0;
    med = 0;
    propagate_attrs = [];
    nlri = [];
  }

  unfoldable pub builder_local : Ipv4Addr → ℕ → PathBuilder N
  unfolding builder
  builder_local local_id local_asn =
      builder local_id local_asn local_id (IpAddr.v4 (record { a = 0; b = 0; c = 0; d = 0 }))
        local_asn

  abbrev pub with_next_hop : PathBuilder N → IpAddr → PathBuilder N
  with_next_hop b h = record b { next_hop = b.next_hop ++ (h ∷ []) }

  abbrev pub with_origin : PathBuilder N → ℕ → PathBuilder N
  with_origin b val = record b { origin = val }

  unfoldable pub with_segment : PathBuilder N → AsSegment → Bool → PathBuilder N
  with_segment b segment as4 =
      if as4
      then if segment.segment_type == as_sequence_type
        then record b { as4_sequence = b.as4_sequence ++ segment.segments }
        else record b { as4_set = b.as4_set ++ segment.segments }
      else if segment.segment_type == as_sequence_type
      then record b { as_sequence = b.as_sequence ++ segment.segments }
      else record b { as_set = b.as_set ++ segment.segments }

  unfoldable pub with_segments : PathBuilder N → List AsSegment → Bool → PathBuilder N
  unfolding with_segment
  with_segments b [] as4 = b
  with_segments b (segment ∷ segments) as4 = with_segments (with_segment b segment as4) segments as4

  unfoldable pub with_as_sequence : PathBuilder N → List ℕ → Bool → PathBuilder N
  with_as_sequence b sequence true = record b { as4_sequence = b.as4_sequence ++ sequence }
  with_as_sequence b sequence false = record b { as_sequence = b.as_sequence ++ sequence }

  -- The numbers go to the sequences here too.
  unfoldable pub with_as_set : PathBuilder N → List ℕ → Bool → PathBuilder N
  with_as_set b set true = record b { as4_sequence = b.as4_sequence ++ set }
  with_as_set b set false = record b { as_sequence = b.as_sequence ++ set }

  abbrev pub with_local_pref : PathBuilder N → ℕ → PathBuilder N
  with_local_pref b val = record b { local_pref = val }

  abbrev pub with_med : PathBuilder N → ℕ → PathBuilder N
  with_med b val = record b { med = val }

  abbrev pub with_propagate_attr : PathBuilder N → Attribute N → PathBuilder N
  with_propagate_attr b attr = record b { propagate_attrs = b.propagate_attrs ++ (attr ∷ []) }

  abbrev pub with_family : PathBuilder N → AddressFamily → PathBuilder N
  with_family b family = record b { family = family }

  abbrev pub with_nlri : PathBuilder N → List (Prefix N) → PathBuilder N
  with_nlri b nlri = record b { nlri = b.nlri ++ nlri }

  -- The `match` of `attr`.
  unfoldable pub read_attr : PathBuilder N → Attribute N → PathBuilder N
  unfolding with_segments
  read_attr b (Attribute.origin _ val) = with_origin b val
  read_attr b (Attribute.as_path _ segments) = with_segments b segments false
  read_attr b (Attribute.next_hop _ val) = with_next_hop b (IpAddr.v4 val)
  read_attr b (Attribute.multi_exit_disc _ val) = with_med b val
  read_attr b (Attribute.local_pref _ val) = with_local_pref b val
  read_attr b (Attribute.atomic_aggregate _) = b
  read_attr b (Attribute.aggregator _ _ _) = b
  read_attr b (Attribute.communities _ _) = b
  read_attr b (Attribute.mp_reach_nlri _ family next_hops nlri) =
      with_family (with_nlri (record b { next_hop = b.next_hop ++ next_hops }) nlri) family
  read_attr b (Attribute.mp_unreach_nlri _ _ _) = b
  read_attr b (Attribute.extended_communities _ _ _) = b
  read_attr b (Attribute.as4_path _ segments) = with_segments b segments true
  read_attr b (Attribute.as4_aggregator _ _ _) = b
  read_attr b (Attribute.unsupported base bytes) = with_propagate_attr b (
      Attribute.unsupported
        (if base_is_optional base && base_is_transitive base then set_partial base else base) bytes)

  unfoldable pub with_attr : PathBuilder N → Attribute N → PathBuilder N
  unfolding read_attr is_optional is_transitive is_recognized
  with_attr b attr =
      read_attr
        (if is_optional attr && is_transitive attr && is_recognized attr
          then with_propagate_attr b attr
          else b)
        attr

  abbrev pub path_of : PathBuilder N → ℕ → ℕ → List ℕ → List ℕ → Prefix N → BgpPath N
  path_of b id now seq set p = record {
    id = id;
    best = false;
    reason = BestPathReason.not_best;
    timestamp = now;
    local_id = b.local_id;
    local_asn = b.local_asn;
    peer_id = b.peer_id;
    peer_addr = b.peer_addr;
    peer_asn = b.peer_asn;
    family = b.family;
    origin = b.origin;
    local_pref = b.local_pref;
    med = b.med;
    as_sequence = seq;
    as_set = set;
    next_hops = b.next_hop;
    propagate_attributes = b.propagate_attrs;
    prefix = p.inner;
  }

  unfoldable pub build :
      (PathBuilder N → ℕ) → ℕ → PathBuilder N → Outcome AttributeError (List (BgpPath N))
  unfolding merge
  build hash now b = merge b.as4_sequence 0 b.as_sequence >>= λ seq.
      merge b.as4_sequence seq.0 b.as_set >>= λ set.
      ok (map (path_of b (hash b) now seq.1 set.1) b.nlri)
