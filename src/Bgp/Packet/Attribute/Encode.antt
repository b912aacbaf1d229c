-- ===== src/Bgp/Packet/Attribute/Encode.antt =====
-- sartd/src/bgp/src/packet/attribute.rs: `Attribute::encode` and `Attribute::len`. An encoder is the
-- list of the bytes that it writes.
use sart.Common.{
  ℕ, ◌+◌, ◌*◌, ◌%◌, ◌^◌, ◌||◌, Bool, true, false, List, [], ◌∷◌, ◌++◌, if◌then◌else◌, length, ltb,
}
use sart.Net.{IpAddr, IpNet}
use sart.Bgp.Family.{AddressFamily, afi_number, safi_number}
use sart.Bgp.Packet.Attribute.{
  Prefix, Base, AsSegment, Attribute, origin, as_path, next_hop, multi_exit_disc, local_pref,
  atomic_aggregate, aggregator, communities, mp_reach_nlri, mp_unreach_nlri, extended_communities,
  as4_path, as4_aggregator, unsupported, get_base,
}
use sart.Bgp.Packet.Attribute.Decode.{base_is_extended, asn_width, addr_width}
use sart.Bgp.Packet.Buffer.{put}
use sart.Bgp.Packet.Prefix.{WireOps, encode_prefix, prefix_len, octets4}

-- `segments.iter().any(|s| s.len() > 0)`
unfoldable pub any_numbers : List AsSegment → Bool
any_numbers [] = false
any_numbers (s ∷ segments) = ltb 0 (length s.segments) || any_numbers segments

unfoldable pub put_asns : Bool → List ℕ → List ℕ
put_asns as4_enabled [] = []
put_asns as4_enabled (asn ∷ asns) = put (asn_width as4_enabled) asn ++ put_asns as4_enabled asns

unfoldable pub put_segment : Bool → AsSegment → List ℕ
unfolding put_asns
put_segment as4_enabled s =
    put 1 s.segment_type ++ put 1 (length s.segments) ++ put_asns as4_enabled s.segments

unfoldable pub put_segments : Bool → List AsSegment → List ℕ
put_segments as4_enabled [] = []
put_segments as4_enabled (s ∷ segments) =
    put_segment as4_enabled s ++ put_segments as4_enabled segments

unfoldable pub put_path : Bool → List AsSegment → List ℕ
unfolding any_numbers put_segments
put_path as4_enabled segments =
    if any_numbers segments then put_segments as4_enabled segments else []

unfoldable pub sum_segments : Bool → List AsSegment → ℕ
sum_segments as4_enabled [] = 0
sum_segments as4_enabled (s ∷ segments) =
    2 + asn_width as4_enabled * length s.segments + sum_segments as4_enabled segments

-- The fold gives 0 where all segments are empty.
unfoldable pub path_len : Bool → List AsSegment → ℕ
unfolding any_numbers sum_segments
path_len as4_enabled segments =
    if any_numbers segments then sum_segments as4_enabled segments else 0

abbrev pub addr_bytes : IpAddr → List ℕ
addr_bytes (IpAddr.v4 x) = octets4 x
addr_bytes (IpAddr.v6 x) = x.octets

abbrev pub addr_len : IpAddr → ℕ
addr_len (IpAddr.v4 _) = 4
addr_len (IpAddr.v6 _) = 16

unfoldable pub put_addrs : List IpAddr → List ℕ
put_addrs [] = []
put_addrs (x ∷ xs) = addr_bytes x ++ put_addrs xs

unfoldable pub sum_addrs : List IpAddr → ℕ
sum_addrs [] = 0
sum_addrs (x ∷ xs) = addr_len x + sum_addrs xs

abbrev pub put_family : AddressFamily → List ℕ
put_family f = put 2 (afi_number f.afi) ++ put 1 (safi_number f.safi)

-- `u16::from(&Base)`
abbrev pub base_u16 : Base → ℕ
base_u16 b = b.flag * 2 ^ 8 % 2 ^ 16 + b.code

-- `u8::from(Attribute)`
unfoldable pub attribute_code : {N : Type 0} → Attribute N → ℕ
attribute_code (origin _ _) = 1
attribute_code (as_path _ _) = 2
attribute_code (next_hop _ _) = 3
attribute_code (multi_exit_disc _ _) = 4
attribute_code (local_pref _ _) = 5
attribute_code (atomic_aggregate _) = 6
attribute_code (aggregator _ _ _) = 7
attribute_code (communities _ _) = 8
attribute_code (extended_communities _ _ _) = 16
attribute_code (mp_reach_nlri _ _ _ _) = 14
attribute_code (mp_unreach_nlri _ _ _) = 15
attribute_code (as4_path _ _) = 17
attribute_code (as4_aggregator _ _ _) = 18
attribute_code (unsupported b _) = b.code

module _ {N4 N6 : Type 0} (net : WireOps N4 N6) where
  unfoldable pub put_prefixes : List (Prefix (IpNet N4 N6)) → List ℕ
  put_prefixes [] = []
  put_prefixes (p ∷ ps) = encode_prefix net p ++ put_prefixes ps

  unfoldable pub sum_prefixes : List (Prefix (IpNet N4 N6)) → ℕ
  sum_prefixes [] = 0
  sum_prefixes (p ∷ ps) = prefix_len net p + sum_prefixes ps

  unfoldable pub attribute_len : Attribute (IpNet N4 N6) → Bool → ℕ
  unfolding path_len sum_addrs sum_prefixes
  attribute_len (origin _ _) as4_enabled = 1
  attribute_len (as_path _ segments) as4_enabled = path_len as4_enabled segments
  attribute_len (next_hop _ _) as4_enabled = 4
  attribute_len (multi_exit_disc _ _) as4_enabled = 4
  attribute_len (local_pref _ _) as4_enabled = 4
  attribute_len (atomic_aggregate _) as4_enabled = 0
  attribute_len (aggregator _ _ addr) as4_enabled = asn_width as4_enabled + addr_len addr
  attribute_len (communities _ _) as4_enabled = 4
  attribute_len (extended_communities _ _ _) as4_enabled = 8
  attribute_len (mp_reach_nlri _ _ next_hops prefixes) as4_enabled =
      5 + sum_addrs next_hops + sum_prefixes prefixes
  attribute_len (mp_unreach_nlri _ _ prefixes) as4_enabled = 3 + sum_prefixes prefixes
  attribute_len (as4_path _ segments) as4_enabled = path_len true segments
  attribute_len (as4_aggregator _ _ addr) as4_enabled = 4 + addr_len addr
  attribute_len (unsupported _ d) as4_enabled = length d

  unfoldable pub encode_value : Attribute (IpNet N4 N6) → Bool → List ℕ
  unfolding put_path put_addrs put_prefixes
  encode_value (origin _ val) as4_enabled = put 1 val
  encode_value (as_path _ segments) as4_enabled = put_path as4_enabled segments
  encode_value (next_hop _ next) as4_enabled = octets4 next
  encode_value (multi_exit_disc _ val) as4_enabled = put 4 val
  encode_value (local_pref _ pref) as4_enabled = put 4 pref
  encode_value (atomic_aggregate _) as4_enabled = []
  encode_value (aggregator _ val addr) as4_enabled =
      put (asn_width as4_enabled) val ++ addr_bytes addr
  encode_value (communities _ val) as4_enabled = put 4 val
  encode_value (extended_communities _ val1 val2) as4_enabled = put 8 (val1 * 2 ^ 48 + val2)
  encode_value (mp_reach_nlri _ family addrs prefixes) as4_enabled =
      put_family family
      ++ put 1 (length addrs * addr_width family.afi)
      ++ put_addrs addrs
      ++ put 1 0
      ++ put_prefixes prefixes
  encode_value (mp_unreach_nlri _ family prefixes) as4_enabled =
      put_family family ++ put_prefixes prefixes
  encode_value (as4_path _ segments) as4_enabled = put_path true segments
  encode_value (as4_aggregator _ val addr) as4_enabled = put 4 val ++ addr_bytes addr
  encode_value (unsupported _ d) as4_enabled = d

  abbrev pub put_length : Base → ℕ → List ℕ
  put_length b len = if base_is_extended b then put 2 len else put 1 len

  unfoldable pub encode_attribute : Attribute (IpNet N4 N6) → Bool → List ℕ
  unfolding get_base attribute_len encode_value
  encode_attribute a as4_enabled =
      put 2 (base_u16 (get_base a))
      ++ put_length (get_base a) (attribute_len a as4_enabled)
      ++ encode_value a as4_enabled
