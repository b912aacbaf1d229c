-- ===== src/Bgp/Packet/Attribute/Size.antt =====
-- `Attribute::len` counts the bytes that `Attribute::encode` writes.
use sart.Common.{
  ℕ, ◌+◌, ◌*◌, ◌^◌, ◌≡◌, refl, Bool, true, false, List, [], ◌++◌, length, length-append, ◌∷◌,
  if◌then◌else◌, All, arith, Bool-cases, inl, inr,
}
use sart.Net.{IpAddr, IpNet, IsIpAddr}
use sart.Bgp.Packet.Attribute.{
  Base, AsSegment, Attribute, origin, as_path, next_hop, multi_exit_disc, local_pref,
  atomic_aggregate, aggregator, communities, mp_reach_nlri, mp_unreach_nlri, extended_communities,
  as4_path, as4_aggregator, unsupported, get_base,
}
use sart.Bgp.Packet.Attribute.Decode.{base_is_extended, asn_width, addr_width}
use sart.Bgp.Packet.Attribute.Encode.{
  base_u16, attribute_len, encode_value, encode_attribute, put_length, put_family, put_addrs,
  put_prefixes, put_path, path_len, any_numbers, sum_addrs, addr_bytes, addr_len,
}
use sart.Bgp.Packet.Attribute.Values.{IsAddrOf, length-put_segments}
use sart.Bgp.Family.{Afi}
use sart.Bgp.Packet.Attribute.Loops.{length-put_prefixes}
use sart.Bgp.Packet.Attribute.Bodies.{length-put_family}
use sart.Bgp.Packet.Attribute.RoundTrip.{IsValue}
use sart.Bgp.Packet.Buffer.{put}
use sart.Bgp.Packet.Buffer.RoundTrip.{length-be_bytes}
use sart.Bgp.Packet.Prefix.{WireOps, WireLaws}

path_size :
    (as4_enabled : Bool) (segments : List AsSegment)
    → length (put_path as4_enabled segments) ≡ path_len as4_enabled segments
unfolding put_path path_len
path_size as4_enabled segments = elim (Bool-cases (any_numbers segments)) [
  | inl e ↦ rw e (length-put_segments as4_enabled segments)
  | inr e ↦ rw e refl
]

addr_size : (x : IpAddr) → IsIpAddr x → length (addr_bytes x) ≡ addr_len x
addr_size (IpAddr.v4 x) h = refl
addr_size (IpAddr.v6 x) h = h.sixteen

addrs_size : (xs : List IpAddr) → All IsIpAddr xs → length (put_addrs xs) ≡ sum_addrs xs
unfolding put_addrs sum_addrs
addrs_size [] h = refl
addrs_size (x ∷ xs) h =
    omega (arith, length-append (addr_bytes x) (put_addrs xs), addr_size x h.0, addrs_size xs h.1)

addrs-IsIpAddr : (afi : Afi) (xs : List IpAddr) → All (IsAddrOf afi) xs → All IsIpAddr xs
addrs-IsIpAddr afi [] h = tt
addrs-IsIpAddr Afi.ipv4 (IpAddr.v4 x ∷ xs) h = (h.0, addrs-IsIpAddr Afi.ipv4 xs h.1)
addrs-IsIpAddr Afi.ipv6 (IpAddr.v6 x ∷ xs) h = (h.0, addrs-IsIpAddr Afi.ipv6 xs h.1)
addrs-IsIpAddr Afi.ipv4 (IpAddr.v6 x ∷ xs) h = absurd h.0
addrs-IsIpAddr Afi.ipv6 (IpAddr.v4 x ∷ xs) h = absurd h.0

-- The addresses of an attribute are made of four or of sixteen bytes.
abbrev pub HasAddrs : {N : Type 0} → Attribute N → Type 0
HasAddrs (origin b val) = Unit {0}
HasAddrs (as_path b segments) = Unit {0}
HasAddrs (next_hop b next) = Unit {0}
HasAddrs (multi_exit_disc b val) = Unit {0}
HasAddrs (local_pref b pref) = Unit {0}
HasAddrs (atomic_aggregate b) = Unit {0}
HasAddrs (aggregator b val addr) = IsIpAddr addr
HasAddrs (communities b val) = Unit {0}
HasAddrs (extended_communities b val1 val2) = Unit {0}
HasAddrs (mp_reach_nlri b family addrs prefixes) = All IsIpAddr addrs
HasAddrs (mp_unreach_nlri b family prefixes) = Unit {0}
HasAddrs (as4_path b segments) = Unit {0}
HasAddrs (as4_aggregator b val addr) = IsIpAddr addr
HasAddrs (unsupported b d) = Unit {0}

module _ {N4 N6 : Type 0} (net : WireOps N4 N6) (laws : WireLaws net) where
  pub IsValue-HasAddrs :
      (as4_enabled : Bool) (a : Attribute (IpNet N4 N6))
      → IsValue net laws as4_enabled a
      → HasAddrs a
  IsValue-HasAddrs t (origin b val) h = tt
  IsValue-HasAddrs t (as_path b segments) h = tt
  IsValue-HasAddrs t (next_hop b next) h = tt
  IsValue-HasAddrs t (multi_exit_disc b val) h = tt
  IsValue-HasAddrs t (local_pref b pref) h = tt
  IsValue-HasAddrs t (atomic_aggregate b) h = tt
  IsValue-HasAddrs t (aggregator b val addr) h = h.1
  IsValue-HasAddrs t (communities b val) h = tt
  IsValue-HasAddrs t (extended_communities b x v) h = tt
  IsValue-HasAddrs t (mp_reach_nlri b f addrs ps) h = addrs-IsIpAddr f.afi addrs h.0
  IsValue-HasAddrs t (mp_unreach_nlri b f ps) h = tt
  IsValue-HasAddrs t (as4_path b segments) h = tt
  IsValue-HasAddrs t (as4_aggregator b val (IpAddr.v4 addr)) h = h.1
  IsValue-HasAddrs t (as4_aggregator b val (IpAddr.v6 addr)) h = absurd h
  IsValue-HasAddrs t (unsupported b d) h = tt

  length-encode_value :
      (as4_enabled : Bool) (a : Attribute (IpNet N4 N6))
      → HasAddrs a
      → length (encode_value net a as4_enabled) ≡ attribute_len net a as4_enabled
  unfolding encode_value attribute_len
  length-encode_value t (origin b val) h = length-be_bytes 1 val []
  length-encode_value t (as_path b segments) h = path_size t segments
  length-encode_value t (next_hop b next) h = refl
  length-encode_value t (multi_exit_disc b val) h = length-be_bytes 4 val []
  length-encode_value t (local_pref b pref) h = length-be_bytes 4 pref []
  length-encode_value t (atomic_aggregate b) h = refl
  length-encode_value t (aggregator b val addr) h = omega (
    arith,
    length-append (put (asn_width t) val) (addr_bytes addr),
    length-be_bytes (asn_width t) val [],
    addr_size addr h,
  )
  length-encode_value t (communities b val) h = length-be_bytes 4 val []
  length-encode_value t (extended_communities b x v) h = length-be_bytes 8 (x * 2 ^ 48 + v) []
  length-encode_value t (mp_reach_nlri b f addrs ps) h =
      let count : List ℕ = put 1 (length addrs * addr_width f.afi) in
      omega (
        arith,
        length-append (put_family f ++ count ++ put_addrs addrs ++ put 1 0) (put_prefixes net ps),
        length-append (put_family f ++ count ++ put_addrs addrs) (put 1 0),
        length-append (put_family f ++ count) (put_addrs addrs),
        length-append (put_family f) count,
        length-put_family f,
        length-be_bytes 1 (length addrs * addr_width f.afi) [],
        addrs_size addrs h,
        length-be_bytes 1 0 [],
        length-put_prefixes net laws ps,
      )
  length-encode_value t (mp_unreach_nlri b f ps) h = omega (
    arith,
    length-append (put_family f) (put_prefixes net ps),
    length-put_family f,
    length-put_prefixes net laws ps,
  )
  length-encode_value t (as4_path b segments) h = path_size true segments
  length-encode_value t (as4_aggregator b val addr) h = omega (
    arith,
    length-append (put 4 val) (addr_bytes addr),
    length-be_bytes 4 val [],
    addr_size addr h,
  )
  length-encode_value t (unsupported b d) h = refl

  abbrev pub header_len : Base → ℕ
  header_len b = if base_is_extended b then 4 else 3

  header_bytes :
      (extended : Bool) (len : ℕ)
      → 2 + length (if extended then put 2 len else put 1 len) ≡ (if extended then 4 else 3)
  header_bytes true len = omega (arith, length-be_bytes 2 len [])
  header_bytes false len = omega (arith, length-be_bytes 1 len [])

  -- The bytes that an attribute of any kind is written to: four or three for its header, as its flags
  -- say, and as many as its length states. Its IPv6 addresses have sixteen octets, each a byte, and the
  -- octets of its IPv4 addresses are bytes.
  pub length-encode_attribute :
      (as4_enabled : Bool) (a : Attribute (IpNet N4 N6))
      → HasAddrs a
      → length (encode_attribute net a as4_enabled)
        ≡ header_len (get_base a) + attribute_len net a as4_enabled
  unfolding encode_attribute
  length-encode_attribute as4_enabled a h =
      let b = get_base a in
      let len = attribute_len net a as4_enabled in
      let value = encode_value net a as4_enabled in
      omega (
        arith,
        length-append (put 2 (base_u16 b) ++ put_length net b len) value,
        length-append (put 2 (base_u16 b)) (put_length net b len),
        length-be_bytes 2 (base_u16 b) [],
        header_bytes (base_is_extended b) len,
        length-encode_value as4_enabled a h,
      )
