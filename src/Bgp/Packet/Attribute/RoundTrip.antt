-- ===== src/Bgp/Packet/Attribute/RoundTrip.antt =====
-- Attributes that were written are read back.
use Prim.Native.Nat.{bit_and}
use sart.Common.{
  ℕ, ◌+◌, ◌*◌, ◌/◌, ◌%◌, ◌^◌, ◌≤◌, ◌<◌, ◌≡◌, refl, ap, ◌∙◌, Bool, true, false, List, ◌++◌, length,
  All, ok, arith, ge→ltb, if◌then◌else◌,
}
use mathlib.Core.List.{append_assoc}
use sart.Net.{Ipv4Addr, IpAddr, IpNet, IsByte, IsIpv4, IsIpAddr, be_bytes}
use sart.Bgp.Error.{Error}
use sart.Bgp.Packet.Attribute.{
  Base, Attribute, origin, as_path, next_hop, multi_exit_disc, local_pref, atomic_aggregate,
  aggregator, communities, mp_reach_nlri, mp_unreach_nlri, extended_communities, as4_path,
  as4_aggregator, unsupported, get_base,
}
use sart.Bgp.Packet.Attribute.Decode.{
  base_is_extended, addr_width, validate_attribute_flag, decode_origin, decode_extended_communities,
  decode_as4_aggregator, decode_value, decode_body, decode_attribute,
}
use sart.Bgp.Packet.Attribute.Encode.{
  base_u16, attribute_len, attribute_code, encode_value, encode_attribute, put_length,
}
use sart.Bgp.Packet.Attribute.Values.{get_ipv4-octets4, IsAddrOf, IsAsn}
use sart.Bgp.Packet.Attribute.Loops.{IsPath, IsNlri}
use sart.Bgp.Packet.Attribute.Bodies.{
  as_path_back, as4_path_back, mp_unreach_back, mp_reach_back, aggregator_back,
}
use sart.Bgp.Packet.Buffer.{get_be, put}
use sart.Bgp.Packet.Buffer.RoundTrip.{get_be-put}
use sart.Bgp.Packet.Prefix.{WireOps, WireLaws, octets4}

module _ {N4 N6 : Type 0} (net : WireOps N4 N6) (laws : WireLaws net) where
  -- A value whose numbers fit the bytes that it is written to. No value of 16 bytes is read back as an
  -- `as4_aggregator`, and no code as `unsupported`.
  abbrev pub IsValue : Bool → Attribute (IpNet N4 N6) → Type 0
  IsValue as4_enabled (origin b val) = val ≤ 2
  IsValue as4_enabled (as_path b segments) = IsPath as4_enabled segments
  IsValue as4_enabled (next_hop b next) = IsIpv4 next
  IsValue as4_enabled (multi_exit_disc b val) = val < 2 ^ 32
  IsValue as4_enabled (local_pref b pref) = pref < 2 ^ 32
  IsValue as4_enabled (atomic_aggregate b) = Unit {0}
  IsValue as4_enabled (aggregator b val addr) = IsAsn as4_enabled val × IsIpAddr addr
  IsValue as4_enabled (communities b val) = val < 2 ^ 32
  IsValue as4_enabled (extended_communities b val1 val2) =
      (val1 < 2 ^ 16) × (val2 < 2 ^ 48) × (bit_and (val1 * 2 ^ 48 + val2) 18764998447377 ≡ val2)
  IsValue as4_enabled (mp_reach_nlri b family addrs prefixes) =
      All (IsAddrOf family.afi) addrs
      × (length addrs * addr_width family.afi < 256)
      × All (IsNlri net laws family.afi) prefixes
  IsValue as4_enabled (mp_unreach_nlri b family prefixes) =
      All (IsNlri net laws family.afi) prefixes
  IsValue as4_enabled (as4_path b segments) = IsPath true segments
  IsValue as4_enabled (as4_aggregator b val (IpAddr.v4 addr)) = (val < 2 ^ 32) × IsIpv4 addr
  IsValue as4_enabled (as4_aggregator b val (IpAddr.v6 addr)) = ⊥
  IsValue as4_enabled (unsupported b d) = ⊥

  extended_back :
      (b : Base) (t v : ℕ) (rest : List ℕ)
      → t < 2 ^ 16
      → v < 2 ^ 48
      → bit_and (t * 2 ^ 48 + v) 18764998447377 ≡ v
      → decode_extended_communities net b (put 8 (t * 2 ^ 48 + v) ++ rest)
        ≡ ok (extended_communities b t v, rest)
  unfolding decode_extended_communities
  extended_back b t v rest ht hv m =
      let high : (t * 2 ^ 48 + v) / 2 ^ 48 ≡ t = omega arith in
      rw (get_be-put {E = Error} 8 (t * 2 ^ 48 + v) rest (omega arith), high, m) refl

  origin_back :
      (b : Base) (val : ℕ) (rest : List ℕ)
      → val ≤ 2
      → decode_origin net b (put 1 val ++ rest) ≡ ok (origin b val, rest)
  unfolding decode_origin
  origin_back b val rest h =
      rw (get_be-put {E = Error} 1 val rest (omega arith), ge→ltb 2 val h) refl

  as4_aggregator_back :
      (b : Base) (n : ℕ) (addr : Ipv4Addr) (rest : List ℕ)
      → n < 2 ^ 32
      → IsIpv4 addr
      → decode_as4_aggregator net b 8 ((put 4 n ++ octets4 addr) ++ rest)
        ≡ ok (as4_aggregator b n (IpAddr.v4 addr), rest)
  unfolding decode_as4_aggregator
  as4_aggregator_back b n addr rest h k =
      rw
        (
          append_assoc (put 4 n) (octets4 addr) rest,
          get_be-put {E = Error} 4 n (octets4 addr ++ rest) h,
          get_ipv4-octets4 addr rest k,
        )
        refl

  value_back :
      (as4_enabled : Bool) (a : Attribute (IpNet N4 N6)) (rest : List ℕ)
      → length rest < 2 ^ 64
      → IsValue as4_enabled a
      → decode_value net
          (attribute_code a)
          as4_enabled
          (get_base a)
          (attribute_len net a as4_enabled)
          (encode_value net a as4_enabled ++ rest)
        ≡ ok (a, rest)
  unfolding decode_value attribute_code get_base attribute_len encode_value
  value_back t (origin b val) rest room h = origin_back b val rest h
  value_back t (as_path b segments) rest room h = as_path_back net laws t b segments rest h
  value_back t (next_hop b next) rest room h = rw (get_ipv4-octets4 next rest h) refl
  value_back t (multi_exit_disc b val) rest room h = rw (get_be-put {E = Error} 4 val rest h) refl
  value_back t (local_pref b pref) rest room h = rw (get_be-put {E = Error} 4 pref rest h) refl
  value_back t (atomic_aggregate b) rest room h = refl
  value_back t (aggregator b val addr) rest room h =
      aggregator_back net laws t b val addr rest h.0 h.1
  value_back t (communities b val) rest room h = rw (get_be-put {E = Error} 4 val rest h) refl
  value_back t (extended_communities b x v) rest room h = extended_back b x v rest h.0 h.1 h.2
  value_back t (mp_reach_nlri b f addrs ps) rest room h =
      mp_reach_back net laws b f addrs ps rest room h.0 h.1 h.2
  value_back t (mp_unreach_nlri b f ps) rest room h = mp_unreach_back net laws b f ps rest room h
  value_back t (as4_path b segments) rest room h = as4_path_back net laws b segments rest room h
  value_back t (as4_aggregator b val (IpAddr.v4 addr)) rest room h =
      as4_aggregator_back b val addr rest h.0 h.1
  value_back t (as4_aggregator b val (IpAddr.v6 addr)) rest room h = absurd h
  value_back t (unsupported b d) rest room h = absurd h

  -- The flags and the code are bytes that the code's rule accepts, and the length has room in the bytes
  -- that the flags give it.
  abbrev pub length_width : Base → ℕ
  length_width b = if base_is_extended b then 2 else 1

  pub record IsHeader (b : Base) (code len : ℕ) : Type 0 where
    pub flag_byte : IsByte b.flag
    pub code_byte : IsByte b.code
    pub same_code : b.code ≡ code
    pub valid : validate_attribute_flag b ≡ true
    pub fits : len < 256 ^ length_width b

  length_by :
      (extended : Bool) (len : ℕ) (rest : List ℕ)
      → len < 256 ^ (if extended then 2 else 1)
      → (if extended
          then get_be {E = Error} 2 0 ((if extended then put 2 len else put 1 len) ++ rest)
          else get_be 1 0 ((if extended then put 2 len else put 1 len) ++ rest))
        ≡ ok (len, rest)
  length_by true len rest h = get_be-put 2 len rest h
  length_by false len rest h = get_be-put 1 len rest h

  body_back :
      (as4_enabled : Bool) (b : Base) (code len : ℕ) (d : List ℕ)
      → IsHeader b code len
      → decode_body net as4_enabled b len d ≡ decode_value net code as4_enabled b len d
  body_back as4_enabled b code len d h =
      rw h.valid (ap (λ c. decode_value net c as4_enabled b len d) h.same_code)

  header_back :
      (as4_enabled : Bool) (b : Base) (code len : ℕ) (body rest : List ℕ)
      → IsHeader b code len
      → decode_attribute net as4_enabled
          ((put 2 (base_u16 b) ++ put_length net b len ++ body) ++ rest)
        ≡ decode_value net code as4_enabled b len (body ++ rest)
  unfolding decode_attribute get_be be_bytes
  header_back as4_enabled b code len body rest h =
      let flag : 0 * 256 + base_u16 b / 256 % 256 ≡ b.flag = omega arith in
      let number : 0 * 256 + base_u16 b % 256 ≡ b.code = omega arith in
      rw
        (
          flag,
          number,
          append_assoc (put_length net b len) body rest,
          length_by (base_is_extended b) len (body ++ rest) h.fits,
        )
        (body_back as4_enabled b code len (body ++ rest) h)

  -- An attribute is read back from the bytes that it is written to, with fewer than 2 ^ 64 bytes
  -- behind it. Its flags are a byte that the rule for its code accepts, its code is the one of its
  -- kind, and its length fits the one or two bytes that the flags give it. Its value is one of
  -- these: an origin of at most 2; an AS path without segments, or with a number in one of them,
  -- each with a type of a byte and fewer than 256 numbers; the address of a next hop; a number of
  -- four bytes; an atomic aggregate; an aggregator, with an address; reachable prefixes with next
  -- hops of their family, of fewer than 256 bytes together, or unreachable ones; an extended
  -- community with a type of two bytes, whose value has no bit outside of 0x1111_1111_1111; an AS4
  -- aggregator with an IPv4 address. AS numbers have the two or four bytes of the session (four in
  -- the AS4 kinds), addresses are made of bytes, and a prefix is of the family (for its afi), has
  -- no path identifier, and no bit behind the bytes that its length counts. Unsupported attributes
  -- are left out.
  pub decode_attribute-encode_attribute :
      (as4_enabled : Bool) (a : Attribute (IpNet N4 N6)) (rest : List ℕ)
      → IsHeader (get_base a) (attribute_code a) (attribute_len net a as4_enabled)
      → IsValue as4_enabled a
      → length rest < 2 ^ 64
      → decode_attribute net as4_enabled (encode_attribute net a as4_enabled ++ rest) ≡ ok (a, rest)
  unfolding encode_attribute
  decode_attribute-encode_attribute as4_enabled a rest h v room =
      header_back as4_enabled (get_base a) (attribute_code a) (attribute_len net a as4_enabled)
        (encode_value net a as4_enabled) rest h
      ∙ value_back as4_enabled a rest room v
