-- ===== src/Bgp/Packet/Attribute/Bodies.antt =====
-- The values of several parts, read back from the bytes that they were written to.
use sart.Common.{
  ℕ, ◌+◌, ◌*◌, ◌/◌, ◌^◌, ◌<◌, ◌≡◌, refl, ap, ◌∙◌, Bool, true, false, List, [], ◌∷◌, ◌++◌, length,
  length-append, All, ok, arith, ltb, lt→ltb, ge→ltb,
}
use mathlib.Core.List.{append_assoc}
use sart.Net.{IpAddr, IpNet, IsIpAddr}
use sart.Bgp.Error.{Error}
use sart.Bgp.Family.{Afi, AddressFamily, afi_number, safi_number}
use sart.Bgp.Packet.Attribute.{
  Prefix, Base, AsSegment, as_path, aggregator, mp_reach_nlri, mp_unreach_nlri, as4_path,
}
use sart.Bgp.Packet.Attribute.Decode.{
  asn_width, addr_width, remaining_above, decode_as_path, decode_as4_path, decode_aggregator,
  decode_mp_reach, decode_mp_unreach, get_sized_addr,
}
use sart.Bgp.Packet.Attribute.Encode.{
  put_family, put_addrs, put_prefixes, sum_addrs, sum_prefixes, put_path, path_len, put_segments,
  sum_segments, addr_bytes, addr_len,
}
use sart.Bgp.Packet.Attribute.Values.{
  get_ipv4-octets4, get_ipv6-octets, get_family-put_family, IsAddrOf, read_addrs-put_addrs, IsAsn,
  get_asn-put, length-put_segments,
}
use sart.Bgp.Packet.Attribute.Loops.{
  above_go, above_stop, read_segments, IsPath, path_sent, IsNlri, read_prefixes,
  length-put_prefixes,
}
use sart.Bgp.Packet.Buffer.{put, sub_usize}
use sart.Bgp.Packet.Buffer.RoundTrip.{get_be-put, length-be_bytes}
use sart.Bgp.Packet.Prefix.{WireOps, WireLaws}

addr_count : (afi : Afi) (n : ℕ) → n * addr_width afi / addr_width afi ≡ n
addr_count Afi.ipv4 n = omega arith
addr_count Afi.ipv6 n = omega arith

length-addr_bytes : (afi : Afi) (x : IpAddr) → IsAddrOf afi x → length (addr_bytes x) ≡ addr_len x
length-addr_bytes Afi.ipv4 (IpAddr.v4 x) h = refl
length-addr_bytes Afi.ipv6 (IpAddr.v6 x) h = h.sixteen
length-addr_bytes Afi.ipv4 (IpAddr.v6 x) h = absurd h
length-addr_bytes Afi.ipv6 (IpAddr.v4 x) h = absurd h

pub length-put_addrs :
    (afi : Afi) (xs : List IpAddr) → All (IsAddrOf afi) xs → length (put_addrs xs) ≡ sum_addrs xs
unfolding put_addrs sum_addrs
length-put_addrs afi [] h = refl
length-put_addrs afi (x ∷ xs) h = omega (
  arith,
  length-append (addr_bytes x) (put_addrs xs),
  length-addr_bytes afi x h.0,
  length-put_addrs afi xs h.1,
)

aggregator_size :
    (as4_enabled : Bool) (addr : IpAddr)
    → sub_usize (asn_width as4_enabled + addr_len addr) (asn_width as4_enabled) ≡ addr_len addr
aggregator_size true (IpAddr.v4 x) = refl
aggregator_size true (IpAddr.v6 x) = refl
aggregator_size false (IpAddr.v4 x) = refl
aggregator_size false (IpAddr.v6 x) = refl

sized_back :
    (addr : IpAddr) (rest : List ℕ)
    → IsIpAddr addr
    → get_sized_addr (addr_len addr) (addr_bytes addr ++ rest) ≡ ok (addr, rest)
sized_back (IpAddr.v4 x) rest h = rw (get_ipv4-octets4 x rest h) refl
sized_back (IpAddr.v6 x) rest h = rw (get_ipv6-octets x rest h) refl

pub length-put_family : (f : AddressFamily) → length (put_family f) ≡ 3
length-put_family f = omega (
  arith,
  length-append (put 2 (afi_number f.afi)) (put 1 (safi_number f.safi)),
  length-be_bytes 2 (afi_number f.afi) [],
  length-be_bytes 1 (safi_number f.safi) [],
)

module _ {N4 N6 : Type 0} (net : WireOps N4 N6) (laws : WireLaws net) where
  pub as_path_back :
      (as4_enabled : Bool) (b : Base) (segments : List AsSegment) (rest : List ℕ)
      → IsPath as4_enabled segments
      → decode_as_path net as4_enabled b
          (path_len as4_enabled segments)
          (put_path as4_enabled segments ++ rest)
        ≡ ok (as_path b segments, rest)
  unfolding decode_as_path
  as_path_back as4_enabled b segments rest h =
      let (bytes, size) = path_sent as4_enabled segments h in
      let all = length-append (put_segments as4_enabled segments) rest in
      let whole = length-put_segments as4_enabled segments in
      let all_bytes = length (put_segments as4_enabled segments ++ rest) in
      let len = sum_segments as4_enabled segments in
      rw
        (
          bytes,
          size,
          read_segments as4_enabled (λ n. ltb all_bytes (n + len)) segments rest
              (λ n l. lt→ltb all_bytes (n + len) (omega (arith, all, whole, l)))
              (ge→ltb all_bytes (length rest + len) (omega (arith, all, whole))) h.0,
        )
        refl

  pub as4_path_back :
      (b : Base) (segments : List AsSegment) (rest : List ℕ)
      → length rest < 2 ^ 64
      → IsPath true segments
      → decode_as4_path net b (path_len true segments) (put_path true segments ++ rest)
        ≡ ok (as4_path b segments, rest)
  unfolding decode_as4_path
  as4_path_back b segments rest room h =
      let (bytes, size) = path_sent true segments h in
      let len = sum_segments true segments in
      let whole = length (put_segments true segments ++ rest) in
      let total : whole ≡ len + length rest =
        length-append (put_segments true segments) rest
        ∙ ap (λ t. t + length rest) (length-put_segments true segments) in
      rw
        (
          bytes,
          size,
          read_segments true (remaining_above whole len) segments rest
              (λ n l. above_go whole len (length rest) n total room l)
              (above_stop whole len (length rest) total room) h.0,
        )
        refl

  pub mp_unreach_back :
      (b : Base) (f : AddressFamily) (ps : List (Prefix (IpNet N4 N6))) (rest : List ℕ)
      → length rest < 2 ^ 64
      → All (IsNlri net laws f.afi) ps
      → decode_mp_unreach net b
          (3 + sum_prefixes net ps)
          ((put_family f ++ put_prefixes net ps) ++ rest)
        ≡ ok (mp_unreach_nlri b f ps, rest)
  unfolding decode_mp_unreach
  mp_unreach_back b f ps rest room h =
      let len = 3 + sum_prefixes net ps in
      let tail = put_prefixes net ps ++ rest in
      let whole = length (put_family f ++ tail) in
      let total : whole ≡ len + length rest = omega (
        arith,
        length-append (put_family f) tail,
        length-put_family f,
        length-append (put_prefixes net ps) rest,
        length-put_prefixes net laws ps,
      ) in
      rw
        (
          append_assoc (put_family f) (put_prefixes net ps) rest,
          get_family-put_family f tail,
          read_prefixes net laws f (remaining_above whole len) ps rest
              (λ n l. above_go whole len (length rest) n total room l)
              (above_stop whole len (length rest) total room) h,
        )
        refl

  pub mp_reach_back :
      (b : Base) (f : AddressFamily) (addrs : List IpAddr) (ps : List (Prefix (IpNet N4 N6)))
      (rest : List ℕ)
      → length rest < 2 ^ 64
      → All (IsAddrOf f.afi) addrs
      → length addrs * addr_width f.afi < 256
      → All (IsNlri net laws f.afi) ps
      → decode_mp_reach net b (5 + sum_addrs addrs + sum_prefixes net ps) (
          (put_family f
            ++ put 1 (length addrs * addr_width f.afi)
            ++ put_addrs addrs
            ++ put 1 0
            ++ put_prefixes net ps)
          ++ rest)
        ≡ ok (mp_reach_nlri b f addrs ps, rest)
  unfolding decode_mp_reach
  mp_reach_back b f addrs ps rest room ha count h =
      let len = 5 + sum_addrs addrs + sum_prefixes net ps in
      let size : List ℕ = put 1 (length addrs * addr_width f.afi) in
      let tail = put_prefixes net ps ++ rest in
      let tail1 = put 1 0 ++ tail in
      let tail2 = put_addrs addrs ++ tail1 in
      let tail3 = size ++ tail2 in
      let whole = length (put_family f ++ tail3) in
      let total : whole ≡ len + length rest = omega (
        arith,
        length-append (put_family f) tail3,
        length-put_family f,
        length-append size tail2,
        length-be_bytes 1 (length addrs * addr_width f.afi) [],
        length-append (put_addrs addrs) tail1,
        length-put_addrs f.afi addrs ha,
        length-append (put 1 0) tail,
        length-be_bytes 1 0 [],
        length-append (put_prefixes net ps) rest,
        length-put_prefixes net laws ps,
      ) in
      rw
        (
          append_assoc (put_family f ++ size ++ put_addrs addrs ++ put 1 0) (put_prefixes net ps)
              rest,
          append_assoc (put_family f ++ size ++ put_addrs addrs) (put 1 0) tail,
          append_assoc (put_family f ++ size) (put_addrs addrs) tail1,
          append_assoc (put_family f) size tail2,
          get_family-put_family f tail3,
          get_be-put {E = Error} 1 (length addrs * addr_width f.afi) tail2 count,
          addr_count f.afi (length addrs),
          read_addrs-put_addrs f.afi addrs tail1 ha,
          get_be-put {E = Error} 1 0 tail (omega arith),
          read_prefixes net laws f (remaining_above whole len) ps rest
              (λ n l. above_go whole len (length rest) n total room l)
              (above_stop whole len (length rest) total room) h,
        )
        refl

  pub aggregator_back :
      (as4_enabled : Bool) (b : Base) (n : ℕ) (addr : IpAddr) (rest : List ℕ)
      → IsAsn as4_enabled n
      → IsIpAddr addr
      → decode_aggregator net as4_enabled b
          (asn_width as4_enabled + addr_len addr)
          ((put (asn_width as4_enabled) n ++ addr_bytes addr) ++ rest)
        ≡ ok (aggregator b n addr, rest)
  unfolding decode_aggregator
  aggregator_back as4_enabled b n addr rest h k =
      rw
        (
          append_assoc (put (asn_width as4_enabled) n) (addr_bytes addr) rest,
          get_asn-put as4_enabled n (addr_bytes addr ++ rest) h,
          aggregator_size as4_enabled addr,
          sized_back addr rest k,
        )
        refl
