-- ===== src/Bgp/Packet/Attribute/Values.antt =====
-- The parts of attributes that were written are read back: addresses, families and AS segments.
use sart.Common.{
  ℕ, ◌+◌, ◌*◌, ◌^◌, ◌<◌, ◌≡◌, refl, ap, ◌∙◌, subst, Bool, true, false, List, [], ◌∷◌, ◌++◌, length,
  length-append, All, ok, ◌>>=◌, arith,
}
use mathlib.Core.List.{append_assoc}
use sart.Net.{
  Ipv4Addr, Ipv6Addr, IpAddr, IsByte, IsIpv4, IsIpv6, from_value4, from_value6, be_bytes, be_value,
  value6,
}
use sart.Net.Value.{from_value4-value4, from_value6-value6}
use sart.Bgp.Error.{Error}
use sart.Bgp.Family.{Afi, Safi, AddressFamily, afi_number, safi_number, family_new}
use sart.Bgp.Packet.Attribute.{AsSegment}
use sart.Bgp.Packet.Attribute.Decode.{
  get_ipv4, get_ipv6, get_family, get_asn, get_addr, asn_width, decode_segment,
}
use sart.Bgp.Packet.Attribute.Encode.{
  put_family, put_addrs, addr_bytes, put_segment, put_segments, put_asns, sum_segments,
}
use sart.Bgp.Packet.Buffer.{get_be, put, read_times, sub_usize}
use sart.Bgp.Packet.Buffer.RoundTrip.{
  get_be-put, get_be-append, length-be_bytes, read_times-put_all, put_all,
}
use sart.Bgp.Packet.Prefix.{octets4}

pub get_ipv4-octets4 :
    (x : Ipv4Addr) (rest : List ℕ) → IsIpv4 x → get_ipv4 (octets4 x ++ rest) ≡ ok (x, rest)
unfolding get_be
get_ipv4-octets4 x rest h =
    ap (λ y. ok (y, rest)) (ap from_value4 (omega arith) ∙ from_value4-value4 x h)

pub get_ipv6-octets :
    (x : Ipv6Addr) (rest : List ℕ) → IsIpv6 x → get_ipv6 (x.octets ++ rest) ≡ ok (x, rest)
unfolding value6
get_ipv6-octets x rest h =
    subst
      (λ n.
        ◌>>=◌ {B = Ipv6Addr × List ℕ} (get_be {E = Error} n 0 (x.octets ++ rest))
          (λ r. ok (from_value6 r.0, r.1))
        ≡ ok (from_value6 (be_value 0 x.octets), rest))
      h.sixteen (rw (get_be-append {E = Error} x.octets rest 0) refl)
    ∙ ap (λ y. ok (y, rest)) (from_value6-value6 x h)

pub get_family-put_family :
    (f : AddressFamily) (rest : List ℕ) → get_family (put_family f ++ rest) ≡ ok (f, rest)
unfolding get_be be_bytes afi_number safi_number family_new
get_family-put_family f rest = go f.afi f.safi
  where
    go :
        (a : Afi) (s : Safi)
        → let f : AddressFamily = record { afi = a; safi = s } in
          get_family (put_family f ++ rest) ≡ ok (f, rest)
    go Afi.ipv4 Safi.unicast = refl
    go Afi.ipv4 Safi.multicast = refl
    go Afi.ipv6 Safi.unicast = refl
    go Afi.ipv6 Safi.multicast = refl

-- An address of the family.
abbrev pub IsAddrOf : Afi → IpAddr → Type 0
IsAddrOf Afi.ipv4 (IpAddr.v4 x) = IsIpv4 x
IsAddrOf Afi.ipv6 (IpAddr.v6 x) = IsIpv6 x
IsAddrOf Afi.ipv4 (IpAddr.v6 x) = ⊥
IsAddrOf Afi.ipv6 (IpAddr.v4 x) = ⊥

pub get_addr-addr_bytes :
    (afi : Afi) (x : IpAddr) (rest : List ℕ)
    → IsAddrOf afi x
    → get_addr afi (addr_bytes x ++ rest) ≡ ok (x, rest)
get_addr-addr_bytes Afi.ipv4 (IpAddr.v4 x) rest h = rw (get_ipv4-octets4 x rest h) refl
get_addr-addr_bytes Afi.ipv6 (IpAddr.v6 x) rest h = rw (get_ipv6-octets x rest h) refl
get_addr-addr_bytes Afi.ipv4 (IpAddr.v6 x) rest h = absurd h
get_addr-addr_bytes Afi.ipv6 (IpAddr.v4 x) rest h = absurd h

pub put_addrs-put_all :
    (afi : Afi) (xs : List IpAddr)
    → put_addrs xs ≡ put_all (IsAddrOf afi) addr_bytes (get_addr afi) xs
unfolding put_addrs
put_addrs-put_all afi [] = refl
put_addrs-put_all afi (x ∷ xs) = rw (put_addrs-put_all afi xs) refl

pub read_addrs-put_addrs :
    (afi : Afi) (xs : List IpAddr) (rest : List ℕ)
    → All (IsAddrOf afi) xs
    → read_times (length xs) (get_addr afi) (put_addrs xs ++ rest) ≡ ok (xs, rest)
read_addrs-put_addrs afi xs rest h = rw (put_addrs-put_all afi xs) (
    read_times-put_all (IsAddrOf afi) addr_bytes (get_addr afi) (get_addr-addr_bytes afi) xs rest h)

-- Numbers of the width that the peers agreed on, and segments of fewer than 256 of them.
abbrev pub IsAsn : Bool → ℕ → Type 0
IsAsn as4_enabled n = n < 256 ^ asn_width as4_enabled

pub record IsSegment (as4_enabled : Bool) (s : AsSegment) : Type 0 where
  pub type_byte : IsByte s.segment_type
  pub count_byte : IsByte (length s.segments)
  pub numbers : All (IsAsn as4_enabled) s.segments

pub get_asn-put :
    (as4_enabled : Bool) (n : ℕ) (rest : List ℕ)
    → IsAsn as4_enabled n
    → get_asn as4_enabled (put (asn_width as4_enabled) n ++ rest) ≡ ok (n, rest)
unfolding get_asn
get_asn-put true n rest h = get_be-put 4 n rest h
get_asn-put false n rest h = get_be-put 2 n rest h

module _ (as4_enabled : Bool) where
  put_asns-put_all :
      (xs : List ℕ)
      → put_asns as4_enabled xs
        ≡ put_all (IsAsn as4_enabled) (put (asn_width as4_enabled)) (get_asn as4_enabled) xs
  unfolding put_asns
  put_asns-put_all [] = refl
  put_asns-put_all (x ∷ xs) = rw (put_asns-put_all xs) refl

  pub decode_segment-put_segment :
      (s : AsSegment) (rest : List ℕ)
      → IsSegment as4_enabled s
      → decode_segment as4_enabled (put_segment as4_enabled s ++ rest) ≡ ok (s, rest)
  unfolding decode_segment put_segment
  decode_segment-put_segment s rest h =
      rw
        (
          append_assoc (put 1 s.segment_type ++ put 1 (length s.segments))
              (put_asns as4_enabled s.segments) rest,
          append_assoc (put 1 s.segment_type) (put 1 (length s.segments))
              (put_asns as4_enabled s.segments ++ rest),
          get_be-put {E = Error} 1 s.segment_type
              (put 1 (length s.segments) ++ (put_asns as4_enabled s.segments ++ rest)) h.type_byte,
          get_be-put {E = Error} 1 (length s.segments) (put_asns as4_enabled s.segments ++ rest)
              h.count_byte,
          put_asns-put_all s.segments,
          read_times-put_all (IsAsn as4_enabled) (put (asn_width as4_enabled)) (get_asn as4_enabled)
              (get_asn-put as4_enabled) s.segments rest h.numbers,
        )
        refl

  length-put_asns :
      (xs : List ℕ) → length (put_asns as4_enabled xs) ≡ asn_width as4_enabled * length xs
  unfolding put_asns
  length-put_asns [] = omega arith
  length-put_asns (x ∷ xs) = omega (
    arith,
    length-append (put (asn_width as4_enabled) x) (put_asns as4_enabled xs),
    length-be_bytes (asn_width as4_enabled) x [],
    length-put_asns xs,
  )

  pub length-put_segment :
      (s : AsSegment)
      → length (put_segment as4_enabled s) ≡ 2 + asn_width as4_enabled * length s.segments
  unfolding put_segment
  length-put_segment s = omega (
    arith,
    length-append (put 1 s.segment_type ++ put 1 (length s.segments))
        (put_asns as4_enabled s.segments),
    length-append (put 1 s.segment_type) (put 1 (length s.segments)),
    length-be_bytes 1 s.segment_type [],
    length-be_bytes 1 (length s.segments) [],
    length-put_asns s.segments,
  )

  pub length-put_segments :
      (segments : List AsSegment)
      → length (put_segments as4_enabled segments) ≡ sum_segments as4_enabled segments
  unfolding put_segments sum_segments
  length-put_segments [] = refl
  length-put_segments (s ∷ segments) = omega (
    arith,
    length-append (put_segment as4_enabled s) (put_segments as4_enabled segments),
    length-put_segment s,
    length-put_segments segments,
  )

  pub put_segments-put_all :
      (segments : List AsSegment)
      → put_segments as4_enabled segments
        ≡ put_all
            (IsSegment as4_enabled)
            (put_segment as4_enabled)
            (decode_segment as4_enabled)
            segments
  unfolding put_segments
  put_segments-put_all [] = refl
  put_segments-put_all (s ∷ segments) = rw (put_segments-put_all segments) refl

-- What stands behind a value of `length` bytes: the loops end there.
pub sub_usize_rest : (len rest : ℕ) → rest < 2 ^ 64 → sub_usize (len + rest) len ≡ rest
sub_usize_rest len rest h = omega arith
