-- ===== src/Ipam/Allocator/Index.antt =====
-- `addr_to_index` and `index_to_addr`: the addresses of a network against their indices.
use sart.Common.{ℕ, ◌+◌, ◌-◌, ◌^◌, ◌<◌, ◌≡◌, refl, ap, ◌∙◌, true, false, ok, err, arith}
use sart.Net.{
  Ipv4Addr, Ipv6Addr, IpAddr, IpNet, IsIpAddr, IsIpv4, IsIpv6, NetOps, NetLaws, value4, value6,
  from_value4, from_value6,
}
use sart.Net.Value.{
  value4-from_value4, from_value4-value4, from_value4-IsIpv4, value4-lt, value6-from_value6,
  from_value6-value6, from_value6-IsIpv6, value6-lt,
}
use sart.Ipam.Allocator.{
  Error, not_contains, protocol_mistmatch, addr_to_index, index_to_addr, host_bits,
}
use sart.Ipam.Allocator.Octets.{octets_bits4-value4, octets_bits6-value6}

module _ {N4 N6 : Type 0} (net : NetOps N4 N6) (laws : NetLaws net) where
  -- The index as a distance between numbers.
  addr_to_index4 :
      (c : N4) (a : Ipv4Addr)
      → IsIpv4 a
      → net.contains (IpNet.v4 c) (IpAddr.v4 a) ≡ true
      → addr_to_index net (IpAddr.v4 a) (IpNet.v4 c) ≡ ok (value4 a - value4 (net.network4 c))
  unfolding addr_to_index
  addr_to_index4 c a h k =
      let (lo, hi) = (laws.contains4 c a).0 k in
      rw (k, octets_bits4-value4 a h, octets_bits4-value4 (net.network4 c) (laws.network4-IsIpv4 c))
        (ap ok (omega (arith, value4-lt a h)))

  addr_to_index6 :
      (c : N6) (a : Ipv6Addr)
      → IsIpv6 a
      → net.contains (IpNet.v6 c) (IpAddr.v6 a) ≡ true
      → addr_to_index net (IpAddr.v6 a) (IpNet.v6 c) ≡ ok (value6 a - value6 (net.network6 c))
  unfolding addr_to_index
  addr_to_index6 c a h k =
      let (lo, hi) = (laws.contains6 c a).0 k in
      rw (k, octets_bits6-value6 a h, octets_bits6-value6 (net.network6 c) (laws.network6-IsIpv6 c))
        (ap ok (omega (arith, value6-lt a h)))

  index_to_addr4 :
      (c : N4) (i : ℕ)
      → i < 2 ^ host_bits net (IpNet.v4 c)
      → index_to_addr net i (IpNet.v4 c) ≡ IpAddr.v4 (from_value4 (value4 (net.network4 c) + i))
  unfolding index_to_addr
  index_to_addr4 c i h =
      rw (octets_bits4-value4 (net.network4 c) (laws.network4-IsIpv4 c))
        (ap (λ n. IpAddr.v4 (from_value4 n)) (omega (arith, laws.range4 c)))

  index_to_addr6 :
      (c : N6) (i : ℕ)
      → i < 2 ^ host_bits net (IpNet.v6 c)
      → index_to_addr net i (IpNet.v6 c) ≡ IpAddr.v6 (from_value6 (value6 (net.network6 c) + i))
  unfolding index_to_addr
  index_to_addr6 c i h =
      rw (octets_bits6-value6 (net.network6 c) (laws.network6-IsIpv6 c))
        (ap (λ n. IpAddr.v6 (from_value6 n)) (omega (arith, laws.range6 c)))

  from_value4-contains :
      (c : N4) (i : ℕ)
      → i < 2 ^ host_bits net (IpNet.v4 c)
      → let n = value4 (net.network4 c) + i in
        (value4 (from_value4 n) ≡ n)
        × (net.contains (IpNet.v4 c) (IpAddr.v4 (from_value4 n)) ≡ true)
  from_value4-contains c i h =
      let n = value4 (net.network4 c) + i in
      let e : value4 (from_value4 n) ≡ n = value4-from_value4 n (omega (arith, laws.range4 c)) in
      (e, (laws.contains4 c (from_value4 n)).1 (omega (arith, e), omega (arith, e)))

  from_value6-contains :
      (c : N6) (i : ℕ)
      → i < 2 ^ host_bits net (IpNet.v6 c)
      → let n = value6 (net.network6 c) + i in
        (value6 (from_value6 n) ≡ n)
        × (net.contains (IpNet.v6 c) (IpAddr.v6 (from_value6 n)) ≡ true)
  from_value6-contains c i h =
      let n = value6 (net.network6 c) + i in
      let e : value6 (from_value6 n) ≡ n = value6-from_value6 n (omega (arith, laws.range6 c)) in
      (e, (laws.contains6 c (from_value6 n)).1 (omega (arith, e), omega (arith, e)))

  -- An index below the number of addresses stands for an address of the network, and comes back
  -- from it.
  pub addr_to_index-index_to_addr :
      (cidr : IpNet N4 N6) (i : ℕ)
      → i < 2 ^ host_bits net cidr
      → IsIpAddr (index_to_addr net i cidr)
        × (net.contains cidr (index_to_addr net i cidr) ≡ true)
        × (addr_to_index net (index_to_addr net i cidr) cidr ≡ ok i)
  addr_to_index-index_to_addr (IpNet.v4 c) i h =
      let n = value4 (net.network4 c) + i in
      let (e, k) = from_value4-contains c i h in
      let v = from_value4-IsIpv4 n in
      rw (index_to_addr4 c i h)
        (v, k, addr_to_index4 c (from_value4 n) v k ∙ ap ok (omega (arith, e)))
  addr_to_index-index_to_addr (IpNet.v6 c) i h =
      let n = value6 (net.network6 c) + i in
      let (e, k) = from_value6-contains c i h in
      let v = from_value6-IsIpv6 n in
      rw (index_to_addr6 c i h)
        (v, k, addr_to_index6 c (from_value6 n) v k ∙ ap ok (omega (arith, e)))

  -- An address of the network has an index, and comes back from it.
  pub index_to_addr-addr_to_index :
      (cidr : IpNet N4 N6) (a : IpAddr)
      → IsIpAddr a
      → net.contains cidr a ≡ true
      → (i : ℕ) × (addr_to_index net a cidr ≡ ok i)
        × (i < 2 ^ host_bits net cidr)
        × (index_to_addr net i cidr ≡ a)
  index_to_addr-addr_to_index (IpNet.v4 c) (IpAddr.v4 a) h k =
      let (lo, hi) = (laws.contains4 c a).0 k in
      let l : value4 a - value4 (net.network4 c) < 2 ^ host_bits net (IpNet.v4 c) = omega arith in
      (
        value4 a - value4 (net.network4 c),
        addr_to_index4 c a h k,
        l,
        index_to_addr4 c _ l
            ∙ ap (λ n. IpAddr.v4 (from_value4 n)) (omega arith)
            ∙ ap IpAddr.v4 (from_value4-value4 a h),
      )
  index_to_addr-addr_to_index (IpNet.v4 c) (IpAddr.v6 a) h k = cc (laws.contains4-v6 c a)
  index_to_addr-addr_to_index (IpNet.v6 c) (IpAddr.v4 a) h k = cc (laws.contains6-v4 c a)
  index_to_addr-addr_to_index (IpNet.v6 c) (IpAddr.v6 a) h k =
      let (lo, hi) = (laws.contains6 c a).0 k in
      let l : value6 a - value6 (net.network6 c) < 2 ^ host_bits net (IpNet.v6 c) = omega arith in
      (
        value6 a - value6 (net.network6 c),
        addr_to_index6 c a h k,
        l,
        index_to_addr6 c _ l
            ∙ ap (λ n. IpAddr.v6 (from_value6 n)) (omega arith)
            ∙ ap IpAddr.v6 (from_value6-value6 a h),
      )

  -- Any other address is refused.
  pub addr_to_index_outside :
      (cidr : IpNet N4 N6) (a : IpAddr)
      → net.contains cidr a ≡ false
      → (e : Error) × (addr_to_index net a cidr ≡ err e)
  unfolding addr_to_index
  addr_to_index_outside (IpNet.v4 c) (IpAddr.v4 a) h = (not_contains, rw h)
  addr_to_index_outside (IpNet.v4 c) (IpAddr.v6 a) h = (protocol_mistmatch, refl)
  addr_to_index_outside (IpNet.v6 c) (IpAddr.v4 a) h = (protocol_mistmatch, refl)
  addr_to_index_outside (IpNet.v6 c) (IpAddr.v6 a) h = (not_contains, rw h)
