-- ===== src/Net/Sample.antt =====
-- Networks for the tests: 10.0.k.0/24 for a number k, and the /112 networks whose high part is k.
use sart.Common.{
  ℕ, ◌+◌, ◌-◌, ◌*◌, ◌%◌, ◌^◌, ◌≤◌, ◌<◌, ◌≡◌, ◌↔◌, refl, Bool, true, false, leb, ltb, ◌&&◌, arith,
}
use sart.Net.{
  Ipv4Addr, Ipv6Addr, IpAddr, IpNet, NetOps, NetLaws, value4, value6, from_value4, from_value6,
}
use sart.Net.Value.{value4-from_value4, from_value4-IsIpv4, value6-from_value6, from_value6-IsIpv6}

abbrev pub base4 : ℕ → ℕ
base4 k = 10 * 2 ^ 24 + k % 256 * 256

abbrev pub base6 : ℕ → ℕ
base6 k = k % 2 ^ 112 * 2 ^ 16

pub in_range : ℕ → ℕ → ℕ → Bool
in_range base size v = leb base v && ltb v (base + size)

unfoldable pub sample_contains : IpNet ℕ ℕ → IpAddr → Bool
unfolding in_range
sample_contains (IpNet.v4 k) (IpAddr.v4 x) = in_range (base4 k) (2 ^ 8) (value4 x)
sample_contains (IpNet.v4 k) (IpAddr.v6 x) = false
sample_contains (IpNet.v6 k) (IpAddr.v4 x) = false
sample_contains (IpNet.v6 k) (IpAddr.v6 x) = in_range (base6 k) (2 ^ 16) (value6 x)

abbrev pub sample : NetOps ℕ ℕ
sample = record {
  network4 = λ k. from_value4 (base4 k);
  network6 = λ k. from_value6 (base6 k);
  prefix_len4 = λ k. 24;
  prefix_len6 = λ k. 112;
  contains = sample_contains;
}

in_range_iff : (base size v : ℕ) → (in_range base size v ≡ true) ↔ ((base ≤ v) × (v < base + size))
unfolding in_range
in_range_iff base size v = ground arith

network4_value : (k : ℕ) → value4 (from_value4 (base4 k)) ≡ base4 k
network4_value k = value4-from_value4 (base4 k) (omega arith)

network6_value : (k : ℕ) → value6 (from_value6 (base6 k)) ≡ base6 k
network6_value k = value6-from_value6 (base6 k) (omega arith)

sample_contains4 :
    (k : ℕ) (x : Ipv4Addr)
    → (sample_contains (IpNet.v4 k) (IpAddr.v4 x) ≡ true) ↔ (
        (value4 (from_value4 (base4 k)) ≤ value4 x)
        × (value4 x < value4 (from_value4 (base4 k)) + 2 ^ (32 - 24)))
unfolding sample_contains
sample_contains4 k x = rw (network4_value k) (in_range_iff (base4 k) (2 ^ 8) (value4 x))

sample_contains6 :
    (k : ℕ) (x : Ipv6Addr)
    → (sample_contains (IpNet.v6 k) (IpAddr.v6 x) ≡ true) ↔ (
        (value6 (from_value6 (base6 k)) ≤ value6 x)
        × (value6 x < value6 (from_value6 (base6 k)) + 2 ^ (128 - 112)))
unfolding sample_contains
sample_contains6 k x = rw (network6_value k) (in_range_iff (base6 k) (2 ^ 16) (value6 x))

pub sample-NetLaws : NetLaws sample
unfolding sample_contains
sample-NetLaws = record {
  prefix_len4-le = λ k. omega arith;
  prefix_len6-le = λ k. omega arith;
  network4-IsIpv4 = λ k. from_value4-IsIpv4 (base4 k);
  network6-IsIpv6 = λ k. from_value6-IsIpv6 (base6 k);
  range4 = λ k. omega (arith, network4_value k);
  range6 = λ k. omega (arith, network6_value k);
  contains4 = sample_contains4;
  contains6 = sample_contains6;
  contains4-v6 = λ k x. refl;
  contains6-v4 = λ k x. refl;
}
