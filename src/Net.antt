-- ===== src/Net.antt =====
-- Addresses and networks as the program uses them: `std::net::IpAddr`, and the crate `ipnet`.
-- An address holds its octets. The networks of `ipnet` are types that the model is given, with the
-- operations that the program calls; `NetLaws` is what that crate documents of them.
pub mod Value
pub mod Equality
pub mod Sample
use sart.Common.{
  ℕ, zero, suc, ◌+◌, ◌-◌, ◌*◌, ◌/◌, ◌%◌, ◌^◌, ◌≤◌, ◌<◌, ◌≡◌, ◌↔◌, Bool, true, false, Option, none,
  some, List, [], ◌∷◌, length, get_elem?, All,
}

pub record Ipv4Addr : Type 0 where
  pub a : ℕ
  pub b : ℕ
  pub c : ℕ
  pub d : ℕ

pub record Ipv6Addr : Type 0 where
  pub octets : List ℕ

pub data IpAddr : Type 0 where
  v4 : Ipv4Addr → IpAddr
  v6 : Ipv6Addr → IpAddr

pub data IpNet (N4 N6 : Type 0) : Type 0 where
  v4 : N4 → IpNet N4 N6
  v6 : N6 → IpNet N4 N6

-- `u32::from_be_bytes` and `u32::to_be_bytes`.
abbrev pub value4 : Ipv4Addr → ℕ
value4 x = x.a * 2 ^ 24 + x.b * 2 ^ 16 + x.c * 2 ^ 8 + x.d

abbrev pub from_value4 : ℕ → Ipv4Addr
from_value4 n = record {
  a = n / 2 ^ 24 % 256;
  b = n / 2 ^ 16 % 256;
  c = n / 2 ^ 8 % 256;
  d = n % 256;
}

-- `to_be_bytes` of a number of `k` bytes, behind which the bytes `rest` stand.
unfoldable pub be_bytes : ℕ → ℕ → List ℕ → List ℕ
be_bytes zero n rest = rest
be_bytes (suc k) n rest = be_bytes k (n / 256) ((n % 256) ∷ rest)

-- The number whose bytes follow those of `acc`.
unfoldable pub be_value : ℕ → List ℕ → ℕ
be_value acc [] = acc
be_value acc (x ∷ xs) = be_value (acc * 256 + x) xs

unfoldable pub value6 : Ipv6Addr → ℕ
unfolding be_value
value6 x = be_value 0 x.octets

unfoldable pub from_value6 : ℕ → Ipv6Addr
unfolding be_bytes
from_value6 n = record { octets = be_bytes 16 n [] }

abbrev pub IsByte : ℕ → Type 0
IsByte x = x < 256

-- The octets are bytes, and an IPv6 address has 16 of them: what Rust's types say.
pub record IsIpv4 (x : Ipv4Addr) : Type 0 where
  pub a_byte : IsByte x.a
  pub b_byte : IsByte x.b
  pub c_byte : IsByte x.c
  pub d_byte : IsByte x.d

pub record IsIpv6 (x : Ipv6Addr) : Type 0 where
  pub sixteen : length x.octets ≡ 16
  pub bytes : All IsByte x.octets

abbrev pub IsIpAddr : IpAddr → Type 0
IsIpAddr (IpAddr.v4 x) = IsIpv4 x
IsIpAddr (IpAddr.v6 x) = IsIpv6 x

-- The calls of `ipnet`.
pub record NetOps (N4 N6 : Type 0) : Type 0 where
  pub network4 : N4 → Ipv4Addr
  pub network6 : N6 → Ipv6Addr
  pub prefix_len4 : N4 → ℕ
  pub prefix_len6 : N6 → ℕ
  pub contains : IpNet N4 N6 → IpAddr → Bool

-- A network address is an address whose host bits are 0, so the network ends within the address
-- space; `contains` holds for the addresses of the network's family in the network's range.
pub record NetLaws {N4 N6 : Type 0} (net : NetOps N4 N6) : Type 0 where
  pub prefix_len4-le : (n : N4) → net.prefix_len4 n ≤ 32
  pub prefix_len6-le : (n : N6) → net.prefix_len6 n ≤ 128
  pub network4-IsIpv4 : (n : N4) → IsIpv4 (net.network4 n)
  pub network6-IsIpv6 : (n : N6) → IsIpv6 (net.network6 n)
  pub range4 : (n : N4) → value4 (net.network4 n) + 2 ^ (32 - net.prefix_len4 n) ≤ 2 ^ 32
  pub range6 : (n : N6) → value6 (net.network6 n) + 2 ^ (128 - net.prefix_len6 n) ≤ 2 ^ 128
  pub contains4 :
      (n : N4) (x : Ipv4Addr)
      → (net.contains (IpNet.v4 n) (IpAddr.v4 x) ≡ true) ↔ (
          (value4 (net.network4 n) ≤ value4 x)
          × (value4 x < value4 (net.network4 n) + 2 ^ (32 - net.prefix_len4 n)))
  pub contains6 :
      (n : N6) (x : Ipv6Addr)
      → (net.contains (IpNet.v6 n) (IpAddr.v6 x) ≡ true) ↔ (
          (value6 (net.network6 n) ≤ value6 x)
          × (value6 x < value6 (net.network6 n) + 2 ^ (128 - net.prefix_len6 n)))
  pub contains4-v6 : (n : N4) (x : Ipv6Addr) → net.contains (IpNet.v4 n) (IpAddr.v6 x) ≡ false
  pub contains6-v4 : (n : N6) (x : Ipv4Addr) → net.contains (IpNet.v6 n) (IpAddr.v4 x) ≡ false
