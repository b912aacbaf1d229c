-- ===== src/Bgp/Packet/Prefix/Wire.antt =====
-- Networks that stand for those of `ipnet` in the examples: 10.1.0.0/16, 0.0.0.0/0 and ::/0.
use sart.Common.{ℕ, ◌==◌, ◌&&◌, ◌≡◌, ◌≤◌, refl, if◌then◌else◌, Option, none, some, replicate, arith}
use sart.Net.{Ipv4Addr, IsIpv4}
use sart.Bgp.Packet.Prefix.{WireOps, WireLaws}

pub data Net4 : Type 0 where
  site any4 : Net4

pub data Net6 : Type 0 where
  any6 : Net6

abbrev addr4_of : Net4 → Ipv4Addr
addr4_of site = record { a = 10; b = 1; c = 0; d = 0 }
addr4_of any4 = record { a = 0; b = 0; c = 0; d = 0 }

abbrev len4_of : Net4 → ℕ
len4_of site = 16
len4_of any4 = 0

abbrev new4_of : Ipv4Addr → ℕ → Option Net4
new4_of x len =
    if len == 16 && x.a == 10 && x.b == 1 then some site else if len == 0 then some any4 else none

abbrev pub wire : WireOps Net4 Net6
wire = record {
  new4 = new4_of;
  new6 = λ x len. if len == 0 then some any6 else none;
  addr4 = addr4_of;
  addr6 = λ n. record { octets = replicate 16 0 };
  len4 = len4_of;
  len6 = λ n. 0;
}

len4_of-le : (n : Net4) → len4_of n ≤ 32
len4_of-le site = omega arith
len4_of-le any4 = omega arith

addr4_of-IsIpv4 : (n : Net4) → IsIpv4 (addr4_of n)
addr4_of-IsIpv4 site = omega arith
addr4_of-IsIpv4 any4 = omega arith

new4_of-addr4_of : (n : Net4) → new4_of (addr4_of n) (len4_of n) ≡ some n
new4_of-addr4_of site = refl
new4_of-addr4_of any4 = refl

new6_of : (n : Net6) → wire.new6 (wire.addr6 n) (wire.len6 n) ≡ some n
new6_of any6 = refl

pub wire_laws : WireLaws wire
wire_laws = record {
  len4-le = len4_of-le;
  len6-le = λ n. omega arith;
  addr4-IsIpv4 = addr4_of-IsIpv4;
  addr6-IsIpv6 = λ n. record { sixteen = refl; bytes = ground arith };
  new4-addr4 = new4_of-addr4_of;
  new6-addr6 = new6_of;
}
