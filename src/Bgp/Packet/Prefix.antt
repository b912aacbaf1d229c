-- ===== src/Bgp/Packet/Prefix.antt =====
-- sartd/src/bgp/src/packet/prefix.rs: prefixes on the wire. The networks are those of `ipnet`.
pub mod Wire
pub mod RoundTrip
use sart.Common.{
  ℕ, zero, suc, ◌+◌, ◌/◌, ◌%◌, ◌≤◌, ◌<◌, ◌≡◌, ◌==◌, Bool, true, false, Option, none, some, List, [],
  ◌∷◌, ◌++◌, if◌then◌else◌, length, get_or, replicate, Outcome, ok, err, panic, ok_or, ◌>>=◌,
}
use sart.Net.{Ipv4Addr, Ipv6Addr, IpNet, IsIpv4, IsIpv6}
use sart.Bgp.Error.{Error, update_message, invalid_network_field}
use sart.Bgp.Family.{Afi, AddressFamily}
use sart.Bgp.Packet.Attribute.{Prefix}
use sart.Bgp.Packet.Buffer.{Reader, get_u8, get_u32, get_be, put, take_bytes}

-- `Ipv4Net::new`, `addr` and `prefix_len`, and those of `Ipv6Net`.
pub record WireOps (N4 N6 : Type 0) : Type 0 where
  pub new4 : Ipv4Addr → ℕ → Option N4
  pub new6 : Ipv6Addr → ℕ → Option N6
  pub addr4 : N4 → Ipv4Addr
  pub addr6 : N6 → Ipv6Addr
  pub len4 : N4 → ℕ
  pub len6 : N6 → ℕ

-- `new` builds a network from an address and a length in range, which it gives back.
pub record WireLaws {N4 N6 : Type 0} (net : WireOps N4 N6) : Type 0 where
  pub len4-le : (n : N4) → net.len4 n ≤ 32
  pub len6-le : (n : N6) → net.len6 n ≤ 128
  pub addr4-IsIpv4 : (n : N4) → IsIpv4 (net.addr4 n)
  pub addr6-IsIpv6 : (n : N6) → IsIpv6 (net.addr6 n)
  pub new4-addr4 : (n : N4) → net.new4 (net.addr4 n) (net.len4 n) ≡ some n
  pub new6-addr6 : (n : N6) → net.new6 (net.addr6 n) (net.len6 n) ≡ some n

unfoldable pub prefix_bytes_len : ℕ → ℕ
prefix_bytes_len prefix_len = if prefix_len % 8 == 0 then prefix_len / 8 else 1 + prefix_len / 8

-- `let mut b = [0u8; room]; for i in 0..count { b[i] = data.get_u8(); }`
unfoldable pub fill : {E : Type 0} → ℕ → ℕ → Reader E (List ℕ)
fill room zero d = ok (replicate room 0, d)
fill zero (suc count) d = panic
fill (suc room) (suc count) [] = panic
fill (suc room) (suc count) (x ∷ d) = fill room count d >>= λ r. ok (x ∷ r.0, r.1)

abbrev pub from_octets4 : List ℕ → Ipv4Addr
from_octets4 os = record {
  a = get_or os 0 0;
  b = get_or os 1 0;
  c = get_or os 2 0;
  d = get_or os 3 0;
}

abbrev pub octets4 : Ipv4Addr → List ℕ
octets4 x = x.a ∷ x.b ∷ x.c ∷ x.d ∷ []

abbrev pub path_id_bytes : Option ℕ → List ℕ
path_id_bytes none = []
path_id_bytes (some id) = put 4 id

abbrev pub get_path_id : Bool → Reader Error (Option ℕ)
get_path_id true d = get_u32 d >>= λ r. ok (some r.0, r.1)
get_path_id false d = ok (none, d)

module _ {N4 N6 : Type 0} (net : WireOps N4 N6) where
  unfoldable pub decode_net : Afi → ℕ → Reader Error (IpNet N4 N6)
  unfolding prefix_bytes_len fill
  decode_net Afi.ipv4 length d = fill 4 (prefix_bytes_len length) d >>= λ r.
      ok_or (update_message invalid_network_field) (net.new4 (from_octets4 r.0) length) >>= λ n.
      ok (IpNet.v4 n, r.1)
  decode_net Afi.ipv6 length d = fill 16 (prefix_bytes_len length) d >>= λ r.
      ok_or (update_message invalid_network_field) (net.new6 (record { octets = r.0 }) length)
      >>= λ n. ok (IpNet.v6 n, r.1)

  unfoldable pub decode_prefix : AddressFamily → Bool → Reader Error (Prefix (IpNet N4 N6))
  unfolding get_be decode_net
  decode_prefix family add_path_enabled d = get_path_id add_path_enabled d >>= λ p.
      get_u8 p.1 >>= λ l.
      decode_net family.afi l.0 l.1 >>= λ n. ok (record { inner = n.0; path_id = p.0 }, n.1)

  unfoldable pub net_bytes : IpNet N4 N6 → List ℕ
  unfolding take_bytes prefix_bytes_len
  net_bytes (IpNet.v4 n) =
      put 1 (net.len4 n) ++ (take_bytes (prefix_bytes_len (net.len4 n)) (octets4 (net.addr4 n))).0
  net_bytes (IpNet.v6 n) =
      put 1 (net.len6 n) ++ (take_bytes (prefix_bytes_len (net.len6 n)) (net.addr6 n).octets).0

  unfoldable pub encode_prefix : Prefix (IpNet N4 N6) → List ℕ
  unfolding net_bytes
  encode_prefix p = path_id_bytes p.path_id ++ net_bytes p.inner

  abbrev pub net_len : IpNet N4 N6 → ℕ
  net_len (IpNet.v4 n) = net.len4 n
  net_len (IpNet.v6 n) = net.len6 n

  abbrev pub id_len : Option ℕ → ℕ
  id_len none = 1
  id_len (some id) = 5

  unfoldable pub prefix_len : Prefix (IpNet N4 N6) → ℕ
  unfolding prefix_bytes_len
  prefix_len p = id_len p.path_id + prefix_bytes_len (net_len p.inner)
