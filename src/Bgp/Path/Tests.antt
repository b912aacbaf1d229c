-- ===== src/Bgp/Path/Tests.antt =====
-- A path with a long AS number, given to a peer without four-byte numbers and read back. Networks are
-- numbers.
use sart.Common.{ℕ, ◌≡◌, refl, true, false, none, [], ◌∷◌, ok, arith}
use sart.Net.{Ipv4Addr, IpAddr}
use sart.Bgp.Family.{ipv4_unicast}
use sart.Bgp.Packet.Attribute.{Prefix}
use sart.Bgp.Path.{BgpPath, BestPathReason, as_attributes}
use sart.Bgp.Path.Builder.{PathBuilder, builder, with_nlri, build}
use sart.Bgp.Path.Builder.Merge.{with_attrs, build-as_attributes}

abbrev addr : ℕ → Ipv4Addr
addr n = record { a = 10; b = 0; c = 0; d = n }

abbrev long_path : BgpPath ℕ
long_path = record {
  id = 1;
  best = true;
  reason = BestPathReason.only_path;
  timestamp = 0;
  local_id = addr 1;
  local_asn = 70000;
  peer_id = addr 2;
  peer_addr = IpAddr.v4 (addr 2);
  peer_asn = 65001;
  family = ipv4_unicast;
  origin = 0;
  local_pref = 100;
  med = 0;
  as_sequence = 65001 ∷ 70001 ∷ 65002 ∷ 70002 ∷ [];
  as_set = [];
  next_hops = IpAddr.v4 (addr 2) ∷ [];
  propagate_attributes = [];
  prefix = 0;
}

abbrev net_7 : Prefix ℕ
net_7 = record { inner = 7; path_id = none }

abbrev received : PathBuilder ℕ
received =
    with_attrs (builder (addr 3) 65003 (addr 1) (IpAddr.v4 (addr 1)) 65001)
      (as_attributes long_path false)

build-as_attributes_example :
    (q : BgpPath ℕ) × (build (λ b. 5) 9 (with_nlri received (net_7 ∷ [])) ≡ ok (q ∷ []))
    × (q.as_sequence ≡ 65001 ∷ 70001 ∷ 65002 ∷ 70002 ∷ [])
    × (q.as_set ≡ [])
    × (q.prefix ≡ 7)
build-as_attributes_example =
    build-as_attributes (λ b. 5) 9 long_path net_7 (addr 3) (addr 1) 65003 65001
      (IpAddr.v4 (addr 1)) refl (omega arith, (omega arith, (omega arith, (omega arith, tt))))
