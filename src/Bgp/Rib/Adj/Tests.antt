-- ===== src/Bgp/Rib/Adj/Tests.antt =====
-- An Adj-RIB with an empty table, and the theorems on it. Networks are numbers.
use sart.Common.{ℕ, ◌≡◌, refl, ◌&&◌, ◌==◌, false, none, some, [], ◌∷◌, if◌then◌else◌, ok, nat_eq}
use sart.Common.Dict.{lookup}
use sart.Net.{IpAddr}
use sart.Bgp.Family.{AddressFamily, ipv4_unicast, afi_eq}
use sart.Bgp.Path.{BgpPath, BestPathReason}
use sart.Bgp.Rib.Adj.{
  AdjRib, family_key, family_eq, safi_eq, table_new, adj_insert, adj_get, adj_remove,
}
use sart.Bgp.Rib.Adj.Contents.{adj_insert_lem, adj_remove_lem}

abbrev some_path : BgpPath ℕ
some_path = record {
  id = 1;
  best = false;
  reason = BestPathReason.not_best;
  timestamp = 0;
  local_id = record { a = 10; b = 0; c = 0; d = 1 };
  local_asn = 65000;
  peer_id = record { a = 10; b = 0; c = 0; d = 2 };
  peer_addr = IpAddr.v4 (record { a = 10; b = 0; c = 0; d = 2 });
  peer_asn = 65001;
  family = ipv4_unicast;
  origin = 0;
  local_pref = 100;
  med = 0;
  as_sequence = 65001 ∷ [];
  as_set = [];
  next_hops = [];
  propagate_attributes = [];
  prefix = 4;
}

abbrev ipv4_rib : AdjRib ℕ
ipv4_rib = (ipv4_unicast, table_new) ∷ []

ipv4_found : lookup ipv4_unicast ipv4_rib ≡ some table_new
unfolding lookup family_eq afi_eq safi_eq
ipv4_found = refl

adj_insert_lem_example :
    (rib' : AdjRib ℕ) × (adj_insert ipv4_unicast 4 some_path ipv4_rib
      ≡ ok (adj_get ipv4_unicast 4 ipv4_rib, rib'))
    × ((g : AddressFamily) (m : ℕ)
        → adj_get g m rib'
          ≡ (if family_eq g ipv4_unicast && (m == 4) then some some_path else adj_get g m ipv4_rib))
adj_insert_lem_example = adj_insert_lem ipv4_unicast 4 some_path ipv4_rib table_new ipv4_found

adj_remove_lem_example :
    ((adj_remove ipv4_unicast 4 ipv4_rib).0 ≡ adj_get ipv4_unicast 4 ipv4_rib)
    × ((g : AddressFamily) (m : ℕ)
        → adj_get g m (adj_remove ipv4_unicast 4 ipv4_rib).1
          ≡ (if family_eq g ipv4_unicast && (m == 4) then none else adj_get g m ipv4_rib))
adj_remove_lem_example = adj_remove_lem ipv4_unicast 4 ipv4_rib
