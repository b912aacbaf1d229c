-- ===== src/Bgp/Rib/Tests.antt =====
-- A Loc-RIB with two paths to one network, and the theorems on it. Networks are numbers.
use mathlib.Core.Option.{some-injective}
use native.Mathlib.Decide.{ℕ_discrete}
use sart.Common.{
  ℕ, ◌+◌, ◌≡◌, refl, subst, ◌&&◌, false, some, List, [], ◌∷◌, Outcome, ok, arith, if◌then◌else◌,
  nat_eq, ◌==◌, Bool-cases, inl, inr,
}
use sart.Common.Dict.{lookup}
use sart.Net.{Ipv4Addr, IpAddr}
use sart.Bgp.Family.{Afi, Safi, AddressFamily, afi_eq, ipv4_unicast}
use sart.Bgp.Path.{BgpPath, BestPathReason, is_local_originated}
use sart.Bgp.Rib.{RibError, LocRibStatus}
use sart.Bgp.Rib.LocRib.{marked}
use sart.Bgp.Rib.Store.{LocRib, Table, get, paths_of, afi_key, insert, drop}
use sart.Bgp.Rib.Single.{HeadBest, IsInserted}
use sart.Bgp.Rib.Removal.{IsDropped}
use sart.Bgp.Rib.Preference.{IsFirst, local_pref_decides, as_path_overrides}
use sart.Bgp.Rib.Change.{IsSingle, Leaves, insert_lem, drop_lem}

abbrev addr : ℕ → Ipv4Addr
addr n = record { a = 10; b = 0; c = 0; d = n }

-- A path from peer `id`, not marked.
abbrev route : ℕ → ℕ → List ℕ → BgpPath ℕ
route id local_pref as_sequence = record {
  id = id;
  best = false;
  reason = BestPathReason.not_best;
  timestamp = id;
  local_id = addr 1;
  local_asn = 65000;
  peer_id = addr id;
  peer_addr = IpAddr.v4 (addr id);
  peer_asn = 65000 + id;
  family = ipv4_unicast;
  origin = 0;
  local_pref = local_pref;
  med = 0;
  as_sequence = as_sequence;
  as_set = [];
  next_hops = IpAddr.v4 (addr id) ∷ [];
  propagate_attributes = [];
  prefix = 0;
}

abbrev best : BgpPath ℕ
best = marked BestPathReason.local_pref (route 2 200 (65002 ∷ 65010 ∷ []))

abbrev table : Table ℕ
table = (0, best ∷ route 3 100 (65003 ∷ []) ∷ []) ∷ []

abbrev rib : LocRib ℕ
rib = record { table = (Afi.ipv4, table) ∷ []; multi_path = false; received = 2; dropped = 0 }

abbrev paths : List (BgpPath ℕ)
paths = best ∷ route 3 100 (65003 ∷ []) ∷ []

get-paths :
    (a : Afi) (s : Safi) (n : ℕ) (ps : List (BgpPath ℕ))
    → get (record { afi = a; safi = s }) n rib ≡ some ps
    → paths ≡ ps
unfolding get lookup afi_eq
get-paths Afi.ipv6 s n ps h = cc
get-paths Afi.ipv4 s n ps h = elim (Bool-cases (n == 0)) [
  | inl e ↦ some-injective _ _ (rw e at h)
  | inr e ↦ cc (rw e at h)
]

rib-IsSingle : IsSingle rib
rib-IsSingle = record {
  single = refl;
  marks = λ f n ps h. subst HeadBest (get-paths f.afi f.safi n ps h) (refl, (refl, tt));
}

ipv4_table : lookup Afi.ipv4 rib.table ≡ some table
unfolding lookup afi_eq
ipv4_table = refl

insert_lem_example :
    (r : LocRibStatus ℕ × BgpPath ℕ × List (BgpPath ℕ)) × (rib' : LocRib ℕ) × (insert ℕ_discrete
        ipv4_unicast
        (route 4 300 [])
        rib
      ≡ (ok (r.0, r.1), rib'))
    × IsSingle rib'
    × IsInserted ℕ_discrete (route 4 300 []) (paths_of 0 table) r
    × ((g : AddressFamily) (m : ℕ)
        → get g m rib' ≡ (if afi_eq g.afi Afi.ipv4 && (m == 0) then some r.2 else get g m rib))
    × (rib'.received ≡ 3)
insert_lem_example =
    insert_lem ℕ_discrete ipv4_unicast (route 4 300 []) rib table rib-IsSingle refl ipv4_table

drop_lem_example :
    (r : Outcome RibError (LocRibStatus ℕ × List (BgpPath ℕ))) × IsDropped 0 2 (paths_of 0 table) r
    × IsSingle (drop ipv4_unicast 0 2 rib).1
    × Leaves ipv4_unicast 0 rib r (drop ipv4_unicast 0 2 rib)
drop_lem_example = drop_lem ipv4_unicast 0 2 rib table rib-IsSingle ipv4_table

local_pref_decides_example : IsFirst ℕ_discrete (route 4 300 []) best [] BestPathReason.local_pref
local_pref_decides_example =
    local_pref_decides ℕ_discrete (route 4 300 []) best [] (refl, tt) (omega arith)

same_origin : is_local_originated (route 4 100 (65004 ∷ [])) ≡ is_local_originated best
unfolding is_local_originated
same_origin = refl

-- A local preference of 100 against 200, but one AS against two.
as_path_overrides_example :
    IsFirst ℕ_discrete (route 4 100 (65004 ∷ [])) best [] BestPathReason.as_path
as_path_overrides_example =
    as_path_overrides ℕ_discrete (route 4 100 (65004 ∷ [])) best [] (refl, tt) (omega arith)
      same_origin (omega arith)
