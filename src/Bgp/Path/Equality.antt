-- ===== src/Bgp/Path/Equality.antt =====
-- `impl PartialEq for Path`: paths are equal as soon as one of their fields agrees.
use mathlib.Core.Bool.{decide}
use native.Mathlib.Decide.{ℕ_discrete}
use sart.Common.{ℕ, Bool, ◌||◌, List, ◌==◌}
use sart.Net.{IpAddr}
use sart.Net.Equality.{ipv4_eq, addr_eq}
use sart.Bgp.Family.{AddressFamily}
use sart.Bgp.Packet.Attribute.{Attribute}
use sart.Bgp.Path.{BgpPath}

unfoldable pub family_discrete : Discrete AddressFamily
family_discrete = hlevel

unfoldable pub asns_discrete : Discrete (List ℕ)
asns_discrete = hlevel ℕ_discrete

unfoldable pub hops_discrete : Discrete (List IpAddr)
hops_discrete = hlevel ℕ_discrete

module _ {N : Type 0} (net_discrete : Discrete N) where
  unfoldable pub attributes_discrete : Discrete (List (Attribute N))
  attributes_discrete = hlevel (net_discrete, ℕ_discrete)

  unfoldable pub path_eq : BgpPath N → BgpPath N → Bool
  path_eq p q =
      ipv4_eq p.local_id q.local_id
      || p.local_asn == q.local_asn
      || ipv4_eq p.peer_id q.peer_id
      || addr_eq p.peer_addr q.peer_addr
      || p.peer_asn == q.peer_asn
      || decide (family_discrete p.family q.family)
      || p.origin == q.origin
      || p.local_pref == q.local_pref
      || p.med == q.med
      || decide (asns_discrete p.as_sequence q.as_sequence)
      || decide (asns_discrete p.as_set q.as_set)
      || decide (hops_discrete p.next_hops q.next_hops)
      || decide (attributes_discrete p.propagate_attributes q.propagate_attributes)
      || decide (net_discrete p.prefix q.prefix)
