-- ===== src/Bgp/Family/Tests.antt =====
-- Address families at concrete numbers.
use sart.Common.{◌≡◌, refl, ok}
use sart.Bgp.Family.{family_new, ipv4_unicast}

family_1_1 : family_new 1 1 ≡ ok ipv4_unicast
unfolding family_new
family_1_1 = refl
