-- ===== src/Bgp/Capability.antt =====
-- sartd/src/bgp/src/capability.rs: the capabilities that a speaker keeps, and their forms in a packet.
use sart.Common.{ℕ, List, Outcome, ok, panic}
use sart.Bgp.Family.{AddressFamily}
use sart.Bgp.Packet.Capability.{Cap}

-- The fields of the records that the constructors hold.
pub data Capability : Type 0 where
  multi_protocol : AddressFamily → Capability
  route_refresh : Capability
  extended_next_hop : List (AddressFamily × ℕ) → Capability
  bgp_extended_message : Capability
  graceful_restart : ℕ → ℕ → List (AddressFamily × ℕ) → Capability
  four_octet_as_number : ℕ → Capability
  add_path : AddressFamily → ℕ → Capability
  enhanced_route_refresh : Capability

-- `Capability::from`, which panics on a capability that the program does not know.
unfoldable pub from_cap : {E : Type 0} → Cap → Outcome E Capability
from_cap (Cap.multi_protocol family) = ok (Capability.multi_protocol family)
from_cap Cap.route_refresh = ok Capability.route_refresh
from_cap (Cap.extended_next_hop values) = ok (Capability.extended_next_hop values)
from_cap Cap.bgp_extended_message = ok Capability.bgp_extended_message
from_cap (Cap.graceful_restart flag time values) = ok (Capability.graceful_restart flag time values)
from_cap (Cap.four_octet_as_number asn) = ok (Capability.four_octet_as_number asn)
from_cap (Cap.add_path family sr) = ok (Capability.add_path family sr)
from_cap Cap.enhanced_route_refresh = ok Capability.enhanced_route_refresh
from_cap (Cap.unsupported code d) = panic

-- `Cap::from`
unfoldable pub to_cap : Capability → Cap
to_cap (Capability.multi_protocol family) = Cap.multi_protocol family
to_cap Capability.route_refresh = Cap.route_refresh
to_cap (Capability.extended_next_hop values) = Cap.extended_next_hop values
to_cap Capability.bgp_extended_message = Cap.bgp_extended_message
to_cap (Capability.graceful_restart flag time values) = Cap.graceful_restart flag time values
to_cap (Capability.four_octet_as_number asn) = Cap.four_octet_as_number asn
to_cap (Capability.add_path family flag) = Cap.add_path family flag
to_cap Capability.enhanced_route_refresh = Cap.enhanced_route_refresh
