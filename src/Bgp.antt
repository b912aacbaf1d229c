-- ===== src/Bgp.antt =====
-- sartd/src/bgp: the BGP daemon.
pub mod Error
pub mod Capability
pub mod Event
pub mod Fsm
pub mod Family
pub mod Packet
pub mod Path
pub mod Rib
