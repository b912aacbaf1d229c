-- ===== src/Bgp/Packet.antt =====
-- sartd/src/bgp/src/packet: the messages of BGP, and their form on the wire.
mod Tests
pub mod Attribute
pub mod Buffer
pub mod Prefix
pub mod Capability
pub mod Message
pub mod Codec
