-- ===== src/Ipam.antt =====
-- sartd/src/ipam: the allocation of addresses out of blocks, and of blocks out of pools.
pub mod BitSet
pub mod Allocator
pub mod Manager
