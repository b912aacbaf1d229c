-- ===== src/Ipam/Manager.antt =====
-- sartd/src/ipam/src/manager.rs: which addresses were taken from which block (`Info`), the blocks
-- with their allocators (`Blocks`), and the pools that blocks are cut from (`Pool`).
-- Each object stands behind a mutex, so its methods run one at a time.
pub mod Info
pub mod Blocks
pub mod Pool
mod Tests
