-- ===== src/Fib.antt =====
-- sartd/src/fib: the forwarding daemon, which chooses the routes that the kernel gets.
pub mod Route
pub mod Rib
pub mod Server
mod Tests
