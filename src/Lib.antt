-- ===== src/Lib.antt =====
-- Verification of sart, a Kubernetes network plugin with its own BGP speaker.
--
-- The daemon `sartd` has three parts that decide by themselves, and the rest of the repository
-- connects them to Kubernetes, to Linux and to gRPC: the address management of the crate
-- `sartd/src/ipam`, from which the controllers and the agents take addresses; the BGP speaker of
-- the crate `sartd/src/bgp`; and the forwarding daemon of the crate `sartd/src/fib`. The first,
-- the core of the second and the routes of the third are modelled here.
--
-- - Common: tests, lists, results with errors and panics, maps, and bits of a word. A `HashMap` is
--   the list of its entries; the order of the list stands for the order of iteration.
-- - Net: the addresses of `std::net`, and the crate `ipnet` as a record of operations (`NetOps`)
--   with what the program relies on (`NetLaws`): the range of addresses of a network, and
--   membership. Net/Sample instantiates the two with the networks 10.0.k.0/24 and some /112.
-- - Ipam/BitSet: `sartd/src/ipam/src/bitset.rs`. A word is a number below 2 ^ 128, and an index that
--   is cut to `usize` is taken modulo 2 ^ 64. An access out of bounds is the outcome `panic`. A set is
--   well formed if its words are as many as the size needs and none is too long (`IsValid`).
-- - Ipam/Allocator: `sartd/src/ipam/src/allocator.rs` and `error.rs`, the addresses of one network
--   over a bit set. `Allocator` has one method, so its calls are those of `BitAllocator`. An allocator
--   is good if its bit set is well formed and has one index for each address (`IsGood`).
-- - Ipam/Manager: `sartd/src/ipam/src/manager.rs`. Info is `AllocationInfo`, Blocks is
--   `AllocatorSetInner`, Pool is `Pool`, each method by its name with a prefix where the names
--   would clash (`pool_allocate` is `Pool::allocate`). Each object stands behind a mutex. A pool is
--   well formed if its entries have distinct indices, each below the size and set (`IsTracked`).
-- - Bgp/Event, Bgp/Fsm: the event numbers of `sartd/src/bgp/src/event.rs` and the state machine of a
--   peer, `sartd/src/bgp/src/peer/fsm.rs`.
-- - Bgp/Family: `sartd/src/bgp/src/family.rs`.
-- - Bgp/Error: the errors of the packet formats, of `sartd/src/bgp/src/error.rs`. Bgp/Capability:
--   `sartd/src/bgp/src/capability.rs`.
-- - Bgp/Packet: the formats of `sartd/src/bgp/src/packet`. Buffer is the buffer of the crate `bytes` as
--   the list of its bytes: a decoder takes them from the front, and an encoder is the list that it
--   writes. Prefix is `prefix.rs`, with the networks of `ipnet` as a record of operations (`WireOps`) and
--   its laws (`WireLaws`), which Prefix/Wire instantiates. Attribute is `attribute.rs`, with its
--   children Decode and Encode; Capability is `capability.rs`; Message is `message.rs`, with
--   `MessageBuilder` in Message/Builder; Codec is `codec.rs`, decoding in Codec and encoding in
--   Codec/Encode. The other children hold the proofs. A loop `while data.remaining() > ...` is recursion
--   on a fuel of one more than the number of bytes, and each round takes one at least.
-- - Bgp/Path: `sartd/src/bgp/src/path.rs`, the path and its methods, with `PartialEq` in
--   Bgp/Path/Equality. Bgp/Path/Builder is `PathBuilder`, its setters with the prefix `with_`; the hash
--   that gives a path its identifier and the time are parameters.
-- - Bgp/Rib: `sartd/src/bgp/src/rib.rs`. Bgp/Rib has the comparisons of two paths and the loops over
--   them; LocRib is `LocRib::insert` and Withdraw is `LocRib::drop` on the paths of one network;
--   Store is the whole `LocRib` with its counters; Adj is `AdjRib` with its `Table`.
--   Single, Removal, Preference and Change are about what `LocRib` does, Adj/Contents about `AdjRib`.
--
-- - Fib/Route, Fib/Rib: `sartd/src/fib/src/route.rs` and `rib.rs`, the routes of the forwarding daemon,
--   which are sorted by their administrative distance, with the calls of a channel on its table
--   (`channel.rs`). Fib/Server: the loop of `sartd/src/fib/src/server.rs` over the requests of a
--   channel. Route/Multipath, Rib/Order, Rib/Contents and Server/Invariant hold the proofs.
--
-- A function that changes an object takes the old one and returns the new one. A function that
-- fails returns an `Outcome`; `LocRib` changes on some error paths, so there the state stands beside
-- the outcome. Arithmetic that the compiler checks in debug builds wraps, as in release builds, and
-- the width is written out. The other loops are recursion on the list, or on the number of rounds of
-- the source's range.
--
-- Not modelled: the tasks that run the peers and the RIB manager, the links of the forwarding
-- daemon to the kernel and to its peers, the Kubernetes controllers, agents and webhooks, the
-- command line tools, the generated
-- gRPC code, certificates and tracing. The counters of `LocRib` do not wrap. Calls of
-- `tracing` have no effect on a result and are left out.
pub mod Common
pub mod Net
pub mod Ipam
pub mod Bgp
pub mod Fib
