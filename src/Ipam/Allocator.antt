-- ===== src/Ipam/Allocator.antt =====
-- sartd/src/ipam/src/allocator.rs: addresses of one network handed out by a bit set, and
-- sartd/src/ipam/src/error.rs. The networks of the crate `ipnet` are the section's parameters.
pub mod Octets
pub mod Index
pub mod Allocate
mod Tests
use sart.Common.{
  ℕ, zero, suc, ◌+◌, ◌-◌, ◌*◌, ◌/◌, ◌%◌, ◌^◌, Bool, true, false, not, List, if◌then◌else◌, ltb,
  ◌==◌, get_or, Outcome, ok, err, panic, map_err, ◌>>=◌,
}
use sart.Net.{Ipv4Addr, Ipv6Addr, IpAddr, IpNet, NetOps, from_value4, from_value6}
use sart.Ipam.BitSet.{BitSet, BitSetError}
use sart.Ipam.BitSet

pub data Error : Type 0 where
  bit_set : BitSetError → Error
  protocol_mistmatch : Error
  not_contains : Error
  no_releasable_address : Error
  cidr_too_large : ℕ → Error
  full : Error
  block_not_found : Error
  auto_assignable_block_already_exists : Error

pub data AllocatorMethod : Type 0 where
  bit : AllocatorMethod

pub record BitAllocator (N4 N6 : Type 0) : Type 0 where
  pub cidr : IpNet N4 N6
  pub allocator : BitSet
  pub allocated : ℕ

pub data Allocator (N4 N6 : Type 0) : Type 0 where
  bit : BitAllocator N4 N6 → Allocator N4 N6

-- The sum of shifted octets, as a `u32`.
unfoldable pub octets_bits4 : Ipv4Addr → ℕ
octets_bits4 x = (x.d + x.c * 2 ^ 8 + x.b * 2 ^ 16 + x.a * 2 ^ 24) % 2 ^ 32

-- `for i in 0..16 { bits += (octs[15 - i] as u128) << (i * 8); }`, with `count` rounds left.
unfoldable pub octets_loop : ℕ → ℕ → List ℕ → ℕ → ℕ
octets_loop zero i octs bits = bits
octets_loop (suc count) i octs bits =
    octets_loop count (i + 1) octs ((bits + get_or octs (15 - i) 0 * 2 ^ (i * 8)) % 2 ^ 128)

unfoldable pub octets_bits6 : Ipv6Addr → ℕ
unfolding octets_loop
octets_bits6 x = octets_loop 16 0 x.octets 0

module _ {N4 N6 : Type 0} (net : NetOps N4 N6) where
  unfoldable pub addr_to_index : IpAddr → IpNet N4 N6 → Outcome Error ℕ
  unfolding octets_bits4 octets_bits6
  addr_to_index (IpAddr.v4 a) (IpNet.v4 c) =
      let min_bits = octets_bits4 (net.network4 c) in
      if not (net.contains (IpNet.v4 c) (IpAddr.v4 a))
      then err not_contains
      else ok ((octets_bits4 a + 2 ^ 32 - min_bits) % 2 ^ 32)
  addr_to_index (IpAddr.v6 a) (IpNet.v4 c) = err protocol_mistmatch
  addr_to_index (IpAddr.v4 a) (IpNet.v6 c) = err protocol_mistmatch
  addr_to_index (IpAddr.v6 a) (IpNet.v6 c) =
      if not (net.contains (IpNet.v6 c) (IpAddr.v6 a))
      then err not_contains
      else ok ((octets_bits6 a + 2 ^ 128 - octets_bits6 (net.network6 c)) % 2 ^ 128)

  unfoldable pub index_to_addr : ℕ → IpNet N4 N6 → IpAddr
  unfolding octets_bits4 octets_bits6
  index_to_addr index (IpNet.v4 c) =
      IpAddr.v4 (from_value4 ((octets_bits4 (net.network4 c) + index % 2 ^ 32) % 2 ^ 32))
  index_to_addr index (IpNet.v6 c) =
      IpAddr.v6 (from_value6 ((octets_bits6 (net.network6 c) + index) % 2 ^ 128))

  -- The number of host bits, and the length of the prefix.
  abbrev pub host_bits : IpNet N4 N6 → ℕ
  host_bits (IpNet.v4 c) = 32 - net.prefix_len4 c
  host_bits (IpNet.v6 c) = 128 - net.prefix_len6 c

  abbrev pub net_prefix_len : IpNet N4 N6 → ℕ
  net_prefix_len (IpNet.v4 c) = net.prefix_len4 c
  net_prefix_len (IpNet.v6 c) = net.prefix_len6 c

  unfoldable pub new : IpNet N4 N6 → BitAllocator N4 N6
  new cidr = record {
    cidr = cidr;
    allocator = BitSet.new (2 ^ host_bits cidr % 2 ^ 128);
    allocated = 0;
  }

  unfoldable pub prefix_len : BitAllocator N4 N6 → ℕ
  prefix_len s = net_prefix_len s.cidr

  unfoldable pub size : BitAllocator N4 N6 → ℕ
  size s = s.allocator.size

  unfoldable pub allocate :
      BitAllocator N4 N6 → IpAddr → Bool → Outcome Error (IpAddr × BitAllocator N4 N6)
  allocate s addr force = do
    idx ← addr_to_index addr s.cidr
    (_, bits) ←
        map_err bit_set
          (if force then BitSet.set s.allocator idx true else BitSet.set_true s.allocator idx)
    ok (addr, record s { allocator = bits; allocated = (s.allocated + 1) % BitSet.usize_mod })

  abbrev next_error : BitSetError → Error
  next_error BitSet.full = full
  next_error BitSet.invalid_index = bit_set BitSet.invalid_index
  next_error BitSet.already_set = bit_set BitSet.already_set

  unfoldable pub allocate_next : BitAllocator N4 N6 → Outcome Error (IpAddr × BitAllocator N4 N6)
  allocate_next s = do
    (index, bits) ← map_err next_error (BitSet.set_next s.allocator)
    ok (
      index_to_addr index s.cidr,
      record s { allocator = bits; allocated = (s.allocated + 1) % BitSet.usize_mod },
    )

  unfoldable pub is_allocated : BitAllocator N4 N6 → IpAddr → Outcome Error Bool
  is_allocated s addr = elim (addr_to_index addr s.cidr) [
    | ok i ↦ map_err bit_set (BitSet.is_set s.allocator i)
    | err e ↦ ok false
    | panic ↦ panic
  ]

  unfoldable pub is_empty : BitAllocator N4 N6 → Bool
  is_empty s = BitSet.is_empty s.allocator

  unfoldable pub is_full : BitAllocator N4 N6 → Bool
  is_full s = BitSet.is_full s.allocator

  unfoldable pub release : BitAllocator N4 N6 → IpAddr → Outcome Error (IpAddr × BitAllocator N4 N6)
  release s addr = if s.allocated == 0 then err no_releasable_address else do
    idx ← addr_to_index addr s.cidr
    (_, bits) ← map_err bit_set (BitSet.set s.allocator idx false)
    ok (addr, record s { allocator = bits; allocated = s.allocated - 1 })

  -- `Allocator::new`; its other methods pass the call on to the one method there is.
  unfoldable pub new_allocator : IpNet N4 N6 → AllocatorMethod → Outcome Error (Allocator N4 N6)
  new_allocator (IpNet.v4 c) AllocatorMethod.bit = ok (Allocator.bit (new (IpNet.v4 c)))
  new_allocator (IpNet.v6 c) AllocatorMethod.bit =
      if ltb 32 (128 - net.prefix_len6 c)
      then err (cidr_too_large (net.prefix_len6 c))
      else ok (Allocator.bit (new (IpNet.v6 c)))
