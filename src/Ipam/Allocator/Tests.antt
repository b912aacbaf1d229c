-- ===== src/Ipam/Allocator/Tests.antt =====
-- The allocator of 10.0.0.0/24, and its theorems at concrete inputs.
use sart.Common.{
  ℕ, ◌+◌, ◌^◌, ◌%◌, ◌<◌, ◌≡◌, ◌⊎◌, refl, true, false, [], ◌∷◌, ok, err, arith, replicate,
}
use sart.Net.{Ipv6Addr, IpAddr, IpNet, IsIpAddr}
use sart.Net.Sample.{sample, sample-NetLaws, sample_contains}
use sart.Ipam.BitSet.{BitSet}
use sart.Ipam.BitSet
use sart.Ipam.Allocator.{
  bit_set, full, no_releasable_address, BitAllocator, addr_to_index, index_to_addr, new, allocate,
  allocate_next, is_allocated, release,
}
use sart.Ipam.Allocator.Index.{addr_to_index-index_to_addr, index_to_addr-addr_to_index}
use sart.Ipam.Allocator.Allocate.{
  IsGood, InNet, Changed, new-IsGood, allocate_next_lem, allocate_lem, release_lem, release_drift,
}

abbrev net24 : IpNet ℕ ℕ
net24 = IpNet.v4 0

abbrev host : ℕ → IpAddr
host n = IpAddr.v4 (record { a = 10; b = 0; c = 0; d = n })

abbrev elsewhere : IpAddr
elsewhere = IpAddr.v4 (record { a = 192; b = 168; c = 0; d = 1 })

-- 10.0.0.0 and 10.0.0.2 are allocated.
abbrev used : BitAllocator ℕ ℕ
used = record { cidr = net24; allocator = record { inner = 5 ∷ 0 ∷ []; size = 256 }; allocated = 2 }

-- 10.0.0.0 is allocated.
abbrev single : BitAllocator ℕ ℕ
single = record {
  cidr = net24;
  allocator = record { inner = 1 ∷ 0 ∷ []; size = 256 };
  allocated = 1;
}

used-IsGood : IsGood sample used
used-IsGood = record {
  bits = record {
    words = omega arith;
    enough = omega arith;
    tight = omega arith;
    small = omega arith;
  };
  sized = refl;
}

single-IsGood : IsGood sample single
single-IsGood = record {
  bits = record {
    words = omega arith;
    enough = omega arith;
    tight = omega arith;
    small = omega arith;
  };
  sized = refl;
}

host_2-InNet : InNet sample used (host 2)
unfolding sample_contains
host_2-InNet = (
  record { a_byte = omega arith; b_byte = omega arith; c_byte = omega arith; d_byte = omega arith },
  refl,
)

allocate_next_lem_example :
    ((a : IpAddr) × (s' : BitAllocator ℕ ℕ) × (allocate_next sample used ≡ ok (a, s'))
      × InNet sample used a
      × (is_allocated sample used a ≡ ok false)
      × Changed sample sample-NetLaws used s' a true)
    ⊎ ((allocate_next sample used ≡ err full)
        × ((c : IpAddr) → InNet sample used c → is_allocated sample used c ≡ ok true))
allocate_next_lem_example = allocate_next_lem sample sample-NetLaws used used-IsGood

allocate_lem_example :
    ((false ≡ false)
      × (is_allocated sample used (host 2) ≡ ok true)
      × (allocate sample used (host 2) false ≡ err (bit_set BitSet.already_set)))
    ⊎ (((false ≡ true) ⊎ (is_allocated sample used (host 2) ≡ ok false))
        × ((s' : BitAllocator ℕ ℕ) × (allocate sample used (host 2) false ≡ ok (host 2, s'))
            × (s'.allocated ≡ (2 + 1) % BitSet.usize_mod)
            × Changed sample sample-NetLaws used s' (host 2) true))
allocate_lem_example =
    allocate_lem sample sample-NetLaws used used-IsGood (host 2) false host_2-InNet

release_lem_example :
    ((used.allocated ≡ 0) × (release sample used (host 2) ≡ err no_releasable_address))
    ⊎ ((s' : BitAllocator ℕ ℕ) × (release sample used (host 2) ≡ ok (host 2, s'))
        × (used.allocated ≡ s'.allocated + 1)
        × Changed sample sample-NetLaws used s' (host 2) false)
release_lem_example = release_lem sample sample-NetLaws used used-IsGood (host 2) host_2-InNet

elsewhere_outside : sample_contains net24 elsewhere ≡ false
unfolding sample_contains
elsewhere_outside = refl

host_0-InNet : InNet sample single (host 0)
unfolding sample_contains
host_0-InNet = (
  record { a_byte = omega arith; b_byte = omega arith; c_byte = omega arith; d_byte = omega arith },
  refl,
)

host_2-InNet_single : InNet sample single (host 2)
unfolding sample_contains
host_2-InNet_single = (
  record { a_byte = omega arith; b_byte = omega arith; c_byte = omega arith; d_byte = omega arith },
  refl,
)

host_0_taken : is_allocated sample single (host 0) ≡ ok true
unfolding is_allocated addr_to_index sample_contains BitSet.is_set
host_0_taken = refl

host_2_free : is_allocated sample single (host 2) ≡ ok false
unfolding is_allocated addr_to_index sample_contains BitSet.is_set
host_2_free = refl

release_drift_example :
    (s' : BitAllocator ℕ ℕ) × (release sample single (host 2) ≡ ok (host 2, s'))
    × (is_allocated sample s' (host 0) ≡ ok true)
    × (release sample s' (host 0) ≡ err no_releasable_address)
release_drift_example =
    release_drift sample sample-NetLaws single single-IsGood (host 0) (host 2) refl host_0-InNet
      host_2-InNet_single (λ e. cc) host_0_taken host_2_free

new-IsGood_example :
    IsGood sample (new sample net24)
    × ((a : IpAddr)
        → InNet sample (new sample net24) a
        → is_allocated sample (new sample net24) a ≡ ok false)
new-IsGood_example = new-IsGood sample sample-NetLaws net24 (omega arith)

addr_to_index-index_to_addr_example :
    IsIpAddr (index_to_addr sample 7 net24)
    × (sample_contains net24 (index_to_addr sample 7 net24) ≡ true)
    × (addr_to_index sample (index_to_addr sample 7 net24) net24 ≡ ok 7)
addr_to_index-index_to_addr_example =
    addr_to_index-index_to_addr sample sample-NetLaws net24 7 (omega arith)

index_to_addr-addr_to_index_example :
    (i : ℕ) × (addr_to_index sample (host 2) net24 ≡ ok i)
    × (i < 2 ^ 8)
    × (index_to_addr sample i net24 ≡ host 2)
index_to_addr-addr_to_index_example =
    index_to_addr-addr_to_index sample sample-NetLaws net24 (host 2) host_2-InNet.0 host_2-InNet.1

abbrev ones : Ipv6Addr
ones = record { octets = replicate 16 1 }
