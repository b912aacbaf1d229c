-- ===== src/Ipam/Allocator/Allocate.antt =====
-- The allocator on the addresses of its network: `allocate`, `allocate_next`, `release`.
use sart.Common.{
  ℕ, ◌+◌, ◌-◌, ◌%◌, ◌^◌, ◌≤◌, ◌<◌, ◌≡◌, ◌≢◌, refl, sym, ap, ◌∙◌, Bool, true, false, ok, err, arith,
  ◌⊎◌, inl, inr, if◌then◌else◌, ◌==◌, ne→==, map_err, ==_iff,
}
use native.Mathlib.Decide.{ℕ_discrete}
use native.Mathlib.Nat.{mod-eq_of_lt}
use sart.Common.Bits.{pow-lt}
use sart.Net.{IpAddr, IpNet, IsIpAddr, NetOps, NetLaws}
use sart.Ipam.BitSet.{BitSet}
use sart.Ipam.BitSet
use sart.Ipam.BitSet.Words.{IsValid}
use sart.Ipam.BitSet.Update.{set_lem, set_true_lem}
use sart.Ipam.BitSet.Search.{set_next_lem}
use sart.Ipam.BitSet.Clear.{new_lem}
use sart.Ipam.Allocator.{
  Error, bit_set, full, no_releasable_address, BitAllocator, addr_to_index, index_to_addr,
  host_bits, new, allocate, allocate_next, is_allocated, release,
}
use sart.Ipam.Allocator.Index.{
  addr_to_index-index_to_addr, index_to_addr-addr_to_index, addr_to_index_outside,
}

module _ {N4 N6 : Type 0} (net : NetOps N4 N6) where
  -- The bit set is well formed and has one index for each address of the network.
  pub record IsGood (s : BitAllocator N4 N6) : Type 0 where
    pub bits : IsValid s.allocator
    pub sized : s.allocator.size ≡ 2 ^ host_bits net s.cidr

  abbrev pub InNet : BitAllocator N4 N6 → IpAddr → Type 0
  InNet s a = IsIpAddr a × (net.contains s.cidr a ≡ true)

module _ {N4 N6 : Type 0} (net : NetOps N4 N6) (laws : NetLaws net) where
  -- What is said of `s'` after a change that concerns the address `a` alone.
  pub record Changed (s s' : BitAllocator N4 N6) (a : IpAddr) (x : Bool) : Type 0 where
    pub good : IsGood net s'
    pub same_cidr : s'.cidr ≡ s.cidr
    pub here : is_allocated net s' a ≡ ok x
    pub elsewhere :
        (c : IpAddr) → InNet net s c → c ≢ a → is_allocated net s' c ≡ is_allocated net s c

  is_allocated-is_set :
      (s : BitAllocator N4 N6) (a : IpAddr) (i : ℕ)
      → addr_to_index net a s.cidr ≡ ok i
      → is_allocated net s a ≡ map_err bit_set (BitSet.is_set s.allocator i)
  unfolding is_allocated
  is_allocated-is_set s a i e = rw (e, is_allocated)

  -- Writing the index of an address changes that address alone.
  write_index :
      (s : BitAllocator N4 N6)
      → IsGood net s
      → (a : IpAddr) (i : ℕ) (x : Bool) → addr_to_index net a s.cidr ≡ ok i
      → index_to_addr net i s.cidr ≡ a
      → (bits : BitSet) → IsValid bits
      → bits.size ≡ s.allocator.size
      → i < s.allocator.size
      → ((j : ℕ)
          → j < s.allocator.size
          → BitSet.is_set bits j ≡ (if i == j then ok x else BitSet.is_set s.allocator j))
      → (n : ℕ) → Changed s (record s { allocator = bits; allocated = n }) a x
  write_index s g a i x e back bits v size l reads n = record {
    good = record { bits = v; sized = size ∙ g.sized };
    same_cidr = refl;
    here =
        is_allocated-is_set (record s { allocator = bits; allocated = n }) a i e
        ∙ rw (reads i l, (==_iff i i).1 refl) refl;
    elsewhere = λ c inside other.
        let (j, f, k, back') = index_to_addr-addr_to_index net laws s.cidr c inside.0 inside.1 in
        let apart : i ≢ j =
          λ same. other (sym back' ∙ ap (λ m. index_to_addr net m s.cidr) (sym same) ∙ back) in
        is_allocated-is_set (record s { allocator = bits; allocated = n }) c j f
        ∙ rw (reads j (rw g.sized k), ne→== i j apart) (sym (is_allocated-is_set s c j f));
  }

  -- A network of at most 32 host bits has a good allocator, with nothing allocated.
  pub new-IsGood :
      (cidr : IpNet N4 N6)
      → host_bits net cidr ≤ 32
      → IsGood net (new net cidr)
        × ((a : IpAddr) → InNet net (new net cidr) a → is_allocated net (new net cidr) a ≡ ok false)
  unfolding new
  new-IsGood cidr h =
      let (v, size, unset, _) =
        new_lem (2 ^ host_bits net cidr) (pow-lt (host_bits net cidr) 64 (omega arith)) in
      let exact : 2 ^ host_bits net cidr % 2 ^ 128 ≡ 2 ^ host_bits net cidr =
        mod-eq_of_lt (pow-lt (host_bits net cidr) 128 (omega arith)) in
      let s : BitAllocator N4 N6 = record {
        cidr = cidr;
        allocator = BitSet.new (2 ^ host_bits net cidr);
        allocated = 0;
      } in
      rw exact (
        record { bits = v; sized = size },
        λ a inside.
            let (i, e, l, _) = index_to_addr-addr_to_index net laws cidr a inside.0 inside.1 in
            is_allocated-is_set s a i e ∙ rw (unset i l) refl,
      )

  -- In a good allocator, `allocate_next` hands out an address of the network that was free; the
  -- other addresses stay as they were, and the allocator stays good. It is `full` only if every
  -- address of the network is allocated.
  pub allocate_next_lem :
      (s : BitAllocator N4 N6)
      → IsGood net s
      → ((a : IpAddr) × (s' : BitAllocator N4 N6) × (allocate_next net s ≡ ok (a, s'))
          × InNet net s a
          × (is_allocated net s a ≡ ok false)
          × Changed s s' a true)
        ⊎ ((allocate_next net s ≡ err full)
            × ((c : IpAddr) → InNet net s c → is_allocated net s c ≡ ok true))
  unfolding allocate_next
  allocate_next_lem s g = elim (set_next_lem g.bits) [
    | inl (i, bits, e, v, size, l, free, before, reads) ↦
        let (addr, inside, f) = addr_to_index-index_to_addr net laws s.cidr i (rw (← g.sized) l) in
        inl (
          index_to_addr net i s.cidr,
          record s { allocator = bits; allocated = (s.allocated + 1) % BitSet.usize_mod },
          rw e refl,
          (addr, inside),
          is_allocated-is_set s _ i f ∙ rw free refl,
          write_index s g _ i true f refl bits v size l reads _,
        )
    | inr (e, all_set) ↦ inr (
      rw e refl,
      λ c inside.
          let (j, f, k, _) = index_to_addr-addr_to_index net laws s.cidr c inside.0 inside.1 in
          is_allocated-is_set s c j f ∙ rw (all_set j (rw g.sized k)) refl,
    )
  ]

  -- In a good allocator, for an address of the network, `allocate` without `force` refuses an
  -- address that is allocated, and otherwise takes that address alone; with `force` it takes it
  -- in both cases. The count grows by one, and the allocator stays good.
  pub allocate_lem :
      (s : BitAllocator N4 N6)
      → IsGood net s
      → (a : IpAddr) (force : Bool) → InNet net s a
      → ((force ≡ false)
          × (is_allocated net s a ≡ ok true)
          × (allocate net s a force ≡ err (bit_set BitSet.already_set)))
        ⊎ (((force ≡ true) ⊎ (is_allocated net s a ≡ ok false))
            × ((s' : BitAllocator N4 N6) × (allocate net s a force ≡ ok (a, s'))
                × (s'.allocated ≡ (s.allocated + 1) % BitSet.usize_mod)
                × Changed s s' a true))
  unfolding allocate
  allocate_lem s g a true inside =
      let (i, e, l, back) = index_to_addr-addr_to_index net laws s.cidr a inside.0 inside.1 in
      let l' : i < s.allocator.size = rw g.sized l in
      let (bits, f, v, size, reads) = set_lem g.bits i true l' in
      inr (
        inl refl,
        (
          record s { allocator = bits; allocated = (s.allocated + 1) % BitSet.usize_mod },
          rw (e, f) refl,
          refl,
          write_index s g a i true e back bits v size l' reads _,
        ),
      )
  allocate_lem s g a false inside =
      let (i, e, l, back) = index_to_addr-addr_to_index net laws s.cidr a inside.0 inside.1 in
      let l' : i < s.allocator.size = rw g.sized l in
      let (bits, f, v, size, reads) = set_lem g.bits i true l' in
      elim (set_true_lem g.bits i l') [
        | inl (taken, refused) ↦
            inl (refl, is_allocated-is_set s a i e ∙ rw taken refl, rw (e, refused) refl)
        | inr (free, same) ↦ inr (
          inr (is_allocated-is_set s a i e ∙ rw free refl),
          (
            record s { allocator = bits; allocated = (s.allocated + 1) % BitSet.usize_mod },
            rw (e, same, f) refl,
            refl,
            write_index s g a i true e back bits v size l' reads _,
          ),
        )
      ]

  -- In a good allocator, `release` frees an address of the network alone, allocated or not, and
  -- counts one address less; it is refused when the count is 0. The allocator stays good.
  pub release_lem :
      (s : BitAllocator N4 N6)
      → IsGood net s
      → (a : IpAddr) → InNet net s a
      → ((s.allocated ≡ 0) × (release net s a ≡ err no_releasable_address))
        ⊎ ((s' : BitAllocator N4 N6) × (release net s a ≡ ok (a, s'))
            × (s.allocated ≡ s'.allocated + 1)
            × Changed s s' a false)
  unfolding release
  release_lem s g a inside = elim (ℕ_discrete s.allocated 0) [
    | yes none_left ↦ inl (none_left, ground arith)
    | no some_left ↦
        let (i, e, l, back) = index_to_addr-addr_to_index net laws s.cidr a inside.0 inside.1 in
        let l' : i < s.allocator.size = rw g.sized l in
        let (bits, f, v, size, reads) = set_lem g.bits i false l' in
        inr (
          record s { allocator = bits; allocated = s.allocated - 1 },
          rw (ne→== s.allocated 0 some_left, e, f) refl,
          omega arith,
          write_index s g a i false e back bits v size l' reads _,
        )
  ]

  -- An address outside the network is refused by each operation, and is not allocated.
  pub outside_lem :
      (s : BitAllocator N4 N6) (a : IpAddr) (force : Bool)
      → net.contains s.cidr a ≡ false
      → (is_allocated net s a ≡ ok false)
        × ((e : Error) × (allocate net s a force ≡ err e))
        × ((e : Error) × (release net s a ≡ err e))
  unfolding is_allocated allocate release
  outside_lem s a force h =
      let (e, f) = addr_to_index_outside net laws s.cidr a h in
      (
        rw (f, is_allocated),
        (e, rw f),
        elim (ℕ_discrete s.allocated 0) [
          | yes none_left ↦ (no_releasable_address, ground arith)
          | no some_left ↦ (e, rw (ne→== s.allocated 0 some_left, f))
        ],
      )

  -- The count is not the number of allocated addresses. When it is 1, the release of a free
  -- address succeeds, and the one address that is allocated can then not be released.
  pub release_drift :
      (s : BitAllocator N4 N6)
      → IsGood net s
      → (a c : IpAddr) → s.allocated ≡ 1
      → InNet net s a
      → InNet net s c
      → a ≢ c
      → is_allocated net s a ≡ ok true
      → is_allocated net s c ≡ ok false
      → (s' : BitAllocator N4 N6) × (release net s c ≡ ok (c, s'))
        × (is_allocated net s' a ≡ ok true)
        × (release net s' a ≡ err no_releasable_address)
  release_drift s g a c one ina inc apart taken free = elim (release_lem s g c inc) [
    | inl (zero_left, e) ↦ absurd (omega arith)
    | inr (s', e, count, ch) ↦
        (s', e, ch.elsewhere a ina apart ∙ taken, unfold release in ground (arith, one, count))
  ]
