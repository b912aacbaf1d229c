-- ===== src/Ipam/Manager/Tests.antt =====
-- A set of two blocks and a pool, and the theorems on them at concrete inputs.
use Prim.Native.String.{String}
use sart.Common.{
  ℕ, ◌<◌, ◌≡◌, ◌≢◌, ◌⊎◌, inl, inr, refl, true, false, not, ◌&&◌, none, some, [], ◌∷◌, ok, err,
  arith, subst,
}
use mathlib.Core.Option.{some-injective}
use sart.Common.Dict.{string_eq, lookup, IsMap}
use sart.Net.{IpAddr, IpNet}
use sart.Net.Equality.{addr_eq}
use sart.Net.Sample.{sample}
use sart.Ipam.BitSet.{is_set, full}
use sart.Ipam.Allocator.{Allocator, bit_set}
use sart.Ipam.Manager.Info.{
  AllocationInfo, info_remove, info_get, holds, holds-info_remove, NoneEmpty,
}
use sart.Ipam.Manager.Blocks.{
  Block, AllocatorSetInner, set_insert, set_remove, get_blocks_from_addrs,
}
use sart.Ipam.Manager.Blocks.Lookup.{
  AutoIsBlock, set_remove-set_insert, inside, or_nil, lookup-get_blocks_from_addrs,
}
use sart.Ipam.Manager.Pool.{Pool, pool_allocate, pool_release}
use sart.Ipam.Manager.Pool.Entries.{Has, IsTracked, pool_allocate_lem, pool_release_lem}

abbrev host : ℕ → IpAddr
host n = IpAddr.v4 (record { a = 10; b = 0; c = 0; d = n })

abbrev info : AllocationInfo
info = record { blocks = ("a", host 1 ∷ host 2 ∷ []) ∷ [] }

holds-info_remove_example :
    holds (info_remove info "a" (host 1)) "a" (host 2)
    ≡ (not (string_eq.beq "a" "a" && addr_eq (host 1) (host 2)) && holds info "a" (host 2))
holds-info_remove_example = holds-info_remove info "a" (host 1) "a" (host 2)

info-NoneEmpty : NoneEmpty info
unfolding info_get lookup
info-NoneEmpty j e = ground (arith, e)

abbrev block : String → ℕ → Block ℕ ℕ
block name k = record {
  name = name;
  pool_name = "pool";
  allocator = Allocator.bit (record {
    cidr = IpNet.v4 k;
    allocator = record { inner = 0 ∷ 0 ∷ []; size = 256 };
    allocated = 0;
  });
}

abbrev two_blocks : AllocatorSetInner ℕ ℕ
two_blocks = record {
  blocks = ("a", block "a" 0) ∷ ("b", block "b" 1) ∷ [];
  alloc_info = [];
  auto_assign = some "a";
}

two_blocks-AutoIsBlock : AutoIsBlock two_blocks
unfolding lookup
two_blocks-AutoIsBlock n h =
    subst (λ m. lookup m two_blocks.blocks ≢ none) (some-injective _ _ h) (λ e. cc e)

set_remove-set_insert_example :
    (s' : AllocatorSetInner ℕ ℕ) × (set_insert two_blocks (block "c" 2) false ≡ ok (none, s'))
    × ((set_remove s' "c").0 ≡ some (block "c" 2))
    × ((j : String) → lookup j (set_remove s' "c").1.blocks ≡ lookup j two_blocks.blocks)
    × ((set_remove s' "c").1.auto_assign ≡ some "a")
    × ((set_remove s' "c").1.alloc_info ≡ [])
unfolding lookup
set_remove-set_insert_example =
    set_remove-set_insert two_blocks (block "c" 2) false two_blocks-AutoIsBlock refl (λ e. cc)

two_blocks-IsMap : IsMap two_blocks.blocks
unfolding lookup
two_blocks-IsMap = (refl, (refl, tt))

lookup-get_blocks_from_addrs_example :
    or_nil (lookup "a" (get_blocks_from_addrs sample two_blocks (host 1 ∷ host 9 ∷ [])))
    ≡ inside sample (lookup "a" two_blocks.blocks) (host 1 ∷ host 9 ∷ [])
lookup-get_blocks_from_addrs_example =
    lookup-get_blocks_from_addrs sample two_blocks (host 1 ∷ host 9 ∷ []) "a" two_blocks-IsMap

-- A pool in which one block has been cut, with index 0.
abbrev pool : Pool ℕ ℕ
pool = record {
  cidr = IpNet.v4 0;
  size = 24;
  block_size = 28;
  allocator = record { inner = 1 ∷ []; size = 16 };
  blocks = ("a", 0) ∷ [];
  counter = 1;
}

index_0_taken : is_set pool.allocator 0 ≡ ok true
unfolding is_set
index_0_taken = refl

index_3_free : is_set pool.allocator 3 ≡ ok false
unfolding is_set
index_3_free = refl

pool-IsTracked : IsTracked pool
pool-IsTracked = record {
  bits = record {
    words = omega arith;
    enough = omega arith;
    tight = omega arith;
    small = omega arith;
  };
  small = omega arith;
  below = λ n i h. elim h [ inl (e, f) ↦ rw f (omega arith) | inr h ↦ absurd h ];
  taken = λ n i h. elim h [ inl (e, f) ↦ rw f index_0_taken | inr h ↦ absurd h ];
  distinct = λ n m i h k. elim h [
    | inl (e, f) ↦ elim k [ inl (g, _) ↦ cc (e, g) | inr k ↦ absurd k ]
    | inr h ↦ absurd h
  ];
}

pool_allocate_lem_example :
    ((i : ℕ) × (p' : Pool ℕ ℕ) × (pool_allocate pool "b" ≡ ok (i, p'))
      × (is_set pool.allocator i ≡ ok false)
      × ((j : ℕ) → j < i → is_set pool.allocator j ≡ ok true)
      × Has "b" i p'.blocks
      × IsTracked p')
    ⊎ ((pool_allocate pool "b" ≡ err (bit_set full))
        × ((j : ℕ) → j < 16 → is_set pool.allocator j ≡ ok true))
pool_allocate_lem_example = pool_allocate_lem pool pool-IsTracked "b"

pool_release_lem_example :
    (p' : Pool ℕ ℕ) × (pool_release pool 0 ≡ ok p')
    × (is_set p'.allocator 0 ≡ ok false)
    × ((n : String) → ¬ Has n 0 p'.blocks)
    × IsTracked p'
pool_release_lem_example = pool_release_lem pool pool-IsTracked 0 (omega arith)
