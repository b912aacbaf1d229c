-- ===== src/Ipam/Manager/Blocks.antt =====
-- `AllocatorSetInner`: the blocks by name, and the one that serves requests that name none.
pub mod Lookup
use Prim.Native.String.{String}
use sart.Common.{
  ◌≡◌, ◌≢◌, refl, Bool, true, false, not, ◌&&◌, ◌||◌, Option, none, some, List, [], ◌∷◌, ◌++◌,
  if◌then◌else◌, arith, Outcome, ok, err, ◌>>=◌, Option-cases, Bool-cases, inl, inr,
}
use sart.Common.Dict.{Dict, string_eq, lookup, insert, remove, IsMap, lookup-insert, lookup-remove}
use sart.Common.Dict
use text.Mathlib.TextEquality.{eq_iff}
use sart.Net.{IpAddr, IpNet, NetOps}
use sart.Ipam.Allocator.{
  Allocator, AllocatorMethod, BitAllocator, Error, auto_assignable_block_already_exists,
  new_allocator,
}
use sart.Ipam.Manager.Info.{AllocationInfo}

pub record Block (N4 N6 : Type 0) : Type 0 where
  pub name : String
  pub pool_name : String
  pub allocator : Allocator N4 N6

pub record AllocatorSetInner (N4 N6 : Type 0) : Type 0 where
  pub blocks : Dict String (Block N4 N6)
  pub alloc_info : Dict String AllocationInfo
  pub auto_assign : Option String

-- One more address under a block's name.
unfoldable pub push_addr : String → IpAddr → Dict String (List IpAddr) → Dict String (List IpAddr)
push_addr name addr res = elim (lookup name res) [
  | some a ↦ insert name (a ++ (addr ∷ [])) res
  | none ↦ insert name (addr ∷ []) res
]

abbrev is_some : Option String → Bool
is_some none = false
is_some (some n) = true

abbrev unassign : String → Option String → Option String
unassign name none = none
unassign name (some a) = if string_eq.beq a name then none else some a

module _ {N4 N6 : Type 0} where
  -- `Allocator::cidr`
  abbrev pub block_cidr : Block N4 N6 → IpNet N4 N6
  block_cidr b = elim b.allocator [ Allocator.bit s ↦ s.cidr ]

  unfoldable pub block_new :
      NetOps N4 N6 → String → String → IpNet N4 N6 → Outcome Error (Block N4 N6)
  block_new net name pool_name cidr = do
    a ← new_allocator net cidr AllocatorMethod.bit
    ok (record { name = name; pool_name = pool_name; allocator = a })

  unfoldable pub set_insert :
      AllocatorSetInner N4 N6
      → Block N4 N6
      → Bool
      → Outcome Error (Option (Block N4 N6) × AllocatorSetInner N4 N6)
  set_insert s b auto =
      if auto && is_some s.auto_assign
      then err auto_assignable_block_already_exists
      else ok (
        lookup b.name s.blocks,
        record s {
          blocks = insert b.name b s.blocks;
          auto_assign = if auto then some b.name else s.auto_assign;
        },
      )

  unfoldable pub set_remove :
      AllocatorSetInner N4 N6 → String → Option (Block N4 N6) × AllocatorSetInner N4 N6
  set_remove s name = (
    lookup name s.blocks,
    record s { blocks = remove name s.blocks; auto_assign = unassign name s.auto_assign },
  )

  -- The inner loop of `get_blocks_from_addrs`, over the blocks.
  unfoldable pub push_matching :
      NetOps N4 N6
      → IpAddr
      → Dict String (Block N4 N6)
      → Dict String (List IpAddr)
      → Dict String (List IpAddr)
  push_matching net addr [] res = res
  push_matching net addr ((name, block) ∷ rest) res =
      push_matching net addr rest
        (if net.contains (block_cidr block) addr then push_addr name addr res else res)

  -- The outer loop, over the addresses.
  unfoldable pub collect_blocks :
      NetOps N4 N6
      → Dict String (Block N4 N6)
      → List IpAddr
      → Dict String (List IpAddr)
      → Dict String (List IpAddr)
  collect_blocks net blocks [] res = res
  collect_blocks net blocks (addr ∷ addrs) res =
      collect_blocks net blocks addrs (push_matching net addr blocks res)

  unfoldable pub get_blocks_from_addrs :
      NetOps N4 N6 → AllocatorSetInner N4 N6 → List IpAddr → Dict String (List IpAddr)
  unfolding collect_blocks push_matching push_addr
  get_blocks_from_addrs net s addrs = collect_blocks net s.blocks addrs []
