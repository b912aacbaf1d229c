-- ===== src/Ipam/Manager/Pool.antt =====
-- `Pool`, from which blocks are cut.
pub mod Entries
use Prim.Native.Nat.{Ordering}
use Prim.Native.String.{String, compare}
use sart.Common.{
  ℕ, ◌+◌, ◌-◌, ◌%◌, ◌^◌, ◌<◌, ◌≡◌, ◌≢◌, ◌⊎◌, inl, inr, refl, Bool, true, false, Option, none, some,
  List, [], ◌∷◌, Outcome, ok, err, map_err, ◌>>=◌, ◌==◌, if◌then◌else◌, arith,
}
use sart.Common.Dict.{Dict, string_eq, remove}
use sart.Net.{IpNet, NetOps}
use sart.Ipam.BitSet.{BitSet}
use sart.Ipam.BitSet
use sart.Ipam.Allocator.{Error, bit_set, net_prefix_len}

-- `BTreeMap` is the list of its entries, by rising keys.
unfoldable pub btree_insert : String → ℕ → Dict String ℕ → Dict String ℕ
btree_insert k v [] = (k, v) ∷ []
btree_insert k v ((j, w) ∷ d) = elim (compare k j) [
  | Ordering.lt ↦ (k, v) ∷ (j, w) ∷ d
  | Ordering.eq ↦ (j, v) ∷ d
  | Ordering.gt ↦ (j, w) ∷ btree_insert k v d
]

pub record Pool (N4 N6 : Type 0) : Type 0 where
  pub cidr : IpNet N4 N6
  pub size : ℕ
  pub block_size : ℕ
  pub allocator : BitSet
  pub blocks : Dict String ℕ
  pub counter : ℕ

-- The name under which `index` is entered first, or the empty name.
unfoldable pub find_name : ℕ → Dict String ℕ → String
find_name index [] = ""
find_name index ((n, i) ∷ d) = if index == i then n else find_name index d

module _ {N4 N6 : Type 0} where
  unfoldable pub pool_new : NetOps N4 N6 → IpNet N4 N6 → ℕ → Pool N4 N6
  pool_new net cidr block_size =
      let prefix_len = net_prefix_len net cidr in
      let bitset_size = 2 ^ ((block_size + 2 ^ 32 - prefix_len) % 2 ^ 32) % 2 ^ 128 in
      record {
        cidr = cidr;
        size = prefix_len;
        block_size = block_size;
        allocator = BitSet.new bitset_size;
        blocks = [];
        counter = 0;
      }

  unfoldable pub pool_allocate : Pool N4 N6 → String → Outcome Error (ℕ × Pool N4 N6)
  pool_allocate p name = do
    (index, bits) ← map_err bit_set (BitSet.set_next p.allocator)
    ok (
      index,
      record p {
        allocator = bits;
        blocks = btree_insert name (index % 2 ^ 32) p.blocks;
        counter = (p.counter + 1) % 2 ^ 32;
      },
    )

  unfoldable pub pool_allocate_with : Pool N4 N6 → ℕ → String → Outcome Error (ℕ × Pool N4 N6)
  pool_allocate_with p index name = do
    (index', bits) ← map_err bit_set (BitSet.set p.allocator index true)
    ok (
      index',
      record p { allocator = bits; blocks = btree_insert name (index' % 2 ^ 32) p.blocks },
    )

  unfoldable pub pool_release : Pool N4 N6 → ℕ → Outcome Error (Pool N4 N6)
  unfolding find_name
  pool_release p index = do
    (_, bits) ← map_err bit_set (BitSet.set p.allocator index false)
    ok (record p { allocator = bits; blocks = remove (find_name index p.blocks) p.blocks })
