-- ===== src/Ipam/Manager/Info.antt =====
-- `AllocationInfo`: for each block, the addresses that were taken from it.
use Prim.Native.String.{String}
use sart.Common.{
  ◌≡◌, ◌≢◌, refl, Bool, true, false, not, ◌&&◌, ◌||◌, Option, none, some, List, [], ◌∷◌, ◌++◌,
  if◌then◌else◌, arith, Option-cases, Bool-cases, inl, inr,
}
use sart.Common.Dict.{Dict, string_eq, lookup, insert, remove, lookup-insert, lookup-remove}
use text.Mathlib.TextEquality.{eq_iff}
use sart.Net.{IpAddr}
use sart.Net.Equality.{addr-Eq, addr_eq, addr_eq_iff}

pub record AllocationInfo : Type 0 where
  pub blocks : Dict String (List IpAddr)

-- `b.contains(&addr)`, `b.retain(|a| addr.ne(a))` and `b.is_empty()`.
unfoldable pub contains_addr : List IpAddr → IpAddr → Bool
contains_addr [] a = false
contains_addr (b ∷ bs) a = addr_eq b a || contains_addr bs a

unfoldable pub retain_ne : IpAddr → List IpAddr → List IpAddr
retain_ne a [] = []
retain_ne a (b ∷ bs) = let rest = retain_ne a bs in if addr_eq a b then rest else b ∷ rest

abbrev no_addrs : List IpAddr → Bool
no_addrs [] = true
no_addrs (b ∷ bs) = false

unfoldable pub info_insert : AllocationInfo → String → IpAddr → AllocationInfo
unfolding contains_addr
info_insert info block addr = elim (lookup block info.blocks) [
  | some b ↦
      if contains_addr b addr
      then info
      else record info { blocks = insert block (b ++ (addr ∷ [])) info.blocks }
  | none ↦ record info { blocks = insert block (addr ∷ []) info.blocks }
]

unfoldable pub info_remove : AllocationInfo → String → IpAddr → AllocationInfo
unfolding retain_ne
info_remove info block addr = elim (lookup block info.blocks) [
  | some b ↦
      let left = retain_ne addr b in
      let kept : Dict String (List IpAddr) = insert block left info.blocks in
      record info { blocks = if no_addrs left then remove block kept else kept }
  | none ↦ info
]

unfoldable pub info_get : AllocationInfo → String → Option (List IpAddr)
info_get info block = lookup block info.blocks

-- What `get` tells of one address.
abbrev listed : Option (List IpAddr) → IpAddr → Bool
listed none c = false
listed (some b) c = contains_addr b c

abbrev pub holds : AllocationInfo → String → IpAddr → Bool
holds info block c = listed (info_get info block) c

contains_addr-append :
    (bs cs : List IpAddr) (c : IpAddr)
    → contains_addr (bs ++ cs) c ≡ (contains_addr bs c || contains_addr cs c)
unfolding contains_addr
contains_addr-append [] cs c = refl
contains_addr-append (b ∷ bs) cs c = ground (arith, contains_addr-append bs cs c)

contains_addr-retain_ne :
    (a : IpAddr) (bs : List IpAddr) (c : IpAddr)
    → contains_addr (retain_ne a bs) c ≡ (not (addr_eq a c) && contains_addr bs c)
unfolding contains_addr retain_ne
contains_addr-retain_ne a [] c = ground arith
contains_addr-retain_ne a (b ∷ bs) c =
    ground
      (arith, contains_addr-retain_ne a bs c, addr_eq_iff a b, addr_eq_iff a c, addr_eq_iff b c)

-- No block stands in the map with no address.
abbrev pub NoneEmpty : AllocationInfo → Type 0
NoneEmpty i = (j : String) → info_get i j ≢ some []

module _ (info : AllocationInfo) (block : String) (addr : IpAddr) where
  -- After `insert` a block holds what it held, and the inserted block holds the address too.
  pub holds-info_insert :
      (j : String) (c : IpAddr)
      → holds (info_insert info block addr) j c
        ≡ ((string_eq.beq j block && addr_eq addr c) || holds info j c)
  unfolding info_insert info_get contains_addr
  holds-info_insert j c = elim (Option-cases (lookup block info.blocks)) [
    | inl fresh ↦
        rw (fresh, info_insert)
          (ground (arith, lookup-insert block j (addr ∷ []) info.blocks, eq_iff j block, fresh))
    | inr (b, found) ↦ elim (Bool-cases (contains_addr b addr)) [
      | inl old ↦
          rw (found, info_insert, old)
            (ground (arith, eq_iff j block, found, old, addr_eq_iff addr c))
      | inr new ↦
          rw (found, info_insert, new)
            (ground (
              arith,
              lookup-insert block j (b ++ (addr ∷ [])) info.blocks,
              contains_addr-append b (addr ∷ []) c,
              eq_iff j block,
              found,
            ))
    ]
  ]

  -- After `remove` a block holds what it held, but the address is gone from the named block.
  pub holds-info_remove :
      (j : String) (c : IpAddr)
      → holds (info_remove info block addr) j c
        ≡ (not (string_eq.beq j block && addr_eq addr c) && holds info j c)
  unfolding info_remove info_get contains_addr
  holds-info_remove j c = elim (Option-cases (lookup block info.blocks)) [
    | inl gone ↦ rw (gone, info_remove) (ground (arith, eq_iff j block, gone))
    | inr (b, found) ↦
        rw (found, info_remove)
          (ground (
            arith,
            lookup-insert block j (retain_ne addr b) info.blocks,
            lookup-remove block j (insert block (retain_ne addr b) info.blocks),
            contains_addr-retain_ne addr b c,
            eq_iff j block,
            found,
          ))
  ]

  append_ne_nil : (bs : List IpAddr) → bs ++ (addr ∷ []) ≢ []
  append_ne_nil [] e = cc
  append_ne_nil (b ∷ bs) e = cc

  -- `insert` leaves no block without addresses behind.
  pub info_insert-NoneEmpty : NoneEmpty info → NoneEmpty (info_insert info block addr)
  unfolding info_insert info_get
  info_insert-NoneEmpty h j = elim (Option-cases (lookup block info.blocks)) [
    | inl fresh ↦
        rw (fresh, info_insert) (ground (arith, lookup-insert block j (addr ∷ []) info.blocks, h j))
    | inr (b, found) ↦
        rw (found, info_insert)
          (ground
            (arith, lookup-insert block j (b ++ (addr ∷ [])) info.blocks, append_ne_nil b, h j))
  ]

  -- `remove` leaves no block without addresses behind: the last one takes the entry with it.
  pub info_remove-NoneEmpty : NoneEmpty info → NoneEmpty (info_remove info block addr)
  unfolding info_remove info_get
  info_remove-NoneEmpty h j = elim (Option-cases (lookup block info.blocks)) [
    | inl gone ↦ rw (gone, info_remove) (h j)
    | inr (b, found) ↦
        rw (found, info_remove)
          (ground (
            arith,
            lookup-insert block j (retain_ne addr b) info.blocks,
            lookup-remove block j (insert block (retain_ne addr b) info.blocks),
            h j,
          ))
  ]
