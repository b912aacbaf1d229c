-- ===== src/Ipam/Manager/Blocks/Lookup.antt =====
-- `AllocatorSetInner`: its methods seen through the lookup of a name.
use Prim.Native.String.{String}
use sart.Common.{
  ◌≡◌, ◌≢◌, refl, sym, ◌∙◌, Bool, true, false, Option, none, some, List, [], ◌∷◌, ◌++◌,
  if◌then◌else◌, arith, ok, err, Option-cases, Bool-cases, beq_self, inl, inr, ◌⊎◌,
}
use sart.Common.Dict.{Dict, string_eq, lookup, insert, remove, IsMap, lookup-insert, lookup-remove}
use text.Mathlib.TextEquality.{eq_iff}
use mathlib.Core.List.{append_assoc, append-nil}
use sart.Net.{IpAddr, NetOps}
use sart.Ipam.Allocator.{auto_assignable_block_already_exists}
use sart.Ipam.Manager.Blocks.{
  Block, AllocatorSetInner, block_cidr, set_insert, set_remove, push_addr, push_matching,
  collect_blocks, get_blocks_from_addrs,
}

module _ {N4 N6 : Type 0} where
  -- The name kept for automatic assignment is the name of a block.
  abbrev pub AutoIsBlock : AllocatorSetInner N4 N6 → Type 0
  AutoIsBlock s = (n : String) → s.auto_assign ≡ some n → lookup n s.blocks ≢ none

  -- `insert` fails only for a second automatic block, and leaves the set as it was. Else it returns
  -- the block that had the name, puts the new one in its place, and keeps the automatic name valid.
  pub set_insert_lem :
      (s : AllocatorSetInner N4 N6) (b : Block N4 N6) (auto : Bool)
      → AutoIsBlock s
      → ((auto ≡ true)
          × (s.auto_assign ≢ none)
          × (set_insert s b auto ≡ err auto_assignable_block_already_exists))
        ⊎ ((s' : AllocatorSetInner N4 N6) × (set_insert s b auto ≡ ok (lookup b.name s.blocks, s'))
            × ((j : String)
                → lookup j s'.blocks
                  ≡ (if string_eq.beq j b.name then some b else lookup j s.blocks))
            × (s'.auto_assign ≡ (if auto then some b.name else s.auto_assign))
            × AutoIsBlock s')
  unfolding set_insert
  set_insert_lem s b true h = elim (Option-cases s.auto_assign) [
    | inl unset ↦ inr (
      record s { blocks = insert b.name b s.blocks; auto_assign = some b.name },
      rw unset refl,
      (λ j. lookup-insert b.name j b s.blocks),
      refl,
      λ n e. rw (lookup-insert b.name n b s.blocks) (ground (arith, e, eq_iff n b.name)),
    )
    | inr (n, old) ↦ inl (refl, (λ e. cc), rw old refl)
  ]
  set_insert_lem s b false h = inr (
    record s { blocks = insert b.name b s.blocks },
    refl,
    (λ j. lookup-insert b.name j b s.blocks),
    refl,
    λ n e. rw (lookup-insert b.name n b s.blocks) (ground (arith, e, h n, eq_iff n b.name)),
  )

  stored :
      (s : AllocatorSetInner N4 N6) (b : Block N4 N6)
      → lookup b.name (insert b.name b s.blocks) ≡ some b
  stored s b = rw (lookup-insert b.name b.name b s.blocks, beq_self b.name) refl

  restored :
      (s : AllocatorSetInner N4 N6) (b : Block N4 N6)
      → lookup b.name s.blocks ≡ none
      → (j : String) → lookup j (remove b.name (insert b.name b s.blocks)) ≡ lookup j s.blocks
  restored s b new j =
      rw (lookup-remove b.name j (insert b.name b s.blocks), lookup-insert b.name j b s.blocks)
        (ground (arith, new, eq_iff j b.name))

  -- In a set whose automatic name, if there is one, is the name of a block, a block under a new
  -- name, automatic only where no other is, is inserted, and `remove` gives it back: every name is
  -- then looked up as before the insertion, and the automatic name and the allocations are what
  -- they were.
  pub set_remove-set_insert :
      (s : AllocatorSetInner N4 N6) (b : Block N4 N6) (auto : Bool)
      → AutoIsBlock s
      → lookup b.name s.blocks ≡ none
      → (auto ≡ true → s.auto_assign ≡ none)
      → (s' : AllocatorSetInner N4 N6) × (set_insert s b auto ≡ ok (none, s'))
        × ((set_remove s' b.name).0 ≡ some b)
        × ((j : String) → lookup j (set_remove s' b.name).1.blocks ≡ lookup j s.blocks)
        × ((set_remove s' b.name).1.auto_assign ≡ s.auto_assign)
        × ((set_remove s' b.name).1.alloc_info ≡ s.alloc_info)
  unfolding set_remove set_insert
  set_remove-set_insert s b true h new free = (
    record s { blocks = insert b.name b s.blocks; auto_assign = some b.name },
    rw (free refl, new) refl,
    stored s b,
    restored s b new,
    rw (beq_self b.name, free refl) refl,
    refl,
  )
  set_remove-set_insert s b false h new free = (
    record s { blocks = insert b.name b s.blocks },
    rw new refl,
    stored s b,
    restored s b new,
    elim (Option-cases s.auto_assign) [
      | inl e ↦ rw e refl
      | inr (a, e) ↦
          let other : string_eq.beq a b.name ≡ false =
            ground (arith, h a e, new, eq_iff a b.name) in
          rw (e, other) refl
    ],
    refl,
  )

module _ {N4 N6 : Type 0} (net : NetOps N4 N6) where
  -- The addresses that lie in a block's network, in their order.
  abbrev pub inside : Option (Block N4 N6) → List IpAddr → List IpAddr
  inside none addrs = []
  inside (some b) [] = []
  inside (some b) (a ∷ addrs) =
      if net.contains (block_cidr b) a then a ∷ inside (some b) addrs else inside (some b) addrs

abbrev pub or_nil : Option (List IpAddr) → List IpAddr
or_nil none = []
or_nil (some a) = a

lookup-push_addr :
    (name j : String) (addr : IpAddr) (res : Dict String (List IpAddr))
    → or_nil (lookup j (push_addr name addr res))
      ≡ or_nil (lookup j res) ++ (if string_eq.beq j name then addr ∷ [] else [])
unfolding push_addr
lookup-push_addr name j addr res = elim (Option-cases (lookup name res)) [
  | inl fresh ↦
      rw (fresh, push_addr)
        (ground (
          arith,
          lookup-insert name j (addr ∷ []) res,
          eq_iff j name,
          append-nil (or_nil (lookup j res)),
          fresh,
        ))
  | inr (a, old) ↦
      rw (old, push_addr)
        (ground (
          arith,
          lookup-insert name j (a ++ (addr ∷ [])) res,
          eq_iff j name,
          append-nil (or_nil (lookup j res)),
          old,
        ))
]

module _ {N4 N6 : Type 0} (net : NetOps N4 N6) where
  lookup-push_matching :
      (addr : IpAddr) (blocks : Dict String (Block N4 N6)) (res : Dict String (List IpAddr))
      (j : String)
      → IsMap blocks
      → or_nil (lookup j (push_matching net addr blocks res))
        ≡ or_nil (lookup j res) ++ inside net (lookup j blocks) (addr ∷ [])
  unfolding push_matching lookup
  lookup-push_matching addr [] res j h = ground (arith, append-nil (or_nil (lookup j res)))
  lookup-push_matching addr ((name, block) ∷ rest) res j h =
      let ih = λ (r : Dict String (List IpAddr)). lookup-push_matching addr rest r j h.1 in
      elim (Bool-cases (net.contains (block_cidr block) addr)) [
        | inl here ↦ rw here (
            ih (push_addr name addr res)
            ∙ (ground (
              arith,
              lookup-push_addr name j addr res,
              eq_iff j name,
              h.0,
              append-nil (or_nil (lookup j res)),
              append-nil (or_nil (lookup j res) ++ (addr ∷ [])),
            )))
        | inr other ↦ rw other (
            ih res
            ∙ (ground (
              arith,
              lookup-push_addr name j addr res,
              eq_iff j name,
              h.0,
              append-nil (or_nil (lookup j res)),
              append-nil (or_nil (lookup j res) ++ (addr ∷ [])),
            )))
      ]

  inside-nil : (o : Option (Block N4 N6)) → inside net o [] ≡ []
  inside-nil none = refl
  inside-nil (some b) = refl

  inside-cons :
      (o : Option (Block N4 N6)) (a : IpAddr) (addrs : List IpAddr)
      → inside net o (a ∷ addrs) ≡ inside net o (a ∷ []) ++ inside net o addrs
  inside-cons none a addrs = refl
  inside-cons (some b) a addrs = ground arith

  lookup-collect_blocks :
      (blocks : Dict String (Block N4 N6)) (addrs : List IpAddr) (res : Dict String (List IpAddr))
      (j : String)
      → IsMap blocks
      → or_nil (lookup j (collect_blocks net blocks addrs res))
        ≡ or_nil (lookup j res) ++ inside net (lookup j blocks) addrs
  unfolding collect_blocks
  lookup-collect_blocks blocks [] res j h =
      rw (inside-nil (lookup j blocks)) (sym (append-nil (or_nil (lookup j res))))
  lookup-collect_blocks blocks (a ∷ addrs) res j h =
      lookup-collect_blocks blocks addrs (push_matching net a blocks res) j h
      ∙ rw (lookup-push_matching a blocks res j h, inside-cons (lookup j blocks) a addrs)
          (append_assoc (or_nil (lookup j res)) (inside net (lookup j blocks) (a ∷ []))
            (inside net (lookup j blocks) addrs))

  -- Under each name stand exactly those of the given addresses that lie in the network of the block
  -- of that name, in their order.
  pub lookup-get_blocks_from_addrs :
      (s : AllocatorSetInner N4 N6) (addrs : List IpAddr) (j : String)
      → IsMap s.blocks
      → or_nil (lookup j (get_blocks_from_addrs net s addrs)) ≡ inside net (lookup j s.blocks) addrs
  unfolding get_blocks_from_addrs lookup
  lookup-get_blocks_from_addrs s addrs j h = lookup-collect_blocks s.blocks addrs [] j h
