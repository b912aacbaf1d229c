-- ===== src/Ipam/Manager/Pool/Entries.antt =====
-- The entries of a pool against its bit set.
use Prim.Native.Nat.{Ordering}
use Prim.Native.String.{String, compare}
use sart.Common.{
  ℕ, ◌+◌, ◌%◌, ◌^◌, ◌<◌, ◌≤◌, ◌≡◌, ◌≢◌, ◌⊎◌, inl, inr, refl, true, false, [], ◌∷◌, ok, err, ◌==◌,
  if◌then◌else◌, arith, sym, ◌∙◌, subst, Bool-cases, ==_iff, ne→==,
}
use sart.Common.Dict.{Dict, string_eq, remove}
use text.Mathlib.TextEquality.{eq_iff}
use sart.Ipam.BitSet.{BitSet, full, is_set}
use sart.Ipam.BitSet.Words.{IsValid}
use sart.Ipam.BitSet.Update.{set_lem}
use sart.Ipam.BitSet.Search.{set_next_lem}
use sart.Ipam.Allocator.{bit_set}
use sart.Ipam.Manager.Pool.{
  Pool, btree_insert, find_name, pool_allocate, pool_allocate_with, pool_release,
}

-- An entry of the map.
abbrev pub Has : String → ℕ → Dict String ℕ → Type 0
Has n i [] = ⊥
Has n i ((m, j) ∷ d) = ((n ≡ m) × (i ≡ j)) ⊎ Has n i d

-- The entries have distinct indices, and each index is set in the bit set.
pub record IsTracked {N4 N6 : Type 0} (p : Pool N4 N6) : Type 0 where
  pub bits : IsValid p.allocator
  pub small : p.allocator.size ≤ 2 ^ 32
  pub below : (n : String) (i : ℕ) → Has n i p.blocks → i < p.allocator.size
  pub taken : (n : String) (i : ℕ) → Has n i p.blocks → is_set p.allocator i ≡ ok true
  pub distinct : (n m : String) (i : ℕ) → Has n i p.blocks → Has m i p.blocks → n ≡ m

-- One step of the insertion, by the outcome of the comparison.
Has-step :
    (k : String) (v : ℕ) (j : String) (w : ℕ) (d rest : Dict String ℕ) (n : String) (i : ℕ)
    (o : Ordering)
    → (o ≡ Ordering.eq → k ≡ j)
    → (Has n i rest → ((n ≡ k) × (i ≡ v)) ⊎ Has n i d)
    → Has n i (elim o [
      | Ordering.lt ↦ (k, v) ∷ (j, w) ∷ d
      | Ordering.eq ↦ (j, v) ∷ d
      | Ordering.gt ↦ (j, w) ∷ rest
    ])
    → ((n ≡ k) × (i ≡ v)) ⊎ Has n i ((j, w) ∷ d)
Has-step k v j w d rest n i Ordering.lt same ih x = x
Has-step k v j w d rest n i Ordering.eq same ih (inl (a, b)) = inl (a ∙ sym (same refl), b)
Has-step k v j w d rest n i Ordering.eq same ih (inr x) = inr (inr x)
Has-step k v j w d rest n i Ordering.gt same ih (inl x) = inr (inl x)
Has-step k v j w d rest n i Ordering.gt same ih (inr x) = elim (ih x) [
  | inl new ↦ inl new
  | inr old ↦ inr (inr old)
]

compare-eq : (k j : String) → compare k j ≡ Ordering.eq → k ≡ j
compare-eq k j e = (eq_iff k j).0 (rw e refl)

Has-btree_insert :
    (k : String) (v : ℕ) (d : Dict String ℕ) (n : String) (i : ℕ)
    → Has n i (btree_insert k v d)
    → ((n ≡ k) × (i ≡ v)) ⊎ Has n i d
unfolding btree_insert
Has-btree_insert k v [] n i h = h
Has-btree_insert k v ((j, w) ∷ d) n i h =
    Has-step k v j w d (btree_insert k v d) n i (compare k j) (compare-eq k j)
      (Has-btree_insert k v d n i) h

Has-remove :
    (k : String) (d : Dict String ℕ) (n : String) (i : ℕ)
    → Has n i (remove k d)
    → Has n i d × (n ≢ k)
unfolding remove
Has-remove k [] n i h = absurd h
Has-remove k ((j, w) ∷ d) n i h = elim (Bool-cases (string_eq.beq k j)) [
  | inl hit ↦ let (old, apart) = Has-remove k d n i (rw (hit, remove) at h) in (inr old, apart)
  | inr miss ↦ elim (the_rest miss) [
    | inl (a, b) ↦ (inl (a, b), λ e. cc (miss, (eq_iff k j).1 (sym e ∙ a)))
    | inr x ↦ let (old, apart) = Has-remove k d n i x in (inr old, apart)
  ]
]
  where
    the_rest : string_eq.beq k j ≡ false → ((n ≡ j) × (i ≡ w)) ⊎ Has n i (remove k d)
    the_rest miss = rw (miss, remove) at h

-- An index that is entered is found under its name.
find_name-Has : (i : ℕ) (d : Dict String ℕ) (n : String) → Has n i d → Has (find_name i d) i d
unfolding find_name
find_name-Has i [] n h = absurd h
find_name-Has i ((m, j) ∷ d) n h = elim (Bool-cases (i == j)) [
  | inl hit ↦ rw (hit, find_name) (inl (refl, (==_iff i j).0 hit))
  | inr miss ↦ elim h [
    | inl (_, e) ↦ cc (miss, (==_iff i j).1 e)
    | inr x ↦ subst (λ s. Has s i ((m, j) ∷ d)) (sym (skipped miss)) (inr (find_name-Has i d n x))
  ]
]
  where
    skipped : (i == j) ≡ false → find_name i ((m, j) ∷ d) ≡ find_name i d
    skipped miss = rw (miss, find_name) refl

Has-btree_insert_self : (k : String) (v : ℕ) (d : Dict String ℕ) → Has k v (btree_insert k v d)
unfolding btree_insert
Has-btree_insert_self k v [] = inl (refl, refl)
Has-btree_insert_self k v ((j, w) ∷ d) =
    entered (compare k j) (compare-eq k j) (Has-btree_insert_self k v d)
  where
    entered :
        (o : Ordering)
        → (o ≡ Ordering.eq → k ≡ j)
        → Has k v (btree_insert k v d)
        → Has k v (elim o [
          | Ordering.lt ↦ (k, v) ∷ (j, w) ∷ d
          | Ordering.eq ↦ (j, v) ∷ d
          | Ordering.gt ↦ (j, w) ∷ btree_insert k v d
        ])
    entered Ordering.lt same x = inl (refl, refl)
    entered Ordering.eq same x = inl (same refl, refl)
    entered Ordering.gt same x = inr x

module _ {N4 N6 : Type 0} (p : Pool N4 N6) (t : IsTracked p) where
  -- Entering a free index under a name.
  enter-IsTracked :
      (name : String) (i : ℕ) (bits : BitSet) (counter : ℕ)
      → IsValid bits
      → bits.size ≡ p.allocator.size
      → i < p.allocator.size
      → is_set p.allocator i ≡ ok false
      → ((j : ℕ)
          → j < p.allocator.size
          → is_set bits j ≡ (if i == j then ok true else is_set p.allocator j))
      → IsTracked (record p {
        allocator = bits;
        blocks = btree_insert name (i % 2 ^ 32) p.blocks;
        counter = counter;
      })
  enter-IsTracked name i bits counter v size l free reads = record {
    bits = v;
    small = rw size t.small;
    below = λ n j h. elim (entry n j h) [
      | inl (_, e) ↦ rw (e, size) l
      | inr old ↦ rw size (t.below n j old)
    ];
    taken = λ n j h. elim (entry n j h) [
      | inl (_, e) ↦ rw e (reads i l ∙ rw ((==_iff i i).1 refl) refl)
      | inr old ↦ reads j (t.below n j old) ∙ ground (arith, t.taken n j old)
    ];
    distinct = λ n m j h k. elim (entry n j h) [
      | inl (a, e) ↦ elim (entry m j k) [
        | inl (b, _) ↦ a ∙ sym b
        | inr old ↦ cc (free, subst (λ x. is_set p.allocator x ≡ ok true) e (t.taken m j old))
      ]
      | inr old ↦ elim (entry m j k) [
        | inl (b, e) ↦ cc (free, subst (λ x. is_set p.allocator x ≡ ok true) e (t.taken n j old))
        | inr old' ↦ t.distinct n m j old old'
      ]
    ];
  }
    where
      exact : i % 2 ^ 32 ≡ i
      exact = omega (arith, t.small)

      entry :
          (n : String) (j : ℕ)
          → Has n j (btree_insert name (i % 2 ^ 32) p.blocks)
          → ((n ≡ name) × (j ≡ i)) ⊎ Has n j p.blocks
      entry n j h =
          subst (λ x. ((n ≡ name) × (j ≡ x)) ⊎ Has n j p.blocks) exact
            (Has-btree_insert name (i % 2 ^ 32) p.blocks n j h)

  -- In a well-formed pool, `allocate` enters the least free index under the name and keeps the
  -- pool well formed, or it reports that all indices are taken.
  pub pool_allocate_lem :
      (name : String)
      → ((i : ℕ) × (p' : Pool N4 N6) × (pool_allocate p name ≡ ok (i, p'))
          × (is_set p.allocator i ≡ ok false)
          × ((j : ℕ) → j < i → is_set p.allocator j ≡ ok true)
          × Has name i p'.blocks
          × IsTracked p')
        ⊎ ((pool_allocate p name ≡ err (bit_set full))
            × ((j : ℕ) → j < p.allocator.size → is_set p.allocator j ≡ ok true))
  unfolding pool_allocate
  pool_allocate_lem name = elim (set_next_lem t.bits) [
    | inl (i, bits, e, v, size, l, free, before, reads) ↦
        let exact : i % 2 ^ 32 ≡ i = omega (arith, t.small) in
        inl (
          i,
          record p {
            allocator = bits;
            blocks = btree_insert name (i % 2 ^ 32) p.blocks;
            counter = (p.counter + 1) % 2 ^ 32;
          },
          rw e refl,
          free,
          before,
          rw exact (Has-btree_insert_self name i p.blocks),
          enter-IsTracked name i bits _ v size l free reads,
        )
    | inr (e, all_set) ↦ inr (rw e refl, all_set)
  ]

  -- In a well-formed pool, `allocate_with` sets a given free index below the size, enters it
  -- under the name, and keeps the pool well formed.
  pub pool_allocate_with_lem :
      (name : String) (i : ℕ)
      → i < p.allocator.size
      → is_set p.allocator i ≡ ok false
      → (p' : Pool N4 N6) × (pool_allocate_with p i name ≡ ok (i, p'))
        × Has name i p'.blocks
        × (is_set p'.allocator i ≡ ok true)
        × IsTracked p'
  unfolding pool_allocate_with
  pool_allocate_with_lem name i l free =
      let (bits, e, v, size, reads) = set_lem t.bits i true l in
      let exact : i % 2 ^ 32 ≡ i = omega (arith, t.small) in
      (
        record p { allocator = bits; blocks = btree_insert name (i % 2 ^ 32) p.blocks },
        rw e refl,
        rw exact (Has-btree_insert_self name i p.blocks),
        reads i l ∙ rw ((==_iff i i).1 refl) refl,
        enter-IsTracked name i bits p.counter v size l free reads,
      )

  -- In a well-formed pool, `release` of an index below the size frees the index; no entry has it
  -- any more, and the pool stays well formed.
  pub pool_release_lem :
      (i : ℕ)
      → i < p.allocator.size
      → (p' : Pool N4 N6) × (pool_release p i ≡ ok p')
        × (is_set p'.allocator i ≡ ok false)
        × ((n : String) → ¬ Has n i p'.blocks)
        × IsTracked p'
  unfolding pool_release
  pool_release_lem i l =
      let (bits, e, v, size, reads) = set_lem t.bits i false l in
      let gone : (n : String) → ¬ Has n i (remove (find_name i p.blocks) p.blocks) = λ n h.
        let (old, apart) = Has-remove (find_name i p.blocks) p.blocks n i h in
        apart (t.distinct n (find_name i p.blocks) i old (find_name-Has i p.blocks n old)) in
      (
        record p { allocator = bits; blocks = remove (find_name i p.blocks) p.blocks },
        rw e refl,
        reads i l ∙ rw ((==_iff i i).1 refl) refl,
        gone,
        record {
          bits = v;
          small = rw size t.small;
          below = λ n j h. rw size (t.below n j (Has-remove _ p.blocks n j h).0);
          taken = λ n j h.
              let (old, _) = Has-remove _ p.blocks n j h in
              reads j (t.below n j old)
              ∙ rw
                  (ne→== i j (λ same.
                    gone n
                      (subst (λ x. Has n x (remove (find_name i p.blocks) p.blocks)) (sym same) h)))
                  (t.taken n j old);
          distinct = λ n m j h k.
              t.distinct n m j (Has-remove _ p.blocks n j h).0 (Has-remove _ p.blocks m j k).0;
        },
      )
