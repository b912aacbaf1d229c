-- ===== src/Ipam/BitSet/Update.antt =====
-- `set`, `set_true`, `clear_all` and `new`: what they do to the indices below the size.
use sart.Common.{
  ℕ, zero, suc, ◌+◌, ◌-◌, ◌*◌, ◌/◌, ◌%◌, ◌^◌, ◌≤◌, ◌<◌, ◌≡◌, ◌≢◌, refl, sym, ap, ◌∙◌, Bool, true,
  false, none, some, if◌then◌else◌, ltb, ◌==◌, length, get_elem?, All, ok, err, panic, ◌⊎◌, arith,
  ge→ltb, lt→ltb, Bool-cases, inl, inr, get_elem?_total, All-get_elem?, length-set, All-set,
  get_elem?-set_self, get_elem?-set_ne, ==_iff, ne→==, get_elem?_past,
}
use sart.Common
use native.Mathlib.Decide.{ℕ_discrete}
use sart.Ipam.BitSet.{BitSet, invalid_index, already_set, is_set, write_bit, set, set_true}
use sart.Ipam.BitSet.Words.{
  IsValid, write_bit-lt, bit-write_bit_self, bit-write_bit_ne, usize_exact, word_at, is_set-bit,
  is_set_total,
}

-- The set after `set b i x`, when `w` is the word that holds `i`.
abbrev written : BitSet → ℕ → ℕ → Bool → BitSet
written b i w x = record b { inner = Common.set b.inner (i / 128) (write_bit w (i % 128) x) }

set-written :
    {b : BitSet} (v : IsValid b) (i w : ℕ) (x : Bool)
    → i < b.size
    → get_elem? b.inner (i / 128) ≡ some w
    → set b i x ≡ ok (i, written b i w x)
unfolding set
set-written {b} v i w x h e =
    rw (ge→ltb b.size i (omega arith), usize_exact v i (omega arith), e) refl

written-IsValid :
    {b : BitSet} (v : IsValid b) (i w : ℕ) (x : Bool) → w < 2 ^ 128 → IsValid (written b i w x)
written-IsValid {b} v i w x h = record {
  words =
      All-set (λ u. u < 2 ^ 128) b.inner (i / 128) _ (write_bit-lt w (i % 128) x h (omega arith))
        v.words;
  enough = rw (length-set b.inner (i / 128) (write_bit w (i % 128) x)) v.enough;
  tight = rw (length-set b.inner (i / 128) (write_bit w (i % 128) x)) v.tight;
  small = v.small;
}

bool_test : (x : Bool) → ((if x then 1 else 0) == 1) ≡ x
bool_test true = refl
bool_test false = refl

is_set-written_self :
    {b : BitSet} (v : IsValid b) (i w : ℕ) (x : Bool)
    → i < b.size
    → get_elem? b.inner (i / 128) ≡ some w
    → w < 2 ^ 128
    → is_set (written b i w x) i ≡ ok x
is_set-written_self {b} v i w x h e l =
    is_set-bit (written-IsValid v i w x l) i (write_bit w (i % 128) x) h
      (get_elem?-set_self b.inner (i / 128) _ (omega (arith, v.enough)))
    ∙ rw (bit-write_bit_self w (i % 128) x l (omega arith), bool_test x) refl

is_set-written_ne :
    {b : BitSet} (v : IsValid b) (i j w : ℕ) (x : Bool)
    → i < b.size
    → j < b.size
    → i ≢ j
    → get_elem? b.inner (i / 128) ≡ some w
    → w < 2 ^ 128
    → is_set (written b i w x) j ≡ is_set b j
is_set-written_ne {b} v i j w x h k d e l = elim (ℕ_discrete (i / 128) (j / 128)) [
  | yes same ↦
      is_set-bit v' j (write_bit w (i % 128) x) k
        (rw (← same) (get_elem?-set_self b.inner (i / 128) _ (omega (arith, v.enough))))
      ∙ rw (bit-write_bit_ne w (i % 128) (j % 128) x l (omega arith) (omega arith) (omega arith))
          (sym (is_set-bit v j w k (rw (← same) e)))
  | no other ↦
      let (u, f, _) = word_at v j k in
      is_set-bit v' j u k (get_elem?-set_ne b.inner (i / 128) (j / 128) _ other ∙ f)
      ∙ sym (is_set-bit v j u k f)
]
  where
    v' : IsValid (written b i w x)
    v' = written-IsValid v i w x l

-- In a well-formed set, a write at an index below the size succeeds: it changes that index alone
-- and keeps the set well formed.
pub set_lem :
    {b : BitSet}
    → IsValid b
    → (i : ℕ) (x : Bool) → i < b.size
    → (b' : BitSet) × (set b i x ≡ ok (i, b'))
      × IsValid b'
      × (b'.size ≡ b.size)
      × ((j : ℕ) → j < b.size → is_set b' j ≡ (if i == j then ok x else is_set b j))
set_lem {b} v i x h =
    let (w, e, l) = word_at v i h in
    (
      written b i w x,
      set-written v i w x h e,
      written-IsValid v i w x l,
      refl,
      λ j k. elim (ℕ_discrete i j) [
        | yes same ↦ rw (← same, (==_iff i i).1 refl) (is_set-written_self v i w x h e l)
        | no other ↦ rw (ne→== i j other) (is_set-written_ne v i j w x h k other e l)
      ],
    )

-- In a well-formed set, at an index below the size, `set_true` refuses an index that is set, and
-- otherwise does what `set` does.
pub set_true_lem :
    {b : BitSet}
    → IsValid b
    → (i : ℕ) → i < b.size
    → ((is_set b i ≡ ok true) × (set_true b i ≡ err already_set))
      ⊎ ((is_set b i ≡ ok false) × (set_true b i ≡ set b i true))
unfolding set_true
set_true_lem {b} v i h = let (x, e) = is_set_total v i h in decided x e
  where
    decided :
        (x : Bool)
        → is_set b i ≡ ok x
        → ((is_set b i ≡ ok true) × (set_true b i ≡ err already_set))
          ⊎ ((is_set b i ≡ ok false) × (set_true b i ≡ set b i true))
    decided true e = inl (e, rw e)
    decided false e = inr (e, rw e)

-- Past the size, `set` is refused.
pub set_past : (b : BitSet) (i : ℕ) (x : Bool) → b.size < i → set b i x ≡ err invalid_index
unfolding set
set_past b i x h = rw (lt→ltb b.size i h)

-- The index that equals the size passes the guards: in a well-formed set whose size is a multiple
-- of 128, `set` and `is_set` panic there.
pub set_at_size :
    {b : BitSet}
    → IsValid b
    → (x : Bool) → b.size % 128 ≡ 0
    → (set b b.size x ≡ panic) × (is_set b b.size ≡ panic)
unfolding set is_set
set_at_size {b} v x h =
    let out : get_elem? b.inner (b.size / 128) ≡ none =
      get_elem?_past b.inner (b.size / 128) (omega (arith, v.tight)) in
    (
      rw (ge→ltb b.size b.size (omega arith), usize_exact v b.size (omega arith), out),
      rw (ge→ltb b.size b.size (omega arith), usize_exact v b.size (omega arith), out),
    )
