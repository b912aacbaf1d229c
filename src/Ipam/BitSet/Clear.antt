-- ===== src/Ipam/BitSet/Clear.antt =====
-- Sets with nothing in them: `new`, `clear_all` and the test `is_empty`.
use sart.Common.{
  ℕ, zero, suc, ◌+◌, ◌*◌, ◌/◌, ◌%◌, ◌^◌, ◌≤◌, ◌<◌, ◌≡◌, refl, sym, ◌∙◌, Bool, true, false,
  if◌then◌else◌, ltb, ◌==◌, length, replicate, [], ◌∷◌, Outcome, ok, arith, length-replicate,
  All-replicate, get_elem?-replicate,
}
use sart.Common.Bits.{bit, bit_zero, bit-le, bits_zero}
use sart.Ipam.BitSet.{BitSet, BitSetError, is_set, new, clear_all, is_empty, sum_words}
use sart.Ipam.BitSet.Words.{IsValid, is_set-bit}

abbrev zeros : ℕ → ℕ → BitSet
zeros l size = record { inner = replicate l 0; size = size }

zeros-IsValid :
    (l size : ℕ) → size ≤ 128 * l → 128 * l < size + 128 → size < 2 ^ 64 → IsValid (zeros l size)
zeros-IsValid l size h k s = record {
  words = All-replicate (λ w. w < 2 ^ 128) l 0 (omega arith);
  enough = rw (length-replicate {A = ℕ} l 0) h;
  tight = rw (length-replicate {A = ℕ} l 0) k;
  small = s;
}

is_set-zeros :
    (l size j : ℕ)
    → IsValid (zeros l size)
    → size ≤ 128 * l
    → j < size
    → is_set (zeros l size) j ≡ ok false
is_set-zeros l size j v h k =
    is_set-bit v j 0 k (get_elem?-replicate l (j / 128) 0 (omega arith))
    ∙ rw (bit_zero (j % 128)) refl

sum_words-zeros : (l : ℕ) → sum_words 0 (replicate l 0) ≡ 0
unfolding sum_words
sum_words-zeros zero = refl
sum_words-zeros (suc l) = sum_words-zeros l

new-zeros :
    (size : ℕ)
    → size < 2 ^ 64
    → (l : ℕ) × (new size ≡ zeros l size) × (size ≤ 128 * l) × (128 * l < size + 128)
unfolding new
new-zeros size h = (
  (size / 128 + (if ltb 0 (size % 128) then 1 else 0)) % 2 ^ 64,
  refl,
  ground arith,
  ground arith,
)

-- A new set is well formed, of the size asked for, and holds no index; `is_empty` says so.
pub new_lem :
    (size : ℕ)
    → size < 2 ^ 64
    → IsValid (new size)
      × ((new size).size ≡ size)
      × ((j : ℕ) → j < size → is_set (new size) j ≡ ok false)
      × (is_empty (new size) ≡ true)
unfolding is_empty
new_lem size h =
    let (l, e, p, q) = new-zeros size h in
    let v : IsValid (zeros l size) = zeros-IsValid l size p q h in
    rw e (v, refl, (λ j k. is_set-zeros l size j v p k), rw (sum_words-zeros l) refl)

-- Clearing a well-formed set unsets every index and keeps the size.
pub clear_all_lem :
    {b : BitSet}
    → IsValid b
    → IsValid (clear_all b)
      × ((clear_all b).size ≡ b.size)
      × ((j : ℕ) → j < b.size → is_set (clear_all b) j ≡ ok false)
      × (is_empty (clear_all b) ≡ true)
unfolding clear_all is_empty
clear_all_lem {b} v =
    let v' : IsValid (zeros (length b.inner) b.size) =
      zeros-IsValid (length b.inner) b.size v.enough v.tight v.small in
    (
      v',
      refl,
      (λ j k. is_set-zeros (length b.inner) b.size j v' v.enough k),
      rw (sum_words-zeros (length b.inner)) refl,
    )

abbrev pub two_words : ℕ → ℕ → BitSet
two_words w u = record { inner = w ∷ u ∷ []; size = 256 }

two_words-IsValid : (w u : ℕ) → w < 2 ^ 128 → u < 2 ^ 128 → IsValid (two_words w u)
two_words-IsValid w u h k = record {
  words = (h, (k, tt));
  enough = omega arith;
  tight = omega arith;
  small = omega arith;
}

-- A first word with no index set is 0.
first_word_zero :
    (w u : ℕ)
    → IsValid (two_words w u)
    → w < 2 ^ 128
    → ((j : ℕ) → j < 256 → is_set (two_words w u) j ≡ ok false)
    → w ≡ 0
first_word_zero w u v h unset = bits_zero 128 w h λ i l.
    unset_digit (bit w i) (bit-le w i) (ok-injective (sym (digit i l) ∙ unset i (omega arith)))
  where
    digit : (i : ℕ) → i < 128 → is_set (two_words w u) i ≡ ok (bit w i == 1)
    digit i l =
        let vec : i / 128 ≡ 0 = omega arith in
        let idx : i % 128 ≡ i = omega arith in
        is_set-bit v i w (omega arith) (rw vec refl) ∙ rw idx refl

    ok-injective : {x y : Bool} → ◌≡◌ {A = Outcome BitSetError Bool} (ok x) (ok y) → x ≡ y
    ok-injective e = cc

    unset_digit : (d : ℕ) → d ≤ 1 → (d == 1) ≡ false → d ≡ 0
    unset_digit d h e = ground arith

-- The sum of the words wraps: a well-formed set whose two words add up to `2 ^ 128` counts as
-- empty, although some index is set.
pub is_empty_wraps :
    (w u : ℕ)
    → w < 2 ^ 128
    → u < 2 ^ 128
    → w + u ≡ 2 ^ 128
    → IsValid (two_words w u)
      × (is_empty (two_words w u) ≡ true)
      × ¬ ((j : ℕ) → j < 256 → is_set (two_words w u) j ≡ ok false)
unfolding is_empty sum_words
is_empty_wraps w u h k e =
    let v = two_words-IsValid w u h k in
    (v, ground arith, λ unset. absurd (omega (arith, first_word_zero w u v h unset)))
