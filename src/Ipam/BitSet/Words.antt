-- ===== src/Ipam/BitSet/Words.antt =====
-- The representation of a bit set: what its words must satisfy, and what a query reads from them.
use Prim.Native.Nat.{bit_and}
use sart.Common.{
  ℕ, zero, suc, ◌+◌, ◌-◌, ◌*◌, ◌/◌, ◌%◌, ◌^◌, ◌≤◌, ◌<◌, ◌≡◌, ◌≢◌, refl, Bool, true, false, not,
  some, if◌then◌else◌, ◌==◌, length, get_elem?, All, ok, arith, ge→ltb, get_elem?_total,
  All-get_elem?,
}
use sart.Common.Bits.{
  bit, bit-le, bit-bit_or, bit-bit_and, bit-pow_self, bit-pow_ne, bit-complement, bit_and-pow,
  bit_or-lt, bit_and-le, pow_pos, pow-lt,
}
use sart.Ipam.BitSet.{BitSet, is_set, write_bit}

-- Exactly as many words as the size needs, each of 128 bits, and every index fits a `usize`.
pub record IsValid (b : BitSet) : Type 0 where
  pub words : All (λ w. w < 2 ^ 128) b.inner
  pub enough : b.size ≤ 128 * length b.inner
  pub tight : 128 * length b.inner < b.size + 128
  pub small : b.size < 2 ^ 64

pub write_bit-lt : (w n : ℕ) (v : Bool) → w < 2 ^ 128 → n < 128 → write_bit w n v < 2 ^ 128
unfolding write_bit
write_bit-lt w n true h l = bit_or-lt 128 w (2 ^ n) h (pow-lt n 128 l)
write_bit-lt w n false h l = omega (arith, bit_and-le 128 w (2 ^ 128 - 1 - 2 ^ n) h)

pub bit-write_bit_self :
    (w n : ℕ) (v : Bool) → w < 2 ^ 128 → n < 128 → bit (write_bit w n v) n ≡ (if v then 1 else 0)
unfolding write_bit
bit-write_bit_self w n true h l = omega (arith, bit-bit_or w (2 ^ n) n, bit-pow_self n, bit-le w n)
bit-write_bit_self w n false h l = omega (
  arith,
  bit-bit_and w (2 ^ 128 - 1 - 2 ^ n) n,
  bit-complement 128 (2 ^ n) n (pow-lt n 128 l) l,
  bit-pow_self n,
)

pub bit-write_bit_ne :
    (w n m : ℕ) (v : Bool)
    → w < 2 ^ 128
    → n < 128
    → m < 128
    → n ≢ m
    → bit (write_bit w n v) m ≡ bit w m
unfolding write_bit
bit-write_bit_ne w n m true h l k d =
    omega (arith, bit-bit_or w (2 ^ n) m, bit-pow_ne n m d, bit-le w m)
bit-write_bit_ne w n m false h l k d = omega (
  arith,
  bit-bit_and w (2 ^ 128 - 1 - 2 ^ n) m,
  bit-complement 128 (2 ^ n) m (pow-lt n 128 l) k,
  bit-pow_ne n m d,
  bit-le w m,
)

digit_test : (d p x : ℕ) → d ≤ 1 → 1 ≤ p → x ≡ d * p → not (x == 0) ≡ (d == 1)
digit_test zero p x h k e = ground arith
digit_test (suc zero) p x h k e = ground arith
digit_test (suc (suc d)) p x h k e = absurd (omega arith)

-- `inner[v] & (1 << i) != 0` asks for one digit.
mask_test : (w n : ℕ) → not (bit_and w (2 ^ n) == 0) ≡ (bit w n == 1)
mask_test w n = digit_test (bit w n) (2 ^ n) _ (bit-le w n) (pow_pos n) (bit_and-pow w n)

pub usize_exact : {b : BitSet} → IsValid b → (j : ℕ) → j ≤ b.size → j % 2 ^ 64 ≡ j
usize_exact v j h = omega arith

pub word_at :
    {b : BitSet}
    → IsValid b
    → (j : ℕ) → j < b.size
    → (w : ℕ) × (get_elem? b.inner (j / 128) ≡ some w) × (w < 2 ^ 128)
word_at {b} v j h =
    let (w, e) = get_elem?_total b.inner (j / 128) (omega arith) in
    (w, e, All-get_elem? (λ u. u < 2 ^ 128) b.inner (j / 128) w v.words e)

-- A query below the size reads one digit of one word.
pub is_set-bit :
    {b : BitSet} (v : IsValid b) (j w : ℕ)
    → j < b.size
    → get_elem? b.inner (j / 128) ≡ some w
    → is_set b j ≡ ok (bit w (j % 128) == 1)
unfolding is_set
is_set-bit {b} v j w h e =
    rw (ge→ltb b.size j (omega arith), usize_exact v j (omega arith), e, mask_test w (j % 128)) refl

-- So no query below the size panics.
pub is_set_total :
    {b : BitSet} → IsValid b → (j : ℕ) → j < b.size → (x : Bool) × (is_set b j ≡ ok x)
is_set_total v j h = let (w, e, _) = word_at v j h in (bit w (j % 128) == 1, is_set-bit v j w h e)
