-- ===== src/Ipam/Allocator/Octets.antt =====
-- The sums of shifted octets are the numbers that the addresses stand for.
use sart.Common.{
  ℕ, zero, suc, ◌+◌, ◌-◌, ◌*◌, ◌%◌, ◌^◌, ◌≤◌, ◌<◌, ◌≡◌, refl, sym, ap, ◌∙◌, List, [], ◌∷◌, length,
  get_or, drop, All, drop-cons, drop_all, length-drop, All-drop, arith,
}
use native.Mathlib.Nat.{pow-suc, le_trans, mod-eq_of_lt}
use native.Mathlib.Numerals.{towards_suc}
use sart.Net.{Ipv4Addr, Ipv6Addr, IsIpv4, IsIpv6, IsByte, value4, value6, be_value}
use sart.Net.Value.{be_value_bounds}
use sart.Ipam.Allocator.{octets_bits4, octets_bits6, octets_loop}

pub octets_bits4-value4 : (x : Ipv4Addr) → IsIpv4 x → octets_bits4 x ≡ value4 x
unfolding octets_bits4
octets_bits4-value4 x h = omega arith

-- A shift by `i` bytes.
shift_eight : (s : ℕ) → 2 ^ (s + 8) ≡ 256 * 2 ^ s
shift_eight s = simp towards_suc (omega arith)

byte_shift : (i : ℕ) → 2 ^ (i * 8) ≡ 256 ^ i
byte_shift zero = refl
byte_shift (suc i) =
    ap (λ t. 2 ^ t) eight_more ∙ shift_eight (i * 8) ∙ omega (arith, byte_shift i, pow-suc 256 i)
  where
    eight_more : suc i * 8 ≡ i * 8 + 8
    eight_more = omega arith

be_value_linear : (xs : List ℕ) (acc : ℕ) → be_value acc xs ≡ acc * 256 ^ length xs + be_value 0 xs
unfolding be_value
be_value_linear [] acc = omega arith
be_value_linear (x ∷ xs) acc =
    be_value_linear xs (acc * 256 + x)
    ∙ omega
        (arith, be_value_linear xs (0 * 256 + x), ap (λ (t : ℕ). acc * t) (pow-suc 256 (length xs)))

pow256_mono : (n k : ℕ) → n ≤ k → 256 ^ n ≤ 256 ^ k
pow256_mono zero zero h = omega arith
pow256_mono zero (suc k) h = omega (arith, pow-suc 256 k, pow256_mono zero k (omega arith))
pow256_mono (suc n) zero h = absurd (omega arith)
pow256_mono (suc n) (suc k) h =
    omega (arith, pow-suc 256 n, pow-suc 256 k, pow256_mono n k (omega arith))

value_cons :
    (o : ℕ) (ys : List ℕ) (i : ℕ)
    → length ys ≡ i
    → be_value 0 (o ∷ ys) ≡ o * 256 ^ i + be_value 0 ys
unfolding be_value
value_cons o ys i e = be_value_linear ys (0 * 256 + o) ∙ rw e (omega arith)

sixteen_here : (i : ℕ) → 0 + i ≡ 16 → i ≡ 16
sixteen_here i h = omega arith

next : (i : ℕ) → suc i ≡ i + 1
next i = omega arith

module _ (xs : List ℕ) (sixteen : length xs ≡ 16) (bytes : All IsByte xs) where
  last_octets : ℕ → List ℕ
  last_octets i = drop (16 - i) xs

  length-last_octets : (i : ℕ) → i ≤ 16 → length (last_octets i) ≡ i
  unfolding last_octets
  length-last_octets i h = omega (arith, length-drop (16 - i) xs)

  last_octets-lt : (i : ℕ) → i ≤ 16 → be_value 0 (last_octets i) < 256 ^ 16
  last_octets-lt i h =
      let (_, hi) =
        be_value_bounds (last_octets i) 0
          (unfold last_octets in All-drop IsByte (16 - i) xs bytes) in
      le_trans hi (rw (length-last_octets i h) (omega (arith, pow256_mono i 16 h)))

  last_octets-suc : (i : ℕ) → i < 16 → last_octets (suc i) ≡ get_or xs (15 - i) 0 ∷ last_octets i
  unfolding last_octets
  last_octets-suc i h =
      ap (λ n. drop n xs) here
      ∙ drop-cons xs (15 - i) 0 (omega arith)
      ∙ ap (λ n. get_or xs (15 - i) 0 ∷ drop n xs) next
    where
      here : 16 - suc i ≡ 15 - i
      here = omega arith

      next : suc (15 - i) ≡ 16 - i
      next = omega arith

  more_octets :
      (i : ℕ)
      → i < 16
      → be_value 0 (last_octets i) + get_or xs (15 - i) 0 * 2 ^ (i * 8)
        ≡ be_value 0 (last_octets (suc i))
  more_octets i h = rw (last_octets-suc i h) (
      omega (
        arith,
        value_cons (get_or xs (15 - i) 0) (last_octets i) i (length-last_octets i (omega arith)),
        ap (λ (t : ℕ). get_or xs (15 - i) 0 * t) (byte_shift i),
      ))

  -- One round moves one more octet, from the right, into the sum.
  octets_round :
      (i : ℕ)
      → i < 16
      → (be_value 0 (last_octets i) + get_or xs (15 - i) 0 * 2 ^ (i * 8)) % 2 ^ 128
        ≡ be_value 0 (last_octets (suc i))
  octets_round i h =
      ap (λ n. n % 2 ^ 128) (more_octets i h) ∙ mod-eq_of_lt (last_octets-lt (suc i) h)

  octets_loop-be_value :
      (count i : ℕ)
      → count + i ≡ 16
      → octets_loop count i xs (be_value 0 (last_octets i)) ≡ be_value 0 xs
  unfolding octets_loop last_octets
  octets_loop-be_value zero i h = ap (λ n. be_value 0 (drop (16 - n) xs)) (sixteen_here i h)
  octets_loop-be_value (suc count) i h =
      ap (octets_loop count (i + 1) xs)
        (octets_round i (omega arith) ∙ ap (λ n. be_value 0 (drop (16 - n) xs)) (next i))
      ∙ octets_loop-be_value count (i + 1) (omega arith)

-- The loop over the sixteen octets of an IPv6 address computes its big-endian value.
pub octets_bits6-value6 : (x : Ipv6Addr) → IsIpv6 x → octets_bits6 x ≡ value6 x
unfolding octets_bits6 value6 last_octets be_value
octets_bits6-value6 x h =
    ap (octets_loop 16 0 x.octets) none_left
    ∙ octets_loop-be_value x.octets h.sixteen h.bytes 16 0 refl
  where
    none_left : 0 ≡ be_value 0 (drop 16 x.octets)
    none_left = sym (
        ap (λ n. be_value 0 (drop n x.octets)) (sym h.sixteen)
        ∙ ap (be_value 0) (drop_all x.octets))
