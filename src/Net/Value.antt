-- ===== src/Net/Value.antt =====
-- Addresses and the numbers that they stand for.
use sart.Common.{
  ℕ, zero, suc, ◌+◌, ◌*◌, ◌/◌, ◌%◌, ◌^◌, ◌≤◌, ◌<◌, ◌≡◌, refl, ap, ◌∙◌, List, [], ◌∷◌, ◌++◌, length,
  All, arith, subst,
}
use mathlib.Core.List.{append-nil}
use native.Mathlib.Nat.{pow-suc, le_trans, div-div-eq-div-mul, div-eq_of_lt-le}
use mathlib.Core.Path.{ap₂}
use sart.Net.{
  Ipv4Addr, Ipv6Addr, value4, from_value4, IsIpv4, IsIpv6, IsByte, be_bytes, be_value, value6,
  from_value6,
}

pub value4-lt : (x : Ipv4Addr) → IsIpv4 x → value4 x < 2 ^ 32
value4-lt x h = omega arith

pub value4-from_value4 : (n : ℕ) → n < 2 ^ 32 → value4 (from_value4 n) ≡ n
value4-from_value4 n h = omega arith

pub from_value4-value4 : (x : Ipv4Addr) → IsIpv4 x → from_value4 (value4 x) ≡ x
from_value4-value4 x h = ground arith

pub from_value4-IsIpv4 : (n : ℕ) → IsIpv4 (from_value4 n)
from_value4-IsIpv4 n = omega arith

pub be_value-be_bytes :
    (k n acc : ℕ) (rest : List ℕ)
    → n < 256 ^ k
    → be_value acc (be_bytes k n rest) ≡ be_value (acc * 256 ^ k + n) rest
unfolding be_bytes be_value
be_value-be_bytes zero n acc rest h = ap (λ t. be_value t rest) (omega arith)
be_value-be_bytes (suc k) n acc rest h =
    be_value-be_bytes k (n / 256) acc ((n % 256) ∷ rest) (omega (arith, pow-suc 256 k))
    ∙ ap (λ t. be_value t rest) (omega (arith, ap (λ (t : ℕ). acc * t) (pow-suc 256 k)))

pub value6-from_value6 : (n : ℕ) → n < 2 ^ 128 → value6 (from_value6 n) ≡ n
unfolding value6 from_value6
value6-from_value6 n h = be_value-be_bytes 16 n 0 [] (omega arith) ∙ unfold be_value in omega arith

-- The bytes once more, highest first.
div_pow : (n k : ℕ) → n / 256 / 256 ^ k ≡ n / 256 ^ suc k
div_pow n k = div-div-eq-div-mul n 256 (256 ^ k) ∙ ap (λ t. n / t) (omega (arith, pow-suc 256 k))

be_bytes_high :
    (k n : ℕ) (rest : List ℕ) → be_bytes (suc k) n rest ≡ (n / 256 ^ k % 256) ∷ be_bytes k n rest
unfolding be_bytes
be_bytes_high zero n rest = ground arith
be_bytes_high (suc k) n rest = be_bytes_high k (n / 256) ((n % 256) ∷ rest) ∙ rw (div_pow n k) refl

low_step : (acc x p : ℕ) → acc * (p * 256) ≤ (acc * 256 + x) * p
low_step acc x p = omega arith

high_step : (acc x p : ℕ) → x < 256 → (acc * 256 + x + 1) * p ≤ (acc + 1) * (p * 256)
high_step acc x p h = grind arith

pub be_value_bounds :
    (xs : List ℕ) (acc : ℕ)
    → All IsByte xs
    → (acc * 256 ^ length xs ≤ be_value acc xs) × (be_value acc xs < (acc + 1) * 256 ^ length xs)
unfolding be_value
be_value_bounds [] acc h = omega arith
be_value_bounds (x ∷ xs) acc h =
    let (lo, hi) = be_value_bounds xs (acc * 256 + x) h.1 in
    (
      rw (pow-suc 256 (length xs)) (le_trans (low_step acc x (256 ^ length xs)) lo),
      rw (pow-suc 256 (length xs)) (le_trans hi (high_step acc x (256 ^ length xs) h.0)),
    )

pow_pos : (k : ℕ) → 0 < 256 ^ k
pow_pos zero = omega arith
pow_pos (suc k) = omega (arith, pow-suc 256 k, pow_pos k)

be_value-div : (xs : List ℕ) (acc : ℕ) → All IsByte xs → be_value acc xs / 256 ^ length xs ≡ acc
be_value-div xs acc h =
    let (lo, hi) = be_value_bounds xs acc h in div-eq_of_lt-le (256 ^ length xs) lo hi

be_bytes-be_value :
    (xs rest : List ℕ) (acc : ℕ)
    → All IsByte xs
    → be_bytes (length xs) (be_value acc xs) rest ≡ xs ++ rest
unfolding be_value
be_bytes-be_value [] rest acc h = unfold be_bytes in refl
be_bytes-be_value (x ∷ xs) rest acc h =
    be_bytes_high (length xs) (be_value (acc * 256 + x) xs) rest
    ∙ ap₂ ◌∷◌ (rw (be_value-div xs (acc * 256 + x) h.1) (omega arith))
        (be_bytes-be_value xs rest (acc * 256 + x) h.1)

pub from_value6-value6 : (x : Ipv6Addr) → IsIpv6 x → from_value6 (value6 x) ≡ x
unfolding from_value6 value6
from_value6-value6 x h = ap (λ o. record { octets = o }) same
  where
    same : be_bytes 16 (be_value 0 x.octets) [] ≡ x.octets
    same =
        subst (λ n. be_bytes n (be_value 0 x.octets) [] ≡ x.octets) h.sixteen
          (be_bytes-be_value x.octets [] 0 h.bytes ∙ append-nil x.octets)

be_bytes_shape :
    (k n : ℕ) (rest : List ℕ)
    → All IsByte rest
    → (length (be_bytes k n rest) ≡ k + length rest) × All IsByte (be_bytes k n rest)
unfolding be_bytes
be_bytes_shape zero n rest h = (omega arith, h)
be_bytes_shape (suc k) n rest h =
    let (l, b) = be_bytes_shape k (n / 256) ((n % 256) ∷ rest) (omega arith, h) in
    (omega (arith, l), b)

pub from_value6-IsIpv6 : (n : ℕ) → IsIpv6 (from_value6 n)
unfolding from_value6
from_value6-IsIpv6 n = let (l, b) = be_bytes_shape 16 n [] tt in record { sixteen = l; bytes = b }

pub value6-lt : (x : Ipv6Addr) → IsIpv6 x → value6 x < 2 ^ 128
unfolding value6
value6-lt x h =
    let (_, hi) = be_value_bounds x.octets 0 h.bytes in
    omega (arith, ap (λ (n : ℕ). (0 + 1) * 256 ^ n) h.sixteen)
