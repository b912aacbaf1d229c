-- ===== src/Common/Bits.antt =====
-- Bitwise operations on words of any width, through their binary digits.
use Prim.Native.Nat.{
  ℕ, zero, suc, ◌+◌, ◌-◌, ◌*◌, ◌/◌, ◌%◌, ◌^◌, ◌≤◌, ◌<◌, min, max, bit_and, bit_or, digits,
  bit_and-bitwise, bit_or-bitwise,
}
use mathlib.Core.Path.{◌≡◌, refl, sym, ◌∙◌, ap}
use mathlib.Core.Logic.{◌≢◌}
use native.Mathlib.Nat.{pow-suc}
use native.Mathlib.Omega.{arith}

-- The digit of weight `2 ^ i`.
unfoldable pub bit : ℕ → ℕ → ℕ
bit a zero = a % 2
bit a (suc i) = bit (a / 2) i

pub bit-le : (a i : ℕ) → bit a i ≤ 1
unfolding bit
bit-le a zero = omega arith
bit-le a (suc i) = bit-le (a / 2) i

pub pow_step : (n : ℕ) → 2 ^ suc n ≡ 2 * 2 ^ n
pow_step n = omega (arith, pow-suc 2 n)

pub pow_pos : (n : ℕ) → 1 ≤ 2 ^ n
pow_pos zero = omega arith
pow_pos (suc n) = omega (arith, pow_pos n, pow_step n)

pub pow-lt : (n k : ℕ) → n < k → 2 ^ n < 2 ^ k
pow-lt n zero h = elim h [ ]
pow-lt zero (suc k) h = omega (arith, pow_pos k, pow_step k)
pow-lt (suc n) (suc k) h = omega (arith, pow_step n, pow_step k, pow-lt n k (omega arith))

pub bit_zero : (i : ℕ) → bit 0 i ≡ 0
unfolding bit
bit_zero zero = refl
bit_zero (suc i) = bit_zero i

pub bits_zero : (k a : ℕ) → a < 2 ^ k → ((i : ℕ) → i < k → bit a i ≡ 0) → a ≡ 0
unfolding bit
bits_zero zero a h z = omega arith
bits_zero (suc k) a h z = omega (
  arith,
  z 0 (omega arith),
  bits_zero k (a / 2) (omega (arith, pow_step k)) (λ i l. z (suc i) (omega arith)),
)

-- The recursion behind the native operations has a bound on the digits; any bound will do.
module _ (base : ℕ → ℕ) (op : ℕ → ℕ → ℕ) where
  digits_nil : (n b : ℕ) → digits base op n zero b ≡ base b
  digits_nil zero b = refl
  digits_nil (suc n) b = refl

  enough_digits : (a b n m : ℕ) → a ≤ n → a ≤ m → digits base op n a b ≡ digits base op m a b
  enough_digits zero b n m h l = digits_nil n b ∙ sym (digits_nil m b)
  enough_digits (suc a) b zero m h l = absurd (omega arith)
  enough_digits (suc a) b (suc n) zero h l = absurd (omega arith)
  enough_digits (suc a) b (suc n) (suc m) h l =
      omega (arith, enough_digits (suc a / 2) (b / 2) n m (omega arith) (omega arith))

and_zero : (b : ℕ) → bit_and 0 b ≡ 0
and_zero b = bit_and-bitwise 0 b

or_zero : (b : ℕ) → bit_or 0 b ≡ b
or_zero b = bit_or-bitwise 0 b

bit_and_step : (a b : ℕ) → bit_and a b ≡ bit_and (a / 2) (b / 2) * 2 + min (a % 2) (b % 2)
bit_and_step zero b = omega (arith, and_zero b, and_zero (b / 2))
bit_and_step (suc a) b = omega (
  arith,
  bit_and-bitwise (suc a) b,
  bit_and-bitwise (suc a / 2) (b / 2),
  enough_digits (λ b. zero) min (suc a / 2) (b / 2) a (suc a / 2) (omega arith) (omega arith),
)

bit_or_step : (a b : ℕ) → bit_or a b ≡ bit_or (a / 2) (b / 2) * 2 + max (a % 2) (b % 2)
bit_or_step zero b = omega (arith, or_zero b, or_zero (b / 2))
bit_or_step (suc a) b = omega (
  arith,
  bit_or-bitwise (suc a) b,
  bit_or-bitwise (suc a / 2) (b / 2),
  enough_digits (λ b. b) max (suc a / 2) (b / 2) a (suc a / 2) (omega arith) (omega arith),
)

and_half : (a b : ℕ) → bit_and a b / 2 ≡ bit_and (a / 2) (b / 2)
and_half a b = omega (arith, bit_and_step a b)

or_half : (a b : ℕ) → bit_or a b / 2 ≡ bit_or (a / 2) (b / 2)
or_half a b = omega (arith, bit_or_step a b)

pub bit-bit_and : (a b i : ℕ) → bit (bit_and a b) i ≡ min (bit a i) (bit b i)
unfolding bit
bit-bit_and a b zero = omega (arith, bit_and_step a b)
bit-bit_and a b (suc i) = rw (and_half a b) (bit-bit_and (a / 2) (b / 2) i)

pub bit-bit_or : (a b i : ℕ) → bit (bit_or a b) i ≡ max (bit a i) (bit b i)
unfolding bit
bit-bit_or a b zero = omega (arith, bit_or_step a b)
bit-bit_or a b (suc i) = rw (or_half a b) (bit-bit_or (a / 2) (b / 2) i)

pow_half : (n : ℕ) → 2 ^ suc n / 2 ≡ 2 ^ n
pow_half n = omega (arith, pow_step n)

-- `1 << n` has one digit set.
pub bit-pow_self : (n : ℕ) → bit (2 ^ n) n ≡ 1
unfolding bit
bit-pow_self zero = refl
bit-pow_self (suc n) = rw (pow_half n) (bit-pow_self n)

pub bit-pow_ne : (n i : ℕ) → n ≢ i → bit (2 ^ n) i ≡ 0
unfolding bit
bit-pow_ne zero zero h = absurd (h refl)
bit-pow_ne zero (suc i) h = bit_zero i
bit-pow_ne (suc n) zero h = omega (arith, pow_step n)
bit-pow_ne (suc n) (suc i) h = rw (pow_half n) (bit-pow_ne n i (omega arith))

complement_half : (k a : ℕ) → a < 2 ^ suc k → (2 ^ suc k - 1 - a) / 2 ≡ 2 ^ k - 1 - a / 2
complement_half k a h = omega (arith, pow_step k, pow_pos k)

-- `!a` on `k` digits.
pub bit-complement : (k a i : ℕ) → a < 2 ^ k → i < k → bit (2 ^ k - 1 - a) i ≡ 1 - bit a i
unfolding bit
bit-complement zero a i h l = elim l [ ]
bit-complement (suc k) a zero h l = omega (arith, pow_step k, pow_pos k)
bit-complement (suc k) a (suc i) h l =
    rw (complement_half k a h)
      (bit-complement k (a / 2) i (omega (arith, pow_step k)) (omega arith))

and_zero_right : (n a : ℕ) → a ≤ n → bit_and a 0 ≡ 0
and_zero_right n zero h = and_zero 0
and_zero_right zero (suc a) h = absurd (omega arith)
and_zero_right (suc n) (suc a) h =
    omega (arith, bit_and_step (suc a) 0, and_zero_right n (suc a / 2) (omega arith))

-- `a & (1 << n)` isolates one digit.
pub bit_and-pow : (a n : ℕ) → bit_and a (2 ^ n) ≡ bit a n * 2 ^ n
unfolding bit
bit_and-pow a zero = omega (arith, bit_and_step a 1, and_zero_right (a / 2) (a / 2) (omega arith))
bit_and-pow a (suc n) = omega (
  arith,
  and_half a (2 ^ suc n),
  bit_and_step a (2 ^ suc n),
  rw (pow_half n) at (and_half a (2 ^ suc n)),
  bit_and-pow (a / 2) n,
  pow_step n,
  ap (λ (t : ℕ). bit (a / 2) n * t) (pow_step n),
)

pub bit_or-lt : (k a b : ℕ) → a < 2 ^ k → b < 2 ^ k → bit_or a b < 2 ^ k
bit_or-lt zero zero b h l = omega (arith, or_zero b)
bit_or-lt zero (suc a) b h l = absurd (omega arith)
bit_or-lt (suc k) a b h l = omega (
  arith,
  pow_step k,
  bit_or_step a b,
  bit_or-lt k (a / 2) (b / 2) (omega (arith, pow_step k)) (omega (arith, pow_step k)),
)

pub bit_and-le : (k a b : ℕ) → a < 2 ^ k → bit_and a b ≤ a
bit_and-le zero zero b h = omega (arith, and_zero b)
bit_and-le zero (suc a) b h = absurd (omega arith)
bit_and-le (suc k) a b h =
    omega (arith, bit_and_step a b, bit_and-le k (a / 2) (b / 2) (omega (arith, pow_step k)))
