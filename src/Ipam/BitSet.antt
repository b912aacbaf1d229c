-- ===== src/Ipam/BitSet.antt =====
-- sartd/src/ipam/src/bitset.rs: a set of indices kept in 128-bit words.
-- A `u128` is a number below `2 ^ 128`; `usize` has 64 bits. A method that mutates returns the new
-- set beside its result; an index out of the vector's bounds is `panic`. Arithmetic wraps, as in a
-- release build.
pub mod Words
pub mod Update
pub mod Search
pub mod Clear
pub mod Tests
use Prim.Native.Nat.{bit_and, bit_or}
use sart.Common.{
  ℕ, zero, suc, ◌+◌, ◌-◌, ◌*◌, ◌/◌, ◌%◌, ◌^◌, Bool, true, false, not, Option, none, some, List, [],
  ◌∷◌, if◌then◌else◌, ltb, ◌==◌, length, get_elem?, replicate, Outcome, ok, err, panic, or_panic,
  ◌>>=◌,
}
use sart.Common

pub record BitSet : Type 0 where
  pub inner : List ℕ
  pub size : ℕ

pub data BitSetError : Type 0 where
  invalid_index full already_set : BitSetError

abbrev pub usize_mod : ℕ
usize_mod = 2 ^ 64

unfoldable pub new : ℕ → BitSet
new size =
    let l = size / 128 + (if ltb 0 (size % 128) then 1 else 0) in
    record { inner = replicate (l % usize_mod) 0; size = size }

unfoldable pub with_value : List ℕ → ℕ → BitSet
with_value value size = record { inner = value; size = size }

unfoldable pub get_inner_index : ℕ → ℕ × ℕ
get_inner_index index = (index % usize_mod / 128, index % usize_mod % 128)

unfoldable pub is_set : BitSet → ℕ → Outcome BitSetError Bool
unfolding get_inner_index
is_set b index = if ltb b.size index then ok false else do
  let (v, i) = get_inner_index index
  w ← or_panic (get_elem? b.inner v)
  ok (not (bit_and w (2 ^ i) == 0))

-- `|= 1 << n` and `&= !(1 << n)` on one word.
unfoldable pub write_bit : ℕ → ℕ → Bool → ℕ
write_bit w n true = bit_or w (2 ^ n)
write_bit w n false = bit_and w (2 ^ 128 - 1 - 2 ^ n)

unfoldable pub set : BitSet → ℕ → Bool → Outcome BitSetError (ℕ × BitSet)
unfolding get_inner_index
set b index value = if ltb b.size index then err invalid_index else do
  let (v, n) = get_inner_index index
  w ← or_panic (get_elem? b.inner v)
  ok (index, record b { inner = Common.set b.inner v (write_bit w n value) })

unfoldable pub set_true : BitSet → ℕ → Outcome BitSetError (ℕ × BitSet)
set_true b index = do
  present ← is_set b index
  if present then err already_set else set b index true

-- The inner loop of `get_min_unset_index`: `count` rounds are left, and `b` is shifted in each.
unfoldable pub scan_word : ℕ → ℕ → ℕ → Option ℕ
scan_word zero i b = none
scan_word (suc count) i b =
    let rest = scan_word count (i + 1) (b / 2) in if b % 2 == 0 then some i else rest

-- The outer loop, at word `n`.
unfoldable pub scan_words : ℕ → ℕ → ℕ → List ℕ → Outcome BitSetError ℕ
scan_words max_vec_idx max_idx n [] = err full
scan_words max_vec_idx max_idx n (v ∷ vs) =
    elim (scan_word (if max_vec_idx == n then max_idx else 128) 0 v) [
      | some i ↦ ok (n * 128 + i)
      | none ↦ scan_words max_vec_idx max_idx (n + 1) vs
    ]

unfoldable pub get_min_unset_index : BitSet → Outcome BitSetError ℕ
unfolding get_inner_index
get_min_unset_index b =
    let (max_vec_idx, max_idx) = get_inner_index b.size in scan_words max_vec_idx max_idx 0 b.inner

unfoldable pub set_next : BitSet → Outcome BitSetError (ℕ × BitSet)
set_next b = do index ← get_min_unset_index b; set b index true

unfoldable pub clear_all : BitSet → BitSet
clear_all b = record b { inner = replicate (length b.inner) 0 }

-- `iter().sum::<u128>()`
unfoldable pub sum_words : ℕ → List ℕ → ℕ
sum_words acc [] = acc
sum_words acc (w ∷ ws) = sum_words ((acc + w) % 2 ^ 128) ws

unfoldable pub is_empty : BitSet → Bool
is_empty b = sum_words 0 b.inner == 0

abbrev is_err : Outcome BitSetError ℕ → Bool
is_err (err e) = true
is_err (ok i) = false
is_err panic = false

unfoldable pub is_full : BitSet → Bool
is_full b = is_err (get_min_unset_index b)
