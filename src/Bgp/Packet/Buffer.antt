-- ===== src/Bgp/Packet/Buffer.antt =====
-- The buffer `bytes::BytesMut` as the list of its bytes. A read takes from the front and panics
-- where too few bytes are left; a write appends, so an encoder is the list that it writes.
pub mod Loops
pub mod Shrinks
pub mod RoundTrip
use sart.Common.{
  ℕ, zero, suc, ◌+◌, ◌-◌, ◌*◌, ◌%◌, ◌^◌, Bool, true, false, List, [], ◌∷◌, length, replicate,
  Outcome, ok, panic, ◌>>=◌,
}
use sart.Net.{be_bytes}

-- A decoder of `A`, with the rest of the buffer.
abbrev pub Reader : Type 0 → Type 0 → Type 0
Reader E A = List ℕ → Outcome E (A × List ℕ)

-- A big-endian number of `k` bytes: `get_u8` and the like.
unfoldable pub get_be : {E : Type 0} → ℕ → ℕ → Reader E ℕ
get_be zero acc d = ok (acc, d)
get_be (suc k) acc [] = panic
get_be (suc k) acc (x ∷ d) = get_be k (acc * 256 + x) d

abbrev pub get_u8 : {E : Type 0} → Reader E ℕ
get_u8 d = get_be 1 0 d

abbrev pub get_u16 : {E : Type 0} → Reader E ℕ
get_u16 d = get_be 2 0 d

abbrev pub get_u32 : {E : Type 0} → Reader E ℕ
get_u32 d = get_be 4 0 d

abbrev pub get_u64 : {E : Type 0} → Reader E ℕ
get_u64 d = get_be 8 0 d

abbrev pub get_u128 : {E : Type 0} → Reader E ℕ
get_u128 d = get_be 16 0 d

-- `put_u8` and the like, on the low bytes of the number.
abbrev pub put : ℕ → ℕ → List ℕ
put k n = be_bytes k n []

-- `take(n)` moved into a vector: what there is, up to `n` bytes.
unfoldable pub take_bytes : ℕ → List ℕ → List ℕ × List ℕ
take_bytes zero d = ([], d)
take_bytes (suc n) [] = ([], [])
take_bytes (suc n) (x ∷ d) = let (taken, rest) = take_bytes n d in (x ∷ taken, rest)

-- The difference of two `usize`, which wraps.
abbrev pub sub_usize : ℕ → ℕ → ℕ
sub_usize a b = (a + 2 ^ 64 - b) % 2 ^ 64

-- `while more(data.remaining()) { push(read(data)?) }`. A round takes a byte at least, so a fuel above
-- the number of bytes does not run out.
unfoldable pub read_while : {E A : Type 0} → (ℕ → Bool) → Reader E A → ℕ → Reader E (List A)
read_while more read zero d = panic
read_while more read (suc f) d = elim (more (length d)) [
  | false ↦ ok ([], d)
  | true ↦ read d >>= λ r. read_while more read f r.1 >>= λ s. ok (r.0 ∷ s.0, s.1)
]

unfoldable pub read_all : {E A : Type 0} → (ℕ → Bool) → Reader E A → Reader E (List A)
unfolding read_while
read_all more read d = read_while more read (suc (length d)) d

-- `for _ in 0..n { push(read(data)) }`
unfoldable pub read_times : {E A : Type 0} → ℕ → Reader E A → Reader E (List A)
read_times zero read d = ok ([], d)
read_times (suc n) read d = read d >>= λ r. read_times n read r.1 >>= λ s. ok (r.0 ∷ s.0, s.1)
