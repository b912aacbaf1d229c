-- ===== src/Bgp/Packet/Buffer/RoundTrip.antt =====
-- What was written is read back.
use sart.Common.{
  ℕ, zero, suc, ◌+◌, ◌*◌, ◌/◌, ◌%◌, ◌^◌, ◌≤◌, ◌<◌, ◌≡◌, refl, ap, ◌∙◌, subst, Bool, true, false,
  List, [], ◌∷◌, ◌++◌, length, length-append, All, ok, arith,
}
use mathlib.Core.List.{append_assoc}
use sart.Net.{be_bytes, be_value}
use sart.Net.Value.{be_value-be_bytes}
use sart.Bgp.Packet.Buffer.{Reader, get_be, put, take_bytes, read_while, read_all, read_times}

-- The bytes in front of a rest.
pub be_bytes-append :
    (k n : ℕ) (xs rest : List ℕ) → be_bytes k n xs ++ rest ≡ be_bytes k n (xs ++ rest)
unfolding be_bytes
be_bytes-append zero n xs rest = refl
be_bytes-append (suc k) n xs rest = be_bytes-append k (n / 256) ((n % 256) ∷ xs) rest

pub length-be_bytes : (k n : ℕ) (xs : List ℕ) → length (be_bytes k n xs) ≡ k + length xs
unfolding be_bytes
length-be_bytes zero n xs = omega arith
length-be_bytes (suc k) n xs = omega (arith, length-be_bytes k (n / 256) ((n % 256) ∷ xs))

-- The bytes of a number, read to its value.
pub get_be-append :
    {E : Type 0} (xs rest : List ℕ) (acc : ℕ)
    → get_be {E = E} (length xs) acc (xs ++ rest) ≡ ok (be_value acc xs, rest)
unfolding get_be be_value
get_be-append [] rest acc = refl
get_be-append (x ∷ xs) rest acc = get_be-append xs rest (acc * 256 + x)

pub get_be-put :
    {E : Type 0} (k n : ℕ) (rest : List ℕ)
    → n < 256 ^ k
    → get_be {E = E} k 0 (put k n ++ rest) ≡ ok (n, rest)
get_be-put {E} k n rest h =
    let size : length (put k n) ≡ k = omega (arith, length-be_bytes k n []) in
    let value : be_value 0 (put k n) ≡ n =
      be_value-be_bytes k n 0 [] h ∙ unfold be_value in omega arith in
    subst (λ j. get_be {E = E} j 0 (put k n ++ rest) ≡ ok (be_value 0 (put k n), rest)) size
      (get_be-append (put k n) rest 0)
    ∙ ap (λ t. ok (t, rest)) value

pub take_bytes-append : (xs rest : List ℕ) → take_bytes (length xs) (xs ++ rest) ≡ (xs, rest)
unfolding take_bytes
take_bytes-append [] rest = refl
take_bytes-append (x ∷ xs) rest = rw (take_bytes-append xs rest) refl

module _ {A E : Type 0} (P : A → Type 0) (encode : A → List ℕ) (read : Reader E A) where
  -- A reader takes off a buffer what the encoder put in front of it.
  abbrev pub Inverts : Type 0
  Inverts = (x : A) (rest : List ℕ) → P x → read (encode x ++ rest) ≡ ok (x, rest)

  abbrev pub put_all : List A → List ℕ
  put_all [] = []
  put_all (x ∷ xs) = encode x ++ put_all xs

  pub read_times-put_all :
      Inverts
      → (xs : List A) (rest : List ℕ) → All P xs
      → read_times (length xs) read (put_all xs ++ rest) ≡ ok (xs, rest)
  unfolding read_times
  read_times-put_all inv [] rest h = refl
  read_times-put_all inv (x ∷ xs) rest h =
      rw
        (
          append_assoc (encode x) (put_all xs) rest,
          inv x (put_all xs ++ rest) h.0,
          read_times-put_all inv xs rest h.1,
        )
        refl

  -- The same, for the buffers with fewer than `bound` bytes behind the value.
  abbrev pub InvertsBelow : ℕ → Type 0
  InvertsBelow bound =
      (x : A) (rest : List ℕ) → P x → length rest < bound → read (encode x ++ rest) ≡ ok (x, rest)

  pub read_while-put_all :
      (bound : ℕ)
      → InvertsBelow bound
      → ((x : A) → P x → 0 < length (encode x))
      → (more : ℕ → Bool) (rest : List ℕ) → ((n : ℕ) → length rest < n → more n ≡ true)
      → more (length rest) ≡ false
      → (xs : List A) (f : ℕ) → All P xs
      → length (put_all xs ++ rest) ≤ bound
      → length (put_all xs) < f
      → read_while more read f (put_all xs ++ rest) ≡ ok (xs, rest)
  unfolding read_while
  read_while-put_all bound inv pos more rest go stop xs zero h room l = absurd (omega arith)
  read_while-put_all bound inv pos more rest go stop [] (suc f) h room l =
      rw (read_while, stop) refl
  read_while-put_all bound inv pos more rest go stop (x ∷ xs) (suc f) h room l =
      let size : length (encode x ++ put_all xs) ≡ length (encode x) + length (put_all xs) =
        length-append (encode x) (put_all xs) in
      let whole : length ((encode x ++ put_all xs) ++ rest)
          ≡ length (encode x ++ put_all xs) + length rest =
        length-append (encode x ++ put_all xs) rest in
      let tail = length-append (put_all xs) rest in
      let p = pos x h.0 in
      rw
        (
          read_while,
          go (length ((encode x ++ put_all xs) ++ rest)) (omega (arith, size, whole)),
          append_assoc (encode x) (put_all xs) rest,
          inv x (put_all xs ++ rest) h.0 (omega (arith, size, whole, tail, room)),
          read_while-put_all bound inv pos more rest go stop xs f h.1
              (omega (arith, size, whole, tail, room)) (omega (arith, size)),
        )
        refl

  pub read_all-put_all_below :
      (bound : ℕ)
      → InvertsBelow bound
      → ((x : A) → P x → 0 < length (encode x))
      → (more : ℕ → Bool) (rest : List ℕ) → ((n : ℕ) → length rest < n → more n ≡ true)
      → more (length rest) ≡ false
      → (xs : List A) → All P xs
      → length (put_all xs ++ rest) ≤ bound
      → read_all more read (put_all xs ++ rest) ≡ ok (xs, rest)
  unfolding read_all
  read_all-put_all_below bound inv pos more rest go stop xs h room =
      read_while-put_all bound inv pos more rest go stop xs (suc (length (put_all xs ++ rest))) h
        room (omega (arith, length-append (put_all xs) rest))

  pub read_all-put_all :
      Inverts
      → ((x : A) → P x → 0 < length (encode x))
      → (more : ℕ → Bool) (rest : List ℕ) → ((n : ℕ) → length rest < n → more n ≡ true)
      → more (length rest) ≡ false
      → (xs : List A) → All P xs
      → read_all more read (put_all xs ++ rest) ≡ ok (xs, rest)
  read_all-put_all inv pos more rest go stop xs h =
      read_all-put_all_below (length (put_all xs ++ rest)) (λ x r p _. inv x r p) pos more rest go
        stop xs h (omega arith)
