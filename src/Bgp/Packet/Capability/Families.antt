-- ===== src/Bgp/Packet/Capability/Families.antt =====
-- The families in capabilities, read back from the bytes that they were written to.
use sart.Common.{
  ℕ, ◌+◌, ◌*◌, ◌/◌, ◌%◌, ◌^◌, ◌<◌, ◌≡◌, refl, Bool, true, false, List, [], ◌∷◌, ◌++◌, length,
  length-append, All, ok, arith,
}
use mathlib.Core.List.{append_assoc}
use sart.Net.{be_bytes}
use sart.Bgp.Error.{Error}
use sart.Bgp.Family.{Afi, Safi, AddressFamily, afi_number, safi_number, family_new}
use sart.Bgp.Family.RoundTrip.{family_try_from-family_number}
use sart.Bgp.Packet.Attribute.Decode.{remaining_above}
use sart.Bgp.Packet.Attribute.Loops.{above_go, above_stop}
use sart.Bgp.Packet.Buffer.{Reader, put, read_all}
use sart.Bgp.Packet.Buffer.RoundTrip.{
  get_be-put, length-be_bytes, Inverts, put_all, read_all-put_all,
}
use sart.Bgp.Packet.Capability.{
  extended_next_hop, graceful_restart, decode_next_hop, decode_family_byte,
  decode_extended_next_hop, decode_graceful_restart, put_next_hop, put_family_byte, put_each,
  cap_family,
}

abbrev pub IsBelow : ℕ → AddressFamily × ℕ → Type 0
IsBelow bound x = x.1 < bound

-- The number of the SAFI, as the low byte of two.
family_of :
    (f : AddressFamily)
    → cap_family (family_new (afi_number f.afi) (safi_number f.safi % 256)) ≡ ok f
unfolding family_new safi_number afi_number
family_of f = go f.afi f.safi
  where
    go :
        (a : Afi) (s : Safi)
        → cap_family (family_new (afi_number a) (safi_number s % 256))
          ≡ ok (record { afi = a; safi = s })
    go Afi.ipv4 Safi.unicast = refl
    go Afi.ipv4 Safi.multicast = refl
    go Afi.ipv6 Safi.unicast = refl
    go Afi.ipv6 Safi.multicast = refl

numbers_small : (f : AddressFamily) → (afi_number f.afi < 256) × (safi_number f.safi < 256)
unfolding safi_number afi_number
numbers_small f = go f.afi f.safi
  where
    go : (a : Afi) (s : Safi) → (afi_number a < 256) × (safi_number s < 256)
    go Afi.ipv4 Safi.unicast = omega arith
    go Afi.ipv4 Safi.multicast = omega arith
    go Afi.ipv6 Safi.unicast = omega arith
    go Afi.ipv6 Safi.multicast = omega arith

pub decode_next_hop-put_next_hop :
    (x : AddressFamily × ℕ) (rest : List ℕ)
    → IsBelow (2 ^ 16) x
    → decode_next_hop (put_next_hop x ++ rest) ≡ ok (x, rest)
unfolding decode_next_hop put_next_hop
decode_next_hop-put_next_hop (f, n) rest h =
    let a = afi_number f.afi in
    let s = safi_number f.safi in
    let small = numbers_small f in
    rw
      (
        append_assoc (put 2 a ++ put 2 s) (put 2 n) rest,
        append_assoc (put 2 a) (put 2 s) (put 2 n ++ rest),
        get_be-put {E = Error} 2 a (put 2 s ++ (put 2 n ++ rest)) (omega (arith, small)),
        get_be-put {E = Error} 2 s (put 2 n ++ rest) (omega (arith, small)),
        family_of f,
        get_be-put {E = Error} 2 n rest h,
      )
      refl

pub decode_family_byte-put_family_byte :
    (x : AddressFamily × ℕ) (rest : List ℕ)
    → IsBelow 256 x
    → decode_family_byte (put_family_byte x ++ rest) ≡ ok (x, rest)
unfolding decode_family_byte put_family_byte
decode_family_byte-put_family_byte (f, n) rest h =
    let a = afi_number f.afi in
    let s = safi_number f.safi in
    let small = numbers_small f in
    let back = family_try_from-family_number f in
    rw
      (
        append_assoc (put 2 a ++ put 1 s) (put 1 n) rest,
        append_assoc (put 2 a) (put 1 s) (put 1 n ++ rest),
        get_be-put {E = Error} 2 a (put 1 s ++ (put 1 n ++ rest)) (omega (arith, small)),
        get_be-put {E = Error} 1 s (put 1 n ++ rest) (omega (arith, small)),
        back.1,
        get_be-put {E = Error} 1 n rest (omega (arith, h)),
      )
      refl

-- The loop over values of `width` bytes.
module _ (bound width : ℕ) (encode : AddressFamily × ℕ → List ℕ)
    (read : Reader Error (AddressFamily × ℕ)) (inv : Inverts (IsBelow bound) encode read)
    (size : (x : AddressFamily × ℕ) → length (encode x) ≡ width) (wide : 0 < width) where
  put_each-put_all :
      (xs : List (AddressFamily × ℕ)) → put_each encode xs ≡ put_all (IsBelow bound) encode read xs
  put_each-put_all [] = refl
  put_each-put_all (x ∷ xs) = rw (put_each-put_all xs) refl

  pub length-put_each :
      (xs : List (AddressFamily × ℕ)) → length (put_each encode xs) ≡ length xs * width
  length-put_each [] = omega arith
  length-put_each (x ∷ xs) =
      grind (arith, length-append (encode x) (put_each encode xs), size x, length-put_each xs)

  read_each :
      (more : ℕ → Bool) (xs : List (AddressFamily × ℕ)) (rest : List ℕ)
      → ((n : ℕ) → length rest < n → more n ≡ true)
      → more (length rest) ≡ false
      → All (IsBelow bound) xs
      → read_all more read (put_each encode xs ++ rest) ≡ ok (xs, rest)
  read_each more xs rest go stop h = rw (put_each-put_all xs) (
      read_all-put_all (IsBelow bound) encode read inv (λ x _. omega (arith, size x, wide)) more
        rest go stop xs h)

pub length-put_next_hop : (x : AddressFamily × ℕ) → length (put_next_hop x) ≡ 6
unfolding put_next_hop be_bytes
length-put_next_hop (f, n) = refl

pub length-put_family_byte : (x : AddressFamily × ℕ) → length (put_family_byte x) ≡ 4
unfolding put_family_byte be_bytes
length-put_family_byte (f, n) = refl

pub next_hops_back :
    (xs : List (AddressFamily × ℕ)) (rest : List ℕ)
    → length rest < 2 ^ 64
    → All (IsBelow (2 ^ 16)) xs
    → decode_extended_next_hop (length xs * 6) (put_each put_next_hop xs ++ rest)
      ≡ ok (extended_next_hop xs, rest)
unfolding decode_extended_next_hop
next_hops_back xs rest room h =
    let bytes = put_each put_next_hop xs in
    let whole = length (bytes ++ rest) in
    let total : whole ≡ length xs * 6 + length rest = omega (
      arith,
      length-append bytes rest,
      length-put_each (2 ^ 16) 6 put_next_hop decode_next_hop decode_next_hop-put_next_hop
          length-put_next_hop (omega arith) xs,
    ) in
    rw
      (read_each (2 ^ 16) 6 put_next_hop decode_next_hop decode_next_hop-put_next_hop
        length-put_next_hop (omega arith) (remaining_above whole (length xs * 6)) xs rest
        (λ n l. above_go whole (length xs * 6) (length rest) n total room l)
        (above_stop whole (length xs * 6) (length rest) total room) h)
      refl

pub families_back :
    (flag time : ℕ) (xs : List (AddressFamily × ℕ)) (rest : List ℕ)
    → length rest < 2 ^ 64
    → flag < 16
    → time < 2 ^ 12
    → All (IsBelow 256) xs
    → decode_graceful_restart
        (2 + length xs * 4)
        ((put 2 (flag * 2 ^ 12 + time % 2 ^ 12) ++ put_each put_family_byte xs) ++ rest)
      ≡ ok (graceful_restart flag time xs, rest)
unfolding decode_graceful_restart
families_back flag time xs rest room hf ht h =
    let bytes = put_each put_family_byte xs in
    let head : ℕ = flag * 2 ^ 12 + time % 2 ^ 12 in
    let len : ℕ = 2 + length xs * 4 in
    let whole = length (put 2 head ++ (bytes ++ rest)) in
    let total : whole ≡ len + length rest = omega (
      arith,
      length-append (put 2 head) (bytes ++ rest),
      length-be_bytes 2 head [],
      length-append bytes rest,
      length-put_each 256 4 put_family_byte decode_family_byte decode_family_byte-put_family_byte
          length-put_family_byte (omega arith) xs,
    ) in
    let high : head / 2 ^ 12 ≡ flag = omega arith in
    let low : head % 2 ^ 12 ≡ time = omega arith in
    rw
      (
        append_assoc (put 2 head) bytes rest,
        get_be-put {E = Error} 2 head (bytes ++ rest) (omega arith),
        read_each 256 4 put_family_byte decode_family_byte decode_family_byte-put_family_byte
            length-put_family_byte (omega arith) (remaining_above whole len) xs rest
            (λ n l. above_go whole len (length rest) n total room l)
            (above_stop whole len (length rest) total room) h,
        high,
        low,
      )
      refl
