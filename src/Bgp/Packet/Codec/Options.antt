-- ===== src/Bgp/Packet/Codec/Options.antt =====
-- The capabilities of an OPEN message, each an optional parameter of its own, are read back.
use sart.Common.{
  ℕ, zero, suc, ◌+◌, ◌%◌, ◌^◌, ◌<◌, ◌≤◌, ◌≡◌, refl, ap, subst, List, [], ◌∷◌, ◌++◌, map, length,
  length-append, All, ok, arith, ltb, lt→ltb, ge→ltb,
}
use mathlib.Core.List.{append_assoc}
use sart.Bgp.Error.{Error}
use sart.Bgp.Packet.Buffer.{put, read_all}
use sart.Bgp.Packet.Buffer.RoundTrip.{
  get_be-put, length-be_bytes, put_all, InvertsBelow, read_all-put_all_below,
}
use sart.Bgp.Packet.Capability.{Cap, cap_code, cap_len, encode_cap, encode_cap_value}
use sart.Bgp.Packet.Capability.RoundTrip.{
  IsCap, decode_cap-encode_cap_value, length-encode_cap_value,
}
use sart.Bgp.Packet.Codec.{read_caps, decode_option, concat}
use sart.Bgp.Packet.Codec.Encode.{put_options, sum_options}

-- The code is a byte, and so is the length of the parameter.
pub record IsOption (cap : Cap) : Type 0 where
  pub is_cap : IsCap cap
  pub code_byte : cap_code cap < 256
  pub len_byte : cap_len cap + 2 < 256

read_caps_end : (f n : ℕ) (d : List ℕ) → 0 < f → read_caps f n n d ≡ ok ([], d)
unfolding read_caps
read_caps_end zero n d h = absurd (omega arith)
read_caps_end (suc f) n d h = rw (read_caps, ge→ltb n n (omega arith)) refl

read_caps-encode_cap :
    (cap : Cap) (f : ℕ) (rest : List ℕ)
    → IsOption cap
    → length rest < 2 ^ 64
    → 0 < f
    → read_caps (suc f) (cap_len cap + 2) 0 (encode_cap cap ++ rest) ≡ ok (cap ∷ [], rest)
unfolding read_caps encode_cap
read_caps-encode_cap cap f rest h room pos =
    let code = cap_code cap in
    let len = cap_len cap in
    let value = encode_cap_value cap in
    let next : (0 + (len + 2) % 2 ^ 8) % 2 ^ 8 ≡ len + 2 = omega (arith, h.len_byte) in
    rw
      (
        read_caps,
        lt→ltb 0 (len + 2) (omega arith),
        append_assoc (put 1 code ++ put 1 len) value rest,
        append_assoc (put 1 code) (put 1 len) (value ++ rest),
        get_be-put {E = Error} 1 code (put 1 len ++ (value ++ rest)) (omega (arith, h.code_byte)),
        get_be-put {E = Error} 1 len (value ++ rest) (omega (arith, h.len_byte)),
        decode_cap-encode_cap_value cap rest h.is_cap room,
        next,
        read_caps_end f (len + 2) rest pos,
      )
      refl

unfoldable put_option : Cap → List ℕ
unfolding encode_cap
put_option cap = put 1 2 ++ put 1 (cap_len cap % 2 ^ 8 + 2) ++ encode_cap cap

length-encode_cap : (cap : Cap) → length (encode_cap cap) ≡ 2 + cap_len cap
unfolding encode_cap
length-encode_cap cap = omega (
  arith,
  length-append (put 1 (cap_code cap) ++ put 1 (cap_len cap)) (encode_cap_value cap),
  length-append (put 1 (cap_code cap)) (put 1 (cap_len cap)),
  length-be_bytes 1 (cap_code cap) [],
  length-be_bytes 1 (cap_len cap) [],
  length-encode_cap_value cap,
)

length-put_option : (cap : Cap) → length (put_option cap) ≡ 4 + cap_len cap
unfolding put_option
length-put_option cap =
    let head : ℕ = cap_len cap % 2 ^ 8 + 2 in
    omega (
      arith,
      length-append (put 1 2 ++ put 1 head) (encode_cap cap),
      length-append (put 1 2) (put 1 head),
      length-be_bytes 1 2 [],
      length-be_bytes 1 head [],
      length-encode_cap cap,
    )

decode_option-put_option :
    (cap : Cap) (rest : List ℕ)
    → IsOption cap
    → length rest < 2 ^ 64
    → decode_option (put_option cap ++ rest) ≡ ok (cap ∷ [], rest)
unfolding decode_option put_option
decode_option-put_option cap rest h room =
    let size : cap_len cap % 2 ^ 8 + 2 ≡ cap_len cap + 2 = omega (arith, h.len_byte) in
    let head : List ℕ = put 1 (cap_len cap + 2) in
    let tail = encode_cap cap ++ rest in
    rw
      (
        size,
        append_assoc (put 1 2 ++ head) (encode_cap cap) rest,
        append_assoc (put 1 2) head tail,
        get_be-put {E = Error} 1 2 (head ++ tail) (omega arith),
        get_be-put {E = Error} 1 (cap_len cap + 2) tail (omega (arith, h.len_byte)),
        read_caps-encode_cap cap (length tail) rest h room
            (omega (arith, length-append (encode_cap cap) rest, length-encode_cap cap)),
      )
      refl

-- The loop reads lists, each of one capability.
abbrev IsOne : List Cap → Type 0
IsOne [] = ⊥
IsOne (cap ∷ []) = IsOption cap
IsOne (cap ∷ next ∷ caps) = ⊥

abbrev put_one : List Cap → List ℕ
put_one [] = []
put_one (cap ∷ caps) = put_option cap

single_back : InvertsBelow IsOne put_one decode_option (2 ^ 64)
single_back [] rest h room = absurd h
single_back (cap ∷ []) rest h room = decode_option-put_option cap rest h room
single_back (cap ∷ next ∷ caps) rest h room = absurd h

one_pos : (x : List Cap) → IsOne x → 0 < length (put_one x)
one_pos [] h = absurd h
one_pos (cap ∷ caps) h = omega (arith, length-put_option cap)

abbrev pub ones : List Cap → List (List Cap)
ones caps = map (λ cap. cap ∷ []) caps

put_options-put_all :
    (caps : List Cap) → put_options caps ≡ put_all IsOne put_one decode_option (ones caps)
unfolding put_options put_option
put_options-put_all [] = refl
put_options-put_all (cap ∷ caps) = rw (put_options-put_all caps) refl

All-ones : (caps : List Cap) → All IsOption caps → All IsOne (ones caps)
All-ones [] h = tt
All-ones (cap ∷ caps) h = (h.0, All-ones caps h.1)

pub concat-ones : (caps : List Cap) → concat (ones caps) ≡ caps
concat-ones [] = refl
concat-ones (cap ∷ caps) = ap (λ t. cap ∷ t) (concat-ones caps)

pub read_options :
    (caps : List Cap) (rest : List ℕ)
    → All IsOption caps
    → length (put_options caps ++ rest) ≤ 2 ^ 64
    → read_all (ltb (length rest)) decode_option (put_options caps ++ rest) ≡ ok (ones caps, rest)
read_options caps rest h room = rw (put_options-put_all caps) (
    read_all-put_all_below IsOne put_one decode_option (2 ^ 64) single_back one_pos
      (ltb (length rest)) rest (λ n l. lt→ltb (length rest) n l)
      (ge→ltb (length rest) (length rest) (omega arith)) (ones caps) (All-ones caps h)
      (subst (λ bytes. length (bytes ++ rest) ≤ 2 ^ 64) (put_options-put_all caps) room))

pub length-put_options : (caps : List Cap) → length (put_options caps) ≡ sum_options caps
unfolding put_options sum_options put_option
length-put_options [] = refl
length-put_options (cap ∷ caps) = omega (
  arith,
  length-append (put_option cap) (put_options caps),
  length-put_option cap,
  length-put_options caps,
)
