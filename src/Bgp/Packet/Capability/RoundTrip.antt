-- ===== src/Bgp/Packet/Capability/RoundTrip.antt =====
-- Capabilities that were written are read back.
use sart.Common.{
  ℕ, ◌+◌, ◌*◌, ◌%◌, ◌^◌, ◌<◌, ◌≡◌, refl, ◌==◌, false, List, [], ◌∷◌, ◌++◌, length, length-append,
  All, ok, arith, ge→ltb,
}
use sart.Bgp.Error.{Error}
use sart.Bgp.Family.{AddressFamily, family_number}
use sart.Bgp.Family.RoundTrip.{family_try_from-family_number}
use sart.Bgp.Packet.Buffer.{put}
use sart.Bgp.Packet.Buffer.RoundTrip.{get_be-put, length-be_bytes, take_bytes-append}
use sart.Bgp.Packet.Capability.Families.{
  IsBelow, next_hops_back, families_back, decode_family_byte-put_family_byte, length-put_each,
  length-put_next_hop, length-put_family_byte, decode_next_hop-put_next_hop,
}
use sart.Bgp.Packet.Capability.{
  Cap, multi_protocol, route_refresh, extended_next_hop, bgp_extended_message, graceful_restart,
  four_octet_as_number, add_path, enhanced_route_refresh, unsupported, decode_next_hop,
  decode_family_byte, decode_unsupported, decode_cap_value, decode_cap, cap_code, cap_len,
  put_next_hop, put_family_byte, put_each, encode_cap_value,
}

-- The codes that have a constructor.
abbrev known_codes : List ℕ
known_codes = 1 ∷ 2 ∷ 5 ∷ 6 ∷ 64 ∷ 65 ∷ 69 ∷ 70 ∷ []

-- The numbers fit the bits that they are written to.
abbrev pub IsCap : Cap → Type 0
IsCap (multi_protocol family) = Unit {0}
IsCap route_refresh = Unit
IsCap (extended_next_hop next_hops) = All (IsBelow (2 ^ 16)) next_hops
IsCap bgp_extended_message = Unit
IsCap (graceful_restart flag time families) =
    (flag < 16) × (time < 2 ^ 12) × All (IsBelow 256) families
IsCap (four_octet_as_number asn) = asn < 2 ^ 32
IsCap (add_path family sr) = sr < 256
IsCap enhanced_route_refresh = Unit
IsCap (unsupported code d) = All (λ k. (code == k) ≡ false) known_codes

unknown_back :
    (code : ℕ) (d rest : List ℕ)
    → All (λ k. (code == k) ≡ false) known_codes
    → decode_cap_value code (length d) (d ++ rest) ≡ ok (unsupported code d, rest)
unfolding decode_cap_value decode_unsupported
unknown_back code d rest h =
    rw
      (
        h.0,
        h.1.0,
        h.1.1.0,
        h.1.1.1.0,
        h.1.1.1.1.0,
        h.1.1.1.1.1.0,
        h.1.1.1.1.1.1.0,
        h.1.1.1.1.1.1.1.0,
        decode_unsupported,
        take_bytes-append d rest,
      )
      refl

family_number-lt : (f : AddressFamily) → family_number f < 2 ^ 32
unfolding family_number
family_number-lt f = omega arith

cap_value_back :
    (cap : Cap) (rest : List ℕ)
    → IsCap cap
    → length rest < 2 ^ 64
    → decode_cap_value (cap_code cap) (cap_len cap) (encode_cap_value cap ++ rest) ≡ ok (cap, rest)
unfolding decode_cap_value cap_code cap_len encode_cap_value
cap_value_back (multi_protocol f) rest h room =
    rw
      (
        get_be-put {E = Error} 4 (family_number f) rest (family_number-lt f),
        (family_try_from-family_number f).0,
      )
      refl
cap_value_back route_refresh rest h room = refl
cap_value_back (extended_next_hop xs) rest h room = next_hops_back xs rest room h
cap_value_back bgp_extended_message rest h room = refl
cap_value_back (graceful_restart flag time xs) rest h room =
    families_back flag time xs rest room h.0 h.1 h.2
cap_value_back (four_octet_as_number asn) rest h room =
    rw (get_be-put {E = Error} 4 asn rest h) refl
cap_value_back (add_path f sr) rest h room =
    rw (decode_family_byte-put_family_byte (f, sr) rest h) refl
cap_value_back enhanced_route_refresh rest h room = refl
cap_value_back (unsupported code d) rest h room = unknown_back code d rest h

pub length-encode_cap_value : (cap : Cap) → length (encode_cap_value cap) ≡ cap_len cap
unfolding cap_len encode_cap_value
length-encode_cap_value (multi_protocol f) = length-be_bytes 4 (family_number f) []
length-encode_cap_value route_refresh = refl
length-encode_cap_value (extended_next_hop xs) =
    length-put_each (2 ^ 16) 6 put_next_hop decode_next_hop decode_next_hop-put_next_hop
      length-put_next_hop (omega arith) xs
length-encode_cap_value bgp_extended_message = refl
length-encode_cap_value (graceful_restart flag time xs) =
    let head : ℕ = flag * 2 ^ 12 + time % 2 ^ 12 in
    omega (
      arith,
      length-append (put 2 head) (put_each put_family_byte xs),
      length-be_bytes 2 head [],
      length-put_each 256 4 put_family_byte decode_family_byte decode_family_byte-put_family_byte
          length-put_family_byte (omega arith) xs,
    )
length-encode_cap_value (four_octet_as_number asn) = length-be_bytes 4 asn []
length-encode_cap_value (add_path f sr) = length-put_family_byte (f, sr)
length-encode_cap_value enhanced_route_refresh = refl
length-encode_cap_value (unsupported code d) = refl

-- A capability is read back from its value, under its code and its length, with fewer than 2 ^ 64
-- bytes behind it: if its numbers fit the bits that they are written to, and, for an unsupported
-- one, its code is none of the known codes.
pub decode_cap-encode_cap_value :
    (cap : Cap) (rest : List ℕ)
    → IsCap cap
    → length rest < 2 ^ 64
    → decode_cap (cap_code cap) (cap_len cap) (encode_cap_value cap ++ rest) ≡ ok (cap, rest)
unfolding decode_cap
decode_cap-encode_cap_value cap rest h room =
    let whole = length-append (encode_cap_value cap) rest in
    rw
      (ge→ltb (length (encode_cap_value cap ++ rest)) (cap_len cap)
        (omega (arith, whole, length-encode_cap_value cap)))
      (cap_value_back cap rest h room)
