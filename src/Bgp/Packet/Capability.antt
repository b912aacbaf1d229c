-- ===== src/Bgp/Packet/Capability.antt =====
-- sartd/src/bgp/src/packet/capability.rs: the capabilities of an OPEN message.
pub mod Families
pub mod RoundTrip
use sart.Common.{
  ℕ, ◌+◌, ◌-◌, ◌*◌, ◌/◌, ◌%◌, ◌^◌, ◌==◌, Bool, List, [], ◌∷◌, ◌++◌, if◌then◌else◌, length, Outcome,
  ok, err, ◌>>=◌, map_err, ltb,
}
use Prim.Native.String.{String}
use sart.Bgp.Error.{Error, open_message, unspecific}
use sart.Bgp.Family.{
  AddressFamily, family_new, family_try_from, family_number, afi_number, safi_number,
}
use sart.Bgp.Packet.Buffer.{Reader, get_u8, get_u16, get_u32, put, take_bytes, read_all}
use sart.Bgp.Packet.Attribute.Decode.{remaining_above}

pub data Cap : Type 0 where
  multi_protocol : AddressFamily → Cap
  route_refresh : Cap
  extended_next_hop : List (AddressFamily × ℕ) → Cap
  bgp_extended_message : Cap
  graceful_restart : ℕ → ℕ → List (AddressFamily × ℕ) → Cap
  four_octet_as_number : ℕ → Cap
  add_path : AddressFamily → ℕ → Cap
  enhanced_route_refresh : Cap
  unsupported : ℕ → List ℕ → Cap

abbrev Decoded : Type 0
Decoded = Outcome Error (Cap × List ℕ)

-- A family of numbers, or the error of every malformed capability.
abbrev pub cap_family : Outcome String AddressFamily → Outcome Error AddressFamily
cap_family o = map_err (λ _. open_message unspecific) o

-- One round of the loop of `EXTENDED_NEXT_HOP`. The low byte of the second number is the SAFI.
unfoldable pub decode_next_hop : Reader Error (AddressFamily × ℕ)
decode_next_hop d = get_u16 d >>= λ a. get_u16 a.1 >>= λ s.
    cap_family (family_new a.0 (s.0 % 256)) >>= λ f. get_u16 s.1 >>= λ n. ok ((f, n.0), n.1)

-- One round of the loop of `GRACEFUL_RESTART`, and the value of `ADD_PATH`.
unfoldable pub decode_family_byte : Reader Error (AddressFamily × ℕ)
decode_family_byte d = get_u16 d >>= λ a. get_u8 a.1 >>= λ s.
    cap_family (family_new a.0 s.0) >>= λ f. get_u8 s.1 >>= λ n. ok ((f, n.0), n.1)

unfoldable pub decode_extended_next_hop : ℕ → List ℕ → Decoded
unfolding read_all
decode_extended_next_hop len d =
    read_all (remaining_above (length d) len) decode_next_hop d >>= λ v.
    ok (extended_next_hop v.0, v.1)

unfoldable pub decode_graceful_restart : ℕ → List ℕ → Decoded
unfolding read_all
decode_graceful_restart len d = get_u16 d >>= λ t.
    read_all (remaining_above (length d) len) decode_family_byte t.1 >>= λ v.
    ok (graceful_restart (t.0 / 2 ^ 12) (t.0 % 2 ^ 12) v.0, v.1)

unfoldable pub decode_unsupported : ℕ → ℕ → List ℕ → Decoded
unfolding take_bytes
decode_unsupported code len d =
    let (taken, rest) = take_bytes len d in ok (unsupported code taken, rest)

-- The value, by the code.
unfoldable pub decode_cap_value : ℕ → ℕ → List ℕ → Decoded
decode_cap_value code len d =
    if code == 1
    then (get_u32 d >>= λ n. cap_family (family_try_from n.0) >>= λ f. ok (multi_protocol f, n.1))
    else if code == 2
    then ok (route_refresh, d)
    else if code == 5
    then decode_extended_next_hop len d
    else if code == 6
    then ok (bgp_extended_message, d)
    else if code == 64
    then decode_graceful_restart len d
    else if code == 65
    then (get_u32 d >>= λ n. ok (four_octet_as_number n.0, n.1))
    else if code == 69
    then (decode_family_byte d >>= λ v. ok (add_path v.0.0 v.0.1, v.1))
    else if code == 70
    then ok (enhanced_route_refresh, d)
    else decode_unsupported code len d

unfoldable pub decode_cap : ℕ → ℕ → List ℕ → Decoded
unfolding decode_cap_value
decode_cap code len d =
    if ltb (length d) len then err (open_message unspecific) else decode_cap_value code len d

unfoldable pub cap_code : Cap → ℕ
cap_code (multi_protocol _) = 1
cap_code route_refresh = 2
cap_code (extended_next_hop _) = 5
cap_code bgp_extended_message = 6
cap_code (graceful_restart _ _ _) = 64
cap_code (four_octet_as_number _) = 65
cap_code (add_path _ _) = 69
cap_code enhanced_route_refresh = 70
cap_code (unsupported code _) = code

unfoldable pub cap_len : Cap → ℕ
cap_len (multi_protocol _) = 4
cap_len route_refresh = 0
cap_len (extended_next_hop next_hops) = length next_hops * 6
cap_len bgp_extended_message = 0
cap_len (graceful_restart _ _ families) = 2 + length families * 4
cap_len (four_octet_as_number _) = 4
cap_len (add_path _ _) = 4
cap_len enhanced_route_refresh = 0
cap_len (unsupported _ d) = length d

unfoldable pub put_next_hop : AddressFamily × ℕ → List ℕ
put_next_hop (f, n) = put 2 (afi_number f.afi) ++ put 2 (safi_number f.safi) ++ put 2 n

unfoldable pub put_family_byte : AddressFamily × ℕ → List ℕ
put_family_byte (f, n) = put 2 (afi_number f.afi) ++ put 1 (safi_number f.safi) ++ put 1 n

abbrev pub put_each : (AddressFamily × ℕ → List ℕ) → List (AddressFamily × ℕ) → List ℕ
put_each encode [] = []
put_each encode (x ∷ xs) = encode x ++ put_each encode xs

unfoldable pub encode_cap_value : Cap → List ℕ
unfolding put_next_hop put_family_byte
encode_cap_value (multi_protocol family) = put 4 (family_number family)
encode_cap_value route_refresh = []
encode_cap_value (extended_next_hop next_hops) = put_each put_next_hop next_hops
encode_cap_value bgp_extended_message = []
encode_cap_value (graceful_restart flag time families) =
    put 2 (flag * 2 ^ 12 + time % 2 ^ 12) ++ put_each put_family_byte families
encode_cap_value (four_octet_as_number asn) = put 4 asn
encode_cap_value (add_path family sr) = put_family_byte (family, sr)
encode_cap_value enhanced_route_refresh = []
encode_cap_value (unsupported _ d) = d

-- The code, the length and the value: the length that each case writes is its `len`, in a byte.
unfoldable pub encode_cap : Cap → List ℕ
unfolding cap_code cap_len encode_cap_value
encode_cap cap = put 1 (cap_code cap) ++ put 1 (cap_len cap) ++ encode_cap_value cap
