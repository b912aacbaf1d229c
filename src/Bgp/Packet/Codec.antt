-- ===== src/Bgp/Packet/Codec.antt =====
-- sartd/src/bgp/src/packet/codec.rs: `decode_msg` and `Codec::decode`. Differences of lengths wrap.
pub mod Encode
pub mod Options
pub mod Attributes
pub mod Bodies
pub mod RoundTrip
pub mod Frames
pub mod Sessions
use sart.Common.{
  ℕ, zero, suc, ◌+◌, ◌-◌, ◌*◌, ◌%◌, ◌^◌, ◌==◌, Bool, true, false, not, ◌&&◌, ◌||◌, Option, none,
  some, List, [], ◌∷◌, ◌++◌, if◌then◌else◌, length, Outcome, ok, err, panic, ◌>>=◌, map_err, ltb,
}
use sart.Net.{Ipv4Addr, IpNet}
use sart.Bgp.Error.{
  Error, bad_message_length, unsupported_version_number, bad_peer_as,
  unsupported_optional_parameter, malformed_attribute_list, missing_well_known_attribute,
  route_refresh_message_error,
}
use sart.Bgp.Family.{AddressFamily, family_try_from}
use sart.Bgp.Packet.Attribute.{Prefix, Attribute, get_base}
use sart.Bgp.Packet.Attribute.Decode.{get_ipv4, remaining_above, decode_attribute}
use sart.Bgp.Packet.Buffer.{
  Reader, get_u8, get_u16, get_u32, get_u128, take_bytes, sub_usize, read_all,
}
use sart.Bgp.Packet.Capability.{Cap, decode_cap}
use sart.Bgp.Packet.Message.{Message, MessageType, type_try_from, code_try_from, subcode_try_from}
use sart.Bgp.Packet.Prefix.{WireOps, decode_prefix}

abbrev pub marker : ℕ
marker = 2 ^ 128 - 1

-- `while option_length > l`, whose counter is a byte. A round takes two bytes at least.
unfoldable pub read_caps : ℕ → ℕ → ℕ → Reader Error (List Cap)
unfolding decode_cap
read_caps zero option_length l d = panic
read_caps (suc fuel) option_length l d = elim (ltb l option_length) [
  | false ↦ ok ([], d)
  | true ↦ get_u8 d >>= λ code. get_u8 code.1 >>= λ len. decode_cap code.0 len.0 len.1 >>= λ cap.
      read_caps fuel option_length ((l + (len.0 + 2) % 2 ^ 8) % 2 ^ 8) cap.1 >>= λ caps.
      ok (cap.0 ∷ caps.0, caps.1)
]

-- One optional parameter.
unfoldable pub decode_option : Reader Error (List Cap)
unfolding read_caps
decode_option d = get_u8 d >>= λ type. get_u8 type.1 >>= λ len.
    if type.0 == 2
    then read_caps (suc (length len.1)) len.0 0 len.1
    else err (Error.open_message unsupported_optional_parameter)

abbrev pub concat : List (List Cap) → List Cap
concat [] = []
concat (xs ∷ xss) = xs ++ concat xss

abbrev pub contains : ℕ → List ℕ → Bool
contains x [] = false
contains x (y ∷ ys) = x == y || contains x ys

-- The attributes that an UPDATE with attributes has to hold.
unfoldable pub check_mandatory : {A : Type 0} → List ℕ → A → Outcome Error A
check_mandatory attribute_set a =
    if not (contains 1 attribute_set)
    then err (Error.update_message (missing_well_known_attribute 1))
    else if not (contains 2 attribute_set)
    then err (Error.update_message (missing_well_known_attribute 2))
    else if not (contains 3 attribute_set) && not (contains 14 attribute_set)
    then err (Error.update_message (missing_well_known_attribute 3))
    else ok a

-- `attribute_set.insert`: a code that comes twice is an error.
unfoldable pub insert_code : ℕ → List ℕ → Outcome Error (List ℕ)
insert_code code attribute_set =
    if contains code attribute_set
    then err (Error.update_message malformed_attribute_list)
    else ok (code ∷ attribute_set)

module _ {N4 N6 : Type 0} (net : WireOps N4 N6) where
  abbrev pub Decoded : Type 0
  Decoded = Outcome Error (Message (IpNet N4 N6) × List ℕ)

  unfoldable pub decode_open : ℕ → List ℕ → Decoded
  unfolding decode_option read_all
  decode_open message_tail d = get_u8 d >>= λ version.
      if not (version.0 == 4)
      then err (Error.open_message unsupported_version_number)
      else (get_u16 version.1 >>= λ asn.
          if asn.0 == 0
          then err (Error.open_message bad_peer_as)
          else (get_u16 asn.1 >>= λ hold_time. get_ipv4 hold_time.1 >>= λ router_id.
              get_u8 router_id.1 >>= λ len.
              if ltb (length len.1 % 2 ^ 8) len.0
              then err (Error.message_header (bad_message_length (length len.1 % 2 ^ 16)))
              else (read_all (ltb message_tail) decode_option len.1 >>= λ options. ok (
                Message.«open» version.0 asn.0 hold_time.0 router_id.0 (concat options.0),
                options.1,
              ))))

  -- The attributes, and the set of their codes.
  unfoldable pub read_attributes :
      (ℕ → Bool) → Bool → ℕ → List ℕ → Reader Error (List (Attribute (IpNet N4 N6)) × List ℕ)
  unfolding decode_attribute get_base insert_code
  read_attributes more as4_enabled zero attribute_set d = panic
  read_attributes more as4_enabled (suc fuel) attribute_set d = elim (more (length d)) [
    | false ↦ ok (([], attribute_set), d)
    | true ↦ decode_attribute net as4_enabled d >>= λ a.
        insert_code (get_base a.0).code attribute_set >>= λ codes.
        read_attributes more as4_enabled fuel codes a.1 >>= λ r. ok ((a.0 ∷ r.0.0, r.0.1), r.1)
  ]

  unfoldable pub decode_withdrawn : AddressFamily → Reader Error (List (Prefix (IpNet N4 N6)))
  unfolding read_all
  decode_withdrawn family d = get_u16 d >>= λ len.
      if ltb 0 len.0
      then read_all (remaining_above (length len.1) len.0) (decode_prefix net family false) len.1
      else ok ([], len.1)

  unfoldable pub decode_attributes : Bool → Reader Error (List (Attribute (IpNet N4 N6)))
  unfolding read_attributes check_mandatory
  decode_attributes as4_enabled d = get_u16 d >>= λ len.
      if ltb 0 len.0
      then (read_attributes (remaining_above (length len.1) len.0) as4_enabled (suc (length len.1))
            [] len.1
          >>= λ r. check_mandatory r.0.1 (r.0.0, r.1))
      else ok ([], len.1)

  unfoldable pub decode_update : AddressFamily → Bool → ℕ → List ℕ → Decoded
  unfolding decode_withdrawn decode_attributes read_all
  decode_update family as4_enabled message_tail d =
      decode_withdrawn family d >>= λ withdrawn_routes.
      decode_attributes as4_enabled withdrawn_routes.1 >>= λ attributes.
      read_all (ltb message_tail) (decode_prefix net family false) attributes.1 >>= λ nlri.
      ok (Message.update withdrawn_routes.0 attributes.0 nlri.0, nlri.1)

  -- The length of the data is a difference of `u16`.
  unfoldable pub decode_notification : ℕ → List ℕ → Decoded
  unfolding take_bytes code_try_from subcode_try_from
  decode_notification message_length d = get_u8 d >>= λ c. code_try_from c.0 >>= λ code.
      get_u8 c.1 >>= λ s. subcode_try_from s.0 code >>= λ subcode.
      let (taken, rest) = take_bytes ((message_length + 2 ^ 16 - 21) % 2 ^ 16) s.1 in
      ok (Message.notification code subcode taken, rest)

  unfoldable pub decode_route_refresh : List ℕ → Decoded
  decode_route_refresh d = get_u32 d >>= λ n.
      map_err (λ _. route_refresh_message_error) (family_try_from n.0) >>= λ family.
      ok (Message.route_refresh family, n.1)

  unfoldable pub decode_body : AddressFamily → Bool → MessageType → ℕ → ℕ → List ℕ → Decoded
  unfolding decode_open decode_update decode_notification decode_route_refresh
  decode_body family as4_enabled MessageType.«open» message_length message_tail d =
      decode_open message_tail d
  decode_body family as4_enabled MessageType.update message_length message_tail d =
      decode_update family as4_enabled message_tail d
  decode_body family as4_enabled MessageType.keepalive message_length message_tail d =
      ok (Message.keepalive, d)
  decode_body family as4_enabled MessageType.notification message_length message_tail d =
      decode_notification message_length d
  decode_body family as4_enabled MessageType.route_refresh message_length message_tail d =
      decode_route_refresh d

  unfoldable pub decode_msg : AddressFamily → Bool → List ℕ → Decoded
  unfolding decode_body type_try_from
  decode_msg family as4_enabled d =
      if ltb (length d) 19
      then err (Error.message_header (bad_message_length (length d % 2 ^ 16)))
      else (get_u128 d >>= λ m. get_u16 m.1 >>= λ len.
          if not (m.0 == marker) || ltb len.0 19
          then err (Error.message_header (bad_message_length len.0))
          else (get_u8 len.1 >>= λ t.
              map_err Error.message_header (type_try_from t.0) >>= λ message_type.
              decode_body family as4_enabled message_type len.0 (sub_usize (length d) len.0) t.1))

  -- `Codec::decode`: nothing for an empty buffer, and all messages of another one.
  unfoldable pub decode_codec :
      AddressFamily → Bool → Reader Error (Option (List (Message (IpNet N4 N6))))
  unfolding decode_msg read_all
  decode_codec family as4_enabled [] = ok (none, [])
  decode_codec family as4_enabled (x ∷ d) =
      read_all (ltb 0) (decode_msg family as4_enabled) (x ∷ d) >>= λ messages.
      ok (some messages.0, messages.1)
