-- ===== src/Bgp/Packet/Codec/Encode.antt =====
-- sartd/src/bgp/src/packet/codec.rs: `Codec::encode`. The length in the header is written last, over
-- the place that was kept for it.
use sart.Common.{
  ℕ, ◌+◌, ◌%◌, ◌^◌, Bool, Option, none, some, List, [], ◌∷◌, ◌++◌, if◌then◌else◌, length, ltb,
}
use sart.Net.{IpNet}
use sart.Bgp.Family.{family_number}
use sart.Bgp.Packet.Attribute.{Attribute, get_base}
use sart.Bgp.Packet.Attribute.Decode.{base_is_extended}
use sart.Bgp.Packet.Attribute.Encode.{attribute_len, encode_attribute, put_prefixes, sum_prefixes}
use sart.Bgp.Packet.Buffer.{put}
use sart.Bgp.Packet.Capability.{Cap, cap_len, encode_cap}
use sart.Bgp.Packet.Codec.{marker}
use sart.Bgp.Packet.Message.{
  Message, NotificationSubCode, msg_type, type_number, code_number, subcode_number,
}
use sart.Bgp.Packet.Prefix.{WireOps, octets4}

-- A capability as an optional parameter of its own.
unfoldable pub put_options : List Cap → List ℕ
unfolding encode_cap
put_options [] = []
put_options (cap ∷ caps) =
    put 1 2 ++ put 1 (cap_len cap % 2 ^ 8 + 2) ++ encode_cap cap ++ put_options caps

unfoldable pub sum_options : List Cap → ℕ
sum_options [] = 0
sum_options (cap ∷ caps) = 2 + 2 + cap_len cap + sum_options caps

abbrev pub subcode_byte : Option NotificationSubCode → ℕ
subcode_byte none = 0
subcode_byte (some subcode) = subcode_number subcode

module _ {N4 N6 : Type 0} (net : WireOps N4 N6) where
  unfoldable pub put_attributes : Bool → List (Attribute (IpNet N4 N6)) → List ℕ
  unfolding encode_attribute
  put_attributes as4_enabled [] = []
  put_attributes as4_enabled (a ∷ attrs) =
      encode_attribute net a as4_enabled ++ put_attributes as4_enabled attrs

  unfoldable pub sum_attributes : Bool → List (Attribute (IpNet N4 N6)) → ℕ
  unfolding get_base
  sum_attributes as4_enabled [] = 0
  sum_attributes as4_enabled (a ∷ attrs) =
      (if base_is_extended (get_base a) then 4 else 3)
      + attribute_len net a as4_enabled
      + sum_attributes as4_enabled attrs

  unfoldable pub encode_body : Bool → Message (IpNet N4 N6) → List ℕ
  unfolding put_options sum_options put_attributes sum_attributes
  encode_body as4_enabled (Message.«open» version as_num hold_time identifier capabilities) =
      put 1 version
      ++ put 2 (if ltb 65535 as_num then 23456 else as_num)
      ++ put 2 hold_time
      ++ octets4 identifier
      ++ put 1 (sum_options capabilities)
      ++ put_options capabilities
  encode_body as4_enabled (Message.update withdrawn_routes attributes nlri) =
      put 2 (sum_prefixes net withdrawn_routes)
      ++ put_prefixes net withdrawn_routes
      ++ put 2 (sum_attributes as4_enabled attributes)
      ++ put_attributes as4_enabled attributes
      ++ put_prefixes net nlri
  encode_body as4_enabled Message.keepalive = []
  encode_body as4_enabled (Message.notification code subcode d) =
      put 1 (code_number code) ++ put 1 (subcode_byte subcode) ++ d
  encode_body as4_enabled (Message.route_refresh family) = put 4 (family_number family)

  unfoldable pub encode_message : Bool → Message (IpNet N4 N6) → List ℕ
  unfolding encode_body msg_type type_number
  encode_message as4_enabled item =
      put 16 marker
      ++ put 2 (19 + length (encode_body as4_enabled item))
      ++ put 1 (type_number (msg_type item))
      ++ encode_body as4_enabled item
