-- ===== src/Bgp/Packet/Tests.antt =====
-- Examples of the packet formats: the theorems at concrete messages.
use sart.Common.{
  ℕ, ◌+◌, ◌%◌, ◌^◌, ◌≡◌, ◌<◌, refl, true, false, none, some, List, [], ◌∷◌, ◌++◌, length,
  length-append, ok, err, panic, Always, replicate, ltb, arith, inl,
}
use sart.Net.{Ipv4Addr, IpNet, be_bytes}
use sart.Bgp.Error.{Error, bad_message_length}
use sart.Bgp.Family.{ipv4_unicast}
use sart.Bgp.Packet.Attribute.{
  Prefix, Attribute, origin, as_path, next_hop, get_base, is_recognized,
}
use sart.Bgp.Packet.Attribute.Decode.{validate_attribute_flag, decode_segment, decode_attribute}
use sart.Bgp.Packet.Attribute.Encode.{
  attribute_code, attribute_len, encode_attribute, any_numbers, path_len, sum_segments,
  put_prefixes, sum_prefixes, encode_value, put_path, put_segments, put_segment, put_asns,
}
use sart.Bgp.Packet.Attribute.Fuel.{read_while_ends}
use sart.Bgp.Packet.Buffer.Loops.{Runs}
use sart.Bgp.Packet.Attribute.RoundTrip.{IsHeader, IsValue, decode_attribute-encode_attribute}
use sart.Bgp.Packet.Attribute.Size.{length-encode_attribute, header_len}
use sart.Bgp.Packet.Attribute.Valid.{decode_attribute-Always}
use sart.Bgp.Packet.Buffer.{read_while, take_bytes}
use sart.Bgp.Packet.Capability.{Cap, decode_cap, cap_code, cap_len, encode_cap_value}
use sart.Bgp.Packet.Capability.RoundTrip.{decode_cap-encode_cap_value}
use sart.Bgp.Packet.Codec.{decode_msg, decode_codec, decode_open}
use sart.Bgp.Packet.Codec.Attributes.{IsSent}
use sart.Bgp.Packet.Codec.Encode.{
  sum_options, put_attributes, sum_attributes, encode_body, encode_message,
}
use sart.Bgp.Packet.Codec.Options.{IsOption}
use sart.Bgp.Packet.Codec.Sessions.{IsOpen, decode_open_refused}
use sart.Bgp.Packet.Codec.RoundTrip.{
  IsUpdate, put_messages, decode_msg-encode_message, decode_codec-put_messages,
}
use sart.Bgp.Packet.Codec.Frames.{decode_codec_cut}
use sart.Bgp.Packet.Message.{Message, msg_type}
use sart.Bgp.Packet.Prefix.{prefix_len, net_bytes, prefix_bytes_len, decode_prefix, encode_prefix}
use sart.Bgp.Packet.Prefix.RoundTrip.{decode_prefix-encode_prefix, decode_prefix_past}
use sart.Bgp.Packet.Prefix.Wire.{Net4, Net6, site, wire, wire_laws}

abbrev site_route : Prefix (IpNet Net4 Net6)
site_route = record { inner = IpNet.v4 site; path_id = none }

decode_prefix-encode_prefix_example :
    decode_prefix wire ipv4_unicast true
      (encode_prefix wire (record { inner = IpNet.v4 site; path_id = some 7 }) ++ 1 ∷ 2 ∷ [])
    ≡ ok (record { inner = IpNet.v4 site; path_id = some 7 }, 1 ∷ 2 ∷ [])
unfolding prefix_bytes_len
decode_prefix-encode_prefix_example =
    decode_prefix-encode_prefix wire wire_laws ipv4_unicast true
      (record { inner = IpNet.v4 site; path_id = some 7 }) (1 ∷ 2 ∷ []) refl (omega arith)

decode_prefix_past_example :
    decode_prefix wire ipv4_unicast false (33 ∷ 10 ∷ 1 ∷ 2 ∷ 3 ∷ 4 ∷ []) ≡ panic
decode_prefix_past_example =
    decode_prefix_past wire wire_laws ipv4_unicast 33 (10 ∷ 1 ∷ 2 ∷ 3 ∷ 4 ∷ []) (omega arith)

abbrev path_attribute : Attribute (IpNet Net4 Net6)
path_attribute =
    as_path (record { flag = 64; code = 2 })
      (record { segment_type = 2; segments = 65001 ∷ 65002 ∷ [] } ∷ [])

path_IsHeader :
    IsHeader wire wire_laws
      (get_base path_attribute)
      (attribute_code path_attribute)
      (attribute_len wire path_attribute true)
unfolding get_base attribute_code attribute_len validate_attribute_flag
path_IsHeader = record {
  flag_byte = omega arith;
  code_byte = omega arith;
  same_code = refl;
  valid = refl;
  fits = omega arith;
}

path_IsValue : IsValue wire wire_laws true path_attribute
unfolding any_numbers
path_IsValue = (
  (record { type_byte = omega arith; count_byte = omega arith; numbers = ground arith }, tt),
  inl refl,
)

decode_attribute-encode_attribute_example :
    decode_attribute wire true (encode_attribute wire path_attribute true ++ 9 ∷ [])
    ≡ ok (path_attribute, 9 ∷ [])
decode_attribute-encode_attribute_example =
    decode_attribute-encode_attribute wire wire_laws true path_attribute (9 ∷ []) path_IsHeader
      path_IsValue (omega arith)

length-encode_attribute_example :
    length (encode_attribute wire path_attribute true)
    ≡ header_len wire wire_laws (get_base path_attribute) + attribute_len wire path_attribute true
length-encode_attribute_example = length-encode_attribute wire wire_laws true path_attribute tt

decode_attribute-Always_example :
    Always
      (λ r. (validate_attribute_flag (get_base r.0) ≡ true) × (is_recognized r.0 ≡ true))
      (decode_attribute wire true (64 ∷ 1 ∷ 1 ∷ 0 ∷ []))
decode_attribute-Always_example = decode_attribute-Always wire true (64 ∷ 1 ∷ 1 ∷ 0 ∷ [])

abbrev segment_bytes : List ℕ
segment_bytes = 2 ∷ 1 ∷ 0 ∷ 0 ∷ 253 ∷ 233 ∷ []

read_while_ends_example :
    Runs
      (ltb 0)
      (decode_segment true)
      segment_bytes
      (read_while (ltb 0) (decode_segment true) 9 segment_bytes)
    × Runs
        (ltb 0)
        (decode_prefix wire ipv4_unicast false)
        segment_bytes
        (read_while (ltb 0) (decode_prefix wire ipv4_unicast false) 9 segment_bytes)
read_while_ends_example =
    read_while_ends wire (ltb 0) true ipv4_unicast false segment_bytes 9 (omega arith)

decode_cap-encode_cap_value_example :
    let cap = Cap.graceful_restart 8 120 ((ipv4_unicast, 128) ∷ []) in
    decode_cap (cap_code cap) (cap_len cap) (encode_cap_value cap ++ 2 ∷ []) ≡ ok (cap, 2 ∷ [])
decode_cap-encode_cap_value_example =
    decode_cap-encode_cap_value (Cap.graceful_restart 8 120 ((ipv4_unicast, 128) ∷ [])) (2 ∷ [])
      (omega arith, omega arith, (omega arith, tt)) (omega arith)

abbrev caps : List Cap
caps = Cap.multi_protocol ipv4_unicast ∷ Cap.four_octet_as_number 65001 ∷ []

abbrev router : Ipv4Addr
router = record { a = 10; b = 0; c = 0; d = 1 }

abbrev open_sample : Message (IpNet Net4 Net6)
open_sample = Message.«open» 4 65001 180 router caps

caps_IsOption :
    (IsOption (Cap.multi_protocol ipv4_unicast)) × IsOption (Cap.four_octet_as_number 65001)
unfolding cap_code cap_len
caps_IsOption = (
  record { is_cap = tt; code_byte = omega arith; len_byte = omega arith },
  record { is_cap = omega arith; code_byte = omega arith; len_byte = omega arith },
)

sample_IsOpen : IsOpen wire wire_laws 4 65001 180 router caps
unfolding sum_options cap_len
sample_IsOpen = record {
  version_four = refl;
  some_as = omega arith;
  short_as = omega arith;
  time_fits = omega arith;
  is_ipv4 = omega arith;
  options = (caps_IsOption.0, (caps_IsOption.1, tt));
  options_fit = omega arith;
}

abbrev update_attributes : List (Attribute (IpNet Net4 Net6))
update_attributes =
    origin (record { flag = 64; code = 1 }) 0
    ∷ path_attribute
    ∷ next_hop (record { flag = 64; code = 3 }) router
    ∷ []

origin_IsSent : IsSent wire wire_laws true (origin (record { flag = 64; code = 1 }) 0)
unfolding get_base attribute_code attribute_len validate_attribute_flag
origin_IsSent = record {
  header = record {
    flag_byte = omega arith;
    code_byte = omega arith;
    same_code = refl;
    valid = refl;
    fits = omega arith;
  };
  value = omega arith;
}

hop_IsSent : IsSent wire wire_laws true (next_hop (record { flag = 64; code = 3 }) router)
unfolding get_base attribute_code attribute_len validate_attribute_flag
hop_IsSent = record {
  header = record {
    flag_byte = omega arith;
    code_byte = omega arith;
    same_code = refl;
    valid = refl;
    fits = omega arith;
  };
  value = omega arith;
}

sample_IsUpdate :
    IsUpdate wire wire_laws ipv4_unicast true (site_route ∷ []) update_attributes (site_route ∷ [])
unfolding get_base attribute_len sum_attributes sum_prefixes prefix_len prefix_bytes_len
sample_IsUpdate = record {
  withdrawn = ((refl, tt), tt);
  withdrawn_fits = omega arith;
  attributes =
      (origin_IsSent, (record { header = path_IsHeader; value = path_IsValue }, (hop_IsSent, tt)));
  distinct = (refl, (refl, (refl, tt)));
  complete = record { has_origin = refl; has_as_path = refl; has_next_hop = refl };
  attributes_fit = omega arith;
  announced = ((refl, tt), tt);
}

abbrev update_sample : Message (IpNet Net4 Net6)
update_sample = Message.update (site_route ∷ []) update_attributes (site_route ∷ [])

update_size :
    (19 + length (encode_body wire true update_sample) < 2 ^ 16)
    × (length (encode_message wire true update_sample) < 2 ^ 63)
unfolding encode_message encode_body encode_attribute encode_value put_path put_segments put_segment
    put_asns any_numbers encode_prefix net_bytes prefix_bytes_len attribute_len path_len
    sum_segments be_bytes get_base take_bytes put_prefixes sum_prefixes put_attributes
    sum_attributes prefix_len
update_size = omega arith

decode_msg-encode_message_example :
    decode_msg wire ipv4_unicast true (encode_message wire true update_sample ++ 255 ∷ [])
    ≡ ok (update_sample, 255 ∷ [])
decode_msg-encode_message_example =
    decode_msg-encode_message wire wire_laws ipv4_unicast true update_sample (255 ∷ [])
      sample_IsUpdate update_size.0 (omega arith)

keepalive_size : 19 + length (encode_body wire true Message.keepalive) < 2 ^ 16
unfolding encode_body
keepalive_size = omega arith

session_size :
    length (put_messages wire wire_laws true (Message.keepalive ∷ update_sample ∷ [])) < 2 ^ 63
unfolding encode_message encode_body msg_type be_bytes encode_prefix put_segment
session_size = omega (
  arith,
  length-append (encode_message wire true Message.keepalive)
      (encode_message wire true update_sample ++ []),
  length-append (encode_message wire true update_sample) [],
  update_size.1,
)

decode_codec-put_messages_example :
    decode_codec wire ipv4_unicast true
      (put_messages wire wire_laws true (Message.keepalive ∷ update_sample ∷ []))
    ≡ ok (some (Message.keepalive ∷ update_sample ∷ []), [])
decode_codec-put_messages_example =
    decode_codec-put_messages wire wire_laws ipv4_unicast true Message.keepalive
      (update_sample ∷ []) (tt, keepalive_size, (sample_IsUpdate, update_size.0, tt)) session_size

decode_codec_cut_example :
    decode_codec wire ipv4_unicast true
      (put_messages wire wire_laws true (Message.keepalive ∷ []) ++ (255 ∷ 255 ∷ []))
    ≡ err (Error.message_header (bad_message_length 2))
unfolding encode_message encode_body be_bytes
decode_codec_cut_example =
    decode_codec_cut wire wire_laws ipv4_unicast true (Message.keepalive ∷ []) (255 ∷ 255 ∷ [])
      (tt, omega arith, tt) (omega arith) (omega arith) (omega arith)

-- 240 bytes behind an OPEN message with options of 16 bytes.
abbrev behind : List ℕ
behind = replicate 240 0

refused : (sum_options caps + length behind) % 2 ^ 8 < sum_options caps
unfolding sum_options cap_len
refused = omega arith

decode_open_refused_example :
    decode_open wire (length behind) (encode_body wire true open_sample ++ behind)
    ≡ err (Error.message_header (bad_message_length ((sum_options caps + length behind) % 2 ^ 16)))
decode_open_refused_example =
    decode_open_refused wire wire_laws true 4 65001 180 router caps behind sample_IsOpen refused
