-- ===== src/Bgp/Packet/Codec/RoundTrip.antt =====
-- Messages that were written are read back.
use sart.Common.{
  ℕ, zero, suc, ◌+◌, ◌%◌, ◌^◌, ◌<◌, ◌≤◌, ◌≡◌, refl, ap, ◌∙◌, Bool, some, List, [], ◌∷◌, ◌++◌,
  length, length-append, All, ok, arith, ltb, lt→ltb, ge→ltb,
}
use mathlib.Core.List.{append_assoc}
use sart.Net.{IpNet}
use sart.Bgp.Error.{Error}
use sart.Bgp.Family.{AddressFamily}
use sart.Bgp.Packet.Attribute.{Prefix, Attribute}
use sart.Bgp.Packet.Attribute.Encode.{sum_prefixes}
use sart.Bgp.Packet.Attribute.Values.{sub_usize_rest}
use sart.Bgp.Packet.Attribute.Loops.{IsNlri}
use sart.Bgp.Packet.Buffer.{put, sub_usize, read_all, read_while}
use sart.Bgp.Packet.Buffer.RoundTrip.{get_be-put, length-be_bytes}
use sart.Bgp.Packet.Codec.Sessions.{
  IsOpen, open_back, notification_whole, route_refresh_back, type_number-lt,
}
use sart.Bgp.Packet.Codec.Bodies.{update_back}
use sart.Bgp.Packet.Codec.{marker, decode_msg, decode_codec, decode_body}
use sart.Bgp.Packet.Codec.Encode.{
  put_options, sum_options, sum_attributes, subcode_byte, encode_body, encode_message,
}
use sart.Bgp.Packet.Codec.Options.{length-put_options}
use sart.Bgp.Packet.Codec.Attributes.{IsSent, AreDistinct, IsComplete}
use sart.Bgp.Packet.Message.{Message, subcode_try_from, msg_type, type_number}
use sart.Bgp.Packet.Message.Numbers.{type_try_from-type_number}
use sart.Bgp.Packet.Prefix.{WireOps, WireLaws}

module _ {N4 N6 : Type 0} (net : WireOps N4 N6) (laws : WireLaws net) where
  -- The routes and the attributes of an UPDATE message, for the family of the codec.
  pub record IsUpdate (f : AddressFamily) (as4_enabled : Bool) (ws : List (Prefix (IpNet N4 N6)))
      (attrs : List (Attribute (IpNet N4 N6))) (ns : List (Prefix (IpNet N4 N6))) : Type 0 where
    pub withdrawn : All (IsNlri net laws f.afi) ws
    pub withdrawn_fits : sum_prefixes net ws < 2 ^ 16
    pub attributes : All (IsSent net laws as4_enabled) attrs
    pub distinct : AreDistinct net laws as4_enabled [] attrs
    pub complete : IsComplete net laws as4_enabled attrs
    pub attributes_fit : sum_attributes net as4_enabled attrs < 2 ^ 16
    pub announced : All (IsNlri net laws f.afi) ns

  -- A message with `behind` bytes behind it. The options of an OPEN message are compared with the
  -- low byte of the number of bytes that are left; a subcode is one of its code.
  abbrev pub IsMessage : AddressFamily → Bool → Message (IpNet N4 N6) → ℕ → Type 0
  IsMessage f t (Message.«open» version as_num hold_time identifier caps) behind =
      IsOpen net laws version as_num hold_time identifier caps
      × (sum_options caps ≤ (sum_options caps + behind) % 2 ^ 8)
  IsMessage f t (Message.update ws attrs ns) behind = IsUpdate f t ws attrs ns
  IsMessage f t Message.keepalive behind = Unit {0}
  IsMessage f t (Message.notification code subcode d) behind =
      subcode_try_from (subcode_byte subcode) code ≡ ok subcode
  IsMessage f t (Message.route_refresh family) behind = Unit {0}

  body_back :
      (f : AddressFamily) (t : Bool) (m : Message (IpNet N4 N6)) (rest : List ℕ)
      → IsMessage f t m (length rest)
      → 19 + length (encode_body net t m) < 2 ^ 16
      → length rest < 2 ^ 63
      → decode_body net f t
          (msg_type m)
          (19 + length (encode_body net t m))
          (length rest)
          (encode_body net t m ++ rest)
        ≡ ok (m, rest)
  unfolding decode_body msg_type
  body_back f t (Message.«open» v n hold x caps) rest h small room =
      open_back net laws t v n hold x caps rest h.0 h.1 (
        omega (
          arith,
          room,
          length-append (put_options caps) rest,
          length-put_options caps,
          h.0.options_fit,
        ))
  body_back f t (Message.update ws attrs ns) rest h small room =
      update_back net laws f t ws attrs ns rest h.withdrawn h.withdrawn_fits h.attributes h.distinct
        h.complete h.attributes_fit h.announced
        (omega
          (arith, small, room, length-append (encode_body net t (Message.update ws attrs ns)) rest))
  body_back f t Message.keepalive rest h small room = unfold encode_body in refl
  body_back f t (Message.notification code subcode d) rest h small room =
      notification_whole net laws t code subcode d rest h small
  body_back f t (Message.route_refresh family) rest h small room =
      unfold encode_body in route_refresh_back net laws family rest

  -- A message of fewer than 2 ^ 16 bytes is read back from the bytes that it is written to, with
  -- fewer than 2 ^ 63 bytes behind it. An OPEN message has the version 4, an AS number from 1 to
  -- 65535, a hold time of two bytes, an identifier made of bytes, and capabilities whose numbers
  -- fit and whose code is known or, for an unsupported one, is not, each of a code of one byte and
  -- fewer than 254 bytes, and of fewer than 256 bytes together with their headers; and the low byte
  -- of the number of bytes from the options to the end of the buffer is not below the bytes of the
  -- options. An UPDATE message has attributes that one by one fulfil the conditions under which
  -- they are read back, with distinct codes, among them, if there are any, an origin, an AS path,
  -- and a next hop or reachable prefixes; its prefixes are of the codec's family (for its afi),
  -- without path identifiers and without bits behind the bytes that their length counts; and its
  -- withdrawn routes and its attributes have fewer than 2 ^ 16 bytes each. The subcode of a
  -- NOTIFICATION message is the one that its byte is read as under its code.
  pub decode_msg-encode_message :
      (f : AddressFamily) (as4_enabled : Bool) (m : Message (IpNet N4 N6)) (rest : List ℕ)
      → IsMessage f as4_enabled m (length rest)
      → 19 + length (encode_body net as4_enabled m) < 2 ^ 16
      → length rest < 2 ^ 63
      → decode_msg net f as4_enabled (encode_message net as4_enabled m ++ rest) ≡ ok (m, rest)
  unfolding decode_msg encode_message
  decode_msg-encode_message f t m rest h small room =
      let body = encode_body net t m in
      let size : ℕ = 19 + length body in
      let type : List ℕ = put 1 (type_number (msg_type m)) in
      let tail = body ++ rest in
      let whole = put 16 marker ++ (put 2 size ++ (type ++ tail)) in
      let total : length whole ≡ size + length rest = omega (
        arith,
        length-append (put 16 marker) (put 2 size ++ (type ++ tail)),
        length-be_bytes 16 marker [],
        length-append (put 2 size) (type ++ tail),
        length-be_bytes 2 size [],
        length-append type tail,
        length-be_bytes 1 (type_number (msg_type m)) [],
        length-append body rest,
      ) in
      let behind : sub_usize (length whole) size ≡ length rest =
        ap (λ j. sub_usize j size) total
        ∙ sub_usize_rest size (length rest) (omega (arith, room)) in
      rw
        (
          append_assoc (put 16 marker ++ put 2 size ++ type) body rest,
          append_assoc (put 16 marker ++ put 2 size) type tail,
          append_assoc (put 16 marker) (put 2 size) (type ++ tail),
          ge→ltb (length whole) 19 (omega (arith, total)),
          get_be-put {E = Error} 16 marker (put 2 size ++ (type ++ tail)) (omega arith),
          get_be-put {E = Error} 2 size (type ++ tail) small,
          ge→ltb size 19 (omega arith),
          get_be-put {E = Error} 1 (type_number (msg_type m)) tail (type_number-lt (msg_type m)),
          type_try_from-type_number (msg_type m),
          behind,
        )
        (body_back f t m rest h small room)

  -- Messages one behind the other.
  abbrev pub put_messages : Bool → List (Message (IpNet N4 N6)) → List ℕ
  put_messages t [] = []
  put_messages t (m ∷ ms) = encode_message net t m ++ put_messages t ms

  abbrev pub AreMessages : AddressFamily → Bool → List (Message (IpNet N4 N6)) → Type 0
  AreMessages f t [] = Unit
  AreMessages f t (m ∷ ms) =
      IsMessage f t m (length (put_messages t ms))
      × (19 + length (encode_body net t m) < 2 ^ 16)
      × AreMessages f t ms

  pub length-encode_message :
      (t : Bool) (m : Message (IpNet N4 N6))
      → length (encode_message net t m) ≡ 19 + length (encode_body net t m)
  unfolding encode_message
  length-encode_message t m =
      let body = encode_body net t m in
      let size : ℕ = 19 + length body in
      let type : List ℕ = put 1 (type_number (msg_type m)) in
      omega (
        arith,
        length-append (put 16 marker ++ put 2 size ++ type) body,
        length-append (put 16 marker ++ put 2 size) type,
        length-append (put 16 marker) (put 2 size),
        length-be_bytes 16 marker [],
        length-be_bytes 2 size [],
        length-be_bytes 1 (type_number (msg_type m)) [],
      )

  messages_back :
      (f : AddressFamily) (t : Bool) (ms : List (Message (IpNet N4 N6))) (fuel : ℕ)
      → AreMessages f t ms
      → length (put_messages t ms) < 2 ^ 63
      → length (put_messages t ms) < fuel
      → read_while (ltb 0) (decode_msg net f t) fuel (put_messages t ms) ≡ ok (ms, [])
  unfolding read_while
  messages_back f t ms zero h room l = absurd (omega arith)
  messages_back f t [] (suc fuel) h room l = refl
  messages_back f t (m ∷ ms) (suc fuel) h room l =
      let bytes = encode_message net t m in
      let behind = put_messages t ms in
      let whole = length-append bytes behind in
      let one = length-encode_message t m in
      rw
        (
          read_while,
          lt→ltb 0 (length (bytes ++ behind)) (omega (arith, whole, one)),
          decode_msg-encode_message f t m behind h.0 h.1 (omega (arith, room, whole)),
          messages_back f t ms fuel h.2 (omega (arith, room, whole)) (omega (arith, l, whole, one)),
        )
        refl

  -- The codec reads a buffer of one or more messages, of fewer than 2 ^ 63 bytes, to those
  -- messages, with nothing left. Each message has fewer than 2 ^ 16 bytes. An OPEN message has the
  -- version 4, an AS number from 1 to 65535, a hold time of two bytes, an identifier made of bytes,
  -- and capabilities whose numbers fit and whose code is known or, for an unsupported one, is not,
  -- each of a code of one byte and fewer than 254 bytes, and of fewer than 256 bytes together with
  -- their headers; and the low byte of the number of bytes from the options to the end of the
  -- buffer is not below the bytes of the options. An UPDATE message has attributes that one by one
  -- fulfil the conditions under which they are read back, with distinct codes, among them, if there
  -- are any, an origin, an AS path, and a next hop or reachable prefixes; its prefixes are of the
  -- codec's family (for its afi), without path identifiers and without bits behind the bytes that
  -- their length counts; and its withdrawn routes and its attributes have fewer than 2 ^ 16 bytes
  -- each. The subcode of a NOTIFICATION message is the one that its byte is read as under its code.
  pub decode_codec-put_messages :
      (f : AddressFamily) (t : Bool) (m : Message (IpNet N4 N6)) (ms : List (Message (IpNet N4 N6)))
      → AreMessages f t (m ∷ ms)
      → length (put_messages t (m ∷ ms)) < 2 ^ 63
      → decode_codec net f t (put_messages t (m ∷ ms)) ≡ ok (some (m ∷ ms), [])
  unfolding decode_codec read_all
  decode_codec-put_messages f t m ms h room =
      go (put_messages t (m ∷ ms))
        (omega (
          arith,
          length-append (encode_message net t m) (put_messages t ms),
          length-encode_message t m,
        ))
        (messages_back f t (m ∷ ms) (suc (length (put_messages t (m ∷ ms)))) h room (omega arith))
    where
      go :
          (d : List ℕ)
          → 0 < length d
          → read_while (ltb 0) (decode_msg net f t) (suc (length d)) d ≡ ok (m ∷ ms, [])
          → decode_codec net f t d ≡ ok (some (m ∷ ms), [])
      go [] p e = absurd (omega (arith, p))
      go (x ∷ d) p e = rw e refl
