-- ===== src/Bgp/Packet/Codec/Sessions.antt =====
-- The bodies of OPEN, NOTIFICATION and ROUTE-REFRESH messages that were written are read back.
use sart.Common.{
  ℕ, ◌+◌, ◌-◌, ◌%◌, ◌^◌, ◌<◌, ◌≤◌, ◌≡◌, refl, ap, ◌∙◌, Bool, Option, none, some, List, [], ◌++◌,
  length, length-append, All, ok, err, arith, lt→ltb, ge→ltb, ne→==,
}
use mathlib.Core.List.{append_assoc}
use sart.Net.{Ipv4Addr, IsIpv4}
use sart.Bgp.Error.{Error, bad_message_length}
use sart.Bgp.Family.{AddressFamily, family_number}
use sart.Bgp.Family.RoundTrip.{family_try_from-family_number}
use sart.Bgp.Packet.Attribute.Values.{get_ipv4-octets4}
use sart.Bgp.Packet.Buffer.{put}
use sart.Bgp.Packet.Buffer.RoundTrip.{get_be-put, length-be_bytes, take_bytes-append}
use sart.Bgp.Packet.Capability.{Cap}
use sart.Bgp.Packet.Codec.{decode_open, decode_notification, decode_route_refresh}
use sart.Bgp.Packet.Codec.Encode.{put_options, sum_options, subcode_byte, encode_body}
use sart.Bgp.Packet.Codec.Options.{IsOption, concat-ones, read_options, length-put_options}
use sart.Bgp.Packet.Message.{
  Message, NotificationCode, NotificationSubCode, MessageType, subcode_try_from, subcode_number,
  code_number, type_number,
}
use sart.Bgp.Packet.Message.Numbers.{code_try_from-code_number}
use sart.Bgp.Packet.Prefix.{WireOps, WireLaws, octets4}

code_number-lt : (c : NotificationCode) → code_number c < 256
unfolding code_number
code_number-lt c = ground arith

subcode_byte-lt : (s : Option NotificationSubCode) → subcode_byte s < 256
unfolding subcode_number
subcode_byte-lt none = omega arith
subcode_byte-lt (some s) = ground arith

pub type_number-lt : (t : MessageType) → type_number t < 256 ^ 1
unfolding type_number
type_number-lt t = ground arith

family_number-lt : (f : AddressFamily) → family_number f < 2 ^ 32
unfolding family_number
family_number-lt f = omega arith

module _ {N4 N6 : Type 0} (net : WireOps N4 N6) (laws : WireLaws net) where
  -- The parts of an OPEN message fit: the version is that of the program, and the AS number has two bytes.
  pub record IsOpen (version as_num hold_time : ℕ) (identifier : Ipv4Addr) (caps : List Cap)
      : Type 0 where
    pub version_four : version ≡ 4
    pub some_as : 0 < as_num
    pub short_as : as_num ≤ 65535
    pub time_fits : hold_time < 2 ^ 16
    pub is_ipv4 : IsIpv4 identifier
    pub options : All IsOption caps
    pub options_fit : sum_options caps < 256

  pub open_back :
      (as4_enabled : Bool) (v n t : ℕ) (x : Ipv4Addr) (caps : List Cap) (rest : List ℕ)
      → IsOpen v n t x caps
      → sum_options caps ≤ (sum_options caps + length rest) % 2 ^ 8
      → length (put_options caps ++ rest) < 2 ^ 64
      → decode_open net
          (length rest)
          (encode_body net as4_enabled (Message.«open» v n t x caps) ++ rest)
        ≡ ok (Message.«open» v n t x caps, rest)
  unfolding decode_open encode_body
  open_back as4_enabled v n t x caps rest h low room =
      let len : List ℕ = put 1 (sum_options caps) in
      let bytes = put_options caps in
      let tail = bytes ++ rest in
      let size : length tail ≡ sum_options caps + length rest =
        length-append bytes rest ∙ ap (λ j. j + length rest) (length-put_options caps) in
      rw
        (
          ge→ltb 65535 n h.short_as,
          append_assoc (put 1 v ++ put 2 n ++ put 2 t ++ octets4 x ++ len) bytes rest,
          append_assoc (put 1 v ++ put 2 n ++ put 2 t ++ octets4 x) len tail,
          append_assoc (put 1 v ++ put 2 n ++ put 2 t) (octets4 x) (len ++ tail),
          append_assoc (put 1 v ++ put 2 n) (put 2 t) (octets4 x ++ (len ++ tail)),
          append_assoc (put 1 v) (put 2 n) (put 2 t ++ (octets4 x ++ (len ++ tail))),
          h.version_four,
          get_be-put {E = Error} 1 4 (put 2 n ++ (put 2 t ++ (octets4 x ++ (len ++ tail))))
              (omega arith),
          get_be-put {E = Error} 2 n (put 2 t ++ (octets4 x ++ (len ++ tail)))
              (omega (arith, h.short_as)),
          ne→== n 0 (λ e. omega (arith, e, h.some_as)),
          get_be-put {E = Error} 2 t (octets4 x ++ (len ++ tail)) h.time_fits,
          get_ipv4-octets4 x (len ++ tail) h.is_ipv4,
          get_be-put {E = Error} 1 (sum_options caps) tail (omega (arith, h.options_fit)),
          ge→ltb (length tail % 2 ^ 8) (sum_options caps) (omega (arith, size, low)),
          read_options caps rest h.options (omega (arith, room)),
          concat-ones caps,
        )
        refl

  notification_back :
      (code : NotificationCode) (subcode : Option NotificationSubCode) (d rest : List ℕ)
      → subcode_try_from (subcode_byte subcode) code ≡ ok subcode
      → 21 + length d < 2 ^ 16
      → decode_notification net
          (21 + length d)
          ((put 1 (code_number code) ++ put 1 (subcode_byte subcode) ++ d) ++ rest)
        ≡ ok (Message.notification code subcode d, rest)
  unfolding decode_notification
  notification_back code subcode d rest h small =
      let c : List ℕ = put 1 (code_number code) in
      let s : List ℕ = put 1 (subcode_byte subcode) in
      let size : (21 + length d + 2 ^ 16 - 21) % 2 ^ 16 ≡ length d = omega (arith, small) in
      rw
        (
          append_assoc (c ++ s) d rest,
          append_assoc c s (d ++ rest),
          get_be-put {E = Error} 1 (code_number code) (s ++ (d ++ rest)) (code_number-lt code),
          code_try_from-code_number code,
          get_be-put {E = Error} 1 (subcode_byte subcode) (d ++ rest) (subcode_byte-lt subcode),
          h,
          size,
          take_bytes-append d rest,
        )
        refl

  pub notification_whole :
      (t : Bool) (code : NotificationCode) (subcode : Option NotificationSubCode) (d rest : List ℕ)
      → subcode_try_from (subcode_byte subcode) code ≡ ok subcode
      → let body = encode_body net t (Message.notification code subcode d) in
        19 + length body < 2 ^ 16
        → decode_notification net (19 + length body) (body ++ rest)
          ≡ ok (Message.notification code subcode d, rest)
  unfolding encode_body
  notification_whole t code subcode d rest h small =
      let c : List ℕ = put 1 (code_number code) in
      let s : List ℕ = put 1 (subcode_byte subcode) in
      let size : 19 + length (c ++ s ++ d) ≡ 21 + length d = omega (
        arith,
        length-append (c ++ s) d,
        length-append c s,
        length-be_bytes 1 (code_number code) [],
        length-be_bytes 1 (subcode_byte subcode) [],
      ) in
      rw size (notification_back code subcode d rest h (omega (arith, size, small)))

  pub route_refresh_back :
      (f : AddressFamily) (rest : List ℕ)
      → decode_route_refresh net (put 4 (family_number f) ++ rest)
        ≡ ok (Message.route_refresh f, rest)
  unfolding decode_route_refresh
  route_refresh_back f rest =
      rw
        (
          get_be-put {E = Error} 4 (family_number f) rest (family_number-lt f),
          (family_try_from-family_number f).0,
        )
        refl

  -- The check of the options' length reads the low byte of the number of bytes that are left. Where the
  -- bytes that follow make it smaller than that length, a message that fits is refused.
  pub decode_open_refused :
      (as4_enabled : Bool) (v n t : ℕ) (x : Ipv4Addr) (caps : List Cap) (rest : List ℕ)
      → IsOpen v n t x caps
      → (sum_options caps + length rest) % 2 ^ 8 < sum_options caps
      → decode_open net
          (length rest)
          (encode_body net as4_enabled (Message.«open» v n t x caps) ++ rest)
        ≡ err
            (Error.message_header (bad_message_length ((sum_options caps + length rest) % 2 ^ 16)))
  unfolding decode_open encode_body
  decode_open_refused as4_enabled v n t x caps rest h low =
      let len : List ℕ = put 1 (sum_options caps) in
      let bytes = put_options caps in
      let tail = bytes ++ rest in
      let size : length tail ≡ sum_options caps + length rest =
        length-append bytes rest ∙ ap (λ j. j + length rest) (length-put_options caps) in
      rw
        (
          ge→ltb 65535 n h.short_as,
          append_assoc (put 1 v ++ put 2 n ++ put 2 t ++ octets4 x ++ len) bytes rest,
          append_assoc (put 1 v ++ put 2 n ++ put 2 t ++ octets4 x) len tail,
          append_assoc (put 1 v ++ put 2 n ++ put 2 t) (octets4 x) (len ++ tail),
          append_assoc (put 1 v ++ put 2 n) (put 2 t) (octets4 x ++ (len ++ tail)),
          append_assoc (put 1 v) (put 2 n) (put 2 t ++ (octets4 x ++ (len ++ tail))),
          h.version_four,
          get_be-put {E = Error} 1 4 (put 2 n ++ (put 2 t ++ (octets4 x ++ (len ++ tail))))
              (omega arith),
          get_be-put {E = Error} 2 n (put 2 t ++ (octets4 x ++ (len ++ tail)))
              (omega (arith, h.short_as)),
          ne→== n 0 (λ e. omega (arith, e, h.some_as)),
          get_be-put {E = Error} 2 t (octets4 x ++ (len ++ tail)) h.time_fits,
          get_ipv4-octets4 x (len ++ tail) h.is_ipv4,
          get_be-put {E = Error} 1 (sum_options caps) tail (omega (arith, h.options_fit)),
          size,
          lt→ltb ((sum_options caps + length rest) % 2 ^ 8) (sum_options caps) low,
        )
        refl
