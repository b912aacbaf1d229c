-- ===== src/Bgp/Packet/Codec/Frames.antt =====
-- `Codec::decode` on a buffer that ends within the header of a message.
use sart.Common.{
  ℕ, zero, suc, ◌+◌, ◌%◌, ◌^◌, ◌<◌, ◌≡◌, refl, sym, ap, subst, Bool, List, [], ◌∷◌, ◌++◌, length,
  length-append, err, arith, ltb, lt→ltb,
}
use mathlib.Core.List.{append_assoc}
use sart.Net.{IpNet}
use sart.Bgp.Error.{Error, bad_message_length}
use sart.Bgp.Family.{AddressFamily}
use sart.Bgp.Packet.Buffer.{read_while, read_all}
use sart.Bgp.Packet.Codec.{decode_msg, decode_codec}
use sart.Bgp.Packet.Codec.Encode.{encode_body, encode_message}
use sart.Bgp.Packet.Codec.RoundTrip.{
  IsMessage, put_messages, length-encode_message, decode_msg-encode_message,
}
use sart.Bgp.Packet.Message.{Message}
use sart.Bgp.Packet.Prefix.{WireOps, WireLaws}

module _ {N4 N6 : Type 0} (net : WireOps N4 N6) (laws : WireLaws net) where
  -- Each is a message that is read back from what it is written to, with the others and `d` behind it.
  abbrev pub AreBefore : AddressFamily → Bool → List ℕ → List (Message (IpNet N4 N6)) → Type 0
  AreBefore f t d [] = Unit
  AreBefore f t d (m ∷ ms) =
      IsMessage net laws f t m (length (put_messages net laws t ms ++ d))
      × (19 + length (encode_body net t m) < 2 ^ 16)
      × AreBefore f t d ms

  decode_msg_cut :
      (f : AddressFamily) (t : Bool) (d : List ℕ)
      → length d < 19
      → decode_msg net f t d ≡ err (Error.message_header (bad_message_length (length d)))
  unfolding decode_msg
  decode_msg_cut f t d h =
      let small : length d % 2 ^ 16 ≡ length d = omega (arith, h) in
      rw (lt→ltb (length d) 19 h)
        (ap (λ n. err (Error.message_header (bad_message_length n))) small)

  messages_cut :
      (f : AddressFamily) (t : Bool) (d : List ℕ) (ms : List (Message (IpNet N4 N6))) (fuel : ℕ)
      → AreBefore f t d ms
      → 0 < length d
      → length d < 19
      → length (put_messages net laws t ms ++ d) < 2 ^ 63
      → length (put_messages net laws t ms ++ d) < fuel
      → read_while (ltb 0) (decode_msg net f t) fuel (put_messages net laws t ms ++ d)
        ≡ err (Error.message_header (bad_message_length (length d)))
  unfolding read_while
  messages_cut f t d ms zero h some short room l = absurd (omega (arith, l))
  messages_cut f t d [] (suc fuel) h some short room l =
      rw (read_while, lt→ltb 0 (length d) some, decode_msg_cut f t d short) refl
  messages_cut f t d (m ∷ ms) (suc fuel) h some short room l =
      let bytes = encode_message net t m in
      let behind = put_messages net laws t ms ++ d in
      let joined = append_assoc bytes (put_messages net laws t ms) d in
      let whole = length-append bytes behind in
      let size = ap length joined in
      let one = length-encode_message net laws t m in
      subst
        (λ e.
          read_while (ltb 0) (decode_msg net f t) (suc fuel) e
          ≡ err (Error.message_header (bad_message_length (length d))))
        (sym joined)
        (rw
          (
            read_while,
            lt→ltb 0 (length (bytes ++ behind)) (omega (arith, whole, one)),
            decode_msg-encode_message net laws f t m behind h.0 h.1
                (omega (arith, room, size, whole)),
            messages_cut f t d ms fuel h.2 some short (omega (arith, room, size, whole))
                (omega (arith, l, size, whole, one)),
          )
          refl)

  -- A buffer of fewer than 2 ^ 63 bytes that ends with one to eighteen bytes behind its messages,
  -- as where a header is cut, is an error with their number as the length, and the messages in
  -- front are lost. Each of these has fewer than 2 ^ 16 bytes and fulfils the conditions under
  -- which a message is read back: for an OPEN message on its fields, its capabilities and the low
  -- byte of the number of bytes behind them, for an UPDATE message on its attributes, its prefixes
  -- and their lengths, for a NOTIFICATION message on its subcode.
  pub decode_codec_cut :
      (f : AddressFamily) (as4_enabled : Bool) (ms : List (Message (IpNet N4 N6))) (d : List ℕ)
      → AreBefore f as4_enabled d ms
      → 0 < length d
      → length d < 19
      → length (put_messages net laws as4_enabled ms ++ d) < 2 ^ 63
      → decode_codec net f as4_enabled (put_messages net laws as4_enabled ms ++ d)
        ≡ err (Error.message_header (bad_message_length (length d)))
  unfolding decode_codec read_all
  decode_codec_cut f t ms d h some short room =
      let whole = put_messages net laws t ms ++ d in
      go whole (omega (arith, some, length-append (put_messages net laws t ms) d))
        (messages_cut f t d ms (suc (length whole)) h some short room (omega arith))
    where
      go :
          (e : List ℕ)
          → 0 < length e
          → read_while (ltb 0) (decode_msg net f t) (suc (length e)) e
            ≡ err (Error.message_header (bad_message_length (length d)))
          → decode_codec net f t e ≡ err (Error.message_header (bad_message_length (length d)))
      go [] p q = absurd (omega (arith, p))
      go (x ∷ e) p q = rw q refl
