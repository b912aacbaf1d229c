-- ===== src/Bgp/Packet/Codec/Bodies.antt =====
-- The bodies of messages that were written are read back.
use sart.Common.{
  ℕ, ◌+◌, ◌^◌, ◌<◌, ◌≡◌, refl, ap, ◌∙◌, Bool, false, List, [], ◌∷◌, ◌++◌, length, length-append,
  All, ok, arith, ltb, lt→ltb, ge→ltb,
}
use mathlib.Core.List.{append_assoc}
use sart.Net.{IpNet}
use sart.Bgp.Error.{Error}
use sart.Bgp.Family.{AddressFamily}
use sart.Bgp.Packet.Attribute.{Prefix, Attribute}
use sart.Bgp.Packet.Attribute.Decode.{remaining_above}
use sart.Bgp.Packet.Attribute.Encode.{put_prefixes, sum_prefixes}
use sart.Bgp.Packet.Attribute.Loops.{
  IsNlri, read_prefixes, length-put_prefixes, above_go, above_stop,
}
use sart.Bgp.Packet.Buffer.{put, read_all}
use sart.Bgp.Packet.Buffer.RoundTrip.{get_be-put}
use sart.Bgp.Packet.Codec.{decode_withdrawn, decode_update}
use sart.Bgp.Packet.Codec.Encode.{put_attributes, sum_attributes, encode_body}
use sart.Bgp.Packet.Codec.Attributes.{
  IsSent, AreDistinct, IsComplete, decode_attributes-put_attributes,
}
use sart.Bgp.Packet.Message.{Message}
use sart.Bgp.Packet.Prefix.{WireOps, WireLaws, decode_prefix, encode_prefix}
use sart.Bgp.Packet.Prefix.RoundTrip.{encode_prefix_pos}

module _ {N4 N6 : Type 0} (net : WireOps N4 N6) (laws : WireLaws net) where
  sum_prefixes_pos :
      (p : Prefix (IpNet N4 N6)) (ps : List (Prefix (IpNet N4 N6))) → 0 < sum_prefixes net (p ∷ ps)
  unfolding put_prefixes
  sum_prefixes_pos p ps = omega (
    arith,
    length-put_prefixes net laws (p ∷ ps),
    length-append (encode_prefix net p) (put_prefixes net ps),
    encode_prefix_pos net laws p,
  )

  withdrawn_back :
      (f : AddressFamily) (ps : List (Prefix (IpNet N4 N6))) (rest : List ℕ)
      → All (IsNlri net laws f.afi) ps
      → sum_prefixes net ps < 2 ^ 16
      → length (put_prefixes net ps ++ rest) < 2 ^ 64
      → decode_withdrawn net f (put 2 (sum_prefixes net ps) ++ (put_prefixes net ps ++ rest))
        ≡ ok (ps, rest)
  unfolding decode_withdrawn
  withdrawn_back f [] rest h small room =
      unfold sum_prefixes in
      unfold put_prefixes in rw (get_be-put {E = Error} 2 0 rest (omega arith)) refl
  withdrawn_back f (p ∷ next) rest h small room =
      let ps = p ∷ next in
      let len = sum_prefixes net ps in
      let bytes = put_prefixes net ps in
      let whole = length (bytes ++ rest) in
      let total : whole ≡ len + length rest =
        length-append bytes rest ∙ ap (λ t. t + length rest) (length-put_prefixes net laws ps) in
      rw
        (
          get_be-put {E = Error} 2 len (bytes ++ rest) small,
          lt→ltb 0 len (sum_prefixes_pos p next),
          read_prefixes net laws f (remaining_above whole len) ps rest
              (λ n l. above_go whole len (length rest) n total (omega (arith, total, room)) l)
              (above_stop whole len (length rest) total (omega (arith, total, room))) h,
        )
        refl

  nlri_back :
      (f : AddressFamily) (ps : List (Prefix (IpNet N4 N6))) (rest : List ℕ)
      → All (IsNlri net laws f.afi) ps
      → read_all (ltb (length rest)) (decode_prefix net f false) (put_prefixes net ps ++ rest)
        ≡ ok (ps, rest)
  nlri_back f ps rest h =
      read_prefixes net laws f (ltb (length rest)) ps rest (λ n l. lt→ltb (length rest) n l)
        (ge→ltb (length rest) (length rest) (omega arith)) h

  pub update_back :
      (f : AddressFamily) (as4_enabled : Bool) (ws : List (Prefix (IpNet N4 N6)))
      (attrs : List (Attribute (IpNet N4 N6))) (ns : List (Prefix (IpNet N4 N6))) (rest : List ℕ)
      → All (IsNlri net laws f.afi) ws
      → sum_prefixes net ws < 2 ^ 16
      → All (IsSent net laws as4_enabled) attrs
      → AreDistinct net laws as4_enabled [] attrs
      → IsComplete net laws as4_enabled attrs
      → sum_attributes net as4_enabled attrs < 2 ^ 16
      → All (IsNlri net laws f.afi) ns
      → length (encode_body net as4_enabled (Message.update ws attrs ns) ++ rest) < 2 ^ 64
      → decode_update net f as4_enabled
          (length rest)
          (encode_body net as4_enabled (Message.update ws attrs ns) ++ rest)
        ≡ ok (Message.update ws attrs ns, rest)
  unfolding decode_update encode_body
  update_back f t ws attrs ns rest hw sw ha k m sa hn room =
      let wlen : List ℕ = put 2 (sum_prefixes net ws) in
      let wbytes = put_prefixes net ws in
      let alen : List ℕ = put 2 (sum_attributes net t attrs) in
      let abytes = put_attributes net t attrs in
      let nbytes = put_prefixes net ns in
      let tail = nbytes ++ rest in
      let tail1 = abytes ++ tail in
      let tail2 = alen ++ tail1 in
      let all1 = length-append (wlen ++ wbytes ++ alen ++ abytes ++ nbytes) rest in
      let all2 = length-append (wlen ++ wbytes ++ alen ++ abytes) nbytes in
      let all3 = length-append (wlen ++ wbytes ++ alen) abytes in
      let all4 = length-append (wlen ++ wbytes) alen in
      let all5 = length-append wlen wbytes in
      let part1 = length-append nbytes rest in
      let part2 = length-append abytes tail in
      let part3 = length-append alen tail1 in
      let part4 = length-append wbytes tail2 in
      let fits1 : length (wbytes ++ tail2) < 2 ^ 64 =
        omega (arith, room, all1, all2, all3, all4, all5, part1, part2, part3, part4) in
      let fits2 : length tail1 < 2 ^ 64 = omega (arith, fits1, part3, part4) in
      rw
        (
          append_assoc (wlen ++ wbytes ++ alen ++ abytes) nbytes rest,
          append_assoc (wlen ++ wbytes ++ alen) abytes tail,
          append_assoc (wlen ++ wbytes) alen tail1,
          append_assoc wlen wbytes tail2,
          withdrawn_back f ws tail2 hw sw fits1,
          decode_attributes-put_attributes net laws t attrs tail ha k m sa fits2,
          nlri_back f ns rest hn,
        )
        refl
