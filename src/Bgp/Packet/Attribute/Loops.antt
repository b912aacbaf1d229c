-- ===== src/Bgp/Packet/Attribute/Loops.antt =====
-- The loops of `Attribute::decode`, over AS segments and over prefixes that were written, end where the
-- attribute's value does.
use sart.Common.{
  ℕ, ◌+◌, ◌^◌, ◌<◌, ◌≡◌, refl, ◌⊎◌, inl, inr, Bool, true, false, List, [], ◌∷◌, ◌++◌, length,
  length-append, All, ok, arith, lt→ltb, ge→ltb,
}
use sart.Net.{IpNet}
use sart.Bgp.Family.{Afi, AddressFamily}
use sart.Bgp.Packet.Attribute.{Prefix, AsSegment}
use sart.Bgp.Packet.Attribute.Decode.{decode_segment, remaining_above}
use sart.Bgp.Packet.Attribute.Encode.{
  put_segment, put_segments, sum_segments, any_numbers, put_path, path_len, put_prefixes,
  sum_prefixes,
}
use sart.Bgp.Packet.Attribute.Values.{
  IsSegment, decode_segment-put_segment, length-put_segment, put_segments-put_all, sub_usize_rest,
}
use sart.Bgp.Packet.Buffer.{sub_usize, read_all}
use sart.Bgp.Packet.Buffer.RoundTrip.{put_all, read_all-put_all}
use sart.Bgp.Packet.Prefix.{WireOps, WireLaws, decode_prefix, encode_prefix}
use sart.Bgp.Packet.Prefix.RoundTrip.{
  IsSendable, IsPathId, decode_prefix-encode_prefix, length-encode_prefix, encode_prefix_pos,
}

pub above_go :
    (total size r n : ℕ)
    → total ≡ size + r
    → r < 2 ^ 64
    → r < n
    → remaining_above total size n ≡ true
above_go total size r n e h l =
    rw e (lt→ltb (sub_usize (size + r) size) n (omega (arith, sub_usize_rest size r h, l)))

pub above_stop :
    (total size r : ℕ) → total ≡ size + r → r < 2 ^ 64 → remaining_above total size r ≡ false
above_stop total size r e h =
    rw e (ge→ltb (sub_usize (size + r) size) r (omega (arith, sub_usize_rest size r h)))

module _ (as4_enabled : Bool) where
  pub read_segments :
      (more : ℕ → Bool) (segments : List AsSegment) (rest : List ℕ)
      → ((n : ℕ) → length rest < n → more n ≡ true)
      → more (length rest) ≡ false
      → All (IsSegment as4_enabled) segments
      → read_all more (decode_segment as4_enabled) (put_segments as4_enabled segments ++ rest)
        ≡ ok (segments, rest)
  read_segments more segments rest go stop h = rw (put_segments-put_all as4_enabled segments) (
      read_all-put_all (IsSegment as4_enabled) (put_segment as4_enabled)
        (decode_segment as4_enabled) (decode_segment-put_segment as4_enabled)
        (λ s _. omega (arith, length-put_segment as4_enabled s)) more rest go stop segments h)

  -- A path that is written as it is: with no segments, or with a number in one of them.
  abbrev pub IsPath : List AsSegment → Type 0
  IsPath segments =
      All (IsSegment as4_enabled) segments × ((any_numbers segments ≡ true) ⊎ (segments ≡ []))

  pub path_sent :
      (segments : List AsSegment)
      → IsPath segments
      → (put_path as4_enabled segments ≡ put_segments as4_enabled segments)
        × (path_len as4_enabled segments ≡ sum_segments as4_enabled segments)
  unfolding put_path path_len
  path_sent segments (_, inl h) = (rw h refl, rw h refl)
  path_sent segments (_, inr h) = rw h (refl, refl)

module _ {N4 N6 : Type 0} (net : WireOps N4 N6) (laws : WireLaws net) where
  -- A prefix without a path identifier, of the family.
  abbrev pub IsNlri : Afi → Prefix (IpNet N4 N6) → Type 0
  IsNlri afi p = IsSendable net laws afi p.inner × IsPathId net laws false p.path_id

  put_prefixes-put_all :
      (f : AddressFamily) (ps : List (Prefix (IpNet N4 N6)))
      → put_prefixes net ps
        ≡ put_all (IsNlri f.afi) (encode_prefix net) (decode_prefix net f false) ps
  unfolding put_prefixes
  put_prefixes-put_all f [] = refl
  put_prefixes-put_all f (p ∷ ps) = rw (put_prefixes-put_all f ps) refl

  pub read_prefixes :
      (f : AddressFamily) (more : ℕ → Bool) (ps : List (Prefix (IpNet N4 N6))) (rest : List ℕ)
      → ((n : ℕ) → length rest < n → more n ≡ true)
      → more (length rest) ≡ false
      → All (IsNlri f.afi) ps
      → read_all more (decode_prefix net f false) (put_prefixes net ps ++ rest) ≡ ok (ps, rest)
  read_prefixes f more ps rest go stop h = rw (put_prefixes-put_all f ps) (
      read_all-put_all (IsNlri f.afi) (encode_prefix net) (decode_prefix net f false)
        (λ p r s. decode_prefix-encode_prefix net laws f false p r s.0 s.1)
        (λ p s. encode_prefix_pos net laws p) more rest go stop ps h)

  pub length-put_prefixes :
      (ps : List (Prefix (IpNet N4 N6))) → length (put_prefixes net ps) ≡ sum_prefixes net ps
  unfolding put_prefixes sum_prefixes
  length-put_prefixes [] = refl
  length-put_prefixes (p ∷ ps) = omega (
    arith,
    length-append (encode_prefix net p) (put_prefixes net ps),
    length-encode_prefix net laws p,
    length-put_prefixes ps,
  )
