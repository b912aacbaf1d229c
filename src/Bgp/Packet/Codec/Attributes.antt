-- ===== src/Bgp/Packet/Codec/Attributes.antt =====
-- The attributes of an UPDATE message are read back.
use sart.Common.{
  ℕ, zero, suc, ◌+◌, ◌^◌, ◌<◌, ◌≤◌, ◌≡◌, refl, ap, ◌∙◌, subst, ◌||◌, Bool, true, false, List, [],
  ◌∷◌, ◌++◌, length, length-append, All, ok, arith, lt→ltb, Bool-cases, inl, inr,
}
use mathlib.Core.List.{append_assoc}
use sart.Net.{IpNet}
use sart.Bgp.Error.{Error}
use sart.Bgp.Packet.Attribute.{Attribute, get_base}
use sart.Bgp.Packet.Attribute.Decode.{remaining_above}
use sart.Bgp.Packet.Attribute.Encode.{attribute_len, attribute_code, encode_attribute}
use sart.Bgp.Packet.Attribute.Loops.{above_go, above_stop}
use sart.Bgp.Packet.Attribute.RoundTrip.{IsValue, IsHeader, decode_attribute-encode_attribute}
use sart.Bgp.Packet.Attribute.Size.{length-encode_attribute, header_len, IsValue-HasAddrs}
use sart.Bgp.Packet.Buffer.{put}
use sart.Bgp.Packet.Buffer.RoundTrip.{get_be-put}
use sart.Bgp.Packet.Codec.{
  read_attributes, check_mandatory, decode_attributes, contains, insert_code,
}
use sart.Bgp.Packet.Codec.Encode.{put_attributes, sum_attributes}
use sart.Bgp.Packet.Prefix.{WireOps, WireLaws}

-- The codes that were met already hold those that an UPDATE needs.
pub record HasMandatory (codes : List ℕ) : Type 0 where
  pub has_origin : contains 1 codes ≡ true
  pub has_as_path : contains 2 codes ≡ true
  pub has_next_hop : contains 3 codes || contains 14 codes ≡ true

check_mandatory_ok :
    {A : Type 0} (codes : List ℕ) (a : A) → HasMandatory codes → check_mandatory codes a ≡ ok a
unfolding check_mandatory
check_mandatory_ok codes a h = elim (Bool-cases (contains 3 codes)) [
  | inl e ↦ rw (h.has_origin, h.has_as_path, e) refl
  | inr e ↦ rw (h.has_origin, h.has_as_path, e, either e h.has_next_hop) refl
]
  where
    either : {x y : Bool} → x ≡ false → x || y ≡ true → y ≡ true
    either {x} {y} e h = subst (λ b. b || y ≡ true) e h

insert_code_new :
    (code : ℕ) (codes : List ℕ)
    → contains code codes ≡ false
    → insert_code code codes ≡ ok (code ∷ codes)
unfolding insert_code
insert_code_new code codes h = rw h refl

module _ {N4 N6 : Type 0} (net : WireOps N4 N6) (laws : WireLaws net) (as4_enabled : Bool) where
  -- An attribute that `decode_attribute-encode_attribute` reads back.
  pub record IsSent (a : Attribute (IpNet N4 N6)) : Type 0 where
    pub header : IsHeader net laws (get_base a) (attribute_code a) (attribute_len net a as4_enabled)
    pub value : IsValue net laws as4_enabled a

  -- The set of codes behind a list, and that none of them comes twice.
  abbrev pub codes_onto : List ℕ → List (Attribute (IpNet N4 N6)) → List ℕ
  codes_onto codes [] = codes
  codes_onto codes (a ∷ attrs) = codes_onto ((get_base a).code ∷ codes) attrs

  abbrev pub AreDistinct : List ℕ → List (Attribute (IpNet N4 N6)) → Type 0
  AreDistinct codes [] = Unit
  AreDistinct codes (a ∷ attrs) =
      (contains (get_base a).code codes ≡ false) × AreDistinct ((get_base a).code ∷ codes) attrs

  pub length-put_attributes :
      (attrs : List (Attribute (IpNet N4 N6)))
      → All IsSent attrs
      → length (put_attributes net as4_enabled attrs) ≡ sum_attributes net as4_enabled attrs
  unfolding put_attributes sum_attributes
  length-put_attributes [] h = refl
  length-put_attributes (a ∷ attrs) h = omega (
    arith,
    length-append (encode_attribute net a as4_enabled) (put_attributes net as4_enabled attrs),
    length-encode_attribute net laws as4_enabled a
        (IsValue-HasAddrs net laws as4_enabled a h.0.value),
    length-put_attributes attrs h.1,
  )

  read_attributes-put_attributes :
      (more : ℕ → Bool) (rest : List ℕ)
      → ((n : ℕ) → length rest < n → more n ≡ true)
      → more (length rest) ≡ false
      → (attrs : List (Attribute (IpNet N4 N6))) (fuel : ℕ) (codes : List ℕ) → All IsSent attrs
      → AreDistinct codes attrs
      → length (put_attributes net as4_enabled attrs ++ rest) ≤ 2 ^ 64
      → length (put_attributes net as4_enabled attrs) < fuel
      → read_attributes net more as4_enabled fuel codes
          (put_attributes net as4_enabled attrs ++ rest)
        ≡ ok ((attrs, codes_onto codes attrs), rest)
  unfolding read_attributes put_attributes
  read_attributes-put_attributes more rest go stop attrs zero codes h k room l =
      absurd (omega arith)
  read_attributes-put_attributes more rest go stop [] (suc fuel) codes h k room l =
      rw (read_attributes, stop) refl
  read_attributes-put_attributes more rest go stop (a ∷ attrs) (suc fuel) codes h k room l =
      let head = encode_attribute net a as4_enabled in
      let bytes = put_attributes net as4_enabled attrs in
      let size = length-append head bytes in
      let whole = length-append (head ++ bytes) rest in
      let tail = length-append bytes rest in
      let one =
        length-encode_attribute net laws as4_enabled a
          (IsValue-HasAddrs net laws as4_enabled a h.0.value) in
      let three : 3 ≤ header_len net laws (get_base a) = ground arith in
      rw
        (
          read_attributes,
          go (length ((head ++ bytes) ++ rest)) (omega (arith, size, whole, one, three)),
          append_assoc head bytes rest,
          decode_attribute-encode_attribute net laws as4_enabled a (bytes ++ rest) h.0.header
              h.0.value (omega (arith, size, whole, tail, room, one, three)),
          insert_code_new (get_base a).code codes k.0,
          read_attributes-put_attributes more rest go stop attrs fuel ((get_base a).code ∷ codes)
              h.1 k.1 (omega (arith, size, whole, tail, room)) (omega (arith, size, one, three)),
        )
        refl

  -- No attributes, or those that an UPDATE needs among them.
  abbrev pub IsComplete : List (Attribute (IpNet N4 N6)) → Type 0
  IsComplete [] = Unit
  IsComplete (a ∷ attrs) = HasMandatory (codes_onto [] (a ∷ attrs))

  sum_attributes_pos :
      (a : Attribute (IpNet N4 N6)) (attrs : List (Attribute (IpNet N4 N6)))
      → 0 < sum_attributes net as4_enabled (a ∷ attrs)
  unfolding sum_attributes
  sum_attributes_pos a attrs =
      let three : 3 ≤ header_len net laws (get_base a) = ground arith in omega (arith, three)

  -- Behind its length, the list is read back.
  pub decode_attributes-put_attributes :
      (attrs : List (Attribute (IpNet N4 N6))) (rest : List ℕ)
      → All IsSent attrs
      → AreDistinct [] attrs
      → IsComplete attrs
      → sum_attributes net as4_enabled attrs < 2 ^ 16
      → length (put_attributes net as4_enabled attrs ++ rest) < 2 ^ 64
      → decode_attributes net as4_enabled (
          put 2 (sum_attributes net as4_enabled attrs)
          ++ (put_attributes net as4_enabled attrs ++ rest))
        ≡ ok (attrs, rest)
  unfolding decode_attributes
  decode_attributes-put_attributes [] rest h k m small room =
      unfold sum_attributes in
      unfold put_attributes in rw (get_be-put {E = Error} 2 0 rest (omega arith)) refl
  decode_attributes-put_attributes (a ∷ next) rest h k m small room =
      let attrs = a ∷ next in
      let len = sum_attributes net as4_enabled attrs in
      let bytes = put_attributes net as4_enabled attrs in
      let whole = length (bytes ++ rest) in
      let total : whole ≡ len + length rest =
        length-append bytes rest ∙ ap (λ t. t + length rest) (length-put_attributes attrs h) in
      rw
        (
          get_be-put {E = Error} 2 len (bytes ++ rest) small,
          lt→ltb 0 len (sum_attributes_pos a next),
          read_attributes-put_attributes (remaining_above whole len) rest
              (λ n l. above_go whole len (length rest) n total (omega (arith, total, room)) l)
              (above_stop whole len (length rest) total (omega (arith, total, room))) attrs
              (suc whole) [] h k (omega (arith, room)) (omega (arith, length-append bytes rest)),
          check_mandatory_ok {A = List (Attribute (IpNet N4 N6)) × List ℕ} (codes_onto [] attrs)
              (attrs, rest) m,
        )
        refl
