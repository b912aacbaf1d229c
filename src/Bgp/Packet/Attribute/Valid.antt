-- ===== src/Bgp/Packet/Attribute/Valid.antt =====
-- What `Attribute::decode` accepts.
use sart.Common.{
  ℕ, ◌+◌, ◌/◌, ◌≡◌, refl, ◌∙◌, ◌==◌, Bool, true, false, List, length, Always, then-Always,
  if-Always, Always-map, ap, ltb, Bool-cases, inl, inr,
}
use sart.Net.{IpNet}
use sart.Bgp.Packet.Attribute.{Attribute, Base, get_base, is_recognized}
use sart.Bgp.Packet.Attribute.Decode.{
  decode_segment, remaining_above, asn_width, addr_width, get_asn, get_sized_addr, get_ipv4,
  get_addr, get_family, get_length, validate_attribute_flag, decode_origin, decode_as_path,
  decode_as4_path, decode_aggregator, decode_extended_communities, decode_mp_reach,
  decode_mp_unreach, decode_as4_aggregator, decode_value, decode_body, decode_attribute,
}
use sart.Bgp.Family.{Afi}
use sart.Bgp.Packet.Buffer.{get_be, sub_usize, read_times, read_all}
use sart.Bgp.Packet.Prefix.{WireOps, decode_prefix}

module _ {N4 N6 : Type 0} (net : WireOps N4 N6) where
  -- The attribute has the base that was read, and a constructor of its own.
  abbrev Keeps : Base → Attribute (IpNet N4 N6) × List ℕ → Type 0
  Keeps b r = (get_base r.0 ≡ b) × (is_recognized r.0 ≡ true)

  both : {A B : Type 0} → A → B → A × B
  both x y = (x, y)

  origin_kept : (b : Base) (d : List ℕ) → Always (Keeps b) (decode_origin net b d)
  unfolding decode_origin get_base is_recognized
  origin_kept b d =
      then-Always (Keeps b) (get_be 1 0 d) _
        (λ v. if-Always (Keeps b) (ltb 2 v.0) _ _ (λ _. tt) (λ _. both refl refl))

  aggregator_kept :
      (t : Bool) (b : Base) (len : ℕ) (d : List ℕ)
      → Always (Keeps b) (decode_aggregator net t b len d)
  unfolding decode_aggregator get_base is_recognized
  aggregator_kept t b len d = then-Always (Keeps b) (get_asn t d) _ (λ n.
      then-Always (Keeps b) (get_sized_addr (sub_usize len (asn_width t)) n.1) _
        (λ a. both refl refl))

  as4_aggregator_kept :
      (b : Base) (len : ℕ) (d : List ℕ) → Always (Keeps b) (decode_as4_aggregator net b len d)
  unfolding decode_as4_aggregator get_base is_recognized
  as4_aggregator_kept b len d =
      if-Always (Keeps b) (len == 8) _ _
        (λ _.
          then-Always (Keeps b) (get_be 4 0 d) _
            (λ n. then-Always (Keeps b) (get_addr Afi.ipv4 n.1) _ (λ a. both refl refl)))
        (λ _.
          if-Always (Keeps b) (len == 20) _ _
            (λ _.
              then-Always (Keeps b) (get_be 4 0 d) _
                (λ n. then-Always (Keeps b) (get_addr Afi.ipv6 n.1) _ (λ a. both refl refl)))
            (λ _. tt))

  paths_kept :
      (t : Bool) (b : Base) (len : ℕ) (d : List ℕ)
      → Always (Keeps b) (decode_as_path net t b len d)
        × Always (Keeps b) (decode_as4_path net b len d)
  unfolding decode_as_path decode_as4_path get_base is_recognized
  paths_kept t b len d = (
    then-Always (Keeps b) (read_all (λ n. ltb (length d) (n + len)) (decode_segment t) d) _
        (λ s. both refl refl),
    then-Always (Keeps b) (read_all (remaining_above (length d) len) (decode_segment true) d) _
        (λ s. both refl refl),
  )

  extended_kept : (b : Base) (d : List ℕ) → Always (Keeps b) (decode_extended_communities net b d)
  unfolding decode_extended_communities get_base is_recognized
  extended_kept b d = then-Always (Keeps b) (get_be 8 0 d) _ (λ v. both refl refl)

  routes_kept :
      (b : Base) (len : ℕ) (d : List ℕ)
      → Always (Keeps b) (decode_mp_reach net b len d)
        × Always (Keeps b) (decode_mp_unreach net b len d)
  unfolding decode_mp_reach decode_mp_unreach get_base is_recognized
  routes_kept b len d = (
    then-Always (Keeps b) (get_family d) _ (λ f. then-Always (Keeps b) (get_be 1 0 f.1) _ (λ n.
        then-Always (Keeps b) (read_times (n.0 / addr_width f.0.afi) (get_addr f.0.afi) n.1) _ (λ a.
          then-Always (Keeps b) (get_be 1 0 a.1) _ (λ z.
            then-Always (Keeps b)
              (read_all (remaining_above (length d) len) (decode_prefix net f.0 false) z.1) _
              (λ p. both refl refl))))),
    then-Always (Keeps b) (get_family d) _ (λ f.
        then-Always (Keeps b)
          (read_all (remaining_above (length d) len) (decode_prefix net f.0 false) f.1) _
          (λ p. both refl refl)),
  )

  value_kept :
      (t : Bool) (b : Base) (len : ℕ) (d : List ℕ)
      → validate_attribute_flag b ≡ true
      → Always (Keeps b) (decode_value net b.code t b len d)
  unfolding decode_value validate_attribute_flag get_base is_recognized
  value_kept t b len d v =
      let K = Keeps b in
      if-Always K (b.code == 1) _ _ (λ _. origin_kept b d)
        (λ e1.
          if-Always K (b.code == 2) _ _ (λ _. (paths_kept t b len d).0)
            (λ e2.
              if-Always K (b.code == 3) _ _
                (λ _. then-Always K (get_ipv4 d) _ (λ s. both refl refl))
                (λ e3.
                  if-Always K (b.code == 4) _ _
                    (λ _. then-Always K (get_be 4 0 d) _ (λ s. both refl refl))
                    (λ e4.
                      if-Always K (b.code == 5) _ _
                        (λ _. then-Always K (get_be 4 0 d) _ (λ s. both refl refl))
                        (λ e5.
                          if-Always K (b.code == 6) _ _ (λ _. both refl refl)
                            (λ e6.
                              if-Always K (b.code == 7) _ _ (λ _. aggregator_kept t b len d)
                                (λ e7.
                                  if-Always K (b.code == 8) _ _
                                    (λ _. then-Always K (get_be 4 0 d) _ (λ s. both refl refl))
                                    (λ e8.
                                      if-Always K (b.code == 16) _ _ (λ _. extended_kept b d)
                                        (λ e16.
                                          if-Always K (b.code == 14) _ _
                                            (λ _. (routes_kept b len d).0)
                                            (λ e14.
                                              if-Always K (b.code == 15) _ _
                                                (λ _. (routes_kept b len d).1)
                                                (λ e15.
                                                  if-Always K (b.code == 17) _ _
                                                    (λ _. (paths_kept t b len d).1)
                                                    (λ e17.
                                                      if-Always K (b.code == 18) _ _
                                                        (λ _. as4_aggregator_kept b len d)
                                                        (λ e18.
                                                          let no : validate_attribute_flag b
                                                            ≡ false =
                                                            rw
                                                            (
                                                            e1, e2, e3, e4, e5, e6, e7, e8, e14,
                                                            e15, e16, e17, e18,
                                                            )
                                                            refl in
                                                          absurd cc)))))))))))))

  abbrev IsValid : Attribute (IpNet N4 N6) × List ℕ → Type 0
  IsValid r = (validate_attribute_flag (get_base r.0) ≡ true) × (is_recognized r.0 ≡ true)

  body_checked :
      (t : Bool) (b : Base) (len : ℕ) (d : List ℕ) → Always IsValid (decode_body net t b len d)
  body_checked t b len d = elim (Bool-cases (validate_attribute_flag b)) [
    | inl v ↦ rw v (
        Always-map (Keeps b) IsValid (decode_value net b.code t b len d) (value_kept t b len d v)
          (λ r k. (ap validate_attribute_flag k.0 ∙ v, k.1)))
    | inr v ↦ rw v tt
  ]

  -- A decoded attribute has the flags that the rule for its code asks for, and is one that the
  -- program knows: a code without a constructor is refused, also where its flags say optional.
  pub decode_attribute-Always :
      (as4_enabled : Bool) (d : List ℕ)
      → Always
          (λ r. (validate_attribute_flag (get_base r.0) ≡ true) × (is_recognized r.0 ≡ true))
          (decode_attribute net as4_enabled d)
  unfolding decode_attribute
  decode_attribute-Always t d = then-Always IsValid (get_be 1 0 d) _ (λ f.
      then-Always IsValid (get_be 1 0 f.1) _ (λ c.
        let b : Base = record { flag = f.0; code = c.0 } in
        then-Always IsValid (get_length net b c.1) _ (λ l. body_checked t b l.0 l.1)))
