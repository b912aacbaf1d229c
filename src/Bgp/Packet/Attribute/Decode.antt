-- ===== src/Bgp/Packet/Attribute/Decode.antt =====
-- sartd/src/bgp/src/packet/attribute.rs: `Attribute::decode`. A subtraction of `usize` wraps.
use Prim.Native.Nat.{bit_and}
use sart.Common.{
  ℕ, ◌+◌, ◌/◌, ◌^◌, ◌==◌, Bool, true, false, not, ◌&&◌, List, if◌then◌else◌, length, Outcome, ok,
  err, ◌>>=◌, map_err, ltb,
}
use sart.Net.{Ipv4Addr, Ipv6Addr, IpAddr, IpNet, from_value4, from_value6}
use sart.Bgp.Error.{
  Error, update_message, attribute_flags_error, invalid_origin_attribute, optional_attribute_error,
  unrecognized_wellknown_attribute,
}
use sart.Bgp.Family.{Afi, AddressFamily, family_new}
use sart.Bgp.Packet.Attribute.{
  Base, AsSegment, Attribute, origin, as_path, next_hop, multi_exit_disc, local_pref,
  atomic_aggregate, aggregator, communities, mp_reach_nlri, mp_unreach_nlri, extended_communities,
  as4_path, as4_aggregator, unsupported, flag_extended, base_is_optional, base_is_transitive,
}
use sart.Bgp.Packet.Buffer.{
  Reader, get_u8, get_u16, get_u32, get_u64, get_u128, take_bytes, sub_usize, read_all, read_times,
}
use sart.Bgp.Packet.Prefix.{WireOps, decode_prefix}

abbrev pub base_is_extended : Base → Bool
base_is_extended b = not (bit_and b.flag flag_extended == 0)

unfoldable pub validate_attribute_flag : Base → Bool
validate_attribute_flag b =
    if b.code == 1
    then not (base_is_optional b)
    else if b.code == 2
    then not (base_is_optional b)
    else if b.code == 3
    then not (base_is_optional b)
    else if b.code == 4
    then base_is_optional b && not (base_is_transitive b)
    else if b.code == 5
    then true
    else if b.code == 6
    then true
    else if b.code == 7
    then base_is_optional b
    else if b.code == 8
    then base_is_optional b
    else if b.code == 14
    then base_is_optional b
    else if b.code == 15
    then base_is_optional b
    else if b.code == 16
    then base_is_optional b
    else if b.code == 17
    then base_is_optional b
    else if b.code == 18
    then base_is_optional b
    else false

unfoldable pub get_asn : Bool → Reader Error ℕ
get_asn true d = get_u32 d
get_asn false d = get_u16 d

-- One round of the loops on an AS path.
unfoldable pub decode_segment : Bool → Reader Error AsSegment
unfolding get_asn
decode_segment as4_enabled d = get_u8 d >>= λ t. get_u8 t.1 >>= λ n.
    read_times n.0 (get_asn as4_enabled) n.1 >>= λ s.
    ok (record { segment_type = t.0; segments = s.0 }, s.1)

abbrev pub get_ipv4 : Reader Error Ipv4Addr
get_ipv4 d = get_u32 d >>= λ r. ok (from_value4 r.0, r.1)

abbrev pub get_ipv6 : Reader Error Ipv6Addr
get_ipv6 d = get_u128 d >>= λ r. ok (from_value6 r.0, r.1)

abbrev pub get_addr : Afi → Reader Error IpAddr
get_addr Afi.ipv4 d = get_ipv4 d >>= λ r. ok (IpAddr.v4 r.0, r.1)
get_addr Afi.ipv6 d = get_ipv6 d >>= λ r. ok (IpAddr.v6 r.0, r.1)

abbrev pub get_family : Reader Error AddressFamily
get_family d = get_u16 d >>= λ a. get_u8 a.1 >>= λ s.
    map_err (λ _. update_message optional_attribute_error) (family_new a.0 s.0) >>= λ f. ok (f, s.1)

-- The address of an aggregator, by the number of bytes that are left for it.
abbrev pub get_sized_addr : ℕ → Reader Error IpAddr
get_sized_addr size d =
    if size == 4
    then get_addr Afi.ipv4 d
    else if size == 16
    then get_addr Afi.ipv6 d
    else err (update_message optional_attribute_error)

abbrev pub asn_width : Bool → ℕ
asn_width true = 4
asn_width false = 2

abbrev pub addr_width : Afi → ℕ
addr_width Afi.ipv4 = 4
addr_width Afi.ipv6 = 16

-- `data.remaining() > remain - length`
abbrev pub remaining_above : ℕ → ℕ → ℕ → Bool
remaining_above remain length n = ltb (sub_usize remain length) n

module _ {N4 N6 : Type 0} (net : WireOps N4 N6) where
  -- The attributes over the networks of `ipnet`, with what follows them.
  abbrev pub Decoded : Type 0
  Decoded = Outcome Error (Attribute (IpNet N4 N6) × List ℕ)

  unfoldable pub decode_as_path : Bool → Base → ℕ → List ℕ → Decoded
  unfolding read_all
  decode_as_path as4_enabled b len d =
      read_all (λ n. ltb (length d) (n + len)) (decode_segment as4_enabled) d >>= λ s.
      ok (as_path b s.0, s.1)

  unfoldable pub decode_as4_path : Base → ℕ → List ℕ → Decoded
  unfolding read_all
  decode_as4_path b len d =
      read_all (remaining_above (length d) len) (decode_segment true) d >>= λ s.
      ok (as4_path b s.0, s.1)

  unfoldable pub decode_aggregator : Bool → Base → ℕ → List ℕ → Decoded
  decode_aggregator as4_enabled b len d = get_asn as4_enabled d >>= λ n.
      get_sized_addr (sub_usize len (asn_width as4_enabled)) n.1 >>= λ a.
      ok (aggregator b n.0 a.0, a.1)

  -- `0x0000_1111_1111_1111` is the mask as the source writes it.
  unfoldable pub decode_extended_communities : Base → List ℕ → Decoded
  decode_extended_communities b d = get_u64 d >>= λ v.
      ok (extended_communities b (v.0 / 2 ^ 48) (bit_and v.0 18764998447377), v.1)

  unfoldable pub decode_mp_reach : Base → ℕ → List ℕ → Decoded
  unfolding read_all
  decode_mp_reach b len d = get_family d >>= λ f. get_u8 f.1 >>= λ n.
      read_times (n.0 / addr_width f.0.afi) (get_addr f.0.afi) n.1 >>= λ a. get_u8 a.1 >>= λ z.
      read_all (remaining_above (length d) len) (decode_prefix net f.0 false) z.1 >>= λ p.
      ok (mp_reach_nlri b f.0 a.0 p.0, p.1)

  unfoldable pub decode_mp_unreach : Base → ℕ → List ℕ → Decoded
  unfolding read_all
  decode_mp_unreach b len d = get_family d >>= λ f.
      read_all (remaining_above (length d) len) (decode_prefix net f.0 false) f.1 >>= λ p.
      ok (mp_unreach_nlri b f.0 p.0, p.1)

  -- A length of 20 gives the other constructor.
  unfoldable pub decode_as4_aggregator : Base → ℕ → List ℕ → Decoded
  decode_as4_aggregator b len d =
      if len == 8
      then (get_u32 d >>= λ n. get_addr Afi.ipv4 n.1 >>= λ a. ok (as4_aggregator b n.0 a.0, a.1))
      else if len == 20
      then (get_u32 d >>= λ n. get_addr Afi.ipv6 n.1 >>= λ a. ok (aggregator b n.0 a.0, a.1))
      else err (update_message optional_attribute_error)

  unfoldable pub decode_origin : Base → List ℕ → Decoded
  decode_origin b d = get_u8 d >>= λ v.
      if ltb 2 v.0
      then err (update_message (invalid_origin_attribute v.0))
      else ok (origin b v.0, v.1)

  unfoldable pub decode_unknown : Base → ℕ → List ℕ → Decoded
  unfolding take_bytes
  decode_unknown b len d =
      if not (base_is_optional b)
      then err (update_message (unrecognized_wellknown_attribute b.code))
      else let (taken, rest) = take_bytes len d in ok (unsupported b taken, rest)

  -- The value behind the header, by the code.
  unfoldable pub decode_value : ℕ → Bool → Base → ℕ → List ℕ → Decoded
  decode_value code as4_enabled b len d =
      if code == 1
      then decode_origin b d
      else if code == 2
      then decode_as_path as4_enabled b len d
      else if code == 3
      then (get_ipv4 d >>= λ v. ok (next_hop b v.0, v.1))
      else if code == 4
      then (get_u32 d >>= λ v. ok (multi_exit_disc b v.0, v.1))
      else if code == 5
      then (get_u32 d >>= λ v. ok (local_pref b v.0, v.1))
      else if code == 6
      then ok (atomic_aggregate b, d)
      else if code == 7
      then decode_aggregator as4_enabled b len d
      else if code == 8
      then (get_u32 d >>= λ v. ok (communities b v.0, v.1))
      else if code == 16
      then decode_extended_communities b d
      else if code == 14
      then decode_mp_reach b len d
      else if code == 15
      then decode_mp_unreach b len d
      else if code == 17
      then decode_as4_path b len d
      else if code == 18
      then decode_as4_aggregator b len d
      else decode_unknown b len d

  abbrev pub get_length : Base → Reader Error ℕ
  get_length b d = if base_is_extended b then get_u16 d else get_u8 d

  abbrev pub decode_body : Bool → Base → ℕ → List ℕ → Decoded
  decode_body as4_enabled b len d =
      if not (validate_attribute_flag b)
      then err (update_message (attribute_flags_error b.code len b.flag))
      else decode_value b.code as4_enabled b len d

  unfoldable pub decode_attribute : Bool → List ℕ → Decoded
  unfolding validate_attribute_flag decode_value
  decode_attribute as4_enabled d = get_u8 d >>= λ f. get_u8 f.1 >>= λ c.
      let b : Base = record { flag = f.0; code = c.0 } in
      get_length b c.1 >>= λ l. decode_body as4_enabled b l.0 l.1
