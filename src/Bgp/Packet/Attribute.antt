-- ===== src/Bgp/Packet/Attribute.antt =====
-- sartd/src/bgp/src/packet/attribute.rs, the attributes and their constructors, and the type of
-- sartd/src/bgp/src/packet/prefix.rs. `N` is the type `ipnet::IpNet`.
pub mod Decode
pub mod Encode
pub mod Fuel
pub mod Values
pub mod Bodies
pub mod Loops
pub mod RoundTrip
pub mod Size
pub mod Valid
use Prim.Native.Nat.{bit_and}
use sart.Common.{
  ℕ, ◌+◌, ◌==◌, ◌^◌, Bool, true, false, not, ◌||◌, Option, List, [], ◌∷◌, if◌then◌else◌, Outcome,
  ok, err,
}
use sart.Net.{Ipv4Addr, IpAddr}
use sart.Bgp.Family.{AddressFamily}

pub record Prefix (N : Type 0) : Type 0 where
  pub inner : N
  pub path_id : Option ℕ

pub record Base : Type 0 where
  pub flag : ℕ
  pub code : ℕ

pub record AsSegment : Type 0 where
  pub segment_type : ℕ
  pub segments : List ℕ

pub data Attribute (N : Type 0) : Type 0 where
  origin : Base → ℕ → Attribute N
  as_path : Base → List AsSegment → Attribute N
  next_hop : Base → Ipv4Addr → Attribute N
  multi_exit_disc : Base → ℕ → Attribute N
  local_pref : Base → ℕ → Attribute N
  atomic_aggregate : Base → Attribute N
  aggregator : Base → ℕ → IpAddr → Attribute N
  communities : Base → ℕ → Attribute N
  mp_reach_nlri : Base → AddressFamily → List IpAddr → List (Prefix N) → Attribute N
  mp_unreach_nlri : Base → AddressFamily → List (Prefix N) → Attribute N
  extended_communities : Base → ℕ → ℕ → Attribute N
  as4_path : Base → List AsSegment → Attribute N
  as4_aggregator : Base → ℕ → IpAddr → Attribute N
  unsupported : Base → List ℕ → Attribute N

abbrev pub flag_optional : ℕ
flag_optional = 2 ^ 7

abbrev pub flag_transitive : ℕ
flag_transitive = 2 ^ 6

abbrev pub flag_partial : ℕ
flag_partial = 2 ^ 5

abbrev pub flag_extended : ℕ
flag_extended = 2 ^ 4

abbrev pub origin_igp : ℕ
origin_igp = 0

abbrev pub origin_egp : ℕ
origin_egp = 1

abbrev pub origin_incomplete : ℕ
origin_incomplete = 2

abbrev pub as_set_type : ℕ
as_set_type = 1

abbrev pub as_sequence_type : ℕ
as_sequence_type = 2

abbrev pub as_trans : ℕ
as_trans = 23456

abbrev pub as_2bytes_limit : ℕ
as_2bytes_limit = 65535

abbrev pub base_is_transitive : Base → Bool
base_is_transitive b = not (bit_and b.flag flag_transitive == 0)

abbrev pub base_is_optional : Base → Bool
base_is_optional b = not (bit_and b.flag flag_optional == 0)

pub data AttributeError : Type 0 where
  invalid_origin_attribute : ℕ → AttributeError
  invalid_next_hop_attribute : AttributeError

module _ {N : Type 0} where
  unfoldable pub get_base : Attribute N → Base
  get_base (origin b _) = b
  get_base (as_path b _) = b
  get_base (next_hop b _) = b
  get_base (multi_exit_disc b _) = b
  get_base (local_pref b _) = b
  get_base (atomic_aggregate b) = b
  get_base (aggregator b _ _) = b
  get_base (communities b _) = b
  get_base (mp_reach_nlri b _ _ _) = b
  get_base (mp_unreach_nlri b _ _) = b
  get_base (extended_communities b _ _) = b
  get_base (as4_path b _) = b
  get_base (as4_aggregator b _ _) = b
  get_base (unsupported b _) = b

  unfoldable pub is_transitive : Attribute N → Bool
  is_transitive a = base_is_transitive (get_base a)

  unfoldable pub is_optional : Attribute N → Bool
  is_optional a = base_is_optional (get_base a)

  unfoldable pub is_recognized : Attribute N → Bool
  is_recognized (unsupported b _) = false
  is_recognized _ = true

  unfoldable pub new_origin : ℕ → Outcome AttributeError (Attribute N)
  new_origin val =
      if val == origin_igp || val == origin_egp || val == origin_incomplete
      then ok (origin (record { flag = flag_transitive; code = 1 }) val)
      else err (invalid_origin_attribute val)

  unfoldable pub new_nexthop : Ipv4Addr → Attribute N
  new_nexthop addr = next_hop (record { flag = flag_transitive; code = 3 }) addr

abbrev no_numbers : List ℕ → Bool
no_numbers [] = true
no_numbers (x ∷ xs) = false

-- The segments of an AS path: an empty set gives none.
unfoldable pub path_segments : List ℕ → List ℕ → List AsSegment
path_segments as_sequence as_set =
    if no_numbers as_set
    then record { segment_type = as_sequence_type; segments = as_sequence } ∷ []
    else record { segment_type = as_sequence_type; segments = as_sequence }
      ∷ record { segment_type = as_set_type; segments = as_set }
      ∷ []

module _ {N : Type 0} where
  unfoldable pub new_as_path : List ℕ → List ℕ → Bool → Attribute N
  unfolding path_segments
  new_as_path as_sequence as_set extend =
      as_path
        (record {
          flag = if extend then flag_transitive + flag_extended else flag_transitive;
          code = 2;
        })
        (path_segments as_sequence as_set)

  unfoldable pub new_as4_path : List ℕ → List ℕ → Bool → Attribute N
  unfolding path_segments
  new_as4_path as_sequence as_set extend =
      as4_path
        (record {
          flag =
              if extend
              then flag_transitive + flag_optional + flag_extended
              else flag_transitive + flag_optional;
          code = 17;
        })
        (path_segments as_sequence as_set)

  unfoldable pub new_local_pref : ℕ → Attribute N
  new_local_pref val = local_pref (record { flag = flag_transitive; code = 5 }) val

  unfoldable pub new_med : ℕ → Attribute N
  new_med val = multi_exit_disc (record { flag = flag_optional; code = 4 }) val
