-- ===== src/Ipam/BitSet/Tests.antt =====
-- Runs of the bit set, and its theorems at concrete inputs.
use sart.Common.{
  ℕ, ◌-◌, ◌^◌, ◌<◌, ◌≡◌, ◌⊎◌, refl, true, false, [], ◌∷◌, ok, err, panic, arith, ◌==◌,
  if◌then◌else◌,
}
use sart.Ipam.BitSet.{
  BitSet, full, is_set, set, set_next, get_min_unset_index, is_empty, with_value, scan_words,
  scan_word,
}
use sart.Ipam.BitSet.Words.{IsValid}
use sart.Ipam.BitSet.Update.{set_lem, set_at_size}
use sart.Ipam.BitSet.Search.{set_next_lem}
use sart.Ipam.BitSet.Clear.{is_empty_wraps, two_words}

-- Two words of which the first is full and the second lacks index 140.
abbrev crowded : BitSet
crowded = record { inner = (2 ^ 128 - 1) ∷ 0xffff_ffff_ffff_0fff ∷ []; size = 256 }

crowded-IsValid : IsValid crowded
crowded-IsValid = record {
  words = omega arith;
  enough = omega arith;
  tight = omega arith;
  small = omega arith;
}

min_unset_140 : get_min_unset_index crowded ≡ ok 140
unfolding get_min_unset_index scan_words scan_word
min_unset_140 = refl

full_at_8 : get_min_unset_index (with_value (0xff ∷ []) 8) ≡ err full
unfolding get_min_unset_index scan_words scan_word with_value
full_at_8 = refl

set_lem_example :
    (b' : BitSet) × (set crowded 140 true ≡ ok (140, b'))
    × IsValid b'
    × (b'.size ≡ 256)
    × ((j : ℕ) → j < 256 → is_set b' j ≡ (if 140 == j then ok true else is_set crowded j))
set_lem_example = set_lem crowded-IsValid 140 true (omega arith)

set_at_size_example : (set crowded 256 true ≡ panic) × (is_set crowded 256 ≡ panic)
set_at_size_example = set_at_size crowded-IsValid true (omega arith)

set_next_lem_example :
    ((i : ℕ) × (b' : BitSet) × (set_next crowded ≡ ok (i, b'))
      × IsValid b'
      × (b'.size ≡ 256)
      × (i < 256)
      × (is_set crowded i ≡ ok false)
      × ((j : ℕ) → j < i → is_set crowded j ≡ ok true)
      × ((j : ℕ) → j < 256 → is_set b' j ≡ (if i == j then ok true else is_set crowded j)))
    ⊎ ((set_next crowded ≡ err full) × ((j : ℕ) → j < 256 → is_set crowded j ≡ ok true))
set_next_lem_example = set_next_lem crowded-IsValid

-- Indices 127 and 255 are set, and the set counts as empty.
is_empty_wraps_example :
    IsValid (two_words (2 ^ 127) (2 ^ 127))
    × (is_empty (two_words (2 ^ 127) (2 ^ 127)) ≡ true)
    × ¬ ((j : ℕ) → j < 256 → is_set (two_words (2 ^ 127) (2 ^ 127)) j ≡ ok false)
is_empty_wraps_example =
    is_empty_wraps (2 ^ 127) (2 ^ 127) (omega arith) (omega arith) (omega arith)
