-- ===== src/Ipam/BitSet/Search.antt =====
-- `get_min_unset_index` and `set_next`: the search finds the least free index, or says that there is none.
use sart.Common.{
  ℕ, zero, suc, ◌+◌, ◌*◌, ◌/◌, ◌%◌, ◌≤◌, ◌<◌, ◌≡◌, ◌≢◌, refl, ap, ◌∙◌, true, false, none, some,
  if◌then◌else◌, ◌==◌, length, get_elem?, List, [], ◌∷◌, ok, err, arith, inl, inr, ◌⊎◌, ne→==,
  subst, get_elem?-lt, ◌↔◌,
}
use native.Mathlib.Decide.{ℕ_discrete}
use native.Mathlib.Nat.{add-zero}
use mathlib.Core.Option.{some-injective}
use sart.Common.Bits.{bit}
use sart.Ipam.BitSet.{
  BitSet, full, is_set, scan_word, scan_words, get_min_unset_index, set_next, is_full, is_err,
}
use sart.Ipam.BitSet.Words.{IsValid, usize_exact, word_at, is_set-bit}
use sart.Ipam.BitSet.Update.{set_lem}

-- The inner loop, `count` rounds from digit `i` on.
abbrev WordScan : ℕ → ℕ → ℕ → Type 0
WordScan count i b =
    ((d : ℕ) × (scan_word count i b ≡ some (i + d))
      × (d < count)
      × (bit b d ≡ 0)
      × ((m : ℕ) → m < d → bit b m ≡ 1))
    ⊎ ((scan_word count i b ≡ none) × ((m : ℕ) → m < count → bit b m ≡ 1))

below_suc :
    (b d : ℕ)
    → b % 2 ≢ 0
    → ((m : ℕ) → m < d → bit (b / 2) m ≡ 1)
    → (m : ℕ) → m < suc d
    → bit b m ≡ 1
unfolding bit
below_suc b d odd h zero l = omega arith
below_suc b d odd h (suc m) l = h m (omega arith)

scan_word_lem : (count i b : ℕ) → WordScan count i b
unfolding scan_word bit
scan_word_lem zero i b = inr (refl, λ m l. elim l [ ])
scan_word_lem (suc count) i b = elim (ℕ_discrete (b % 2) 0) [
  | yes even ↦ inl (0, ground arith, omega arith, even, λ m l. elim l [ ])
  | no odd ↦ elim (scan_word_lem count (i + 1) (b / 2)) [
    | inl (d, e, l, z, ones) ↦ inl (
      suc d,
      rw (ne→== (b % 2) 0 odd, e) (ap some (omega arith)),
      omega arith,
      z,
      below_suc b d odd ones,
    )
    | inr (e, ones) ↦ inr (rw (ne→== (b % 2) 0 odd, e), below_suc b count odd ones)
  ]
]

next_word : (n j : ℕ) → n + suc j ≡ n + 1 + j
next_word n j = omega arith

abbrev limit : ℕ → ℕ → ℕ → ℕ
limit max_vec_idx max_idx n = if max_vec_idx == n then max_idx else 128

-- Every digit that the search looks at before digit `d` of word `k` is set.
abbrev OnesBefore : ℕ → ℕ → ℕ → List ℕ → ℕ → ℕ → Type 0
OnesBefore max_vec_idx max_idx n ws k d =
    (j u m : ℕ)
    → get_elem? ws j ≡ some u
    → m < limit max_vec_idx max_idx (n + j)
    → j * 128 + m < k * 128 + d
    → bit u m ≡ 1

abbrev WordsScan : ℕ → ℕ → ℕ → List ℕ → Type 0
WordsScan max_vec_idx max_idx n ws =
    ((k w d : ℕ) × (scan_words max_vec_idx max_idx n ws ≡ ok ((n + k) * 128 + d))
      × (get_elem? ws k ≡ some w)
      × (d < limit max_vec_idx max_idx (n + k))
      × (bit w d ≡ 0)
      × OnesBefore max_vec_idx max_idx n ws k d)
    ⊎ ((scan_words max_vec_idx max_idx n ws ≡ err full)
        × OnesBefore max_vec_idx max_idx n ws (length ws) 0)

module _ (max_vec_idx max_idx : ℕ) (small : max_idx < 128) where
  limit-le : (n : ℕ) → limit max_vec_idx max_idx n ≤ 128
  limit-le n = ground arith

  here_before :
      (n v d : ℕ) (vs : List ℕ)
      → d < 128
      → ((m : ℕ) → m < d → bit v m ≡ 1)
      → OnesBefore max_vec_idx max_idx n (v ∷ vs) 0 d
  here_before n v d vs l ones zero u m e h p =
      subst (λ x. bit x m ≡ 1) (some-injective _ _ e) (ones m (omega arith))
  here_before n v d vs l ones (suc j) u m e h p = absurd (omega arith)

  later_before :
      (n v k d : ℕ) (vs : List ℕ)
      → ((m : ℕ) → m < limit max_vec_idx max_idx n → bit v m ≡ 1)
      → OnesBefore max_vec_idx max_idx (n + 1) vs k d
      → OnesBefore max_vec_idx max_idx n (v ∷ vs) (suc k) d
  later_before n v k d vs ones rest zero u m e h p =
      subst (λ x. bit x m ≡ 1) (some-injective _ _ e) (ones m (rw (add-zero n) at h))
  later_before n v k d vs ones rest (suc j) u m e h p =
      rest j u m e (rw (next_word n j) at h) (omega arith)

  scan_words_lem : (n : ℕ) (ws : List ℕ) → WordsScan max_vec_idx max_idx n ws
  unfolding scan_words
  scan_words_lem n [] = inr (refl, λ j u m e h p. cc)
  scan_words_lem n (v ∷ vs) = elim (scan_word_lem (limit max_vec_idx max_idx n) 0 v) [
    | inl (d, e, l, z, ones) ↦ inl (
      0,
      v,
      d,
      rw (e, scan_words) (ap ok (omega arith)),
      refl,
      rw (add-zero n) l,
      z,
      here_before n v d vs (omega (arith, limit-le n)) ones,
    )
    | inr (e, ones) ↦ elim (scan_words_lem (n + 1) vs) [
      | inl (k, w, d, f, g, l, z, before) ↦ inl (
        suc k,
        w,
        d,
        rw (e, scan_words) (f ∙ ap ok (omega arith)),
        g,
        rw (← next_word n k) at l,
        z,
        later_before n v k d vs ones before,
      )
      | inr (f, before) ↦ inr (rw (e, scan_words) f, later_before n v (length vs) 0 vs ones before)
    ]
  ]

-- The digits that the search looks at are those of the indices below the size.
limit_in : (s j : ℕ) → j < s → j % 128 < limit (s / 128) (s % 128) (0 + j / 128)
limit_in s j h = ground arith

limit_out :
    (s k d n : ℕ)
    → s ≤ 128 * n
    → 128 * n < s + 128
    → k < n
    → d < limit (s / 128) (s % 128) (0 + k)
    → (d < 128) × ((0 + k) * 128 + d < s)
limit_out s k d n enough tight h l = ground arith

module _ {b : BitSet} (v : IsValid b) where
  get_min_unset_index-scan_words :
      get_min_unset_index b ≡ scan_words (b.size / 128) (b.size % 128) 0 b.inner
  unfolding get_min_unset_index
  get_min_unset_index-scan_words = rw (usize_exact v b.size (omega arith)) refl

  ones_set :
      (k d j : ℕ)
      → OnesBefore (b.size / 128) (b.size % 128) 0 b.inner k d
      → j < b.size
      → j < k * 128 + d
      → is_set b j ≡ ok true
  ones_set k d j before h l =
      let (w, e, _) = word_at v j h in
      is_set-bit v j w h e
      ∙ rw (before (j / 128) w (j % 128) e (limit_in b.size j h) (omega arith)) refl

  zero_unset :
      (k w d : ℕ)
      → get_elem? b.inner k ≡ some w
      → d < 128
      → (0 + k) * 128 + d < b.size
      → bit w d ≡ 0
      → is_set b ((0 + k) * 128 + d) ≡ ok false
  zero_unset k w d e l h z =
      let vec : ((0 + k) * 128 + d) / 128 ≡ k = omega arith in
      let idx : ((0 + k) * 128 + d) % 128 ≡ d = omega arith in
      is_set-bit v ((0 + k) * 128 + d) w h (rw vec e) ∙ rw (idx, z) refl

  -- In a well-formed set, the search returns the least index below the size that is not set, and
  -- `full` when every index below the size is set.
  pub get_min_unset_index_lem :
      ((i : ℕ) × (get_min_unset_index b ≡ ok i)
        × (i < b.size)
        × (is_set b i ≡ ok false)
        × ((j : ℕ) → j < i → is_set b j ≡ ok true))
      ⊎ ((get_min_unset_index b ≡ err full) × ((j : ℕ) → j < b.size → is_set b j ≡ ok true))
  get_min_unset_index_lem =
      elim (scan_words_lem (b.size / 128) (b.size % 128) (omega arith) 0 b.inner) [
        | inl (k, w, d, e, g, l, z, before) ↦
            let (l', h) =
              limit_out b.size k d (length b.inner) v.enough v.tight (get_elem?-lt b.inner k w g)
                l in
            inl (
              (0 + k) * 128 + d,
              get_min_unset_index-scan_words ∙ e,
              h,
              zero_unset k w d g l' h z,
              λ j p. ones_set k d j before (omega arith) (omega arith),
            )
        | inr (e, before) ↦ inr (
          get_min_unset_index-scan_words ∙ e,
          λ j p. ones_set (length b.inner) 0 j before p (omega (arith, v.enough)),
        )
      ]

  -- In a well-formed set, `set_next` sets the least index below the size that is not set and
  -- changes no other, or is `full` when all are set. The set stays well formed.
  pub set_next_lem :
      ((i : ℕ) × (b' : BitSet) × (set_next b ≡ ok (i, b'))
        × IsValid b'
        × (b'.size ≡ b.size)
        × (i < b.size)
        × (is_set b i ≡ ok false)
        × ((j : ℕ) → j < i → is_set b j ≡ ok true)
        × ((j : ℕ) → j < b.size → is_set b' j ≡ (if i == j then ok true else is_set b j)))
      ⊎ ((set_next b ≡ err full) × ((j : ℕ) → j < b.size → is_set b j ≡ ok true))
  unfolding set_next
  set_next_lem = elim get_min_unset_index_lem [
    | inl (i, e, h, z, ones) ↦
        let (b', f, v', s, reads) = set_lem v i true h in
        inl (i, b', rw e f, v', s, h, z, ones, reads)
    | inr (e, ones) ↦ inr (rw e, ones)
  ]

  -- In a well-formed set, `is_full` answers whether every index below the size is set.
  pub is_full_iff : (is_full b ≡ true) ↔ ((j : ℕ) → j < b.size → is_set b j ≡ ok true)
  unfolding is_full
  is_full_iff = elim get_min_unset_index_lem [
    | inl (i, e, h, z, ones) ↦
        (λ full_now. absurd (cc (ap is_err e, full_now)), λ all_set. absurd (cc (all_set i h, z)))
    | inr (e, ones) ↦ (λ _. ones, λ _. rw e)
  ]
