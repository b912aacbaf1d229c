-- ===== src/Bgp/Rib/Preference.antt =====
-- Which comparisons bring a new path to the front of its network, with one best path.
use sart.Common.{
  ℕ, ◌<◌, ◌≡◌, refl, Bool, true, false, some, List, ◌∷◌, length, ok, arith, Bool-cases, inl, inr,
  lt→ltb,
}
use Prim.Native.Nat.{compare}
use sart.Bgp.Path.{BgpPath, BestPathReason, is_local_originated}
use sart.Bgp.Path.Equality.{path_eq}
use sart.Bgp.Rib.{
  best_path_changed, is_less, Comparison, true_first, get_comparison_funcs, first_less, position_of,
  compare_weight, compare_local_pref, compare_local_originated, compare_as_path,
}
use sart.Bgp.Rib.LocRib.{refresh, place, put_single, insert_paths, marked}
use sart.Bgp.Rib.Single.{HeadBest, last_best_head}

is_less-true : (x y : ℕ) → x < y → is_less (compare x y) ≡ true
is_less-true x y h = ground (arith, lt→ltb x y h)

is_less-false : (x y : ℕ) → y < x → is_less (compare x y) ≡ false
is_less-false x y h = ground arith

true_first_tie : (a b : Bool) → a ≡ b → is_less (true_first a b) ≡ false
true_first_tie true true e = refl
true_first_tie true false e = cc
true_first_tie false true e = cc
true_first_tie false false e = refl

module _ {N : Type 0} (net_discrete : Discrete N) (path p : BgpPath N) (ps : List (BgpPath N)) where
  -- The new path at the head, marked with a reason, and some paths behind it.
  abbrev pub IsFirst : BestPathReason → Type 0
  IsFirst r =
      (qs : List (BgpPath N)) × (insert_paths net_discrete false path (p ∷ ps)
        ≡ ok (best_path_changed path.prefix path.id, marked r path, marked r path ∷ qs))

  -- What stands behind it: the old best path without its mark, and the others.
  abbrev unmarked : ℕ → List (BgpPath N)
  unmarked t =
      record p { timestamp = t; best = false; reason = BestPathReason.not_best }
      ∷ refresh net_discrete path ps

  position_first :
      (fs : List (Comparison N)) (r : BestPathReason) (q : BgpPath N) (qs : List (BgpPath N))
      → first_less fs path q ≡ some r
      → position_of fs path 0 (q ∷ qs) ≡ (0, r)
  unfolding position_of
  position_first fs r q qs f = rw (f, position_of) refl

  place_first :
      (r : BestPathReason) (q : BgpPath N) (qs : List (BgpPath N))
      → first_less (get_comparison_funcs false) path q ≡ some r
      → place net_discrete false 0 path (q ∷ qs)
        ≡ ok (
          best_path_changed path.prefix path.id,
          marked r path,
          marked r path ∷ record q { best = false; reason = BestPathReason.not_best } ∷ qs,
        )
  unfolding place put_single
  place_first r q qs f = rw (position_first (get_comparison_funcs false) r q qs f) refl

  first_less-IsFirst :
      (r : BestPathReason)
      → HeadBest (p ∷ ps)
      → ((t : ℕ)
          → first_less (get_comparison_funcs false) path (record p { timestamp = t }) ≡ some r)
      → IsFirst r
  unfolding insert_paths refresh
  first_less-IsFirst r h f = elim (Bool-cases (path_eq net_discrete p path)) [
    | inl e ↦ (
      unmarked path.timestamp,
      rw (last_best_head p ps h, e)
          (place_first r _ (refresh net_discrete path ps) (f path.timestamp)),
    )
    | inr e ↦ (
      unmarked p.timestamp,
      rw (last_best_head p ps h, e)
          (place_first r _ (refresh net_discrete path ps) (f p.timestamp)),
    )
  ]

  -- With one best path, a new path with a greater local preference than the best one becomes the
  -- best path, for that reason.
  pub local_pref_decides :
      HeadBest (p ∷ ps) → p.local_pref < path.local_pref → IsFirst BestPathReason.local_pref
  unfolding get_comparison_funcs first_less compare_weight compare_local_pref
  local_pref_decides h g =
      first_less-IsFirst BestPathReason.local_pref h
        (λ t. rw (is_less-true p.local_pref path.local_pref g) refl)

  -- With one best path, a new path whose AS path is shorter than that of the best one becomes
  -- the best path even where its local preference, which is compared first, is lower, if both
  -- paths are locally originated or neither is.
  pub as_path_overrides :
      HeadBest (p ∷ ps)
      → path.local_pref < p.local_pref
      → is_local_originated path ≡ is_local_originated p
      → length path.as_sequence < length p.as_sequence
      → IsFirst BestPathReason.as_path
  unfolding get_comparison_funcs first_less compare_weight compare_local_pref
      compare_local_originated compare_as_path is_local_originated
  as_path_overrides h g o l = first_less-IsFirst BestPathReason.as_path h (λ t.
      rw
        (
          is_less-false p.local_pref path.local_pref g,
          true_first_tie (is_local_originated path) (is_local_originated p) o,
          is_less-true (length path.as_sequence) (length p.as_sequence) l,
        )
        refl)
