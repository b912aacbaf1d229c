-- ===== src/Bgp/Rib/LocRib.antt =====
-- `LocRib`: `insert` and `drop`. The two work on the paths of one network (`insert_paths`,
-- `drop_paths`), which they find in a table of tables.
use sart.Common.{
  ℕ, zero, suc, ◌+◌, ◌==◌, Bool, true, false, List, [], ◌∷◌, map, if◌then◌else◌, leb, get_elem?,
  set, Outcome, ok, or_panic, ok_or, ◌>>=◌,
}
use sart.Bgp.Path.{BgpPath, BestPathReason, is_equal_cost}
use sart.Bgp.Path.Equality.{path_eq}
use sart.Bgp.Rib.{
  RibError, path_not_found, LocRibStatus, not_changed, best_path_changed, multi_path_added,
  get_comparison_funcs, position_of, last_best, insert_at, unmark,
}

-- What a change of the paths of one network gives: its status, the path that was passed by
-- reference, and the paths.
abbrev pub Inserted : Type 0 → Type 0
Inserted N = LocRibStatus N × BgpPath N × List (BgpPath N)

module _ {N : Type 0} where
  abbrev pub marked : BestPathReason → BgpPath N → BgpPath N
  marked r p = record p { best = true; reason = r }

  -- The end of `insert`: the new path goes in, and the best path is the one it was.
  abbrev pub put_below : ℕ → BgpPath N → List (BgpPath N) → Inserted N
  put_below idx path paths = (not_changed, path, insert_at idx path paths)

  -- A path that is preferred to all the best ones, with several best paths allowed.
  unfoldable pub put_multi_best : ℕ → BestPathReason → BgpPath N → List (BgpPath N) → Inserted N
  put_multi_best idx reason path paths =
      let path' = marked reason path in
      (best_path_changed path'.prefix path'.id, path', insert_at idx path' (map unmark paths))

  -- A path just below the last best one joins the best ones if it costs the same.
  unfoldable pub put_multi_next :
      ℕ → ℕ → BgpPath N → List (BgpPath N) → Outcome RibError (Inserted N)
  put_multi_next best_idx idx path paths = or_panic (get_elem? paths best_idx) >>= λ b.
      if is_equal_cost path b
      then ok (
        multi_path_added,
        marked BestPathReason.equal_cost_milti_path path,
        insert_at idx (marked BestPathReason.equal_cost_milti_path path)
            (set paths best_idx (record b { reason = BestPathReason.equal_cost_milti_path })),
      )
      else ok (put_below idx path paths)

  unfoldable pub put_multi :
      ℕ → ℕ → BestPathReason → BgpPath N → List (BgpPath N) → Outcome RibError (Inserted N)
  unfolding put_multi_best put_multi_next
  put_multi best_idx idx reason path paths =
      if leb idx best_idx
      then ok (put_multi_best idx reason path paths)
      else if best_idx + 1 == idx
      then put_multi_next best_idx idx path paths
      else ok (put_below idx path paths)

  -- With one best path: a path that comes to the front takes the mark from the old best one.
  unfoldable pub put_single : ℕ → BestPathReason → BgpPath N → List (BgpPath N) → Inserted N
  put_single zero reason path [] =
      (best_path_changed path.prefix path.id, marked reason path, marked reason path ∷ [])
  put_single zero reason path (p ∷ ps) =
      let path' = marked reason path in
      (
        best_path_changed path'.prefix path'.id,
        path',
        path' ∷ record p { best = false; reason = BestPathReason.not_best } ∷ ps,
      )
  put_single (suc idx) reason path paths = put_below (suc idx) path paths

  -- A first path.
  abbrev pub put_only : BgpPath N → Inserted N
  put_only path =
      let path' = marked BestPathReason.only_path path in
      (best_path_changed path'.prefix path'.id, path', path' ∷ [])

module _ {N : Type 0} (net_discrete : Discrete N) where
  -- Equal paths of the table take the time of the new one.
  unfoldable pub refresh : BgpPath N → List (BgpPath N) → List (BgpPath N)
  unfolding path_eq
  refresh path [] = []
  refresh path (p ∷ ps) =
      (if path_eq net_discrete p path then record p { timestamp = path.timestamp } else p)
      ∷ refresh path ps

  -- The place of a new path among the others, and the table with it.
  unfoldable pub place : Bool → ℕ → BgpPath N → List (BgpPath N) → Outcome RibError (Inserted N)
  unfolding put_multi put_single position_of
  place multi_path best_idx path paths =
      let (idx, reason) = position_of (get_comparison_funcs multi_path) path 0 paths in
      if multi_path
      then put_multi best_idx idx reason path paths
      else ok (put_single idx reason path paths)

  -- `insert`, on the paths of the network.
  unfoldable pub insert_paths : Bool → BgpPath N → List (BgpPath N) → Outcome RibError (Inserted N)
  unfolding place refresh last_best
  insert_paths multi_path path [] = ok (put_only path)
  insert_paths multi_path path (p ∷ ps) = ok_or path_not_found (last_best (p ∷ ps)) >>= λ best_idx.
      place multi_path best_idx path (refresh path (p ∷ ps))
