-- ===== src/Bgp/Rib/Withdraw.antt =====
-- `LocRib::drop`, on the paths of one network.
use sart.Common.{
  ℕ, suc, ◌==◌, Bool, true, false, Option, none, some, List, [], ◌∷◌, if◌then◌else◌, Outcome, ok,
  err,
}
use sart.Net.{IpAddr}
use sart.Bgp.Path.{BgpPath, BestPathReason, is_equal_cost, kind}
use sart.Bgp.Rib.{
  RibError, path_not_found, LocRibStatus, not_changed, withdrawn, best_path_changed,
  multi_path_withdrawn, get_comparison_funcs, first_less,
}

-- The status, and the paths that are left.
abbrev pub Dropped : Type 0 → Type 0
Dropped N = LocRibStatus N × List (BgpPath N)

abbrev pub first_hop : List IpAddr → Option IpAddr
first_hop [] = none
first_hop (h ∷ hs) = some h

-- The reasons at which the choice starts again over equal costs.
unfoldable pub is_undecided : BestPathReason → Bool
is_undecided BestPathReason.not_best = true
is_undecided BestPathReason.equal_cost_milti_path = true
is_undecided BestPathReason.only_path = false
is_undecided BestPathReason.weight = false
is_undecided BestPathReason.local_pref = false
is_undecided BestPathReason.local_originated = false
is_undecided BestPathReason.as_path = false
is_undecided BestPathReason.origin = false
is_undecided BestPathReason.multi_exit_disc = false
is_undecided BestPathReason.external = false
is_undecided BestPathReason.igp_metric = false
is_undecided BestPathReason.older_route = false
is_undecided BestPathReason.router_id = false
is_undecided BestPathReason.peer_addr = false

module _ {N : Type 0} where
  -- `iter().position(|p| p.id == id)` and `remove(idx)`.
  unfoldable pub take_id : ℕ → List (BgpPath N) → Option (ℕ × BgpPath N × List (BgpPath N))
  take_id id [] = none
  take_id id (p ∷ ps) =
      let rest = take_id id ps in
      if p.id == id
      then some (0, p, ps)
      else elim rest [ none ↦ none | some (i, q, qs) ↦ some (suc i, q, p ∷ qs) ]

  -- The paths that cost what the one before costs are best ones too.
  unfoldable pub mark_equal : BgpPath N → List (BgpPath N) → List (BgpPath N)
  mark_equal p [] = p ∷ []
  mark_equal p (q ∷ ps) =
      let rest =
        mark_equal (record q { best = true; reason = BestPathReason.equal_cost_milti_path }) ps in
      if is_equal_cost p q
      then record p { reason = BestPathReason.equal_cost_milti_path } ∷ rest
      else p ∷ q ∷ ps

  -- The first path becomes the best one, for the reason that sets it before the second.
  unfoldable pub mark_first : Bool → BgpPath N → BgpPath N → BgpPath N
  unfolding first_less
  mark_first multi_path p q = elim (first_less (get_comparison_funcs multi_path) p q) [
    | some r ↦ record p { best = true; reason = r }
    | none ↦ record p { best = true }
  ]

  unfoldable pub reselect_multi :
      N → ℕ → BgpPath N → BgpPath N → BgpPath N → List (BgpPath N) → Dropped N
  unfolding mark_first mark_equal is_undecided
  reselect_multi prefix idx removed p q ps =
      if idx == 0
      then if p.best
        then (multi_path_withdrawn prefix p.id (first_hop removed.next_hops), p ∷ q ∷ ps)
        else (let p' = mark_first true p q in
            (
              best_path_changed prefix p.id,
              if is_undecided p'.reason then mark_equal p' (q ∷ ps) else p' ∷ q ∷ ps,
            ))
      else (multi_path_withdrawn prefix p.id (first_hop removed.next_hops), p ∷ q ∷ ps)

  -- What follows the removal of a path that was a best one.
  unfoldable pub reselect : Bool → N → ℕ → BgpPath N → List (BgpPath N) → Dropped N
  unfolding mark_first reselect_multi kind
  reselect multi_path prefix idx removed [] = (withdrawn prefix (kind removed), [])
  reselect multi_path prefix idx removed (p ∷ []) = (
    best_path_changed prefix p.id,
    record p { best = true; reason = BestPathReason.only_path } ∷ [],
  )
  reselect multi_path prefix idx removed (p ∷ q ∷ ps) =
      if multi_path
      then reselect_multi prefix idx removed p q ps
      else (best_path_changed prefix p.id, mark_first false p q ∷ q ∷ ps)

  unfoldable pub drop_paths : Bool → N → ℕ → List (BgpPath N) → Outcome RibError (Dropped N)
  unfolding take_id reselect
  drop_paths multi_path prefix id paths = elim (take_id id paths) [
    | none ↦ err path_not_found
    | some (idx, removed, rest) ↦
        if removed.best
        then ok (reselect multi_path prefix idx removed rest)
        else ok (not_changed, rest)
  ]
