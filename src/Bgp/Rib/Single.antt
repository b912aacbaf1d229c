-- ===== src/Bgp/Rib/Single.antt =====
-- The Loc-RIB with one best path for a network: the path at the head is the best one, and no
-- other is marked, whatever is inserted and dropped.
use sart.Common.{
  ℕ, zero, suc, ◌+◌, ◌<◌, ◌≡◌, refl, sym, ap, subst, inl, inr, true, false, Option, none, some,
  List, [], ◌∷◌, ◌++◌, map, length, if◌then◌else◌, All, ok, arith, Bool-cases, Option-cases,
}
use sart.Bgp.Path.{BgpPath, BestPathReason}
use sart.Bgp.Path.Equality.{path_eq}
use sart.Bgp.Rib.{
  LocRibStatus, not_changed, best_path_changed, get_comparison_funcs, position_of, first_less,
  last_best, insert_at,
}
use sart.Bgp.Rib.LocRib.{refresh, place, put_single, insert_paths}

module _ {N : Type 0} where
  abbrev pub NoneBest : List (BgpPath N) → Type 0
  NoneBest = All (λ p. p.best ≡ false)

  abbrev pub HeadBest : List (BgpPath N) → Type 0
  HeadBest [] = Unit
  HeadBest (p ∷ ps) = (p.best ≡ true) × NoneBest ps

  pub last_best-none : (ps : List (BgpPath N)) → NoneBest ps → last_best ps ≡ none
  unfolding last_best
  last_best-none [] h = refl
  last_best-none (p ∷ ps) h = rw (last_best-none ps h.1, h.0)

  pub last_best_head :
      (p : BgpPath N) (ps : List (BgpPath N)) → HeadBest (p ∷ ps) → last_best (p ∷ ps) ≡ some 0
  unfolding last_best
  last_best_head p ps h = rw (last_best-none ps h.1, h.0)

  insert_at-NoneBest :
      (i : ℕ) (q : BgpPath N) (ps : List (BgpPath N))
      → q.best ≡ false
      → NoneBest ps
      → NoneBest (insert_at i q ps)
  unfolding insert_at
  insert_at-NoneBest zero q ps h g = (h, g)
  insert_at-NoneBest (suc i) q [] h g = (h, tt)
  insert_at-NoneBest (suc i) q (p ∷ ps) h g = (g.0, insert_at-NoneBest i q ps h g.1)

  -- The last place of the paths before another, and all behind them.
  pub insert_at-append :
      (before after : List (BgpPath N)) (q : BgpPath N)
      → insert_at (length before) q (before ++ after) ≡ before ++ (q ∷ after)
  unfolding insert_at
  insert_at-append [] after q = refl
  insert_at-append (p ∷ before) after q = rw (insert_at-append before after q) refl

module _ {N : Type 0} (net_discrete : Discrete N) (path : BgpPath N) where
  -- A path that equals the new one has its time afterwards, and is otherwise as it was.
  abbrev pub retimed : BgpPath N → BgpPath N
  retimed p = record p {
    timestamp = if path_eq net_discrete p path then path.timestamp else p.timestamp;
  }

  refresh-retimed : (ps : List (BgpPath N)) → refresh net_discrete path ps ≡ map retimed ps
  unfolding refresh
  refresh-retimed [] = refl
  refresh-retimed (p ∷ ps) = elim (Bool-cases (path_eq net_discrete p path)) [
    | inl e ↦ rw (e, refresh-retimed ps) refl
    | inr e ↦ rw (e, refresh-retimed ps) refl
  ]

  -- The first comparison that prefers the new path to the first of these; alone it is the only one.
  abbrev pub reason_at : List (BgpPath N) → Option BestPathReason
  reason_at [] = some BestPathReason.only_path
  reason_at (p ∷ ps) = first_less (get_comparison_funcs false) path p

  abbrev pub demoted : List (BgpPath N) → List (BgpPath N)
  demoted [] = []
  demoted (p ∷ ps) = record p { best = false; reason = BestPathReason.not_best } ∷ ps

  -- The new path stands between those to which it is not preferred and one to which it is. In front of
  -- all it is the best one, and the old best one loses its mark.
  abbrev pub Stands :
      List (BgpPath N)
      → List (BgpPath N)
      → BestPathReason
      → LocRibStatus N × BgpPath N × List (BgpPath N)
      → Type 0
  Stands [] after reason (status, path', ps') =
      (status ≡ best_path_changed path.prefix path.id)
      × (path' ≡ record path { best = true; reason = reason })
      × (ps' ≡ path' ∷ demoted after)
  Stands (p ∷ before) after reason (status, path', ps') =
      (status ≡ not_changed) × (path' ≡ path) × (ps' ≡ p ∷ before ++ (path ∷ after))

  -- What an insertion among `ps` gives.
  abbrev pub IsInserted : List (BgpPath N) → LocRibStatus N × BgpPath N × List (BgpPath N) → Type 0
  IsInserted ps r =
      HeadBest r.2
      × ((before : List (BgpPath N)) × (after : List (BgpPath N)) × (reason : BestPathReason)
          × (before ++ after ≡ map retimed ps)
          × All (λ p. first_less (get_comparison_funcs false) path p ≡ none) before
          × (reason_at after ≡ some reason)
          × Stands before after reason r)

  -- Where the search for the place stops.
  abbrev Stops : List (BgpPath N) → BestPathReason → Type 0
  Stops [] r = Unit
  Stops (p ∷ ps) r = first_less (get_comparison_funcs false) path p ≡ some r

  abbrev Splits : ℕ → List (BgpPath N) → ℕ × BestPathReason → Type 0
  Splits idx ps (i, r) =
      (before : List (BgpPath N)) × (after : List (BgpPath N)) × (before ++ after ≡ ps)
      × (idx + length before ≡ i)
      × All (λ p. first_less (get_comparison_funcs false) path p ≡ none) before
      × Stops after r

  position_of-Splits :
      (idx : ℕ) (ps : List (BgpPath N))
      → Splits idx ps (position_of (get_comparison_funcs false) path idx ps)
  unfolding position_of
  position_of-Splits idx [] = ([], [], refl, omega arith, tt, tt)
  position_of-Splits idx (p ∷ ps) =
      elim (Option-cases (first_less (get_comparison_funcs false) path p)) [
        | inl e ↦
            let (before, after, whole, place, passed, stop) = position_of-Splits (idx + 1) ps in
            rw (position_of, e)
              (p ∷ before, after, ap (λ l. p ∷ l) whole, omega (arith, place), (e, passed), stop)
        | inr (r, e) ↦ rw (position_of, e) ([], p ∷ ps, refl, omega arith, tt, e)
      ]

  reason_from :
      (after : List (BgpPath N)) (r : BestPathReason)
      → Stops after r
      → (reason : BestPathReason) × (reason_at after ≡ some reason)
  reason_from [] r h = (BestPathReason.only_path, refl)
  reason_from (p ∷ ps) r h = (r, h)

  put_single_lem :
      (before after : List (BgpPath N)) (r : BestPathReason)
      → path.best ≡ false
      → 0 < length (before ++ after)
      → HeadBest (before ++ after)
      → Stops after r
      → let s = put_single (length before) r path (before ++ after) in
        HeadBest s.2
        × ((reason : BestPathReason) × (reason_at after ≡ some reason)
            × Stands before after reason s)
  unfolding put_single insert_at
  put_single_lem [] [] r b n g h = absurd (omega (arith, n))
  put_single_lem [] (p ∷ after) r b n g h = ((refl, (refl, g.1)), (r, h, (refl, refl, refl)))
  put_single_lem (p ∷ before) after r b n g h =
      let (reason, at) = reason_from after r h in
      (
        (g.0, insert_at-NoneBest (length before) path (before ++ after) b g.1),
        (reason, at, (refl, refl, ap (λ l. p ∷ l) (insert_at-append before after path))),
      )

  NoneBest-retimed : (ps : List (BgpPath N)) → NoneBest ps → NoneBest (map retimed ps)
  NoneBest-retimed [] h = tt
  NoneBest-retimed (p ∷ ps) h = (h.0, NoneBest-retimed ps h.1)

  put_single_at :
      (before after qs : List (BgpPath N)) (i : ℕ) (r : BestPathReason)
      → path.best ≡ false
      → 0 < length qs
      → HeadBest qs
      → Stops after r
      → before ++ after ≡ qs
      → 0 + length before ≡ i
      → let s = put_single i r path qs in
        HeadBest s.2
        × ((reason : BestPathReason) × (reason_at after ≡ some reason)
            × Stands before after reason s)
  put_single_at before after qs i r b n g h whole place =
      let place' : length before ≡ i = omega (arith, place) in
      rw (sym place', sym whole)
        (put_single_lem before after r b (subst (λ l. 0 < length l) (sym whole) n)
          (subst HeadBest (sym whole) g) h)

  put_single-refresh :
      (p : BgpPath N) (ps : List (BgpPath N))
      → path.best ≡ false
      → HeadBest (p ∷ ps)
      → let qs = refresh net_discrete path (p ∷ ps) in
        let pos = position_of (get_comparison_funcs false) path 0 qs in
        IsInserted (p ∷ ps) (put_single pos.0 pos.1 path qs)
  put_single-refresh p ps b g = rw (refresh-retimed (p ∷ ps)) (
      let qs = map retimed (p ∷ ps) in
      let pos = position_of (get_comparison_funcs false) path 0 qs in
      let (before, after, whole, place, passed, stop) = position_of-Splits 0 qs in
      let (best, (reason, at, stands)) =
        put_single_at before after qs pos.0 pos.1 b (omega arith) (g.0, NoneBest-retimed ps g.1)
          stop whole place in
      (best, (before, after, reason, whole, passed, at, stands)))

  -- With one best path, an insertion of an unmarked path ends well, and it keeps the marks in
  -- order: afterwards the head is the one path that is marked. The new path stands between the old
  -- ones to which it is not preferred and the first to which it is.
  pub insert_paths_lem :
      (ps : List (BgpPath N))
      → path.best ≡ false
      → HeadBest ps
      → (r : LocRibStatus N × BgpPath N × List (BgpPath N)) × (insert_paths net_discrete false path
            ps
          ≡ ok r)
        × IsInserted ps r
  unfolding insert_paths place
  insert_paths_lem [] h g = (
    _,
    refl,
    ((refl, tt), ([], [], BestPathReason.only_path, refl, tt, refl, (refl, refl, refl))),
  )
  insert_paths_lem (p ∷ ps) h g = rw (last_best_head p ps g) (_, refl, put_single-refresh p ps h g)
