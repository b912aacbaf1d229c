-- ===== src/Bgp/Rib/Removal.antt =====
-- `drop` of the Loc-RIB with one best path for a network.
use sart.Common.{
  ℕ, ◌==◌, ◌≡◌, ◌≢◌, refl, sym, ap, subst, inl, inr, true, false, Option, none, some, List, [], ◌∷◌,
  ◌++◌, if◌then◌else◌, All, Outcome, ok, err, panic, arith, Bool-cases, Option-cases, ==_iff,
}
use sart.Bgp.Path.{BgpPath, BestPathReason, kind}
use sart.Bgp.Rib.{
  RibError, path_not_found, LocRibStatus, not_changed, withdrawn, best_path_changed,
  get_comparison_funcs, first_less,
}
use sart.Bgp.Rib.Withdraw.{take_id, mark_first, reselect, drop_paths}
use sart.Bgp.Rib.Single.{HeadBest, NoneBest}

module _ {N : Type 0} where
  -- No path has the identifier.
  abbrev pub Lacks : ℕ → List (BgpPath N) → Type 0
  Lacks id = All (λ p. p.id ≢ id)

  -- A search by identifier fails, or it takes the first path with the identifier out.
  abbrev IsTaken : ℕ → List (BgpPath N) → Option (ℕ × BgpPath N × List (BgpPath N)) → Type 0
  IsTaken id ps none = Lacks id ps
  IsTaken id ps (some (i, q, qs)) =
      (before : List (BgpPath N)) × (after : List (BgpPath N)) × (ps ≡ before ++ (q ∷ after))
      × (qs ≡ before ++ after)
      × Lacks id before
      × (q.id ≡ id)

  take_id_lem : (id : ℕ) (ps : List (BgpPath N)) → IsTaken id ps (take_id id ps)
  unfolding take_id
  take_id_lem id [] = tt
  take_id_lem id (p ∷ ps) =
      let rest = take_id_lem id ps in
      elim (Bool-cases (p.id == id)) [
        | inl e ↦ rw e ([], ps, refl, refl, tt, (==_iff p.id id).0 e)
        | inr e ↦
            let other : p.id ≢ id = ground arith in
            elim (Option-cases (take_id id ps)) [
              | inl f ↦ rw (e, f) (other, subst (IsTaken id ps) f rest)
              | inr ((i, q, qs), f) ↦
                  let (before, after, whole, left, passed, same) = subst (IsTaken id ps) f rest in
                  rw (e, f)
                    (
                      p ∷ before,
                      after,
                      ap (λ l. p ∷ l) whole,
                      ap (λ l. p ∷ l) left,
                      (other, passed),
                      same,
                    )
            ]
      ]

  -- The reason of a path that becomes the best one in front of `q`.
  abbrev reason_before : BgpPath N → BgpPath N → Option BestPathReason → BestPathReason
  reason_before p q none = p.reason
  reason_before p q (some r) = r

  -- The status and the paths after the removal of a path between two others. The one in front was the
  -- best one: it is followed by the next, which gets the mark and a reason.
  abbrev pub Left :
      N
      → List (BgpPath N)
      → BgpPath N
      → List (BgpPath N)
      → LocRibStatus N
      → List (BgpPath N)
      → Type 0
  Left prefix [] removed [] status ps' = (status ≡ withdrawn prefix (kind removed)) × (ps' ≡ [])
  Left prefix [] removed (p ∷ []) status ps' =
      (status ≡ best_path_changed prefix p.id)
      × (ps' ≡ record p { best = true; reason = BestPathReason.only_path } ∷ [])
  Left prefix [] removed (p ∷ q ∷ after) status ps' =
      (status ≡ best_path_changed prefix p.id)
      × (ps'
          ≡ record p {
            best = true;
            reason = reason_before p q (first_less (get_comparison_funcs false) p q);
          }
            ∷ q
            ∷ after)
  Left prefix (p ∷ before) removed after status ps' =
      (status ≡ not_changed) × (ps' ≡ p ∷ before ++ after)

  -- What a removal by identifier gives: an error, if no path has it; or else the marks in order, and
  -- what is left without the first path that has it.
  abbrev pub IsDropped :
      N → ℕ → List (BgpPath N) → Outcome RibError (LocRibStatus N × List (BgpPath N)) → Type 0
  IsDropped prefix id ps (err x) = (x ≡ path_not_found) × Lacks id ps
  IsDropped prefix id ps (ok (status, ps')) =
      HeadBest ps'
      × ((before : List (BgpPath N)) × (removed : BgpPath N) × (after : List (BgpPath N)) × (ps
            ≡ before ++ (removed ∷ after))
          × Lacks id before
          × (removed.id ≡ id)
          × Left prefix before removed after status ps')
  IsDropped prefix id ps panic = ⊥

  mark_first_lem :
      (p q : BgpPath N)
      → mark_first false p q ≡ record p {
        best = true;
        reason = reason_before p q (first_less (get_comparison_funcs false) p q);
      }
  unfolding mark_first
  mark_first_lem p q = elim (Option-cases (first_less (get_comparison_funcs false) p q)) [
    | inl e ↦ rw (mark_first, e) refl
    | inr (r, e) ↦ rw (mark_first, e) refl
  ]

  reselect_lem :
      (prefix : N) (id : ℕ) (p : BgpPath N) (ps : List (BgpPath N))
      → p.id ≡ id
      → NoneBest ps
      → IsDropped prefix id (p ∷ ps) (ok (reselect false prefix 0 p ps))
  unfolding reselect
  reselect_lem prefix id p [] e h = (tt, ([], p, [], refl, tt, e, (refl, refl)))
  reselect_lem prefix id p (q ∷ []) e h = ((refl, tt), ([], p, q ∷ [], refl, tt, e, (refl, refl)))
  reselect_lem prefix id p (q ∷ r ∷ ps) e h =
      rw (mark_first_lem q r) ((refl, h.1), ([], p, q ∷ r ∷ ps, refl, tt, e, (refl, refl)))

  -- Without a path of the middle the others are not marked either.
  NoneBest-apart :
      (before after : List (BgpPath N)) (q : BgpPath N)
      → NoneBest (before ++ (q ∷ after))
      → (q.best ≡ false) × NoneBest (before ++ after)
  NoneBest-apart [] after q h = h
  NoneBest-apart (p ∷ before) after q h =
      let (plain, rest) = NoneBest-apart before after q h.1 in (plain, (h.0, rest))

  -- With one best path, a removal keeps the marks in order. It fails exactly where no path has the
  -- identifier; otherwise the first path that has it is gone, and where it was the best one, the next
  -- path is.
  pub drop_paths_lem :
      (prefix : N) (id : ℕ) (ps : List (BgpPath N))
      → HeadBest ps
      → IsDropped prefix id ps (drop_paths false prefix id ps)
  unfolding drop_paths take_id
  drop_paths_lem prefix id [] h = (refl, tt)
  drop_paths_lem prefix id (p ∷ ps) h = elim (Bool-cases (p.id == id)) [
    | inl e ↦
        rw (e, drop_paths, take_id)
          (subst
            (λ b.
              IsDropped prefix id (p ∷ ps)
                (if b then ok (reselect false prefix 0 p ps) else ok (not_changed, ps)))
            (sym h.0) (reselect_lem prefix id p ps ((==_iff p.id id).0 e) h.1))
    | inr e ↦
        let other : p.id ≢ id = ground arith in
        elim (Option-cases (take_id id ps)) [
          | inl f ↦
              rw (e, drop_paths, take_id, f)
                (refl, (other, subst (IsTaken id ps) f (take_id_lem id ps)))
          | inr ((i, q, qs), f) ↦
              let (before, after, whole, left, passed, same) =
                subst (IsTaken id ps) f (take_id_lem id ps) in
              let (plain, rest) = NoneBest-apart before after q (subst NoneBest whole h.1) in
              rw (e, drop_paths, take_id, f, plain, left)
                (
                  (h.0, rest),
                  (
                    p ∷ before,
                    q,
                    after,
                    ap (λ l. p ∷ l) whole,
                    (other, passed),
                    same,
                    (refl, refl),
                  ),
                )
        ]
  ]
