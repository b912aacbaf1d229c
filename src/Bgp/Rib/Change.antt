-- ===== src/Bgp/Rib/Change.antt =====
-- `insert` and `drop` of the whole Loc-RIB, with one best path for a network.
use sart.Common.{
  ℕ, ◌+◌, ◌≡◌, refl, sym, ap, ◌∙◌, subst, ◌&&◌, false, Option, none, some, List, if◌then◌else◌,
  Outcome, ok, err, panic, Eq, Bool-cases, Option-cases, inl, inr,
}
use mathlib.Core.Option.{some-injective}
use sart.Common.Dict.{lookup, insert as put, lookup-insert}
use sart.Bgp.Family.{AddressFamily, afi_eq, afi_eq_iff}
use sart.Bgp.Path.{BgpPath}
use sart.Bgp.Rib.{LocRibStatus, RibError}
use sart.Bgp.Rib.LocRib.{insert_paths}
use sart.Bgp.Rib.Withdraw.{drop_paths}
use sart.Bgp.Rib.Store.{
  LocRib, Table, afi_key, get, paths_of, with_paths, count_dropped, insert, drop,
}
use sart.Bgp.Rib.Removal.{IsDropped, drop_paths_lem}
use sart.Bgp.Rib.Single.{HeadBest, IsInserted, insert_paths_lem}

module _ {N : Type 0} ⦃e : Eq N⦄ where
  -- A Loc-RIB with one best path, which stands at the head of each network.
  pub record IsSingle (rib : LocRib N) : Type 0 where
    pub single : rib.multi_path ≡ false
    pub marks :
        (f : AddressFamily) (n : N) (ps : List (BgpPath N)) → get f n rib ≡ some ps → HeadBest ps

  abbrev pick : N → Option (Table N) → Option (List (BgpPath N))
  pick n none = none
  pick n (some t) = lookup n t

  get-pick :
      (f : AddressFamily) (n : N) (rib : LocRib N) → get f n rib ≡ pick n (lookup f.afi rib.table)
  unfolding get
  get-pick f n rib = elim (Option-cases (lookup f.afi rib.table)) [
    | inl h ↦ rw (get, h) refl
    | inr (t, h) ↦ rw (get, h) refl
  ]

  get-with_paths :
      (g f : AddressFamily) (m n : N) (t : Table N) (ps : List (BgpPath N)) (rib : LocRib N)
      → lookup f.afi rib.table ≡ some t
      → get g m (with_paths f.afi t n ps rib)
        ≡ (if afi_eq g.afi f.afi && e.beq m n then some ps else get g m rib)
  get-with_paths g f m n t ps rib h =
      rw
        (
          get-pick g m (with_paths f.afi t n ps rib),
          get-pick g m rib,
          lookup-insert f.afi g.afi (put n ps t) rib.table,
        )
        (elim (Bool-cases (afi_eq g.afi f.afi)) [
          | inl a ↦ rw (a, (afi_eq_iff g.afi f.afi).0 a, h) (lookup-insert n m ps t)
          | inr a ↦ rw a refl
        ])

  with_paths-IsSingle :
      (f : AddressFamily) (n : N) (t : Table N) (ps : List (BgpPath N)) (rib : LocRib N)
      → IsSingle rib
      → lookup f.afi rib.table ≡ some t
      → HeadBest ps
      → IsSingle (with_paths f.afi t n ps rib)
  with_paths-IsSingle f n t ps rib s h b = record {
    single = s.single;
    marks = λ g m qs q.
        let r = sym (get-with_paths g f m n t ps rib h) ∙ q in
        elim (Bool-cases (afi_eq g.afi f.afi && e.beq m n)) [
          | inl c ↦ subst HeadBest (some-injective _ _ (rw c at r)) b
          | inr c ↦ s.marks g m qs (rw c at r)
        ];
  }

  paths_of-HeadBest :
      (f : AddressFamily) (n : N) (t : Table N) (rib : LocRib N)
      → IsSingle rib
      → lookup f.afi rib.table ≡ some t
      → HeadBest (paths_of n t)
  unfolding paths_of
  paths_of-HeadBest f n t rib s h = elim (Option-cases (lookup n t)) [
    | inl c ↦ rw (paths_of, c) tt
    | inr (ps, c) ↦ rw (paths_of, c) (s.marks f n ps (get-pick f n rib ∙ ap (pick n) h ∙ c))
  ]

  -- In a Loc-RIB with one best path, an unmarked path of a family that has a table is inserted
  -- without an error. The Loc-RIB afterwards has one best path again, at the head of each network.
  -- In the network of the path the old paths stand in their order, those equal to the new one with
  -- its time, and the new one behind those to which no comparison prefers it and in front of the
  -- first to which one does, or at the end. In front of all it is marked as the best one with the
  -- reason of that comparison, or as the only path, the old best one loses mark and reason, and the
  -- status is that the best path changed; elsewhere it goes in as it was, and the status is that
  -- nothing changed. What other networks and families hold stays as it was, and one more path
  -- counts as received.
  pub insert_lem :
      (net_discrete : Discrete N) (f : AddressFamily) (path : BgpPath N) (rib : LocRib N)
      (t : Table N)
      → IsSingle rib
      → path.best ≡ false
      → lookup f.afi rib.table ≡ some t
      → (r : LocRibStatus N × BgpPath N × List (BgpPath N)) × (rib' : LocRib N) × (insert
            net_discrete f path rib
          ≡ (ok (r.0, r.1), rib'))
        × IsSingle rib'
        × IsInserted net_discrete path (paths_of path.prefix t) r
        × ((g : AddressFamily) (m : N)
            → get g m rib'
              ≡ (if afi_eq g.afi f.afi && e.beq m path.prefix then some r.2 else get g m rib))
        × (rib'.received ≡ rib.received + 1)
  unfolding insert get
  insert_lem net_discrete f path rib t s b h =
      let counted : LocRib N = record rib { received = rib.received + 1 } in
      let s' : IsSingle counted = record { single = s.single; marks = s.marks } in
      let (r, done, good) =
        insert_paths_lem net_discrete path (paths_of path.prefix t) b
          (paths_of-HeadBest f path.prefix t rib s h) in
      (
        r,
        with_paths f.afi t path.prefix r.2 counted,
        rw
            (
              insert,
              h,
              ap (λ m. insert_paths net_discrete m path (paths_of path.prefix t)) s.single ∙ done,
            )
            refl,
        with_paths-IsSingle f path.prefix t r.2 counted s' h good.0,
        good,
        (λ g m. get-with_paths g f m path.prefix t r.2 counted h),
        refl,
      )

  -- What a drop leaves when the paths of the network end in `r`: these paths, or after an error
  -- the paths that were there.
  abbrev pub Leaves :
      AddressFamily
      → N
      → LocRib N
      → Outcome RibError (LocRibStatus N × List (BgpPath N))
      → Outcome RibError (LocRibStatus N) × LocRib N
      → Type 0
  Leaves f n rib (ok (status, ps)) (o, rib') =
      (o ≡ ok status)
      × ((g : AddressFamily) (m : N)
          → get g m rib' ≡ (if afi_eq g.afi f.afi && e.beq m n then some ps else get g m rib))
  Leaves f n rib (err x) (o, rib') =
      (o ≡ err x) × ((g : AddressFamily) (m : N) → get g m rib' ≡ get g m rib)
  Leaves f n rib panic (o, rib') = ⊥

  drop_result :
      (f : AddressFamily) (n : N) (id : ℕ) (rib : LocRib N) (t : Table N)
      (r : Outcome RibError (LocRibStatus N × List (BgpPath N)))
      → drop_paths rib.multi_path n id (paths_of n t) ≡ r
      → IsSingle rib
      → lookup f.afi rib.table ≡ some t
      → IsDropped n id (paths_of n t) r
      → IsSingle (drop f n id rib).1 × Leaves f n rib r (drop f n id rib)
  unfolding drop get
  drop_result f n id rib t (ok (status, ps)) q s h d =
      let counted : LocRib N = record rib { dropped = count_dropped (paths_of n t) rib.dropped } in
      let s' : IsSingle counted = record { single = s.single; marks = s.marks } in
      rw (drop, h, q)
        (
          with_paths-IsSingle f n t ps counted s' h d.0,
          (refl, λ g m. get-with_paths g f m n t ps counted h),
        )
  drop_result f n id rib t (err x) q s h d =
      rw (drop, h, q) (record { single = s.single; marks = s.marks }, (refl, λ g m. refl))
  drop_result f n id rib t panic q s h d = absurd d

  -- In a Loc-RIB with one best path, a drop from a family that has a table keeps one best path
  -- at the head of each network. Where no path of the network has the identifier, it fails and
  -- leaves the paths. Otherwise the first path that has it is gone. If that was not the head, the
  -- status is that nothing changed, and the other paths are as before. If it was, the status is that
  -- the network is withdrawn where no path is left; else that the best path changed to the next one,
  -- which is marked as the best one, alone as the only path, and in front of others with the reason
  -- that prefers it to the second, or its old one where there is none. What other networks and
  -- families hold stays as it was.
  pub drop_lem :
      (f : AddressFamily) (n : N) (id : ℕ) (rib : LocRib N) (t : Table N)
      → IsSingle rib
      → lookup f.afi rib.table ≡ some t
      → (r : Outcome RibError (LocRibStatus N × List (BgpPath N))) × IsDropped n id (paths_of n t) r
        × IsSingle (drop f n id rib).1
        × Leaves f n rib r (drop f n id rib)
  drop_lem f n id rib t s h =
      let q = ap (λ m. drop_paths m n id (paths_of n t)) s.single in
      let d = drop_paths_lem n id (paths_of n t) (paths_of-HeadBest f n t rib s h) in
      let (single, left) = drop_result f n id rib t _ q s h d in (_, d, single, left)
