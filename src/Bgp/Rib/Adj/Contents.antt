-- ===== src/Bgp/Rib/Adj/Contents.antt =====
-- What an Adj-RIB holds after an insertion and a removal.
use sart.Common.{
  ◌≡◌, refl, ◌∙◌, ◌&&◌, Option, none, some, if◌then◌else◌, ok, Eq, Bool-cases, Option-cases, inl,
  inr,
}
use sart.Common.Dict.{lookup, insert as put, lookup-insert, lookup-remove}
use sart.Bgp.Family.{AddressFamily}
use sart.Bgp.Path.{BgpPath}
use sart.Bgp.Rib.Adj.{
  AdjRib, AdjTable, family_key, family_eq, family_eq_iff, table_insert, table_remove, adj_insert,
  adj_get, adj_remove,
}

module _ {N : Type 0} ⦃e : Eq N⦄ where
  abbrev pick : N → Option (AdjTable N) → Option (BgpPath N)
  pick n none = none
  pick n (some t) = lookup n t.inner

  adj_get-pick :
      (f : AddressFamily) (n : N) (rib : AdjRib N) → adj_get f n rib ≡ pick n (lookup f rib)
  unfolding adj_get
  adj_get-pick f n rib = elim (Option-cases (lookup f rib)) [
    | inl h ↦ rw (adj_get, h) refl
    | inr (t, h) ↦ rw (adj_get, h) refl
  ]

  -- A table put in the place of another changes what its family holds.
  adj_get-put :
      (f g : AddressFamily) (m : N) (t : AdjTable N) (rib : AdjRib N)
      → adj_get g m (put f t rib) ≡ (if family_eq g f then lookup m t.inner else adj_get g m rib)
  adj_get-put f g m t rib =
      rw (adj_get-pick g m (put f t rib), adj_get-pick g m rib, lookup-insert f g t rib)
        (elim (Bool-cases (family_eq g f)) [ inl a ↦ rw a refl | inr a ↦ rw a refl ])

  -- An insertion into a family that has a table returns the path that the network had. Afterwards
  -- the network has the new path, and every other network and family what it had.
  pub adj_insert_lem :
      (f : AddressFamily) (n : N) (path : BgpPath N) (rib : AdjRib N) (t : AdjTable N)
      → lookup f rib ≡ some t
      → (rib' : AdjRib N) × (adj_insert f n path rib ≡ ok (adj_get f n rib, rib'))
        × ((g : AddressFamily) (m : N)
            → adj_get g m rib'
              ≡ (if family_eq g f && e.beq m n then some path else adj_get g m rib))
  unfolding adj_insert table_insert
  adj_insert_lem f n path rib t h = (
    put f (table_insert n path t).1 rib,
    rw (adj_get-pick f n rib, adj_insert, h) refl,
    λ g m. adj_get-put f g m (table_insert n path t).1 rib ∙ elim (Bool-cases (family_eq g f)) [
      | inl a ↦
          rw (a, adj_get-pick g m rib, (family_eq_iff g f).0 a, h) (lookup-insert n m path t.inner)
      | inr a ↦ rw a refl
    ],
  )

  -- A removal returns the path that the network had. Afterwards the network has none, and every other
  -- network and family has what it had.
  pub adj_remove_lem :
      (f : AddressFamily) (n : N) (rib : AdjRib N)
      → ((adj_remove f n rib).0 ≡ adj_get f n rib)
        × ((g : AddressFamily) (m : N)
            → adj_get g m (adj_remove f n rib).1
              ≡ (if family_eq g f && e.beq m n then none else adj_get g m rib))
  unfolding adj_remove table_remove
  adj_remove_lem f n rib = elim (Option-cases (lookup f rib)) [
    | inl h ↦
        rw (adj_get-pick f n rib, adj_remove, h)
          (
            refl,
            λ g m. elim (Bool-cases (family_eq g f)) [
              | inl a ↦ elim (Bool-cases (e.beq m n)) [
                | inl b ↦ rw (a, b, adj_get-pick g m rib, (family_eq_iff g f).0 a, h) refl
                | inr b ↦ rw (a, b) refl
              ]
              | inr a ↦ rw a refl
            ],
          )
    | inr (t, h) ↦
        rw (adj_get-pick f n rib, adj_remove, h)
          (
            refl,
            λ g m. adj_get-put f g m (table_remove n t).1 rib ∙ elim (Bool-cases (family_eq g f)) [
              | inl a ↦
                  rw (a, adj_get-pick g m rib, (family_eq_iff g f).0 a, h)
                    (lookup-remove n m t.inner)
              | inr a ↦ rw a refl
            ],
          )
  ]
