-- ===== src/Bgp/Rib/Adj.antt =====
-- `Table` and `AdjRib`: the one path that a peer has sent, or has been sent, for each network.
-- A method that changes the table returns what the source returns beside the new table.
pub mod Contents
mod Tests
use mathlib.Core.Bool.{decide}
use sart.Common.{
  ℕ, ◌+◌, ◌≡◌, ◌↔◌, refl, sym, ap, ◌∙◌, ◌&&◌, Bool, true, false, Option, none, some, List, [], ◌∷◌,
  if◌then◌else◌, Outcome, ok, err, Eq, Bool-cases, Option-cases, inl, inr, arith,
}
use sart.Common.Dict.{Dict, lookup, insert as put, remove as take, lookup-insert, lookup-remove}
use sart.Bgp.Family.{Afi, Safi, AddressFamily, afi_eq, afi_eq_iff}
use sart.Bgp.Path.{BgpPath}
use sart.Bgp.Rib.{RibError, address_family_not_set}

unfoldable pub safi_eq : Safi → Safi → Bool
safi_eq Safi.unicast Safi.unicast = true
safi_eq Safi.unicast Safi.multicast = false
safi_eq Safi.multicast Safi.unicast = false
safi_eq Safi.multicast Safi.multicast = true

pub safi_eq_iff : (a b : Safi) → (safi_eq a b ≡ true) ↔ (a ≡ b)
unfolding safi_eq
safi_eq_iff Safi.unicast Safi.unicast = (λ _. refl, λ _. refl)
safi_eq_iff Safi.unicast Safi.multicast = (λ e. cc, λ e. cc)
safi_eq_iff Safi.multicast Safi.unicast = (λ e. cc, λ e. cc)
safi_eq_iff Safi.multicast Safi.multicast = (λ _. refl, λ _. refl)

unfoldable pub family_eq : AddressFamily → AddressFamily → Bool
family_eq f g = afi_eq f.afi g.afi && safi_eq f.safi g.safi

pub family_eq_iff : (f g : AddressFamily) → (family_eq f g ≡ true) ↔ (f ≡ g)
unfolding family_eq
family_eq_iff f g = ground (arith, afi_eq_iff f.afi g.afi, safi_eq_iff f.safi g.safi)

instance abbrev pub family_key : Eq AddressFamily
family_key = record { beq = family_eq; beq_iff = family_eq_iff }

pub record AdjTable (N : Type 0) : Type 0 where
  pub inner : Dict N (BgpPath N)
  pub received : ℕ
  pub dropped : ℕ

abbrev pub AdjRib : Type 0 → Type 0
AdjRib N = Dict AddressFamily (AdjTable N)

module _ {N : Type 0} ⦃e : Eq N⦄ where
  abbrev pub table_new : AdjTable N
  table_new = record { inner = []; received = 0; dropped = 0 }

  unfoldable pub table_insert : N → BgpPath N → AdjTable N → Option (BgpPath N) × AdjTable N
  unfolding lookup put
  table_insert prefix path t = (
    lookup prefix t.inner,
    record t { inner = put prefix path t.inner; received = t.received + 1 },
  )

  unfoldable pub table_remove : N → AdjTable N → Option (BgpPath N) × AdjTable N
  unfolding lookup take
  table_remove prefix t =
      (lookup prefix t.inner, record t { inner = take prefix t.inner; dropped = t.dropped + 1 })

  unfoldable pub add_reach : AddressFamily → AdjRib N → AdjRib N
  unfolding lookup put
  add_reach family rib = elim (lookup family rib) [ some t ↦ rib | none ↦ put family table_new rib ]

  unfoldable pub adj_insert :
      AddressFamily → N → BgpPath N → AdjRib N → Outcome RibError (Option (BgpPath N) × AdjRib N)
  unfolding lookup put table_insert
  adj_insert family prefix path rib = elim (lookup family rib) [
    | some t ↦ let (old, t') = table_insert prefix path t in ok (old, put family t' rib)
    | none ↦ err address_family_not_set
  ]

  unfoldable pub adj_get : AddressFamily → N → AdjRib N → Option (BgpPath N)
  unfolding lookup
  adj_get family prefix rib = elim (lookup family rib) [
    | some t ↦ lookup prefix t.inner
    | none ↦ none
  ]

  unfoldable pub adj_remove : AddressFamily → N → AdjRib N → Option (BgpPath N) × AdjRib N
  unfolding lookup put table_remove
  adj_remove family prefix rib = elim (lookup family rib) [
    | some t ↦ let (old, t') = table_remove prefix t in (old, put family t' rib)
    | none ↦ (none, rib)
  ]
