-- ===== src/Fib/Rib/Order.antt =====
-- The routes of a destination: one for each protocol at most, ordered by their distances.
use sart.Common.{
  ◌≤◌, ◌≢◌, sym, subst, ◌==◌, List, [], ◌∷◌, All, arith, ltb, Bool-cases, inl, inr, ltb→lt, ==_iff,
}
use sart.Fib.Route.{Route, protocol_key}
use sart.Fib.Rib.{put_sorted, sort, replace_or_push, distance}

module _ {N : Type 0} where
  -- The relation holds from each route to those behind it.
  abbrev pub IsPairwise : (Route N → Route N → Type 0) → List (Route N) → Type 0
  IsPairwise R [] = Unit
  IsPairwise R (r ∷ rs) = All (R r) rs × IsPairwise R rs

  abbrev pub IsSorted : List (Route N) → Type 0
  IsSorted = IsPairwise (λ r s. distance r ≤ distance s)

  abbrev pub IsUnique : List (Route N) → Type 0
  IsUnique = IsPairwise (λ r s. protocol_key s.protocol ≢ protocol_key r.protocol)

  All-weaken :
      (P Q : Route N → Type 0) (rs : List (Route N))
      → ((r : Route N) → P r → Q r)
      → All P rs
      → All Q rs
  All-weaken P Q [] f h = tt
  All-weaken P Q (r ∷ rs) f h = (f r h.0, All-weaken P Q rs f h.1)

  All-put_sorted :
      (P : Route N → Type 0) (r : Route N) (rs : List (Route N))
      → P r
      → All P rs
      → All P (put_sorted r rs)
  unfolding put_sorted
  All-put_sorted P r [] p h = (p, tt)
  All-put_sorted P r (s ∷ rs) p h = elim (Bool-cases (ltb (distance s) (distance r))) [
    | inl e ↦ rw e (h.0, All-put_sorted P r rs p h.1)
    | inr e ↦ rw e (p, h)
  ]

  put_sorted-IsSorted :
      (r : Route N) (rs : List (Route N)) → IsSorted rs → IsSorted (put_sorted r rs)
  unfolding put_sorted
  put_sorted-IsSorted r [] h = (tt, tt)
  put_sorted-IsSorted r (s ∷ rs) h = elim (Bool-cases (ltb (distance s) (distance r))) [
    | inl e ↦
        let below = ltb→lt (distance s) (distance r) e in
        rw e (
          All-put_sorted (λ t. distance s ≤ distance t) r rs (omega (arith, below)) h.0,
          put_sorted-IsSorted r rs h.1,
        )
    | inr e ↦
        let above : distance r ≤ distance s = ground arith in
        rw e (
          (
            above,
            All-weaken (λ t. distance s ≤ distance t) (λ t. distance r ≤ distance t) rs
                (λ t k. omega (arith, above, k)) h.0,
          ),
          h,
        )
  ]

  put_sorted-IsUnique :
      (r : Route N) (rs : List (Route N))
      → All (λ s. protocol_key s.protocol ≢ protocol_key r.protocol) rs
      → IsUnique rs
      → IsUnique (put_sorted r rs)
  unfolding put_sorted
  put_sorted-IsUnique r [] n h = (tt, tt)
  put_sorted-IsUnique r (s ∷ rs) n h = elim (Bool-cases (ltb (distance s) (distance r))) [
    | inl e ↦ rw e (
      All-put_sorted (λ t. protocol_key t.protocol ≢ protocol_key s.protocol) r rs
          (λ q. n.0 (sym q)) h.0,
      put_sorted-IsUnique r rs n.1 h.1,
    )
    | inr e ↦ rw e (n, h)
  ]

  pub All-sort : (P : Route N → Type 0) (rs : List (Route N)) → All P rs → All P (sort rs)
  unfolding sort
  All-sort P [] h = tt
  All-sort P (r ∷ rs) h = All-put_sorted P r (sort rs) h.0 (All-sort P rs h.1)

  pub sort-IsSorted : (rs : List (Route N)) → IsSorted (sort rs)
  unfolding sort
  sort-IsSorted [] = tt
  sort-IsSorted (r ∷ rs) = put_sorted-IsSorted r (sort rs) (sort-IsSorted rs)

  pub sort-IsUnique : (rs : List (Route N)) → IsUnique rs → IsUnique (sort rs)
  unfolding sort
  sort-IsUnique [] h = tt
  sort-IsUnique (r ∷ rs) h =
      put_sorted-IsUnique r (sort rs)
        (All-sort (λ s. protocol_key s.protocol ≢ protocol_key r.protocol) rs h.0)
        (sort-IsUnique rs h.1)

  All-replace_or_push :
      (P : Route N → Type 0) (route : Route N) (rs : List (Route N))
      → P route
      → All P rs
      → All P (replace_or_push route rs)
  unfolding replace_or_push
  All-replace_or_push P route [] p h = (p, tt)
  All-replace_or_push P route (r ∷ rs) p h =
      elim (Bool-cases (protocol_key r.protocol == protocol_key route.protocol)) [
        | inl e ↦ rw e (p, h.1)
        | inr e ↦ rw e (h.0, All-replace_or_push P route rs p h.1)
      ]

  pub replace_or_push-IsUnique :
      (route : Route N) (rs : List (Route N)) → IsUnique rs → IsUnique (replace_or_push route rs)
  unfolding replace_or_push
  replace_or_push-IsUnique route [] h = (tt, tt)
  replace_or_push-IsUnique route (r ∷ rs) h =
      elim (Bool-cases (protocol_key r.protocol == protocol_key route.protocol)) [
        | inl e ↦
            let same = (==_iff (protocol_key r.protocol) (protocol_key route.protocol)).0 e in
            rw e (subst (λ k. All (λ s. protocol_key s.protocol ≢ k) rs) same h.0, h.1)
        | inr e ↦ rw e (
          All-replace_or_push (λ s. protocol_key s.protocol ≢ protocol_key r.protocol) route rs
              (λ q.
                let t =
                  (==_iff (protocol_key r.protocol) (protocol_key route.protocol)).1 (sym q) in
                absurd cc)
              h.0,
          replace_or_push-IsUnique route rs h.1,
        )
      ]
