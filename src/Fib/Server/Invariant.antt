-- ===== src/Fib/Server/Invariant.antt =====
-- Every request keeps the routes of each destination sorted, and one for each protocol at most.
use sart.Common.{
  not, Option, none, some, List, [], ◌∷◌, All, Outcome, ok, err, panic, Always, bind-Always,
  then-Always, Always-both, if-Always, Bool-cases, inl, inr, Eq, ℕ,
}
use sart.Common.Dict.{lookup, insert, lookup-insert}
use sart.Fib.Route.{Route, Error, merge_multipath, pop_multipath}
use sart.Fib.Rib.{
  Rib, insert_routes, is_removed, take_removed, one_later, after_removal, remove_routes, rib_insert,
  rib_get, rib_remove, same_version, insert_found, remove_found, remove_stored, register_route,
  remove_route, get_route,
}
use sart.Fib.Rib.Order.{IsSorted, IsUnique, IsPairwise}
use sart.Fib.Rib.Contents.{insert_routes_lem}
use sart.Fib.Server.{
  RequestType, register_merged, serve_add_multi_path, serve_delete_multi_path, change_rib,
  handle_request,
}

module _ {N : Type 0} where
  abbrev pub IsTidyAt : Option (List (Route N)) → Type 0
  IsTidyAt none = Unit
  IsTidyAt (some rs) = IsSorted rs × IsUnique rs

  -- What is left satisfies the predicate.
  abbrev IsLeft : (List (Route N) → Type 0) → Option (ℕ × Route N × List (Route N)) → Type 0
  IsLeft P none = Unit
  IsLeft P (some (i, t, others)) = P others

  module _ (E : Type 0) where
    take_removed-All :
        (P : Route N → Type 0) (route : Route N) (rs : List (Route N))
        → All P rs
        → Always (IsLeft (All P)) (take_removed {E = E} route rs)
    unfolding take_removed
    take_removed-All P route [] h = tt
    take_removed-All P route (r ∷ rs) h =
        then-Always (IsLeft (All P)) (is_removed route r) _ (λ found.
          if-Always (IsLeft (All P)) found _ _ (λ _. h.1)
            (λ _.
              bind-Always (IsLeft (All P)) (IsLeft (All P)) (take_removed {E = E} route rs) _
                (take_removed-All P route rs h.1)
                (λ o. elim o as (λ o. IsLeft (All P) o → IsLeft (All P) (one_later r o)) [
                  | none ↦ λ k. tt
                  | some t ↦ λ k. (h.0, k)
                ])))

    take_removed-IsPairwise :
        (R : Route N → Route N → Type 0) (route : Route N) (rs : List (Route N))
        → IsPairwise R rs
        → Always (IsLeft (IsPairwise R)) (take_removed {E = E} route rs)
    unfolding take_removed
    take_removed-IsPairwise R route [] h = tt
    take_removed-IsPairwise R route (r ∷ rs) h =
        then-Always (IsLeft (IsPairwise R)) (is_removed route r) _ (λ found.
          if-Always (IsLeft (IsPairwise R)) found _ _ (λ _. h.1)
            (λ _.
              bind-Always (λ o. IsLeft (All (R r)) o × IsLeft (IsPairwise R) o)
                (IsLeft (IsPairwise R)) (take_removed {E = E} route rs) _
                (Always-both (IsLeft (All (R r))) (IsLeft (IsPairwise R))
                  (take_removed {E = E} route rs) (take_removed-All (R r) route rs h.0)
                  (take_removed-IsPairwise R route rs h.1))
                (λ o.
                  elim o
                    as (λ o.
                      IsLeft (All (R r)) o × IsLeft (IsPairwise R) o
                      → IsLeft (IsPairwise R) (one_later r o)) [
                        | none ↦ λ k. tt
                        | some t ↦ λ k. k
                      ])))

    remove_routes-IsTidyAt :
        (route : Route N) (rs : List (Route N))
        → IsSorted rs × IsUnique rs
        → Always (λ s. IsTidyAt (some s.0)) (remove_routes {E = E} route rs)
    unfolding remove_routes after_removal
    remove_routes-IsTidyAt route rs h =
        bind-Always (λ o. IsLeft IsSorted o × IsLeft IsUnique o) (λ s. IsTidyAt (some s.0))
          (take_removed {E = E} route rs) _
          (Always-both (IsLeft IsSorted) (IsLeft IsUnique) (take_removed {E = E} route rs)
            (take_removed-IsPairwise _ route rs h.0) (take_removed-IsPairwise _ route rs h.1))
          (λ o.
            elim o
              as (λ o.
                IsLeft IsSorted o × IsLeft IsUnique o → IsTidyAt (some (after_removal rs o).0)) [
                  | none ↦ λ k. h
                  | some t ↦ λ k. k
                ])

module _ {N : Type 0} ⦃e : Eq N⦄ where
  -- Each destination holds its routes by their distances, one for each protocol at most.
  abbrev pub IsTidy : Rib N → Type 0
  IsTidy rib = (n : N) → IsTidyAt (lookup n rib.table)

  pub put-IsTidy :
      (rib : Rib N) (k : N) (rs : List (Route N))
      → IsTidyAt (some rs)
      → IsTidy rib
      → IsTidy (record rib { table = insert k rs rib.table })
  put-IsTidy rib k rs h t n = elim (Bool-cases (e.beq n k)) [
    | inl q ↦ rw (lookup-insert k n rs rib.table, q) h
    | inr q ↦ rw (lookup-insert k n rs rib.table, q) (t n)
  ]

  insert_found-IsTidy :
      (rib : Rib N) (n : N) (route : Route N) (stored : Option (List (Route N)))
      → IsTidyAt stored
      → IsTidy rib
      → IsTidy (insert_found rib n route stored).0
  insert_found-IsTidy rib n route none h t = put-IsTidy rib n (route ∷ []) ((tt, tt), (tt, tt)) t
  insert_found-IsTidy rib n route (some rs) h t =
      let l = insert_routes_lem route rs route.protocol h.1 h.0 in
      put-IsTidy rib n (insert_routes route rs).0 (l.0, l.1) t

  register_route-IsTidy :
      (rib : Rib N) (route : Route N) → IsTidy rib → IsTidy (register_route rib route).0
  unfolding register_route rib_insert
  register_route-IsTidy rib route t =
      elim (Bool-cases (same_version route.version rib.ip_version)) [
        | inl q ↦ rw q (
            insert_found-IsTidy rib route.destination route (lookup route.destination rib.table)
              (t route.destination) t)
        | inr q ↦ rw q t
      ]

  -- The table of an answer.
  abbrev HasTidy {κ} : {B : Type κ} → Rib N × B → Type 0
  HasTidy s = IsTidy s.0

  module _ (E : Type 0) where
    remove_found-IsTidy :
        (rib : Rib N) (route : Route N) (stored : Option (List (Route N)))
        → IsTidyAt stored
        → IsTidy rib
        → Always HasTidy (remove_found {E = E} rib route stored)
    remove_found-IsTidy rib route none h t = t
    remove_found-IsTidy rib route (some []) h t = t
    remove_found-IsTidy rib route (some (r ∷ rs)) h t =
        bind-Always (λ s. IsTidyAt (some s.0)) HasTidy (remove_routes {E = E} route (r ∷ rs)) _
          (remove_routes-IsTidyAt E route (r ∷ rs) h)
          (λ s k. put-IsTidy rib route.destination s.0 k t)

    rib_remove-IsTidy :
        (rib : Rib N) (route : Route N) → IsTidy rib → Always HasTidy (rib_remove {E = E} rib route)
    unfolding rib_remove
    rib_remove-IsTidy rib route t =
        if-Always HasTidy (not (same_version route.version rib.ip_version)) _ _ (λ _. t)
          (λ _.
            remove_found-IsTidy rib route (lookup route.destination rib.table) (t route.destination)
              t)

    remove_stored-IsTidy :
        (rib : Rib N) (route : Route N) (stored : Option (List (Route N)))
        → IsTidy rib
        → Always HasTidy (remove_stored {E = E} rib route stored)
    unfolding remove_stored
    remove_stored-IsTidy rib route none t = t
    remove_stored-IsTidy rib route (some []) t = t
    remove_stored-IsTidy rib route (some (r ∷ rs)) t = rib_remove-IsTidy rib route t

    remove_route-IsTidy :
        (rib : Rib N) (route : Route N)
        → IsTidy rib
        → Always HasTidy (remove_route {E = E} rib route)
    unfolding remove_route
    remove_route-IsTidy rib route t =
        remove_stored-IsTidy rib route (rib_get route.destination rib) t

    register_merged-IsTidy :
        (rib : Rib N) (merged : Outcome Error (Route N))
        → IsTidy rib
        → Always HasTidy (register_merged {E = E} rib merged)
    unfolding register_merged
    register_merged-IsTidy rib (ok r) t = register_route-IsTidy rib r t
    register_merged-IsTidy rib (err x) t = t
    register_merged-IsTidy rib panic t = tt

    serve_add_multi_path-IsTidy :
        (rib : Rib N) (route : Route N) (existing : Option (Route N))
        → IsTidy rib
        → Always HasTidy (serve_add_multi_path {E = E} rib route existing)
    unfolding serve_add_multi_path
    serve_add_multi_path-IsTidy rib route none t = register_route-IsTidy rib route t
    serve_add_multi_path-IsTidy rib route (some r) t =
        register_merged-IsTidy rib (merge_multipath r route) t

    serve_delete_multi_path-IsTidy :
        (rib : Rib N) (route : Route N) (existing : Option (Route N))
        → IsTidy rib
        → Always HasTidy (serve_delete_multi_path {E = E} rib route existing)
    unfolding serve_delete_multi_path
    serve_delete_multi_path-IsTidy rib route none t = remove_route-IsTidy rib route t
    serve_delete_multi_path-IsTidy rib route (some r) t =
        register_merged-IsTidy rib (pop_multipath r route) t

    change_rib-IsTidy :
        (req : RequestType) (route : Route N) (rib : Rib N)
        → IsTidy rib
        → Always HasTidy (change_rib {E = E} req route rib)
    unfolding change_rib
    change_rib-IsTidy RequestType.add route rib t = register_route-IsTidy rib route t
    change_rib-IsTidy RequestType.replace route rib t = register_route-IsTidy rib route t
    change_rib-IsTidy RequestType.add_multi_path route rib t =
        serve_add_multi_path-IsTidy rib route (get_route route.destination route.protocol rib) t
    change_rib-IsTidy RequestType.delete route rib t = remove_route-IsTidy rib route t
    change_rib-IsTidy RequestType.delete_multi_path route rib t =
        serve_delete_multi_path-IsTidy rib route (get_route route.destination route.protocol rib) t

  -- Where each destination holds its routes sorted by their distances, and one for each protocol at
  -- most, it does so after every request that ends without a panic.
  pub handle_request-IsTidy :
      (req : RequestType) (route : Route N) (rib : Rib N)
      → IsTidy rib
      → Always (λ s. IsTidy s.0) (handle_request {E = Unit {0}} req route rib)
  unfolding handle_request
  handle_request-IsTidy req route rib t =
      bind-Always HasTidy (λ s. IsTidy s.0) (change_rib {E = Unit {0}} req route rib) _
        (change_rib-IsTidy (Unit {0}) req route rib t) (λ answer k. k)
