-- ===== src/Bgp/Rib/Store.antt =====
-- `struct LocRib`: a table of paths for each network, by address family, with two counters.
-- `insert` and `drop` return their result beside what they leave, error paths included.
use sart.Common.{
  ℕ, ◌+◌, ◌==◌, Bool, Option, none, some, List, [], ◌∷◌, ◌++◌, if◌then◌else◌, Outcome, ok, err,
  panic, Eq,
}
use sart.Common.Dict.{Dict, lookup, insert as put}
use sart.Bgp.Family.{Afi, AddressFamily, afi_eq, afi_eq_iff}
use sart.Bgp.Path.{BgpPath}
use sart.Bgp.Rib.{RibError, invalid_address_family, protocol_is_already_registered, LocRibStatus}
use sart.Bgp.Rib.LocRib.{insert_paths}
use sart.Bgp.Rib.Withdraw.{drop_paths}

instance abbrev pub afi_key : Eq Afi
afi_key = record { beq = afi_eq; beq_iff = afi_eq_iff }

abbrev pub Table : Type 0 → Type 0
Table N = Dict N (List (BgpPath N))

pub record LocRib (N : Type 0) : Type 0 where
  pub table : Dict Afi (Table N)
  pub multi_path : Bool
  pub received : ℕ
  pub dropped : ℕ

module _ {N : Type 0} where
  abbrev with_protocols : List Afi → Dict Afi (Table N) → Dict Afi (Table N)
  with_protocols [] d = d
  with_protocols (a ∷ rest) d = with_protocols rest (put a [] d)

  unfoldable pub new : List Afi → Bool → LocRib N
  unfolding put
  new protocols multi_path = record {
    table = with_protocols protocols [];
    multi_path = multi_path;
    received = 0;
    dropped = 0;
  }

  unfoldable pub set_multipath : Bool → LocRib N → LocRib N
  set_multipath enable rib = record rib { multi_path = enable }

  unfoldable pub set_protocol : Afi → LocRib N → Outcome RibError (LocRib N)
  unfolding lookup put
  set_protocol protocol rib = elim (lookup protocol rib.table) [
    | some t ↦ err protocol_is_already_registered
    | none ↦ ok (record rib { table = put protocol [] rib.table })
  ]

  abbrev find_id : ℕ → List (BgpPath N) → Option (BgpPath N)
  find_id id [] = none
  find_id id (p ∷ ps) = if p.id == id then some p else find_id id ps

  abbrev pub bests : List (BgpPath N) → List (BgpPath N)
  bests [] = []
  bests (p ∷ ps) = let rest = bests ps in if p.best then p ∷ rest else rest

  abbrev heads : Table N → List (BgpPath N)
  heads [] = []
  heads ((prefix, []) ∷ t) = heads t
  heads ((prefix, p ∷ ps) ∷ t) = p ∷ heads t

  abbrev concat : Table N → List (BgpPath N)
  concat [] = []
  concat ((prefix, ps) ∷ t) = ps ++ concat t

  abbrev if_any : List (BgpPath N) → Option (List (BgpPath N))
  if_any [] = none
  if_any (p ∷ ps) = some (p ∷ ps)

  unfoldable pub get_all_best : AddressFamily → LocRib N → Option (List (BgpPath N))
  unfolding lookup
  get_all_best family rib = elim (lookup family.afi rib.table) [
    | none ↦ none
    | some t ↦ if_any (heads t)
  ]

  unfoldable pub get_all : AddressFamily → LocRib N → Option (List (BgpPath N))
  unfolding lookup
  get_all family rib = elim (lookup family.afi rib.table) [ none ↦ none | some t ↦ some (concat t) ]

module _ {N : Type 0} ⦃e : Eq N⦄ where
  unfoldable pub get : AddressFamily → N → LocRib N → Option (List (BgpPath N))
  unfolding lookup
  get family prefix rib = elim (lookup family.afi rib.table) [
    | none ↦ none
    | some t ↦ lookup prefix t
  ]

  unfoldable pub get_by_id : AddressFamily → N → ℕ → LocRib N → Option (BgpPath N)
  unfolding get
  get_by_id family prefix id rib = elim (get family prefix rib) [
    | none ↦ none
    | some ps ↦ find_id id ps
  ]

  unfoldable pub get_best_path : AddressFamily → N → LocRib N → Option (List (BgpPath N))
  unfolding get
  get_best_path family prefix rib = elim (get family prefix rib) [
    | none ↦ none
    | some ps ↦ some (bests ps)
  ]

  -- The paths of a network in a table; a network without an entry has none.
  unfoldable pub paths_of : N → Table N → List (BgpPath N)
  unfolding lookup
  paths_of prefix t = elim (lookup prefix t) [ none ↦ [] | some ps ↦ ps ]

  abbrev pub with_paths : Afi → Table N → N → List (BgpPath N) → LocRib N → LocRib N
  with_paths afi t prefix ps rib = record rib { table = put afi (put prefix ps t) rib.table }

  unfoldable pub insert :
      Discrete N
      → AddressFamily
      → BgpPath N
      → LocRib N
      → Outcome RibError (LocRibStatus N × BgpPath N) × LocRib N
  unfolding lookup put paths_of insert_paths
  insert net_discrete family path rib = elim (lookup family.afi rib.table) [
    | none ↦ (err invalid_address_family, rib)
    | some t ↦
        let rib' = record rib { received = rib.received + 1 } in
        elim (insert_paths net_discrete rib.multi_path path (paths_of path.prefix t)) [
          | ok (status, path', ps) ↦
              (ok (status, path'), with_paths family.afi t path.prefix ps rib')
          | err x ↦ (err x, rib')
          | panic ↦ (panic, rib')
        ]
  ]

  -- A drop counts as soon as the network has a path.
  abbrev pub count_dropped : List (BgpPath N) → ℕ → ℕ
  count_dropped [] n = n
  count_dropped (p ∷ ps) n = n + 1

  unfoldable pub drop :
      AddressFamily → N → ℕ → LocRib N → Outcome RibError (LocRibStatus N) × LocRib N
  unfolding lookup put paths_of drop_paths
  drop family prefix id rib = elim (lookup family.afi rib.table) [
    | none ↦ (err invalid_address_family, rib)
    | some t ↦
        let paths = paths_of prefix t in
        let rib' = record rib { dropped = count_dropped paths rib.dropped } in
        elim (drop_paths rib.multi_path prefix id paths) [
          | ok (status, ps) ↦ (ok status, with_paths family.afi t prefix ps rib')
          | err x ↦ (err x, rib')
          | panic ↦ (panic, rib')
        ]
  ]
