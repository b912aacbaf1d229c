-- ===== src/Fib/Server.antt =====
-- sartd/src/fib/src/server.rs: what the loop of a channel does with one request. The result is the new
-- table and what each publisher is sent.
pub mod Invariant
use sart.Common.{Option, none, some, Outcome, ok, err, panic, Bool, Eq, if◌then◌else◌, ◌>>=◌}
use sart.Fib.Route.{Route, Error, merge_multipath, pop_multipath}
use sart.Fib.Rib.{Rib, get_route, register_route, remove_route}

pub data RequestType : Type 0 where
  add : RequestType
  delete : RequestType
  replace : RequestType
  add_multi_path : RequestType
  delete_multi_path : RequestType

abbrev pub Answer : Type 0 → Type 0
Answer N = Rib N × Option (Route N × Bool)

module _ {N : Type 0} ⦃e : Eq N⦄ where
  -- An error ends the round, with nothing sent.
  unfoldable pub register_merged :
      {E : Type 0} → Rib N → Outcome Error (Route N) → Outcome E (Answer N)
  unfolding register_route
  register_merged rib (ok r) = ok (register_route rib r)
  register_merged rib (err x) = ok (rib, none)
  register_merged rib panic = panic

  unfoldable pub serve_add_multi_path :
      {E : Type 0} → Rib N → Route N → Option (Route N) → Outcome E (Answer N)
  unfolding register_route merge_multipath register_merged
  serve_add_multi_path rib route none = ok (register_route rib route)
  serve_add_multi_path rib route (some existing_route) =
      register_merged rib (merge_multipath existing_route route)

  unfoldable pub serve_delete_multi_path :
      {E : Type 0} → Rib N → Route N → Option (Route N) → Outcome E (Answer N)
  unfolding remove_route pop_multipath register_merged
  serve_delete_multi_path rib route none = remove_route rib route
  serve_delete_multi_path rib route (some existing_route) =
      register_merged rib (pop_multipath existing_route route)

  unfoldable pub change_rib : {E : Type 0} → RequestType → Route N → Rib N → Outcome E (Answer N)
  unfolding get_route register_route remove_route serve_add_multi_path serve_delete_multi_path
  change_rib RequestType.add route rib = ok (register_route rib route)
  change_rib RequestType.replace route rib = ok (register_route rib route)
  change_rib RequestType.add_multi_path route rib =
      serve_add_multi_path rib route (get_route route.destination route.protocol rib)
  change_rib RequestType.delete route rib = remove_route rib route
  change_rib RequestType.delete_multi_path route rib =
      serve_delete_multi_path rib route (get_route route.destination route.protocol rib)

  abbrev pub to_publish : RequestType → Option (Route N × Bool) → Option (RequestType × Route N)
  to_publish req none = none
  to_publish req (some (route, replaced)) =
      some (if replaced then RequestType.replace else req, route)

  unfoldable pub handle_request :
      {E : Type 0}
      → RequestType
      → Route N
      → Rib N
      → Outcome E (Rib N × Option (RequestType × Route N))
  unfolding change_rib
  handle_request req route rib =
      change_rib req route rib >>= λ answer. ok (answer.0, to_publish req answer.1)
