-- ===== src/Bgp/Fsm/Tests.antt =====
-- The state machine on concrete events.
use sart.Common.{ℕ, ◌≡◌, refl, List, [], ◌∷◌}
use sart.Bgp.Fsm.{FiniteStateMachine, State, new, mv, next_state}
use sart.Bgp.Fsm.Runs.{run, InOrder, is_start, is_open, is_keepalive, run-established, run_recovers}

abbrev established : FiniteStateMachine
established = record { state = State.established }

-- A start, a connection, OPEN, KEEPALIVE.
abbrev session : List ℕ
session = 1 ∷ 16 ∷ 19 ∷ 26 ∷ []

session_establishes : (run new session).state ≡ State.established
unfolding run mv next_state new
session_establishes = refl

run-established_example : InOrder (is_start ∷ is_open ∷ is_keepalive ∷ []) session
run-established_example = run-established session session_establishes

run_recovers_example : (run established (8 ∷ 1 ∷ 16 ∷ 19 ∷ 26 ∷ [])).state ≡ State.established
run_recovers_example = run_recovers established 8 1 16 refl refl refl
