-- ===== src/Bgp/Fsm/Runs.antt =====
-- What a sequence of events can do to the state machine of a peer.
use sart.Common.{
  ℕ, zero, suc, ◌≤◌, ◌≡◌, sym, subst, ◌⊎◌, inl, inr, refl, Bool, true, List, [], ◌∷◌, ◌==◌, arith,
}
use native.Mathlib.Decide.{ℕ_discrete}
use sart.Bgp.Event
use sart.Bgp.Fsm.{FiniteStateMachine, State, one_of, new, mv, next_state}

-- The machine after each event of the list in turn.
unfoldable pub run : FiniteStateMachine → List ℕ → FiniteStateMachine
run m [] = m
run m (e ∷ es) = run (mv m e).0 es

-- The events that tear a session down: stops, expired hold timers, errors and notifications.
abbrev pub teardown : List ℕ
teardown = 2 ∷ 8 ∷ 10 ∷ 13 ∷ 20 ∷ 21 ∷ 22 ∷ 23 ∷ 24 ∷ 25 ∷ 28 ∷ []

torn : (s : State) (e : ℕ) → one_of teardown e ≡ true → next_state s e ≡ State.idle
unfolding next_state
torn State.idle e h = ground arith
torn s e h = ground arith

-- Each of them leads to Idle, whatever the state.
pub mv-teardown :
    (m : FiniteStateMachine) (e : ℕ) → one_of teardown e ≡ true → (mv m e).1 ≡ State.idle
unfolding mv
mv-teardown m e h = torn m.state e h

-- The events of the list pass the given tests in this order, others among them.
abbrev pub InOrder : List (ℕ → Bool) → List ℕ → Type 0
InOrder [] es = Unit {0}
InOrder (p ∷ ps) [] = ⊥
InOrder (p ∷ ps) (e ∷ es) = ((p e ≡ true) × InOrder ps es) ⊎ InOrder (p ∷ ps) es

abbrev pub is_start : ℕ → Bool
is_start e = one_of (1 ∷ 3 ∷ 4 ∷ 5 ∷ 6 ∷ 7 ∷ []) e

abbrev pub is_open : ℕ → Bool
is_open e = e == Event.message_bgp_open

abbrev pub is_keepalive : ℕ → Bool
is_keepalive e = e == Event.message_keepalive_msg

-- How far the session has come, and what is still missing.
abbrev stage : State → ℕ
stage State.idle = 0
stage State.connect = 1
stage State.active = 1
stage State.open_sent = 1
stage State.open_confirm = 2
stage State.established = 3

abbrev missing : ℕ → List (ℕ → Bool)
missing zero = is_start ∷ is_open ∷ is_keepalive ∷ []
missing (suc zero) = is_open ∷ is_keepalive ∷ []
missing (suc (suc zero)) = is_keepalive ∷ []
missing (suc (suc (suc n))) = []

later : (p : ℕ → Bool) (ps : List (ℕ → Bool)) (es : List ℕ) → InOrder (p ∷ ps) es → InOrder ps es
later p [] es h = tt
later p (q ∷ ps) [] h = absurd h
later p (q ∷ ps) (e ∷ es) (inl (_, h)) = inr h
later p (q ∷ ps) (e ∷ es) (inr h) = inr (later p (q ∷ ps) es h)

missing-suc : (n : ℕ) (es : List ℕ) → InOrder (missing n) es → InOrder (missing (suc n)) es
missing-suc zero es h = later is_start (missing 1) es h
missing-suc (suc zero) es h = later is_open (missing 2) es h
missing-suc (suc (suc zero)) es h = tt
missing-suc (suc (suc (suc n))) es h = tt

missing_mono : (m n : ℕ) (es : List ℕ) → m ≤ n → InOrder (missing m) es → InOrder (missing n) es
missing_mono zero zero es h i = i
missing_mono (suc m) zero es h i = absurd (omega arith)
missing_mono m (suc n) es h i = elim (ℕ_discrete m (suc n)) [
  | yes same ↦ subst (λ k. InOrder (missing k) es) same i
  | no less ↦ missing-suc n es (missing_mono m n es (omega arith) i)
]

-- An event takes the session on by one stage at most, and only if it is the one that the stage
-- waits for.
abbrev Advance : ℕ → ℕ → ℕ → Type 0
Advance before e after =
    (after ≤ before)
    ⊎ ((before ≡ 0) × (after ≡ 1) × (is_start e ≡ true))
    ⊎ ((before ≡ 1) × (after ≡ 2) × (is_open e ≡ true))
    ⊎ ((before ≡ 2) × (after ≡ 3) × (is_keepalive e ≡ true))

next_state-Advance : (s : State) (e : ℕ) → Advance (stage s) e (stage (next_state s e))
unfolding next_state
next_state-Advance State.idle e = ground arith
next_state-Advance s e = ground arith

skip : (n e : ℕ) (es : List ℕ) → InOrder (missing n) es → InOrder (missing n) (e ∷ es)
skip zero e es h = inr h
skip (suc zero) e es h = inr h
skip (suc (suc zero)) e es h = inr h
skip (suc (suc (suc n))) e es h = tt

Advance-missing :
    (before e after : ℕ) (es : List ℕ)
    → Advance before e after
    → InOrder (missing after) es
    → InOrder (missing before) (e ∷ es)
Advance-missing before e after es (inl le) h = skip before e es (missing_mono after before es le h)
Advance-missing before e after es (inr (inl (b, a, p))) h =
    subst (λ n. InOrder (missing n) (e ∷ es)) (sym b)
      (inl (p, subst (λ n. InOrder (missing n) es) a h))
Advance-missing before e after es (inr (inr (inl (b, a, p)))) h =
    subst (λ n. InOrder (missing n) (e ∷ es)) (sym b)
      (inl (p, subst (λ n. InOrder (missing n) es) a h))
Advance-missing before e after es (inr (inr (inr (b, a, p)))) h =
    subst (λ n. InOrder (missing n) (e ∷ es)) (sym b)
      (inl (p, subst (λ n. InOrder (missing n) es) a h))

run-missing :
    (m : FiniteStateMachine) (es : List ℕ)
    → (run m es).state ≡ State.established
    → InOrder (missing (stage m.state)) es
unfolding run mv
run-missing m [] h = rw h tt
run-missing m (e ∷ es) h =
    Advance-missing (stage m.state) e (stage (next_state m.state e)) es
      (next_state-Advance m.state e) (run-missing (mv m e).0 es h)

-- A peer that is new is established only after a start event, then an OPEN message and then a
-- KEEPALIVE, in this order.
pub run-established :
    (es : List ℕ)
    → (run new es).state ≡ State.established
    → InOrder (is_start ∷ is_open ∷ is_keepalive ∷ []) es
unfolding new
run-established es h = run-missing new es h

started :
    (start : ℕ)
    → one_of (Event.admin_manual_start ∷ Event.admin_automatic_start ∷ []) start ≡ true
    → next_state State.idle start ≡ State.connect
unfolding next_state
started start h = rw h

connected_lem :
    (e : ℕ)
    → one_of (Event.connection_tcp_cr_acked ∷ Event.connection_tcp_connection_confirmed ∷ []) e
      ≡ true
    → next_state State.connect e ≡ State.open_sent
unfolding next_state
connected_lem e h = ground arith

handshake : next_state (next_state State.open_sent 19) 26 ≡ State.established
unfolding next_state
handshake = refl

-- From every state, an event that tears the session down, a manual or automatic start, a
-- connection, an OPEN and a KEEPALIVE lead to Established, in this order.
pub run_recovers :
    (m : FiniteStateMachine) (stop start connected : ℕ)
    → one_of teardown stop ≡ true
    → one_of (Event.admin_manual_start ∷ Event.admin_automatic_start ∷ []) start ≡ true
    → one_of
        (Event.connection_tcp_cr_acked ∷ Event.connection_tcp_connection_confirmed ∷ [])
        connected
      ≡ true
    → (run m (
        stop ∷ start ∷ connected ∷ Event.message_bgp_open ∷ Event.message_keepalive_msg ∷ [])).state
      ≡ State.established
unfolding run mv
run_recovers m stop start connected h k l =
    rw (torn m.state stop h, started start k, connected_lem connected l) handshake
