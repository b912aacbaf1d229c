-- ===== src/Bgp/Fsm.antt =====
-- sartd/src/bgp/src/peer/fsm.rs.
pub mod Runs
mod Tests
use sart.Common.{ℕ, Bool, true, false, ◌||◌, List, [], ◌∷◌, ◌==◌, if◌then◌else◌}
use sart.Bgp.Event

pub data State : Type 0 where
  idle connect active open_sent open_confirm established : State

pub record FiniteStateMachine : Type 0 where
  pub state : State

unfoldable pub new : FiniteStateMachine
new = record { state = State.idle }

-- An or-pattern of event numbers.
abbrev pub one_of : List ℕ → ℕ → Bool
one_of [] event = false
one_of (e ∷ es) event = event == e || one_of es event

-- The new state of `mv`.
unfoldable pub next_state : State → ℕ → State
next_state State.idle event =
    if one_of (Event.admin_manual_start ∷ Event.admin_automatic_start ∷ []) event
    then State.connect
    else if one_of
        (Event.admin_automatic_start_with_passive_tcp_establishment
          ∷ Event.admin_automatic_start_with_damp_peer_oscillations
          ∷ Event.admin_automatic_start_with_damp_peer_oscillations_and_passive_tcp_establishment
          ∷ Event.admin_manual_start_with_passive_tcp_establishment ∷ [])
        event
    then State.active
    else State.idle
next_state State.connect event =
    if one_of
      (Event.timer_delay_open_timer_expire ∷ Event.connection_tcp_cr_acked
        ∷ Event.connection_tcp_connection_confirmed ∷ [])
      event
    then State.open_sent
    else if event == Event.connection_tcp_connection_fail
    then State.active
    else if one_of (1 ∷ 3 ∷ 4 ∷ 5 ∷ 6 ∷ 7 ∷ 9 ∷ 14 ∷ 15 ∷ []) event
    then State.connect
    else State.idle
next_state State.active event =
    if event == Event.timer_connect_retry_timer_expire
    then State.connect
    else if one_of
        (Event.timer_delay_open_timer_expire ∷ Event.connection_tcp_cr_acked
          ∷ Event.connection_tcp_connection_confirmed ∷ [])
        event
    then State.open_sent
    else if event == Event.message_bgp_open
    then State.open_confirm
    else if one_of (1 ∷ 3 ∷ 4 ∷ 5 ∷ 6 ∷ 7 ∷ 14 ∷ 15 ∷ []) event
    then State.active
    else State.idle
next_state State.open_sent event =
    if event == Event.connection_tcp_connection_fail
    then State.active
    else if event == Event.message_bgp_open
    then State.open_confirm
    else if one_of (1 ∷ 3 ∷ 4 ∷ 5 ∷ 6 ∷ 7 ∷ 14 ∷ 15 ∷ 16 ∷ 17 ∷ []) event
    then State.open_sent
    else State.idle
next_state State.open_confirm event =
    if event == Event.message_bgp_open
    then State.idle
    else if event == Event.message_keepalive_msg
    then State.established
    else if one_of (1 ∷ 3 ∷ 4 ∷ 5 ∷ 6 ∷ 7 ∷ 14 ∷ 15 ∷ Event.timer_keepalive_timer_expire ∷ []) event
    then State.open_confirm
    else State.idle
next_state State.established event =
    if one_of (Event.message_keepalive_msg ∷ Event.message_update_msg ∷ []) event
    then State.established
    else if one_of (1 ∷ 3 ∷ 4 ∷ 5 ∷ 6 ∷ 7 ∷ 14 ∷ 15 ∷ Event.timer_keepalive_timer_expire ∷ []) event
    then State.established
    else State.idle

unfoldable pub mv : FiniteStateMachine → ℕ → FiniteStateMachine × State
unfolding next_state
mv m event = let s = next_state m.state event in (record m { state = s }, s)
