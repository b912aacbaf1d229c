-- ===== src/Bgp/Event.antt =====
-- The event numbers of sartd/src/bgp/src/event.rs that the state machine reads.
use sart.Common.{ℕ}

abbrev pub admin_manual_start : ℕ
admin_manual_start = 1

abbrev pub admin_manual_stop : ℕ
admin_manual_stop = 2

abbrev pub admin_automatic_start : ℕ
admin_automatic_start = 3

abbrev pub admin_manual_start_with_passive_tcp_establishment : ℕ
admin_manual_start_with_passive_tcp_establishment = 4

abbrev pub admin_automatic_start_with_passive_tcp_establishment : ℕ
admin_automatic_start_with_passive_tcp_establishment = 5

abbrev pub admin_automatic_start_with_damp_peer_oscillations : ℕ
admin_automatic_start_with_damp_peer_oscillations = 6

abbrev pub admin_automatic_start_with_damp_peer_oscillations_and_passive_tcp_establishment : ℕ
admin_automatic_start_with_damp_peer_oscillations_and_passive_tcp_establishment = 7

abbrev pub admin_automatic_stop : ℕ
admin_automatic_stop = 8

abbrev pub timer_connect_retry_timer_expire : ℕ
timer_connect_retry_timer_expire = 9

abbrev pub timer_hold_timer_expire : ℕ
timer_hold_timer_expire = 10

abbrev pub timer_keepalive_timer_expire : ℕ
timer_keepalive_timer_expire = 11

abbrev pub timer_delay_open_timer_expire : ℕ
timer_delay_open_timer_expire = 12

abbrev pub timer_idle_hold_timer_expire : ℕ
timer_idle_hold_timer_expire = 13

abbrev pub connection_tcp_cr_acked : ℕ
connection_tcp_cr_acked = 16

abbrev pub connection_tcp_connection_confirmed : ℕ
connection_tcp_connection_confirmed = 17

abbrev pub connection_tcp_connection_fail : ℕ
connection_tcp_connection_fail = 18

abbrev pub message_bgp_open : ℕ
message_bgp_open = 19

abbrev pub message_bgp_header_error : ℕ
message_bgp_header_error = 21

abbrev pub message_bgp_open_msg_error : ℕ
message_bgp_open_msg_error = 22

abbrev pub message_open_collision_dump : ℕ
message_open_collision_dump = 23

abbrev pub message_notif_msg_error : ℕ
message_notif_msg_error = 24

abbrev pub message_notif_msg : ℕ
message_notif_msg = 25

abbrev pub message_keepalive_msg : ℕ
message_keepalive_msg = 26

abbrev pub message_update_msg : ℕ
message_update_msg = 27

abbrev pub message_update_msg_error : ℕ
message_update_msg_error = 28
