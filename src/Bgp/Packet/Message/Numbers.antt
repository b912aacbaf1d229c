-- ===== src/Bgp/Packet/Message/Numbers.antt =====
-- The numbers of message types, notification codes and subcodes, there and back.
use sart.Common.{ℕ, ◌≡◌, refl, some, ok, arith}
use sart.Bgp.Packet.Message.{
  NotificationCode, NotificationSubCode, MessageType, type_try_from, type_number, code_try_from,
  code_number, subcode_try_from, subcode_number,
}

pub type_try_from-type_number : (t : MessageType) → type_try_from (type_number t) ≡ ok t
unfolding type_try_from type_number
type_try_from-type_number MessageType.«open» = refl
type_try_from-type_number MessageType.update = refl
type_try_from-type_number MessageType.notification = refl
type_try_from-type_number MessageType.keepalive = refl
type_try_from-type_number MessageType.route_refresh = refl

pub code_try_from-code_number : (c : NotificationCode) → code_try_from (code_number c) ≡ ok c
unfolding code_try_from code_number
code_try_from-code_number NotificationCode.message_header = refl
code_try_from-code_number NotificationCode.open_message = refl
code_try_from-code_number NotificationCode.update_message = refl
code_try_from-code_number NotificationCode.hold_timer_expired = refl
code_try_from-code_number NotificationCode.finite_state_machine = refl
code_try_from-code_number NotificationCode.cease = refl

-- A subcode read under a code has the number that was read.
pub subcode_try_from_number :
    (n : ℕ) (c : NotificationCode) (s : NotificationSubCode)
    → subcode_try_from n c ≡ ok (some s)
    → subcode_number s ≡ n
unfolding subcode_try_from subcode_number
subcode_try_from_number n NotificationCode.message_header s h = ground arith
subcode_try_from_number n NotificationCode.open_message s h = ground arith
subcode_try_from_number n NotificationCode.update_message s h = ground arith
subcode_try_from_number n NotificationCode.hold_timer_expired s h = ground arith
subcode_try_from_number n NotificationCode.finite_state_machine s h = ground arith
subcode_try_from_number n NotificationCode.cease s h = ground arith
