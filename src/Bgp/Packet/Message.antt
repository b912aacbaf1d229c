-- ===== src/Bgp/Packet/Message.antt =====
-- sartd/src/bgp/src/packet/message.rs: the messages, the numbers of their parts, and their builder.
pub mod Builder
pub mod Numbers
use sart.Common.{ℕ, ◌==◌, Option, none, some, List, if◌then◌else◌, Outcome, ok, err}
use sart.Net.{Ipv4Addr}
use sart.Bgp.Error.{
  Error, MessageHeaderError, unrecognized_notification_code, unrecognized_notification_sub_code,
  undesired_message,
}
use sart.Bgp.Family.{AddressFamily}
use sart.Bgp.Packet.Attribute.{Prefix, Attribute}
use sart.Bgp.Packet.Capability.{Cap}

pub data NotificationCode : Type 0 where
  message_header open_message update_message : NotificationCode
  hold_timer_expired finite_state_machine cease : NotificationCode

pub data NotificationSubCode : Type 0 where
  connection_not_synchronized bad_message_length : NotificationSubCode
  bad_message_type unsupported_version_number bad_peer_as : NotificationSubCode
  bad_bgp_identifier unsupported_optional_parameter : NotificationSubCode
  unacceptable_hold_time malformed_attribute_list : NotificationSubCode
  unrecognized_wellknown_attribute missing_wellknown_attribute : NotificationSubCode
  attribute_flags_error attribute_length_error : NotificationSubCode
  invalid_origin_attribute invalid_next_hop_attribute : NotificationSubCode
  optional_attribute_error invalid_network_field : NotificationSubCode
  malformed_as_path : NotificationSubCode

pub data MessageType : Type 0 where
  «open» update notification keepalive route_refresh : MessageType

-- Of an OPEN: version, AS number, hold time, identifier, capabilities. Of an UPDATE: withdrawn routes,
-- attributes, NLRI. Of a NOTIFICATION: code, subcode, data.
pub data Message (N : Type 0) : Type 0 where
  «open» : ℕ → ℕ → ℕ → Ipv4Addr → List Cap → Message N
  update : List (Prefix N) → List (Attribute N) → List (Prefix N) → Message N
  keepalive : Message N
  notification : NotificationCode → Option NotificationSubCode → List ℕ → Message N
  route_refresh : AddressFamily → Message N

unfoldable pub type_try_from : ℕ → Outcome MessageHeaderError MessageType
type_try_from from =
    if from == 1
    then ok MessageType.«open»
    else if from == 2
    then ok MessageType.update
    else if from == 3
    then ok MessageType.notification
    else if from == 4
    then ok MessageType.keepalive
    else if from == 5
    then ok MessageType.route_refresh
    else err (MessageHeaderError.bad_message_type from)

unfoldable pub type_number : MessageType → ℕ
type_number MessageType.«open» = 1
type_number MessageType.update = 2
type_number MessageType.notification = 3
type_number MessageType.keepalive = 4
type_number MessageType.route_refresh = 5

unfoldable pub code_try_from : ℕ → Outcome Error NotificationCode
code_try_from value =
    if value == 1
    then ok message_header
    else if value == 2
    then ok NotificationCode.open_message
    else if value == 3
    then ok NotificationCode.update_message
    else if value == 4
    then ok NotificationCode.hold_timer_expired
    else if value == 5
    then ok NotificationCode.finite_state_machine
    else if value == 6
    then ok NotificationCode.cease
    else err unrecognized_notification_code

unfoldable pub code_number : NotificationCode → ℕ
code_number message_header = 1
code_number NotificationCode.open_message = 2
code_number NotificationCode.update_message = 3
code_number NotificationCode.hold_timer_expired = 4
code_number NotificationCode.finite_state_machine = 5
code_number NotificationCode.cease = 6

unfoldable pub subcode_try_from : ℕ → NotificationCode → Outcome Error (Option NotificationSubCode)
subcode_try_from value message_header =
    if value == 1
    then ok (some NotificationSubCode.connection_not_synchronized)
    else if value == 2
    then ok (some NotificationSubCode.bad_message_length)
    else if value == 3
    then ok (some NotificationSubCode.bad_message_type)
    else err unrecognized_notification_sub_code
subcode_try_from value NotificationCode.open_message =
    if value == 1
    then ok (some NotificationSubCode.unsupported_version_number)
    else if value == 2
    then ok (some NotificationSubCode.bad_peer_as)
    else if value == 3
    then ok (some NotificationSubCode.bad_bgp_identifier)
    else if value == 4
    then ok (some NotificationSubCode.unsupported_optional_parameter)
    else if value == 6
    then ok (some NotificationSubCode.unacceptable_hold_time)
    else err unrecognized_notification_sub_code
subcode_try_from value NotificationCode.update_message =
    if value == 1
    then ok (some NotificationSubCode.malformed_attribute_list)
    else if value == 2
    then ok (some NotificationSubCode.unrecognized_wellknown_attribute)
    else if value == 3
    then ok (some NotificationSubCode.missing_wellknown_attribute)
    else if value == 4
    then ok (some NotificationSubCode.attribute_flags_error)
    else if value == 5
    then ok (some NotificationSubCode.attribute_length_error)
    else if value == 6
    then ok (some NotificationSubCode.invalid_origin_attribute)
    else if value == 8
    then ok (some NotificationSubCode.invalid_next_hop_attribute)
    else if value == 9
    then ok (some NotificationSubCode.optional_attribute_error)
    else if value == 10
    then ok (some NotificationSubCode.invalid_network_field)
    else if value == 11
    then ok (some NotificationSubCode.malformed_as_path)
    else err unrecognized_notification_sub_code
subcode_try_from value NotificationCode.hold_timer_expired = ok none
subcode_try_from value NotificationCode.finite_state_machine = ok none
subcode_try_from value NotificationCode.cease = ok none

unfoldable pub subcode_number : NotificationSubCode → ℕ
subcode_number NotificationSubCode.connection_not_synchronized = 1
subcode_number NotificationSubCode.bad_message_length = 2
subcode_number NotificationSubCode.bad_message_type = 3
subcode_number NotificationSubCode.unsupported_version_number = 1
subcode_number NotificationSubCode.bad_peer_as = 2
subcode_number NotificationSubCode.bad_bgp_identifier = 3
subcode_number NotificationSubCode.unsupported_optional_parameter = 4
subcode_number NotificationSubCode.unacceptable_hold_time = 6
subcode_number NotificationSubCode.malformed_attribute_list = 1
subcode_number NotificationSubCode.unrecognized_wellknown_attribute = 2
subcode_number NotificationSubCode.missing_wellknown_attribute = 3
subcode_number NotificationSubCode.attribute_flags_error = 4
subcode_number NotificationSubCode.attribute_length_error = 5
subcode_number NotificationSubCode.invalid_origin_attribute = 6
subcode_number NotificationSubCode.invalid_next_hop_attribute = 8
subcode_number NotificationSubCode.optional_attribute_error = 9
subcode_number NotificationSubCode.invalid_network_field = 10
subcode_number NotificationSubCode.malformed_as_path = 11

module _ {N : Type 0} where
  unfoldable pub msg_type : Message N → MessageType
  msg_type (Message.«open» _ _ _ _ _) = MessageType.«open»
  msg_type (Message.update _ _ _) = MessageType.update
  msg_type Message.keepalive = MessageType.keepalive
  msg_type (Message.notification _ _ _) = MessageType.notification
  msg_type (Message.route_refresh _) = MessageType.route_refresh

  unfoldable pub to_open : Message N → Outcome Error (ℕ × ℕ × ℕ × Ipv4Addr × List Cap)
  to_open (Message.«open» version as_num hold_time identifier capabilities) =
      ok (version, as_num, hold_time, identifier, capabilities)
  to_open (Message.update _ _ _) = err undesired_message
  to_open Message.keepalive = err undesired_message
  to_open (Message.notification _ _ _) = err undesired_message
  to_open (Message.route_refresh _) = err undesired_message

  unfoldable pub to_update :
      Message N → Outcome Error (List (Prefix N) × List (Attribute N) × List (Prefix N))
  to_update (Message.update withdrawn_routes attributes nlri) =
      ok (withdrawn_routes, attributes, nlri)
  to_update (Message.«open» _ _ _ _ _) = err undesired_message
  to_update Message.keepalive = err undesired_message
  to_update (Message.notification _ _ _) = err undesired_message
  to_update (Message.route_refresh _) = err undesired_message

  unfoldable pub to_notification :
      Message N → Outcome Error (NotificationCode × Option NotificationSubCode × List ℕ)
  to_notification (Message.notification code subcode d) = ok (code, subcode, d)
  to_notification (Message.«open» _ _ _ _ _) = err undesired_message
  to_notification (Message.update _ _ _) = err undesired_message
  to_notification Message.keepalive = err undesired_message
  to_notification (Message.route_refresh _) = err undesired_message

  unfoldable pub to_route_refresh : Message N → Outcome Error AddressFamily
  to_route_refresh (Message.route_refresh family) = ok family
  to_route_refresh (Message.«open» _ _ _ _ _) = err undesired_message
  to_route_refresh (Message.update _ _ _) = err undesired_message
  to_route_refresh Message.keepalive = err undesired_message
  to_route_refresh (Message.notification _ _ _) = err undesired_message
