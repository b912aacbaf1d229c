-- ===== src/Bgp/Error.antt =====
-- sartd/src/bgp/src/error.rs: the errors of the packet formats, and the errors with no content of their
-- own. The cases that wrap an error of another crate, of the configuration or of the tables are left
-- out, since no decoder returns them.
use sart.Common.{ℕ}

pub data MessageHeaderError : Type 0 where
  connection_not_synchronized : MessageHeaderError
  bad_message_length : ℕ → MessageHeaderError
  bad_message_type : ℕ → MessageHeaderError

pub data OpenMessageError : Type 0 where
  unsupported_version_number bad_peer_as bad_bgp_identifier : OpenMessageError
  unsupported_optional_parameter unacceptable_hold_time unspecific : OpenMessageError

-- The arguments of the flags and length errors: code, length, value.
pub data UpdateMessageError : Type 0 where
  malformed_attribute_list : UpdateMessageError
  unrecognized_wellknown_attribute : ℕ → UpdateMessageError
  missing_well_known_attribute : ℕ → UpdateMessageError
  attribute_flags_error : ℕ → ℕ → ℕ → UpdateMessageError
  attribute_length_error : ℕ → ℕ → ℕ → UpdateMessageError
  invalid_origin_attribute : ℕ → UpdateMessageError
  invalid_next_hop_attribute optional_attribute_error : UpdateMessageError
  invalid_network_field malformed_as_path : UpdateMessageError

pub data Error : Type 0 where
  system got_empty_message : Error
  message_header : MessageHeaderError → Error
  open_message : OpenMessageError → Error
  update_message : UpdateMessageError → Error
  route_refresh_message_error unrecognized_notification_code : Error
  unrecognized_notification_sub_code hold_timer_expired : Error
  finite_state_machine cease : Error
  invalid_event : ℕ → Error
  missing_message_field invalid_message_field undesired_message : Error

-- `From<…> for u8`: the subcodes of a NOTIFICATION.
unfoldable pub header_subcode : MessageHeaderError → ℕ
header_subcode connection_not_synchronized = 1
header_subcode (bad_message_length length) = 2
header_subcode (bad_message_type val) = 3

unfoldable pub open_subcode : OpenMessageError → ℕ
open_subcode unsupported_version_number = 1
open_subcode bad_peer_as = 2
open_subcode bad_bgp_identifier = 3
open_subcode unsupported_optional_parameter = 4
open_subcode unacceptable_hold_time = 6
open_subcode unspecific = 0

unfoldable pub update_subcode : UpdateMessageError → ℕ
update_subcode malformed_attribute_list = 1
update_subcode (unrecognized_wellknown_attribute _) = 2
update_subcode (missing_well_known_attribute _) = 3
update_subcode (attribute_flags_error _ _ _) = 4
update_subcode (attribute_length_error _ _ _) = 5
update_subcode (invalid_origin_attribute _) = 6
update_subcode invalid_next_hop_attribute = 8
update_subcode optional_attribute_error = 9
update_subcode invalid_network_field = 10
update_subcode malformed_as_path = 11
