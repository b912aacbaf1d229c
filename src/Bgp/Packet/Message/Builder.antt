-- ===== src/Bgp/Packet/Message/Builder.antt =====
-- sartd/src/bgp/src/packet/message.rs: `MessageBuilder`. The routes come as networks without a path
-- identifier.
use sart.Common.{
  ℕ, ◌==◌, Bool, true, false, not, ◌||◌, Option, none, some, List, [], ◌∷◌, ◌++◌, map,
  if◌then◌else◌, Outcome, ok, err, ltb,
}
use sart.Net.{Ipv4Addr}
use sart.Bgp.Capability.{Capability, to_cap}
use sart.Bgp.Error.{Error, invalid_message_field}
use sart.Bgp.Family.{AddressFamily, ipv4_unicast}
use sart.Bgp.Packet.Attribute.{Prefix, Attribute}
use sart.Bgp.Packet.Capability.{
  Cap, multi_protocol, route_refresh, extended_next_hop, bgp_extended_message, graceful_restart,
  four_octet_as_number, add_path, enhanced_route_refresh, unsupported,
}
use sart.Bgp.Packet.Message.{
  NotificationCode, NotificationSubCode, MessageType, Message, type_number,
}

pub record MessageBuilder (N : Type 0) : Type 0 where
  pub msg_type : MessageType
  pub version : ℕ
  pub asn : ℕ
  pub hold_time : ℕ
  pub router_id : Ipv4Addr
  pub capabilities : List Cap
  pub withdrawn_routes : List (Prefix N)
  pub attributes : List (Attribute N)
  pub nlri : List (Prefix N)
  pub code : NotificationCode
  pub subcode : Option NotificationSubCode
  pub contents : List ℕ
  pub family : AddressFamily

abbrev pub is_four_octet : Cap → Bool
is_four_octet (four_octet_as_number _) = true
is_four_octet (multi_protocol _) = false
is_four_octet route_refresh = false
is_four_octet (extended_next_hop _) = false
is_four_octet bgp_extended_message = false
is_four_octet (graceful_restart _ _ _) = false
is_four_octet (add_path _ _) = false
is_four_octet enhanced_route_refresh = false
is_four_octet (unsupported _ _) = false

-- Whether the count of the capabilities with the long AS number is above 0.
unfoldable pub has_four_octet : List Cap → Bool
has_four_octet [] = false
has_four_octet (c ∷ cs) = is_four_octet c || has_four_octet cs

abbrev pub same_type : MessageType → MessageType → Bool
same_type s t = type_number s == type_number t

module _ {N : Type 0} where
  unfoldable pub builder : MessageType → MessageBuilder N
  builder msg_type = record {
    msg_type = msg_type;
    version = 4;
    asn = 23456;
    hold_time = 180;
    router_id = record { a = 0; b = 0; c = 0; d = 0 };
    capabilities = [];
    withdrawn_routes = [];
    attributes = [];
    nlri = [];
    code = NotificationCode.finite_state_machine;
    subcode = none;
    contents = [];
    family = ipv4_unicast;
  }

  unfoldable pub open_asn : MessageBuilder N → ℕ
  unfolding has_four_octet
  open_asn m =
      if not (has_four_octet m.capabilities)
      then m.asn
      else if ltb 65535 m.asn
      then 23456
      else m.asn

  unfoldable pub build_as : MessageType → MessageBuilder N → Message N
  unfolding open_asn
  build_as MessageType.«open» m =
      Message.«open» m.version (open_asn m) m.hold_time m.router_id m.capabilities
  build_as MessageType.update m = Message.update m.withdrawn_routes m.attributes m.nlri
  build_as MessageType.keepalive m = Message.keepalive
  build_as MessageType.notification m = Message.notification m.code m.subcode m.contents
  build_as MessageType.route_refresh m = Message.route_refresh m.family

  unfoldable pub build : MessageBuilder N → Outcome Error (Message N)
  unfolding build_as
  build m = ok (build_as m.msg_type m)

  -- A setter of a message type: the fields of other types are refused.
  abbrev pub field_of :
      MessageType → MessageBuilder N → MessageBuilder N → Outcome Error (MessageBuilder N)
  field_of t m next = if not (same_type m.msg_type t) then err invalid_message_field else ok next

  abbrev pub from_nets : List N → List (Prefix N)
  from_nets ns = map (λ n. record { inner = n; path_id = none }) ns

  unfoldable pub set_asn : MessageBuilder N → ℕ → Outcome Error (MessageBuilder N)
  set_asn m asn = field_of MessageType.«open» m (record m { asn = asn })

  unfoldable pub set_hold_time : MessageBuilder N → ℕ → Outcome Error (MessageBuilder N)
  set_hold_time m hold_time = field_of MessageType.«open» m (record m { hold_time = hold_time })

  unfoldable pub set_identifier : MessageBuilder N → Ipv4Addr → Outcome Error (MessageBuilder N)
  set_identifier m router_id = field_of MessageType.«open» m (record m { router_id = router_id })

  unfoldable pub add_capability : MessageBuilder N → Capability → Outcome Error (MessageBuilder N)
  unfolding to_cap
  add_capability m capability =
      field_of MessageType.«open» m
        (record m { capabilities = m.capabilities ++ (to_cap capability ∷ []) })

  unfoldable pub set_withdrawn_routes : MessageBuilder N → List N → Outcome Error (MessageBuilder N)
  set_withdrawn_routes m prefixes =
      field_of MessageType.update m (record m { withdrawn_routes = from_nets prefixes })

  unfoldable pub set_attributes :
      MessageBuilder N → List (Attribute N) → Outcome Error (MessageBuilder N)
  set_attributes m attrs = field_of MessageType.update m (record m { attributes = attrs })

  unfoldable pub set_nlri : MessageBuilder N → List N → Outcome Error (MessageBuilder N)
  set_nlri m prefixes = field_of MessageType.update m (record m { nlri = from_nets prefixes })

  unfoldable pub set_code : MessageBuilder N → NotificationCode → Outcome Error (MessageBuilder N)
  set_code m code = field_of MessageType.notification m (record m { code = code })

  unfoldable pub set_subcode :
      MessageBuilder N → NotificationSubCode → Outcome Error (MessageBuilder N)
  set_subcode m subcode = field_of MessageType.notification m (record m { subcode = some subcode })

  unfoldable pub add_data : MessageBuilder N → List ℕ → Outcome Error (MessageBuilder N)
  add_data m contents =
      field_of MessageType.notification m (record m { contents = m.contents ++ contents })

  unfoldable pub set_family : MessageBuilder N → AddressFamily → Outcome Error (MessageBuilder N)
  set_family m family = field_of MessageType.route_refresh m (record m { family = family })
