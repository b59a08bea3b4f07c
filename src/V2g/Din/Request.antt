-- ===== src/V2g/Din/Request.antt =====
-- modules/EvseTestV2G/server/din_server.cpp: `handle_request`. The used message of the body is a constructor
-- of the request.
use evse_test_system.Base.{
  ℕ, Bool, true, false, ◌&&◌, ◌||◌, ◌==◌, none, some, List, [], ◌∷◌, ◌++◌, get_elem?, if◌then◌else◌,
}
use evse_test_system.V2g.Types.{
  ignore_msg, V2gMsgTypeId, session_setup_msg, service_discovery_msg, payment_service_selection_msg,
  authorization_msg, charge_parameter_discovery_msg, cable_check_msg, pre_charge_msg,
  power_delivery_msg, current_demand_msg, welding_detection_msg, session_stop_msg, unknown_msg,
  msg_number,
}
use evse_test_system.V2g.Iso.Server.{
  Outcome, returned, undefined, ◌>>=◌, PaymentOption, DcEvStatus, require_auth_eim,
  current_demand_started, start_cable_check, start_pre_charge, Published, Server, Response, Reply,
}
use evse_test_system.V2g.Iso.Discovery.{RandomWords}
use evse_test_system.V2g.Iso.Charging.{CurrentDemandReq}
use evse_test_system.V2g.Din.States.{din_states}
use evse_test_system.V2g.Din.Handlers.{
  handle_din_session_setup, handle_din_service_discovery, handle_din_service_payment_selection,
  handle_din_contract_authentication, DinChargeParameterReq, handle_din_charge_parameter,
}
use evse_test_system.V2g.Din.Charging.{
  DinPowerDeliveryReq, handle_din_power_delivery, handle_din_cable_check, handle_din_pre_charge,
  handle_din_current_demand, handle_din_welding_detection, handle_din_session_stop,
}

-- The request messages. Six messages are not supported, and an unknown one is none of the others.
pub data DinRequest : Type 0 where
  din_session_setup_req : List ℕ → DinRequest
  din_service_discovery_req : DinRequest
  din_service_payment_selection_req : PaymentOption → List ℕ → DinRequest
  din_contract_authentication_req : DinRequest
  din_charge_parameter_req : DinChargeParameterReq → DinRequest
  din_power_delivery_req : DinPowerDeliveryReq → DinRequest
  din_cable_check_req din_pre_charge_req din_welding_detection_req : DcEvStatus → DinRequest
  din_current_demand_req : CurrentDemandReq → DinRequest
  din_session_stop_req din_unsupported_req din_unknown_req : DinRequest

-- The message that the handler of the request stores as the current one.
abbrev pub din_message_of : DinRequest → V2gMsgTypeId
din_message_of (din_session_setup_req _) = session_setup_msg
din_message_of din_service_discovery_req = service_discovery_msg
din_message_of (din_service_payment_selection_req _ _) = payment_service_selection_msg
din_message_of din_contract_authentication_req = authorization_msg
din_message_of (din_charge_parameter_req _) = charge_parameter_discovery_msg
din_message_of (din_power_delivery_req _) = power_delivery_msg
din_message_of (din_cable_check_req _) = cable_check_msg
din_message_of (din_pre_charge_req _) = pre_charge_msg
din_message_of (din_welding_detection_req _) = welding_detection_msg
din_message_of (din_current_demand_req _) = current_demand_msg
din_message_of din_session_stop_req = session_stop_msg
din_message_of din_unsupported_req = unknown_msg
din_message_of din_unknown_req = unknown_msg

abbrev is_supported_request : DinRequest → Bool
is_supported_request din_unknown_req = false
is_supported_request _ = true

abbrev ignored : Server → Response → Outcome Reply
ignored s r = returned (record { server = s; response = r; event = ignore_msg })

unfoldable pub din_dispatch : RandomWords → Response → DinRequest → Server → Outcome Reply
unfolding handle_din_session_setup handle_din_service_discovery handle_din_service_payment_selection
    handle_din_contract_authentication handle_din_charge_parameter handle_din_power_delivery
    handle_din_cable_check handle_din_pre_charge handle_din_current_demand
    handle_din_welding_detection handle_din_session_stop
din_dispatch random r (din_session_setup_req evccid) s = handle_din_session_setup evccid random s r
din_dispatch random r din_service_discovery_req s = handle_din_service_discovery s r
din_dispatch random r (din_service_payment_selection_req option services) s =
    handle_din_service_payment_selection option services s r
din_dispatch random r din_contract_authentication_req s = handle_din_contract_authentication s r
din_dispatch random r (din_charge_parameter_req req) s = handle_din_charge_parameter req s r
din_dispatch random r (din_power_delivery_req req) s = handle_din_power_delivery req s r
din_dispatch random r (din_cable_check_req status) s = handle_din_cable_check status s r
din_dispatch random r (din_pre_charge_req status) s = handle_din_pre_charge status s r
din_dispatch random r (din_welding_detection_req status) s = handle_din_welding_detection status s r
din_dispatch random r (din_current_demand_req req) s = handle_din_current_demand req s r
din_dispatch random r din_session_stop_req s = handle_din_session_stop s r
din_dispatch random r din_unsupported_req s = ignored s r
din_dispatch random r din_unknown_req s = ignored s r

abbrev din_follows : V2gMsgTypeId → Server → Bool
din_follows m s = msg_number s.stop.last_v2g_msg == msg_number m

-- What is published before the handler of a message.
abbrev din_announcement : V2gMsgTypeId → Server → List Published
din_announcement current_demand_msg s =
    if din_follows power_delivery_msg s then current_demand_started ∷ [] else []
din_announcement authorization_msg s =
    if din_follows authorization_msg s then [] else require_auth_eim ∷ []
din_announcement cable_check_msg s =
    if din_follows charge_parameter_discovery_msg s then start_cable_check ∷ [] else []
din_announcement pre_charge_msg s =
    if din_follows cable_check_msg s then start_pre_charge ∷ [] else []
din_announcement _ s = []

abbrev is_demand : V2gMsgTypeId → Bool
is_demand current_demand_msg = true
is_demand _ = false

-- The context when the handler is called, for the session id in the header of the request.
unfoldable pub din_receive : ℕ → DinRequest → Server → Server
din_receive id req s =
    let m = din_message_of req in
    record s {
      stop = record s.stop {
        iso = record s.stop.iso {
          received_session_id = id;
          current_v2g_msg = if is_supported_request req then m else s.stop.iso.current_v2g_msg;
        };
      };
      is_charging = (is_demand m && din_follows power_delivery_msg s) || s.is_charging;
      published = s.published ++ din_announcement m s;
    }

-- Unless the message is ignored, the trace reads the table of the states, and the handled message
-- becomes the last one.
unfoldable pub din_conclude : Reply → Outcome Reply
din_conclude t = elim t.event [
  | ignore_msg ↦ returned t
  | _ ↦ elim (get_elem? din_states t.server.stop.iso.state) [
    | none ↦ undefined
    | some description ↦ returned (record t {
      server = record t.server {
        stop = record t.server.stop { last_v2g_msg = t.server.stop.iso.current_v2g_msg };
      };
    })
  ]
]

-- `r`: the response that its initialisation leaves; `id`: the session id in the header.
unfoldable pub handle_din_request : RandomWords → Response → ℕ → DinRequest → Server → Outcome Reply
unfolding din_dispatch din_receive din_conclude
handle_din_request random r id req s =
    din_dispatch random r req (din_receive id req s) >>= din_conclude
