-- ===== src/V2g/Iso/Request.antt =====
-- modules/EvseTestV2G/server/iso_server.cpp: `handle_request`. The used message of the body, which
-- `find_req_message_type` finds, is a constructor of the request.
use evse_test_system.Base.{
  ℕ, Bool, true, false, not, ◌&&◌, ◌||◌, ◌==◌, Option, none, some, List, [], ◌∷◌, ◌++◌, get_elem?,
  if◌then◌else◌,
}
use evse_test_system.V2g.Types.{
  V2gEvent, ignore_msg, V2gMsgTypeId, session_setup_msg, service_discovery_msg, service_detail_msg,
  payment_service_selection_msg, payment_details_msg, authorization_msg,
  charge_parameter_discovery_msg, metering_receipt_msg, certificate_update_msg,
  certificate_installation_msg, charging_status_msg, cable_check_msg, pre_charge_msg,
  power_delivery_msg, current_demand_msg, welding_detection_msg, session_stop_msg, unknown_msg,
  msg_number,
}
use evse_test_system.V2g.Iso.States.{iso_ac_states, iso_dc_states}
use evse_test_system.V2g.Iso.SessionStop.{ChargingSession, handle_iso_session_stop}
use evse_test_system.V2g.Iso.Server.{
  Outcome, returned, undefined, ◌>>=◌, external_payment, same_option, PhysicalValue, DcEvStatus,
  require_auth_eim, current_demand_started, start_cable_check, start_pre_charge, Published, Server,
  Response, Reply, set_code,
}
use evse_test_system.V2g.Iso.Discovery.{
  RandomWords, handle_iso_session_setup, handle_iso_service_discovery, handle_iso_service_detail,
}
use evse_test_system.V2g.Iso.Payment.{
  PaymentServiceSelectionReq, handle_iso_payment_service_selection, PaymentDetailsReq,
  handle_iso_payment_details,
}
use evse_test_system.V2g.Iso.Authorization.{AuthorizationReq, handle_iso_authorization}
use evse_test_system.V2g.Iso.Parameters.{
  ChargeParameterDiscoveryReq, handle_iso_charge_parameter_discovery,
}
use evse_test_system.V2g.Iso.Waiting.{WakeUp}
use evse_test_system.V2g.Iso.PowerDelivery.{PowerDeliveryReq, handle_iso_power_delivery}
use evse_test_system.V2g.Iso.Charging.{
  handle_iso_charging_status, handle_iso_metering_receipt, handle_iso_certificate_update,
  handle_iso_cable_check, handle_iso_pre_charge, handle_iso_welding_detection, Limits,
  CurrentDemandReq, handle_iso_current_demand,
}
use evse_test_system.V2g.Iso.Installation.{InstallationReq, handle_iso_certificate_installation}

-- The request messages, with what their handlers read of them.
pub data Request : Type 0 where
  session_setup_req : List ℕ → Request
  service_discovery_req : Option (List ℕ) → Request
  service_detail_req : ℕ → Request
  payment_service_selection_req : PaymentServiceSelectionReq → Request
  payment_details_req : PaymentDetailsReq → Request
  authorization_req : AuthorizationReq → Request
  charge_parameter_discovery_req : ChargeParameterDiscoveryReq → Request
  power_delivery_req : PowerDeliveryReq → Request
  charging_status_req metering_receipt_req certificate_update_req : Request
  certificate_installation_req : InstallationReq → Request
  cable_check_req pre_charge_req welding_detection_req : DcEvStatus → Request
  current_demand_req : CurrentDemandReq → Request
  session_stop_req : ChargingSession → Request
  unknown_req : Request

abbrev pub message_of : Request → V2gMsgTypeId
message_of (session_setup_req _) = session_setup_msg
message_of (service_discovery_req _) = service_discovery_msg
message_of (service_detail_req _) = service_detail_msg
message_of (payment_service_selection_req _) = payment_service_selection_msg
message_of (payment_details_req _) = payment_details_msg
message_of (authorization_req _) = authorization_msg
message_of (charge_parameter_discovery_req _) = charge_parameter_discovery_msg
message_of (power_delivery_req _) = power_delivery_msg
message_of charging_status_req = charging_status_msg
message_of metering_receipt_req = metering_receipt_msg
message_of certificate_update_req = certificate_update_msg
message_of (certificate_installation_req _) = certificate_installation_msg
message_of (cable_check_req _) = cable_check_msg
message_of (pre_charge_req _) = pre_charge_msg
message_of (welding_detection_req _) = welding_detection_msg
message_of (current_demand_req _) = current_demand_msg
message_of (session_stop_req _) = session_stop_msg
message_of unknown_req = unknown_msg

-- What a call gets from outside: the response that its initialisation leaves, the clock, random
-- numbers, the wake-ups of its waits, the functions that are arguments of the handlers, and the fuel.
pub record Outside : Type 0 where
  pub initial : Response
  pub now : ℕ
  pub random : RandomWords
  pub challenge : List ℕ
  pub wake_ups : List WakeUp
  pub exceeds : PhysicalValue → PhysicalValue → Bool
  pub limits : Limits
  pub decode : List ℕ → List ℕ
  pub fuel : ℕ

-- The session stop, on the part of the context that it changes.
unfoldable pub stop_session : ChargingSession → Server → Response → Outcome Reply
unfolding handle_iso_session_stop
stop_session request s r = elim (handle_iso_session_stop request s.stop) [
  | none ↦ undefined
  | some stopped ↦ returned (record {
    server = record s { stop = stopped.0.1 };
    response = set_code stopped.0.0 r;
    event = stopped.1;
  })
]

-- The handlers by their messages.
unfoldable pub dispatch : Outside → Request → Server → Outcome Reply
unfolding handle_iso_session_setup handle_iso_service_discovery handle_iso_service_detail
    handle_iso_payment_service_selection handle_iso_payment_details handle_iso_authorization
    handle_iso_charge_parameter_discovery handle_iso_power_delivery handle_iso_charging_status
    handle_iso_metering_receipt handle_iso_certificate_update handle_iso_certificate_installation
    handle_iso_cable_check handle_iso_pre_charge handle_iso_welding_detection
    handle_iso_current_demand stop_session
dispatch o (session_setup_req evccid) s = handle_iso_session_setup evccid o.random s o.initial
dispatch o (service_discovery_req scope) s = handle_iso_service_discovery scope s o.initial
dispatch o (service_detail_req id) s = handle_iso_service_detail id s o.initial
dispatch o (payment_service_selection_req req) s =
    handle_iso_payment_service_selection o.now req s o.initial
dispatch o (payment_details_req req) s =
    handle_iso_payment_details o.now o.challenge req s o.initial
dispatch o (authorization_req req) s = handle_iso_authorization o.now req s o.initial
dispatch o (charge_parameter_discovery_req req) s =
    handle_iso_charge_parameter_discovery req s o.initial
dispatch o (power_delivery_req req) s =
    handle_iso_power_delivery o.exceeds o.fuel o.wake_ups req s o.initial
dispatch o charging_status_req s = handle_iso_charging_status s o.initial
dispatch o metering_receipt_req s = handle_iso_metering_receipt s o.initial
dispatch o certificate_update_req s = handle_iso_certificate_update s o.initial
dispatch o (certificate_installation_req req) s =
    handle_iso_certificate_installation o.decode o.wake_ups req s o.initial
dispatch o (cable_check_req status) s = handle_iso_cable_check status s o.initial
dispatch o (pre_charge_req status) s = handle_iso_pre_charge status s o.initial
dispatch o (welding_detection_req status) s = handle_iso_welding_detection status s o.initial
dispatch o (current_demand_req req) s = handle_iso_current_demand o.limits req s o.initial
dispatch o (session_stop_req request) s = stop_session request s o.initial
dispatch o unknown_req s =
    returned (record { server = s; response = o.initial; event = ignore_msg })

abbrev follows : V2gMsgTypeId → Server → Bool
follows m s = msg_number s.stop.last_v2g_msg == msg_number m

-- What is published before the handler of a message.
abbrev announcement : V2gMsgTypeId → Server → List Published
announcement current_demand_msg s =
    if follows power_delivery_msg s then current_demand_started ∷ [] else []
announcement authorization_msg s =
    if not (follows authorization_msg s)
      && same_option s.iso_selected_payment_option external_payment
    then require_auth_eim ∷ []
    else []
announcement cable_check_msg s =
    if follows charge_parameter_discovery_msg s then start_cable_check ∷ [] else []
announcement pre_charge_msg s = if follows cable_check_msg s then start_pre_charge ∷ [] else []
announcement _ s = []

abbrev is_known : V2gMsgTypeId → Bool
is_known unknown_msg = false
is_known _ = true

abbrev is_demand : V2gMsgTypeId → Bool
is_demand current_demand_msg = true
is_demand _ = false

-- The context when the handler is called, for the session id in the header of the request.
unfoldable pub receive : ℕ → V2gMsgTypeId → Server → Server
receive id m s = record s {
  stop = record s.stop {
    iso = record s.stop.iso {
      received_session_id = id;
      current_v2g_msg = if is_known m then m else s.stop.iso.current_v2g_msg;
    };
  };
  is_charging = (is_demand m && follows power_delivery_msg s) || s.is_charging;
  published = s.published ++ announcement m s;
}

abbrev is_ignored : V2gEvent → Bool
is_ignored ignore_msg = true
is_ignored _ = false

-- The trace reads the description of the state from the table of the states, whatever the log level
-- is; then the handled message becomes the last one.
unfoldable pub conclude : Reply → Outcome Reply
conclude t =
    elim (get_elem? (if t.server.stop.iso.is_dc_charger then iso_dc_states else iso_ac_states)
      t.server.stop.iso.state) [
        | none ↦ undefined
        | some description ↦ returned (record t {
          server = record t.server {
            stop = record t.server.stop {
              last_v2g_msg =
                  if is_ignored t.event
                  then t.server.stop.last_v2g_msg
                  else t.server.stop.iso.current_v2g_msg;
            };
          };
        })
      ]

-- `id`: the session id in the header of the request.
unfoldable pub handle_request : Outside → ℕ → Request → Server → Outcome Reply
unfolding dispatch receive conclude
handle_request o id req s = dispatch o req (receive id (message_of req) s) >>= conclude
