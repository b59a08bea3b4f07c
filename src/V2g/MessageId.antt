-- ===== src/V2g/MessageId.antt =====
-- The translations of a message type into the id that is published or reported: the one of
-- modules/EvseTestV2G/v2g_server.cpp, and the four of modules/EvseTestV2G/testcase.cpp.
use evse_test_system.Base.{◌≡◌, Bool, true, false, if◌then◌else◌, arith}
use evse_test_system.V2g.Types.{
  Protocol, is_din, V2gMsgTypeId, supported_app_protocol_msg, session_setup_msg,
  service_discovery_msg, service_detail_msg, payment_service_selection_msg, payment_details_msg,
  authorization_msg, charge_parameter_discovery_msg, metering_receipt_msg, certificate_update_msg,
  certificate_installation_msg, charging_status_msg, cable_check_msg, pre_charge_msg,
  power_delivery_msg, current_demand_msg, welding_detection_msg, session_stop_msg, unknown_msg,
  V2gMessageId, supported_app_protocol_req, supported_app_protocol_res, session_setup_req,
  session_setup_res, service_discovery_req, service_discovery_res, service_detail_req,
  service_detail_res, payment_service_selection_req, payment_service_selection_res,
  payment_details_req, payment_details_res, authorization_req, authorization_res,
  charge_parameter_discovery_req, charge_parameter_discovery_res, metering_receipt_req,
  metering_receipt_res, certificate_update_req, certificate_update_res,
  certificate_installation_req, certificate_installation_res, charging_status_req,
  charging_status_res, cable_check_req, cable_check_res, pre_charge_req, pre_charge_res,
  power_delivery_req, power_delivery_res, current_demand_req, current_demand_res,
  welding_detection_req, welding_detection_res, session_stop_req, session_stop_res,
  service_payment_selection_req, service_payment_selection_res, contract_authentication_req,
  contract_authentication_res, unknown_message,
}

-- get_v2g_message_id
unfoldable pub get_v2g_message_id : V2gMsgTypeId → Protocol → Bool → V2gMessageId
get_v2g_message_id supported_app_protocol_msg p is_req =
    if is_req then supported_app_protocol_req else supported_app_protocol_res
get_v2g_message_id session_setup_msg p is_req =
    if is_req then session_setup_req else session_setup_res
get_v2g_message_id service_discovery_msg p is_req =
    if is_req then service_discovery_req else service_discovery_res
get_v2g_message_id service_detail_msg p is_req =
    if is_req then service_detail_req else service_detail_res
get_v2g_message_id payment_service_selection_msg p is_req =
    if is_req
    then if is_din p then service_payment_selection_req else payment_service_selection_req
    else if is_din p
    then service_payment_selection_res
    else payment_service_selection_res
get_v2g_message_id payment_details_msg p is_req =
    if is_req then payment_details_req else payment_details_res
get_v2g_message_id authorization_msg p is_req =
    if is_req
    then if is_din p then contract_authentication_req else authorization_req
    else if is_din p
    then contract_authentication_res
    else authorization_res
get_v2g_message_id charge_parameter_discovery_msg p is_req =
    if is_req then charge_parameter_discovery_req else charge_parameter_discovery_res
get_v2g_message_id metering_receipt_msg p is_req =
    if is_req then metering_receipt_req else metering_receipt_res
get_v2g_message_id certificate_update_msg p is_req =
    if is_req then certificate_update_req else certificate_update_res
get_v2g_message_id certificate_installation_msg p is_req =
    if is_req then certificate_installation_req else certificate_installation_res
get_v2g_message_id charging_status_msg p is_req =
    if is_req then charging_status_req else charging_status_res
get_v2g_message_id cable_check_msg p is_req = if is_req then cable_check_req else cable_check_res
get_v2g_message_id pre_charge_msg p is_req = if is_req then pre_charge_req else pre_charge_res
get_v2g_message_id power_delivery_msg p is_req =
    if is_req then power_delivery_req else power_delivery_res
get_v2g_message_id current_demand_msg p is_req =
    if is_req then current_demand_req else current_demand_res
get_v2g_message_id welding_detection_msg p is_req =
    if is_req then welding_detection_req else welding_detection_res
get_v2g_message_id session_stop_msg p is_req = if is_req then session_stop_req else session_stop_res
get_v2g_message_id unknown_msg p is_req = unknown_message

-- get_din_request_id
unfoldable pub get_din_request_id : V2gMsgTypeId → V2gMessageId
get_din_request_id supported_app_protocol_msg = supported_app_protocol_req
get_din_request_id session_setup_msg = session_setup_req
get_din_request_id service_discovery_msg = service_discovery_req
get_din_request_id service_detail_msg = service_detail_req
get_din_request_id payment_service_selection_msg = service_payment_selection_req
get_din_request_id payment_details_msg = payment_details_req
get_din_request_id authorization_msg = contract_authentication_req
get_din_request_id charge_parameter_discovery_msg = charge_parameter_discovery_req
get_din_request_id metering_receipt_msg = metering_receipt_req
get_din_request_id certificate_update_msg = certificate_update_req
get_din_request_id certificate_installation_msg = certificate_installation_req
get_din_request_id charging_status_msg = charging_status_req
get_din_request_id cable_check_msg = cable_check_req
get_din_request_id pre_charge_msg = pre_charge_req
get_din_request_id power_delivery_msg = power_delivery_req
get_din_request_id current_demand_msg = current_demand_req
get_din_request_id welding_detection_msg = welding_detection_req
get_din_request_id session_stop_msg = session_stop_req
get_din_request_id unknown_msg = unknown_message

-- get_din_response_id
unfoldable pub get_din_response_id : V2gMsgTypeId → V2gMessageId
get_din_response_id supported_app_protocol_msg = supported_app_protocol_res
get_din_response_id session_setup_msg = session_setup_res
get_din_response_id service_discovery_msg = service_discovery_res
get_din_response_id service_detail_msg = service_detail_res
get_din_response_id payment_service_selection_msg = service_payment_selection_res
get_din_response_id payment_details_msg = payment_details_res
get_din_response_id authorization_msg = contract_authentication_res
get_din_response_id charge_parameter_discovery_msg = charge_parameter_discovery_res
get_din_response_id metering_receipt_msg = metering_receipt_res
get_din_response_id certificate_update_msg = certificate_update_res
get_din_response_id certificate_installation_msg = certificate_installation_res
get_din_response_id charging_status_msg = charging_status_res
get_din_response_id cable_check_msg = cable_check_res
get_din_response_id pre_charge_msg = pre_charge_res
get_din_response_id power_delivery_msg = power_delivery_res
get_din_response_id current_demand_msg = current_demand_res
get_din_response_id welding_detection_msg = welding_detection_res
get_din_response_id session_stop_msg = session_stop_res
get_din_response_id unknown_msg = unknown_message

-- get_iso2_request_id
unfoldable pub get_iso2_request_id : V2gMsgTypeId → V2gMessageId
get_iso2_request_id supported_app_protocol_msg = supported_app_protocol_req
get_iso2_request_id session_setup_msg = session_setup_req
get_iso2_request_id service_discovery_msg = service_discovery_req
get_iso2_request_id service_detail_msg = service_detail_req
get_iso2_request_id payment_service_selection_msg = payment_service_selection_req
get_iso2_request_id payment_details_msg = payment_details_req
get_iso2_request_id authorization_msg = authorization_req
get_iso2_request_id charge_parameter_discovery_msg = charge_parameter_discovery_req
get_iso2_request_id metering_receipt_msg = metering_receipt_req
get_iso2_request_id certificate_update_msg = certificate_update_req
get_iso2_request_id certificate_installation_msg = certificate_installation_req
get_iso2_request_id charging_status_msg = charging_status_req
get_iso2_request_id cable_check_msg = cable_check_req
get_iso2_request_id pre_charge_msg = pre_charge_req
get_iso2_request_id power_delivery_msg = power_delivery_req
get_iso2_request_id current_demand_msg = current_demand_req
get_iso2_request_id welding_detection_msg = welding_detection_req
get_iso2_request_id session_stop_msg = session_stop_req
get_iso2_request_id unknown_msg = unknown_message

-- get_iso2_response_id
unfoldable pub get_iso2_response_id : V2gMsgTypeId → V2gMessageId
get_iso2_response_id supported_app_protocol_msg = supported_app_protocol_res
get_iso2_response_id session_setup_msg = session_setup_res
get_iso2_response_id service_discovery_msg = service_discovery_res
get_iso2_response_id service_detail_msg = service_detail_res
get_iso2_response_id payment_service_selection_msg = payment_service_selection_res
get_iso2_response_id payment_details_msg = payment_details_res
get_iso2_response_id authorization_msg = authorization_res
get_iso2_response_id charge_parameter_discovery_msg = charge_parameter_discovery_res
get_iso2_response_id metering_receipt_msg = metering_receipt_res
get_iso2_response_id certificate_update_msg = certificate_update_res
get_iso2_response_id certificate_installation_msg = certificate_installation_res
get_iso2_response_id charging_status_msg = charging_status_res
get_iso2_response_id cable_check_msg = cable_check_res
get_iso2_response_id pre_charge_msg = pre_charge_res
get_iso2_response_id power_delivery_msg = power_delivery_res
get_iso2_response_id current_demand_msg = current_demand_res
get_iso2_response_id welding_detection_msg = welding_detection_res
get_iso2_response_id session_stop_msg = session_stop_res
get_iso2_response_id unknown_msg = unknown_message

-- What is published under DIN 70121 has the ids of the DIN reports, and what is published under any
-- other protocol has those of the ISO 15118-2 reports, for requests and for responses.
get_v2g_message_id-report :
    (m : V2gMsgTypeId) (p : Protocol)
    → (get_v2g_message_id m p true
        ≡ (if is_din p then get_din_request_id m else get_iso2_request_id m))
      × (get_v2g_message_id m p false
          ≡ (if is_din p then get_din_response_id m else get_iso2_response_id m))
unfolding get_v2g_message_id get_din_request_id get_din_response_id get_iso2_request_id
    get_iso2_response_id
get_v2g_message_id-report unknown_msg p = ground arith
get_v2g_message_id-report m p = ground arith
