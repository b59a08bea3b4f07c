-- ===== src/V2g/Types.antt =====
-- The enumerations of modules/EvseTestV2G/v2g.hpp, and the message ids of the ISO 15118 interface.
use evse_test_system.Base.{ℕ, Bool, true, false}

-- enum v2g_event
pub data V2gEvent : Type 0 where
  no_event terminate_connection send_and_terminate send_recv_exi_msg ignore_msg : V2gEvent

-- enum v2g_protocol
pub data Protocol : Type 0 where
  proto_din70121 proto_iso15118_2010 proto_iso15118_2013 proto_iso15118_2015 : Protocol
  unknown_protocol : Protocol

abbrev pub protocol_number : Protocol → ℕ
protocol_number proto_din70121 = 0
protocol_number proto_iso15118_2010 = 1
protocol_number proto_iso15118_2013 = 2
protocol_number proto_iso15118_2015 = 3
protocol_number unknown_protocol = 4

abbrev pub is_din : Protocol → Bool
is_din proto_din70121 = true
is_din _ = false

-- enum V2gMsgTypeId
pub data V2gMsgTypeId : Type 0 where
  supported_app_protocol_msg session_setup_msg service_discovery_msg : V2gMsgTypeId
  service_detail_msg payment_service_selection_msg payment_details_msg : V2gMsgTypeId
  authorization_msg charge_parameter_discovery_msg metering_receipt_msg : V2gMsgTypeId
  certificate_update_msg certificate_installation_msg charging_status_msg : V2gMsgTypeId
  cable_check_msg pre_charge_msg power_delivery_msg current_demand_msg : V2gMsgTypeId
  welding_detection_msg session_stop_msg unknown_msg : V2gMsgTypeId

abbrev pub msg_number : V2gMsgTypeId → ℕ
msg_number supported_app_protocol_msg = 0
msg_number session_setup_msg = 1
msg_number service_discovery_msg = 2
msg_number service_detail_msg = 3
msg_number payment_service_selection_msg = 4
msg_number payment_details_msg = 5
msg_number authorization_msg = 6
msg_number charge_parameter_discovery_msg = 7
msg_number metering_receipt_msg = 8
msg_number certificate_update_msg = 9
msg_number certificate_installation_msg = 10
msg_number charging_status_msg = 11
msg_number cable_check_msg = 12
msg_number pre_charge_msg = 13
msg_number power_delivery_msg = 14
msg_number current_demand_msg = 15
msg_number welding_detection_msg = 16
msg_number session_stop_msg = 17
msg_number unknown_msg = 18

pub V2gMsgTypeId-discrete : Discrete V2gMsgTypeId
V2gMsgTypeId-discrete = hlevel

-- V2gMessageId: the ids that these functions return. ServicePaymentSelection and
-- ContractAuthentication are the names that DIN 70121 gives to PaymentServiceSelection and
-- Authorization.
pub data V2gMessageId : Type 0 where
  supported_app_protocol_req supported_app_protocol_res session_setup_req : V2gMessageId
  session_setup_res service_discovery_req service_discovery_res service_detail_req : V2gMessageId
  service_detail_res payment_service_selection_req payment_service_selection_res : V2gMessageId
  payment_details_req payment_details_res authorization_req authorization_res : V2gMessageId
  charge_parameter_discovery_req charge_parameter_discovery_res : V2gMessageId
  metering_receipt_req metering_receipt_res certificate_update_req : V2gMessageId
  certificate_update_res certificate_installation_req certificate_installation_res : V2gMessageId
  charging_status_req charging_status_res cable_check_req cable_check_res : V2gMessageId
  pre_charge_req pre_charge_res power_delivery_req power_delivery_res : V2gMessageId
  current_demand_req current_demand_res welding_detection_req welding_detection_res : V2gMessageId
  session_stop_req session_stop_res service_payment_selection_req : V2gMessageId
  service_payment_selection_res contract_authentication_req : V2gMessageId
  contract_authentication_res unknown_message : V2gMessageId
