-- ===== src/V2g/Iso/Diagram.antt =====
-- The sequence of the messages of a DC session after ISO 15118-2, as a diagram of phases that knows nothing
-- of numbered states, masks or handlers. It is what modules/EvseTestV2G/server/iso_server.cpp is to implement.
use evse_test_system.Base.{Bool, true, false}
use evse_test_system.V2g.Types.{
  V2gMsgTypeId, session_setup_msg, service_discovery_msg, service_detail_msg,
  payment_service_selection_msg, payment_details_msg, authorization_msg,
  charge_parameter_discovery_msg, metering_receipt_msg, certificate_installation_msg,
  cable_check_msg, pre_charge_msg, power_delivery_msg, current_demand_msg, welding_detection_msg,
  session_stop_msg,
}

-- The phases, by the requests that are waited for.
pub data Phase : Type 0 where
  setup discovery selection details_or_certificate details : Phase
  authorization parameters cable_check pre_charge pre_charge_or_delivery : Phase
  demand_or_delivery demand receipt welding_or_stop terminated : Phase

-- The phases in which the vehicle may stop the session.
abbrev pub is_stoppable : Phase → Bool
is_stoppable setup = false
is_stoppable demand_or_delivery = false
is_stoppable demand = false
is_stoppable receipt = false
is_stoppable terminated = false
is_stoppable _ = true

-- The phase after an accepted request. A session stop pauses or terminates the session.
abbrev pub can_step : Phase → V2gMsgTypeId → Phase → Bool
can_step setup session_setup_msg discovery = true
can_step discovery service_discovery_msg selection = true
can_step selection service_detail_msg selection = true
can_step selection payment_service_selection_msg details_or_certificate = true
can_step selection payment_service_selection_msg authorization = true
can_step details_or_certificate payment_details_msg authorization = true
can_step details_or_certificate certificate_installation_msg details = true
can_step details_or_certificate authorization_msg authorization = true
can_step details_or_certificate authorization_msg parameters = true
can_step details payment_details_msg authorization = true
can_step authorization authorization_msg authorization = true
can_step authorization authorization_msg parameters = true
can_step parameters charge_parameter_discovery_msg parameters = true
can_step parameters charge_parameter_discovery_msg cable_check = true
can_step cable_check cable_check_msg cable_check = true
can_step cable_check cable_check_msg pre_charge = true
can_step pre_charge pre_charge_msg pre_charge_or_delivery = true
can_step pre_charge_or_delivery pre_charge_msg pre_charge_or_delivery = true
can_step pre_charge_or_delivery power_delivery_msg parameters = true
can_step pre_charge_or_delivery power_delivery_msg demand = true
can_step pre_charge_or_delivery power_delivery_msg welding_or_stop = true
can_step demand_or_delivery power_delivery_msg parameters = true
can_step demand_or_delivery power_delivery_msg demand = true
can_step demand_or_delivery power_delivery_msg welding_or_stop = true
can_step demand_or_delivery current_demand_msg demand_or_delivery = true
can_step demand_or_delivery current_demand_msg receipt = true
can_step demand current_demand_msg demand_or_delivery = true
can_step demand current_demand_msg receipt = true
can_step receipt metering_receipt_msg demand_or_delivery = true
can_step welding_or_stop welding_detection_msg welding_or_stop = true
can_step p session_stop_msg setup = is_stoppable p
can_step p session_stop_msg terminated = is_stoppable p
can_step _ _ _ = false
