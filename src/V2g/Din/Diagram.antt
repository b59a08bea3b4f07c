-- ===== src/V2g/Din/Diagram.antt =====
-- The sequence of the messages of a session after DIN 70121, as a diagram of phases that knows nothing of
-- numbered states, masks or handlers.
use evse_test_system.Base.{Bool, true, false}
use evse_test_system.V2g.Types.{
  V2gMsgTypeId, session_setup_msg, service_discovery_msg, payment_service_selection_msg,
  authorization_msg, charge_parameter_discovery_msg, cable_check_msg, pre_charge_msg,
  power_delivery_msg, current_demand_msg, welding_detection_msg, session_stop_msg,
}

-- The phases, by the requests that are waited for.
pub data DinPhase : Type 0 where
  din_setup din_discovery din_selection din_authorization din_parameters : DinPhase
  din_cable_check din_pre_charge din_pre_charge_or_delivery din_demand : DinPhase
  din_demand_or_delivery din_welding_or_stop din_stop din_terminated : DinPhase

-- The phases in which the vehicle may stop the session.
abbrev pub is_din_stoppable : DinPhase → Bool
is_din_stoppable din_setup = false
is_din_stoppable din_demand = false
is_din_stoppable din_demand_or_delivery = false
is_din_stoppable din_terminated = false
is_din_stoppable _ = true

-- The phase after an accepted request.
abbrev pub can_din_step : DinPhase → V2gMsgTypeId → DinPhase → Bool
can_din_step din_setup session_setup_msg din_discovery = true
can_din_step din_discovery service_discovery_msg din_selection = true
can_din_step din_selection payment_service_selection_msg din_authorization = true
can_din_step din_authorization authorization_msg din_authorization = true
can_din_step din_authorization authorization_msg din_parameters = true
can_din_step din_parameters charge_parameter_discovery_msg din_parameters = true
can_din_step din_parameters charge_parameter_discovery_msg din_cable_check = true
can_din_step din_cable_check cable_check_msg din_cable_check = true
can_din_step din_cable_check cable_check_msg din_pre_charge = true
can_din_step din_pre_charge pre_charge_msg din_pre_charge_or_delivery = true
can_din_step din_pre_charge_or_delivery pre_charge_msg din_pre_charge_or_delivery = true
can_din_step din_pre_charge_or_delivery power_delivery_msg din_demand = true
can_din_step din_pre_charge_or_delivery power_delivery_msg din_welding_or_stop = true
can_din_step din_demand current_demand_msg din_demand_or_delivery = true
can_din_step din_demand_or_delivery current_demand_msg din_demand_or_delivery = true
can_din_step din_demand_or_delivery power_delivery_msg din_demand = true
can_din_step din_demand_or_delivery power_delivery_msg din_welding_or_stop = true
can_din_step din_welding_or_stop welding_detection_msg din_welding_or_stop = true
can_din_step p session_stop_msg din_terminated = is_din_stoppable p
can_din_step _ _ _ = false
