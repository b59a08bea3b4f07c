-- ===== src/V2g/Din/StateIds.antt =====
-- modules/EvseTestV2G/server/din_server.hpp: the numbers of `din_state_id`.
use evse_test_system.Base.{ℕ}

abbrev pub din_wait_for_service_discovery : ℕ
din_wait_for_service_discovery = 1

abbrev pub din_wait_for_payment_service_selection : ℕ
din_wait_for_payment_service_selection = 2

abbrev pub din_wait_for_authorization : ℕ
din_wait_for_authorization = 3

abbrev pub din_wait_for_charge_parameter_discovery : ℕ
din_wait_for_charge_parameter_discovery = 4

abbrev pub din_wait_for_cable_check : ℕ
din_wait_for_cable_check = 5

abbrev pub din_wait_for_pre_charge : ℕ
din_wait_for_pre_charge = 6

abbrev pub din_wait_for_pre_charge_or_power_delivery : ℕ
din_wait_for_pre_charge_or_power_delivery = 7

abbrev pub din_wait_for_current_demand : ℕ
din_wait_for_current_demand = 8

abbrev pub din_wait_for_current_demand_or_power_delivery : ℕ
din_wait_for_current_demand_or_power_delivery = 9

abbrev pub din_wait_for_welding_detection_or_session_stop : ℕ
din_wait_for_welding_detection_or_session_stop = 10

abbrev pub din_wait_for_terminated_session : ℕ
din_wait_for_terminated_session = 12
