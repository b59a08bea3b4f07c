-- ===== src/V2g/Iso/StateIds.antt =====
-- modules/EvseTestV2G/server/iso_server.hpp: the numbers of `iso_dc_state_id` and, where they are used, of
-- `iso_ac_state_id`.
use evse_test_system.Base.{ℕ}

abbrev pub wait_for_session_setup : ℕ
wait_for_session_setup = 0

abbrev pub wait_for_service_discovery : ℕ
wait_for_service_discovery = 1

abbrev pub wait_for_payment_service_selection : ℕ
wait_for_payment_service_selection = 2

abbrev pub wait_for_payment_details_or_certificate : ℕ
wait_for_payment_details_or_certificate = 3

abbrev pub wait_for_payment_details : ℕ
wait_for_payment_details = 4

abbrev pub wait_for_authorization : ℕ
wait_for_authorization = 5

abbrev pub wait_for_charge_parameter_discovery : ℕ
wait_for_charge_parameter_discovery = 6

abbrev pub wait_for_cable_check : ℕ
wait_for_cable_check = 7

abbrev pub wait_for_pre_charge : ℕ
wait_for_pre_charge = 8

abbrev pub wait_for_pre_charge_or_power_delivery : ℕ
wait_for_pre_charge_or_power_delivery = 9

abbrev pub wait_for_current_demand_or_power_delivery : ℕ
wait_for_current_demand_or_power_delivery = 10

abbrev pub wait_for_current_demand : ℕ
wait_for_current_demand = 11

abbrev pub wait_for_metering_receipt : ℕ
wait_for_metering_receipt = 12

abbrev pub wait_for_welding_detection_or_session_stop : ℕ
wait_for_welding_detection_or_session_stop = 13

abbrev pub ac_wait_for_power_delivery : ℕ
ac_wait_for_power_delivery = 7

abbrev pub ac_wait_for_charging_status : ℕ
ac_wait_for_charging_status = 8

abbrev pub ac_wait_for_charging_status_or_power_delivery : ℕ
ac_wait_for_charging_status_or_power_delivery = 9

abbrev pub ac_wait_for_metering_receipt : ℕ
ac_wait_for_metering_receipt = 10

abbrev pub ac_wait_for_session_stop : ℕ
ac_wait_for_session_stop = 11
