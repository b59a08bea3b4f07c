-- ===== src/TestCases/Scheduling/Servers.antt =====
-- modules/EvseTestV2G/testcases/chx_smart_charging_scheduling_base.cpp: DinSmartChargeScheduleTest and
-- Iso2SmartChargeScheduleTest as servers, which handle their own messages and leave the others to
-- the servers of DIN 70121 and ISO 15118-2.
use evse_test_system.Base.{ℕ}
use evse_test_system.Base.Int.{ℤ}
use evse_test_system.V2g.Iso.States.{iso_validate_response_code}
use evse_test_system.V2g.Iso.Server.{Outcome, Server, Response, PhysicalValue}
use evse_test_system.V2g.Iso.Discovery.{RandomWords}
use evse_test_system.V2g.Iso.PowerDelivery.{is_start}
use evse_test_system.V2g.Iso.Request.{
  Request, charge_parameter_discovery_req, power_delivery_req, charging_status_req,
  current_demand_req, session_stop_req, Outside, message_of, dispatch, receive, conclude,
}
use evse_test_system.V2g.Din.States.{din_validate_response_code}
use evse_test_system.V2g.Din.Request.{
  DinRequest, din_charge_parameter_req, din_power_delivery_req, din_current_demand_req,
  din_session_stop_req, din_dispatch, din_receive, din_conclude,
}
use evse_test_system.TestCases.Common.{TestRun, Tested, conclude_tested, untouched}
use evse_test_system.TestCases.Scheduling.State.{Scheduling}
use evse_test_system.TestCases.Scheduling.Tests.{
  Share, SchedulingTest, set_din_scheduled_power, set_iso_scheduled_power,
}
use evse_test_system.TestCases.Scheduling.Handlers.{
  PowerLimits, get_maximum_power_limit, handle_charge_parameter, handle_power_delivery,
  handle_current_demand, handle_charging_status, handle_scheduling_stop,
}

-- What a test case gets from outside: the monotonic clock in milliseconds, and the limits in the
-- charge parameters; the products of `calc_physical_value`, which are computed in floating point, as
-- numbers of microwatts; and the test case that it is.
pub record TestCall : Type 0 where
  pub monotonic_time : ℕ
  pub power_limits : PowerLimits
  pub scaled : Share → ℤ → ℤ
  pub target_power : PhysicalValue → PhysicalValue → ℤ
  pub test_case : SchedulingTest

unfoldable pub din_scheduling_dispatch :
    TestCall
    → RandomWords
    → Response
    → DinRequest
    → Scheduling
    → TestRun
    → Server
    → Outcome (Tested Scheduling)
unfolding handle_charge_parameter handle_power_delivery handle_current_demand handle_scheduling_stop
    get_maximum_power_limit set_din_scheduled_power din_validate_response_code din_dispatch
din_scheduling_dispatch c random r (din_charge_parameter_req req) t run s =
    handle_charge_parameter din_validate_response_code c.monotonic_time
      (set_din_scheduled_power c.scaled c.test_case (get_maximum_power_limit c.power_limits))
      (din_dispatch random r (din_charge_parameter_req req) s) t run
din_scheduling_dispatch c random r (din_power_delivery_req req) t run s =
    handle_power_delivery c.monotonic_time req.is_ready_to_charge
      (din_dispatch random r (din_power_delivery_req req) s) t run
din_scheduling_dispatch c random r (din_current_demand_req req) t run s =
    handle_current_demand c.monotonic_time
      (c.target_power req.ev_target_current req.ev_target_voltage) req.demand_status
      (din_dispatch random r (din_current_demand_req req) s) t run
din_scheduling_dispatch c random r din_session_stop_req t run s =
    handle_scheduling_stop (din_dispatch random r din_session_stop_req s) t run
din_scheduling_dispatch c random r req t run s = untouched t run (din_dispatch random r req s)

unfoldable pub iso_scheduling_dispatch :
    TestCall → Outside → Request → Scheduling → TestRun → Server → Outcome (Tested Scheduling)
unfolding handle_charge_parameter handle_power_delivery handle_current_demand handle_charging_status
    handle_scheduling_stop get_maximum_power_limit set_iso_scheduled_power
    iso_validate_response_code dispatch
iso_scheduling_dispatch c o (charge_parameter_discovery_req req) t run s =
    handle_charge_parameter iso_validate_response_code c.monotonic_time
      (set_iso_scheduled_power c.test_case (get_maximum_power_limit c.power_limits))
      (dispatch o (charge_parameter_discovery_req req) s) t run
iso_scheduling_dispatch c o (power_delivery_req req) t run s =
    handle_power_delivery c.monotonic_time (is_start req.progress)
      (dispatch o (power_delivery_req req) s) t run
iso_scheduling_dispatch c o charging_status_req t run s =
    handle_charging_status c.monotonic_time (dispatch o charging_status_req s) t run
iso_scheduling_dispatch c o (current_demand_req req) t run s =
    handle_current_demand c.monotonic_time
      (c.target_power req.ev_target_current req.ev_target_voltage) req.demand_status
      (dispatch o (current_demand_req req) s) t run
iso_scheduling_dispatch c o (session_stop_req request) t run s =
    handle_scheduling_stop (dispatch o (session_stop_req request) s) t run
iso_scheduling_dispatch c o req t run s = untouched t run (dispatch o req s)

-- `handle_request` of the two servers, with the handlers of the test case.
unfoldable pub handle_din_scheduling_request :
    TestCall
    → RandomWords
    → Response
    → ℕ
    → DinRequest
    → Scheduling
    → TestRun
    → Server
    → Outcome (Tested Scheduling)
unfolding din_scheduling_dispatch din_receive din_conclude
handle_din_scheduling_request c random r id req t run s =
    conclude_tested din_conclude
      (din_scheduling_dispatch c random r req t run (din_receive id req s))

unfoldable pub handle_iso_scheduling_request :
    TestCall → Outside → ℕ → Request → Scheduling → TestRun → Server → Outcome (Tested Scheduling)
unfolding iso_scheduling_dispatch receive conclude
handle_iso_scheduling_request c o id req t run s =
    conclude_tested conclude (iso_scheduling_dispatch c o req t run (receive id (message_of req) s))
