-- ===== src/TestCases/CableCheck/Servers.antt =====
-- modules/EvseTestV2G/testcases/chn_cable_check_006.cpp: `DinTestServer` and `Iso2TestServer`. `m` is the type that
-- `find_req_message_type` finds, and `id` the session id in the header.
use evse_test_system.Base.{ℕ, true, not, if◌then◌else◌}
use evse_test_system.V2g.Types.{V2gMsgTypeId, cable_check_msg, terminate_connection}
use evse_test_system.V2g.Iso.StateIds.{wait_for_cable_check}
use evse_test_system.V2g.Iso.Server.{Outcome, Server, Response}
use evse_test_system.V2g.Iso.Discovery.{RandomWords}
use evse_test_system.V2g.Iso.Parameters.{handle_iso_charge_parameter_discovery}
use evse_test_system.V2g.Iso.Charging.{handle_iso_cable_check}
use evse_test_system.V2g.Iso.Request.{
  Request, charge_parameter_discovery_req, cable_check_req, session_stop_req, Outside, stop_session,
  dispatch, receive, conclude,
}
use evse_test_system.V2g.Din.StateIds.{din_wait_for_cable_check}
use evse_test_system.V2g.Din.Handlers.{handle_din_charge_parameter}
use evse_test_system.V2g.Din.Charging.{handle_din_cable_check, handle_din_session_stop}
use evse_test_system.V2g.Din.Request.{
  DinRequest, din_charge_parameter_req, din_cable_check_req, din_session_stop_req, din_dispatch,
  din_receive, din_conclude,
}
use evse_test_system.TestCases.Common.{
  TestRun, Tested, add_error, is_let_through, conclude_tested, untouched,
}
use evse_test_system.TestCases.PreCharge.Server.{Readings}
use evse_test_system.TestCases.Timeout.Servers.{stop_hlc}
use evse_test_system.TestCases.CableCheck.State.{CableCheck}
use evse_test_system.TestCases.CableCheck.Handlers.{
  handle_cable_parameters, handle_cable_check, handle_cable_stop, refuse_cable_request,
}

-- The overridden handlers of the test case, and those of the servers that are left.
unfoldable pub din_cable_dispatch :
    Readings
    → RandomWords
    → Response
    → DinRequest
    → CableCheck
    → TestRun
    → Server
    → Outcome (Tested CableCheck)
unfolding handle_cable_parameters handle_cable_check handle_cable_stop handle_din_charge_parameter
    handle_din_cable_check handle_din_session_stop din_dispatch
din_cable_dispatch clock random r (din_charge_parameter_req req) t run s =
    handle_cable_parameters din_wait_for_cable_check clock (handle_din_charge_parameter req s r) t
      run
din_cable_dispatch clock random r (din_cable_check_req status) t run s =
    handle_cable_check din_wait_for_cable_check clock s.stop.last_v2g_msg
      (handle_din_cable_check status s r) t run
din_cable_dispatch clock random r din_session_stop_req t run s =
    handle_cable_stop clock (handle_din_session_stop s r) t run
din_cable_dispatch clock random r req t run s = untouched t run (din_dispatch random r req s)

unfoldable pub iso_cable_dispatch :
    Readings → Outside → Request → CableCheck → TestRun → Server → Outcome (Tested CableCheck)
unfolding handle_cable_parameters handle_cable_check handle_cable_stop
    handle_iso_charge_parameter_discovery handle_iso_cable_check stop_session dispatch
iso_cable_dispatch clock o (charge_parameter_discovery_req req) t run s =
    handle_cable_parameters wait_for_cable_check clock
      (handle_iso_charge_parameter_discovery req s o.initial) t run
iso_cable_dispatch clock o (cable_check_req status) t run s =
    handle_cable_check wait_for_cable_check clock s.stop.last_v2g_msg
      (handle_iso_cable_check status s o.initial) t run
iso_cable_dispatch clock o (session_stop_req request) t run s =
    handle_cable_stop clock (stop_session request s o.initial) t run
iso_cable_dispatch clock o req t run s = untouched t run (dispatch o req s)

unfoldable pub handle_din_cable_request :
    Readings
    → RandomWords
    → Response
    → ℕ
    → V2gMsgTypeId
    → DinRequest
    → CableCheck
    → TestRun
    → Server
    → Outcome (Tested CableCheck)
unfolding din_cable_dispatch din_receive din_conclude refuse_cable_request
handle_din_cable_request clock random r id m req t run s =
    if is_let_through cable_check_msg m
    then conclude_tested din_conclude
        (din_cable_dispatch clock random r req t run (din_receive id req s))
    else refuse_cable_request m t run
        (record { server = s; response = r; event = terminate_connection })

-- An AC charger ends the session, with the handlers of the test case.
unfoldable pub handle_iso_cable_request :
    Readings
    → Outside
    → ℕ
    → V2gMsgTypeId
    → Request
    → CableCheck
    → TestRun
    → Server
    → Outcome (Tested CableCheck)
unfolding iso_cable_dispatch receive conclude refuse_cable_request
handle_iso_cable_request clock o id m req t run s =
    if not s.stop.iso.is_dc_charger
    then (if t.received_extra_request
        then conclude_tested conclude (iso_cable_dispatch clock o req t run (receive id m s))
        else conclude_tested conclude (
            iso_cable_dispatch clock o req (record t { received_extra_request = true })
              (add_error "AC charger does not support DC-only test" run)
              (receive id m (stop_hlc s))))
    else if is_let_through cable_check_msg m
    then conclude_tested conclude (iso_cable_dispatch clock o req t run (receive id m s))
    else refuse_cable_request m t run
        (record { server = s; response = o.initial; event = terminate_connection })
