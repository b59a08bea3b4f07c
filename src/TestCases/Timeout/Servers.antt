-- ===== src/TestCases/Timeout/Servers.antt =====
-- modules/EvseTestV2G/testcases/chn_session_setup_004.cpp and chn_current_demand_005.cpp: `DinTestServer` and
-- `Iso2TestServer`. `m` is the type that `find_req_message_type` finds, and `id` the session id in
-- the header.
use evse_test_system.Base.{ℕ, leb, ◌&&◌, ◌||◌, Bool, true, not, if◌then◌else◌}
use evse_test_system.V2g.Types.{
  V2gMsgTypeId, session_setup_msg, current_demand_msg, msg_number, terminate_connection,
}
use evse_test_system.V2g.Iso.Server.{Outcome, Server, Response}
use evse_test_system.V2g.Iso.Discovery.{RandomWords, handle_iso_session_setup}
use evse_test_system.V2g.Iso.PowerDelivery.{handle_iso_power_delivery}
use evse_test_system.V2g.Iso.Charging.{handle_iso_current_demand}
use evse_test_system.V2g.Iso.Request.{
  Request, session_setup_req, power_delivery_req, current_demand_req, session_stop_req, Outside,
  stop_session, dispatch, receive, conclude,
}
use evse_test_system.V2g.Din.Handlers.{handle_din_session_setup}
use evse_test_system.V2g.Din.Charging.{
  handle_din_power_delivery, handle_din_current_demand, handle_din_session_stop,
}
use evse_test_system.V2g.Din.Request.{
  DinRequest, din_session_setup_req, din_power_delivery_req, din_current_demand_req,
  din_session_stop_req, din_dispatch, din_receive, din_conclude,
}
use evse_test_system.TestCases.Common.{
  TestRun, Tested, add_error, is_stop, is_let_through, conclude_tested, untouched,
}
use evse_test_system.TestCases.PreCharge.Server.{Readings}
use evse_test_system.TestCases.Timeout.Close.{session_setup_004, current_demand_005, Timed}
use evse_test_system.TestCases.Timeout.Handlers.{
  handle_timed, handle_timed_stop, handle_reported_delivery, refuse_timed,
}

-- The overridden handlers of the test cases, and those of the servers that are left.
unfoldable pub din_dispatch_004 :
    Readings
    → RandomWords
    → Response
    → DinRequest
    → Timed
    → TestRun
    → Server
    → Outcome (Tested Timed)
unfolding handle_timed handle_timed_stop handle_din_session_setup handle_din_session_stop
    din_dispatch
din_dispatch_004 clock random r (din_session_setup_req evccid) t run s =
    handle_timed clock session_setup_004 session_setup_msg
      (handle_din_session_setup evccid random s r) t run
din_dispatch_004 clock random r din_session_stop_req t run s =
    handle_timed_stop clock (handle_din_session_stop s r) t run
din_dispatch_004 clock random r req t run s = untouched t run (din_dispatch random r req s)

unfoldable pub iso_dispatch_004 :
    Readings → Outside → Request → Timed → TestRun → Server → Outcome (Tested Timed)
unfolding handle_timed handle_timed_stop handle_iso_session_setup stop_session dispatch
iso_dispatch_004 clock o (session_setup_req evccid) t run s =
    handle_timed clock session_setup_004 session_setup_msg
      (handle_iso_session_setup evccid o.random s o.initial) t run
iso_dispatch_004 clock o (session_stop_req request) t run s =
    handle_timed_stop clock (stop_session request s o.initial) t run
iso_dispatch_004 clock o req t run s = untouched t run (dispatch o req s)

unfoldable pub din_dispatch_005 :
    Readings
    → RandomWords
    → Response
    → DinRequest
    → Timed
    → TestRun
    → Server
    → Outcome (Tested Timed)
unfolding handle_timed handle_timed_stop handle_reported_delivery handle_din_power_delivery
    handle_din_current_demand handle_din_session_stop din_dispatch
din_dispatch_005 clock random r (din_power_delivery_req req) t run s =
    handle_reported_delivery (handle_din_power_delivery req s r) t run
din_dispatch_005 clock random r (din_current_demand_req req) t run s =
    handle_timed clock current_demand_005 current_demand_msg (handle_din_current_demand req s r) t
      run
din_dispatch_005 clock random r din_session_stop_req t run s =
    handle_timed_stop clock (handle_din_session_stop s r) t run
din_dispatch_005 clock random r req t run s = untouched t run (din_dispatch random r req s)

unfoldable pub iso_dispatch_005 :
    Readings → Outside → Request → Timed → TestRun → Server → Outcome (Tested Timed)
unfolding handle_timed handle_timed_stop handle_reported_delivery handle_iso_power_delivery
    handle_iso_current_demand stop_session dispatch
iso_dispatch_005 clock o (power_delivery_req req) t run s =
    handle_reported_delivery (handle_iso_power_delivery o.exceeds o.fuel o.wake_ups req s o.initial)
      t run
iso_dispatch_005 clock o (current_demand_req req) t run s =
    handle_timed clock current_demand_005 current_demand_msg
      (handle_iso_current_demand o.limits req s o.initial) t run
iso_dispatch_005 clock o (session_stop_req request) t run s =
    handle_timed_stop clock (stop_session request s o.initial) t run
iso_dispatch_005 clock o req t run s = untouched t run (dispatch o req s)

unfoldable pub handle_din_request_004 :
    Readings
    → RandomWords
    → Response
    → ℕ
    → V2gMsgTypeId
    → DinRequest
    → Timed
    → TestRun
    → Server
    → Outcome (Tested Timed)
unfolding din_dispatch_004 din_receive din_conclude refuse_timed
handle_din_request_004 clock random r id m req t run s =
    if is_let_through session_setup_msg m
    then conclude_tested din_conclude
        (din_dispatch_004 clock random r req t run (din_receive id req s))
    else refuse_timed m t run (record { server = s; response = r; event = terminate_connection })

unfoldable pub handle_iso_request_004 :
    Readings
    → Outside
    → ℕ
    → V2gMsgTypeId
    → Request
    → Timed
    → TestRun
    → Server
    → Outcome (Tested Timed)
unfolding iso_dispatch_004 receive conclude refuse_timed
handle_iso_request_004 clock o id m req t run s =
    if is_let_through session_setup_msg m
    then conclude_tested conclude (iso_dispatch_004 clock o req t run (receive id m s))
    else refuse_timed m t run
        (record { server = s; response = o.initial; event = terminate_connection })

-- All messages up to the first current demand, and the stop.
abbrev pub is_let_through_005 : Timed → V2gMsgTypeId → Bool
is_let_through_005 t m =
    (leb (msg_number m) (msg_number current_demand_msg) && not t.request_received) || is_stop m

unfoldable pub handle_din_request_005 :
    Readings
    → RandomWords
    → Response
    → ℕ
    → V2gMsgTypeId
    → DinRequest
    → Timed
    → TestRun
    → Server
    → Outcome (Tested Timed)
unfolding din_dispatch_005 din_receive din_conclude refuse_timed
handle_din_request_005 clock random r id m req t run s =
    if is_let_through_005 t m
    then conclude_tested din_conclude
        (din_dispatch_005 clock random r req t run (din_receive id req s))
    else refuse_timed m t run (record { server = s; response = r; event = terminate_connection })

abbrev pub stop_hlc : Server → Server
stop_hlc s = record s { stop = record s.stop { iso = record s.stop.iso { stop_hlc = true } } }

-- An AC charger ends the session, with the handlers of the test case.
unfoldable pub handle_iso_request_005 :
    Readings
    → Outside
    → ℕ
    → V2gMsgTypeId
    → Request
    → Timed
    → TestRun
    → Server
    → Outcome (Tested Timed)
unfolding iso_dispatch_005 receive conclude refuse_timed
handle_iso_request_005 clock o id m req t run s =
    if not s.stop.iso.is_dc_charger
    then (if t.received_extra_request
        then conclude_tested conclude (iso_dispatch_005 clock o req t run (receive id m s))
        else conclude_tested conclude (
            iso_dispatch_005 clock o req (record t { received_extra_request = true })
              (add_error "AC charger does not support DC-only test" run)
              (receive id m (stop_hlc s))))
    else if is_let_through_005 t m
    then conclude_tested conclude (iso_dispatch_005 clock o req t run (receive id m s))
    else refuse_timed m t run
        (record { server = s; response = o.initial; event = terminate_connection })
