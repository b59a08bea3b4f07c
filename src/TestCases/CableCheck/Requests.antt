-- ===== src/TestCases/CableCheck/Requests.antt =====
-- modules/EvseTestV2G/testcases/chn_cable_check_006.cpp: what every request of both protocols keeps of the times.
use mathlib.Core.Path.{subst}
use evse_test_system.Base.{ℕ, ◌≡◌, true, not, arith}
use evse_test_system.V2g.Types.{V2gMsgTypeId, cable_check_msg, terminate_connection}
use evse_test_system.V2g.Iso.StateIds.{wait_for_cable_check}
use evse_test_system.V2g.Iso.Server.{Outcome, returned, Server, Response, Reply}
use evse_test_system.V2g.Iso.Discovery.{RandomWords}
use evse_test_system.V2g.Iso.Parameters.{handle_iso_charge_parameter_discovery}
use evse_test_system.V2g.Iso.Charging.{handle_iso_cable_check}
use evse_test_system.V2g.Iso.Request.{
  Request, charge_parameter_discovery_req, cable_check_req, session_stop_req, Outside, stop_session,
  dispatch, receive, conclude,
}
use evse_test_system.V2g.Din.StateIds.{din_wait_for_cable_check}
use evse_test_system.V2g.Din.Handlers.{handle_din_charge_parameter}
use evse_test_system.V2g.Din.Charging.{handle_din_cable_check, handle_din_session_stop}
use evse_test_system.V2g.Din.Request.{
  DinRequest, din_charge_parameter_req, din_cable_check_req, din_session_stop_req, din_dispatch,
  din_receive, din_conclude,
}
use evse_test_system.TestCases.Common.{
  TestRun, Tested, add_error, is_let_through, conclude_tested, conclude_tested-test, branches,
}
use evse_test_system.TestCases.PreCharge.Server.{Readings}
use evse_test_system.TestCases.Timeout.Servers.{stop_hlc}
use evse_test_system.TestCases.CableCheck.State.{CableCheck}
use evse_test_system.TestCases.CableCheck.Handlers.{refuse_cable_request}
use evse_test_system.TestCases.CableCheck.Servers.{
  din_cable_dispatch, iso_cable_dispatch, handle_din_cable_request, handle_iso_cable_request,
}
use evse_test_system.TestCases.CableCheck.Tracking.{
  IsTracked, IsAfter, check-IsTracked, parameters-IsTracked, stop-IsTracked, untouched-IsTracked,
}

din_dispatch-IsTracked :
    {now : ℕ} (clock : Readings) (random : RandomWords) (r : Response) (req : DinRequest)
    (t : CableCheck) (run : TestRun) (s : Server) (x : Tested CableCheck)
    → din_cable_dispatch clock random r req t run s ≡ returned x
    → IsAfter now clock
    → IsTracked now t
    → IsTracked clock.answered_at x.test
unfolding din_cable_dispatch
din_dispatch-IsTracked clock random r (din_charge_parameter_req req) t run s x h a k =
    parameters-IsTracked din_wait_for_cable_check clock (handle_din_charge_parameter req s r) t run
      x h a k
din_dispatch-IsTracked clock random r (din_cable_check_req status) t run s x h a k =
    check-IsTracked din_wait_for_cable_check clock s.stop.last_v2g_msg
      (handle_din_cable_check status s r) t run x h a k
din_dispatch-IsTracked clock random r din_session_stop_req t run s x h a k =
    stop-IsTracked clock (handle_din_session_stop s r) t run x h a k
din_dispatch-IsTracked clock random r req t run s x h a k =
    untouched-IsTracked clock t run (din_dispatch random r req s) x h a k

iso_dispatch-IsTracked :
    {now : ℕ} (clock : Readings) (o : Outside) (req : Request) (t : CableCheck) (run : TestRun)
    (s : Server) (x : Tested CableCheck)
    → iso_cable_dispatch clock o req t run s ≡ returned x
    → IsAfter now clock
    → IsTracked now t
    → IsTracked clock.answered_at x.test
unfolding iso_cable_dispatch
iso_dispatch-IsTracked clock o (charge_parameter_discovery_req req) t run s x h a k =
    parameters-IsTracked wait_for_cable_check clock
      (handle_iso_charge_parameter_discovery req s o.initial) t run x h a k
iso_dispatch-IsTracked clock o (cable_check_req status) t run s x h a k =
    check-IsTracked wait_for_cable_check clock s.stop.last_v2g_msg
      (handle_iso_cable_check status s o.initial) t run x h a k
iso_dispatch-IsTracked clock o (session_stop_req request) t run s x h a k =
    stop-IsTracked clock (stop_session request s o.initial) t run x h a k
iso_dispatch-IsTracked clock o req t run s x h a k =
    untouched-IsTracked clock t run (dispatch o req s) x h a k

refused-IsTracked :
    {now : ℕ} (clock : Readings) (m : V2gMsgTypeId) (t : CableCheck) (run : TestRun) (reply : Reply)
    (x : Tested CableCheck)
    → refuse_cable_request m t run reply ≡ returned x
    → IsAfter now clock
    → IsTracked now t
    → IsTracked clock.answered_at x.test
unfolding refuse_cable_request
refused-IsTracked clock m t run reply x h a k = ground arith

concluded-IsTracked :
    (now : ℕ) (f : Reply → Outcome Reply) (o : Outcome (Tested CableCheck)) (x : Tested CableCheck)
    → conclude_tested f o ≡ returned x
    → ((y : Tested CableCheck) → o ≡ returned y → IsTracked now y.test)
    → IsTracked now x.test
concluded-IsTracked now f o x h k =
    let (y, e, same) = conclude_tested-test f o x h in
    subst (IsTracked now) {x = y.test} {y = x.test} same (k y e)

pub din_request-IsTracked :
    {now : ℕ} (clock : Readings) (random : RandomWords) (r : Response) (id : ℕ) (m : V2gMsgTypeId)
    (req : DinRequest) (t : CableCheck) (run : TestRun) (s : Server) (x : Tested CableCheck)
    → handle_din_cable_request clock random r id m req t run s ≡ returned x
    → IsAfter now clock
    → IsTracked now t
    → IsTracked clock.answered_at x.test
unfolding handle_din_cable_request
din_request-IsTracked clock random r id m req t run s x h a k =
    let received = din_receive id req s in
    branches (is_let_through cable_check_msg m) _ _ x (IsTracked clock.answered_at x.test) h
      (λ e.
        concluded-IsTracked clock.answered_at din_conclude
          (din_cable_dispatch clock random r req t run received) x e
          (λ y g. din_dispatch-IsTracked clock random r req t run received y g a k))
      (λ e.
        refused-IsTracked clock m t run
          (record { server = s; response = r; event = terminate_connection }) x e a k)

pub iso_request-IsTracked :
    {now : ℕ} (clock : Readings) (o : Outside) (id : ℕ) (m : V2gMsgTypeId) (req : Request)
    (t : CableCheck) (run : TestRun) (s : Server) (x : Tested CableCheck)
    → handle_iso_cable_request clock o id m req t run s ≡ returned x
    → IsAfter now clock
    → IsTracked now t
    → IsTracked clock.answered_at x.test
unfolding handle_iso_cable_request
iso_request-IsTracked {now} clock o id m req t run s x h a k =
    let goal = IsTracked clock.answered_at x.test in
    let extra = record t { received_extra_request = true } in
    let errors = add_error "AC charger does not support DC-only test" run in
    let passed = λ (u : CableCheck) (r : TestRun) (v : Server) (l : IsTracked now u).
      λ (e : conclude_tested conclude (iso_cable_dispatch clock o req u r v) ≡ returned x).
        concluded-IsTracked clock.answered_at conclude (iso_cable_dispatch clock o req u r v) x e
          (λ y g. iso_dispatch-IsTracked clock o req u r v y g a l) in
    branches (not s.stop.iso.is_dc_charger) _ _ x goal h
      (λ ac.
        branches t.received_extra_request _ _ x goal ac (passed t run (receive id m s) k)
          (passed extra errors (receive id m (stop_hlc s)) (ground arith)))
      (λ dc.
        branches (is_let_through cable_check_msg m) _ _ x goal dc (passed t run (receive id m s) k)
          (λ e.
            refused-IsTracked clock m t run
              (record { server = s; response = o.initial; event = terminate_connection }) x e a k))
