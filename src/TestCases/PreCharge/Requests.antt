-- ===== src/TestCases/PreCharge/Requests.antt =====
-- modules/EvseTestV2G/testcases/chn_precharge_006.cpp: every request of both protocols leaves the sequence timer
-- unmeasured.
use mathlib.Core.Path.{subst}
use evse_test_system.Base.{ℕ, ◌≤◌, ◌≡◌, ap, true, false, Bool, if◌then◌else◌}
use evse_test_system.V2g.Types.{V2gMsgTypeId, pre_charge_msg, terminate_connection}
use evse_test_system.V2g.Iso.Server.{
  Outcome, returned, unfinished, undefined, Server, Response, Reply,
}
use evse_test_system.V2g.Iso.Discovery.{RandomWords}
use evse_test_system.V2g.Iso.Charging.{handle_iso_pre_charge}
use evse_test_system.V2g.Iso.Request.{
  Request, Outside, stop_session, dispatch, receive, conclude, pre_charge_req, session_stop_req,
}
use evse_test_system.V2g.Iso.Answers.{returned_inj}
use evse_test_system.V2g.Din.Charging.{handle_din_pre_charge, handle_din_session_stop}
use evse_test_system.V2g.Din.Request.{
  DinRequest, din_dispatch, din_receive, din_conclude, din_pre_charge_req, din_session_stop_req,
}
use evse_test_system.TestCases.Common.{
  TestRun, Tested, is_let_through, conclude_tested, untouched, conclude_tested-test, untouched-test,
}
use evse_test_system.TestCases.PreCharge.Close.{PreCharge}
use evse_test_system.TestCases.PreCharge.Server.{
  Readings, handle_session_stop, din_test_dispatch, iso_test_dispatch, refuse_request,
  handle_din_request_006, handle_iso_request_006,
}
use evse_test_system.TestCases.PreCharge.Sequence.{IsUnmeasured, pre_charge-IsUnmeasured}

session_stop-IsUnmeasured :
    (clock : Readings) (base : Outcome Reply) (t : PreCharge) (run : TestRun) (x : Tested PreCharge)
    → handle_session_stop clock base t run ≡ returned x
    → IsUnmeasured t
    → IsUnmeasured x.test
unfolding handle_session_stop
session_stop-IsUnmeasured clock (returned reply) t run x h u =
    subst IsUnmeasured {x = record t { last_session_stop_time = clock.answered_at }} {y = x.test}
      (ap (λ y. y.test) (returned_inj h)) u
session_stop-IsUnmeasured clock unfinished t run x h u = cc
session_stop-IsUnmeasured clock undefined t run x h u = cc

untouched-IsUnmeasured :
    (t : PreCharge) (run : TestRun) (base : Outcome Reply) (x : Tested PreCharge)
    → untouched t run base ≡ returned x
    → IsUnmeasured t
    → IsUnmeasured x.test
untouched-IsUnmeasured t run base x h u =
    subst IsUnmeasured {x = t} {y = x.test} (untouched-test t run base x h) u

din_dispatch-IsUnmeasured :
    (clock : Readings) (random : RandomWords) (r : Response) (req : DinRequest) (t : PreCharge)
    (run : TestRun) (s : Server) (x : Tested PreCharge)
    → din_test_dispatch clock random r req t run s ≡ returned x
    → clock.received_at ≤ clock.answered_at
    → IsUnmeasured t
    → IsUnmeasured x.test
unfolding din_test_dispatch
din_dispatch-IsUnmeasured clock random r (din_pre_charge_req status) t run s x h c u =
    pre_charge-IsUnmeasured clock s.stop.last_v2g_msg (handle_din_pre_charge status s r) t run x h c
      u
din_dispatch-IsUnmeasured clock random r din_session_stop_req t run s x h c u =
    session_stop-IsUnmeasured clock (handle_din_session_stop s r) t run x h u
din_dispatch-IsUnmeasured clock random r req t run s x h c u =
    untouched-IsUnmeasured t run (din_dispatch random r req s) x h u

iso_dispatch-IsUnmeasured :
    (clock : Readings) (o : Outside) (req : Request) (t : PreCharge) (run : TestRun) (s : Server)
    (x : Tested PreCharge)
    → iso_test_dispatch clock o req t run s ≡ returned x
    → clock.received_at ≤ clock.answered_at
    → IsUnmeasured t
    → IsUnmeasured x.test
unfolding iso_test_dispatch
iso_dispatch-IsUnmeasured clock o (pre_charge_req status) t run s x h c u =
    pre_charge-IsUnmeasured clock s.stop.last_v2g_msg (handle_iso_pre_charge status s o.initial) t
      run x h c u
iso_dispatch-IsUnmeasured clock o (session_stop_req request) t run s x h c u =
    session_stop-IsUnmeasured clock (stop_session request s o.initial) t run x h u
iso_dispatch-IsUnmeasured clock o req t run s x h c u =
    untouched-IsUnmeasured t run (dispatch o req s) x h u

refuse-IsUnmeasured :
    (m : V2gMsgTypeId) (t : PreCharge) (run : TestRun) (reply : Reply) (x : Tested PreCharge)
    → refuse_request m t run reply ≡ returned x
    → IsUnmeasured t
    → IsUnmeasured x.test
unfolding refuse_request
refuse-IsUnmeasured m t run reply x h u =
    subst IsUnmeasured {x = record t { received_extra_request = true }} {y = x.test}
      (ap (λ y. y.test) (returned_inj h)) u

filtered-IsUnmeasured :
    (b : Bool) (f : Reply → Outcome Reply) (o : Outcome (Tested PreCharge)) (m : V2gMsgTypeId)
    (t : PreCharge) (run : TestRun) (reply : Reply) (x : Tested PreCharge)
    → (if b then conclude_tested f o else refuse_request m t run reply) ≡ returned x
    → ((y : Tested PreCharge) → o ≡ returned y → IsUnmeasured y.test)
    → IsUnmeasured t
    → IsUnmeasured x.test
filtered-IsUnmeasured true f o m t run reply x h k u =
    let (y, e, same) = conclude_tested-test f o x h in
    subst IsUnmeasured {x = y.test} {y = x.test} same (k y e)
filtered-IsUnmeasured false f o m t run reply x h k u = refuse-IsUnmeasured m t run reply x h u

pub din_request-IsUnmeasured :
    (clock : Readings) (random : RandomWords) (r : Response) (id : ℕ) (m : V2gMsgTypeId)
    (req : DinRequest) (t : PreCharge) (run : TestRun) (s : Server) (x : Tested PreCharge)
    → handle_din_request_006 clock random r id m req t run s ≡ returned x
    → clock.received_at ≤ clock.answered_at
    → IsUnmeasured t
    → IsUnmeasured x.test
unfolding handle_din_request_006
din_request-IsUnmeasured clock random r id m req t run s x h c u =
    filtered-IsUnmeasured (is_let_through pre_charge_msg m) din_conclude
      (din_test_dispatch clock random r req t run (din_receive id req s)) m t run
      (record { server = s; response = r; event = terminate_connection }) x h
      (λ y e. din_dispatch-IsUnmeasured clock random r req t run (din_receive id req s) y e c u) u

pub iso_request-IsUnmeasured :
    (clock : Readings) (o : Outside) (id : ℕ) (m : V2gMsgTypeId) (req : Request) (t : PreCharge)
    (run : TestRun) (s : Server) (x : Tested PreCharge)
    → handle_iso_request_006 clock o id m req t run s ≡ returned x
    → clock.received_at ≤ clock.answered_at
    → IsUnmeasured t
    → IsUnmeasured x.test
unfolding handle_iso_request_006
iso_request-IsUnmeasured clock o id m req t run s x h c u =
    filtered-IsUnmeasured (is_let_through pre_charge_msg m) conclude
      (iso_test_dispatch clock o req t run (receive id m s)) m t run
      (record { server = s; response = o.initial; event = terminate_connection }) x h
      (λ y e. iso_dispatch-IsUnmeasured clock o req t run (receive id m s) y e c u) u
