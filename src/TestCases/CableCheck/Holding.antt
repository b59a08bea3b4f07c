-- ===== src/TestCases/CableCheck/Holding.antt =====
-- modules/EvseTestV2G/testcases/chn_cable_check_006.cpp: no handler of a cable check lets the vehicle go on.
use mathlib.Core.Path.{subst}
use evse_test_system.Base.{ℕ, ◌≡◌, ◌⊎◌, refl, true, false, not, arith}
use evse_test_system.V2g.Types.{V2gMsgTypeId, cable_check_msg}
use evse_test_system.V2g.Iso.StateIds.{wait_for_cable_check}
use evse_test_system.V2g.Iso.Server.{
  Outcome, returned, unfinished, undefined, DcEvStatus, is_finished, Server, Response, Reply,
  answer,
}
use evse_test_system.V2g.Iso.Charging.{handle_iso_cable_check}
use evse_test_system.V2g.Iso.Answers.{returned_inj}
use evse_test_system.V2g.Din.StateIds.{din_wait_for_cable_check}
use evse_test_system.V2g.Din.States.{answer_din}
use evse_test_system.V2g.Din.Charging.{handle_din_cable_check}
use evse_test_system.TestCases.Common.{TestRun, Tested, add_report, request_report, is_answered}
use evse_test_system.TestCases.PreCharge.Close.{is_cp_state_b}
use evse_test_system.TestCases.PreCharge.Server.{Readings}
use evse_test_system.TestCases.CableCheck.State.{CableCheck, is_cable_check_running_forever}
use evse_test_system.TestCases.CableCheck.Handlers.{
  begin_cable_check, hold_back, abort_if_forever, fail_cable_check, judge_cable_check,
  end_cable_check, handle_cable_check,
}

-- The vehicle gets an answer, but not that the cable check has finished; the server waits for the
-- next cable check, in the state `n`; and the test has the times and the state of the pilot.
pub record IsHeld (n : ℕ) (clock : Readings) (x : Tested CableCheck) : Type 0 where
  pub answered : is_answered x.reply.event ≡ true
  pub unfinished : is_finished x.reply.response.evse_processing ≡ false
  pub waits : x.reply.server.stop.iso.state ≡ n
  pub requested_at : x.test.last_cable_check_req_time ≡ clock.received_at
  pub answered_at : x.test.last_cable_check_res_time ≡ clock.answered_at
  pub pilot : x.test.validate_control_pilot ≡ not (is_cp_state_b clock.cp_state)

-- A server that has not finished its cable check waits for the next request.
abbrev pub WaitsUnlessFinished : ℕ → Reply → Type 0
WaitsUnlessFinished n reply =
    (is_finished reply.response.evse_processing ≡ true) ⊎ (reply.server.stop.iso.state ≡ n)

judged-IsHeld :
    (n : ℕ) (clock : Readings) (t : CableCheck) (run : TestRun) (reply : Reply)
    → WaitsUnlessFinished n reply
    → t.last_cable_check_req_time ≡ clock.received_at
    → (end_cable_check clock (judge_cable_check n t run reply)).test.cable_check_failed ≡ false
    → IsHeld n clock (end_cable_check clock (judge_cable_check n t run reply))
unfolding judge_cable_check end_cable_check fail_cable_check abort_if_forever
    is_cable_check_running_forever hold_back
judged-IsHeld n clock t run reply w q h = ground arith

begin-requested :
    (clock : Readings) (last : V2gMsgTypeId) (t : CableCheck)
    → (begin_cable_check clock last t).last_cable_check_req_time ≡ clock.received_at
unfolding begin_cable_check
begin-requested clock last t = refl

pub handled-IsHeld :
    (n : ℕ) (clock : Readings) (last : V2gMsgTypeId) (base : Outcome Reply) (t : CableCheck)
    (run : TestRun) (x : Tested CableCheck)
    → handle_cable_check n clock last base t run ≡ returned x
    → ((reply : Reply) → base ≡ returned reply → WaitsUnlessFinished n reply)
    → x.test.cable_check_failed ≡ false
    → IsHeld n clock x
unfolding handle_cable_check
handled-IsHeld n clock last (returned reply) t run x h w =
    let begun = begin_cable_check clock last t in
    let requested = add_report (request_report cable_check_msg) run in
    subst (λ (y : Tested CableCheck). y.test.cable_check_failed ≡ false → IsHeld n clock y)
      {x = end_cable_check clock (judge_cable_check n begun requested reply)} {y = x}
      (returned_inj h)
      (judged-IsHeld n clock begun requested reply (w reply refl) (begin-requested clock last t))
handled-IsHeld n clock last unfinished t run x h w = cc
handled-IsHeld n clock last undefined t run x h w = cc

pub din_cable_check-Waits :
    (status : DcEvStatus) (s : Server) (r : Response) (reply : Reply)
    → handle_din_cable_check status s r ≡ returned reply
    → WaitsUnlessFinished din_wait_for_cable_check reply
unfolding handle_din_cable_check answer_din
din_cable_check-Waits status s r reply h = ground arith

pub iso_cable_check-Waits :
    (status : DcEvStatus) (s : Server) (r : Response) (reply : Reply)
    → handle_iso_cable_check status s r ≡ returned reply
    → WaitsUnlessFinished wait_for_cable_check reply
unfolding handle_iso_cable_check answer
iso_cable_check-Waits status s r reply h = ground arith
