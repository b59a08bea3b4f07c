-- ===== src/TestCases/PreCharge/Sequence.antt =====
-- modules/EvseTestV2G/testcases/chn_precharge_006.cpp: what the sequence timer measures in a session.
use mathlib.Core.Path.{subst}
use evse_test_system.Base.{◌≤◌, ◌≡◌, ◌⊎◌, true, arith}
use evse_test_system.V2g.Types.{V2gMsgTypeId, pre_charge_msg}
use evse_test_system.V2g.Iso.Server.{Outcome, returned, Reply}
use evse_test_system.V2g.Iso.Answers.{returned_inj}
use evse_test_system.V2g.Iso.Delivery.{bind_inv}
use evse_test_system.TestCases.Common.{TestRun, Tested, add_report, request_report}
use evse_test_system.TestCases.PreCharge.Close.{PreCharge}
use evse_test_system.TestCases.PreCharge.Server.{
  Readings, update_sequence_time, begin_pre_charge, judge_pre_charge, end_pre_charge,
  handle_pre_charge,
}

-- No pause was ever measured, or the test has failed.
abbrev pub IsUnmeasured : PreCharge → Type 0
IsUnmeasured t =
    (t.precharge_failed ≡ true)
    ⊎ ((t.sequence_time ≡ 0)
        × ((t.last_precharge_res_time ≡ 0)
            ⊎ (t.last_precharge_req_time ≤ t.last_precharge_res_time)))

-- Between the handler's readings.
IsBegun : Readings → PreCharge → Type 0
IsBegun clock t =
    (t.precharge_failed ≡ true)
    ⊎ ((t.sequence_time ≡ 0) × (t.last_precharge_req_time ≡ clock.received_at))

begin-IsBegun :
    (clock : Readings) (last : V2gMsgTypeId) (t : PreCharge)
    → IsUnmeasured t
    → IsBegun clock (begin_pre_charge clock last t)
unfolding begin_pre_charge update_sequence_time IsBegun
begin-IsBegun clock last t h = ground arith

end-IsUnmeasured :
    (clock : Readings) (t : PreCharge) (run : TestRun) (reply : Reply)
    → clock.received_at ≤ clock.answered_at
    → IsBegun clock t
    → IsUnmeasured (end_pre_charge clock (judge_pre_charge t run reply)).test
unfolding judge_pre_charge end_pre_charge IsBegun
end-IsUnmeasured clock t run reply c h = ground arith

pub pre_charge-IsUnmeasured :
    (clock : Readings) (last : V2gMsgTypeId) (base : Outcome Reply) (t : PreCharge) (run : TestRun)
    (x : Tested PreCharge)
    → handle_pre_charge clock last base t run ≡ returned x
    → clock.received_at ≤ clock.answered_at
    → IsUnmeasured t
    → IsUnmeasured x.test
unfolding handle_pre_charge
pre_charge-IsUnmeasured clock last base t run x h c u =
    let begun = begin_pre_charge clock last t in
    let requested = add_report (request_report pre_charge_msg) run in
    let (reply, e, h1) =
      bind_inv {A = Reply} base
        (λ reply. returned (end_pre_charge clock (judge_pre_charge begun requested reply))) h in
    subst (λ (y : Tested PreCharge). IsUnmeasured y.test)
      {x = end_pre_charge clock (judge_pre_charge begun requested reply)} {y = x} (returned_inj h1)
      (end-IsUnmeasured clock begun requested reply c (begin-IsBegun clock last t u))
