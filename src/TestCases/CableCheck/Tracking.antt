-- ===== src/TestCases/CableCheck/Tracking.antt =====
-- modules/EvseTestV2G/testcases/chn_cable_check_006.cpp: what every handler keeps of the times.
use mathlib.Core.Path.{subst}
use evse_test_system.Base.{ℕ, ◌+◌, ◌≤◌, ◌≡◌, ◌⊎◌, true, arith}
use evse_test_system.Base.Int.{pos_part}
use evse_test_system.V2g.Types.{V2gMsgTypeId, cable_check_msg}
use evse_test_system.V2g.Iso.Server.{Outcome, returned, unfinished, undefined, Reply}
use evse_test_system.V2g.Iso.Answers.{returned_inj}
use evse_test_system.TestCases.Common.{
  TestRun, Tested, add_report, request_report, untouched, untouched-test,
}
use evse_test_system.TestCases.PreCharge.Server.{Readings}
use evse_test_system.TestCases.CableCheck.State.{
  CableCheck, cable_check_timeout, max, ns, is_cable_check_running_forever,
}
use evse_test_system.TestCases.PreCharge.Close.{tcp_termination_timeout}
use evse_test_system.TestCases.CableCheck.Handlers.{
  note_start, update_durations, begin_cable_check, hold_back, abort_if_forever, fail_cable_check,
  judge_cable_check, end_cable_check, handle_cable_parameters, handle_cable_check,
  handle_cable_stop,
}

-- The latest start of the timer that the test knows of.
abbrev pub timer_start : CableCheck → ℕ
timer_start t = max t.earliest_cable_check_timer_start t.latest_cable_check_timer_start

-- Where the test has not failed and was not aborted, the last request came within the timeouts, and
-- has its answer.
pub record IsTracked (now : ℕ) (t : CableCheck) : Type 0 where
  pub measured : pos_part t.last_cable_check_sequence_duration ≤ t.max_cable_check_sequence_duration
  pub past : t.earliest_cable_check_timer_start ≤ now
  pub judged :
      ((t.cable_check_failed ≡ true) ⊎ (t.cable_check_aborted ≡ true))
      ⊎ ((t.last_cable_check_req_time
            ≤ timer_start t + ns (cable_check_timeout + tcp_termination_timeout))
          × (t.last_cable_check_req_time ≤ t.last_cable_check_res_time))

-- The times of a request that comes after `now`.
pub record IsAfter (now : ℕ) (clock : Readings) : Type 0 where
  pub later : now ≤ clock.received_at
  pub ordered : clock.received_at ≤ clock.answered_at

-- Between the judgement of a request and its end.
record IsBegun (clock : Readings) (t : CableCheck) : Type 0 where
  measured : pos_part t.last_cable_check_sequence_duration ≤ t.max_cable_check_sequence_duration
  past : t.earliest_cable_check_timer_start ≤ clock.answered_at
  requested : t.last_cable_check_req_time ≡ clock.received_at

begin-IsBegun :
    (now : ℕ) (clock : Readings) (last : V2gMsgTypeId) (t : CableCheck)
    → IsAfter now clock
    → IsTracked now t
    → IsBegun clock (begin_cable_check clock last t)
unfolding begin_cable_check note_start update_durations
begin-IsBegun now clock last t a h = ground arith

end-IsTracked :
    (n : ℕ) (clock : Readings) (t : CableCheck) (run : TestRun) (reply : Reply)
    → clock.received_at ≤ clock.answered_at
    → IsBegun clock t
    → IsTracked clock.answered_at (end_cable_check clock (judge_cable_check n t run reply)).test
unfolding judge_cable_check end_cable_check fail_cable_check abort_if_forever
    is_cable_check_running_forever hold_back
end-IsTracked n clock t run reply c h = ground arith

later-IsTracked :
    {now : ℕ} (clock : Readings) (t : CableCheck)
    → IsAfter now clock
    → IsTracked now t
    → IsTracked clock.answered_at t
later-IsTracked clock t a h = ground arith

pub check-IsTracked :
    {now : ℕ} (n : ℕ) (clock : Readings) (last : V2gMsgTypeId) (base : Outcome Reply)
    (t : CableCheck) (run : TestRun) (x : Tested CableCheck)
    → handle_cable_check n clock last base t run ≡ returned x
    → IsAfter now clock
    → IsTracked now t
    → IsTracked clock.answered_at x.test
unfolding handle_cable_check
check-IsTracked {now} n clock last (returned reply) t run x h a k =
    let begun = begin_cable_check clock last t in
    let requested = add_report (request_report cable_check_msg) run in
    subst (λ (y : Tested CableCheck). IsTracked clock.answered_at y.test)
      {x = end_cable_check clock (judge_cable_check n begun requested reply)} {y = x}
      (returned_inj h)
      (end-IsTracked n clock begun requested reply a.ordered (begin-IsBegun now clock last t a k))
check-IsTracked n clock last unfinished t run x h a k = cc
check-IsTracked n clock last undefined t run x h a k = cc

pub parameters-IsTracked :
    {now : ℕ} (n : ℕ) (clock : Readings) (base : Outcome Reply) (t : CableCheck) (run : TestRun)
    (x : Tested CableCheck)
    → handle_cable_parameters n clock base t run ≡ returned x
    → IsAfter now clock
    → IsTracked now t
    → IsTracked clock.answered_at x.test
unfolding handle_cable_parameters
parameters-IsTracked n clock (returned reply) t run x h a k = ground arith
parameters-IsTracked n clock unfinished t run x h a k = cc
parameters-IsTracked n clock undefined t run x h a k = cc

pub stop-IsTracked :
    {now : ℕ} (clock : Readings) (base : Outcome Reply) (t : CableCheck) (run : TestRun)
    (x : Tested CableCheck)
    → handle_cable_stop clock base t run ≡ returned x
    → IsAfter now clock
    → IsTracked now t
    → IsTracked clock.answered_at x.test
unfolding handle_cable_stop
stop-IsTracked clock (returned reply) t run x h a k = ground arith
stop-IsTracked clock unfinished t run x h a k = cc
stop-IsTracked clock undefined t run x h a k = cc

pub untouched-IsTracked :
    {now : ℕ} (clock : Readings) (t : CableCheck) (run : TestRun) (base : Outcome Reply)
    (x : Tested CableCheck)
    → untouched t run base ≡ returned x
    → IsAfter now clock
    → IsTracked now t
    → IsTracked clock.answered_at x.test
untouched-IsTracked clock t run base x h a k =
    subst (IsTracked clock.answered_at) {x = t} {y = x.test} (untouched-test t run base x h)
      (later-IsTracked clock t a k)
