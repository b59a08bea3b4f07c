-- ===== src/TestCases/PreCharge/Close.antt =====
-- modules/EvseTestV2G/testcases/chn_precharge_006.hpp and chn_precharge_006.cpp: `TestBase`, its state, and its
-- reactions to the events of the board and to the end of the connection.
use evse_test_system.Base.{ℕ, ◌+◌, ◌*◌, ltb, ◌||◌, Bool, true, false, not, if◌then◌else◌}
use evse_test_system.Base.Int.{pos, ltb_ℤ, ◌+ℤ◌}
use evse_test_system.Types.{TestOutcome, preconditions_not_met, pass_criteria_met}
use evse_test_system.V2g.Tester.{BspEvent, b}
use evse_test_system.TestCases.Common.{
  TestRun, add_report, conclude_with, fail_with, fail_if, nanoseconds_per_ms, ms_between,
  is_longer_ms, is_unset, state_b_report, connection_closed_report,
}

-- V2G_EVCC_PRECHARGE_TIMEOUT
abbrev pub precharge_timeout : ℕ
precharge_timeout = 7000

-- V2G_TEST_EVCC_STATE_B_SHUTDOWN_TIMEOUT
abbrev pub state_b_shutdown_timeout : ℕ
state_b_shutdown_timeout = 4500

-- V2G_TEST_TCP_CONNECTION_TERMINATION_TIMEOUT
abbrev pub tcp_termination_timeout : ℕ
tcp_termination_timeout = 5000

-- The fields but the two voltages, which nothing reads. `sequence_time` is in milliseconds.
pub record PreCharge : Type 0 where
  pub precharge_started : Bool
  pub precharge_failed : Bool
  pub precharge_aborted : Bool
  pub received_extra_request : Bool
  pub validate_control_pilot : Bool
  pub cp_state_b_time : ℕ
  pub first_precharge_req_time : ℕ
  pub last_precharge_req_time : ℕ
  pub last_precharge_res_time : ℕ
  pub last_session_stop_time : ℕ
  pub sequence_time : ℕ

abbrev pub initial_pre_charge : PreCharge
initial_pre_charge = record {
  precharge_started = false;
  precharge_failed = false;
  precharge_aborted = false;
  received_extra_request = false;
  validate_control_pilot = false;
  cp_state_b_time = 0;
  first_precharge_req_time = 0;
  last_precharge_req_time = 0;
  last_precharge_res_time = 0;
  last_session_stop_time = 0;
  sequence_time = 0;
}

abbrev pub is_cp_state_b : BspEvent → Bool
is_cp_state_b b = true
is_cp_state_b _ = false

-- The difference of the time points is not rounded here.
abbrev pub is_precharge_running_forever : ℕ → PreCharge → Bool
is_precharge_running_forever time t =
    ltb
      (t.first_precharge_req_time
        + (precharge_timeout + tcp_termination_timeout) * nanoseconds_per_ms)
      time

unfoldable pub on_update_bsp_event : BspEvent → ℕ → PreCharge → PreCharge
on_update_bsp_event event timestamp t =
    if t.validate_control_pilot
    then if is_cp_state_b event then record t { cp_state_b_time = timestamp } else t
    else t

-- The check of the control pilot.
unfoldable pub validate_state_b : PreCharge → TestRun → TestRun
validate_state_b t run =
    if ltb t.cp_state_b_time t.last_precharge_res_time
    then fail_with "== EV did not signal control pilot state B ==" run
    else fail_if (is_longer_ms state_b_shutdown_timeout t.last_precharge_res_time t.cp_state_b_time)
        "EV took too long to signal control pilot state B" (add_report state_b_report run)

abbrev pass_if_unmet : TestOutcome → TestOutcome
pass_if_unmet preconditions_not_met = pass_criteria_met
pass_if_unmet o = o

-- The later of the last PreChargeRes and the last SessionStopRes.
abbrev pub tcp_close_start : PreCharge → ℕ
tcp_close_start t =
    if ltb t.last_precharge_res_time t.last_session_stop_time
    then t.last_session_stop_time
    else t.last_precharge_res_time

unfoldable pub close_connection : ℕ → PreCharge → TestRun → TestRun
close_connection timestamp t run =
    let closed = add_report connection_closed_report run in
    if is_longer_ms tcp_termination_timeout (tcp_close_start t) timestamp
    then fail_with "EV took too long to terminate the TCP connection" closed
    else record closed { outcome = pass_if_unmet closed.outcome }

-- The checks after those that end the validation.
unfoldable pub validate_shutdown : ℕ → PreCharge → TestRun → TestRun
validate_shutdown timestamp t run =
    let stopped =
      fail_if
        (ltb (t.last_precharge_res_time + tcp_termination_timeout * nanoseconds_per_ms)
          t.last_session_stop_time)
        "EV took too long to send a SessionStopReq" run in
    close_connection timestamp t
      (if t.validate_control_pilot then validate_state_b t stopped else stopped)

-- `timestamp`: the time of the event.
unfoldable pub on_connection_close_event : ℕ → PreCharge → TestRun → TestRun
on_connection_close_event timestamp t run =
    if not t.precharge_started
    then conclude_with preconditions_not_met "EV never initiated PreCharge" run
    else if t.precharge_failed
    then conclude_with preconditions_not_met "Problems occurred during PreCharge" run
    else if t.received_extra_request || t.precharge_aborted
    then fail_with "EV did not terminate communication" run
    else if is_unset t.first_precharge_req_time
        || is_unset t.last_precharge_req_time
        || is_unset t.last_precharge_res_time
    then conclude_with preconditions_not_met "Failed to send PreChargeRes" run
    else if ltb (t.first_precharge_req_time + precharge_timeout * nanoseconds_per_ms)
        t.last_precharge_req_time
    then fail_with "EV sent PreChargeReq after V2G_EVCC_PreCharge_Timeout expired" run
    else if ltb_ℤ
        (ms_between t.first_precharge_req_time t.last_precharge_req_time +ℤ pos t.sequence_time)
        (pos precharge_timeout)
    then fail_with "EV terminated authorization too early" run
    else validate_shutdown timestamp t run
