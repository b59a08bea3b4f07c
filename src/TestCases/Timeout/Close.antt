-- ===== src/TestCases/Timeout/Close.antt =====
-- modules/EvseTestV2G/testcases/chn_session_setup_004.cpp, chn_current_demand_005.cpp and
-- chn_service_detail_011.cpp: the state of `TestBase`, and its reactions to the events of the board
-- and to the end of the connection. The three have the same code for another request, but for the
-- timeouts, the texts, and what is noted where it differs. The name of the message timer is left out
-- of the texts.
use evse_test_system.Base.{
  ℕ, ◌+◌, ◌*◌, ltb, ◌&&◌, Bool, true, false, not, if◌then◌else◌, ◌++◌, [], ◌∷◌,
}
use evse_test_system.Base.Int.{pos, ltb_ℤ}
use Prim.Native.String.{String}
use evse_test_system.Types.{preconditions_not_met}
use evse_test_system.V2g.Tester.{BspEvent}
use evse_test_system.V2g.Iso.Server.{
  Server, ac_open_contactor, current_demand_finished, dc_open_contactor,
}
use evse_test_system.TestCases.Common.{
  TestRun, add_error, add_report, conclude_with, fail_with, fail_if, pass_unless_failed,
  nanoseconds_per_ms, ms_between, is_longer_ms, is_unset, state_b_report, connection_closed_report,
}
use evse_test_system.TestCases.PreCharge.Close.{
  state_b_shutdown_timeout, tcp_termination_timeout, is_cp_state_b,
}

pub data TimedTest : Type 0 where
  session_setup_004 current_demand_005 service_detail_011 : TimedTest

-- V2G_TEST_MESSAGE_TIMEOUT_SESSION_SETUP, V2G_TEST_EVCC_CURRENT_DEMAND_REQ_TIMEOUT and
-- V2G_TEST_MESSAGE_TIMEOUT_SERVICE_DETAIL
abbrev pub message_timeout : TimedTest → ℕ
message_timeout session_setup_004 = 2000
message_timeout current_demand_005 = 250
message_timeout service_detail_011 = 5000

abbrev never_initiated : TimedTest → String
never_initiated session_setup_004 = "EV never initiated SessionSetup"
never_initiated current_demand_005 = "EV never initiated CurrentDemand"
never_initiated service_detail_011 = "EV never initiated ServiceDetail"

abbrev problems_occurred : TimedTest → String
problems_occurred session_setup_004 = "Problems occurred during SessionSetup"
problems_occurred current_demand_005 = "Problems occurred during CurrentDemand"
problems_occurred service_detail_011 = "Problems occurred during ServiceDetail"

abbrev not_terminated : TimedTest → String
not_terminated session_setup_004 = "EV did not terminate communication"
not_terminated _ = "EV did not terminate connection"

-- The fields of `TestBase`: `request_time` is that of the request that gets no answer.
pub record Timed : Type 0 where
  pub request_received : Bool
  pub request_failed : Bool
  pub received_extra_request : Bool
  pub validate_control_pilot : Bool
  pub request_time : ℕ
  pub session_stop_req_time : ℕ
  pub session_stop_res_time : ℕ
  pub cp_state_b_time : ℕ

abbrev pub initial_timed : Timed
initial_timed = record {
  request_received = false;
  request_failed = false;
  received_extra_request = false;
  validate_control_pilot = false;
  request_time = 0;
  session_stop_req_time = 0;
  session_stop_res_time = 0;
  cp_state_b_time = 0;
}

-- `current_demand_005` only looks at the event where the control pilot is to be validated.
unfoldable pub on_timed_update_bsp_event : TimedTest → BspEvent → ℕ → Timed → Timed
on_timed_update_bsp_event current_demand_005 event timestamp t =
    if t.validate_control_pilot && is_cp_state_b event
    then record t { cp_state_b_time = timestamp }
    else t
on_timed_update_bsp_event _ event timestamp t =
    if is_cp_state_b event then record t { cp_state_b_time = timestamp } else t

-- The duration from `a` to `b` is less than the milliseconds.
abbrev pub is_shorter_ms : ℕ → ℕ → ℕ → Bool
is_shorter_ms limit a b = ltb_ℤ (ms_between a b) (pos limit)

-- The state B: it came after the request, not before the timer had expired, and not too late.
unfoldable pub validate_timed_state_b : TimedTest → Timed → TestRun → TestRun
validate_timed_state_b test t run =
    if ltb t.cp_state_b_time t.request_time
    then fail_with "EV never signaled control pilot state B" run
    else add_report state_b_report (
        if is_shorter_ms (message_timeout test) t.request_time t.cp_state_b_time
        then fail_with "EV signaled Control Pilot state 'B' before the timer expired" run
        else fail_if
            (is_longer_ms (message_timeout test + state_b_shutdown_timeout) t.request_time
              t.cp_state_b_time)
            "EV signaled Control Pilot state 'B' after the 'par_EVCC_StateB_Shutdown_Timeout' timer expired"
            run)

-- A stop before the state B is an error, but changes no outcome.
unfoldable pub validate_stop : TimedTest → Timed → TestRun → TestRun
validate_stop test t run =
    if is_unset t.session_stop_req_time
    then run
    else let early =
        if t.validate_control_pilot
          && ltb t.request_time t.cp_state_b_time
          && ltb t.session_stop_req_time t.cp_state_b_time
        then add_error "EV sent a SessionStopReq before Control Pilot state 'B'" run
        else run in
      fail_if
        (is_longer_ms (message_timeout test + tcp_termination_timeout) t.request_time
          t.session_stop_req_time)
        "EV sent a SessionStopReq after the 'par_CMN_TCP_Connection_Termination_Timeout' timer expired"
        (fail_if (is_shorter_ms (message_timeout test) t.request_time t.session_stop_req_time)
          "EV sent a SessionStopReq before the timer expired" early)

-- The time at which the message timer has expired.
abbrev pub timer_expired : TimedTest → Timed → ℕ
timer_expired test t = t.request_time + message_timeout test * nanoseconds_per_ms

abbrev pub tcp_close_timer_start : TimedTest → Timed → ℕ
tcp_close_timer_start test t =
    if is_unset t.session_stop_res_time then timer_expired test t else t.session_stop_res_time

unfoldable pub validate_close : TimedTest → ℕ → Timed → TestRun → TestRun
validate_close test timestamp t run = add_report connection_closed_report (
    if ltb timestamp (timer_expired test t)
    then fail_with "EV terminated the connection before the timer expired" run
    else if is_longer_ms tcp_termination_timeout (tcp_close_timer_start test t) timestamp
    then fail_with
        "EV did not terminate the connection before the 'par_CMN_TCP_Connection_Termination_Timeout' timer expired"
        run
    else pass_unless_failed run)

abbrev checks_timer : TimedTest → Bool
checks_timer current_demand_005 = true
checks_timer _ = false

-- The checks that do not end the validation.
unfoldable pub validate_timers : TimedTest → ℕ → Timed → TestRun → TestRun
validate_timers test timestamp t run = validate_close test timestamp t (
    validate_stop test t
      (if t.validate_control_pilot then validate_timed_state_b test t run else run))

unfoldable pub on_timed_connection_close_event : TimedTest → ℕ → Timed → TestRun → TestRun
on_timed_connection_close_event test timestamp t run =
    if not t.request_received
    then conclude_with preconditions_not_met (never_initiated test) run
    else if t.request_failed
    then conclude_with preconditions_not_met (problems_occurred test) run
    else if t.received_extra_request
    then fail_with (not_terminated test) run
    else if checks_timer test && is_unset t.request_time
    then conclude_with preconditions_not_met "Failed to send CurrentDemandRes" run
    else validate_timers test timestamp t run

-- What `current_demand_005` does with the charger before that.
unfoldable pub open_contactors : Server → Server
open_contactors s = record s {
  is_charging = false;
  published =
      s.published
      ++ (if s.stop.iso.is_dc_charger
          then current_demand_finished ∷ dc_open_contactor ∷ []
          else ac_open_contactor ∷ []);
}

unfoldable pub on_connection_close_event_005 : ℕ → Timed → TestRun → Server → TestRun × Server
unfolding on_timed_connection_close_event open_contactors
on_connection_close_event_005 timestamp t run s =
    (on_timed_connection_close_event current_demand_005 timestamp t run, open_contactors s)
