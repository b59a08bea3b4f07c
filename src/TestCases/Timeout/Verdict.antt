-- ===== src/TestCases/Timeout/Verdict.antt =====
-- modules/EvseTestV2G/testcases/chn_session_setup_004.cpp, chn_current_demand_005.cpp and
-- chn_service_detail_011.cpp: when `on_connection_close_event` lets a vehicle pass.
use evse_test_system.Base.{ℕ, ◌+◌, ◌*◌, ◌≤◌, ◌<◌, ◌≡◌, ◌≢◌, ◌⊎◌, ◌↔◌, true, false, arith}
use evse_test_system.Types.{preconditions_not_met, pass_criteria_met, pass_criteria_not_met}
use evse_test_system.TestCases.Common.{TestRun, nanoseconds_per_ms}
use evse_test_system.TestCases.PreCharge.Close.{state_b_shutdown_timeout, tcp_termination_timeout}
use evse_test_system.TestCases.Timeout.Close.{
  TimedTest, message_timeout, Timed, timer_expired, tcp_close_timer_start, validate_timed_state_b,
  validate_stop, validate_close, validate_timers, on_timed_connection_close_event,
}

-- The event is not before the message timer has run out since the request, and within `limit` whole
-- milliseconds after that.
abbrev pub IsAfterTimer : TimedTest → Timed → ℕ → ℕ → Type 0
IsAfterTimer test t limit time =
    (t.request_time + message_timeout test * nanoseconds_per_ms ≤ time)
    × (time < t.request_time + (message_timeout test + limit + 1) * nanoseconds_per_ms)

-- The request was received and handled without a problem, and the test noted no request that it does
-- not let through.
abbrev pub IsUnanswered : Timed → Type 0
IsUnanswered t =
    (t.request_received ≡ true) × (t.request_failed ≡ false) × (t.received_extra_request ≡ false)

-- The state B, a session stop and the end of the connection came after the timer and in time.
abbrev pub IsGivenUp : TimedTest → ℕ → Timed → Type 0
IsGivenUp test timestamp t =
    ((t.validate_control_pilot ≡ false) ⊎ IsAfterTimer test t 4500 t.cp_state_b_time)
    × ((t.session_stop_req_time ≡ 0) ⊎ IsAfterTimer test t 5000 t.session_stop_req_time)
    × (t.request_time + message_timeout test * nanoseconds_per_ms ≤ timestamp)
    × (((t.session_stop_res_time ≡ 0)
          × (timestamp < t.request_time + (message_timeout test + 5001) * nanoseconds_per_ms))
        ⊎ ((t.session_stop_res_time ≢ 0)
            × (timestamp < t.session_stop_res_time + 5001 * nanoseconds_per_ms)))

state_b_iff :
    (test : TimedTest) (t : Timed) (run : TestRun)
    → run.outcome ≡ preconditions_not_met
    → ((validate_timed_state_b test t run).outcome ≢ pass_criteria_not_met)
      ↔ IsAfterTimer test t state_b_shutdown_timeout t.cp_state_b_time
unfolding validate_timed_state_b
state_b_iff test t run o = (ground arith, ground arith)

stop_iff :
    (test : TimedTest) (t : Timed) (run : TestRun)
    → ((validate_stop test t run).outcome ≢ pass_criteria_not_met) ↔ (
        (run.outcome ≢ pass_criteria_not_met)
        × ((t.session_stop_req_time ≡ 0)
            ⊎ IsAfterTimer test t tcp_termination_timeout t.session_stop_req_time))
unfolding validate_stop
stop_iff test t run = (ground arith, ground arith)

close_iff :
    (test : TimedTest) (timestamp : ℕ) (t : Timed) (run : TestRun)
    → run.outcome ≢ pass_criteria_met
    → ((validate_close test timestamp t run).outcome ≡ pass_criteria_met) ↔ (
        (run.outcome ≢ pass_criteria_not_met)
        × (timer_expired test t ≤ timestamp)
        × (timestamp
            < tcp_close_timer_start test t + (tcp_termination_timeout + 1) * nanoseconds_per_ms))
unfolding validate_close
close_iff test timestamp t run o = (ground arith, ground arith)

-- No check but the last one passes a vehicle.
stays_unpassed :
    (test : TimedTest) (t : Timed) (run : TestRun)
    → run.outcome ≡ preconditions_not_met
    → ((validate_timed_state_b test t run).outcome ≢ pass_criteria_met)
      × ((validate_stop test t run).outcome ≢ pass_criteria_met)
      × ((validate_stop test t (validate_timed_state_b test t run)).outcome ≢ pass_criteria_met)
unfolding validate_timed_state_b validate_stop
stays_unpassed test t run o = ground arith

timers_iff :
    (test : TimedTest) (timestamp : ℕ) (t : Timed) (run : TestRun)
    → run.outcome ≡ preconditions_not_met
    → ((validate_timers test timestamp t run).outcome ≡ pass_criteria_met)
      ↔ IsGivenUp test timestamp t
unfolding validate_timers
timers_iff test timestamp t run o =
    let b = state_b_iff test t run o in
    let s1 = stop_iff test t run in
    let s2 = stop_iff test t (validate_timed_state_b test t run) in
    let u = stays_unpassed test t run o in
    let c1 = close_iff test timestamp t (validate_stop test t run) u.1 in
    let c2 =
      close_iff test timestamp t (validate_stop test t (validate_timed_state_b test t run)) u.2 in
    (ground arith, ground arith)

-- For a test of a message timeout whose preconditions were not met so far and whose request has a
-- time, the end of the connection passes the vehicle exactly when the request was handled without
-- a problem and the test noted no request that it does not let through; the state B, where it has to
-- be seen, a session stop and the end of the connection came when the message timer had run out
-- since the request; and in whole milliseconds the state B came at most 4500 after that, a stop at
-- most 5000, and the end at most 5000 after that or after the answer to a stop.
pub on_timed_connection_close_event-IsGivenUp :
    (test : TimedTest) (timestamp : ℕ) (t : Timed) (run : TestRun)
    → run.outcome ≡ preconditions_not_met
    → t.request_time ≢ 0
    → ((on_timed_connection_close_event test timestamp t run).outcome ≡ pass_criteria_met)
      ↔ (IsUnanswered t × IsGivenUp test timestamp t)
unfolding on_timed_connection_close_event
on_timed_connection_close_event-IsGivenUp test timestamp t run o r =
    let timers = timers_iff test timestamp t run o in (ground arith, ground arith)
