-- ===== src/TestCases/CableCheck/Close.antt =====
-- modules/EvseTestV2G/testcases/chn_cable_check_006.cpp: the reaction of `TestBase` to the end of the connection.
use evse_test_system.Base.{ℕ, ◌+◌, ◌-◌, ◌/◌, leb, ltb, ◌&&◌, ◌||◌, Bool, not, if◌then◌else◌}
use evse_test_system.Base.Int.{ℤ, pos, pos_part, ltb_ℤ, ◌-ℤ◌, ◌*ℤ◌}
use Prim.Native.String.{String, len, slice}
use evse_test_system.Types.{preconditions_not_met}
use evse_test_system.V2g.Iso.Server.{Outcome, returned, undefined, ◌>>=◌}
use evse_test_system.TestCases.Common.{
  TestRun, add_report, conclude_with, fail_with, pass_unless_failed, nanoseconds_per_ms, is_unset,
  state_b_report, connection_closed_report,
}
use evse_test_system.TestCases.PreCharge.Close.{state_b_shutdown_timeout, tcp_termination_timeout}
use evse_test_system.TestCases.CableCheck.State.{cable_check_timeout, CableCheck, ns, min}

-- errors.emplace_back(text, n): the string of the first `n` characters of the array, which ends one
-- character after the text. The terminator, which is copied when `n` counts it, is left out.
unfoldable pub fail_counted : Bool → String → ℕ → TestRun → Outcome TestRun
fail_counted fails text n run =
    if fails
    then (if leb n (len text + 1) then returned (fail_with (slice text 0 n) run) else undefined)
    else returned run

abbrev pub earliest_expired : CableCheck → ℕ
earliest_expired t = t.earliest_cable_check_timer_start + ns cable_check_timeout

abbrev pub latest_expired : CableCheck → ℕ
latest_expired t = t.latest_cable_check_timer_start + ns cable_check_timeout

-- The latest time at which the vehicle could have sent the next request.
abbrev pub next_request_due : CableCheck → ℕ
next_request_due t = t.last_cable_check_res_time + ns t.max_cable_check_sequence_duration

abbrev pub text_early : String
text_early =
    "EV discontinued cable check before the V2G_EVCC_CableCheck_Timer expired by at least %d ms"

abbrev pub text_late : String
text_late = "EV continued cable check after the V2G_EVCC_CableCheck_Timer expired by at least %d ms"

abbrev pub text_state_b : String
text_state_b =
    "EV signaled control pilot state 'B' after the par_EVCC_StateB_Shutdown_Timeout expired by at least %d ms"

abbrev pub text_stop : String
text_stop =
    "EV sent SessionStopReq after the par_CMN_TCP_Connection_Termination_Timeout expired by at least %d ms"

abbrev pub text_close : String
text_close =
    "EV terminated the connection after the par_CMN_TCP_Connection_Termination_Timeout expired by at least %d ms"

abbrev pub is_early : CableCheck → Bool
is_early t = ltb (next_request_due t) (earliest_expired t)

unfoldable pub check_early : CableCheck → TestRun → Outcome TestRun
unfolding fail_counted
check_early t run =
    fail_counted (is_early t) text_early
      ((earliest_expired t - next_request_due t) / nanoseconds_per_ms) run

-- The time of the last request, less the time that the vehicle took for it.
unfoldable pub last_request_start : CableCheck → ℤ
unfolding ◌-ℤ◌ ◌*ℤ◌
last_request_start t =
    pos t.last_cable_check_req_time
    -ℤ t.last_cable_check_sequence_duration *ℤ pos nanoseconds_per_ms

abbrev pub is_late : CableCheck → Bool
is_late t = ltb_ℤ (pos (latest_expired t)) (last_request_start t)

unfoldable pub check_late : CableCheck → TestRun → Outcome TestRun
unfolding fail_counted last_request_start ◌-ℤ◌
check_late t run =
    fail_counted (is_late t) text_late
      (pos_part (last_request_start t -ℤ pos (latest_expired t)) / nanoseconds_per_ms) run

abbrev pub latest_state_b_expired : CableCheck → ℕ
latest_state_b_expired t = min t.cp_state_b_time (next_request_due t) + ns state_b_shutdown_timeout

abbrev pub is_late_state_b : CableCheck → Bool
is_late_state_b t = ltb (latest_state_b_expired t) t.cp_state_b_time

unfoldable pub check_state_b : CableCheck → TestRun → Outcome TestRun
unfolding fail_counted
check_state_b t run =
    if not t.validate_control_pilot
    then returned run
    else if is_unset t.cp_state_b_time
    then returned (
        fail_with "EV never signaled Control Pilot state 'B' before terminating the connection" run)
    else fail_counted (is_late_state_b t) text_state_b
        ((t.cp_state_b_time - latest_state_b_expired t) / nanoseconds_per_ms)
        (add_report state_b_report run)

-- The start of the timer at the end of the connection, before a session stop is looked at.
abbrev pub latest_close_start : ℕ → CableCheck → ℕ
latest_close_start timestamp t =
    min timestamp (t.last_cable_check_req_time + ns t.max_cable_check_sequence_duration)

abbrev pub stop_expired : ℕ → CableCheck → ℕ
stop_expired timestamp t = latest_close_start timestamp t + ns tcp_termination_timeout

abbrev pub is_late_stop : ℕ → CableCheck → Bool
is_late_stop timestamp t =
    not (is_unset t.last_session_stop_req_time)
    && ltb (stop_expired timestamp t) t.last_session_stop_req_time

unfoldable pub check_stop : ℕ → CableCheck → TestRun → Outcome TestRun
unfolding fail_counted
check_stop timestamp t run =
    fail_counted (is_late_stop timestamp t) text_stop
      ((t.last_session_stop_req_time - stop_expired timestamp t) / nanoseconds_per_ms) run

abbrev pub close_start : ℕ → CableCheck → ℕ
close_start timestamp t =
    if is_unset t.last_session_stop_req_time || is_unset t.last_session_stop_res_time
    then latest_close_start timestamp t
    else min timestamp (t.last_session_stop_res_time + ns t.max_cable_check_sequence_duration)

abbrev pub close_duration : ℕ → CableCheck → ℕ
close_duration timestamp t = (timestamp - close_start timestamp t) / nanoseconds_per_ms

abbrev pub is_late_close : ℕ → CableCheck → Bool
is_late_close timestamp t = ltb tcp_termination_timeout (close_duration timestamp t)

unfoldable pub check_close : ℕ → CableCheck → TestRun → Outcome TestRun
unfolding fail_counted
check_close timestamp t run =
    fail_counted (is_late_close timestamp t) text_close
      (close_duration timestamp t - tcp_termination_timeout)
      (add_report connection_closed_report
        (if is_late_close timestamp t then run else pass_unless_failed run))

unfoldable pub validate_timing : ℕ → CableCheck → TestRun → Outcome TestRun
unfolding check_early check_late check_state_b check_stop check_close
validate_timing timestamp t run = check_early t run >>= λ r1. check_late t r1 >>= λ r2.
    check_state_b t r2 >>= λ r3. check_stop timestamp t r3 >>= check_close timestamp t

abbrev pub has_times : CableCheck → Bool
has_times t = not (
    is_unset t.last_cable_check_req_time
    || is_unset t.last_cable_check_res_time
    || is_unset t.earliest_cable_check_timer_start
    || is_unset t.latest_cable_check_timer_start)

unfoldable pub on_cable_connection_close_event : ℕ → CableCheck → TestRun → Outcome TestRun
unfolding validate_timing
on_cable_connection_close_event timestamp t run =
    if not t.cable_check_started
    then returned (conclude_with preconditions_not_met "EV never initiated CableCheck" run)
    else if t.cable_check_failed
    then returned (conclude_with preconditions_not_met "Problems occurred during CableCheck" run)
    else if t.received_extra_request || t.cable_check_aborted
    then returned (fail_with "EV did not terminate communication" run)
    else if not (has_times t)
    then returned (conclude_with preconditions_not_met "Failed to send CableCheckRes" run)
    else validate_timing timestamp t run
