-- ===== src/TestCases/Scheduling/State.antt =====
-- modules/EvseTestV2G/testcases/chx_smart_charging_scheduling_base.hpp and .cpp: the state of the test cases, the
-- verdict, and what is done with a judgement. The numbers in the text of an error are left out.
use evse_test_system.Base.{
  ℕ, ◌+◌, ◌-◌, ltb, ◌==◌, ◌||◌, Bool, true, false, not, Option, none, some, if◌then◌else◌,
}
use evse_test_system.Base.Int.{ℤ, pos, ltb_ℤ, ◌-ℤ◌}
use Prim.Native.String.{String}
use evse_test_system.Types.{preconditions_not_met}
use evse_test_system.V2g.Iso.Server.{
  Outcome, returned, undefined, StatusCode, evse_ready, evse_shutdown, evse_emergency_shutdown,
  other_status, Notification, no_notification, stop_charging, re_negotiation, Server,
}
use evse_test_system.TestCases.Common.{
  TestRun, add_error, conclude_with, fail_if, pass_unless_failed,
}
use evse_test_system.TestCases.Scheduling.Schedule.{
  PmaxLimits, Judgement, exceeded, indeterminate, target_charging_duration,
}

-- The times are readings of `getmonotonictime`, and 0 where there was none. `power_reading`: the power
-- of the power meter, where it was set since it was read. `stop_threads`: the threads that
-- `stop_charging` started.
pub record Scheduling : Type 0 where
  pub charging_start_time : ℕ
  pub schedule_start_time : ℕ
  pub ev_exceeded_scheduled_pmax : Bool
  pub ev_requested_nonzero_power : Bool
  pub stopping_charging_session : Bool
  pub gracefully_stopped_session : Bool
  pub limits : PmaxLimits
  pub last_target_power : ℤ
  pub last_ev_ready : Bool
  pub last_ev_error_code : ℕ
  pub last_evse_status_code : StatusCode
  pub last_evse_notification : Notification
  pub power_reading : Option ℤ
  pub stop_threads : ℕ

abbrev pub initial_scheduling : Scheduling
initial_scheduling = record {
  charging_start_time = 0;
  schedule_start_time = 0;
  ev_exceeded_scheduled_pmax = false;
  ev_requested_nonzero_power = false;
  stopping_charging_session = false;
  gracefully_stopped_session = false;
  limits = record { power_0 = pos 0; power_1 = pos 0; power_2 = pos 0 };
  last_target_power = pos 0;
  last_ev_ready = true;
  last_ev_error_code = 0;
  last_evse_status_code = evse_ready;
  last_evse_notification = no_notification;
  power_reading = none;
  stop_threads = 0;
}

-- The criteria that do not end the verdict.
unfoldable pub check_criteria : Scheduling → TestRun → TestRun
check_criteria t run =
    fail_if (not t.gracefully_stopped_session) "Charging session did not gracefully terminate" (
      fail_if (not t.stopping_charging_session) "EV stopped charging early" (
        fail_if (not t.ev_requested_nonzero_power) "EV never requested significant power"
          (fail_if t.ev_exceeded_scheduled_pmax "EV exceeded scheduled PMax limits" run)))

unfoldable pub on_test_finished : Scheduling → TestRun → TestRun
unfolding check_criteria
on_test_finished t run =
    if not (ltb 0 t.schedule_start_time)
    then conclude_with preconditions_not_met "EVSE never communicated a charge schedule" run
    else if not (ltb 0 t.charging_start_time)
    then conclude_with preconditions_not_met "EV never started charging" run
    else pass_unless_failed (check_criteria t run)

-- `power`: the total of the reading, where it has one.
unfoldable pub on_powermeter_event : Option ℤ → Scheduling → Scheduling
on_powermeter_event none t = t
on_powermeter_event (some power) t = record t { power_reading = some power }

-- The first excess is an error.
unfoldable pub note_excess : String → Scheduling → TestRun → Scheduling × TestRun
note_excess text t run =
    if t.ev_exceeded_scheduled_pmax
    then (t, run)
    else (record t { ev_exceeded_scheduled_pmax = true }, add_error text run)

-- What is done with a judgement; a read of a start that was never written has no meaning.
unfoldable pub apply_judgement :
    Judgement → String → Scheduling → TestRun → Outcome (Scheduling × TestRun)
unfolding note_excess
apply_judgement exceeded text t run = returned (note_excess text t run)
apply_judgement indeterminate text t run = undefined
apply_judgement _ text t run = returned (t, run)

unfoldable pub note_power : Bool → Scheduling → Scheduling
note_power is_significant t =
    if is_significant then record t { ev_requested_nonzero_power = true } else t

-- The charging is stopped after an excess, or when it has run for long enough.
unfoldable pub stop_if_done : ℕ → Scheduling → Scheduling
stop_if_done now t =
    if t.stopping_charging_session
    then t
    else if t.ev_exceeded_scheduled_pmax
        || ltb target_charging_duration (now - t.charging_start_time)
    then record t { stopping_charging_session = true; stop_threads = t.stop_threads + 1 }
    else t

-- What the thread of Test::stop_charging does first, and what it does after ten seconds in which the
-- connection was not terminated.
unfoldable pub begin_stop : Server → Server
begin_stop s = record s {
  evse_notification = stop_charging;
  evse_status_code = λ phase. evse_shutdown;
}

unfoldable pub force_stop : Server → Server
force_stop s =
    if s.stop.iso.is_connection_terminated
    then s
    else record s { stop = record s.stop { iso = record s.stop.iso { stop_hlc = true } } }

abbrev pub same_status : StatusCode → StatusCode → Bool
same_status evse_ready evse_ready = true
same_status evse_shutdown evse_shutdown = true
same_status evse_emergency_shutdown evse_emergency_shutdown = true
same_status (other_status m) (other_status n) = m == n
same_status _ _ = false

abbrev pub same_notification : Notification → Notification → Bool
same_notification no_notification no_notification = true
same_notification stop_charging stop_charging = true
same_notification re_negotiation re_negotiation = true
same_notification _ _ = false

-- The target power differs by more than a watt.
abbrev pub is_other_power : ℤ → ℤ → Bool
is_other_power a b = ltb_ℤ (pos 1000000) (a -ℤ b) || ltb_ℤ (pos 1000000) (b -ℤ a)
