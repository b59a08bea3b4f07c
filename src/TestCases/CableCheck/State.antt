-- ===== src/TestCases/CableCheck/State.antt =====
-- modules/EvseTestV2G/testcases/chn_cable_check_006.hpp and chn_cable_check_006.cpp: the state of `TestBase`, and its
-- reaction to the events of the board.
use evse_test_system.Base.{ℕ, ◌+◌, ◌*◌, ltb, ◌&&◌, Bool, false, if◌then◌else◌}
use evse_test_system.Base.Int.{ℤ, pos}
use Prim.Native.String.{}
use evse_test_system.V2g.Tester.{BspEvent}
use evse_test_system.TestCases.Common.{nanoseconds_per_ms}
use evse_test_system.TestCases.PreCharge.Close.{tcp_termination_timeout, is_cp_state_b}

-- V2G_EVCC_CABLE_CHECK_TIMEOUT
abbrev pub cable_check_timeout : ℕ
cable_check_timeout = 40000

-- The fields of `TestBase`: times in nanoseconds, and durations in milliseconds. A duration is
-- negative where the clock ran back, but the longest one is at least its initial zero.
pub record CableCheck : Type 0 where
  pub cable_check_started : Bool
  pub cable_check_failed : Bool
  pub cable_check_aborted : Bool
  pub received_extra_request : Bool
  pub validate_control_pilot : Bool
  pub earliest_cable_check_timer_start : ℕ
  pub latest_cable_check_timer_start : ℕ
  pub last_cable_check_sequence_duration : ℤ
  pub max_cable_check_sequence_duration : ℕ
  pub cp_state_b_time : ℕ
  pub last_cable_check_req_time : ℕ
  pub last_cable_check_res_time : ℕ
  pub last_session_stop_req_time : ℕ
  pub last_session_stop_res_time : ℕ

abbrev pub initial_cable_check : CableCheck
initial_cable_check = record {
  cable_check_started = false;
  cable_check_failed = false;
  cable_check_aborted = false;
  received_extra_request = false;
  validate_control_pilot = false;
  earliest_cable_check_timer_start = 0;
  latest_cable_check_timer_start = 0;
  last_cable_check_sequence_duration = pos 0;
  max_cable_check_sequence_duration = 0;
  cp_state_b_time = 0;
  last_cable_check_req_time = 0;
  last_cable_check_res_time = 0;
  last_session_stop_req_time = 0;
  last_session_stop_res_time = 0;
}

abbrev pub ns : ℕ → ℕ
ns milliseconds = milliseconds * nanoseconds_per_ms

abbrev pub max : ℕ → ℕ → ℕ
max a b = if ltb a b then b else a

abbrev pub min : ℕ → ℕ → ℕ
min a b = if ltb b a then b else a

unfoldable pub is_cable_check_running_forever : ℕ → CableCheck → Bool
is_cable_check_running_forever tp t =
    ltb
      (max t.earliest_cable_check_timer_start t.latest_cable_check_timer_start
        + ns (cable_check_timeout + tcp_termination_timeout))
      tp

unfoldable pub on_cable_update_bsp_event : BspEvent → ℕ → CableCheck → CableCheck
on_cable_update_bsp_event event timestamp t =
    if t.validate_control_pilot && is_cp_state_b event
    then record t { cp_state_b_time = timestamp }
    else t
