-- ===== src/Examples/CableCheck.antt =====
-- Runs of the model of modules/EvseTestV2G/testcases/chn_cable_check_006.cpp on concrete inputs.
use evse_test_system.Base.{ℕ, ◌+◌, ◌*◌, ◌≡◌, ◌↔◌, false, true, none, refl, arith}
use evse_test_system.Base.Int.{pos}
use evse_test_system.V2g.Types.{
  charge_parameter_discovery_msg, cable_check_msg, V2gMsgTypeId, V2gEvent,
}
use evse_test_system.V2g.Tester.{b}
use evse_test_system.V2g.Iso.StateIds.{wait_for_cable_check}
use evse_test_system.V2g.Iso.States.{iso_validate_response_code}
use evse_test_system.V2g.Iso.Server.{Outcome, returned, undefined, Server}
use evse_test_system.V2g.Iso.Request.{cable_check_req}
use evse_test_system.V2g.Din.Request.{DinRequest, din_charge_parameter_req, din_cable_check_req}
use evse_test_system.TestCases.Common.{Tested, nanoseconds_per_ms}
use evse_test_system.TestCases.PreCharge.Server.{Readings}
use evse_test_system.TestCases.CableCheck.State.{CableCheck, initial_cable_check}
use evse_test_system.TestCases.CableCheck.Close.{has_times, on_cable_connection_close_event}
use evse_test_system.TestCases.CableCheck.Servers.{
  handle_din_cable_request, handle_iso_cable_request,
}
use evse_test_system.TestCases.CableCheck.Judges.{IsPassed, IsTimely, IsStateBSeen, IsEnded}
use evse_test_system.TestCases.CableCheck.Verdict.{
  IsChecked, on_cable_connection_close_event-IsPassed, early_end-undefined,
}
use evse_test_system.TestCases.CableCheck.Holding.{IsHeld}
use evse_test_system.TestCases.CableCheck.Answered.{iso_answered, cable_check-IsHeld}
use evse_test_system.Examples.IsoServer.{ready_status, charger, blank, outside}
use evse_test_system.Examples.DinServer.{words}
use evse_test_system.Examples.PreCharge.{fresh_run}

-- At the milliseconds `at`, answered one later, in state B.
abbrev reading : ℕ → Readings
reading at = record {
  received_at = at * nanoseconds_per_ms;
  answered_at = (at + 1) * nanoseconds_per_ms;
  cp_state = b;
}

abbrev tested_of : Outcome (Tested CableCheck) → Tested CableCheck
tested_of (returned x) = x
tested_of _ = record {
  test = initial_cable_check;
  run = fresh_run;
  reply = record { server = charger 0; response = blank; event = V2gEvent.no_event };
}

abbrev parameters : DinRequest
parameters =
    din_charge_parameter_req
      (record { requested_type = 3; has_ac_parameter = false; dc_status = none })

-- The charger has discovered the parameters; then come three cable checks, with a pause of 20
-- seconds before the last one.
abbrev discovered : CableCheck
discovered = record initial_cable_check {
  earliest_cable_check_timer_start = 1001 * nanoseconds_per_ms;
}

abbrev checked : ℕ → CableCheck → CableCheck
checked at t = record t {
  cable_check_started = true;
  last_cable_check_req_time = at * nanoseconds_per_ms;
  last_cable_check_res_time = (at + 1) * nanoseconds_per_ms;
}

abbrev checked_once : CableCheck
checked_once = checked 2000 discovered

abbrev checked_twice : CableCheck
checked_twice = record (checked 3000 checked_once) {
  latest_cable_check_timer_start = 3000 * nanoseconds_per_ms;
  last_cable_check_sequence_duration = pos 999;
  max_cable_check_sequence_duration = 999;
}

abbrev checked_thrice : CableCheck
checked_thrice = record (checked 23000 checked_twice) {
  last_cable_check_sequence_duration = pos 19999;
  max_cable_check_sequence_duration = 19999;
}

-- A charger that waits for a cable check, after the message `m`.
abbrev waiting_after : V2gMsgTypeId → Server
waiting_after m = let s = charger 5 in record s { stop = record s.stop { last_v2g_msg = m } }

abbrev check_at : ℕ → V2gMsgTypeId → CableCheck → Outcome (Tested CableCheck)
check_at at last t =
    handle_din_cable_request (reading at) words blank 77 cable_check_msg
      (din_cable_check_req ready_status) t fresh_run (waiting_after last)

abbrev parameters_discovered : Tested CableCheck
parameters_discovered = tested_of (
    handle_din_cable_request (reading 1000) words blank 77 charge_parameter_discovery_msg parameters
      initial_cable_check fresh_run (charger 4))

abbrev closed_at : ℕ
closed_at = 24000 * nanoseconds_per_ms

on_cable_connection_close_event-IsPassed_example :
    IsPassed (on_cable_connection_close_event closed_at checked_thrice fresh_run) ↔ (
      IsChecked checked_thrice
      × (has_times checked_thrice ≡ true)
      × IsTimely checked_thrice
      × IsStateBSeen checked_thrice
      × IsEnded closed_at checked_thrice)
on_cable_connection_close_event-IsPassed_example =
    on_cable_connection_close_event-IsPassed closed_at checked_thrice fresh_run refl

-- The vehicle gives up eight seconds after its third request, without a pause that would explain it.
abbrev hasty : CableCheck
hasty = record checked_thrice { max_cable_check_sequence_duration = 1000 }

early_end-undefined_example : on_cable_connection_close_event closed_at hasty fresh_run ≡ undefined
early_end-undefined_example =
    early_end-undefined closed_at hasty fresh_run (refl, refl, refl, refl) refl (omega arith)

abbrev iso_check : Tested CableCheck
iso_check = tested_of (
    handle_iso_cable_request (reading 2000) outside 77 cable_check_msg
      (cable_check_req ready_status) initial_cable_check fresh_run (charger 7))

cable_check-IsHeld_example : IsHeld wait_for_cable_check (reading 2000) iso_check
unfolding handle_iso_cable_request iso_validate_response_code
cable_check-IsHeld_example =
    cable_check-IsHeld
      (iso_answered outside 77 ready_status initial_cable_check fresh_run (charger 7) refl refl)
      refl
