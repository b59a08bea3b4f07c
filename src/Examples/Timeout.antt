-- ===== src/Examples/Timeout.antt =====
-- Runs of the model of modules/EvseTestV2G/testcases/chn_session_setup_004.cpp and chn_current_demand_005.cpp on concrete
-- inputs.
use evse_test_system.Base.{ℕ, ◌+◌, ◌*◌, ◌≡◌, ◌↔◌, true, false, none, refl, arith}
use evse_test_system.Base.Int.{pos}
use evse_test_system.Types.{pass_criteria_met}
use evse_test_system.V2g.Types.{V2gEvent, session_setup_msg, current_demand_msg}
use evse_test_system.V2g.Tester.{b}
use evse_test_system.V2g.Iso.Server.{Outcome, returned, Reply}
use evse_test_system.V2g.Iso.Charging.{CurrentDemandReq}
use evse_test_system.V2g.Din.Request.{din_current_demand_req}
use evse_test_system.TestCases.Common.{Tested, nanoseconds_per_ms}
use evse_test_system.TestCases.PreCharge.Server.{Readings}
use evse_test_system.TestCases.Timeout.Close.{
  session_setup_004, Timed, initial_timed, on_timed_connection_close_event,
}
use evse_test_system.TestCases.Timeout.Handlers.{handle_timed}
use evse_test_system.TestCases.Timeout.Servers.{handle_din_request_005}
use evse_test_system.TestCases.Timeout.Verdict.{
  IsUnanswered, IsGivenUp, on_timed_connection_close_event-IsGivenUp,
}
use evse_test_system.TestCases.Timeout.Silence.{
  IsSilent, handle_timed-IsSilent, FailsWhenClosed, extra_request-FailsWhenClosed,
}
use evse_test_system.Examples.IsoServer.{ready_status, charger, blank}
use evse_test_system.Examples.DinServer.{words}
use evse_test_system.Examples.PreCharge.{fresh_run}

abbrev reading : ℕ → Readings
reading at = record {
  received_at = at * nanoseconds_per_ms;
  answered_at = (at + 1) * nanoseconds_per_ms;
  cp_state = b;
}

abbrev tested_of : Outcome (Tested Timed) → Tested Timed
tested_of (returned x) = x
tested_of _ = record {
  test = initial_timed;
  run = fresh_run;
  reply = record { server = charger 0; response = blank; event = V2gEvent.no_event };
}

abbrev answered : Reply
answered = record { server = charger 1; response = blank; event = V2gEvent.no_event }

abbrev silent_setup : Tested Timed
silent_setup = tested_of (
    handle_timed (reading 1000) session_setup_004 session_setup_msg (returned answered)
      initial_timed fresh_run)

handle_timed-IsSilent_example :
    IsSilent (reading 1000) session_setup_004 (3500 * nanoseconds_per_ms) silent_setup
unfolding handle_timed
handle_timed-IsSilent_example =
    handle_timed-IsSilent (reading 1000) session_setup_004 session_setup_msg answered fresh_run
      (3500 * nanoseconds_per_ms) silent_setup refl (omega arith) refl (omega arith) refl refl

on_timed_connection_close_event-IsGivenUp_example :
    ((on_timed_connection_close_event session_setup_004
        (3500 * nanoseconds_per_ms)
        silent_setup.test
        fresh_run).outcome
      ≡ pass_criteria_met)
    ↔ (IsUnanswered silent_setup.test
        × IsGivenUp session_setup_004 (3500 * nanoseconds_per_ms) silent_setup.test)
unfolding handle_timed
on_timed_connection_close_event-IsGivenUp_example =
    on_timed_connection_close_event-IsGivenUp session_setup_004 (3500 * nanoseconds_per_ms)
      silent_setup.test fresh_run refl (omega arith)

abbrev demand : CurrentDemandReq
demand = record {
  demand_status = ready_status;
  is_bulk_complete = none;
  is_complete = false;
  ev_target_current = record { multiplier = pos 0; value = pos 0 };
  ev_target_voltage = record { multiplier = pos 0; value = pos 0 };
}

abbrev started : Timed
started = record initial_timed { request_received = true; request_time = 1000 }

abbrev second_demand : Tested Timed
second_demand = tested_of (
    handle_din_request_005 (reading 1000) words blank 77 current_demand_msg
      (din_current_demand_req demand) started fresh_run (charger 7))

extra_request-FailsWhenClosed_example : FailsWhenClosed (charger 7) second_demand
unfolding handle_din_request_005
extra_request-FailsWhenClosed_example =
    extra_request-FailsWhenClosed (reading 1000) words blank 77 current_demand_msg
      (din_current_demand_req demand) started fresh_run (charger 7) second_demand refl refl refl
      refl
