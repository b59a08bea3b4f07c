-- ===== src/Examples/PreCharge.antt =====
-- A run of the model of modules/EvseTestV2G/testcases/chn_precharge_006.cpp on a concrete input.
use evse_test_system.Base.{◌+◌, ◌*◌, ◌≡◌, ◌↔◌, ℕ, refl, arith, []}
use evse_test_system.Types.{preconditions_not_met, pass_criteria_met}
use evse_test_system.V2g.Types.{pre_charge_msg}
use evse_test_system.V2g.Tester.{b}
use evse_test_system.V2g.Iso.Server.{Outcome, returned, Server}
use evse_test_system.V2g.Din.States.{din_validate_response_code}
use evse_test_system.V2g.Din.Request.{din_pre_charge_req}
use evse_test_system.TestCases.Common.{TestRun, Tested, nanoseconds_per_ms}
use evse_test_system.TestCases.PreCharge.Close.{
  PreCharge, initial_pre_charge, on_connection_close_event,
}
use evse_test_system.TestCases.PreCharge.Server.{Readings, handle_din_request_006}
use evse_test_system.TestCases.PreCharge.Verdict.{
  IsCarriedOut, IsPunctual, IsShutDown, on_connection_close_event-passes_iff,
}
use evse_test_system.Examples.IsoServer.{ready_status, charger, blank}
use evse_test_system.Examples.DinServer.{words}
use evse_test_system.V2g.Types.{V2gEvent}

abbrev pub fresh_run : TestRun
fresh_run = record { outcome = preconditions_not_met; errors = []; reports = [] }

-- At the milliseconds `at`, answered one later, in state B.
abbrev reading : ℕ → Readings
reading at = record {
  received_at = at * nanoseconds_per_ms;
  answered_at = (at + 1) * nanoseconds_per_ms;
  cp_state = b;
}

abbrev tested_of : Outcome (Tested PreCharge) → Tested PreCharge
tested_of (returned x) = x
tested_of _ = record {
  test = initial_pre_charge;
  run = fresh_run;
  reply = record { server = charger 0; response = blank; event = V2gEvent.no_event };
}

abbrev requested : ℕ → PreCharge → Server → Tested PreCharge
requested at t s = tested_of (
    handle_din_request_006 (reading at) words blank 77 pre_charge_msg
      (din_pre_charge_req ready_status) t fresh_run s)

abbrev first_request : Tested PreCharge
first_request = requested 1000 initial_pre_charge (charger 6)

abbrev second_request : Tested PreCharge
second_request = requested 8000 first_request.test first_request.reply.server

on_connection_close_event-passes_iff_example :
    ((on_connection_close_event (9000 * nanoseconds_per_ms) second_request.test fresh_run).outcome
      ≡ pass_criteria_met)
    ↔ (IsCarriedOut second_request.test
        × IsPunctual second_request.test
        × IsShutDown (9000 * nanoseconds_per_ms) second_request.test)
unfolding handle_din_request_006 din_validate_response_code
on_connection_close_event-passes_iff_example =
    on_connection_close_event-passes_iff (9000 * nanoseconds_per_ms) second_request.test fresh_run
      refl (omega arith)
