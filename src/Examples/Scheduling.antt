-- ===== src/Examples/Scheduling.antt =====
-- A run of the model of modules/EvseTestV2G/testcases/chx_smart_charging_scheduling_base.cpp on concrete inputs.
use evse_test_system.Base.{◌≡◌, ◌≢◌, ◌↔◌, refl, true, some}
use evse_test_system.Base.Int.{pos}
use evse_test_system.V2g.Types.{V2gEvent}
use evse_test_system.V2g.Iso.States.{iso_validate_response_code}
use evse_test_system.V2g.Iso.Server.{Outcome, returned, Reply}
use evse_test_system.TestCases.Common.{Tested}
use evse_test_system.TestCases.Scheduling.Schedule.{
  PmaxLimits, judge_dc, judge_ac, exceeded, indeterminate,
}
use evse_test_system.TestCases.Scheduling.Limits.{
  Exceeds, judge_dc-Exceeds_iff, judge-reads_written,
}
use evse_test_system.TestCases.Scheduling.State.{Scheduling, initial_scheduling}
use evse_test_system.TestCases.Scheduling.Handlers.{
  handle_charge_parameter, handle_power_delivery, handle_current_demand, handle_scheduling_stop,
}
use evse_test_system.TestCases.Scheduling.Session.{Session}
use evse_test_system.Examples.IsoServer.{ready_status, charger, blank}
use evse_test_system.Examples.PreCharge.{fresh_run}

-- The limits of the first test case for ISO 15118-2.
abbrev limits_001 : PmaxLimits
limits_001 = record { power_0 = pos 1800; power_1 = pos 1400; power_2 = pos 1600 }

-- 1700 watts, five minutes after the schedule was sent: above the limit of the second interval.
judge_dc-Exceeds_iff_example :
    (judge_dc (pos 1700000000) 300000 limits_001 ≡ exceeded)
    ↔ Exceeds (pos 1700000000) 300000 limits_001
judge_dc-Exceeds_iff_example =
    judge_dc-Exceeds_iff (pos 1700000000) 300000 limits_001 (refl, refl, refl)

judge-reads_written_example :
    (judge_dc (pos 1700000000) 300000 limits_001 ≢ indeterminate)
    × (judge_ac (pos 1700000000) 300000 limits_001 ≢ indeterminate)
judge-reads_written_example =
    judge-reads_written (pos 1700000000) 300000 limits_001 (refl, refl, refl)

abbrev answered : Reply
answered = record { server = charger 0; response = blank; event = V2gEvent.no_event }

abbrev tested_of : Outcome (Tested Scheduling) → Tested Scheduling
tested_of (returned x) = x
tested_of _ = record { test = initial_scheduling; run = fresh_run; reply = answered }

abbrev after_parameters : Tested Scheduling
after_parameters = tested_of (
    handle_charge_parameter iso_validate_response_code 1000 (some limits_001) (returned answered)
      initial_scheduling fresh_run)

abbrev after_delivery : Tested Scheduling
after_delivery =
    tested_of (
      handle_power_delivery 2000 true (returned answered) after_parameters.test
        after_parameters.run)

-- 1700 watts, a second before six minutes of charging.
abbrev after_demand : Tested Scheduling
after_demand = tested_of (
    handle_current_demand 361000 (pos 1700000000) ready_status (returned answered)
      after_delivery.test after_delivery.run)

abbrev after_stop : Tested Scheduling
after_stop =
    tested_of (handle_scheduling_stop (returned answered) after_demand.test after_demand.run)
