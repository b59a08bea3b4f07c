-- ===== src/TestCases/Scheduling/Tests.antt =====
-- modules/EvseTestV2G/testcases/chx_smart_charging_scheduling_001.cpp, 002 and 003: the limits that each test case
-- sets. `scaled`: the power times a constant of type double, rounded up.
use evse_test_system.Base.{Option, some}
use evse_test_system.Base.Int.{ℤ, pos}
use evse_test_system.TestCases.Scheduling.Schedule.{PmaxLimits}

-- The factors 0.1, 0.4 and 0.6.
pub data Share : Type 0 where
  tenth two_fifths three_fifths : Share

pub data SchedulingTest : Type 0 where
  scheduling_001 scheduling_002 scheduling_003 : SchedulingTest

-- DinTestServer::set_maximum_scheduled_power; `none`: it returns another value than 0.
unfoldable pub set_din_scheduled_power : (Share → ℤ → ℤ) → SchedulingTest → ℤ → Option PmaxLimits
set_din_scheduled_power scaled scheduling_001 maximum_power = some (record {
  power_0 = scaled tenth maximum_power;
  power_1 = scaled two_fifths maximum_power;
  power_2 = scaled three_fifths maximum_power;
})
set_din_scheduled_power scaled scheduling_002 maximum_power = some (record {
  power_0 = scaled tenth maximum_power;
  power_1 = pos 0;
  power_2 = scaled three_fifths maximum_power;
})
set_din_scheduled_power scaled scheduling_003 maximum_power = some (record {
  power_0 = pos 0;
  power_1 = scaled two_fifths maximum_power;
  power_2 = scaled three_fifths maximum_power;
})

-- Iso2TestServer::set_maximum_scheduled_power
unfoldable pub set_iso_scheduled_power : SchedulingTest → ℤ → Option PmaxLimits
set_iso_scheduled_power scheduling_001 maximum_power =
    some (record { power_0 = pos 1800; power_1 = pos 1400; power_2 = pos 1600 })
set_iso_scheduled_power scheduling_002 maximum_power =
    some (record { power_0 = pos 1500; power_1 = pos 0; power_2 = pos 1400 })
set_iso_scheduled_power scheduling_003 maximum_power =
    some (record { power_0 = pos 0; power_1 = pos 1500; power_2 = pos 1400 })
