-- ===== src/TestCases/Scheduling/Verdict.antt =====
-- modules/EvseTestV2G/testcases/chx_smart_charging_scheduling_base.cpp: when `on_test_finished` lets a vehicle pass.
use evse_test_system.TestCases.Scheduling.State.{Scheduling}
use evse_test_system.TestCases.Scheduling.Session.{Session}
