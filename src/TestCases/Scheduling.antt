-- ===== src/TestCases/Scheduling.antt =====
-- modules/EvseTestV2G/testcases/chx_smart_charging_scheduling_base.hpp and .cpp, and the three test cases of it.
pub mod Schedule
pub mod Limits
pub mod State
pub mod Tests
pub mod Handlers
pub mod Servers
pub mod Tracking
pub mod Session
pub mod Verdict
