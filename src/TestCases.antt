-- ===== src/TestCases.antt =====
-- modules/EvseTestV2G/testcases: the test cases that run in the place of a server.
pub mod Common
pub mod CableCheck
pub mod PreCharge
pub mod Scheduling
pub mod Timeout
