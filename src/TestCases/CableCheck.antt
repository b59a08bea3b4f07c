-- ===== src/TestCases/CableCheck.antt =====
-- modules/EvseTestV2G/testcases/chn_cable_check_006.cpp: the test case that never finishes the cable check, and watches
-- when the vehicle gives up.
pub mod State
pub mod Close
pub mod Handlers
pub mod Servers
pub mod Judges
pub mod Verdict
pub mod Tracking
pub mod Requests
pub mod Window
pub mod Holding
pub mod Answered
