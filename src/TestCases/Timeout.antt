-- ===== src/TestCases/Timeout.antt =====
-- modules/EvseTestV2G/testcases: the test cases that leave one request without an answer, and watch whether the
-- vehicle gives up in time.
pub mod Close
pub mod Handlers
pub mod Servers
pub mod ServiceDetail
pub mod Silence
pub mod Verdict
