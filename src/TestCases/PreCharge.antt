-- ===== src/TestCases/PreCharge.antt =====
-- modules/EvseTestV2G/testcases/chn_precharge_006.hpp and chn_precharge_006.cpp.
pub mod Close
pub mod Server
pub mod Verdict
pub mod Sequence
pub mod Requests
pub mod Exact
