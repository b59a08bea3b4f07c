-- ===== src/Tools.antt =====
-- modules/EvseTestV2G/tools.cpp: the arithmetic of time, durations and random data.
pub mod Time
pub mod Random
