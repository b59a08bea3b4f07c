-- ===== src/V2g/Din.antt =====
-- modules/EvseTestV2G/server/din_server.hpp and din_server.cpp: the server of DIN 70121.
pub mod StateIds
pub mod States
pub mod Handlers
pub mod Charging
pub mod Finding
pub mod Request
pub mod Diagram
pub mod Phases
pub mod Moves
pub mod Refinement
