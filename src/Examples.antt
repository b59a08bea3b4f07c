-- ===== src/Examples.antt =====
-- Runs of the models on concrete inputs.
pub mod Machine
pub mod Station
pub mod Timeout
pub mod Session
pub mod Messages
pub mod Iso
pub mod IsoServer
pub mod DinServer
pub mod CableCheck
pub mod PreCharge
pub mod Scheduling
