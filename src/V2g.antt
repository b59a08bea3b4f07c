-- ===== src/V2g.antt =====
-- modules/EvseTestV2G: the V2G server that talks to the vehicle and runs the test cases.
pub mod Types
pub mod MessageId
pub mod Interface
pub mod Transport
pub mod Handshake
pub mod Create
pub mod Session
pub mod Tester
pub mod Iso
pub mod Din
