-- ===== src/TestManager.antt =====
-- modules/EvseTestManager: the queue of tests, the state machine that runs them, the packet
-- capture, and the module that connects them to the charger.
pub mod Machine
pub mod Handlers
pub mod Loop
pub mod Invariant
pub mod Queue
pub mod Graph
pub mod Timing
pub mod Sniffer
pub mod Evse
