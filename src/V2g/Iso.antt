-- ===== src/V2g/Iso.antt =====
-- modules/EvseTestV2G/server/iso_server.hpp and iso_server.cpp: the server of ISO 15118-2.
pub mod States
pub mod Validation
pub mod SessionStop
pub mod StateIds
pub mod Server
pub mod Discovery
pub mod Payment
pub mod Authorization
pub mod Parameters
pub mod Profile
pub mod Waiting
pub mod PowerDelivery
pub mod Charging
pub mod Installation
pub mod Request
pub mod Diagram
pub mod Answers
pub mod Moves
pub mod Phases
pub mod Delivery
pub mod Endings
pub mod Refinement
pub mod DeliveryCases
pub mod Grants
pub mod Selection
pub mod InstallationBounds
pub mod Offers
pub mod ProfileEnds
