-- ===== src/V2g/Transport.antt =====
-- The connections of the V2G server: reading from a TCP connection, and the V2G transport header.
pub mod Tcp
pub mod Incoming
