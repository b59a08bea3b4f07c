-- ===== src/V2g/Session.antt =====
-- One session of modules/EvseTestV2G/v2g_server.cpp, `v2g_handle_connection`.
pub mod Env
pub mod Stages
pub mod Connection
pub mod Totals
pub mod Endings
pub mod Accounts
pub mod Verdict
