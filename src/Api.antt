-- ===== src/Api.antt =====
-- src/api: the servers beside the CAN bus.
pub mod Rest
pub mod Servers
mod Runs
