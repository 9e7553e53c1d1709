-- ===== src/Daemon.antt =====
-- The service: daemon/src.
pub mod Command
pub mod RepeaterDb
pub mod State
pub mod Reload
pub mod MeshTask
pub mod Server
pub mod Mqtt
mod Examples
