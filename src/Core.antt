-- ===== src/Core.antt =====
-- The shared library: core/src.
pub mod Hex
pub mod Json
pub mod MqttJwt
pub mod Crypto
pub mod Mesh
pub mod Ipc
mod Examples
pub mod Telemetry
pub mod Region
pub mod Channel
pub mod Config
pub mod Task
