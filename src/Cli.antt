-- ===== src/Cli.antt =====
-- The command-line client: cli/src.
pub mod PacketGroup
pub mod Format
pub mod Repeater
pub mod RepeaterFilter
pub mod App
pub mod Tui
pub mod Wizard
mod Examples
