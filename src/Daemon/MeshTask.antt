-- ===== src/Daemon/MeshTask.antt =====
-- daemon/src/mesh_task.rs: the task that holds the connection to the node.
pub mod Node
pub mod Contacts
pub mod Observer
pub mod Repeaters
pub mod Detail
pub mod Command
pub mod Session
pub mod Companion
