-- ===== src/Commands.antt =====
-- control_node/commands: the use cases that write.
pub mod Leading
pub mod Locking
pub mod ControlPlane
pub mod Registering
pub mod Writing
pub mod Namespace
pub mod Copying
pub mod Collecting
pub mod Sharing
pub mod Creating
pub mod Appending
