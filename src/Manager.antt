-- ===== src/Manager.antt =====
-- src/network/manager.rs: the registry of live peers, its events and its commands.
pub mod State
pub mod Registry
pub mod Dispatch
pub mod Loop
pub mod System
pub mod Handle
mod Tests
