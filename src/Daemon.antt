-- ===== src/Daemon.antt =====
-- crates/agent-send-daemon/src/lib.rs: the local API of the daemon and its listener for peers.
pub mod Http
pub mod Types
pub mod Agents
pub mod Server
pub mod Peers
pub mod Identity
