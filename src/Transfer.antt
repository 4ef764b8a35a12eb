-- ===== src/Transfer.antt =====
-- crates/agent-send-daemon/src/transfer.rs: the engine and the receiving side of a transfer.
pub mod Types
pub mod Engine
pub mod Incoming
pub mod Receive
pub mod Outbound
pub mod Collect
pub mod Stream
pub mod Send
pub mod Loopback
