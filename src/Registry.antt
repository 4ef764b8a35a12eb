-- ===== src/Registry.antt =====
-- The pairing state of crates/agent-send-daemon/src/lib.rs (`PeerRegistry`) and the stored trust of
-- peer_storage.rs.
pub mod Types
pub mod Code
pub mod Pairing
pub mod Consistency
pub mod History
pub mod Persistence
pub mod TrustFile
pub mod Restart
