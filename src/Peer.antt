-- ===== src/Peer.antt =====
-- crates/agent-send-daemon/src/peer_transport.rs: messages between paired peers, the encrypted
-- channel and its frames.
pub mod Secret
pub mod Message
pub mod Frame
pub mod Channel
pub mod Socket
pub mod Connection
