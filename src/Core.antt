-- ===== src/Core.antt =====
-- crates/agent-send-core: the types and the path policy that every other crate shares.
pub mod Request
pub mod Paths
pub mod Os
pub mod Policy
