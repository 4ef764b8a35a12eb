-- ===== src/Automation.antt =====
-- crates/agent-send-daemon/src/automation.rs: agent tokens and scopes, agent submissions, the audit
-- log.
pub mod Types
pub mod Compare
pub mod Tokens
pub mod Submissions
pub mod Audit
