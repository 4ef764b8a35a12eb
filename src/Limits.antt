-- ===== src/Limits.antt =====
-- The limits that crates/agent-send-daemon/src/transfer.rs fixes for one transfer, and `u64`.
use agent_send.Base.{ℕ, ◌*◌, ◌^◌}

-- `CHUNK_SIZE`: the largest payload of one peer frame
abbrev pub chunk_size : ℕ
chunk_size = 64 * 1024

-- `MAX_TRANSFER_BYTES`
abbrev pub max_transfer_bytes : ℕ
max_transfer_bytes = 4 * 1024 * 1024 * 1024

-- `MAX_TRANSFER_FILES`
abbrev pub max_transfer_files : ℕ
max_transfer_files = 10000

-- One more than `u64::MAX`
abbrev pub u64_mod : ℕ
u64_mod = 2 ^ 64
