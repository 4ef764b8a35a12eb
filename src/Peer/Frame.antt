-- ===== src/Peer/Frame.antt =====
-- `derive_key`, `nonce` and `associated_data` of crates/agent-send-daemon/src/peer_transport.rs.
pub mod Binding
use agent_send.Base.{ℕ, zero, suc, ◌/◌, ◌%◌, Text, text, Bytes, [], ◌∷◌, ◌++◌, length}

-- `to_be_bytes` of an integer of the given number of bytes
unfoldable pub to_be_bytes : ℕ → ℕ → Bytes
to_be_bytes zero n = []
to_be_bytes (suc w) n = to_be_bytes w (n / 256) ++ (n % 256 ∷ [])

-- `KEY_DOMAIN` and `AAD_DOMAIN`
abbrev pub key_domain : Bytes
key_domain = text "agent-send peer channel key v1"

abbrev pub aad_domain : Bytes
aad_domain = text "agent-send peer frame v1"

-- The body of the loops over `[sender_id, recipient_id]`.
unfoldable pub with_length : Text → Bytes
unfolding to_be_bytes
with_length value = to_be_bytes 8 (length value) ++ value

-- The `info` of `derive_key`
unfoldable pub key_info : Text → Text → Bytes
unfolding with_length
key_info sender_id recipient_id = with_length sender_id ++ with_length recipient_id

-- `nonce`
unfoldable pub nonce : ℕ → Bytes
unfolding to_be_bytes
nonce sequence = 0 ∷ 0 ∷ 0 ∷ 0 ∷ to_be_bytes 8 sequence

-- `associated_data`
unfoldable pub associated_data : ℕ → Text → Text → ℕ → Bytes
unfolding to_be_bytes with_length
associated_data version sender_id recipient_id sequence =
    aad_domain
    ++ (to_be_bytes 4 version
        ++ (with_length sender_id ++ (with_length recipient_id ++ to_be_bytes 8 sequence)))
