-- ===== src/Peer/Message.antt =====
-- Messages and errors of crates/agent-send-daemon/src/peer_transport.rs.
use agent_send.Base.{
  ℕ, Text, text, Bytes, not, ◌&&◌, if◌then◌else◌, ◌==◌, ℕ_eq, is_ascii_hexdigit, all, length,
  is_blank, ltb,
}
use agent_send.Base.Result.{Result, ok, err, ◌>>◌, reject_if}
use agent_send.Limits.{chunk_size}

-- `PEER_PROTOCOL_VERSION`
abbrev pub peer_protocol_version : ℕ
peer_protocol_version = 1

pub data PeerMessage : Type 0 where
  hello : (protocol_version : ℕ) → PeerMessage
  transfer_manifest :
      (transfer_id destination_folder_id idempotency_key : Text) (total_bytes : ℕ) (sha256 : Text)
      → PeerMessage
  transfer_ready : (transfer_id : Text) → PeerMessage
  directory : (transfer_id relative_path : Text) → PeerMessage
  file_start : (transfer_id relative_path : Text) (size : ℕ) → PeerMessage
  file_chunk : (transfer_id : Text) (offset : ℕ) (bytes : Bytes) → PeerMessage
  file_complete : (transfer_id : Text) → PeerMessage
  transfer_complete : (transfer_id : Text) → PeerMessage
  transfer_result : (transfer_id : Text) (bytes files : ℕ) (sha256 : Text) → PeerMessage
  transfer_rejected : (transfer_id : Text) → PeerMessage
  cancel : (transfer_id : Text) → PeerMessage

pub data PeerChannelError : Type 0 where
  empty_peer_id same_peer wrong_peer authentication_failed serialization : PeerChannelError
  invalid_hash sequence_exhausted random invalid_pairing_secret : PeerChannelError
  unsupported_version : ℕ → PeerChannelError
  unexpected_sequence : (expected received : ℕ) → PeerChannelError
  missing_field : Text → PeerChannelError
  chunk_too_large : ℕ → PeerChannelError

-- `required`
unfoldable pub required : Text → Text → Result PeerChannelError (Unit {0})
required name value = if is_blank value then err (missing_field name) else ok tt

-- `valid_hash`
unfoldable pub valid_hash : Text → Result PeerChannelError (Unit {0})
valid_hash hash =
    if length hash == 64 && all is_ascii_hexdigit hash then ok tt else err invalid_hash

-- `PeerMessage::validate`
unfoldable pub validate : PeerMessage → Result PeerChannelError (Unit {0})
unfolding required valid_hash
validate (hello protocol_version) =
    reject_if (not (protocol_version == peer_protocol_version))
      (unsupported_version protocol_version)
validate (transfer_manifest transfer_id destination_folder_id idempotency_key total_bytes sha256) =
    do
      required (text "transfer_id") transfer_id
      required (text "destination_folder_id") destination_folder_id
      required (text "idempotency_key") idempotency_key
      valid_hash sha256
validate (directory transfer_id relative_path) = do
  required (text "transfer_id") transfer_id
  required (text "relative_path") relative_path
validate (file_start transfer_id relative_path size) = do
  required (text "transfer_id") transfer_id
  required (text "relative_path") relative_path
validate (file_chunk transfer_id offset bytes) = do
  required (text "transfer_id") transfer_id
  reject_if (ltb chunk_size (length bytes)) (chunk_too_large (length bytes))
  ok tt
validate (transfer_result transfer_id bytes files sha256) = do
  required (text "transfer_id") transfer_id
  valid_hash sha256
validate (transfer_ready transfer_id) = required (text "transfer_id") transfer_id
validate (file_complete transfer_id) = required (text "transfer_id") transfer_id
validate (transfer_complete transfer_id) = required (text "transfer_id") transfer_id
validate (transfer_rejected transfer_id) = required (text "transfer_id") transfer_id
validate (cancel transfer_id) = required (text "transfer_id") transfer_id
