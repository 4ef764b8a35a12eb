-- ===== src/Daemon/Types.antt =====
-- Errors and answers of crates/agent-send-daemon/src/lib.rs. A JSON text of an answer is kept as the
-- value that is written.
use agent_send.Base.{Text, text, List, Option}
use agent_send.Core.Os.{IoError}
use agent_send.Core.Request.{FolderDirection, TransferRequest}
use agent_send.Peer.Message.{PeerChannelError}
use agent_send.Registry.Types.{
  PeerAdvertisement, PeerRecord, PairingError, PairingResponse, PeerTrustStoreError,
}
use agent_send.Transfer.Send.{SocketTransferError}
use agent_send.Automation.Types.{AutomationError, AgentTransferStatus}

-- `DaemonError`; an address is its text, the error of discovery is not told apart.
pub data DaemonError : Type 0 where
  non_loopback_bind : Text → DaemonError
  missing_identity_path : DaemonError
  config : IoError → DaemonError
  identity : IoError → DaemonError
  peer_storage : PeerTrustStoreError → DaemonError
  pairing : PairingError → DaemonError
  bind : IoError → DaemonError
  discovery : DaemonError
  untrusted_peer : Text → DaemonError
  peer_channel : PeerChannelError → DaemonError
  socket_transfer : SocketTransferError → DaemonError
  automation : AutomationError → DaemonError
  shutdown : DaemonError

-- What an answer is serialized from. The source has no type of its own for this: each arm of
-- `handle_agent_request` and `handle_connection` serializes a value, or a literal text of JSON, and
-- each of these values is one constructor here.
pub data Body : Type 0 where
  empty : Body
  failure : Text → Body
  health : (identity_id : Text) → Body
  peers : List PeerRecord → Body
  folders : List (Text × FolderDirection) → Body
  transfer : AgentTransferStatus → Body
  invitation : PairingResponse → Body
  confirmed_true confirmed_false revoked_true : Body

-- A status line and a body
pub record Answer : Type 0 where
  pub status : Text
  pub body : Body

-- `agent_error`
abbrev pub agent_error : Text → Text → Answer
agent_error status code = record { status = status; body = failure code }

abbrev pub bad_request : Answer
bad_request = agent_error (text "400 Bad Request") (text "invalid_request")

-- `serde_json::from_str` and `serde_json::from_value` at the requests of the local API
pub record Json : Type 1 where
  pub Value : Type 0
  -- `AgentOperationRequest`: the operation and the parameters
  pub operation_request : Text → Option (Text × Value)
  pub transfer_request : Value → Option TransferRequest
  -- `PairingRequest`: the advertisement, the code and the secret
  pub pairing_request : Text → Option (PeerAdvertisement × Option Text × Option Text)
  -- `ConfirmPairing`: the peer and the code
  pub confirm_pairing : Text → Option (Text × Text)
  -- `TransferIdParams`
  pub transfer_id : Value → Option Text
