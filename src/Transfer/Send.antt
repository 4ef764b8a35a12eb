-- ===== src/Transfer/Send.antt =====
-- `send_socket_transfer` of crates/agent-send-daemon/src/peer_transport.rs: one outgoing transfer over
-- a connection, up to the peer's answer.
pub mod Confirmed
use agent_send.Base.{
  ℕ, Text, Bool, List, [], ◌++◌, Option, none, some, ◌&&◌, ◌==◌, Text_eq, ℕ_eq, if◌then◌else◌,
}
use agent_send.Base.Result.{Result, ok, err, map_err}
use agent_send.Base.Exec.{Exec, pure, lift, ◌>>=◌, ◌>>◌}
use agent_send.Core.Os.{FileSystem, Reading, Sha256}
use agent_send.Core.Request.{TransferRequest}
use agent_send.Peer.Message.{
  PeerMessage, hello, transfer_ready, transfer_result, transfer_rejected, peer_protocol_version,
}
use agent_send.Peer.Channel.{Crypto, SecurePeerChannel}
use agent_send.Peer.Socket.{Stream, PeerTransportError}
use agent_send.Peer.Connection.{
  PeerConnection, PeerConnectionError, transport, send_message, receive_message,
}
use agent_send.Transfer.Types.{TransferEngine, TransferError, TransferOutcome, TransferProgress}
use agent_send.Transfer.Outbound.{PreparedTransfer, manifest}
use agent_send.Transfer.Collect.{prepare_outbound}
use agent_send.Transfer.Stream.{stream}

pub data SocketTransferError : Type 0 where
  transfer : TransferError → SocketTransferError
  connection : PeerConnectionError → SocketTransferError
  closed rejected unexpected_response : SocketTransferError

-- The first `match connection.receive()?`: `none` where the peer is ready for the content
unfoldable pub first_answer :
    Text → Option PeerMessage → Result SocketTransferError (Option TransferOutcome)
first_answer key (some (transfer_ready id)) = if id == key then ok none else err unexpected_response
first_answer key (some (transfer_result id bytes files sha256)) =
    if id == key
    then ok (some (record { bytes = bytes; files = files; sha256 = sha256 }))
    else err unexpected_response
first_answer key (some (transfer_rejected id)) =
    if id == key then err rejected else err unexpected_response
first_answer key (some _) = err unexpected_response
first_answer key none = err closed

-- The second one
unfoldable pub last_answer :
    Text → TransferOutcome → Option PeerMessage → Result SocketTransferError TransferOutcome
last_answer key local (some (transfer_result id bytes files sha256)) =
    if id == key && bytes == local.bytes && files == local.files && sha256 == local.sha256
    then ok local
    else err unexpected_response
last_answer key local (some (transfer_rejected id)) =
    if id == key then err rejected else err unexpected_response
last_answer key local (some _) = err unexpected_response
last_answer key local none = err closed

module _ (crypto : Crypto) (stream_type : Stream) where
  -- The connection and the reports of progress
  pub record Exchange : Type 0 where
    pub connected : PeerConnection crypto stream_type
    pub progress : List TransferProgress

  abbrev pub Exchanging : Type 0 → Type 0
  Exchanging = Exec Exchange SocketTransferError

  unfoldable pub say : PeerMessage → Exchanging Unit
  say m s =
      let (r, c) = send_message crypto stream_type m s.connected in
      (map_err connection r, record s { connected = c })

  unfoldable pub hear : Exchanging (Option PeerMessage)
  hear s =
      let (r, c) = receive_message crypto stream_type s.connected in
      (map_err connection r, record s { connected = c })

  -- The closure that `stream` is given
  unfoldable pub send_one :
      PeerMessage → Exec (PeerConnection crypto stream_type) SocketTransferError Unit
  send_one m c = let (r, c') = send_message crypto stream_type m c in (map_err connection r, c')

  module _ (fs : FileSystem) (disk : Reading fs) (d : fs.Disk) (is_cancelled : ℕ → Bool) where
    unfoldable pub stream_out : PreparedTransfer → Exchanging TransferOutcome
    unfolding send_one
    stream_out p s =
        let (r, t) = stream send_one transfer is_cancelled p fs disk d s.connected in
        (r, record { connected = t.connection; progress = s.progress ++ t.progress })

    -- What follows the first answer
    unfoldable pub after_answer :
        Text → PreparedTransfer → Option TransferOutcome → Exchanging TransferOutcome
    unfolding stream_out hear last_answer
    after_answer key p (some outcome) = pure outcome
    after_answer key p none = do
      local ← stream_out p
      answer ← hear
      lift (last_answer key local answer)

    -- All that passes over the connection
    unfoldable pub exchange : Text → PreparedTransfer → Exchanging TransferOutcome
    unfolding say hear first_answer after_answer manifest
    exchange key p = do
      say (hello peer_protocol_version)
      say (manifest p)
      answer ← hear
      earlier ← lift (first_answer key answer)
      after_answer key p earlier

    abbrev begin :
        Text
        → PreparedTransfer
        → SecurePeerChannel
        → Result PeerTransportError stream_type.Socket
        → Result SocketTransferError TransferOutcome × Option Exchange
    begin key p channel (err e) = (err (connection (transport e)), none)
    begin key p channel (ok socket) =
        let (r, s) =
          exchange key p
            (record { connected = record { secure = channel; socket = socket }; progress = [] }) in
        (r, some s)

    -- The outcome with the connection as it is dropped, and `none` in the place of an error where the
    -- fuel for collecting is used up
    abbrev prepared_then :
        Text
        → SecurePeerChannel
        → Result PeerTransportError stream_type.Socket
        → Result (Option TransferError) PreparedTransfer
        → Result (Option SocketTransferError) TransferOutcome × Option Exchange
    prepared_then key channel connect (err none) = (err none, none)
    prepared_then key channel connect (err (some e)) = (err (some (transfer e)), none)
    prepared_then key channel connect (ok p) =
        let (r, s) = begin key p channel connect in (map_err some r, s)

    -- `send_socket_transfer`: `connect` is what `SocketPeerTransport::connect` returns
    unfoldable pub send_socket_transfer :
        Sha256
        → ℕ
        → TransferEngine
        → SecurePeerChannel
        → Result PeerTransportError stream_type.Socket
        → TransferRequest
        → Result (Option SocketTransferError) TransferOutcome × Option Exchange
    unfolding exchange prepare_outbound
    send_socket_transfer sha n e channel connect r =
        prepared_then r.idempotency_key channel connect (prepare_outbound fs disk d sha n e r)
