-- ===== src/Peer/Connection.antt =====
-- `PeerConnection` of crates/agent-send-daemon/src/peer_transport.rs: an encrypted channel over a
-- socket.
pub mod Delivery
use agent_send.Base.{Option, none, some}
use agent_send.Base.Result.{Result, ok, err, map_err}
use agent_send.Peer.Message.{PeerMessage, PeerChannelError}
use agent_send.Peer.Channel.{Crypto, EncryptedPeerFrame, SecurePeerChannel, seal, open_frame}
use agent_send.Peer.Socket
use agent_send.Peer.Socket.{Stream, PeerTransportError}

-- `PeerConnectionError`
pub data PeerConnectionError : Type 0 where
  channel : PeerChannelError → PeerConnectionError
  transport : PeerTransportError → PeerConnectionError

module _ (crypto : Crypto) (stream : Stream) where
  pub record PeerConnection : Type 0 where
    pub secure : SecurePeerChannel
    pub socket : stream.Socket

  -- The frame that `seal` gives is sent, or its error returned.
  unfoldable pub send_sealed :
      Result PeerChannelError EncryptedPeerFrame × SecurePeerChannel
      → stream.Socket
      → Result PeerConnectionError (Unit {0}) × PeerConnection
  send_sealed (err e, c) s = (err (channel e), record { secure = c; socket = s })
  send_sealed (ok frame, c) s =
      let (r, s') = Socket.send stream frame s in
      (map_err transport r, record { secure = c; socket = s' })

  -- `PeerConnection::send`
  unfoldable pub send_message :
      PeerMessage → PeerConnection → Result PeerConnectionError (Unit {0}) × PeerConnection
  unfolding send_sealed
  send_message message p = send_sealed (seal crypto message p.secure) p.socket

  -- The result of `open`, with `transpose` and `map_err`
  unfoldable pub opened :
      Result PeerChannelError PeerMessage × SecurePeerChannel
      → stream.Socket
      → Result PeerConnectionError (Option PeerMessage) × PeerConnection
  opened (err e, c) s = (err (channel e), record { secure = c; socket = s })
  opened (ok message, c) s = (ok (some message), record { secure = c; socket = s })

  unfoldable pub open_received :
      Result PeerTransportError (Option EncryptedPeerFrame) × stream.Socket
      → SecurePeerChannel
      → Result PeerConnectionError (Option PeerMessage) × PeerConnection
  unfolding opened
  open_received (err e, s) c = (err (transport e), record { secure = c; socket = s })
  open_received (ok none, s) c = (ok none, record { secure = c; socket = s })
  open_received (ok (some frame), s) c = opened (open_frame crypto frame c) s

  -- `PeerConnection::receive`
  unfoldable pub receive_message :
      PeerConnection → Result PeerConnectionError (Option PeerMessage) × PeerConnection
  unfolding open_received
  receive_message p = open_received (Socket.receive stream p.socket) p.secure
