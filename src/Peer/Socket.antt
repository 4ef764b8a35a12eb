-- ===== src/Peer/Socket.antt =====
-- `SocketPeerTransport` of crates/agent-send-daemon/src/peer_transport.rs: frames on a stream of
-- bytes, each behind its length. The stream and the JSON encoding of a frame are parameters.
pub mod Framing
use agent_send.Base.{
  ℕ, ◌+◌, ◌*◌, Bytes, List, [], ◌∷◌, Option, none, some, ◌||◌, ltb, length, ◌==◌, ℕ_eq,
}
use agent_send.Base.Result.{Result, ok, err, ok_or, map_err, reject_if}
use agent_send.Base.Exec.{Exec, pure, raise, lift, continue, ◌>>=◌, ◌>>◌}
use agent_send.Core.Os.{IoError, os, not_found, invalid_data, invalid_input, unexpected_eof}
use agent_send.Peer.Frame.{to_be_bytes}
use agent_send.Peer.Channel.{EncryptedPeerFrame}

-- `PeerTransportError`
pub data PeerTransportError : Type 0 where
  unavailable serialization frame_too_large : PeerTransportError
  io : IoError → PeerTransportError

-- `MAX_FRAME_BYTES`
abbrev pub max_frame_bytes : ℕ
max_frame_bytes = 2 * 1024 * 1024

-- `TcpStream` with its time limits: `write_all`, `flush` and `read_exact`, any of which may fail;
-- and `serde_json::to_vec` and `serde_json::from_slice` at a frame.
pub record Stream : Type 1 where
  pub Socket : Type 0
  pub write_all : Bytes → Exec Socket IoError Unit
  pub flush : Exec Socket IoError Unit
  pub read_exact : (count : ℕ) → Exec Socket IoError Bytes
  pub to_vec : EncryptedPeerFrame → Option Bytes
  pub from_slice : Bytes → Option EncryptedPeerFrame

-- `u32::from_be_bytes`, from the bytes read so far
unfoldable pub from_be_bytes : ℕ → Bytes → ℕ
from_be_bytes acc [] = acc
from_be_bytes acc (b ∷ bs) = from_be_bytes (acc * 256 + b) bs

module _ (stream : Stream) where
  abbrev pub Transport : Type 0 → Type 0
  Transport = Exec stream.Socket PeerTransportError

  abbrev on_stream : {A : Type 0} → Exec stream.Socket IoError A → Transport A
  on_stream call s = let (r, s') = call s in (map_err io r, s')

  -- `SocketPeerTransport::send`; `as u32` keeps a length below the limit as it is
  unfoldable pub send : EncryptedPeerFrame → Transport Unit
  send frame = do
    bytes ← lift (ok_or (stream.to_vec frame) serialization)
    lift (reject_if (ltb max_frame_bytes (length bytes)) frame_too_large)
    on_stream (stream.write_all (to_be_bytes 4 (length bytes)))
    on_stream (stream.write_all bytes)
    on_stream stream.flush

  -- What follows the length.
  unfoldable pub receive_body : ℕ → Transport (Option EncryptedPeerFrame)
  receive_body count = do
    lift (reject_if (count == 0 || ltb max_frame_bytes count) frame_too_large)
    bytes ← on_stream (stream.read_exact count)
    frame ← lift (ok_or (stream.from_slice bytes) serialization)
    pure (some frame)

  -- The `match` on the reading of the length. A stream that ends here is a closed connection.
  unfoldable pub receive_length :
      Result IoError Bytes × stream.Socket
      → Result PeerTransportError (Option EncryptedPeerFrame) × stream.Socket
  unfolding receive_body from_be_bytes
  receive_length (ok bytes, s) = receive_body (from_be_bytes 0 bytes) s
  receive_length (err unexpected_eof, s) = (ok none, s)
  receive_length (err (os code), s) = (err (io (os code)), s)
  receive_length (err not_found, s) = (err (io not_found), s)
  receive_length (err invalid_data, s) = (err (io invalid_data), s)
  receive_length (err invalid_input, s) = (err (io invalid_input), s)

  -- `SocketPeerTransport::receive`
  unfoldable pub receive : Transport (Option EncryptedPeerFrame)
  unfolding receive_length
  receive s = receive_length (stream.read_exact 4 s)
