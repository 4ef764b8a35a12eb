-- ===== src/Daemon/Peers.antt =====
-- `handle_peer_connection` and the methods of `Daemon` about peers, of
-- crates/agent-send-daemon/src/lib.rs.
pub mod Paired
use agent_send.Base.{
  ℕ, suc, Text, List, [], ◌∷◌, Bool, true, false, not, Option, none, some, ◌==◌, ℕ_eq, Text_eq,
  if◌then◌else◌, length,
}
use agent_send.Base.Result.{Result, ok, err, ok_or, map_err, reject_if, ◌>>=◌, ◌>>◌}
use agent_send.Core.Os.{FileSystem, Reading, Sha256}
use agent_send.Core.Request.{TransferRequest}
use agent_send.Peer.Message.{PeerMessage, hello, PeerChannelError, peer_protocol_version}
use agent_send.Peer.Secret.{PairedPeer, from_hex}
use agent_send.Peer.Channel
use agent_send.Peer.Channel.{Crypto, EncryptedPeerFrame, SecurePeerChannel, open_frame}
use agent_send.Peer.Socket
use agent_send.Peer.Socket.{Stream, PeerTransportError}
use agent_send.Peer.Connection.{PeerConnection}
use agent_send.Registry.Types.{
  PeerAdvertisement, PeerRegistry, PairingResponse, PeerTrustStoreError, StoredPeerTrust,
}
use agent_send.Registry.Types
use agent_send.Registry.Code.{Entropy}
use agent_send.Registry.Pairing
use agent_send.Registry.Pairing.{advertise, paired_peer, restore_trusted}
use agent_send.Registry.Persistence.{PeerTrustStore}
use agent_send.Transfer.Types.{TransferEngine, TransferOutcome}
use agent_send.Daemon.Types.{
  DaemonError, untrusted_peer, peer_channel, pairing, peer_storage, discovery,
}
use agent_send.Daemon.Agents.{send_agent_socket_transfer}

module _ (crypto : Crypto) (identity_id : Text) (registry : PeerRegistry) where
  abbrev channel_with : Option PairedPeer → Text → Result DaemonError SecurePeerChannel
  channel_with none peer_id = err (untrusted_peer peer_id)
  channel_with (some peer) peer_id = map_err peer_channel (Channel.new crypto identity_id peer)

  -- `Daemon::secure_peer_channel`
  unfoldable pub secure_peer_channel : Text → Result DaemonError SecurePeerChannel
  unfolding paired_peer Channel.new
  secure_peer_channel peer_id = channel_with (paired_peer registry peer_id) peer_id

  module _ (stream : Stream) where
    abbrev is_hello : Result PeerChannelError PeerMessage → Bool
    is_hello (ok (hello protocol_version)) = protocol_version == peer_protocol_version
    is_hello _ = false

    -- The channel of a paired peer, opened with its first frame
    abbrev greeted :
        Result PeerChannelError PeerMessage × SecurePeerChannel
        → stream.Socket
        → Option (PeerConnection crypto stream)
    greeted (r, channel) socket =
        if is_hello r then some (record { secure = channel; socket = socket }) else none

    abbrev with_channel :
        Result PeerChannelError SecurePeerChannel
        → EncryptedPeerFrame
        → stream.Socket
        → Option (PeerConnection crypto stream)
    with_channel (err e) frame socket = none
    with_channel (ok channel) frame socket = greeted (open_frame crypto frame channel) socket

    abbrev with_peer :
        Option PairedPeer
        → EncryptedPeerFrame
        → stream.Socket
        → Option (PeerConnection crypto stream)
    with_peer none frame socket = none
    with_peer (some peer) frame socket =
        with_channel (Channel.new crypto identity_id peer) frame socket

    abbrev with_frame :
        Result PeerTransportError (Option EncryptedPeerFrame) × stream.Socket
        → Option (PeerConnection crypto stream)
    with_frame (ok (some frame), socket) =
        with_peer (paired_peer registry frame.sender_id) frame socket
    with_frame (ok none, socket) = none
    with_frame (err e, socket) = none

    -- `handle_peer_connection` up to the transfer: the connection on which `receive_socket_transfer` is
    -- called, or none where the socket is dropped. The time limits are set before.
    unfoldable pub accept : stream.Socket → Option (PeerConnection crypto stream)
    unfolding open_frame Socket.receive paired_peer Channel.new
    accept socket = with_frame (Socket.receive stream socket)

-- The loop of `Daemon::discover_peers`
unfoldable pub advertise_all : List PeerAdvertisement → PeerRegistry → PeerRegistry
unfolding advertise
advertise_all [] r = r
advertise_all (a ∷ rest) r = advertise_all rest (advertise a r)

-- `Daemon::discover_peers`: `found` is what the discovery adapter returns, or none where it fails
unfoldable pub discover_peers :
    Option (List PeerAdvertisement) → PeerRegistry → Result DaemonError ℕ × PeerRegistry
unfolding advertise_all
discover_peers none r = (err discovery, r)
discover_peers (some found) r = (ok (length found), advertise_all found r)

-- `Daemon::request_pairing`
unfoldable pub request_pairing :
    PeerAdvertisement
    → ℕ
    → Entropy
    → PeerRegistry
    → Result DaemonError PairingResponse × PeerRegistry
unfolding Pairing.request_pairing
request_pairing a now entropy r =
    let (response, r') = Pairing.request_pairing a now entropy r in (map_err pairing response, r')

-- `Daemon::request_pairing_with_material`
unfoldable pub request_pairing_with :
    PeerAdvertisement
    → Text
    → Text
    → ℕ
    → Entropy
    → PeerRegistry
    → Result DaemonError PairingResponse × PeerRegistry
unfolding from_hex Pairing.request_pairing_with_material
request_pairing_with a code pairing_secret now entropy r = elim (from_hex pairing_secret) [
  | err e ↦ (err (peer_channel e), r)
  | ok secret ↦
      let (response, r') =
        Pairing.request_pairing_with_material a now entropy (some (code, secret)) r in
      (map_err pairing response, r')
]

module _ (store : PeerTrustStore) where
  abbrev restored :
      Result PeerTrustStoreError (Unit {0}) × PeerRegistry → Result DaemonError PeerRegistry
  restored (ok u, r) = ok r
  restored (err e, r) = err (peer_storage e)

  -- `load_trusted_peers`
  unfoldable pub load_trusted_peers : store.Store → Result DaemonError PeerRegistry
  unfolding restore_trusted
  load_trusted_peers s = do
    peers ← map_err peer_storage (store.load s)
    restored (restore_trusted peers Types.empty)

module _ (crypto : Crypto) (stream : Stream) (fs : FileSystem) (disk : Reading fs) (d : fs.Disk)
    (is_cancelled : ℕ → Bool) (sha : Sha256) {SocketAddr : Type 0}
    (parse_address : Text → Option SocketAddr)
    (connect : SocketAddr → Result PeerTransportError stream.Socket) where
  -- `Daemon::send_to_peer_socket`
  unfoldable pub send_to_peer_socket :
      ℕ
      → Text
      → PeerRegistry
      → TransferEngine
      → Text
      → TransferRequest
      → Result (Option DaemonError) TransferOutcome
  unfolding send_agent_socket_transfer
  send_to_peer_socket n identity_id registry engine peer_id r = do
    reject_if (not (r.peer_id == peer_id)) (some (untrusted_peer peer_id))
    send_agent_socket_transfer crypto stream fs disk d is_cancelled sha parse_address connect n
        identity_id registry engine peer_id r
