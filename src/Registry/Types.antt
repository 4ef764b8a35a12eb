-- ===== src/Registry/Types.antt =====
-- The records of `PeerRegistry`, and `StoredPeerTrust` of peer_storage.rs.
use agent_send.Base.{ℕ, Text, [], Bool}
use agent_send.Base.Result.{Result, map_err, ◌>>=◌}
use agent_send.Base.Map.{Map}
use agent_send.Core.Os.{IoError}
use agent_send.Peer.Message.{PeerChannelError}
use agent_send.Peer.Secret.{PairingSecret, PairedPeer, to_hex, from_hex, new_paired_peer}

pub record PeerAdvertisement : Type 0 where
  pub id : Text
  pub alias : Text
  pub address : Text
  pub api_version : ℕ

pub record PeerRecord : Type 0 where
  pub advertisement : PeerAdvertisement
  pub trusted : Bool

pub record PairingResponse : Type 0 where
  pub peer_id : Text
  pub code : Text
  pub pairing_secret : Text
  pub expires_in_seconds : ℕ

pub data PairingError : Type 0 where
  invalid_peer_id invalid_code incomplete_material : PairingError
  secret : PeerChannelError → PairingError

pub record PendingPairing : Type 0 where
  pub code : Text
  pub secret : PairingSecret
  pub expires_at : ℕ

pub record PeerRegistry : Type 0 where
  pub peers : Map PeerRecord
  pub trusted : Map PairedPeer
  pub pending : Map PendingPairing

-- `PeerRegistry::default`
abbrev pub empty : PeerRegistry
empty = record { peers = []; trusted = []; pending = [] }

pub data PeerTrustStoreError : Type 0 where
  io : IoError → PeerTrustStoreError
  invalid invalid_secret : PeerTrustStoreError

pub record StoredPeerTrust : Type 0 where
  pub peer_record : PeerRecord
  pub pairing_secret : Text

-- `StoredPeerTrust::new`
unfoldable pub stored : PeerRecord → PairingSecret → StoredPeerTrust
stored r s = record { peer_record = r; pairing_secret = to_hex s }

-- `StoredPeerTrust::paired_peer`
unfoldable pub stored_peer : StoredPeerTrust → Result PeerTrustStoreError PairedPeer
stored_peer t = do
  s ← map_err (λ _. invalid_secret) (from_hex t.pairing_secret)
  map_err (λ _. invalid_secret) (new_paired_peer t.peer_record.advertisement.id s)
