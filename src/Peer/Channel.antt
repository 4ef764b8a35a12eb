-- ===== src/Peer/Channel.antt =====
-- `SecurePeerChannel` of crates/agent-send-daemon/src/peer_transport.rs. The cipher
-- (chacha20poly1305), the key derivation (hkdf) and the JSON encoding (serde_json) are parameters.
pub mod Replay
pub mod Delivery
use agent_send.Base.{
  ℕ, ◌+◌, ◌<◌, Text, Bytes, List, [], ◌∷◌, Bool, not, ◌||◌, Option, none, some, ◌≡◌, if◌then◌else◌,
  ◌==◌, ℕ_eq, Text_eq, is_blank, ltb,
}
use agent_send.Base.Result.{Result, ok, err, reject_if, ok_or}
use agent_send.Base.Exec.{Exec, pure, raise, lift, gets, ◌>>=◌, ◌>>◌}
use agent_send.Limits.{u64_mod}
use agent_send.Peer.Secret.{PairingSecret, PairedPeer}
use agent_send.Peer.Message.{
  PeerMessage, validate, PeerChannelError, empty_peer_id, same_peer, unsupported_version,
  wrong_peer, unexpected_sequence, authentication_failed, serialization, sequence_exhausted,
  peer_protocol_version,
}
use agent_send.Peer.Frame.{key_domain, key_info, nonce, associated_data}

-- What the channel takes from other crates. A cipher call may fail.
pub record Crypto : Type 0 where
  -- `Hkdf::<Sha256>::new(Some(salt), secret)` expanded by `info` to 32 bytes
  pub hkdf : (salt secret info : Bytes) → Bytes
  -- `encrypt` and `decrypt` under a key, a nonce and associated data
  pub encrypt : (key nonce aad plaintext : Bytes) → Option Bytes
  pub decrypt : (key nonce aad ciphertext : Bytes) → Option Bytes
  -- `serde_json::to_vec` and `serde_json::from_slice` at `PeerMessage`
  pub to_vec : PeerMessage → Option Bytes
  pub from_slice : Bytes → Option PeerMessage

pub record EncryptedPeerFrame : Type 0 where
  pub version : ℕ
  pub sender_id : Text
  pub recipient_id : Text
  pub sequence : ℕ
  pub ciphertext : Bytes

-- A cipher is kept as the key that it was made from.
pub record SecurePeerChannel : Type 0 where
  pub local_id : Text
  pub peer_id : Text
  pub send_key : Bytes
  pub receive_key : Bytes
  pub next_send_sequence : ℕ
  pub next_receive_sequence : ℕ

-- `u64::checked_add(1)`
abbrev pub checked_next : ℕ → Option ℕ
checked_next n = if ltb (n + 1) u64_mod then some (n + 1) else none

abbrev pub Channel : Type 0 → Type 0
Channel = Exec SecurePeerChannel PeerChannelError

module _ (crypto : Crypto) where
  open crypto use {hkdf, encrypt, decrypt, to_vec, from_slice}

  -- `derive_key`
  unfoldable pub derive_key : Text → Text → PairingSecret → Bytes
  derive_key sender_id recipient_id secret =
      hkdf key_domain secret.bytes (key_info sender_id recipient_id)

  -- `SecurePeerChannel::new`
  unfoldable pub new : Text → PairedPeer → Result PeerChannelError SecurePeerChannel
  new local_id peer =
      if is_blank local_id
      then err empty_peer_id
      else if local_id == peer.id
      then err same_peer
      else ok (record {
        local_id = local_id;
        peer_id = peer.id;
        send_key = derive_key local_id peer.id peer.secret;
        receive_key = derive_key peer.id local_id peer.secret;
        next_send_sequence = 0;
        next_receive_sequence = 0;
      })

  set_next_send : ℕ → Channel Unit
  set_next_send n c = (ok tt, record c { next_send_sequence = n })

  set_next_receive : ℕ → Channel Unit
  set_next_receive n c = (ok tt, record c { next_receive_sequence = n })

  -- `SecurePeerChannel::seal`
  unfoldable pub seal : PeerMessage → Channel EncryptedPeerFrame
  unfolding set_next_send
  seal message = do
    lift (validate message)
    sequence ← gets (λ c. c.next_send_sequence)
    next ← lift (ok_or (checked_next sequence) sequence_exhausted)
    set_next_send next
    plaintext ← lift (ok_or (to_vec message) serialization)
    sender_id ← gets (λ c. c.local_id)
    recipient_id ← gets (λ c. c.peer_id)
    key ← gets (λ c. c.send_key)
    ciphertext ← lift (
        ok_or
          (encrypt key (nonce sequence)
            (associated_data peer_protocol_version sender_id recipient_id sequence) plaintext)
          authentication_failed)
    pure (record {
      version = peer_protocol_version;
      sender_id = sender_id;
      recipient_id = recipient_id;
      sequence = sequence;
      ciphertext = ciphertext;
    })

  -- `SecurePeerChannel::open`
  unfoldable pub open_frame : EncryptedPeerFrame → Channel PeerMessage
  unfolding set_next_receive
  open_frame frame = do
    lift (
        reject_if (not (frame.version == peer_protocol_version))
          (unsupported_version frame.version))
    c ← gets (λ c. c)
    lift (
        reject_if (not (frame.sender_id == c.peer_id) || not (frame.recipient_id == c.local_id))
          wrong_peer)
    lift (
        reject_if (not (frame.sequence == c.next_receive_sequence))
          (unexpected_sequence c.next_receive_sequence frame.sequence))
    plaintext ← lift (
        ok_or
          (decrypt c.receive_key (nonce frame.sequence)
            (associated_data frame.version frame.sender_id frame.recipient_id frame.sequence)
            frame.ciphertext)
          authentication_failed)
    message ← lift (ok_or (from_slice plaintext) serialization)
    lift (validate message)
    next ← lift (ok_or (checked_next c.next_receive_sequence) sequence_exhausted)
    set_next_receive next
    pure message
