-- ===== src/Peer/Channel/Delivery.antt =====
-- What one end seals, the other end opens.
use agent_send.Base.{
  ◌+◌, ◌<◌, Text, Bytes, List, [], ◌∷◌, some, ◌≡◌, inl, inr, refl, ap, arith, ℕ_eq, Text_eq,
  text_eq_iff, length, All, Option-cases,
}
use agent_send.Base.Result.{Result, ok, ◌>>=◌}
use agent_send.Limits.{u64_mod}
use agent_send.Peer.Secret.{PairingSecret}
use agent_send.Peer.Message.{PeerMessage, validate, PeerChannelError, peer_protocol_version}
use agent_send.Peer.Frame.{nonce, associated_data}
use agent_send.Peer.Channel.{Crypto, EncryptedPeerFrame, SecurePeerChannel, new, seal, open_frame}

-- What the program relies on of the two crates: decryption undoes encryption under the same key,
-- nonce and associated data, and a message is read back from its JSON.
pub record RoundTrips (crypto : Crypto) : Type 0 where
  pub decrypts :
      (key nonce aad plaintext : Bytes) {c : Bytes}
      → crypto.encrypt key nonce aad plaintext ≡ some c
      → crypto.decrypt key nonce aad c ≡ some plaintext
  pub decodes :
      (m : PeerMessage) {b : Bytes} → crypto.to_vec m ≡ some b → crypto.from_slice b ≡ some m

-- Neither crate fails.
pub record NeverFails (crypto : Crypto) : Type 0 where
  pub encrypts :
      (key nonce aad plaintext : Bytes)
      → (c : Bytes) × (crypto.encrypt key nonce aad plaintext ≡ some c)
  pub encodes : (m : PeerMessage) → (b : Bytes) × (crypto.to_vec m ≡ some b)

-- `b` expects the next frame that `a` seals.
pub record InStep (a b : SecurePeerChannel) : Type 0 where
  pub to_b : a.peer_id ≡ b.local_id
  pub from_a : a.local_id ≡ b.peer_id
  pub key : a.send_key ≡ b.receive_key
  pub turn : a.next_send_sequence ≡ b.next_receive_sequence

module _ (crypto : Crypto) where
  -- Two devices that paired with one secret, each under the other's identifier, are in step in
  -- both directions.
  pub new-InStep :
      (id id' : Text) (secret : PairingSecret) (a b : SecurePeerChannel)
      → new crypto id (record { id = id'; secret = secret }) ≡ ok a
      → new crypto id' (record { id = id; secret = secret }) ≡ ok b
      → InStep a b × InStep b a
  unfolding new
  new-InStep id id' secret a b ha hb = ground arith

  -- What a successful `seal` made, and of what.
  record IsSealed (a : SecurePeerChannel) (m : PeerMessage) (f : EncryptedPeerFrame)
      (a' : SecurePeerChannel) : Type 0 where
    plaintext : Bytes
    encoded : crypto.to_vec m ≡ some plaintext
    version : f.version ≡ peer_protocol_version
    sender : f.sender_id ≡ a.local_id
    recipient : f.recipient_id ≡ a.peer_id
    number : f.sequence ≡ a.next_send_sequence
    encrypted :
        crypto.encrypt a.send_key
          (nonce a.next_send_sequence)
          (associated_data peer_protocol_version a.local_id a.peer_id a.next_send_sequence)
          plaintext
        ≡ some f.ciphertext
    valid : validate m ≡ ok tt
    after : a' ≡ record a { next_send_sequence = a.next_send_sequence + 1 }
    room : a.next_send_sequence + 1 < u64_mod

  seal-IsSealed :
      (a : SecurePeerChannel) (m : PeerMessage) {f : EncryptedPeerFrame}
      → (seal crypto m a).0 ≡ ok f
      → IsSealed a m f (seal crypto m a).1
  unfolding seal
  seal-IsSealed a m h = elim (Option-cases (crypto.to_vec m)) [
    | inl e ↦ ground arith
    | inr (p, e) ↦ record {
      plaintext = p;
      encoded = e;
      version = ground arith;
      sender = ground arith;
      recipient = ground arith;
      number = ground arith;
      encrypted = ground arith;
      valid = ground arith;
      after = ground arith;
      room = ground arith;
    }
  ]

  module _ (laws : RoundTrips crypto) where
    opened :
        (a b : SecurePeerChannel) (m : PeerMessage) (f : EncryptedPeerFrame)
        {a' : SecurePeerChannel}
        → InStep a b
        → IsSealed a m f a'
        → ((open_frame crypto f b).0 ≡ ok m) × InStep a' (open_frame crypto f b).1
    unfolding open_frame
    opened a b m f s d =
        let aad = associated_data peer_protocol_version a.local_id a.peer_id a.next_send_sequence in
        let decrypted : crypto.decrypt b.receive_key (nonce f.sequence)
              (associated_data f.version f.sender_id f.recipient_id f.sequence) f.ciphertext
            ≡ some d.plaintext =
          cc (
            laws.decrypts a.send_key (nonce a.next_send_sequence) aad d.plaintext d.encrypted,
            s.key,
            d.number,
            d.version,
            d.sender,
            d.recipient,
          ) in
        ground (
          arith,
          decrypted,
          text_eq_iff f.sender_id b.peer_id,
          text_eq_iff f.recipient_id b.local_id,
          laws.decodes m d.encoded,
        )

    -- If decryption undoes encryption and messages are read back from their encoding, then the other
    -- end of a channel in step opens a sealed frame as the message, and the two ends stay in step.
    pub deliver :
        (a b : SecurePeerChannel) (m : PeerMessage) (f : EncryptedPeerFrame)
        → InStep a b
        → (seal crypto m a).0 ≡ ok f
        → ((open_frame crypto f b).0 ≡ ok m) × InStep (seal crypto m a).1 (open_frame crypto f b).1
    deliver a b m f s h = let sealed = seal-IsSealed a m h in opened a b m f s sealed

abbrev relay_step :
    Crypto
    → PeerMessage
    → (SecurePeerChannel → SecurePeerChannel → Result PeerChannelError (List PeerMessage))
    → SecurePeerChannel
    → SecurePeerChannel
    → Result PeerChannelError (List PeerMessage)
relay_step crypto m rest a b =
    let (sealed, a') = seal crypto m a in
    do
      f ← sealed
      let (received, b') = open_frame crypto f b
      m' ← received
      ms ← rest a' b'
      ok (m' ∷ ms)

-- Messages that pass through a channel one after the other, each sealed and opened.
pub relay :
    Crypto
    → List PeerMessage
    → SecurePeerChannel
    → SecurePeerChannel
    → Result PeerChannelError (List PeerMessage)
relay crypto [] a b = ok []
relay crypto (m ∷ ms) a b = relay_step crypto m (relay crypto ms) a b

module _ (crypto : Crypto) (laws : RoundTrips crypto) (sound : NeverFails crypto) where
  seal-ok :
      (a : SecurePeerChannel) (m : PeerMessage)
      → validate m ≡ ok tt
      → a.next_send_sequence + 1 < u64_mod
      → (f : EncryptedPeerFrame) × ((seal crypto m a).0 ≡ ok f)
  unfolding seal
  seal-ok a m valid room =
      let (p, e) = sound.encodes m in
      let (c, e') =
        sound.encrypts a.send_key (nonce a.next_send_sequence)
          (associated_data peer_protocol_version a.local_id a.peer_id a.next_send_sequence) p in
      (
        record {
          version = peer_protocol_version;
          sender_id = a.local_id;
          recipient_id = a.peer_id;
          sequence = a.next_send_sequence;
          ciphertext = c;
        },
        ground arith,
      )

  -- If the two crates round-trip and never fail, valid messages that pass through a channel in step
  -- arrive unchanged and in their order, as long as the sequence numbers last.
  pub relay-eq-ok :
      (ms : List PeerMessage) (a b : SecurePeerChannel)
      → InStep a b
      → All (λ m. validate m ≡ ok tt) ms
      → a.next_send_sequence + length ms < u64_mod
      → relay crypto ms a b ≡ ok ms
  unfolding relay
  relay-eq-ok [] a b s valid room = refl
  relay-eq-ok (m ∷ ms) a b s valid room =
      let (f, sealed) = seal-ok a m valid.0 (omega arith) in
      let (arrived, s') = deliver crypto laws a b m f s sealed in
      let d = seal-IsSealed crypto a m sealed in
      let turn = ap (λ (x : SecurePeerChannel). x.next_send_sequence) d.after in
      rw (sealed, arrived)
        (rw (relay-eq-ok ms (seal crypto m a).1 (open_frame crypto f b).1 s' valid.1 (omega arith)))
