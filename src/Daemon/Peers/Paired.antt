-- ===== src/Daemon/Peers/Paired.antt =====
-- Only paired peers are talked to.
use agent_send.Base.{
  ℕ, Text, Bool, true, false, not, Option, none, some, ◌+◌, ◌≡◌, ◌≢◌, refl, ap, ◌∙◌, arith, ◌==◌,
  Text_eq, text_eq_iff,
}
use agent_send.Base.Result.{
  Result, ok, err, ok_or, map_err, reject_if, >>=-eq-ok, reject_if-eq-ok, ok_or-eq-ok,
}
use agent_send.Core.Os.{FileSystem, Reading, Sha256}
use agent_send.Core.Request.{TransferRequest}
use agent_send.Peer.Message.{PeerMessage, hello, PeerChannelError, peer_protocol_version}
use agent_send.Peer.Secret.{PairedPeer}
use agent_send.Peer.Frame.{nonce, associated_data}
use agent_send.Peer.Channel
use agent_send.Peer.Channel.{Crypto, EncryptedPeerFrame, SecurePeerChannel, derive_key, open_frame}
use agent_send.Peer.Channel.Replay.{open_frame-IsAccepted}
use agent_send.Peer.Socket
use agent_send.Peer.Socket.{Stream, PeerTransportError}
use agent_send.Peer.Connection.{PeerConnection}
use agent_send.Registry.Types.{PeerRecord, PeerRegistry}
use agent_send.Registry.Pairing.{paired_peer}
use agent_send.Transfer.Types.{TransferEngine, TransferOutcome}
use agent_send.Transfer.Send.{send_socket_transfer}
use agent_send.Base.Map.{get}
use agent_send.Daemon.Types.{DaemonError, peer_channel}
use agent_send.Daemon.Agents.{trusted_record, endpoint, wrap_error, send_agent_socket_transfer}
use agent_send.Daemon.Peers.{accept, greeted, with_channel, with_peer, with_frame}

module _ (crypto : Crypto) (identity_id : Text) (registry : PeerRegistry) (stream : Stream) where
  -- What the peer has shown on a connection that is accepted: the first frame names a paired peer and
  -- this device, has number zero, and its text is authentic under the key of that pair and direction.
  pub record IsPaired (socket : stream.Socket) (c : PeerConnection crypto stream) : Type 0 where
    pub frame : EncryptedPeerFrame
    pub received : (Socket.receive stream socket).0 ≡ ok (some frame)
    pub peer : PairedPeer
    pub paired : paired_peer registry frame.sender_id ≡ some peer
    pub sender : frame.sender_id ≡ peer.id
    pub recipient : frame.recipient_id ≡ identity_id
    pub first : frame.sequence ≡ 0
    pub authentic :
        crypto.decrypt
          (derive_key crypto peer.id identity_id peer.secret)
          (nonce 0)
          (associated_data peer_protocol_version peer.id identity_id 0)
          frame.ciphertext
        ≢ none
    pub next : c.secure.next_receive_sequence ≡ 1

  greeted-eq-some :
      (r : Result PeerChannelError PeerMessage × SecurePeerChannel) (socket : stream.Socket)
      {c : PeerConnection crypto stream}
      → greeted crypto identity_id registry stream r socket ≡ some c
      → (r.0 ≡ ok (hello peer_protocol_version)) × (c.secure ≡ r.1)
  greeted-eq-some (ok (hello v), channel) socket h = (ground arith, ground arith)
  greeted-eq-some (ok _, channel) socket h = (ground arith, ground arith)
  greeted-eq-some (err e, channel) socket h = (ground arith, ground arith)

  with_channel-eq-some :
      (made : Result PeerChannelError SecurePeerChannel) (frame : EncryptedPeerFrame)
      (socket : stream.Socket) {c : PeerConnection crypto stream}
      → with_channel crypto identity_id registry stream made frame socket ≡ some c
      → (channel : SecurePeerChannel) × (made ≡ ok channel)
        × (greeted crypto identity_id registry stream (open_frame crypto frame channel) socket
            ≡ some c)
  with_channel-eq-some (ok channel) frame socket h = (channel, refl, h)
  with_channel-eq-some (err e) frame socket h = absurd (ground (arith, h))

  with_peer-eq-some :
      (known : Option PairedPeer) (frame : EncryptedPeerFrame) (socket : stream.Socket)
      {c : PeerConnection crypto stream}
      → with_peer crypto identity_id registry stream known frame socket ≡ some c
      → (peer : PairedPeer) × (known ≡ some peer)
        × (with_channel crypto identity_id registry stream
              (Channel.new crypto identity_id peer)
              frame
              socket
            ≡ some c)
  with_peer-eq-some (some peer) frame socket h = (peer, refl, h)
  with_peer-eq-some none frame socket h = absurd (ground (arith, h))

  with_frame-eq-some :
      (r : Result PeerTransportError (Option EncryptedPeerFrame) × stream.Socket)
      {c : PeerConnection crypto stream}
      → with_frame crypto identity_id registry stream r ≡ some c
      → (frame : EncryptedPeerFrame) × (r.0 ≡ ok (some frame))
        × (with_peer crypto identity_id registry stream
              (paired_peer registry frame.sender_id)
              frame
              r.1
            ≡ some c)
  with_frame-eq-some (ok (some frame), socket) h = (frame, refl, h)
  with_frame-eq-some (ok none, socket) h = absurd (ground (arith, h))
  with_frame-eq-some (err e, socket) h = absurd (ground (arith, h))

  -- A channel of this device and a peer, before any frame
  made-keys :
      (peer : PairedPeer) {channel : SecurePeerChannel}
      → Channel.new crypto identity_id peer ≡ ok channel
      → (channel.peer_id ≡ peer.id)
        × (channel.local_id ≡ identity_id)
        × (channel.next_receive_sequence ≡ 0)
        × (channel.receive_key ≡ derive_key crypto peer.id identity_id peer.secret)
  unfolding Channel.new
  made-keys peer h = (ground arith, ground arith, ground arith, ground arith)

  opened-authentic :
      (frame : EncryptedPeerFrame) (channel : SecurePeerChannel) {m : PeerMessage}
      → (open_frame crypto frame channel).0 ≡ ok m
      → crypto.decrypt channel.receive_key
          (nonce frame.sequence)
          (associated_data frame.version frame.sender_id frame.recipient_id frame.sequence)
          frame.ciphertext
        ≢ none
  unfolding open_frame
  opened-authentic frame channel h e = ground arith

  authentic-under :
      (frame : EncryptedPeerFrame) (channel : SecurePeerChannel) (peer : PairedPeer)
      → crypto.decrypt channel.receive_key
          (nonce frame.sequence)
          (associated_data frame.version frame.sender_id frame.recipient_id frame.sequence)
          frame.ciphertext
        ≢ none
      → channel.receive_key ≡ derive_key crypto peer.id identity_id peer.secret
      → frame.version ≡ peer_protocol_version
      → frame.sender_id ≡ peer.id
      → frame.recipient_id ≡ identity_id
      → frame.sequence ≡ 0
      → crypto.decrypt
          (derive_key crypto peer.id identity_id peer.secret)
          (nonce 0)
          (associated_data peer_protocol_version peer.id identity_id 0)
          frame.ciphertext
        ≢ none
  authentic-under frame channel peer h key version sender recipient first bad =
      h (rw (key, version, sender, recipient, first) bad)

  -- A connection on which a transfer may begin comes from a peer that is paired: its first frame names
  -- the peer and this device, has number zero, and decrypts under the key of the secret that the
  -- registry holds for the peer. The channel then expects number one.
  pub accept-IsPaired :
      (socket : stream.Socket) (c : PeerConnection crypto stream)
      → accept crypto identity_id registry stream socket ≡ some c
      → IsPaired socket c
  unfolding accept
  accept-IsPaired socket c h =
      let (frame, received, h1) = with_frame-eq-some (Socket.receive stream socket) h in
      let (peer, paired, h2) =
        with_peer-eq-some (paired_peer registry frame.sender_id) frame _ h1 in
      let (channel, made, h3) =
        with_channel-eq-some (Channel.new crypto identity_id peer) frame _ h2 in
      let (opened, secure) = greeted-eq-some (open_frame crypto frame channel) _ h3 in
      let a = open_frame-IsAccepted crypto channel frame opened in
      let (its, ours, zero, key) = made-keys peer made in
      let sender : frame.sender_id ≡ peer.id = a.sender ∙ its in
      let recipient : frame.recipient_id ≡ identity_id = a.recipient ∙ ours in
      let first : frame.sequence ≡ 0 = a.in_turn ∙ zero in
      record {
        frame = frame;
        received = received;
        peer = peer;
        paired = paired;
        sender = sender;
        recipient = recipient;
        first = first;
        authentic =
            authentic-under frame channel peer (opened-authentic frame channel opened) key a.version
              sender recipient first;
        next =
            ap (λ (x : SecurePeerChannel). x.next_receive_sequence) (secure ∙ a.after)
            ∙ ap (λ n. n + 1) zero;
      }

module _ (crypto : Crypto) (stream : Stream) (fs : FileSystem) (disk : Reading fs) (d : fs.Disk)
    (is_cancelled : ℕ → Bool) (sha : Sha256) {SocketAddr : Type 0}
    (parse_address : Text → Option SocketAddr)
    (connect : SocketAddr → Result PeerTransportError stream.Socket) where
  -- Whom a transfer goes to: the peer that the request names, which the registry trusts, at the
  -- address of its record, over a channel with the secret that the registry holds for it.
  pub record IsToTrusted (n : ℕ) (identity_id : Text) (registry : PeerRegistry)
      (engine : TransferEngine) (peer_id : Text) (r : TransferRequest) (o : TransferOutcome)
      : Type 0 where
    pub named : r.peer_id ≡ peer_id
    pub known : PeerRecord
    pub found : get registry.peers peer_id ≡ some known
    pub trusted : known.trusted ≡ true
    pub address : SocketAddr
    pub parsed : parse_address known.advertisement.address ≡ some address
    pub peer : PairedPeer
    pub paired : paired_peer registry peer_id ≡ some peer
    pub channel : SecurePeerChannel
    pub made : Channel.new crypto identity_id peer ≡ ok channel
    pub sent :
        (send_socket_transfer crypto stream fs disk d is_cancelled sha n engine channel
          (connect address)
          r).0
        ≡ ok o

  map_err-eq-ok :
      {E F A : Type 0} (f : E → F) (r : Result E A) {a : A} → map_err f r ≡ ok a → r ≡ ok a
  map_err-eq-ok f (ok x) h = ground arith
  map_err-eq-ok f (err e) h = ground arith

  trusted_record-eq-some :
      (known : Option PeerRecord) {k : PeerRecord}
      → trusted_record known ≡ some k
      → (known ≡ some k) × (k.trusted ≡ true)
  trusted_record-eq-some none h = (ground arith, ground arith)
  trusted_record-eq-some (some k) h = (ground arith, ground arith)

  ok-injective : {A : Type 0} {a b : A} → ◌≡◌ {A = Result DaemonError A} (ok a) (ok b) → a ≡ b
  ok-injective h = ground arith

  named_by : (a b : Text) → not (a == b) ≡ false → a ≡ b
  named_by a b h = (text_eq_iff a b).0 (ground arith)

  -- A transfer that succeeds went to the peer that the request names, which is trusted and paired, over
  -- a channel made from its stored secret, to the address of its record.
  pub send_agent_socket_transfer-IsToTrusted :
      (n : ℕ) (identity_id : Text) (registry : PeerRegistry) (engine : TransferEngine)
      (peer_id : Text) (r : TransferRequest) (o : TransferOutcome)
      → send_agent_socket_transfer crypto stream fs disk d is_cancelled sha parse_address connect n
          identity_id registry engine peer_id r
        ≡ ok o
      → IsToTrusted n identity_id registry engine peer_id r o
  unfolding send_agent_socket_transfer endpoint
  send_agent_socket_transfer-IsToTrusted n identity_id registry engine peer_id r o h =
      let refusal = DaemonError.untrusted_peer peer_id in
      let (_, same, h1) = >>=-eq-ok (reject_if (not (r.peer_id == peer_id)) (some refusal)) _ h in
      let (end, at, h2) =
        >>=-eq-ok
          (map_err some (
            endpoint crypto stream fs disk d is_cancelled sha parse_address connect registry
              peer_id))
          _ h1 in
      let (channel, made, h3) =
        >>=-eq-ok (map_err (λ e. some (peer_channel e)) (Channel.new crypto identity_id end.1)) _
          h2 in
      let (known, found, g1) =
        >>=-eq-ok (ok_or (trusted_record (get registry.peers peer_id)) refusal) _
          (map_err-eq-ok some _ at) in
      let (address, parsed, g2) =
        >>=-eq-ok (ok_or (parse_address known.advertisement.address) refusal) _ g1 in
      let (peer, paired, g3) = >>=-eq-ok (ok_or (paired_peer registry peer_id) refusal) _ g2 in
      let ends : (address, peer) ≡ end = ok-injective g3 in
      let (there, its_trust) =
        trusted_record-eq-some (get registry.peers peer_id) (ok_or-eq-ok _ _ found) in
      record {
        named = named_by r.peer_id peer_id (reject_if-eq-ok _ _ same);
        known = known;
        found = there;
        trusted = its_trust;
        address = end.0;
        parsed = ok_or-eq-ok _ _ parsed ∙ ap (λ x. some x.0) ends;
        peer = end.1;
        paired = ok_or-eq-ok _ _ paired ∙ ap (λ x. some x.1) ends;
        channel = channel;
        made = map_err-eq-ok (λ e. some (peer_channel e)) _ made;
        sent =
            map_err-eq-ok
              (wrap_error crypto stream fs disk d is_cancelled sha parse_address connect) _ h3;
      }
