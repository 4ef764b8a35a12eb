-- ===== src/Peer/Connection/Delivery.antt =====
-- A message goes through the channel and the socket to the other end.
use agent_send.Base.{
  ℕ, Option, length, refl, ◌⊎◌, Bytes, ◌++◌, some, ◌≡◌, inl, inr, ap, sym, subst, ◌∙◌, arith,
}
use agent_send.Base.Result.{Result, ok, err, Result-cases}
use agent_send.Core.Os.{IoError}
use agent_send.Peer.Message.{PeerMessage}
use agent_send.Peer.Channel.{Crypto, EncryptedPeerFrame, seal, open_frame}
use agent_send.Peer.Channel.Delivery.{RoundTrips, InStep, deliver}
use agent_send.Peer.Socket
use agent_send.Peer.Socket.{Stream, PeerTransportError, io}
use agent_send.Peer.Socket.Framing.{
  Transports, Delivered, arrived, failed_length, failed_body, send-receive,
}
use agent_send.Peer.Connection.{PeerConnection, transport, send_message, receive_message}

module _ (crypto : Crypto) (laws : RoundTrips crypto) (stream : Stream)
    (transports : Transports stream) where
  -- What a successful `send_message` did.
  record IsSent (m : PeerMessage) (p p' : PeerConnection crypto stream) : Type 0 where
    frame : EncryptedPeerFrame
    sealed : (seal crypto m p.secure).0 ≡ ok frame
    sent : (Socket.send stream frame p.socket).0 ≡ ok tt
    secure : p'.secure ≡ (seal crypto m p.secure).1
    socket : p'.socket ≡ (Socket.send stream frame p.socket).1

  send-IsSent :
      (m : PeerMessage) (p : PeerConnection crypto stream)
      → (send_message crypto stream m p).0 ≡ ok tt
      → IsSent m p (send_message crypto stream m p).1
  unfolding send_message
  send-IsSent m p h = elim (Result-cases (seal crypto m p.secure).0) [
    | inr (x, e) ↦ ground arith
    | inl (f, e) ↦ record {
      frame = f;
      sealed = e;
      sent = ground arith;
      secure = ground arith;
      socket = ground arith;
    }
  ]

  received :
      (m : PeerMessage) (f : EncryptedPeerFrame) (p : PeerConnection crypto stream)
      → (Socket.receive stream p.socket).0 ≡ ok (some f)
      → (open_frame crypto f p.secure).0 ≡ ok m
      → ((receive_message crypto stream p).0 ≡ ok (some m))
        × ((receive_message crypto stream p).1.secure ≡ (open_frame crypto f p.secure).1)
        × ((receive_message crypto stream p).1.socket ≡ (Socket.receive stream p.socket).1)
  unfolding receive_message
  received m f p got opens = (ground arith, ground arith, ground arith)

  -- How the other end `b` fares with a message for which `a` sent a frame of `n` bytes, and how the
  -- two ends stand: the message is received, in step, with the bytes behind it left; or a read of the
  -- socket failed, and the channel of `b` still waits for this message.
  pub data Carried (m : PeerMessage) (rest : Bytes) (n : ℕ) (a b : PeerConnection crypto stream)
      : Type 0 where
    received_in_step :
        (receive_message crypto stream b).0 ≡ ok (some m)
        → InStep
            (send_message crypto stream m a).1.secure
            (receive_message crypto stream b).1.secure
        → transports.unread (receive_message crypto stream b).1.socket ≡ rest
        → Carried m rest n a b
    read_failed :
        (e : IoError)
        → ((stream.read_exact 4 b.socket).0 ≡ err e)
          ⊎ ((stream.read_exact n (stream.read_exact 4 b.socket).1).0 ≡ err e)
        → (receive_message crypto stream b).0 ≡ err (transport (io e))
        → (receive_message crypto stream b).1.secure ≡ b.secure
        → Carried m rest n a b

  not_received :
      (e : PeerTransportError) (p : PeerConnection crypto stream) (t : stream.Socket)
      → Socket.receive stream p.socket ≡ (err e, t)
      → ((receive_message crypto stream p).0 ≡ err (transport e))
        × ((receive_message crypto stream p).1.secure ≡ p.secure)
  unfolding receive_message
  not_received e p t h = (ground (arith, h), ground (arith, h))

  carried :
      (m : PeerMessage) (a b : PeerConnection crypto stream) (rest : Bytes) (n : ℕ)
      (frame : EncryptedPeerFrame)
      → InStep a.secure b.secure
      → (seal crypto m a.secure).0 ≡ ok frame
      → (send_message crypto stream m a).1.secure ≡ (seal crypto m a.secure).1
      → (r : Result PeerTransportError (Option EncryptedPeerFrame) × stream.Socket)
      → Socket.receive stream b.socket ≡ r
      → Delivered stream transports frame rest n b.socket r
      → Carried m rest n a b
  carried m a b rest n frame step sealed secure _ e (arrived left) =
      let (opens, step') = deliver crypto laws a.secure b.secure m frame step sealed in
      let (arrives, channel, socket) = received m frame b (ap (λ x. x.0) e) opens in
      received_in_step arrives
        (subst (λ c. InStep c (receive_message crypto stream b).1.secure) (sym secure)
          (subst (λ c. InStep (seal crypto m a.secure).1 c) (sym channel) step'))
        (ap transports.unread (socket ∙ ap (λ x. x.1) e) ∙ left)
  carried m a b rest n frame step sealed secure _ e (failed_length x h) =
      let (result, channel) = not_received (io x) b _ e in read_failed x (inl h) result channel
  carried m a b rest n frame step sealed secure _ e (failed_body x h) =
      let (result, channel) = not_received (io x) b _ e in read_failed x (inr h) result channel

  -- If the cipher and the encoding round-trip and the system keeps `Transports`: when one end of a
  -- connection in step has sent a message, and the bytes that this wrote are the next ones for the
  -- other end to read, then the other end receives the message, the two ends stay in step, and the
  -- bytes behind the message are left; or a read of its socket fails, `receive` returns this error,
  -- and its channel is as it was.
  pub send-received :
      (m : PeerMessage) (a b : PeerConnection crypto stream) (wire rest : Bytes)
      → InStep a.secure b.secure
      → (send_message crypto stream m a).0 ≡ ok tt
      → transports.written (send_message crypto stream m a).1.socket
        ≡ transports.written a.socket ++ wire
      → transports.unread b.socket ≡ wire ++ rest
      → (frame : EncryptedPeerFrame) × ((seal crypto m a.secure).0 ≡ ok frame)
        × (body : Bytes) × (stream.to_vec frame ≡ some body)
        × Carried m rest (length body) a b
  send-received m a b wire rest step sent added next =
      let d = send-IsSent m a sent in
      let (body, encoded, delivered) =
        send-receive stream transports d.frame a.socket b.socket wire rest d.sent
          (ap transports.written (sym d.socket) ∙ added) next in
      (
        d.frame,
        d.sealed,
        body,
        encoded,
        carried m a b rest (length body) d.frame step d.sealed d.secure _ refl delivered,
      )
