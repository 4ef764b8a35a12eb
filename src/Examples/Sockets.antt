-- ===== src/Examples/Sockets.antt =====
-- Frames on a stream in memory, and the limits of an outgoing transfer.
use agent_send.Base.{
  ℕ, zero, suc, ◌≤◌, ◌<◌, ap, ◌∙◌, inl, inr, Bool-cases, text, Bytes, List, [], ◌∷◌, ◌++◌, Option,
  text_eq, none, some, ◌≡◌, ◌≢◌, refl, sym, subst, arith, length, leb, if◌then◌else◌,
}
use agent_send.Base.Result.{Result, ok, err}
use agent_send.Base.Map.{get}
use agent_send.Core.Os.{IoError, unexpected_eof}
use agent_send.Core.Paths.{components, render}
use agent_send.Peer.Frame.{to_be_bytes}
use agent_send.Peer.Channel.{EncryptedPeerFrame}
use agent_send.Peer.Socket.{Stream, send, receive}
use agent_send.Peer.Socket.Framing.{Transports, Delivered, send-receive}
use agent_send.Transfer.Types.{FileItem}
use agent_send.Transfer.Outbound.{
  measure, IsMeasured, measure-iff-IsMeasured, transfer_total_bytes, count_files,
}
use agent_send.Peer.Message.{hello, validate}
use agent_send.Peer.Channel.{seal}
use agent_send.Peer.Connection.{PeerConnection, send_message}
use agent_send.Peer.Connection.Delivery.{Carried, send-received}
use agent_send.Examples.Channels.{desk, phone, in_step}
use agent_send.Examples.World.{memory, disk}
use agent_send.Examples.Wire.{split_at, split_at-append, toy, toy-RoundTrips}

abbrev take : ℕ → Bytes → Result IoError Bytes × Bytes
take n s =
    let (front, back) = split_at n s in
    if leb n (length s) then (ok front, back) else (err unexpected_eof, [])

abbrev encode : EncryptedPeerFrame → Bytes
encode f =
    f.version
    ∷ f.sequence
    ∷ length f.sender_id
    ∷ length f.recipient_id
    ∷ (f.sender_id ++ (f.recipient_id ++ f.ciphertext))

abbrev decode_fields : ℕ → ℕ → ℕ → ℕ → Bytes → EncryptedPeerFrame
decode_fields v n a b xs =
    let (s, rest) = split_at a xs in
    let (r, c) = split_at b rest in
    record { version = v; sender_id = s; recipient_id = r; sequence = n; ciphertext = c }

abbrev decode : Bytes → Option EncryptedPeerFrame
decode (v ∷ n ∷ a ∷ b ∷ xs) = some (decode_fields v n a b xs)
decode _ = none

abbrev pub pipe : Stream
pipe = record {
  Socket = Bytes;
  write_all = λ b s. (ok tt, s ++ b);
  flush = λ s. (ok tt, s);
  read_exact = take;
  to_vec = λ f. some (encode f);
  from_slice = decode;
}

split_at-joins : (n : ℕ) (s : Bytes) → (split_at n s).0 ++ (split_at n s).1 ≡ s
split_at-joins zero s = refl
split_at-joins (suc n) [] = refl
split_at-joins (suc n) (x ∷ s) = ap (λ t. x ∷ t) (split_at-joins n s)

split_at-length : (n : ℕ) (s : Bytes) → n ≤ length s → length (split_at n s).0 ≡ n
split_at-length zero s h = refl
split_at-length (suc n) [] h = absurd (omega (arith, h))
split_at-length (suc n) (x ∷ s) h = omega (arith, split_at-length n s (omega (arith, h)))

take-ok :
    (n : ℕ) (s : Bytes) {b : Bytes} → (take n s).0 ≡ ok b → (length b ≡ n) × (s ≡ b ++ (take n s).1)
take-ok n s {b} h = elim (Bool-cases (leb n (length s))) [
  | inr short ↦ absurd (ground (arith, short, h))
  | inl long ↦
      let front : (split_at n s).0 ≡ b = ground (arith, long, h) in
      let fits : n ≤ length s = ground (arith, long) in
      let back : (take n s).1 ≡ (split_at n s).1 = ground (arith, long) in
      (
        ap length (sym front) ∙ split_at-length n s fits,
        sym (split_at-joins n s)
            ∙ (ap (λ t. t ++ (split_at n s).1) front ∙ ap (λ t. b ++ t) (sym back)),
      )
]

take-ends : (n : ℕ) (s : Bytes) → (take n s).0 ≡ err unexpected_eof → length s < n
take-ends n s h = ground (arith, h)

decode-encode : (f : EncryptedPeerFrame) → decode (encode f) ≡ some f
decode-encode f =
    rw
      (
        split_at-append f.sender_id (f.recipient_id ++ f.ciphertext),
        split_at-append f.recipient_id f.ciphertext,
      )
      refl

decodes_of :
    (f : EncryptedPeerFrame) (b : Bytes) → some (encode f) ≡ some b → (decode b ≡ some f) × (b ≢ [])
decodes_of f b h =
    let e : encode f ≡ b = cc h in
    subst (λ x. (decode x ≡ some f) × (x ≢ [])) e (decode-encode f, λ x. cc x)

-- A socket with the bytes that its peer gives it to read, and those it has written.
abbrev pub duplex : Stream
duplex = record {
  Socket = Bytes × Bytes;
  write_all = λ b s. (ok tt, (s.0, s.1 ++ b));
  flush = λ s. (ok tt, s);
  read_exact = λ n s. ((take n s.0).0, ((take n s.0).1, s.1));
  to_vec = λ f. some (encode f);
  from_slice = decode;
}

duplex-Transports : Transports duplex
duplex-Transports = record {
  written = λ s. s.1;
  unread = λ s. s.0;
  writes = λ b s h. refl;
  flushes = λ s. refl;
  reads = λ n s {b} h. take-ok n s.0 h;
  ends = λ n s h. take-ends n s.0 h;
  decodes = λ f {b} h. decodes_of f b h;
}

abbrev frame : EncryptedPeerFrame
frame = record {
  version = 1;
  sender_id = text "desk";
  recipient_id = text "phone";
  sequence = 0;
  ciphertext = 9 ∷ 8 ∷ [];
}

-- The desk has written before, and the phone has read.
abbrev desk_socket : Bytes × Bytes
desk_socket = ([], 5 ∷ 5 ∷ [])

sent : (send duplex frame desk_socket).0 ≡ ok tt
unfolding send
sent = refl

abbrev wire : Bytes
wire = to_be_bytes 4 (length (encode frame)) ++ encode frame

added : (send duplex frame desk_socket).1.1 ≡ 5 ∷ 5 ∷ wire
unfolding send
added = refl

send-receive_example :
    (body : Bytes) × (some (encode frame) ≡ some body)
    × Delivered duplex duplex-Transports frame
        (1 ∷ 2 ∷ [])
        (length body)
        (wire ++ (1 ∷ 2 ∷ []), 6 ∷ [])
        (receive duplex (wire ++ (1 ∷ 2 ∷ []), 6 ∷ []))
unfolding duplex-Transports send
send-receive_example =
    send-receive duplex duplex-Transports frame desk_socket (wire ++ (1 ∷ 2 ∷ []), 6 ∷ []) wire
      (1 ∷ 2 ∷ []) sent added refl

abbrev items : List FileItem
items =
    record { source = text "/in/note.txt"; relative = text "note.txt"; size = 2 }
    ∷ record { source = text "/in"; relative = text "in"; size = 0 }
    ∷ []

measures : measure memory disk items ≡ ok 2
unfolding measure transfer_total_bytes count_files get text_eq render components
measures = refl

measure-iff-IsMeasured_example : IsMeasured items 2
measure-iff-IsMeasured_example = (measure-iff-IsMeasured memory disk items 2).0 measures

-- Two connections over the stream, in step.
abbrev pub desk_end : PeerConnection toy pipe
desk_end = record { secure = desk; socket = [] }

abbrev hello_wire : Bytes
hello_wire =
    let (r, c) = send_message toy duplex (hello 1) (record { secure = desk; socket = ([], []) }) in
    c.socket.1

abbrev phone_end : PeerConnection toy duplex
phone_end = record { secure = phone; socket = (hello_wire ++ (7 ∷ []), []) }

abbrev desk_duplex : PeerConnection toy duplex
desk_duplex = record { secure = desk; socket = ([], 5 ∷ []) }

hello_sent : (send_message toy duplex (hello 1) desk_duplex).0 ≡ ok tt
unfolding send_message seal validate send
hello_sent = refl

hello_added : (send_message toy duplex (hello 1) desk_duplex).1.socket.1 ≡ 5 ∷ hello_wire
unfolding send_message seal validate send
hello_added = refl

send-received_example :
    (f : EncryptedPeerFrame) × ((seal toy (hello 1) desk).0 ≡ ok f)
    × (body : Bytes) × (some (encode f) ≡ some body)
    × Carried toy toy-RoundTrips duplex duplex-Transports
        (hello 1)
        (7 ∷ [])
        (length body)
        desk_duplex
        phone_end
unfolding duplex-Transports send_message
send-received_example =
    send-received toy toy-RoundTrips duplex duplex-Transports (hello 1) desk_duplex phone_end
      hello_wire (7 ∷ []) in_step hello_sent hello_added refl
