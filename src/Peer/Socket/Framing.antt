-- ===== src/Peer/Socket/Framing.antt =====
-- What one end sends on a stream, the other end receives.
use agent_send.Base.{
  ℕ, zero, suc, Option, sym, length-append, ◌+◌, ◌*◌, ◌/◌, ◌%◌, ◌^◌, ◌≤◌, ◌<◌, Bytes, [], ◌∷◌, ◌++◌,
  some, ◌≡◌, ◌≢◌, refl, subst, ap, ◌∙◌, arith, length, Option-cases, inl, inr,
}
use agent_send.Base.Result.{Result, ok, err, Result-cases}
use agent_send.Core.Os.{IoError, os, not_found, invalid_data, invalid_input, unexpected_eof}
use agent_send.Peer.Frame.{to_be_bytes}
use agent_send.Peer.Frame.Binding.{length-to_be_bytes}
use agent_send.Peer.Channel.{EncryptedPeerFrame}
use agent_send.Peer.Socket.{
  Stream, PeerTransportError, io, send, receive, receive_length, receive_body, from_be_bytes,
  max_frame_bytes,
}
use native.Mathlib.Nat.{pow-suc}
use mathlib.Core.List.{append_assoc}

-- What is relied on of a stream and of the encoding. A socket has written some bytes, and its peer
-- gives it some bytes to read before it closes its end; the two have nothing to do with each other.
-- A successful write adds its bytes to the ones written. A successful read takes as many bytes as
-- it asks for from the front of those to be read. Any call may fail, but a read finds the end of the
-- stream only where it asks for more than is left. A frame is read back from its encoding, which is
-- not empty.
pub record Transports (stream : Stream) : Type 0 where
  pub written : stream.Socket → Bytes
  pub unread : stream.Socket → Bytes
  pub writes :
      (b : Bytes) (s : stream.Socket)
      → (stream.write_all b s).0 ≡ ok tt
      → written (stream.write_all b s).1 ≡ written s ++ b
  pub flushes : (s : stream.Socket) → written (stream.flush s).1 ≡ written s
  pub reads :
      (n : ℕ) (s : stream.Socket) {b : Bytes}
      → (stream.read_exact n s).0 ≡ ok b
      → (length b ≡ n) × (unread s ≡ b ++ unread (stream.read_exact n s).1)
  pub ends :
      (n : ℕ) (s : stream.Socket)
      → (stream.read_exact n s).0 ≡ err unexpected_eof
      → length (unread s) < n
  pub decodes :
      (f : EncryptedPeerFrame) {b : Bytes}
      → stream.to_vec f ≡ some b
      → (stream.from_slice b ≡ some f) × (b ≢ [])

-- Two texts with equal fronts of the same length.
append-cut : (a b x y : Bytes) → length a ≡ length b → (a ++ x) ≡ (b ++ y) → (a ≡ b) × (x ≡ y)
append-cut [] [] x y n e = (refl, e)
append-cut [] (c ∷ b) x y n e = absurd (omega (arith, n))
append-cut (c ∷ a) [] x y n e = absurd (omega (arith, n))
append-cut (c ∷ a) (d ∷ b) x y n e =
    let (same, rest) = append-cut a b x y (omega (arith, n)) (ground (arith, e)) in
    (ground (arith, e, same), rest)

append-cancel : (a x y : Bytes) → (a ++ x) ≡ (a ++ y) → x ≡ y
append-cancel a x y e = (append-cut a a x y refl e).1

from_be_bytes-append :
    (acc c : ℕ) (bs : Bytes) → from_be_bytes acc (bs ++ (c ∷ [])) ≡ from_be_bytes acc bs * 256 + c
unfolding from_be_bytes
from_be_bytes-append acc c [] = refl
from_be_bytes-append acc c (b ∷ bs) = from_be_bytes-append (acc * 256 + b) c bs

-- A number is read back from its bytes.
pub from_be_bytes-to_be_bytes : (w n : ℕ) → n < 256 ^ w → from_be_bytes 0 (to_be_bytes w n) ≡ n
unfolding from_be_bytes to_be_bytes
from_be_bytes-to_be_bytes zero n h = omega (arith, h)
from_be_bytes-to_be_bytes (suc w) n h =
    let room = pow-suc 256 w in
    let high = from_be_bytes-to_be_bytes w (n / 256) (omega (arith, h, room)) in
    let low = from_be_bytes-append 0 (n % 256) (to_be_bytes w (n / 256)) in omega (arith, high, low)

nonempty : (x : Bytes) → x ≢ [] → (b : ℕ) × (bs : Bytes) × (x ≡ b ∷ bs)
nonempty [] h = absurd (h refl)
nonempty (b ∷ bs) h = (b, bs, refl)

module _ (stream : Stream) (laws : Transports stream) where
  -- What a successful `send` adds to the bytes written.
  record IsSent (f : EncryptedPeerFrame) (s s' : stream.Socket) : Type 0 where
    body : Bytes
    encoded : stream.to_vec f ≡ some body
    fits : length body ≤ max_frame_bytes
    added : laws.written s' ≡ laws.written s ++ (to_be_bytes 4 (length body) ++ body)

  send-IsSent :
      (f : EncryptedPeerFrame) (s : stream.Socket)
      → (send stream f s).0 ≡ ok tt
      → IsSent f s (send stream f s).1
  unfolding send
  send-IsSent f s h = elim (Option-cases (stream.to_vec f)) [
    | inl e ↦ ground arith
    | inr (body, e) ↦
        let size = to_be_bytes 4 (length body) in
        let s1 = (stream.write_all size s).1 in
        let s2 = (stream.write_all body s1).1 in
        let first : (stream.write_all size s).0 ≡ ok tt = ground arith in
        let second : (stream.write_all body s1).0 ≡ ok tt = ground arith in
        let end : (send stream f s).1 ≡ (stream.flush s2).1 = ground arith in
        record {
          body = body;
          encoded = e;
          fits = ground arith;
          added =
              ap laws.written end
              ∙ laws.flushes s2
              ∙ laws.writes body s1 second
              ∙ ap (λ b. b ++ body) (laws.writes size s first)
              ∙ append_assoc (laws.written s) size body;
        }
  ]

  -- A read that ends well where these bytes stand in front takes exactly them, and one that does not
  -- end well has not found the end of the stream.
  read-front :
      (b rest : Bytes) (s : stream.Socket) {x : Bytes}
      → laws.unread s ≡ b ++ rest
      → (stream.read_exact (length b) s).0 ≡ ok x
      → (x ≡ b) × (laws.unread (stream.read_exact (length b) s).1 ≡ rest)
  read-front b rest s {x} e h =
      let (n, split) = laws.reads (length b) s h in append-cut x b _ rest n (sym split ∙ e)

  front-open :
      (b rest : Bytes) (s : stream.Socket)
      → laws.unread s ≡ b ++ rest
      → (stream.read_exact (length b) s).0 ≢ err unexpected_eof
  front-open b rest s e h =
      let short = laws.ends (length b) s h in
      absurd (omega (arith, short, length-append b rest, ap length e))

  -- The frame has been received and the bytes behind it are left, or one of the two reads that
  -- `receive` makes has failed and its error is the result.
  pub data Delivered (f : EncryptedPeerFrame) (rest : Bytes) (n : ℕ) (t : stream.Socket)
      : Result PeerTransportError (Option EncryptedPeerFrame) × stream.Socket → Type 0 where
    arrived : {t' : stream.Socket} → laws.unread t' ≡ rest → Delivered f rest n t (ok (some f), t')
    failed_length :
        {t' : stream.Socket} (e : IoError)
        → (stream.read_exact 4 t).0 ≡ err e
        → Delivered f rest n t (err (io e), t')
    failed_body :
        {t' : stream.Socket} (e : IoError)
        → (stream.read_exact n (stream.read_exact 4 t).1).0 ≡ err e
        → Delivered f rest n t (err (io e), t')

  receive_length-err :
      (e : IoError) (s : stream.Socket)
      → e ≢ unexpected_eof
      → receive_length stream (err e, s) ≡ (err (io e), s)
  unfolding receive_length
  receive_length-err unexpected_eof s h = absurd (h refl)
  receive_length-err (os code) s h = refl
  receive_length-err not_found s h = refl
  receive_length-err invalid_data s h = refl
  receive_length-err invalid_input s h = refl

  receive_body-ok :
      (f : EncryptedPeerFrame) (body : Bytes) (s : stream.Socket)
      → stream.to_vec f ≡ some body
      → length body ≤ max_frame_bytes
      → (stream.read_exact (length body) s).0 ≡ ok body
      → receive_body stream (length body) s ≡ (ok (some f), (stream.read_exact (length body) s).1)
  unfolding receive_body
  receive_body-ok f body s encoded fits h =
      let (decoded, some_bytes) = laws.decodes f encoded in
      let (b, bs, shape) = nonempty body some_bytes in ground arith

  receive_body-err :
      (f : EncryptedPeerFrame) (body : Bytes) (s : stream.Socket) (e : IoError)
      → stream.to_vec f ≡ some body
      → length body ≤ max_frame_bytes
      → (stream.read_exact (length body) s).0 ≡ err e
      → receive_body stream (length body) s ≡ (err (io e), (stream.read_exact (length body) s).1)
  unfolding receive_body
  receive_body-err f body s e encoded fits h =
      let (b, bs, shape) = nonempty body (laws.decodes f encoded).1 in ground arith

  length-read :
      (n : ℕ) (s : stream.Socket) (r : Result IoError Bytes)
      → (stream.read_exact (length (to_be_bytes 4 n)) s).0 ≡ r
      → (stream.read_exact 4 s).0 ≡ r
  length-read n s r h = subst (λ k. (stream.read_exact k s).0 ≡ r) (length-to_be_bytes 4 n) h

  receive-Delivered :
      (f : EncryptedPeerFrame) (body rest : Bytes) (t : stream.Socket)
      → stream.to_vec f ≡ some body
      → length body ≤ max_frame_bytes
      → laws.unread t ≡ to_be_bytes 4 (length body) ++ (body ++ rest)
      → Delivered f rest (length body) t (receive stream t)
  unfolding receive receive_length
  receive-Delivered f body rest t encoded fits e =
      let size = to_be_bytes 4 (length body) in
      let four : length size ≡ 4 = length-to_be_bytes 4 (length body) in
      let t1 = (stream.read_exact 4 t).1 in
      elim (Result-cases (stream.read_exact 4 t).0) [
        | inr (x, h) ↦
            let open_end : x ≢ unexpected_eof = λ at. front-open size (body ++ rest) t e (
              subst (λ k. (stream.read_exact k t).0 ≡ err unexpected_eof) (sym four)
                (h ∙ ap err at)) in
            subst (Delivered f rest (length body) t)
              (sym (ap (λ r. receive_length stream (r, t1)) h ∙ receive_length-err x t1 open_end))
              (failed_length x h)
        | inl (x, h) ↦
            let (same, left) =
              subst
                (λ k.
                  (stream.read_exact k t).0 ≡ ok x
                  → (x ≡ size) × (laws.unread (stream.read_exact k t).1 ≡ body ++ rest))
                four (read-front size (body ++ rest) t e) h in
            let number : from_be_bytes 0 x ≡ length body =
              ap (from_be_bytes 0) same
              ∙ from_be_bytes-to_be_bytes 4 (length body) (omega (arith, fits)) in
            let goes : receive stream t ≡ receive_body stream (length body) t1 =
              ap (λ r. receive_length stream (r, t1)) h
              ∙ ap (λ k. receive_body stream k t1) number in
            elim (Result-cases (stream.read_exact (length body) t1).0) [
              | inr (y, k) ↦
                  subst (Delivered f rest (length body) t)
                    (sym (goes ∙ receive_body-err f body t1 y encoded fits k)) (failed_body y k)
              | inl (y, k) ↦
                  let (all, after) = read-front body rest t1 left k in
                  subst (Delivered f rest (length body) t)
                    (sym (goes ∙ receive_body-ok f body t1 encoded fits (k ∙ ap ok all)))
                    (arrived after)
            ]
      ]

  -- On a system that keeps `Transports`: if a frame was sent by a successful `send`, and the bytes
  -- that this `send` wrote are the next ones for another socket to read, whatever stands behind
  -- them, then `receive` on that socket gives the frame and leaves what stands behind it, or one of
  -- its two reads fails and its error is the result. It never takes the frame for another one, for a
  -- closed connection or for a frame that is too large or does not parse.
  pub send-receive :
      (f : EncryptedPeerFrame) (s t : stream.Socket) (wire rest : Bytes)
      → (send stream f s).0 ≡ ok tt
      → laws.written (send stream f s).1 ≡ laws.written s ++ wire
      → laws.unread t ≡ wire ++ rest
      → (body : Bytes) × (stream.to_vec f ≡ some body)
        × Delivered f rest (length body) t (receive stream t)
  send-receive f s t wire rest sent added next =
      let d = send-IsSent f s sent in
      let size = to_be_bytes 4 (length d.body) in
      let wire_is : wire ≡ size ++ d.body =
        append-cancel (laws.written s) wire (size ++ d.body) (sym added ∙ d.added) in
      (
        d.body,
        d.encoded,
        receive-Delivered f d.body rest t d.encoded d.fits
            (next ∙ ap (λ b. b ++ rest) wire_is ∙ append_assoc size d.body rest),
      )
