-- ===== src/Peer/Channel/Replay.antt =====
-- What a channel lets through, whoever writes the frames.
use agent_send.Base.{
  ℕ, zero, suc, ◌+◌, ◌<◌, List, [], ◌∷◌, ◌≡◌, inl, inr, refl, ap, arith, ℕ_eq, Text_eq, text_eq_iff,
  length,
}
use agent_send.Base.Result.{Result, ok, err, Result-cases}
use agent_send.Limits.{u64_mod}
use agent_send.Peer.Message.{
  PeerMessage, validate, PeerChannelError, unexpected_sequence, peer_protocol_version,
}
use agent_send.Peer.Channel.{Crypto, EncryptedPeerFrame, SecurePeerChannel, open_frame}

-- What is known of a frame that was opened, and of the channel after it.
pub record IsAccepted (c : SecurePeerChannel) (f : EncryptedPeerFrame) (m : PeerMessage)
    (c' : SecurePeerChannel) : Type 0 where
  pub version : f.version ≡ peer_protocol_version
  pub sender : f.sender_id ≡ c.peer_id
  pub recipient : f.recipient_id ≡ c.local_id
  pub in_turn : f.sequence ≡ c.next_receive_sequence
  pub valid : validate m ≡ ok tt
  pub after : c' ≡ record c { next_receive_sequence = c.next_receive_sequence + 1 }
  pub room : c.next_receive_sequence + 1 < u64_mod

replayed :
    (crypto : Crypto) (c : SecurePeerChannel) (f : EncryptedPeerFrame) {m : PeerMessage}
    {c' : SecurePeerChannel}
    → IsAccepted c f m c'
    → (open_frame crypto f c').0 ≡ err (unexpected_sequence (f.sequence + 1) f.sequence)
unfolding open_frame
replayed crypto c f a =
    ground (arith, text_eq_iff f.sender_id c.peer_id, text_eq_iff f.recipient_id c.local_id)

module _ (crypto : Crypto) (c : SecurePeerChannel) (f : EncryptedPeerFrame) where
  -- A frame that is refused leaves the channel as it was, for whatever reason it is refused.
  pub open_frame-fails_closed :
      {e : PeerChannelError} → (open_frame crypto f c).0 ≡ err e → (open_frame crypto f c).1 ≡ c
  unfolding open_frame
  open_frame-fails_closed h = ground arith

  -- A frame that is opened carries the protocol version, the peers and the number that the channel
  -- expects, and a valid message; the channel then expects the next number, which fits in 64 bits.
  pub open_frame-IsAccepted :
      {m : PeerMessage}
      → (open_frame crypto f c).0 ≡ ok m
      → IsAccepted c f m (open_frame crypto f c).1
  unfolding open_frame
  open_frame-IsAccepted h =
      ground (arith, text_eq_iff f.sender_id c.peer_id, text_eq_iff f.recipient_id c.local_id)

  -- Opening the same frame once more is refused as out of order.
  pub open_frame-replay :
      {m : PeerMessage}
      → (open_frame crypto f c).0 ≡ ok m
      → (open_frame crypto f (open_frame crypto f c).1).0
        ≡ err (unexpected_sequence (f.sequence + 1) f.sequence)
  open_frame-replay h = replayed crypto c f (open_frame-IsAccepted h)

-- The numbers of the frames that are accepted out of a sequence of them, and the channel at the end.
abbrev noted : Result PeerChannelError PeerMessage → ℕ → List ℕ → List ℕ
noted (ok m) n ns = n ∷ ns
noted (err e) n ns = ns

pub accept_all : Crypto → List EncryptedPeerFrame → SecurePeerChannel → List ℕ × SecurePeerChannel
accept_all crypto [] c = ([], c)
accept_all crypto (f ∷ fs) c =
    let (result, c') = open_frame crypto f c in
    let (ns, last) = accept_all crypto fs c' in (noted result f.sequence ns, last)

-- `count` numbers from `start` on
pub upto : ℕ → ℕ → List ℕ
upto start zero = []
upto start (suc count) = start ∷ upto (start + 1) count

numbered :
    {n start next : ℕ} {ns : List ℕ}
    → n ≡ start
    → next ≡ start + 1
    → ns ≡ upto next (length ns)
    → n ∷ ns ≡ upto start (suc (length ns))
unfolding upto
numbered {n} {start} {next} {ns} e f h = cc (e, h, f)

-- Whatever frames arrive, in whatever order and however often, those that are accepted carry the
-- consecutive numbers from the channel's next one on.
pub accept_all-upto :
    (crypto : Crypto) (fs : List EncryptedPeerFrame) (c : SecurePeerChannel)
    → (accept_all crypto fs c).0 ≡ upto c.next_receive_sequence (length (accept_all crypto fs c).0)
unfolding accept_all upto
accept_all-upto crypto [] c = refl
accept_all-upto crypto (f ∷ fs) c = elim (Result-cases (open_frame crypto f c).0) [
  | inr (e, refused) ↦
      rw refused (rw (open_frame-fails_closed crypto c f refused) (accept_all-upto crypto fs c))
  | inl (m, opened) ↦
      let a = open_frame-IsAccepted crypto c f opened in
      let rest = accept_all-upto crypto fs (open_frame crypto f c).1 in
      rw opened
        (numbered a.in_turn (ap (λ (x : SecurePeerChannel). x.next_receive_sequence) a.after) rest)
]
