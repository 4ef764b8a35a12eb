-- ===== src/Transfer/Send/Confirmed.antt =====
-- What the success of an outgoing transfer rests on.
use agent_send.Base.{
  ℕ, Text, Bool, Option, none, some, Text_eq, ℕ_eq, ◌≡◌, ◌↔◌, sym, ap, ◌∙◌, arith, text_eq_iff,
  text_eq_refl,
}
use agent_send.Base.Result.{Result, ok}
use agent_send.Base.Exec.{lift, >>=-runs, >>-runs}
use agent_send.Core.Os.{FileSystem, Reading}
use agent_send.Peer.Message.{
  PeerMessage, hello, transfer_ready, transfer_result, transfer_rejected, peer_protocol_version,
}
use agent_send.Peer.Channel.{Crypto}
use agent_send.Peer.Socket.{Stream}
use agent_send.Transfer.Types.{TransferOutcome}
use agent_send.Transfer.Outbound.{PreparedTransfer, manifest}
use agent_send.Transfer.Receive.{result_message}
use agent_send.Transfer.Send.{
  SocketTransferError, first_answer, last_answer, Exchange, say, hear, stream_out, after_answer,
  exchange,
}

first_answer-eq-some :
    (key : Text) (answer : Option PeerMessage) {o : TransferOutcome}
    → first_answer key answer ≡ ok (some o)
    → answer ≡ some (result_message key o)
unfolding first_answer result_message
first_answer-eq-some key (some (transfer_result id b f hash)) h = ground (arith, text_eq_iff id key)
first_answer-eq-some key (some (transfer_ready id)) h = ground arith
first_answer-eq-some key (some (transfer_rejected id)) h = ground arith
first_answer-eq-some key (some _) h = ground arith
first_answer-eq-some key none h = ground arith

first_answer-eq-none :
    (key : Text) (answer : Option PeerMessage)
    → first_answer key answer ≡ ok none
    → answer ≡ some (transfer_ready key)
unfolding first_answer
first_answer-eq-none key (some (transfer_ready id)) h = ground (arith, text_eq_iff id key)
first_answer-eq-none key (some (transfer_result id b f hash)) h = ground arith
first_answer-eq-none key (some (transfer_rejected id)) h = ground arith
first_answer-eq-none key (some _) h = ground arith
first_answer-eq-none key none h = ground arith

last_answer-eq-ok :
    (key : Text) (local : TransferOutcome) (answer : Option PeerMessage) {o : TransferOutcome}
    → last_answer key local answer ≡ ok o
    → (o ≡ local) × (answer ≡ some (result_message key o))
unfolding last_answer result_message
last_answer-eq-ok key local (some (transfer_result id b f hash)) h =
    (ground arith, ground (arith, text_eq_iff id key, text_eq_iff hash local.sha256))
last_answer-eq-ok key local (some (transfer_rejected id)) h = (ground arith, ground arith)
last_answer-eq-ok key local (some _) h = (ground arith, ground arith)
last_answer-eq-ok key local none h = (ground arith, ground arith)

module _ (crypto : Crypto) (stream_type : Stream) where
  module _ (fs : FileSystem) (disk : Reading fs) (d : fs.Disk) (is_cancelled : ℕ → Bool)
      (key : Text) (p : PreparedTransfer) (s : Exchange crypto stream_type) where
    -- The states that the exchange goes through
    abbrev after_hello : Exchange crypto stream_type
    after_hello = (say crypto stream_type (hello peer_protocol_version) s).1

    abbrev after_manifest : Exchange crypto stream_type
    after_manifest = (say crypto stream_type (manifest p) after_hello).1

    abbrev first_heard : Result SocketTransferError (Option PeerMessage)
    first_heard = (hear crypto stream_type after_manifest).0

    abbrev streaming : Result SocketTransferError TransferOutcome × Exchange crypto stream_type
    streaming =
        stream_out crypto stream_type fs disk d is_cancelled p
          (hear crypto stream_type after_manifest).1

    abbrev last_heard : Result SocketTransferError (Option PeerMessage)
    last_heard = (hear crypto stream_type streaming.1).0

    -- The two ways to succeed, once the greeting and the manifest are sent: the peer answers the
    -- manifest with the outcome, or it is ready, the content is streamed with the outcome, and the
    -- peer answers with the same outcome.
    pub data IsConfirmed (o : TransferOutcome) : Type 0 where
      earlier :
          (say crypto stream_type (hello peer_protocol_version) s).0 ≡ ok tt
          → (say crypto stream_type (manifest p) after_hello).0 ≡ ok tt
          → first_heard ≡ ok (some (result_message key o))
          → IsConfirmed o
      streamed :
          (say crypto stream_type (hello peer_protocol_version) s).0 ≡ ok tt
          → (say crypto stream_type (manifest p) after_hello).0 ≡ ok tt
          → first_heard ≡ ok (some (transfer_ready key))
          → streaming.0 ≡ ok o
          → last_heard ≡ ok (some (result_message key o))
          → IsConfirmed o

    module _ (greeted : (say crypto stream_type (hello peer_protocol_version) s).0 ≡ ok tt)
        (offered : (say crypto stream_type (manifest p) after_hello).0 ≡ ok tt)
        (answer : Option PeerMessage) (answered : first_heard ≡ ok answer) where
      confirmed :
          (found : Option TransferOutcome) {o : TransferOutcome}
          → first_answer key answer ≡ ok found
          → (after_answer crypto stream_type fs disk d is_cancelled key p found
              (hear crypto stream_type after_manifest).1).0
            ≡ ok o
          → IsConfirmed o
      unfolding after_answer
      confirmed (some earlier_outcome) {o} first h =
          let same : earlier_outcome ≡ o = ground arith in
          let said = first_answer-eq-some key answer (first ∙ ap (λ x. ok (some x)) same) in
          earlier greeted offered (answered ∙ ap ok said)
      confirmed none first h =
          let said = first_answer-eq-none key answer first in
          let t = (hear crypto stream_type after_manifest).1 in
          let (local, all, run) =
            >>=-runs (stream_out crypto stream_type fs disk d is_cancelled p) _ t h in
          let h' = ap (λ r. r.0) (sym run) ∙ h in
          let (last, told, run') =
            >>=-runs (hear crypto stream_type) (λ answer. lift (last_answer key local answer))
              streaming.1 h' in
          let (same, final) = last_answer-eq-ok key local last (ap (λ r. r.0) (sym run') ∙ h') in
          streamed greeted offered (answered ∙ ap ok said) (all ∙ ap ok (sym same))
            (told ∙ ap ok final)

    exchange→IsConfirmed :
        {o : TransferOutcome}
        → (exchange crypto stream_type fs disk d is_cancelled key p s).0 ≡ ok o
        → IsConfirmed o
    unfolding exchange
    exchange→IsConfirmed {o} h =
        let (_, greeted, run1) =
          >>-runs (say crypto stream_type (hello peer_protocol_version)) _ s h in
        let h1 = ap (λ r. r.0) (sym run1) ∙ h in
        let (_, offered, run2) = >>-runs (say crypto stream_type (manifest p)) _ after_hello h1 in
        let h2 = ap (λ r. r.0) (sym run2) ∙ h1 in
        let (answer, answered, run3) = >>=-runs (hear crypto stream_type) _ after_manifest h2 in
        let h3 = ap (λ r. r.0) (sym run3) ∙ h2 in
        let t = (hear crypto stream_type after_manifest).1 in
        let (found, first, run4) =
          >>=-runs (lift (first_answer key answer))
            (after_answer crypto stream_type fs disk d is_cancelled key p) t h3 in
        confirmed greeted offered answer answered found first (ap (λ r. r.0) (sym run4) ∙ h3)

    IsConfirmed→exchange :
        {o : TransferOutcome}
        → IsConfirmed o
        → (exchange crypto stream_type fs disk d is_cancelled key p s).0 ≡ ok o
    unfolding exchange after_answer first_answer last_answer result_message
    IsConfirmed→exchange (earlier greeted offered said) =
        ground (arith, greeted, offered, said, text_eq_refl key)
    IsConfirmed→exchange {o} (streamed greeted offered said all told) =
        ground (arith, greeted, offered, said, all, told, text_eq_refl key, text_eq_refl o.sha256)

    -- An exchange succeeds with an outcome exactly if the greeting and the manifest are sent and
    -- either the peer answers the manifest with the request's key and this outcome, or the peer
    -- answers that it is ready, the content is streamed with this outcome, and the peer then answers
    -- with the key and the same bytes, files and hash.
    pub exchange-iff-IsConfirmed :
        (o : TransferOutcome)
        → ((exchange crypto stream_type fs disk d is_cancelled key p s).0 ≡ ok o) ↔ IsConfirmed o
    exchange-iff-IsConfirmed o = (exchange→IsConfirmed, IsConfirmed→exchange)
