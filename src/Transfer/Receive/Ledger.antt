-- ===== src/Transfer/Receive/Ledger.antt =====
-- When a transfer is recorded as completed, and what is recorded.
use agent_send.Base.{
  ℕ, Text, Bytes, List, [], ◌∷◌, Bool, true, false, Option, none, some, ◌≡◌, ◌⊎◌, inl, inr, refl,
  ap, ◌∙◌, arith, Bool-cases,
}
use agent_send.Base.Result.{Result, ok, err}
use agent_send.Base.Exec.{pure, continue}
use agent_send.Base.Map.{insert}
use agent_send.Core.Os.{FileSystem, Sha256}
use agent_send.Peer.Message.{
  PeerMessage, transfer_manifest, transfer_ready, directory, file_start, file_chunk, file_complete,
  transfer_complete,
}
use agent_send.Transfer.Types.{TransferEngine, TransferOutcome, TransferError, IncomingTransfer}
use agent_send.Transfer.Engine.{begin_incoming, IncomingStart, ready, completed}
use agent_send.Transfer.Incoming
use agent_send.Transfer.Incoming.{Session, eq_ignore_ascii_case}
use agent_send.Transfer.Receive.{
  Ending, finished, handle, is_cancel, receive_loop, result_message, Received,
  receive_socket_transfer, after, closing, start_transfer,
}

-- The messages of one connection, the manifest first.
abbrev pub opened_by :
    (id folder_id key hash : Text) (total : ℕ) → List PeerMessage → List PeerMessage
opened_by id folder_id key hash total ms = transfer_manifest id folder_id key total hash ∷ ms

module _ (fs : FileSystem) (sha : Sha256) where
  -- What no message but the last changes.
  pub record Kept (s s' : Session fs sha) : Type 0 where
    pub completed : s'.transfer.completed ≡ s.transfer.completed
    pub key : s'.transfer.idempotency_key ≡ s.transfer.idempotency_key
    pub total : s'.transfer.total_bytes ≡ s.transfer.total_bytes
    pub hash : s'.transfer.expected_hash ≡ s.transfer.expected_hash
    pub done : s'.done ≡ s.done

  -- What the last message records.
  pub record Recorded (s : Session fs sha) (o : TransferOutcome) (s' : Session fs sha)
      : Type 0 where
    pub completed : s'.transfer.completed ≡ true
    pub active : s'.transfer.active_file ≡ none
    pub bytes : o.bytes ≡ s.transfer.total_bytes
    pub hash : eq_ignore_ascii_case o.sha256 s.transfer.expected_hash ≡ true
    pub done : s'.done ≡ insert s.done s.transfer.idempotency_key o

  module _ (s : Session fs sha) where
    directory-Kept : (id p : Text) → Kept s (Incoming.directory fs sha id p s).1
    unfolding Incoming.directory
    directory-Kept id p = ground arith

    file_start-Kept : (id p : Text) (n : ℕ) → Kept s (Incoming.file_start fs sha id p n s).1
    unfolding Incoming.file_start
    file_start-Kept id p n = ground arith

    chunk-Kept : (id : Text) (n : ℕ) (bs : Bytes) → Kept s (Incoming.chunk fs sha id n bs s).1
    unfolding Incoming.chunk
    chunk-Kept id n bs = ground arith

    file_complete-Kept : (id : Text) → Kept s (Incoming.file_complete fs sha id s).1
    unfolding Incoming.file_complete
    file_complete-Kept id = ground arith

    complete-Recorded :
        (id : Text) {o : TransferOutcome}
        → (Incoming.complete fs sha id s).0 ≡ ok o
        → Recorded s o (Incoming.complete fs sha id s).1
    unfolding Incoming.complete
    complete-Recorded id h = ground arith

    complete-Kept :
        (id : Text) {e : TransferError}
        → (Incoming.complete fs sha id s).0 ≡ err e
        → Kept s (Incoming.complete fs sha id s).1
    unfolding Incoming.complete
    complete-Kept id h = ground arith

  -- One message keeps the ledger, or it completes the transfer.
  abbrev Handled :
      Session fs sha → Result TransferError (Option TransferOutcome) → Session fs sha → Type 0
  Handled s (ok (some o)) s' = Recorded s o s'
  Handled s _ s' = Kept s s'

  Handled-none :
      (s s' : Session fs sha) (r : Result TransferError (Unit {0}))
      → Kept s s'
      → Handled s
          (continue {B = Option TransferOutcome} r (λ _. pure none) s').0
          (continue {B = Option TransferOutcome} r (λ _. pure none) s').1
  Handled-none s s' (ok u) k = k
  Handled-none s s' (err e) k = k

  Handled-some :
      (s s' : Session fs sha) (r : Result TransferError TransferOutcome)
      → ((o : TransferOutcome) → r ≡ ok o → Recorded s o s')
      → ((e : TransferError) → r ≡ err e → Kept s s')
      → Handled s (continue r (λ o. pure (some o)) s').0 (continue r (λ o. pure (some o)) s').1
  Handled-some s s' (ok o) f g = f o refl
  Handled-some s s' (err e) f g = g e refl

  Kept-refl : (s : Session fs sha) → Kept s s
  Kept-refl s = record { completed = refl; key = refl; total = refl; hash = refl; done = refl }

  handle-Handled :
      (m : PeerMessage) (s : Session fs sha) → Handled s (handle fs sha m s).0 (handle fs sha m s).1
  unfolding handle
  handle-Handled (directory id p) s = Handled-none s _ _ (directory-Kept s id p)
  handle-Handled (file_start id p n) s = Handled-none s _ _ (file_start-Kept s id p n)
  handle-Handled (file_chunk id n bs) s = Handled-none s _ _ (chunk-Kept s id n bs)
  handle-Handled (file_complete id) s = Handled-none s _ _ (file_complete-Kept s id)
  handle-Handled (transfer_complete id) s =
      Handled-some s _ _ (λ o h. complete-Recorded s id h) (λ e h. complete-Kept s id h)
  handle-Handled _ s = Kept-refl s

  -- The ledger at the end of the loop, by the way that it ended.
  abbrev pub Ended : Session fs sha → Ending → Session fs sha → Type 0
  Ended s (finished o) s' = Recorded s o s'
  Ended s _ s' = (s'.done ≡ s.done) × (s'.transfer.completed ≡ s.transfer.completed)

  Ended-Kept : (s t s' : Session fs sha) (e : Ending) → Kept s t → Ended t e s' → Ended s e s'
  Ended-Kept s t s' (finished o) k r = record {
    completed = r.completed;
    active = r.active;
    bytes = r.bytes ∙ k.total;
    hash = rw (← k.hash) r.hash;
    done = cc (k.done, k.key, r.done);
  }
  Ended-Kept s t s' _ k r = (r.0 ∙ k.done, r.1 ∙ k.completed)

  after-Ended :
      (s t : Session fs sha) (r : Result TransferError (Option TransferOutcome))
      (next : Ending × Session fs sha)
      → Handled s r t
      → Ended t next.0 next.1
      → Ended s (after fs sha r t next).0 (after fs sha r t next).1
  after-Ended s t (ok none) next h e = Ended-Kept s t next.1 next.0 h e
  after-Ended s t (ok (some o)) next h e = h
  after-Ended s t (err x) next h e = (h.done, h.completed)

  pub receive_loop-Ended :
      (ms : List PeerMessage) (s : Session fs sha)
      → Ended s (receive_loop fs sha ms s).0 (receive_loop fs sha ms s).1
  unfolding receive_loop
  receive_loop-Ended [] s = (refl, refl)
  receive_loop-Ended (m ∷ ms) s = elim (Bool-cases (is_cancel fs sha m)) [
    | inl stop ↦ rw stop (refl, refl)
    | inr go ↦
        rw go
          (after-Ended s _ _ _ (handle-Handled m s) (receive_loop-Ended ms (handle fs sha m s).1))
  ]

  module _ (d : fs.Disk) (e : TransferEngine) (id folder_id key hash : Text) (total : ℕ) where
    -- The receiver has answered with an outcome that has the declared size and hash, and has
    -- recorded it under the idempotency key.
    pub record IsRecorded (r : Received fs sha) (o : TransferOutcome) : Type 0 where
      pub engine : r.engine ≡ record e { completed = insert e.completed key o }
      pub bytes : o.bytes ≡ total
      pub hash_matches : eq_ignore_ascii_case o.sha256 hash ≡ true
      pub sent : r.sent ≡ transfer_ready id ∷ result_message id o ∷ []

    -- The reply is no outcome of this transfer, and the engine is as it was.
    abbrev pub IsUnchanged : Received fs sha → Type 0
    IsUnchanged r = r.engine ≡ e

    closing-ledger :
        (start s : Session fs sha) (ending : Ending)
        → start.done ≡ e.completed
        → start.transfer.idempotency_key ≡ key
        → start.transfer.total_bytes ≡ total
        → start.transfer.expected_hash ≡ hash
        → Ended start ending s
        → IsUnchanged (closing fs sha e id ending s)
          ⊎ ((o : TransferOutcome) × IsRecorded (closing fs sha e id ending s) o)
    unfolding closing
    closing-ledger start s (finished o) q k n h r = inr (
      o,
      record {
        engine = cc (r.done, q, k);
        bytes = r.bytes ∙ n;
        hash_matches = rw (← h) r.hash;
        sent = refl;
      },
    )
    closing-ledger start s _ q k n h r = inl (ap (λ m. record e { completed = m }) (r.0 ∙ q))

    start-ledger :
        (r : Result TransferError (IncomingStart fs sha)) (b : Bool) (ms : List PeerMessage)
        → ((t : IncomingTransfer fs sha)
            → r ≡ ok (ready t)
            → (t.idempotency_key ≡ key) × (t.total_bytes ≡ total) × (t.expected_hash ≡ hash))
        → IsUnchanged (start_transfer fs sha d e id r b ms)
          ⊎ ((o : TransferOutcome) × IsRecorded (start_transfer fs sha d e id r b ms) o)
    unfolding start_transfer
    start-ledger (ok (ready t)) true ms f =
        let (k, n, h) = f t refl in
        closing-ledger _ _ _ refl k n h
          (receive_loop-Ended ms (record { transfer = t; disk = d; done = e.completed }))
    start-ledger (ok (ready t)) false ms f = inl refl
    start-ledger (ok (completed o)) b ms f = inl refl
    start-ledger (err x) b ms f = inl refl

    begun :
        (t : IncomingTransfer fs sha)
        → begin_incoming fs sha d e id folder_id key total hash ≡ ok (ready t)
        → (t.idempotency_key ≡ key) × (t.total_bytes ≡ total) × (t.expected_hash ≡ hash)
    unfolding begin_incoming
    begun t h = ground arith

    -- The engine after a connection is the engine before it, or the receiver has answered with an
    -- outcome of the declared size and hash and has recorded exactly that outcome.
    pub receive-ledger :
        (b : Bool) (ms : List PeerMessage)
        → IsUnchanged
            (receive_socket_transfer fs sha d e b (opened_by id folder_id key hash total ms))
          ⊎ ((o : TransferOutcome) × IsRecorded
                (receive_socket_transfer fs sha d e b (opened_by id folder_id key hash total ms))
                o)
    unfolding receive_socket_transfer
    receive-ledger b ms =
        start-ledger (begin_incoming fs sha d e id folder_id key total hash) b ms begun
