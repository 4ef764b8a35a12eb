-- ===== src/Transfer/Receive/Endings.antt =====
-- The files of a transfer are tracked from its start to the end of the connection.
use agent_send.Base.{
  Text, List, [], ◌∷◌, Option, none, some, ◌≡◌, ◌⊎◌, refl, sym, subst, Bool-cases, inl, inr,
}
use agent_send.Base.Result.{Result, ok, err}
use agent_send.Base.Exec.{continue, pure}
use agent_send.Core.Os.{FileSystem, Sha256, IoError}
use agent_send.Peer.Message.{
  PeerMessage, directory, file_start, file_chunk, file_complete, transfer_complete,
}
use agent_send.Transfer.Types.{IncomingFile, TransferError, TransferOutcome, io}
use agent_send.Transfer.Incoming
use agent_send.Transfer.Incoming.{Session, drop, remove_temp, remove_each}
use agent_send.Transfer.Incoming.Files.{Places, Tracks, Tracked}
use agent_send.Transfer.Incoming.Tracking.{complete-Tracked}
use agent_send.Transfer.Incoming.Tracking.Messages.{
  directory-Tracked, file_start-Tracked, chunk-Tracked,
}
use agent_send.Transfer.Incoming.Tracking.Completing.{
  Completing, tracked, lost, file_complete-Completing,
}
use agent_send.Transfer.Receive.{Ending, rejected, receive_loop, handle, is_cancel, after}

module _ (fs : FileSystem) (places : Places fs) (sha : Sha256) (start : fs.Disk) where
  open places use {Place, at, holds}

  -- The last message was to complete the open file `f`, all of which had arrived, and the file could
  -- not be written out or moved to its target.
  pub record Lost (f : IncomingFile fs) (s' : Session fs sha) : Type 0 where
    pub before : Session fs sha
    pub active : before.transfer.active_file ≡ some f
    pub full : f.offset ≡ f.expected_size
    pub error : IoError
    pub failed :
        ((fs.sync_all f.file before.disk).0 ≡ err error)
        ⊎ ((fs.rename f.temp f.target (fs.sync_all f.file before.disk).1).0 ≡ err error)
    pub id : Text
    pub last : (Incoming.file_complete fs sha id before) ≡ (err (io error), s')
    pub files : Tracks fs places sha start (f.temp ∷ []) s'.disk [] s'.transfer.committed_targets
    pub inactive : s'.transfer.active_file ≡ none

  abbrev pub Known : Session fs sha → Type 0
  Known s = Tracked fs places sha start s ⊎ ((f : IncomingFile fs) × Lost f s)

  abbrev Handled : Result TransferError (Option TransferOutcome) → Session fs sha → Type 0
  Handled (ok o) s = Tracked fs places sha start s
  Handled (err e) s = Known s

  handled :
      (r : Result TransferError (Unit {0})) (s : Session fs sha)
      → Tracked fs places sha start s
      → Handled
          (continue {B = Option TransferOutcome} r (λ _. pure none) s).0
          (continue {B = Option TransferOutcome} r (λ _. pure none) s).1
  handled (ok u) s t = t
  handled (err e) s t = inl t

  outcome-Handled :
      (r : Result TransferError TransferOutcome) (s : Session fs sha)
      → Tracked fs places sha start s
      → Handled (continue r (λ o. pure (some o)) s).0 (continue r (λ o. pure (some o)) s).1
  outcome-Handled (ok o) s t = t
  outcome-Handled (err e) s t = inl t

  completing :
      (id : Text) (s : Session fs sha) (r : Result TransferError (Unit {0}) × Session fs sha)
      → Incoming.file_complete fs sha id s ≡ r
      → Completing fs places sha start s r
      → Handled
          (continue {B = Option TransferOutcome} r.0 (λ _. pure none) r.1).0
          (continue {B = Option TransferOutcome} r.0 (λ _. pure none) r.1).1
  completing id s _ same (tracked {r} {s'} t) = handled r s' t
  completing id s _ same (lost {s'} f e active full failed inactive kept files) = inr (
    f,
    record {
      before = s;
      active = active;
      full = full;
      error = e;
      failed = failed;
      id = id;
      last = same;
      files = subst (λ c. Tracks fs places sha start (f.temp ∷ []) s'.disk [] c) (sym kept) files;
      inactive = inactive;
    },
  )

  handle-Handled :
      (m : PeerMessage) (s : Session fs sha)
      → Tracked fs places sha start s
      → Handled (handle fs sha m s).0 (handle fs sha m s).1
  unfolding handle
  handle-Handled (directory id p) s t = handled _ _ (directory-Tracked fs places sha start id p s t)
  handle-Handled (file_start id p n) s t =
      handled _ _ (file_start-Tracked fs places sha start id p n s t)
  handle-Handled (file_chunk id n bs) s t =
      handled _ _ (chunk-Tracked fs places sha start id n bs s t)
  handle-Handled (file_complete id) s t =
      completing id s _ refl (file_complete-Completing fs places sha start id s t)
  handle-Handled (transfer_complete id) s t =
      outcome-Handled _ _ (complete-Tracked fs places sha start id s t)
  handle-Handled _ s t = inl t

  -- What is known of the files when the loop ends.
  abbrev pub AtEnd : Ending → Session fs sha → Type 0
  AtEnd rejected s = Known s
  AtEnd _ s = Tracked fs places sha start s

  after-AtEnd :
      (r : Result TransferError (Option TransferOutcome)) (s : Session fs sha)
      (next : Ending × Session fs sha)
      → Handled r s
      → (Tracked fs places sha start s → AtEnd next.0 next.1)
      → AtEnd (after fs sha r s next).0 (after fs sha r s next).1
  after-AtEnd (ok none) s next h go = go h
  after-AtEnd (ok (some o)) s next h go = h
  after-AtEnd (err e) s next h go = h

  pub receive_loop-AtEnd :
      (ms : List PeerMessage) (s : Session fs sha)
      → Tracked fs places sha start s
      → AtEnd (receive_loop fs sha ms s).0 (receive_loop fs sha ms s).1
  unfolding receive_loop
  receive_loop-AtEnd [] s t = t
  receive_loop-AtEnd (m ∷ ms) s t = elim (Bool-cases (is_cancel fs sha m)) [
    | inl stop ↦ rw stop t
    | inr go ↦
        rw go
          (after-AtEnd _ _ _ (handle-Handled m s t) (receive_loop-AtEnd ms (handle fs sha m s).1))
  ]
