-- ===== src/Transfer/Receive/Limits.antt =====
-- A connection stays within the limits, whatever messages the sender chooses.
use agent_send.Base.{
  ◌≤◌, Text, List, [], ◌∷◌, Option, none, some, ◌≡◌, inl, inr, refl, arith, Bool-cases, length, All,
  true,
}
use agent_send.Base.Result.{Result, ok, err}
use agent_send.Base.Exec.{continue, pure}
use agent_send.Limits.{max_transfer_bytes, max_transfer_files}
use agent_send.Core.Os.{FileSystem, Sha256}
use agent_send.Peer.Message.{
  PeerMessage, directory, file_start, file_chunk, file_complete, transfer_complete,
}
use agent_send.Transfer.Types.{TransferOutcome, TransferError}
use agent_send.Transfer.Incoming
use agent_send.Transfer.Incoming.{Session}
use agent_send.Transfer.Incoming.Bounds.{
  IsBounded, directory-IsBounded, file_start-IsBounded, chunk-IsBounded, file_complete-IsBounded,
  complete-IsBounded, complete-counts,
}
use agent_send.Transfer.Incoming.Files.{Places}
use agent_send.Transfer.Receive.Rollback.{Left, IsNew, receive_loop-Left}
use agent_send.Transfer.Receive.{
  Ending, finished, rejected, cancelled, closed, receive_loop, handle, is_cancel, after,
}

module _ (fs : FileSystem) (sha : Sha256) where
  -- What is within the limits after a message: the transfer, and the outcome if it reports one.
  pub record IsWithin (s : Session fs sha) (o : TransferOutcome) : Type 0 where
    pub bytes : o.bytes ≤ max_transfer_bytes
    pub files : o.files ≤ max_transfer_files
    pub committed : length s.transfer.committed_targets ≡ o.files

  abbrev Within : Result TransferError (Option TransferOutcome) → Session fs sha → Type 0
  Within (ok none) s = IsBounded fs sha s.transfer
  Within (ok (some o)) s = IsWithin s o
  Within (err e) s = Unit

  Within-none :
      (r : Result TransferError (Unit {0})) (s : Session fs sha)
      → ((u : Unit {0}) → r ≡ ok u → IsBounded fs sha s.transfer)
      → Within
          (continue {B = Option TransferOutcome} r (λ _. pure none) s).0
          (continue {B = Option TransferOutcome} r (λ _. pure none) s).1
  Within-none (ok u) s f = f u refl
  Within-none (err e) s f = tt

  Within-some :
      (r : Result TransferError TransferOutcome) (s : Session fs sha)
      → ((o : TransferOutcome) → r ≡ ok o → IsWithin s o)
      → Within (continue r (λ o. pure (some o)) s).0 (continue r (λ o. pure (some o)) s).1
  Within-some (ok o) s f = f o refl
  Within-some (err e) s f = tt

  completed-IsWithin :
      (s : Session fs sha) (id : Text) {o : TransferOutcome}
      → IsBounded fs sha s.transfer
      → (Incoming.complete fs sha id s).0 ≡ ok o
      → IsWithin (Incoming.complete fs sha id s).1 o
  unfolding Incoming.complete
  completed-IsWithin s id b h =
      let after = complete-IsBounded fs sha s b id h in
      let (n, m) = complete-counts fs sha s b id h in
      record {
        bytes = omega (arith, n, b.bytes, b.total);
        files = ground (arith, b.active, b.started, b.entries);
        committed = ground (arith, b.committed);
      }

  handle-Within :
      (m : PeerMessage) (s : Session fs sha)
      → IsBounded fs sha s.transfer
      → Within (handle fs sha m s).0 (handle fs sha m s).1
  unfolding handle
  handle-Within (directory id p) s b =
      Within-none _ _ (λ u h. directory-IsBounded fs sha s b id p h)
  handle-Within (file_start id p n) s b =
      Within-none _ _ (λ u h. file_start-IsBounded fs sha s b id p n h)
  handle-Within (file_chunk id n bs) s b =
      Within-none _ _ (λ u h. chunk-IsBounded fs sha s b id n bs h)
  handle-Within (file_complete id) s b =
      Within-none _ _ (λ u h. file_complete-IsBounded fs sha s b id h)
  handle-Within (transfer_complete id) s b = Within-some _ _ (λ o h. completed-IsWithin s id b h)
  handle-Within _ s b = tt

  abbrev Closed : Ending → Session fs sha → Type 0
  Closed (finished o) s = IsWithin s o
  Closed _ s = Unit

  after-Closed :
      (r : Result TransferError (Option TransferOutcome)) (s : Session fs sha)
      (next : Ending × Session fs sha)
      → Within r s
      → (IsBounded fs sha s.transfer → Closed next.0 next.1)
      → Closed (after fs sha r s next).0 (after fs sha r s next).1
  after-Closed (ok none) s next w f = f w
  after-Closed (ok (some o)) s next w f = w
  after-Closed (err e) s next w f = tt

  loop-Closed :
      (ms : List PeerMessage) (s : Session fs sha)
      → IsBounded fs sha s.transfer
      → Closed (receive_loop fs sha ms s).0 (receive_loop fs sha ms s).1
  unfolding receive_loop
  loop-Closed [] s b = tt
  loop-Closed (m ∷ ms) s b = elim (Bool-cases (is_cancel fs sha m)) [
    | inl stop ↦ rw stop tt
    | inr go ↦
        rw go (after-Closed _ _ _ (handle-Within m s b) (loop-Closed ms (handle fs sha m s).1))
  ]

  loop-IsWithin :
      (ms : List PeerMessage) (s : Session fs sha) (o : TransferOutcome)
      → IsBounded fs sha s.transfer
      → (receive_loop fs sha ms s).0 ≡ finished o
      → IsWithin (receive_loop fs sha ms s).1 o
  loop-IsWithin ms s o b h = subst_ending (loop-Closed ms s b) h
    where
      subst_ending : {e : Ending} {t : Session fs sha} → Closed e t → e ≡ finished o → IsWithin t o
      subst_ending {e} {t} c h = rw h at c

  module _ (places : Places fs) where
    in_place :
        (start : fs.Disk) (s : Session fs sha) (e : Ending) (o : TransferOutcome)
        → Left fs places sha start e s
        → e ≡ finished o
        → All (λ p. places.holds s.disk (places.at p) ≡ true) s.transfer.committed_targets
    in_place start s (finished o') o left h = left.1
    in_place start s rejected o left h = absurd (ground (arith, h))
    in_place start s cancelled o left h = absurd (ground (arith, h))
    in_place start s closed o left h = absurd (ground (arith, h))

    -- On a system that keeps `Places`, whatever messages arrive: a transfer that starts with its
    -- counters within their bounds and nothing done, and that finishes, has received at most the
    -- greatest number of bytes and of files. It has committed exactly as many paths as its outcome
    -- says that there are files, and at each of them there is a file on the disk.
    pub receive_loop-IsWithin :
        (ms : List PeerMessage) (s : Session fs sha) (o : TransferOutcome)
        → IsBounded fs sha s.transfer
        → IsNew fs places sha s
        → (receive_loop fs sha ms s).0 ≡ finished o
        → IsWithin (receive_loop fs sha ms s).1 o
          × All
              (λ p. places.holds (receive_loop fs sha ms s).1.disk (places.at p) ≡ true)
              (receive_loop fs sha ms s).1.transfer.committed_targets
    receive_loop-IsWithin ms s o b n h = (
      loop-IsWithin ms s o b h,
      in_place s.disk (receive_loop fs sha ms s).1 (receive_loop fs sha ms s).0 o
          (receive_loop-Left fs places sha ms s n) h,
    )
