-- ===== src/Transfer/Receive/Rollback.antt =====
-- What a connection leaves on the disk.
use agent_send.Base.{
  Text, List, [], true, false, none, some, ◌≡◌, ◌⊎◌, sym, subst, ◌∙◌, arith, All, Bool-cases, inl,
  inr,
}
use agent_send.Base.Result.{ok, err}
use agent_send.Core.Os.{FileSystem, Sha256, IoError}
use agent_send.Peer.Message.{PeerMessage}
use agent_send.Transfer.Types.{IncomingTransfer, IncomingFile}
use agent_send.Transfer.Incoming
use agent_send.Transfer.Incoming.{Session, drop, remove_temp}
use agent_send.Transfer.Incoming.Files.{Places, Tracks, Tracked, temp_of, is_at, drop-holds}
use agent_send.Transfer.Receive.{Ending, finished, rejected, cancelled, closed, receive_loop}
use agent_send.Transfer.Receive.Ledger.{receive_loop-Ended, Ended}
use agent_send.Transfer.Receive.Endings.{Lost, Known, AtEnd, receive_loop-AtEnd}

module _ (fs : FileSystem) (places : Places fs) (sha : Sha256) (start : fs.Disk) where
  open places use {Place, at, holds}

  -- What the end of a connection that found the disk as `start` leaves there.
  abbrev pub Left : Ending → Session fs sha → Type 0
  Left (finished o) s =
      (drop fs sha s.transfer s.disk ≡ s.disk)
      × All (λ p. holds s.disk (at p) ≡ true) s.transfer.committed_targets
  Left rejected s =
      (l : Place)
      → holds (drop fs sha s.transfer s.disk) l ≡ true
      → (holds start l ≡ true)
        ⊎ ((f : IncomingFile fs) × Lost fs places sha start f s × (at f.temp ≡ l))
  Left _ s = (l : Place) → holds (drop fs sha s.transfer s.disk) l ≡ true → holds start l ≡ true

  abandoned :
      (s : Session fs sha)
      → s.transfer.completed ≡ false
      → Tracked fs places sha start s
      → (l : Place) → holds (drop fs sha s.transfer s.disk) l ≡ true
      → holds start l ≡ true
  abandoned s open_transfer t l h =
      ground
        (arith, drop-holds fs places sha s.transfer s.disk l open_transfer, h, t.files.origin l)

  abandoned-Lost :
      (s : Session fs sha) (f : IncomingFile fs) (x : Lost fs places sha start f s)
      → s.transfer.completed ≡ false
      → (l : Place) → holds (drop fs sha s.transfer s.disk) l ≡ true
      → (holds start l ≡ true)
        ⊎ ((g : IncomingFile fs) × Lost fs places sha start g s × (at g.temp ≡ l))
  abandoned-Lost s f x open_transfer l h = elim (Bool-cases (is_at fs places sha f.temp l)) [
    | inl here ↦ inr (f, x, (places.eq.same_iff (at f.temp) l).0 here)
    | inr other ↦ inl (
        ground (
          arith,
          drop-holds fs places sha s.transfer s.disk l open_transfer,
          h,
          x.files.origin l,
          other,
        ))
  ]

  drop-completed :
      (t : IncomingTransfer fs sha) (d : fs.Disk)
      → t.completed ≡ true
      → t.active_file ≡ none
      → drop fs sha t d ≡ d
  unfolding drop remove_temp
  drop-completed t d h e = rw (h, e)

  rejected-Left :
      (s : Session fs sha)
      → s.transfer.completed ≡ false
      → Known fs places sha start s
      → Left rejected s
  rejected-Left s fresh (inl t) l h = inl (abandoned s fresh t l h)
  rejected-Left s fresh (inr (f, x)) l h = abandoned-Lost s f x fresh l h

  by_ending :
      (first s : Session fs sha) (ending : Ending)
      → first.transfer.completed ≡ false
      → Ended fs sha first ending s
      → AtEnd fs places sha start ending s
      → Left ending s
  by_ending first s (finished o) fresh r t =
      (drop-completed s.transfer s.disk r.completed r.active, t.files.placed)
  by_ending first s rejected fresh r t = rejected-Left s (r.1 ∙ fresh) t
  by_ending first s cancelled fresh r t = abandoned s (r.1 ∙ fresh) t
  by_ending first s closed fresh r t = abandoned s (r.1 ∙ fresh) t

module _ (fs : FileSystem) (places : Places fs) (sha : Sha256) where
  open places use {Place, at, holds}

  -- A transfer that has done nothing yet.
  pub record IsNew (s : Session fs sha) : Type 0 where
    pub active : s.transfer.active_file ≡ none
    pub committed : s.transfer.committed_targets ≡ []
    pub completed : s.transfer.completed ≡ false

  pub IsNew-Tracked : (s : Session fs sha) → IsNew s → Tracked fs places sha s.disk s
  IsNew-Tracked s n = record {
    files =
        subst
          (λ c.
            Tracks fs places sha s.disk [] s.disk (temp_of fs places sha s.transfer.active_file) c)
          (sym n.committed)
          (subst (λ o. Tracks fs places sha s.disk [] s.disk (temp_of fs places sha o) [])
            (sym n.active)
            (record { origin = λ l h. ground (arith, h); placed = tt; opened = tt }));
  }

  pub receive_loop-Left :
      (ms : List PeerMessage) (s : Session fs sha)
      → IsNew s
      → Left fs places sha s.disk (receive_loop fs sha ms s).0 (receive_loop fs sha ms s).1
  receive_loop-Left ms s n =
      by_ending fs places sha s.disk s _ (receive_loop fs sha ms s).0 n.completed
        (receive_loop-Ended fs sha ms s)
        (receive_loop-AtEnd fs places sha s.disk ms s (IsNew-Tracked s n))

  -- The move of a complete file to its target fails.
  pub record RenameFails (id : Text) (f : IncomingFile fs) (error : IoError) (s : Session fs sha)
      : Type 0 where
    pub same_id : s.transfer.transfer_id ≡ id
    pub active : s.transfer.active_file ≡ some f
    pub full : f.offset ≡ f.expected_size
    pub synced : (fs.sync_all f.file s.disk).0 ≡ ok tt
    pub failed : (fs.rename f.temp f.target (fs.sync_all f.file s.disk).1).0 ≡ err error
    pub open_transfer : s.transfer.completed ≡ false
