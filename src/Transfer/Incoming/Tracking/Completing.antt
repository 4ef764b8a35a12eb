-- ===== src/Transfer/Incoming/Tracking/Completing.antt =====
-- The completion of a file keeps track of the files of a transfer, or loses its temporary file.
use agent_send.Base.{
  ◌⊎◌, ◌==◌, ℕ_eq, nat_eq_iff, Text, text, [], ◌∷◌, none, some, ◌≡◌, refl, sym, ap, subst, arith,
  Bool-cases, inl, inr,
}
use agent_send.Base.Result.{Result, err, ok_or, ok_or-eq-ok}
use agent_send.Base.Exec.{lift}
use agent_send.Core.Os.{FileSystem, Sha256, IoError}
use agent_send.Transfer.Types.{IncomingFile, TransferError, io, protocol}
use agent_send.Transfer.Incoming.{
  Session, on_disk, require_id, try_remove, finish_file, give_up_file, file_complete,
}
use agent_send.Transfer.Incoming.Files.{
  Places, Tracks, Tracked, temp_of, Tracks-same, removed-Tracks, renamed-Tracks, lost-Tracks,
}
use agent_send.Transfer.Incoming.Tracking.{view_Tracked, step_to, io_failed}

module _ (fs : FileSystem) (places : Places fs) (sha : Sha256) (start : fs.Disk) where
  open fs use {Disk}
  open places use {Place, holds}

  abbrev TrackedHere : Session fs sha → Type 0
  TrackedHere = Tracked fs places sha start

  -- How `file_complete` ends: the files are still tracked; or the open file was to be moved to its
  -- target and this failed, and its temporary file is lost.
  pub data Completing (s : Session fs sha)
      : Result TransferError (Unit {0}) × Session fs sha → Type 0 where
    tracked :
        {r : Result TransferError (Unit {0})} {s' : Session fs sha}
        → TrackedHere s'
        → Completing s (r, s')
    lost :
        {s' : Session fs sha} (f : IncomingFile fs) (e : IoError)
        → s.transfer.active_file ≡ some f
        → f.offset ≡ f.expected_size
        → ((fs.sync_all f.file s.disk).0 ≡ err e)
          ⊎ ((fs.rename f.temp f.target (fs.sync_all f.file s.disk).1).0 ≡ err e)
        → s'.transfer.active_file ≡ none
        → s'.transfer.committed_targets ≡ s.transfer.committed_targets
        → Tracks fs places sha start (f.temp ∷ []) s'.disk [] s.transfer.committed_targets
        → Completing s (err (io e), s')

  abbrev taken_of : Session fs sha → Session fs sha
  taken_of s = record s { transfer = record s.transfer { active_file = none } }

  module _ (s : Session fs sha) (f : IncomingFile fs) (active : s.transfer.active_file ≡ some f)
      (t : TrackedHere s) where
    open_files : Tracks fs places sha start [] s.disk (f.temp ∷ []) s.transfer.committed_targets
    open_files =
        subst
          (λ o.
            Tracks fs places sha start [] s.disk (temp_of fs places sha o)
              s.transfer.committed_targets)
          active t.files

    abbrev taken : Session fs sha
    taken = taken_of s

    give_up-Tracked : TrackedHere (give_up_file fs sha f taken).1
    unfolding give_up_file try_remove
    give_up-Tracked = record {
      files =
          removed-Tracks fs places sha start s.disk f.temp s.transfer.committed_targets open_files;
    }

    finish-Completing : f.offset ≡ f.expected_size → Completing s (finish_file fs sha f taken)
    unfolding finish_file
    finish-Completing full =
        let d1 = (fs.sync_all f.file s.disk).1 in
        let synced =
          Tracks-same fs places sha start s.disk d1 [] (f.temp ∷ []) s.transfer.committed_targets
            (λ l. places.sync_all f.file l s.disk) open_files in
        step_to fs places sha start (Completing s) (on_disk fs sha (fs.sync_all f.file)) _ taken
          (λ u h.
            step_to fs places sha start (Completing s) (on_disk fs sha (fs.rename f.temp f.target))
              _ (on_disk fs sha (fs.sync_all f.file) taken).1
              (λ v h'. tracked (record {
                files =
                    renamed-Tracks fs places sha start d1 f.temp f.target
                      s.transfer.committed_targets (ground (arith, h')) synced;
              }))
              (λ e h'.
                let (x, failed) =
                  io_failed fs places sha start (fs.rename f.temp f.target d1).0 h' in
                let named : e ≡ io x = ground (arith, failed, h') in
                rw named (
                  lost f x active full (inr failed) refl refl (
                    lost-Tracks fs places sha start _ f.temp s.transfer.committed_targets (
                      Tracks-same fs places sha start d1 _ [] (f.temp ∷ [])
                        s.transfer.committed_targets
                        (λ l. places.not_renamed f.temp f.target l d1 failed) synced)))))
          (λ e h.
            let (x, failed) = io_failed fs places sha start (fs.sync_all f.file s.disk).0 h in
            let named : e ≡ io x = ground (arith, failed, h) in
            rw named (
              lost f x active full (inl failed) refl refl
                (lost-Tracks fs places sha start d1 f.temp s.transfer.committed_targets synced)))

  pub file_complete-Completing :
      (id : Text) (s : Session fs sha) → TrackedHere s → Completing s (file_complete fs sha id s)
  unfolding file_complete require_id
  file_complete-Completing id s t =
      step_to fs places sha start (Completing s) (require_id fs sha id) _ s
        (λ u h.
          step_to fs places sha start (Completing s)
            (lift (ok_or s.transfer.active_file (protocol (text "file completed without a file"))))
            _ (taken_of s)
            (λ f h'.
              let active = ok_or-eq-ok s.transfer.active_file _ h' in
              elim (Bool-cases (f.offset == f.expected_size)) [
                | inl full ↦
                    rw full (
                      finish-Completing s f active t ((nat_eq_iff f.offset f.expected_size).0 full))
                | inr short ↦ rw short (tracked (give_up-Tracked s f active t))
              ])
            (λ e h'.
              let closed : s.transfer.active_file ≡ none = ground (arith, h') in
              tracked (
                view_Tracked fs places sha start s (taken_of s) refl
                  (ap (temp_of fs places sha) (sym closed)) refl t)))
        (λ e h. tracked t)
