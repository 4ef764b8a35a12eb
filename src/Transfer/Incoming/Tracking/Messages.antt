-- ===== src/Transfer/Incoming/Tracking/Messages.antt =====
-- The messages before the completion of a file keep track of the files of a transfer.
use agent_send.Base.{
  ◌==◌, ℕ_eq, ℕ, Text, text, Bytes, [], ◌∷◌, ltb, length, ◌-◌, not, ◌&&◌, none, some, ◌≡◌, refl,
  sym, subst, arith, Option-cases, inl, inr,
}
use agent_send.Base.Result.{ok, ok_or, ok_or-eq-ok, reject_if}
use agent_send.Base.Exec.{lift, ◌>>=◌}
use agent_send.Core.Os.{FileSystem, Sha256}
use agent_send.Core.Paths.{parent}
use agent_send.Limits.{chunk_size}
use agent_send.Transfer.Types.{IncomingFile, temp_path, destination_exists, protocol, size_mismatch}
use agent_send.Transfer.Incoming.{
  Session, on_disk, modify, require_id, reserve_entry, reserve_file, resolve_target, no_active_file,
  directory, claim_target, create_parent, file_start, chunk,
}
use agent_send.Transfer.Incoming.Files.{
  Places, Tracks, Tracked, temp_of, Tracks-same, created-Tracks,
}
use agent_send.Transfer.Incoming.Tracking.{
  Quiet-Tracked, seq, quiet_seq, on_disk-IsQuiet, require_id-IsQuiet, resolve_target-IsQuiet,
  no_active_file-IsQuiet, claim_target-IsQuiet, create_parent-IsQuiet, step_to, checked,
  count_bytes-Tracked, io_failed, Idle, reserve_file-IsQuiet, reserve_entry-IsQuiet,
}

abbrev folder_text : Text
folder_text = text "directory arrived while a file is open"

abbrev file_text : Text
file_text = text "file started while another file is open"

module _ (fs : FileSystem) (places : Places fs) (sha : Sha256) (start : fs.Disk) where
  open fs use {Disk}
  open places use {Place, holds}

  abbrev TrackedHere : Session fs sha → Type 0
  TrackedHere = Tracked fs places sha start

  idle_after :
      (s : Session fs sha) {u : Unit {0}}
      → (no_active_file fs sha file_text s).0 ≡ ok u
      → (s.transfer.active_file ≡ none) × (u ≡ tt)
  unfolding no_active_file
  idle_after s h = elim (Option-cases s.transfer.active_file) [
    | inl e ↦ (e, refl)
    | inr (f, e) ↦ absurd (ground (arith, e, h))
  ]

  pub directory-Tracked :
      (id p : Text) (s : Session fs sha) → TrackedHere s → TrackedHere (directory fs sha id p s).1
  unfolding directory
  directory-Tracked id p s t =
      quiet_seq fs places sha start (require_id fs sha id) _ s
        (require_id-IsQuiet fs places sha start id)
        (λ a s1 t1.
          quiet_seq fs places sha start (no_active_file fs sha folder_text) _ s1
            (no_active_file-IsQuiet fs places sha start folder_text)
            (λ a s2 t2.
              quiet_seq fs places sha start (reserve_entry fs sha) _ s2
                (reserve_entry-IsQuiet fs places sha start)
                (λ a s3 t3.
                  quiet_seq fs places sha start (resolve_target fs sha p) _ s3
                    (resolve_target-IsQuiet fs places sha start p)
                    (λ target s4 t4.
                      checked fs places sha start
                        (reject_if (fs.exists s4.disk target && not (fs.is_dir s4.disk target))
                          (destination_exists target))
                        (λ u. on_disk fs sha (fs.create_dir_all target)) s4
                        (λ u h.
                          Quiet-Tracked fs places sha start s4 _
                            (on_disk-IsQuiet fs places sha start (fs.create_dir_all target)
                              (λ d l. places.create_dir_all target l d) s4)
                            t4)
                        t4)
                    t3)
                t2)
            t1)
        t

  pub chunk-Tracked :
      (id : Text) (n : ℕ) (bs : Bytes) (s : Session fs sha)
      → TrackedHere s
      → TrackedHere (chunk fs sha id n bs s).1
  unfolding chunk
  chunk-Tracked id n bs s t =
      quiet_seq fs places sha start (require_id fs sha id) _ s
        (require_id-IsQuiet fs places sha start id)
        (λ a s1 t1.
          step_to fs places sha start (λ r. TrackedHere r.1)
            (lift (
              reject_if (ltb chunk_size (length bs))
                (protocol (text "file chunk exceeds the protocol limit"))))
            _ s1
            (λ u h0.
              step_to fs places sha start (λ r. TrackedHere r.1)
                (lift (
                  ok_or s1.transfer.active_file
                    (protocol (text "file chunk arrived without a file"))))
                _ s1
                (λ file h.
                  step_to fs places sha start (λ r. TrackedHere r.1)
                    (lift (
                      reject_if (not (file.offset == n))
                        (protocol (text "file chunk offset is not monotonic"))))
                    _ s1
                    (λ v h'.
                      let written =
                        Quiet-Tracked fs places sha start s1 _
                          (on_disk-IsQuiet fs places sha start (fs.write_all file.file bs)
                            (λ d l. places.write_all file.file bs l d) s1)
                          t1 in
                      step_to fs places sha start (λ r. TrackedHere r.1)
                        (on_disk fs sha (fs.write_all file.file bs)) _ s1
                        (λ w h''.
                          count_bytes-Tracked fs places sha start file bs _
                            (ok_or-eq-ok s1.transfer.active_file _ h) written)
                        (λ e h''. written))
                    (λ e h'. t1))
                (λ e h. t1))
            (λ e h0. t1))
        t

  -- From here on a temporary file is created at `temp`, and becomes the open one.
  created_at :
      (f : fs.Handle → IncomingFile fs) (temp : Text) (s : Session fs sha)
      → ((h : fs.Handle) → (f h).temp ≡ temp)
      → Idle fs places sha start s
      → TrackedHere
          ((on_disk fs sha (fs.create_new temp) >>= λ h.
              modify fs sha (λ t. record t { active_file = some (f h) }))
            s).1
  created_at f temp s at_temp (t, idle) =
      step_to fs places sha start (λ r. TrackedHere r.1) (on_disk fs sha (fs.create_new temp)) _ s
        (λ file h. record {
          files =
              subst
                (λ k.
                  Tracks fs places sha start [] (fs.create_new temp s.disk).1 (k ∷ [])
                    s.transfer.committed_targets)
                (sym (at_temp file))
                (created-Tracks fs places sha start s.disk temp file s.transfer.committed_targets
                  (ground (arith, h))
                  (subst
                    (λ o.
                      Tracks fs places sha start [] s.disk (temp_of fs places sha o)
                        s.transfer.committed_targets)
                    idle t.files));
        })
        (λ e h.
          let (x, failed) = io_failed fs places sha start (fs.create_new temp s.disk).0 h in
          record {
            files =
                Tracks-same fs places sha start s.disk _ [] _ _
                  (λ l. places.not_created temp l s.disk failed) t.files;
          })

  pub file_start-Tracked :
      (id p : Text) (n : ℕ) (s : Session fs sha)
      → TrackedHere s
      → TrackedHere (file_start fs sha id p n s).1
  unfolding file_start
  file_start-Tracked id p n s t =
      quiet_seq fs places sha start (require_id fs sha id) _ s
        (require_id-IsQuiet fs places sha start id)
        (λ a s1 t1.
          step_to fs places sha start (λ r. TrackedHere r.1) (no_active_file fs sha file_text) _ s1
            (λ u h.
              let (idle, same) = idle_after s1 h in
              step_to fs places sha start (λ r. TrackedHere r.1)
                (lift
                  (reject_if (ltb (s1.transfer.total_bytes - s1.transfer.bytes) n) size_mismatch))
                _ s1
                (λ v h2.
                  seq fs places sha start (reserve_file fs sha) _ s1
                    (reserve_file-IsQuiet fs places sha start)
                    (λ w s3 i3.
                      seq fs places sha start (resolve_target fs sha p) _ s3
                        (resolve_target-IsQuiet fs places sha start p)
                        (λ target s4 i4.
                          seq fs places sha start (claim_target fs sha target) _ s4
                            (claim_target-IsQuiet fs places sha start target)
                            (λ x s5 i5.
                              seq fs places sha start (create_parent fs sha (parent target)) _ s5
                                (create_parent-IsQuiet fs places sha start (parent target))
                                (λ y s6 i6.
                                  created_at
                                    (λ file. record {
                                      target = target;
                                      temp = temp_path fs s6.disk target;
                                      file = file;
                                      expected_size = n;
                                      offset = 0;
                                    })
                                    (temp_path fs s6.disk target) s6 (λ h. refl) i6)
                                i5)
                            i4)
                        i3)
                    (t1, idle))
                (λ e h2. t1))
            (λ e h. t1))
        t
