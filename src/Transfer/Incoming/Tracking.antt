-- ===== src/Transfer/Incoming/Tracking.antt =====
-- Calls after which the files of a transfer are still tracked.
pub mod Messages
pub mod Completing
use agent_send.Base.{
  ◌⊎◌, ◌==◌, ℕ_eq, nat_eq_iff, ℕ, Text, text, Bytes, [], ◌∷◌, ltb, length, ◌-◌, not, ◌&&◌, Option,
  none, some, ◌≡◌, refl, sym, ap, ◌∙◌, subst, arith, Bool-cases, Option-cases, inl, inr,
}
use agent_send.Base.Result.{Result, ok, err, ok_or, ok_or-eq-ok, map_err, reject_if, Result-cases}
use agent_send.Base.Exec.{Exec, lift, continue, ◌>>=◌}
use agent_send.Core.Os.{FileSystem, Sha256, IoError}
use agent_send.Core.Paths.{parent}
use agent_send.Limits.{chunk_size}
use agent_send.Transfer.Types.{
  IncomingFile, TransferError, io, temp_path, destination_exists, protocol, size_mismatch,
}
use agent_send.Transfer.Incoming.{
  Session, Step, on_disk, modify, require_id, reserve_entry, reserve_file, resolve_target,
  no_active_file, directory, claim_target, create_parent, file_start, count_bytes, chunk,
  try_remove, finish_file, give_up_file, file_complete, complete,
}
use agent_send.Transfer.Incoming.Files.{
  Places, Tracks, Tracked, temp_of, Tracks-same, created-Tracks, removed-Tracks, renamed-Tracks,
  lost-Tracks,
}

module _ (fs : FileSystem) (places : Places fs) (sha : Sha256) (start : fs.Disk) where
  open fs use {Disk}
  open places use {Place, holds}

  -- Nothing that is tracked changes.
  pub record Quiet (s s' : Session fs sha) : Type 0 where
    pub disk : (l : Place) → holds s'.disk l ≡ holds s.disk l
    pub active : s'.transfer.active_file ≡ s.transfer.active_file
    pub committed : s'.transfer.committed_targets ≡ s.transfer.committed_targets

  pub Quiet-refl : (s : Session fs sha) → Quiet s s
  Quiet-refl s = record { disk = λ l. refl; active = refl; committed = refl }

  abbrev TrackedHere : Session fs sha → Type 0
  TrackedHere = Tracked fs places sha start

  pub Quiet-Tracked : (s s' : Session fs sha) → Quiet s s' → TrackedHere s → TrackedHere s'
  Quiet-Tracked s s' q t = record {
    files =
        subst
          (λ o.
            Tracks fs places sha start [] s'.disk (temp_of fs places sha o)
              s'.transfer.committed_targets)
          (sym q.active)
          (subst
            (λ c.
              Tracks fs places sha start [] s'.disk (temp_of fs places sha s.transfer.active_file)
                c)
            (sym q.committed)
            (Tracks-same fs places sha start s.disk s'.disk [] _ _ q.disk t.files));
  }

  abbrev pub IsQuiet : {A : Type 0} → Step fs sha A → Type 0
  IsQuiet m = (s : Session fs sha) → Quiet s (m s).1

  -- Tracked, and no file is open.
  abbrev pub Idle : Session fs sha → Type 0
  Idle s = TrackedHere s × (s.transfer.active_file ≡ none)

  pub Quiet-Idle : (s s' : Session fs sha) → Quiet s s' → Idle s → Idle s'
  Quiet-Idle s s' q (t, e) = (Quiet-Tracked s s' q t, q.active ∙ e)

  pub seq :
      {A B : Type 0} (m : Step fs sha A) (f : A → Step fs sha B) (s : Session fs sha)
      → IsQuiet m
      → ((a : A) (s' : Session fs sha) → Idle s' → TrackedHere (f a s').1)
      → Idle s
      → TrackedHere ((m >>= f) s).1
  seq m f s q next i = elim (Result-cases (m s).0) [
    | inl (a, e) ↦ rw e (next a (m s).1 (Quiet-Idle s (m s).1 (q s) i))
    | inr (x, e) ↦ rw e (Quiet-Idle s (m s).1 (q s) i).0
  ]

  pub quiet_seq :
      {A B : Type 0} (m : Step fs sha A) (f : A → Step fs sha B) (s : Session fs sha)
      → IsQuiet m
      → ((a : A) (s' : Session fs sha) → TrackedHere s' → TrackedHere (f a s').1)
      → TrackedHere s
      → TrackedHere ((m >>= f) s).1
  quiet_seq m f s q next i = elim (Result-cases (m s).0) [
    | inl (a, e) ↦ rw e (next a (m s).1 (Quiet-Tracked s (m s).1 (q s) i))
    | inr (x, e) ↦ rw e (Quiet-Tracked s (m s).1 (q s) i)
  ]

  pub on_disk-IsQuiet :
      {A : Type 0} (call : Exec Disk IoError A)
      → ((d : Disk) (l : Place) → holds (call d).1 l ≡ holds d l)
      → IsQuiet (on_disk fs sha call)
  on_disk-IsQuiet call same s = record { disk = same s.disk; active = refl; committed = refl }

  pub require_id-IsQuiet : (id : Text) → IsQuiet (require_id fs sha id)
  unfolding require_id
  require_id-IsQuiet id s = Quiet-refl s

  pub reserve_file-IsQuiet : IsQuiet (reserve_file fs sha)
  unfolding reserve_file reserve_entry
  reserve_file-IsQuiet s = record {
    disk = λ l. ground arith;
    active = ground arith;
    committed = ground arith;
  }

  pub reserve_entry-IsQuiet : IsQuiet (reserve_entry fs sha)
  unfolding reserve_entry
  reserve_entry-IsQuiet s = record {
    disk = λ l. ground arith;
    active = ground arith;
    committed = ground arith;
  }

  pub resolve_target-IsQuiet : (p : Text) → IsQuiet (resolve_target fs sha p)
  unfolding resolve_target
  resolve_target-IsQuiet p s = Quiet-refl s

  pub no_active_file-IsQuiet : (m : Text) → IsQuiet (no_active_file fs sha m)
  unfolding no_active_file
  no_active_file-IsQuiet m s = Quiet-refl s

  pub claim_target-IsQuiet : (p : Text) → IsQuiet (claim_target fs sha p)
  unfolding claim_target
  claim_target-IsQuiet p s = record {
    disk = λ l. ground arith;
    active = ground arith;
    committed = ground arith;
  }

  pub create_parent-IsQuiet : (o : Option Text) → IsQuiet (create_parent fs sha o)
  unfolding create_parent
  create_parent-IsQuiet none s = Quiet-refl s
  create_parent-IsQuiet (some p) s =
      on_disk-IsQuiet (fs.create_dir_all p) (λ d l. places.create_dir_all p l d) s

  pub view_Tracked :
      (s s' : Session fs sha)
      → s'.disk ≡ s.disk
      → temp_of fs places sha s'.transfer.active_file ≡ temp_of fs places sha s.transfer.active_file
      → s'.transfer.committed_targets ≡ s.transfer.committed_targets
      → TrackedHere s
      → TrackedHere s'
  view_Tracked s s' d a c t = record {
    files =
        subst
          (λ k.
            Tracks fs places sha start [] s'.disk (temp_of fs places sha s'.transfer.active_file) k)
          (sym c)
          (subst (λ k. Tracks fs places sha start [] s'.disk k s.transfer.committed_targets) (sym a)
            (subst
              (λ k.
                Tracks fs places sha start [] k (temp_of fs places sha s.transfer.active_file)
                  s.transfer.committed_targets)
              (sym d) t.files));
  }

  pub step_to :
      {A B : Type 0} (P : Result TransferError B × Session fs sha → Type 0) (m : Step fs sha A)
      (f : A → Step fs sha B) (s : Session fs sha)
      → ((a : A) → (m s).0 ≡ ok a → P (f a (m s).1))
      → ((e : TransferError) → (m s).0 ≡ err e → P (err e, (m s).1))
      → P ((m >>= f) s)
  step_to P m f s goes fails = elim (Result-cases (m s).0) [
    | inl (a, e) ↦ rw e (goes a e)
    | inr (x, e) ↦ rw e (fails x e)
  ]

  pub checked :
      {A B : Type 0} (r : Result TransferError A) (f : A → Step fs sha B) (s : Session fs sha)
      → ((a : A) → r ≡ ok a → TrackedHere (f a s).1)
      → TrackedHere s
      → TrackedHere (continue r f s).1
  checked (ok a) f s goes t = goes a refl
  checked (err e) f s goes t = t

  pub count_bytes-Tracked :
      (f : IncomingFile fs) (bs : Bytes) (s : Session fs sha)
      → s.transfer.active_file ≡ some f
      → TrackedHere s
      → TrackedHere (count_bytes fs sha f bs s).1
  unfolding count_bytes
  count_bytes-Tracked f bs s e t =
      view_Tracked s (count_bytes fs sha f bs s).1 (ground arith) (ground (arith, e)) (ground arith)
        t

  pub io_failed :
      {A : Type 0} (r : Result IoError A) {e : TransferError}
      → map_err io r ≡ err e
      → (x : IoError) × (r ≡ err x)
  io_failed (ok a) h = absurd (ground (arith, h))
  io_failed (err x) h = (x, refl)

  pub complete-Tracked :
      (id : Text) (s : Session fs sha) → TrackedHere s → TrackedHere (complete fs sha id s).1
  unfolding complete
  complete-Tracked id s t =
      view_Tracked s (complete fs sha id s).1 (ground arith) (ground arith) (ground arith) t
