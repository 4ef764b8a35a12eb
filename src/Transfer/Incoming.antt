-- ===== src/Transfer/Incoming.antt =====
-- `IncomingTransfer` of crates/agent-send-daemon/src/transfer.rs.
pub mod Bounds
pub mod Files
pub mod Tracking
use mathlib.Core.List.{reverse}
use agent_send.Base.{
  ℕ, ◌-◌, Text, text, Bytes, List, [], ◌∷◌, ◌++◌, Bool, true, not, ◌&&◌, ◌||◌, Option, none, some,
  ltb, leb, ◌==◌, ℕ_eq, Text_eq, if◌then◌else◌, is_some, length, any, map,
}
use agent_send.Base.Result.{ok, err, ok_or, map_err, reject_if}
use agent_send.Base.Exec.{Exec, pure, raise, lift, gets, ◌>>=◌, ◌>>◌}
use agent_send.Base.Map.{Map, insert}
use agent_send.Limits.{chunk_size, max_transfer_files}
use agent_send.Core.Os.{FileSystem, Sha256, IoError}
use agent_send.Core.Policy.{write, resolve}
use agent_send.Core.Paths.{components, is_prefix, parent}
use agent_send.Hex.{hex, to_ascii_lowercase}
use agent_send.Transfer.Types.{
  TransferOutcome, TransferError, policy, io, destination_exists, protocol, size_mismatch,
  file_count_limit_exceeded, hash_mismatch, IncomingTransfer, IncomingFile, add64, temp_path,
}

-- Paths are equal when their components are.
abbrev same_path : Text → Text → Bool
same_path p q = is_prefix (components p) (components q) && is_prefix (components q) (components p)

-- `str::eq_ignore_ascii_case`
abbrev pub eq_ignore_ascii_case : Text → Text → Bool
eq_ignore_ascii_case s t = map to_ascii_lowercase s == map to_ascii_lowercase t

module _ (fs : FileSystem) where
  -- `fs::remove_file` of each path, the results ignored
  unfoldable pub remove_each : List Text → fs.Disk → fs.Disk
  remove_each [] d = d
  remove_each (path ∷ rest) d = remove_each rest (fs.remove_file path d).1

  unfoldable pub remove_temp : Option (IncomingFile fs) → fs.Disk → fs.Disk
  remove_temp none d = d
  remove_temp (some file) d = (fs.remove_file file.temp d).1

module _ (fs : FileSystem) (sha : Sha256) where
  open fs use {Disk, Handle, exists, is_dir}

  -- What the methods of a transfer read and change: the transfer, the disk, and the shared map of
  -- completed transfers.
  pub record Session : Type 0 where
    pub transfer : IncomingTransfer fs sha
    pub disk : Disk
    pub done : Map TransferOutcome

  abbrev pub Step : Type 0 → Type 0
  Step = Exec Session TransferError

  abbrev pub on_disk : {A : Type 0} → Exec Disk IoError A → Step A
  on_disk call s = let (r, d) = call s.disk in (map_err io r, record s { disk = d })

  abbrev pub modify : (IncomingTransfer fs sha → IncomingTransfer fs sha) → Step Unit
  modify f s = (ok tt, record s { transfer = f s.transfer })

  -- `IncomingTransfer::require_id`
  unfoldable pub require_id : Text → Step Unit
  require_id transfer_id s = (
    reject_if (not (s.transfer.transfer_id == transfer_id))
        (protocol (text "message belongs to a different transfer")),
    s,
  )

  -- `IncomingTransfer::reserve_entry`
  unfoldable pub reserve_entry : Step Unit
  reserve_entry s =
      if leb max_transfer_files s.transfer.entries
      then (err file_count_limit_exceeded, s)
      else modify (λ t. record t { entries = add64 t.entries 1 }) s

  -- `IncomingTransfer::reserve_file`
  unfoldable pub reserve_file : Step Unit
  unfolding reserve_entry
  reserve_file = do
    t ← gets (λ s. s.transfer)
    lift (reject_if (leb max_transfer_files t.files_started) file_count_limit_exceeded)
    reserve_entry
    modify (λ t. record t { files_started = add64 t.files_started 1 })

  -- `self.destination.resolve(relative, PathOperation::Write)`
  unfoldable pub resolve_target : Text → Step Text
  resolve_target relative s =
      (map_err policy (resolve fs s.disk s.transfer.destination relative write), s)

  pub no_active_file : Text → Step Unit
  no_active_file message s = (reject_if (is_some s.transfer.active_file) (protocol message), s)

  -- `IncomingTransfer::directory`
  unfoldable pub directory : Text → Text → Step Unit
  unfolding require_id reserve_entry resolve_target no_active_file
  directory transfer_id relative = do
    require_id transfer_id
    no_active_file (text "directory arrived while a file is open")
    reserve_entry
    target ← resolve_target relative
    d ← gets (λ s. s.disk)
    lift (reject_if (exists d target && not (is_dir d target)) (destination_exists target))
    on_disk (fs.create_dir_all target)

  -- `target.exists() || !self.targets.insert(target.clone())`
  pub claim_target : Text → Step Unit
  claim_target target = do
    s ← gets (λ s. s)
    lift (
        reject_if (exists s.disk target || any (same_path target) s.transfer.targets)
          (destination_exists target))
    modify (λ t. record t { targets = target ∷ t.targets })

  pub create_parent : Option Text → Step Unit
  create_parent none = pure tt
  create_parent (some above) = on_disk (fs.create_dir_all above)

  -- `IncomingTransfer::file_start`
  unfoldable pub file_start : Text → Text → ℕ → Step Unit
  unfolding require_id reserve_file resolve_target no_active_file claim_target create_parent
  file_start transfer_id relative size = do
    require_id transfer_id
    no_active_file (text "file started while another file is open")
    t ← gets (λ s. s.transfer)
    lift (reject_if (ltb (t.total_bytes - t.bytes) size) size_mismatch)
    reserve_file
    target ← resolve_target relative
    claim_target target
    create_parent (parent target)
    temp ← gets (λ s. temp_path fs s.disk target)
    file ← on_disk (fs.create_new temp)
    modify (λ t. record t {
      active_file =
          some (record {
            target = target;
            temp = temp;
            file = file;
            expected_size = size;
            offset = 0;
          });
    })

  -- The update of the open file and of the counters, with their checks, after the bytes are written.
  pub count_bytes : IncomingFile fs → Bytes → Step Unit
  count_bytes file bytes = do
    let offset = add64 file.offset (length bytes)
    modify (λ t. record t { active_file = some (record file { offset = offset }) })
    lift (reject_if (ltb file.expected_size offset) size_mismatch)
    modify (λ t. record t { bytes = add64 t.bytes (length bytes) })
    t ← gets (λ s. s.transfer)
    lift (reject_if (ltb t.total_bytes t.bytes) size_mismatch)
    modify (λ t. record t { hash = sha.update t.hash bytes })

  -- `IncomingTransfer::chunk`
  unfoldable pub chunk : Text → ℕ → Bytes → Step Unit
  unfolding require_id count_bytes
  chunk transfer_id offset bytes = do
    require_id transfer_id
    lift (
        reject_if (ltb chunk_size (length bytes))
          (protocol (text "file chunk exceeds the protocol limit")))
    t ← gets (λ s. s.transfer)
    file ← lift (ok_or t.active_file (protocol (text "file chunk arrived without a file")))
    lift (
        reject_if (not (file.offset == offset))
          (protocol (text "file chunk offset is not monotonic")))
    on_disk (fs.write_all file.file bytes)
    count_bytes file bytes

  -- `let _ = fs::remove_file(path)`
  unfoldable pub try_remove : Text → Step Unit
  try_remove path s = (ok tt, record s { disk = (fs.remove_file path s.disk).1 })

  finish_file : IncomingFile fs → Step Unit
  finish_file file = do
    on_disk (fs.sync_all file.file)
    on_disk (fs.rename file.temp file.target)
    modify (λ t. record t {
      committed_targets = t.committed_targets ++ (file.target ∷ []);
      files = add64 t.files 1;
    })

  give_up_file : IncomingFile fs → Step Unit
  unfolding try_remove
  give_up_file file = do try_remove file.temp; raise size_mismatch

  -- `IncomingTransfer::file_complete`
  unfoldable pub file_complete : Text → Step Unit
  unfolding require_id finish_file give_up_file
  file_complete transfer_id = do
    require_id transfer_id
    t ← gets (λ s. s.transfer)
    modify (λ t. record t { active_file = none })
    file ← lift (ok_or t.active_file (protocol (text "file completed without a file")))
    if file.offset == file.expected_size then finish_file file else give_up_file file

  record_outcome : Text → TransferOutcome → Step Unit
  record_outcome key outcome s = (
    ok tt,
    record s {
      done = insert s.done key outcome;
      transfer = record s.transfer { completed = true };
    },
  )

  outcome_of : IncomingTransfer fs sha → TransferOutcome
  outcome_of t = record { bytes = t.bytes; files = t.files; sha256 = hex (sha.finalize t.hash) }

  -- `IncomingTransfer::complete`
  unfoldable pub complete : Text → Step TransferOutcome
  unfolding require_id no_active_file record_outcome outcome_of
  complete transfer_id = do
    require_id transfer_id
    no_active_file (text "transfer completed while a file is open")
    t ← gets (λ s. s.transfer)
    lift (reject_if (not (t.bytes == t.total_bytes)) size_mismatch)
    let outcome = outcome_of t
    lift (reject_if (not (eq_ignore_ascii_case outcome.sha256 t.expected_hash)) hash_mismatch)
    record_outcome t.idempotency_key outcome
    pure outcome

  -- `Drop for IncomingTransfer`
  unfoldable pub drop : IncomingTransfer fs sha → Disk → Disk
  unfolding remove_each remove_temp
  drop t d =
      let cleared = remove_temp fs t.active_file d in
      if t.completed then cleared else remove_each fs (reverse t.committed_targets) cleared
