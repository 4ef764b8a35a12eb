-- ===== src/Transfer/Loopback.antt =====
-- `TransferEngine::receive`, `send_loopback` and `copy_file` of crates/agent-send-daemon/src/transfer.rs:
-- a transfer between two engines of one process. `LoopbackTransport::send` is `send_loopback`.
pub mod Ledger
use agent_send.Base.{
  ℕ, suc, Text, Bytes, List, [], ◌∷◌, ◌++◌, Bool, not, Option, none, some, is_empty, length,
  if◌then◌else◌,
}
use agent_send.Base.Result.{Result, ok, err, ok_or, map_err, reject_if}
use agent_send.Base.Exec.{Exec, pure, raise, lift, gets, ◌>>=◌, ◌>>◌}
use agent_send.Base.Map.{Map, get, insert}
use agent_send.Core.Os.{FileSystem, Reading, Sha256, IoError}
use agent_send.Core.Paths.{parent}
use agent_send.Core.Policy.{PathPolicy, read, write, resolve}
use agent_send.Core.Request.{TransferRequest, validate}
use agent_send.Hex.{hex}
use agent_send.Transfer.Types.{
  TransferEngine, TransferOutcome, TransferProgress, FileItem, TransferError, request, policy, io,
  cancelled, destination_exists, add64, temp_path,
}
use agent_send.Transfer.Engine.{folder}
use agent_send.Transfer.Outbound.{measure}
use agent_send.Transfer.Collect.{collect_paths}

module _ (fs : FileSystem) (disk : Reading fs) (sha : Sha256) (is_cancelled : ℕ → Bool) where
  open fs use {Disk, Handle, exists, is_dir}

  -- What a transfer changes: the disk, the receiver's map of completed transfers, how often the token
  -- has been looked at, the counters, the hash and the reports of progress.
  pub record Copying : Type 0 where
    pub disk_now : Disk
    pub done : Map TransferOutcome
    pub polls : ℕ
    pub bytes : ℕ
    pub files : ℕ
    pub hash : sha.State
    pub progress : List TransferProgress

  -- `none` in the place of an error says that the fuel for collecting is used up.
  abbrev pub Copy : Type 0 → Type 0
  Copy = Exec Copying (Option TransferError)

  abbrev fail_with : {A : Type 0} → TransferError → Copy A
  fail_with e = raise (some e)

  abbrev try : {A : Type 0} → (Disk → Result TransferError A) → Copy A
  try call s = (map_err some (call s.disk_now), s)

  abbrev on_disk : {A : Type 0} → Exec Disk IoError A → Copy A
  on_disk call s =
      let (r, d) = call s.disk_now in (map_err (λ e. some (io e)) r, record s { disk_now = d })

  -- `check_cancel`
  unfoldable pub check_cancel : Copy Unit
  check_cancel s =
      (reject_if (is_cancelled s.polls) (some cancelled), record s { polls = suc s.polls })

  count_block : ℕ → Bytes → Copy Unit
  count_block total bytes s =
      let count = add64 s.bytes (length bytes) in
      (
        ok tt,
        record s {
          hash = sha.update s.hash bytes;
          bytes = count;
          progress = s.progress ++ (record { bytes = count; total_bytes = total } ∷ []);
        },
      )

  -- The loop of `copy_file`, over the results of `read`
  unfoldable pub copy_blocks : Handle → ℕ → List (Result IoError Bytes) → Copy Unit
  unfolding check_cancel count_block
  copy_blocks output total [] = check_cancel
  copy_blocks output total (err e ∷ rest) = do check_cancel; fail_with (io e)
  copy_blocks output total (ok bytes ∷ rest) = do
    check_cancel
    if is_empty bytes then pure tt else (do
      on_disk (fs.write_all output bytes)
      count_block total bytes
      copy_blocks output total rest)

  -- `copy_file`
  unfoldable pub copy_file : Text → Text → ℕ → Copy Unit
  unfolding copy_blocks
  copy_file source temp total = do
    input ← try (λ d. map_err io (disk.reads d source))
    output ← on_disk (fs.create_new temp)
    copy_blocks output total input
    on_disk (fs.sync_all output)

  -- `if result.is_err() { let _ = fs::remove_file(&temp); }`, and `result?`
  unfoldable pub remove_if_failed : Text → Result (Option TransferError) (Unit {0}) → Copy Unit
  remove_if_failed temp (ok u) s = (ok tt, s)
  remove_if_failed temp (err e) s =
      (err e, record s { disk_now = (fs.remove_file temp s.disk_now).1 })

  create_parent : Option Text → Copy Unit
  create_parent none = pure tt
  create_parent (some above) = on_disk (fs.create_dir_all above)

  copy_or_remove : Text → Text → ℕ → Copy Unit
  unfolding copy_file remove_if_failed
  copy_or_remove source temp total s =
      let (r, s') = copy_file source temp total s in remove_if_failed temp r s'

  -- A file of the loop of `receive`
  unfoldable pub receive_file : Text → Text → ℕ → Copy Unit
  unfolding create_parent copy_or_remove
  receive_file source target total = do
    d ← gets (λ s. s.disk_now)
    lift (reject_if (exists d target) (some (destination_exists target)))
    create_parent (parent target)
    temp ← gets (λ s. temp_path fs s.disk_now target)
    copy_or_remove source temp total
    on_disk (fs.rename temp target)
    λ s. (ok tt, record s { files = add64 s.files 1 })

  -- A directory of it
  unfoldable pub receive_directory : Text → Copy Unit
  receive_directory target = do
    d ← gets (λ s. s.disk_now)
    if exists d target
        then lift (reject_if (not (is_dir d target)) (some (destination_exists target)))
        else on_disk (fs.create_dir_all target)

  unfoldable pub receive_item : PathPolicy → ℕ → FileItem → Copy Unit
  unfolding check_cancel receive_file receive_directory
  receive_item destination total item = do
    check_cancel
    target ← try (λ d. map_err policy (resolve fs d destination item.relative write))
    d ← gets (λ s. s.disk_now)
    if is_dir d item.source then receive_directory target else receive_file item.source target total

  unfoldable pub receive_items : PathPolicy → ℕ → List FileItem → Copy Unit
  unfolding receive_item
  receive_items destination total [] = pure tt
  receive_items destination total (item ∷ rest) = do
    receive_item destination total item
    receive_items destination total rest

  -- The outcome is made and entered.
  unfoldable pub enter_outcome : Text → Copy TransferOutcome
  enter_outcome key s =
      let outcome : TransferOutcome = record {
        bytes = s.bytes;
        files = s.files;
        sha256 = hex (sha.finalize s.hash);
      } in
      (ok outcome, record s { done = insert s.done key outcome })

  -- A transfer that has not been completed before
  unfoldable pub receive_new :
      ℕ → TransferEngine → TransferRequest → PathPolicy → Copy TransferOutcome
  unfolding receive_items enter_outcome collect_paths measure
  receive_new n receiver r source = do
    destination ← try (λ _. folder receiver r.destination_folder_id)
    d ← gets (λ s. s.disk_now)
    items ← lift (collect_paths fs disk d source n r.source_paths [])
    total ← try (λ d. measure fs d items)
    receive_items destination total items
    enter_outcome r.idempotency_key

  abbrev or_done : Option TransferOutcome → Copy TransferOutcome → Copy TransferOutcome
  or_done none m = m
  or_done (some earlier) m = pure earlier

  -- `TransferEngine::receive`, on the receiving engine
  unfoldable pub receive : ℕ → TransferEngine → TransferRequest → PathPolicy → Copy TransferOutcome
  unfolding receive_new
  receive n receiver r source = do
    try (λ _. map_err request (validate r))
    done ← gets (λ s. s.done)
    or_done (get done r.idempotency_key) (receive_new n receiver r source)

  abbrev start : Disk → TransferEngine → Copying
  start d receiver = record {
    disk_now = d;
    done = receiver.completed;
    polls = 0;
    bytes = 0;
    files = 0;
    hash = sha.new;
    progress = [];
  }

  -- `TransferEngine::send_loopback`
  unfoldable pub send_loopback :
      ℕ
      → TransferEngine
      → TransferRequest
      → TransferEngine
      → Disk
      → Result (Option TransferError) TransferOutcome × Copying
  unfolding receive
  send_loopback n sender r receiver d =
      (do
        try (λ _. map_err request (validate r))
        source ← try (λ _. folder sender r.source_folder_id)
        receive n receiver r source)
        (start d receiver)
