-- ===== src/Transfer/Engine.antt =====
-- `TransferEngine` of crates/agent-send-daemon/src/transfer.rs: the named folders, the check of a
-- submission and the start of an incoming transfer.
use agent_send.Base.{ℕ, Text, text, List, [], ◌∷◌, Bool, false, none, some, ltb, is_some}
use agent_send.Base.Result.{Result, ok, ok_or, map_err, reject_if, ◌>>=◌, ◌>>◌}
use agent_send.Base.Map.{Map, get, insert, remove, keys}
use agent_send.Limits.{max_transfer_bytes}
use agent_send.Core.Os.{FileSystem, Sha256}
use agent_send.Core.Request.{FolderDirection, TransferRequest, validate}
use agent_send.Core.Policy.{PathPolicy, read, write, resolve}
use agent_send.Transfer.Types.{
  TransferEngine, TransferOutcome, TransferError, request, folder_not_found, policy,
  size_limit_exceeded, IncomingTransfer,
}

-- `TransferEngine::new`
unfoldable pub new : TransferEngine
new = record { folders = []; completed = [] }

-- `TransferEngine::add_folder`
unfoldable pub add_folder : TransferEngine → Text → PathPolicy → TransferEngine
unfolding insert
add_folder e id p = record e { folders = insert e.folders id p }

-- `TransferEngine::remove_folder`
unfoldable pub remove_folder : TransferEngine → Text → TransferEngine × Bool
unfolding remove get
remove_folder e id = (record e { folders = remove e.folders id }, is_some (get e.folders id))

-- `TransferEngine::folder_ids`
unfoldable pub folder_ids : TransferEngine → List Text
folder_ids e = keys e.folders

abbrev directions : Map PathPolicy → List (Text × FolderDirection)
directions [] = []
directions ((id, p) ∷ rest) = (id, p.direction) ∷ directions rest

-- `TransferEngine::folders`
unfoldable pub folders : TransferEngine → List (Text × FolderDirection)
folders e = directions e.folders

-- `TransferEngine::folder`
unfoldable pub folder : TransferEngine → Text → Result TransferError PathPolicy
folder e id = ok_or (get e.folders id) (folder_not_found id)

module _ (fs : FileSystem) where
  -- The loop of `validate_submission`
  unfoldable pub resolve_all : fs.Disk → PathPolicy → List Text → Result TransferError (Unit {0})
  resolve_all d source [] = ok tt
  resolve_all d source (path ∷ rest) = do
    _ ← map_err policy (resolve fs d source path read)
    resolve_all d source rest

  -- `TransferEngine::validate_submission`
  unfoldable pub validate_submission :
      fs.Disk → TransferEngine → TransferRequest → Result TransferError (Unit {0})
  unfolding folder resolve_all
  validate_submission d e r = do
    map_err request (validate r)
    source ← folder e r.source_folder_id
    resolve_all d source r.source_paths

  pub data IncomingStart (sha : Sha256) : Type 0 where
    ready : IncomingTransfer fs sha → IncomingStart sha
    completed : TransferOutcome → IncomingStart sha

  module _ (sha : Sha256) where
    unfoldable pub fresh : Text → Text → PathPolicy → ℕ → Text → IncomingTransfer fs sha
    fresh transfer_id idempotency_key destination total_bytes sha256 = record {
      transfer_id = transfer_id;
      idempotency_key = idempotency_key;
      destination = destination;
      total_bytes = total_bytes;
      expected_hash = sha256;
      bytes = 0;
      files = 0;
      hash = sha.new;
      active_file = none;
      files_started = 0;
      entries = 0;
      targets = [];
      committed_targets = [];
      completed = false;
    }

    -- A transfer that has not been completed before.
    unfoldable pub begin_new :
        fs.Disk
        → TransferEngine
        → Text
        → Text
        → Text
        → ℕ
        → Text
        → Result TransferError (IncomingStart sha)
    unfolding fresh folder
    begin_new d e transfer_id destination_folder_id idempotency_key total_bytes sha256 = do
      reject_if (ltb max_transfer_bytes total_bytes) size_limit_exceeded
      destination ← folder e destination_folder_id
      _ ← map_err policy (resolve fs d destination (text ".") write)
      ok (ready (fresh transfer_id idempotency_key destination total_bytes sha256))

    -- `TransferEngine::begin_incoming`
    unfoldable pub begin_incoming :
        fs.Disk
        → TransferEngine
        → Text
        → Text
        → Text
        → ℕ
        → Text
        → Result TransferError (IncomingStart sha)
    unfolding begin_new
    begin_incoming d e transfer_id destination_folder_id idempotency_key total_bytes sha256 =
        elim (get e.completed idempotency_key) [
          | some outcome ↦ ok (completed outcome)
          | none ↦
              begin_new d e transfer_id destination_folder_id idempotency_key total_bytes sha256
        ]
