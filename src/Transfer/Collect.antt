-- ===== src/Transfer/Collect.antt =====
-- `collect_items`, `hash_items` and `TransferEngine::prepare_outbound` of
-- crates/agent-send-daemon/src/transfer.rs: what an outgoing transfer is made of.
pub mod Fuel
use agent_send.Base.{
  ℕ, zero, suc, Text, Bytes, List, [], ◌∷◌, ◌++◌, Option, none, some, Ordering, text_compare,
  is_empty, if◌then◌else◌,
}
use agent_send.Base.Result.{Result, ok, err, map_err, ◌>>=◌, ◌>>◌}
use agent_send.Core.Os.{
  FileSystem, Reading, FileKind, regular, folder, special, IoError, invalid_input, Sha256,
}
use agent_send.Core.Paths.{join}
use agent_send.Core.Policy.{PathPolicy, PathPolicyError, read, resolve}
use agent_send.Core.Request.{TransferRequest}
use agent_send.Hex.{hex}
use agent_send.Transfer.Types.{TransferEngine, FileItem, TransferError, policy, io}
use agent_send.Transfer.Engine
use agent_send.Transfer.Engine.{validate_submission}
use agent_send.Transfer.Outbound.{PreparedTransfer, measure}

-- `entries.sort_by_key(|entry| entry.file_name())`, a stable sort
unfoldable pub insert_name : Text → List Text → List Text
insert_name name [] = name ∷ []
insert_name name (first ∷ rest) =
    let later = insert_name name rest in
    elim (text_compare name first) [ Ordering.gt ↦ first ∷ later | _ ↦ name ∷ first ∷ rest ]

unfoldable pub sort_names : List Text → List Text
unfolding insert_name
sort_names [] = []
sort_names (name ∷ rest) = insert_name name (sort_names rest)

-- The bytes that a file gives before its first empty read, or the error of a read before it
unfoldable pub blocks : List (Result IoError Bytes) → Result IoError (List Bytes)
blocks [] = ok []
blocks (err e ∷ rest) = err e
blocks (ok bytes ∷ rest) =
    let later = blocks rest in if is_empty bytes then ok [] else later >>= λ more. ok (bytes ∷ more)

-- Collecting is recursive. `none` says that the fuel is used up; the source has no such case.
abbrev pub Fueled : Type 0 → Type 0
Fueled A = Result (Option TransferError) A

abbrev pub collect_error : {A : Type 0} → Result TransferError A → Fueled A
collect_error r = map_err some r

module _ (sha : Sha256) where
  unfoldable pub update_all : sha.State → List Bytes → sha.State
  update_all h [] = h
  update_all h (bytes ∷ rest) = update_all (sha.update h bytes) rest

module _ (fs : FileSystem) (disk : Reading fs) (d : fs.Disk) where
  open fs use {is_file}
  open disk use {metadata, read_dir, reads}

  module _ (source : PathPolicy) where
    resolve_source : Text → Fueled Text
    resolve_source relative = collect_error (map_err policy (resolve fs d source relative read))

    module _ (collect : Text → Text → List FileItem → Fueled (List FileItem)) where
      -- The loop over the entries of a directory, `collect` being the recursive call
      unfoldable pub collect_entries : Text → List Text → List FileItem → Fueled (List FileItem)
      unfolding resolve_source
      collect_entries relative [] out = ok out
      collect_entries relative (name ∷ rest) out = do
        let child = join relative name
        child_path ← resolve_source child
        more ← collect child_path child out
        collect_entries relative rest more

      -- What `collect_items` does with the metadata of the path
      unfoldable pub collect_kind :
          FileKind → ℕ → Text → Text → List FileItem → Fueled (List FileItem)
      unfolding collect_entries
      collect_kind regular size path relative out =
          ok (out ++ (record { source = path; relative = relative; size = size } ∷ []))
      collect_kind special size path relative out = err (some (io invalid_input))
      collect_kind folder size path relative out = do
        _ ← resolve_source relative
        entries ← collect_error (map_err io (read_dir d path))
        inside ← collect_entries relative (sort_names entries) out
        ok (inside ++ (record { source = path; relative = relative; size = 0 } ∷ []))

    -- `collect_items`
    unfoldable pub collect_items : ℕ → Text → Text → List FileItem → Fueled (List FileItem)
    unfolding collect_kind
    collect_items zero path relative out = err none
    collect_items (suc n) path relative out = do
      (kind, size) ← collect_error (map_err io (metadata d path))
      collect_kind (collect_items n) kind size path relative out

    -- The loop of `prepare_outbound` and of `receive` over the paths of a request
    unfoldable pub collect_paths : ℕ → List Text → List FileItem → Fueled (List FileItem)
    unfolding collect_items resolve_source
    collect_paths n [] out = ok out
    collect_paths n (name ∷ rest) out = do
      path ← resolve_source name
      more ← collect_items n path name out
      collect_paths n rest more

  module _ (sha : Sha256) where
    -- The loop of `hash_items`
    unfoldable pub hash_from : sha.State → List FileItem → Result TransferError sha.State
    unfolding update_all blocks
    hash_from h [] = ok h
    hash_from h (item ∷ rest) =
        if is_file d item.source
        then (map_err io (reads d item.source >>= blocks) >>= λ parts.
            hash_from (update_all sha h parts) rest)
        else hash_from h rest

    -- `hash_items`
    unfoldable pub hash_items : List FileItem → Result TransferError Text
    unfolding hash_from
    hash_items items = hash_from sha.new items >>= λ h. ok (hex (sha.finalize h))

    -- `TransferEngine::prepare_outbound`
    unfoldable pub prepare_outbound : ℕ → TransferEngine → TransferRequest → Fueled PreparedTransfer
    unfolding validate_submission Engine.folder collect_paths measure hash_items
    prepare_outbound n e r = do
      collect_error (validate_submission fs d e r)
      source ← collect_error (Engine.folder e r.source_folder_id)
      items ← collect_paths source n r.source_paths []
      total_bytes ← collect_error (measure fs d items)
      sha256 ← collect_error (hash_items items)
      ok (record {
        transfer_id = r.idempotency_key;
        destination_folder_id = r.destination_folder_id;
        idempotency_key = r.idempotency_key;
        total_bytes = total_bytes;
        sha256 = sha256;
        items = items;
      })
