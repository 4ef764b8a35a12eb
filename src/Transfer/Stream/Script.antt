-- ===== src/Transfer/Stream/Script.antt =====
-- The messages that a transfer is made of, and what its counters come to, apart from the connection.
use agent_send.Base.{ℕ, Text, Bytes, List, [], ◌∷◌, ◌++◌, false, if◌then◌else◌, ◌≡◌, length}
use agent_send.Base.Result.{Result, ok, err, ◌>>=◌}
use agent_send.Core.Os.{FileSystem, Reading, IoError}
use agent_send.Peer.Message.{
  PeerMessage, directory, file_start, file_chunk, file_complete, transfer_complete,
}
use agent_send.Transfer.Types.{FileItem, add64}
use agent_send.Transfer.Outbound.{PreparedTransfer}
use agent_send.Transfer.Collect.{blocks}

-- The messages of a transfer, without the connection: the chunks of a file,
unfoldable pub chunk_messages : Text → ℕ → List Bytes → List PeerMessage
chunk_messages id offset [] = []
chunk_messages id offset (bytes ∷ rest) =
    file_chunk id offset bytes ∷ chunk_messages id (add64 offset (length bytes)) rest

-- the counter of bytes after them,
unfoldable pub add_lengths : ℕ → List Bytes → ℕ
add_lengths n [] = n
add_lengths n (bytes ∷ rest) = add_lengths (add64 n (length bytes)) rest

abbrev or_none : Result IoError (List Bytes) → List Bytes
or_none (ok parts) = parts
or_none (err e) = []

module _ (fs : FileSystem) (disk : Reading fs) (d : fs.Disk) where
  -- what a file holds,
  unfoldable pub contents : FileItem → List Bytes
  contents item = or_none (disk.reads d item.source >>= blocks)

  -- the messages of an entry and of all entries,
  unfoldable pub item_messages : Text → FileItem → List PeerMessage
  unfolding chunk_messages
  item_messages id item =
      if fs.is_dir d item.source
      then directory id item.relative ∷ []
      else file_start id item.relative item.size
        ∷ (chunk_messages id 0 (contents item) ++ (file_complete id ∷ []))

  -- the counters after them,
  unfoldable pub item_bytes : ℕ → FileItem → ℕ
  unfolding add_lengths
  item_bytes n item = if fs.is_dir d item.source then n else add_lengths n (contents item)

  unfoldable pub item_files : ℕ → FileItem → ℕ
  item_files n item = if fs.is_dir d item.source then n else add64 n 1

  unfoldable pub items_bytes : ℕ → List FileItem → ℕ
  items_bytes n [] = n
  items_bytes n (item ∷ rest) = items_bytes (item_bytes n item) rest

  unfoldable pub items_files : ℕ → List FileItem → ℕ
  items_files n [] = n
  items_files n (item ∷ rest) = items_files (item_files n item) rest

  -- a file is readable to its end
  abbrev pub IsRead : FileItem → Type 0
  IsRead item =
      fs.is_dir d item.source ≡ false → (disk.reads d item.source >>= blocks) ≡ ok (contents item)

  unfoldable pub items_messages : Text → List FileItem → List PeerMessage
  items_messages id [] = []
  items_messages id (item ∷ rest) = item_messages id item ++ items_messages id rest

  -- and the whole transfer.
  unfoldable pub script : PreparedTransfer → List PeerMessage
  script p = items_messages p.transfer_id p.items ++ (transfer_complete p.transfer_id ∷ [])
