-- ===== src/Transfer/Incoming/Bounds.antt =====
-- The counters of a transfer stay within what was declared and within the fixed limits.
use agent_send.Base.{
  ℕ, ◌+◌, ◌-◌, ◌≤◌, Text, Bytes, Option, none, some, ◌≡◌, arith, length, length-append, [], ◌∷◌,
  Option-cases, inl, inr,
}
use agent_send.Base.Result.{ok}
use agent_send.Limits.{max_transfer_bytes, max_transfer_files}
use agent_send.Core.Os.{FileSystem, Sha256}
use agent_send.Core.Policy.{PathPolicy}
use agent_send.Transfer.Types.{IncomingTransfer, IncomingFile, TransferOutcome}
use agent_send.Transfer.Engine.{fresh}
use agent_send.Transfer.Incoming.{Session, directory, file_start, chunk, file_complete, complete}

module _ (fs : FileSystem) (sha : Sha256) where
  -- What the open file may still take fits in what the manifest has left.
  abbrev pub FitsActive : IncomingTransfer fs sha → Option (IncomingFile fs) → Type 0
  FitsActive t none = t.files ≤ t.files_started
  FitsActive t (some f) =
      (t.files + 1 ≤ t.files_started)
      × (f.offset ≤ f.expected_size)
      × (f.expected_size ≤ t.total_bytes)
      × (t.bytes + (f.expected_size - f.offset) ≤ t.total_bytes)

  pub record IsBounded (t : IncomingTransfer fs sha) : Type 0 where
    pub total : t.total_bytes ≤ max_transfer_bytes
    pub bytes : t.bytes ≤ t.total_bytes
    pub entries : t.entries ≤ max_transfer_files
    pub started : t.files_started ≤ t.entries
    pub active : FitsActive t t.active_file
    pub committed : length t.committed_targets ≡ t.files

  pub fresh-IsBounded :
      (id key : Text) (p : PathPolicy) (total : ℕ) (hash : Text)
      → total ≤ max_transfer_bytes
      → IsBounded (fresh fs sha id key p total hash)
  unfolding fresh
  fresh-IsBounded id key p total hash h = ground arith

  module _ (s : Session fs sha) (b : IsBounded s.transfer) where
    pub directory-IsBounded :
        (id relative : Text) {u : Unit {0}}
        → (directory fs sha id relative s).0 ≡ ok u
        → IsBounded (directory fs sha id relative s).1.transfer
    unfolding directory
    directory-IsBounded id relative h = ground arith

    pub file_start-IsBounded :
        (id relative : Text) (size : ℕ) {u : Unit {0}}
        → (file_start fs sha id relative size s).0 ≡ ok u
        → IsBounded (file_start fs sha id relative size s).1.transfer
    unfolding file_start
    file_start-IsBounded id relative size h = ground arith

    pub chunk-IsBounded :
        (id : Text) (offset : ℕ) (bytes : Bytes) {u : Unit {0}}
        → (chunk fs sha id offset bytes s).0 ≡ ok u
        → IsBounded (chunk fs sha id offset bytes s).1.transfer
    unfolding chunk
    chunk-IsBounded id offset bytes h = ground arith

    pub file_complete-IsBounded :
        (id : Text) {u : Unit {0}}
        → (file_complete fs sha id s).0 ≡ ok u
        → IsBounded (file_complete fs sha id s).1.transfer
    unfolding file_complete
    file_complete-IsBounded id h = elim (Option-cases s.transfer.active_file) [
      | inl e ↦ ground arith
      | inr (f, e) ↦ ground (arith, length-append {0} s.transfer.committed_targets (f.target ∷ []))
    ]

    pub complete-IsBounded :
        (id : Text) {o : TransferOutcome}
        → (complete fs sha id s).0 ≡ ok o
        → IsBounded (complete fs sha id s).1.transfer
    unfolding complete
    complete-IsBounded id h = ground arith

    -- What a completed transfer reports.
    pub complete-counts :
        (id : Text) {o : TransferOutcome}
        → (complete fs sha id s).0 ≡ ok o
        → (o.bytes ≡ s.transfer.bytes) × (o.files ≡ s.transfer.files)
    unfolding complete
    complete-counts id h = (ground arith, ground arith)
