-- ===== src/Transfer/Types.antt =====
-- The data of crates/agent-send-daemon/src/transfer.rs.
use agent_send.Base.{
  ℕ, ◌+◌, ◌%◌, Text, text, List, [], ◌∷◌, ◌++◌, Bool, Option, ◌==◌, ℕ_eq, is_empty, if◌then◌else◌,
  ◌≡◌, refl,
}
use mathlib.Core.List.{reverse}
use agent_send.Base.Map.{Map}
use agent_send.Base.Decimal.{decimal}
use agent_send.Limits.{u64_mod}
use agent_send.Core.Os.{FileSystem, IoError, Sha256}
use agent_send.Core.Request.{PolicyError}
use agent_send.Core.Policy.{PathPolicy, PathPolicyError}
use agent_send.Core.Paths.{Component, normal, components, render}

pub record TransferProgress : Type 0 where
  pub bytes : ℕ
  pub total_bytes : ℕ

pub record TransferOutcome : Type 0 where
  pub bytes : ℕ
  pub files : ℕ
  pub sha256 : Text

pub data TransferError : Type 0 where
  request : PolicyError → TransferError
  folder_not_found : Text → TransferError
  policy : PathPolicyError → TransferError
  io : IoError → TransferError
  cancelled : TransferError
  destination_exists : Text → TransferError
  protocol : Text → TransferError
  size_mismatch size_limit_exceeded file_count_limit_exceeded hash_mismatch : TransferError

pub record FileItem : Type 0 where
  pub source : Text
  pub relative : Text
  pub size : ℕ

-- `u64` addition: a release build wraps around.
abbrev pub add64 : ℕ → ℕ → ℕ
add64 a b = (a + b) % u64_mod

-- The part of a file name before its last dot, and the whole of a name with no dot or with none but
-- its first character: `Path::file_stem`.
abbrev stem_from : List ℕ → Text → Text
stem_from [] name = name
stem_from (c ∷ rest) name =
    let more = stem_from rest name in
    if c == b'.' then (if is_empty rest then name else reverse rest) else more

unfoldable pub file_stem : Text → Text
file_stem name = stem_from (reverse name) name

abbrev extended : List Component → Text → Text → Text
extended (normal name ∷ above) path extension =
    render (reverse (normal (file_stem name ++ (b'.' ∷ extension)) ∷ above))
extended _ path extension = path

-- `Path::with_extension`, in normal form
unfoldable pub with_extension : Text → Text → Text
unfolding file_stem
with_extension path extension = extended (reverse (components path)) path extension

module _ (fs : FileSystem) where
  -- `temp_path`
  unfoldable pub temp_path : fs.Disk → Text → Text
  unfolding with_extension
  temp_path d target = with_extension target (
      text "agent-send-"
      ++ (decimal (fs.nanos d) ++ (text "-" ++ (decimal fs.process_id ++ text ".part"))))

  pub record IncomingFile : Type 0 where
    pub target : Text
    pub temp : Text
    pub file : fs.Handle
    pub expected_size : ℕ
    pub offset : ℕ

  -- `engine` is shared by all transfers: its map of completed transfers stands in `Session`.
  pub record IncomingTransfer (sha : Sha256) : Type 0 where
    pub transfer_id : Text
    pub idempotency_key : Text
    pub destination : PathPolicy
    pub total_bytes : ℕ
    pub expected_hash : Text
    pub bytes : ℕ
    pub files : ℕ
    pub hash : sha.State
    pub active_file : Option IncomingFile
    pub files_started : ℕ
    pub entries : ℕ
    pub targets : List Text
    pub committed_targets : List Text
    pub completed : Bool

-- `TransferEngine`
pub record TransferEngine : Type 0 where
  pub folders : Map PathPolicy
  pub completed : Map TransferOutcome

with_extension_test : with_extension (text "/in/a.tar.gz") (text "part") ≡ text "/in/a.tar.part"
unfolding with_extension file_stem components render
with_extension_test = refl

decimal_test : decimal 1024 ≡ text "1024"
unfolding decimal
decimal_test = refl
