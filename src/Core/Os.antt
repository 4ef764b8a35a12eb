-- ===== src/Core/Os.antt =====
-- The operating system's file system, which the source reaches through `std::fs`. Each call may
-- fail for reasons of its own, so the operations are a parameter of the model: a call takes the
-- disk as it is and gives its result and the disk afterwards.
use agent_send.Base.{Text, Bytes, Bool, List, Option, ℕ}
use agent_send.Base.Result.{Result}
use agent_send.Base.Exec.{Exec}

-- `io::Error`: the system's code, or a kind that the source names
pub data IoError : Type 0 where
  os : (code : ℕ) → IoError
  not_found invalid_data invalid_input unexpected_eof : IoError

pub record FileSystem : Type 1 where
  pub Disk : Type 0
  -- an open file
  pub Handle : Type 0
  -- `fs::canonicalize`: every link followed; `none` where the path leads nowhere
  pub canonicalize : Disk → Text → Option Text
  -- `Path::exists`, `Path::is_dir`, `Path::is_file`
  pub exists : Disk → Text → Bool
  pub is_dir : Disk → Text → Bool
  pub is_file : Disk → Text → Bool
  -- `fs::create_dir_all`
  pub create_dir_all : Text → Exec Disk IoError Unit
  -- `OpenOptions::new().write(true).create_new(true).open(path)`
  pub create_new : Text → Exec Disk IoError Handle
  -- `write_all` and `sync_all` of an open file
  pub write_all : Handle → Bytes → Exec Disk IoError Unit
  pub sync_all : Handle → Exec Disk IoError Unit
  -- `fs::rename` and `fs::remove_file`
  pub rename : (from to : Text) → Exec Disk IoError Unit
  pub remove_file : Text → Exec Disk IoError Unit
  -- the nanoseconds since the epoch that the clock shows, and the process identifier
  pub nanos : Disk → ℕ
  pub process_id : ℕ

-- `Metadata::is_file` and `Metadata::is_dir`, which exclude each other
pub data FileKind : Type 0 where
  regular folder special : FileKind

-- What the sender reads of a disk. None of it changes the disk.
pub record Reading (fs : FileSystem) : Type 0 where
  -- `fs::metadata`: the kind and the length
  pub metadata : fs.Disk → Text → Result IoError (FileKind × ℕ)
  -- `fs::read_dir`: the names of the entries
  pub read_dir : fs.Disk → Text → Result IoError (List Text)
  -- `File::open`, and the results of the calls of `read` on the file, one after the other, up to the
  -- call that gives no byte
  pub reads : fs.Disk → Text → Result IoError (List (Result IoError Bytes))

-- `Sha256` of the sha2 crate
pub record Sha256 : Type 1 where
  pub State : Type 0
  pub new : State
  pub update : State → Bytes → State
  pub finalize : State → Bytes
