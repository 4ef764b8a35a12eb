-- ===== src/Examples/World.antt =====
-- A file system in memory, and a checksum in the place of SHA-256.
use agent_send.Base.{
  ℕ, zero, suc, ◌+◌, ◌%◌, Text, text, Bytes, List, [], ◌∷◌, ◌++◌, Bool, true, false, ◌||◌, length,
  Option, none, some, if◌then◌else◌, ◌==◌, Text_eq, any, is_some,
}
use agent_send.Base.Result.{Result, ok, err}
use agent_send.Base.Map.{Map, get, insert, remove}
use agent_send.Core.Paths.{components, render}
use agent_send.Core.Os.{FileSystem, Reading, FileKind, regular, folder, Sha256, IoError, os}

pub record Files : Type 0 where
  pub contents : Map Bytes
  pub dirs : List Text

abbrev pub is_dir_of : Files → Text → Bool
is_dir_of d p = any (λ q. q == p) d.dirs

abbrev pub is_file_of : Files → Text → Bool
is_file_of d p = is_some (get d.contents p)

abbrev pub exists_of : Files → Text → Bool
exists_of d p = is_dir_of d p || is_file_of d p

abbrev pub move : Text → Text → Option Bytes → Files → Result IoError (Unit {0}) × Files
move from to none d = (err (os 2), d)
move from to (some b) d = (ok tt, record d { contents = insert (remove d.contents from) to b })

abbrev pub write_to : Text → Bytes → Option Bytes → Files → Result IoError (Unit {0}) × Files
write_to p b none d = (err (os 2), d)
write_to p b (some old) d = (ok tt, record d { contents = insert d.contents p (old ++ b) })

abbrev normal : Text → Text
normal p = render (components p)

-- The disk holds texts by path. A path is looked up in its normal form.
abbrev pub memory : FileSystem
memory = record {
  Disk = Files;
  Handle = Text;
  canonicalize = λ d p. if exists_of d (normal p) then some (normal p) else none;
  exists = λ d p. exists_of d (normal p);
  is_dir = λ d p. is_dir_of d (normal p);
  is_file = λ d p. is_file_of d (normal p);
  create_dir_all = λ p d. (ok tt, record d { dirs = normal p ∷ d.dirs });
  create_new = λ p d.
      if exists_of d (normal p)
      then (err (os 17), d)
      else (ok (normal p), record d { contents = insert d.contents (normal p) [] });
  write_all = λ h b d. write_to h b (get d.contents h) d;
  sync_all = λ h d. (ok tt, d);
  rename = λ from to d.
      if is_dir_of d (normal to)
      then (err (os 21), d)
      else move (normal from) (normal to) (get d.contents (normal from)) d;
  remove_file = λ p d. (ok tt, record d { contents = remove d.contents (normal p) });
  nanos = λ d. 7;
  process_id = 41;
}

abbrev metadata_of : Option Bytes → Bool → Result IoError (FileKind × ℕ)
metadata_of (some b) dir = ok (regular, length b)
metadata_of none true = ok (folder, 0)
metadata_of none false = err (os 2)

abbrev reads_of : Option Bytes → Result IoError (List (Result IoError Bytes))
reads_of none = err (os 2)
reads_of (some []) = ok []
reads_of (some (b ∷ bs)) = ok (ok (b ∷ bs) ∷ [])

-- A file is read in one piece, and a folder that is read shows one entry.
abbrev pub reading : Reading memory
reading = record {
  metadata = λ d p. metadata_of (get d.contents (normal p)) (is_dir_of d (normal p));
  read_dir = λ d p. ok (text "note.txt" ∷ []);
  reads = λ d p. reads_of (get d.contents (normal p));
}

abbrev sum : Bytes → ℕ
sum [] = 0
sum (x ∷ xs) = x + sum xs

abbrev times : ℕ → ℕ → Bytes
times zero b = []
times (suc n) b = b ∷ times n b

abbrev pub checksum : Sha256
checksum = record {
  State = Bytes;
  new = [];
  update = λ s b. s ++ b;
  finalize = λ s. times 32 (sum s % 256);
}

abbrev pub disk : Files
disk = record {
  contents = (text "/in/note.txt", text "hi") ∷ [];
  dirs = text "/in" ∷ text "/out" ∷ [];
}
