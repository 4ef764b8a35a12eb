-- ===== src/Transfer/Receive/Agreement.antt =====
-- The receiver of a script reports what the sender counted.
pub mod Delivery
use mathlib.Core.List.{append_assoc}
use agent_send.Base.{
  ℕ, Text, Bytes, List, [], ◌∷◌, ◌++◌, Bool, true, false, Option, none, some, ◌≡◌, ◌⊎◌, refl, sym,
  subst, ap, ◌∙◌, arith, length, All, inl, inr, Bool-cases, if◌then◌else◌,
}
use agent_send.Base.Result.{Result, ok, err, Result-cases}
use agent_send.Base.Exec.{Exec}
use agent_send.Core.Os.{FileSystem, Reading, Sha256}
use agent_send.Hex.{hex}
use agent_send.Peer.Message.{
  PeerMessage, directory, file_start, file_chunk, file_complete, transfer_complete,
}
use agent_send.Transfer.Types.{FileItem, TransferError, TransferOutcome, IncomingFile, add64}
use agent_send.Transfer.Outbound.{PreparedTransfer}
use agent_send.Transfer.Collect.{update_all}
use agent_send.Transfer.Incoming
use agent_send.Transfer.Incoming.{Session, Step}
use agent_send.Transfer.Receive.{
  Ending, finished, rejected, cancelled, closed, receive_loop, handle, is_cancel, after, no_outcome,
}
use agent_send.Transfer.Stream.Script.{
  chunk_messages, add_lengths, contents, item_messages, item_bytes, item_files, items_bytes,
  items_files, items_messages, script,
}

module _ (fs : FileSystem) (disk : Reading fs) (d : fs.Disk) (sha : Sha256) where
  -- The hash of the contents of entries
  unfoldable pub item_hash : sha.State → FileItem → sha.State
  item_hash h item =
      if fs.is_dir d item.source then h else update_all sha h (contents fs disk d item)

  unfoldable pub items_hash : sha.State → List FileItem → sha.State
  items_hash h [] = h
  items_hash h (item ∷ rest) = items_hash (item_hash h item) rest

module _ (there : FileSystem) (sha : Sha256) (o : TransferOutcome) where
  -- A loop that ends with the outcome `o`, or with a rejection.
  abbrev pub Agrees : Ending → Type 0
  Agrees (finished o') = o' ≡ o
  Agrees rejected = Unit
  Agrees cancelled = ⊥
  Agrees closed = ⊥

  ends_as : {e e' : Ending} → e ≡ e' → Agrees e' → Agrees e
  ends_as same a = subst Agrees (sym same) a

  -- Where the receiver stands between two entries,
  record IsAt (bytes files : ℕ) (hash : sha.State) (s : Session there sha) : Type 0 where
    bytes_now : s.transfer.bytes ≡ bytes
    files_now : s.transfer.files ≡ files
    hash_now : s.transfer.hash ≡ hash

  loop_step :
      (m : PeerMessage) (op : Step there sha Unit) (rest : List PeerMessage) (s : Session there sha)
      → handle there sha m s ≡ no_outcome there sha op s
      → is_cancel there sha m ≡ false
      → ((op s).0 ≡ ok tt → Agrees (receive_loop there sha rest (op s).1).0)
      → Agrees (receive_loop there sha (m ∷ rest) s).0
  unfolding receive_loop
  loop_step m op rest s h go f = elim (Result-cases (op s).0) [
    | inl (u, e) ↦
        let next : (receive_loop there sha (m ∷ rest) s).0
            ≡ (receive_loop there sha rest (op s).1).0 =
          ground (arith, h, go, e) in
        ends_as next (f e)
    | inr (x, e) ↦
        let stopped : (receive_loop there sha (m ∷ rest) s).0 ≡ rejected =
          ground (arith, h, go, e) in
        ends_as stopped tt
  ]

  directory-IsAt :
      (id relative : Text) (s : Session there sha) (b f : ℕ) (h : sha.State)
      → IsAt b f h s
      → (Incoming.directory there sha id relative s).0 ≡ ok tt
      → IsAt b f h (Incoming.directory there sha id relative s).1
  unfolding Incoming.directory
  directory-IsAt id relative s b f h i e = record {
    bytes_now = ground (arith, i.bytes_now);
    files_now = ground (arith, i.files_now);
    hash_now = ground (arith, i.hash_now);
  }

  file_start-IsAt :
      (id relative : Text) (size : ℕ) (s : Session there sha) (b f : ℕ) (h : sha.State)
      → IsAt b f h s
      → (Incoming.file_start there sha id relative size s).0 ≡ ok tt
      → IsAt b f h (Incoming.file_start there sha id relative size s).1
  unfolding Incoming.file_start
  file_start-IsAt id relative size s b f h i e = record {
    bytes_now = ground (arith, i.bytes_now);
    files_now = ground (arith, i.files_now);
    hash_now = ground (arith, i.hash_now);
  }

  chunk-IsAt :
      (id : Text) (offset : ℕ) (bytes : Bytes) (s : Session there sha) (b f : ℕ) (h : sha.State)
      → IsAt b f h s
      → (Incoming.chunk there sha id offset bytes s).0 ≡ ok tt
      → IsAt
          (add64 b (length bytes))
          f
          (sha.update h bytes)
          (Incoming.chunk there sha id offset bytes s).1
  unfolding Incoming.chunk
  chunk-IsAt id offset bytes s b f h i e = record {
    bytes_now = ground (arith, i.bytes_now);
    files_now = ground (arith, i.files_now);
    hash_now = ground (arith, i.hash_now);
  }

  file_complete-IsAt :
      (id : Text) (s : Session there sha) (b f : ℕ) (h : sha.State)
      → IsAt b f h s
      → (Incoming.file_complete there sha id s).0 ≡ ok tt
      → IsAt b (add64 f 1) h (Incoming.file_complete there sha id s).1
  unfolding Incoming.file_complete
  file_complete-IsAt id s b f h i e = record {
    bytes_now = ground (arith, i.bytes_now);
    files_now = ground (arith, i.files_now);
    hash_now = ground (arith, i.hash_now);
  }

  module _ (fs : FileSystem) (disk : Reading fs) (d : fs.Disk) (id : Text) where
    chunks_run :
        (parts : List Bytes) (offset : ℕ) (rest : List PeerMessage) (s : Session there sha)
        (b f : ℕ) (h : sha.State)
        → IsAt b f h s
        → ((t : Session there sha)
            → IsAt (add_lengths b parts) f (update_all sha h parts) t
            → Agrees (receive_loop there sha rest t).0)
        → Agrees (receive_loop there sha (chunk_messages id offset parts ++ rest) s).0
    unfolding chunk_messages add_lengths update_all handle is_cancel
    chunks_run [] offset rest s b f h i k = k s i
    chunks_run (bytes ∷ parts) offset rest s b f h i k =
        loop_step (file_chunk id offset bytes) (Incoming.chunk there sha id offset bytes) _ s refl
          refl
          (λ e.
            chunks_run parts (add64 offset (length bytes)) rest _ (add64 b (length bytes)) f
              (sha.update h bytes) (chunk-IsAt id offset bytes s b f h i e) k)

    item_run :
        (item : FileItem) (rest : List PeerMessage) (s : Session there sha) (b f : ℕ)
        (h : sha.State)
        → IsAt b f h s
        → ((t : Session there sha)
            → IsAt
                (item_bytes fs disk d b item)
                (item_files fs disk d f item)
                (item_hash fs disk d sha h item)
                t
            → Agrees (receive_loop there sha rest t).0)
        → Agrees (receive_loop there sha (item_messages fs disk d id item ++ rest) s).0
    unfolding item_messages item_bytes item_files item_hash handle is_cancel
    item_run item rest s b f h i k = elim (Bool-cases (fs.is_dir d item.source)) [
      | inl dir ↦
          let go = rw dir at k in
          rw dir (
            loop_step (directory id item.relative) (Incoming.directory there sha id item.relative)
              rest s refl refl (λ e. go _ (directory-IsAt id item.relative s b f h i e)))
      | inr file ↦
          let go = rw file at k in
          let parts = contents fs disk d item in
          let close = file_complete id in
          rw file (
            rw (append_assoc (chunk_messages id 0 parts) (close ∷ []) rest) (
              loop_step (file_start id item.relative item.size)
                (Incoming.file_start there sha id item.relative item.size) _ s refl refl
                (λ e.
                  chunks_run parts 0 (close ∷ rest) _ b f h
                    (file_start-IsAt id item.relative item.size s b f h i e)
                    (λ t at.
                      loop_step close (Incoming.file_complete there sha id) rest t refl refl
                        (λ e'. go _ (file_complete-IsAt id t _ f _ at e'))))))
    ]

    items_run :
        (items : List FileItem) (rest : List PeerMessage) (s : Session there sha) (b f : ℕ)
        (h : sha.State)
        → IsAt b f h s
        → ((t : Session there sha)
            → IsAt
                (items_bytes fs disk d b items)
                (items_files fs disk d f items)
                (items_hash fs disk d sha h items)
                t
            → Agrees (receive_loop there sha rest t).0)
        → Agrees (receive_loop there sha (items_messages fs disk d id items ++ rest) s).0
    unfolding items_messages items_bytes items_files items_hash
    items_run [] rest s b f h i k = k s i
    items_run (item ∷ items) rest s b f h i k =
        rw (append_assoc (item_messages fs disk d id item) (items_messages fs disk d id items) rest)
          (item_run item (items_messages fs disk d id items ++ rest) s b f h i
            (λ t at. items_run items rest t _ _ _ at k))

    abbrev counted : Session there sha → TransferOutcome
    counted s = record {
      bytes = s.transfer.bytes;
      files = s.transfer.files;
      sha256 = hex (sha.finalize s.transfer.hash);
    }

    completed_as :
        (s : Session there sha) (o' : TransferOutcome)
        → (Incoming.complete there sha id s).0 ≡ ok o'
        → o' ≡ counted s
    unfolding Incoming.complete
    completed_as s o' e = ground arith

    reported :
        {s : Session there sha} {b f : ℕ} {h : sha.State}
        → IsAt b f h s
        → counted s ≡ record { bytes = b; files = f; sha256 = hex (sha.finalize h) }
    reported i = ground (arith, i.bytes_now, i.files_now, i.hash_now)

    end_run :
        (s : Session there sha) (b f : ℕ) (h : sha.State)
        → IsAt b f h s
        → o ≡ record { bytes = b; files = f; sha256 = hex (sha.finalize h) }
        → Agrees (receive_loop there sha (transfer_complete id ∷ []) s).0
    unfolding receive_loop handle is_cancel Incoming.complete
    end_run s b f h i same = elim (Result-cases (Incoming.complete there sha id s).0) [
      | inl (o', e) ↦
          let done : (receive_loop there sha (transfer_complete id ∷ []) s).0 ≡ finished o' =
            ground (arith, e) in
          ends_as done (completed_as s o' e ∙ reported i ∙ sym same)
      | inr (x, e) ↦
          let stopped : (receive_loop there sha (transfer_complete id ∷ []) s).0 ≡ rejected =
            ground (arith, e) in
          ends_as stopped tt
    ]

    script_run :
        (p : PreparedTransfer) (s : Session there sha)
        → IsAt 0 0 sha.new s
        → o ≡ record {
          bytes = items_bytes fs disk d 0 p.items;
          files = items_files fs disk d 0 p.items;
          sha256 = hex (sha.finalize (items_hash fs disk d sha sha.new p.items));
        }
        → id ≡ p.transfer_id
        → Agrees (receive_loop there sha (script fs disk d p) s).0
    unfolding script
    script_run p s i same mine =
        subst
          (λ x.
            Agrees
              (receive_loop there sha
                (items_messages fs disk d x p.items ++ (transfer_complete x ∷ [])) s).0)
          mine
          (items_run p.items (transfer_complete id ∷ []) s 0 0 sha.new i
            (λ t at. end_run t _ _ _ at same))
