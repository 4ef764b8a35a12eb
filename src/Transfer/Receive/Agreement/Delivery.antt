-- ===== src/Transfer/Receive/Agreement/Delivery.antt =====
-- A transfer from the sender's stream to the receiver's reply.
use agent_send.Base.{
  ℕ, Text, List, [], ◌∷◌, ◌++◌, Bool, true, false, not, ◌≡◌, ◌⊎◌, refl, ap, ◌∙◌, arith, All, inl,
  inr, Bool-cases,
}
use agent_send.Base.Result.{ok, map_err, ◌>>=◌, >>=-eq-ok}
use agent_send.Base.Exec.{Exec}
use agent_send.Core.Os.{FileSystem, Reading, Sha256}
use agent_send.Hex.{hex}
use agent_send.Peer.Message.{PeerMessage, transfer_ready, transfer_rejected}
use agent_send.Transfer.Types.{
  FileItem, TransferError, TransferOutcome, TransferEngine, IncomingTransfer, io,
}
use agent_send.Transfer.Engine.{begin_incoming, ready, fresh}
use agent_send.Transfer.Outbound.{PreparedTransfer, manifest}
use agent_send.Transfer.Collect.{blocks, update_all, hash_from, hash_items}
use agent_send.Transfer.Stream.{stream}
use agent_send.Transfer.Stream.Script.{contents, script, items_bytes, items_files}
use agent_send.Transfer.Stream.Sends.{stream-IsStreamed}
use agent_send.Transfer.Incoming.{Session}
use agent_send.Transfer.Receive.{
  Ending, finished, rejected, cancelled, closed, result_message, closing, replies, start_transfer,
  run_transfer, receive_socket_transfer,
}
use agent_send.Transfer.Receive.Agreement.{Agrees, IsAt, item_hash, items_hash, script_run}

module _ (fs : FileSystem) (disk : Reading fs) (d : fs.Disk) (sha : Sha256) where
  -- A collected entry is a file or a directory.
  abbrev pub HasKind : FileItem → Type 0
  HasKind item = fs.is_file d item.source ≡ not (fs.is_dir d item.source)

  hash_from-items_hash :
      (h : sha.State) (items : List FileItem) {k : sha.State}
      → All HasKind items
      → hash_from fs disk d sha h items ≡ ok k
      → k ≡ items_hash fs disk d sha h items
  unfolding hash_from items_hash item_hash contents
  hash_from-items_hash h [] ks e = ground arith
  hash_from-items_hash h (item ∷ rest) ks e = elim (Bool-cases (fs.is_dir d item.source)) [
    | inl dir ↦
        let file : fs.is_file d item.source ≡ false = ground (arith, dir, ks.0) in
        rw dir (hash_from-items_hash h rest ks.1 (rw file at e))
    | inr other ↦
        let file : fs.is_file d item.source ≡ true = ground (arith, other, ks.0) in
        let (parts, found, more) =
          >>=-eq-ok (map_err io (disk.reads d item.source >>= blocks)) _ (rw file at e) in
        let held : (disk.reads d item.source >>= blocks) ≡ ok parts = ground (arith, found) in
        rw other (rw held (hash_from-items_hash (update_all sha h parts) rest ks.1 more))
  ]

  hash_items-items_hash :
      (items : List FileItem) {hash : Text}
      → All HasKind items
      → hash_items fs disk d sha items ≡ ok hash
      → hash ≡ hex (sha.finalize (items_hash fs disk d sha sha.new items))
  unfolding hash_items
  hash_items-items_hash items ks e =
      let (h, found, last) = >>=-eq-ok (hash_from fs disk d sha sha.new items) _ e in
      let same = hash_from-items_hash sha.new items ks found in
      ground (arith, last, ap (λ k. hex (sha.finalize k)) same)

module _ (there : FileSystem) (sha : Sha256) where
  ready-IsAt :
      (d : there.Disk) (e : TransferEngine) (id folder key hash : Text) (total : ℕ)
      {t : IncomingTransfer there sha} (o : TransferOutcome) (s : Session there sha)
      → begin_incoming there sha d e id folder key total hash ≡ ok (ready t)
      → s.transfer ≡ t
      → IsAt there sha o 0 0 sha.new s
  unfolding begin_incoming fresh
  ready-IsAt d e id folder key hash total o s h same = record {
    bytes_now = ground (arith, h, same);
    files_now = ground (arith, h, same);
    hash_now = ground (arith, h, same);
  }

  -- What the receiver replies to a transfer that it has started.
  abbrev pub RepliesWith : Text → TransferOutcome → List PeerMessage → Type 0
  RepliesWith id o sent =
      (sent ≡ transfer_ready id ∷ result_message id o ∷ [])
      ⊎ (sent ≡ transfer_ready id ∷ transfer_rejected id ∷ [])

  replies-RepliesWith :
      (id : Text) (o : TransferOutcome) (e : Ending)
      → Agrees there sha o e
      → RepliesWith id o (transfer_ready id ∷ replies there sha id e)
  replies-RepliesWith id o (finished o') a =
      inl (ap (λ x. transfer_ready id ∷ result_message id x ∷ []) a)
  replies-RepliesWith id o rejected a = inr refl
  replies-RepliesWith id o cancelled a = absurd a
  replies-RepliesWith id o closed a = absurd a

module _ {C E : Type 0} (send : PeerMessage → Exec C E Unit) (from : TransferError → E)
    (is_cancelled : ℕ → Bool) (log : C → List PeerMessage)
    (logs : (m : PeerMessage) (c : C) → (send m c).0 ≡ ok tt → log (send m c).1 ≡ log c ++ (m ∷ []))
    (fs : FileSystem) (disk : Reading fs) (d : fs.Disk) (sha : Sha256) (p : PreparedTransfer) where
  -- Let a stream that starts with an empty log succeed, on a disk on which the entries still hash to
  -- the prepared value and on which each is a file or a directory. Where the receiver starts a
  -- transfer for the manifest, its replies to the messages of the log are `transfer_ready` and then
  -- either a rejection or exactly the sender's own outcome: never another count or hash, and never
  -- silence.
  pub stream-receive_socket_transfer :
      (there : FileSystem) (d' : there.Disk) (e : TransferEngine) (c : C) (o : TransferOutcome)
      {t : IncomingTransfer there sha}
      → log c ≡ []
      → (stream send from is_cancelled p fs disk d c).0 ≡ ok o
      → hash_items fs disk d sha p.items ≡ ok p.sha256
      → All (HasKind fs disk d sha) p.items
      → begin_incoming there sha d' e p.transfer_id p.destination_folder_id p.idempotency_key
          p.total_bytes p.sha256
        ≡ ok (ready t)
      → RepliesWith there sha p.transfer_id o
          (receive_socket_transfer there sha d' e true
            (manifest p ∷ log (stream send from is_cancelled p fs disk d c).1.connection)).sent
  unfolding receive_socket_transfer start_transfer run_transfer closing manifest
  stream-receive_socket_transfer there d' e c o {t} empty streamed hashed kinds begins =
      let done = stream-IsStreamed send from is_cancelled log logs p fs disk d c streamed in
      let ms : log (stream send from is_cancelled p fs disk d c).1.connection ≡ script fs disk d p =
        done.sent ∙ ap (λ l. l ++ script fs disk d p) empty in
      let s : Session there sha = record { transfer = t; disk = d'; done = e.completed } in
      let same : o ≡ record {
        bytes = items_bytes fs disk d 0 p.items;
        files = items_files fs disk d 0 p.items;
        sha256 = hex (sha.finalize (items_hash fs disk d sha sha.new p.items));
      } =
        ground (
          arith,
          done.bytes,
          done.files,
          done.sha256,
          hash_items-items_hash fs disk d sha p.items kinds hashed,
        ) in
      rw begins (
        rw ms (
          replies-RepliesWith there sha p.transfer_id o _ (
            script_run there sha o fs disk d p.transfer_id p s
              (ready-IsAt there sha d' e p.transfer_id p.destination_folder_id p.idempotency_key
                p.sha256 p.total_bytes o s begins refl)
              same refl)))
