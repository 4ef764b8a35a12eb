-- ===== src/Transfer/Stream.antt =====
-- `PreparedTransfer::stream` of crates/agent-send-daemon/src/transfer.rs: the messages of an outgoing
-- transfer, sent one after the other through the closure `send`.
pub mod Script
pub mod Sends
use agent_send.Base.{
  ℕ, suc, Text, Bytes, List, [], ◌∷◌, ◌++◌, Bool, if◌then◌else◌, is_empty, length,
}
use agent_send.Base.Result.{Result, ok, err, map_err}
use agent_send.Base.Exec.{Exec, pure, raise, lift, ◌>>=◌, ◌>>◌}
use agent_send.Core.Os.{FileSystem, Reading, IoError}
use agent_send.Peer.Message.{
  PeerMessage, directory, file_start, file_chunk, file_complete, transfer_complete, cancel,
}
use agent_send.Transfer.Types.{
  FileItem, TransferError, io, cancelled, TransferOutcome, TransferProgress, add64,
}
use agent_send.Transfer.Outbound.{PreparedTransfer}

-- What `stream` changes: what `send` writes to, how often the token has been looked at, the two
-- counters, and the reports of progress.
pub record Streaming (C : Type 0) : Type 0 where
  pub connection : C
  pub polls : ℕ
  pub bytes : ℕ
  pub files : ℕ
  pub progress : List TransferProgress

-- `is_cancelled n` is what the `n`-th look at the token finds: another thread sets it.
module _ {C E : Type 0} (send : PeerMessage → Exec C E Unit) (from : TransferError → E)
    (is_cancelled : ℕ → Bool) where
  abbrev pub Sender : Type 0 → Type 0
  Sender = Exec (Streaming C) E

  unfoldable pub transmit : PeerMessage → Sender Unit
  transmit m s = let (r, c) = send m s.connection in (r, record s { connection = c })

  poll : Sender Bool
  poll s = (ok (is_cancelled s.polls), record s { polls = suc s.polls })

  -- `let _ = send(PeerMessage::Cancel { .. })`
  send_cancel : Text → Sender Unit
  unfolding transmit
  send_cancel transfer_id s = (ok tt, (transmit (cancel transfer_id) s).1)

  -- The two tests of the token
  unfoldable pub stop_if_cancelled : Text → Sender Unit
  unfolding poll send_cancel
  stop_if_cancelled transfer_id = do
    stop ← poll
    if stop then (do send_cancel transfer_id; raise (from cancelled)) else pure tt

  count_chunk : ℕ → ℕ → Sender Unit
  count_chunk total_bytes count s =
      let bytes = add64 s.bytes count in
      (
        ok tt,
        record s {
          bytes = bytes;
          progress = s.progress ++ (record { bytes = bytes; total_bytes = total_bytes } ∷ []);
        },
      )

  count_file : Sender Unit
  count_file s = (ok tt, record s { files = add64 s.files 1 })

  module _ (p : PreparedTransfer) where
    -- The inner loop, over the results of `read`
    unfoldable pub send_chunks : List (Result IoError Bytes) → (offset : ℕ) → Sender Unit
    unfolding stop_if_cancelled transmit count_chunk
    send_chunks [] offset = stop_if_cancelled p.transfer_id
    send_chunks (err e ∷ rest) offset = do stop_if_cancelled p.transfer_id; raise (from (io e))
    send_chunks (ok bytes ∷ rest) offset = do
      stop_if_cancelled p.transfer_id
      if is_empty bytes then pure tt else (do
        transmit (file_chunk p.transfer_id offset bytes)
        count_chunk p.total_bytes (length bytes)
        send_chunks rest (add64 offset (length bytes)))

    -- What is sent of an open file
    send_input : List (Result IoError Bytes) → Sender Unit
    unfolding send_chunks count_file
    send_input input = do send_chunks input 0; transmit (file_complete p.transfer_id); count_file

    module _ (fs : FileSystem) (disk : Reading fs) (d : fs.Disk) where
      send_file : FileItem → Sender Unit
      unfolding send_input
      send_file item = do
        transmit (file_start p.transfer_id item.relative item.size)
        input ← lift (map_err (λ e. from (io e)) (disk.reads d item.source))
        send_input input

      -- The outer loop
      unfoldable pub send_items : List FileItem → Sender Unit
      unfolding send_file
      send_items [] = pure tt
      send_items (item ∷ rest) = do
        stop_if_cancelled p.transfer_id
        if fs.is_dir d item.source
            then transmit (directory p.transfer_id item.relative)
            else send_file item
        send_items rest

      finish : Sender TransferOutcome
      finish s = (ok (record { bytes = s.bytes; files = s.files; sha256 = p.sha256 }), s)

      -- `PreparedTransfer::stream`
      unfoldable pub stream : C → Result E TransferOutcome × Streaming C
      unfolding send_items finish
      stream c =
          (do send_items p.items; transmit (transfer_complete p.transfer_id); finish)
            (record { connection = c; polls = 0; bytes = 0; files = 0; progress = [] })
