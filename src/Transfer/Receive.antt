-- ===== src/Transfer/Receive.antt =====
-- `receive_socket_transfer` and `result_message` of crates/agent-send-daemon/src/peer_transport.rs:
-- one incoming transfer, from the manifest to the reply.
pub mod Ledger
pub mod Retry
pub mod Endings
pub mod Rollback
pub mod Limits
pub mod Agreement
use agent_send.Base.{
  ℕ, Text, text, List, [], ◌∷◌, ◌++◌, Bool, true, false, Option, none, some, if◌then◌else◌,
}
use agent_send.Base.Result.{Result, ok, err}
use agent_send.Base.Exec.{Exec, raise, pure, ◌>>=◌, ◌>>◌}
use agent_send.Base.Map.{Map}
use agent_send.Core.Os.{FileSystem, Sha256}
use agent_send.Peer.Message.{
  PeerMessage, hello, transfer_manifest, transfer_ready, directory, file_start, file_chunk,
  file_complete, transfer_complete, transfer_result, transfer_rejected, cancel,
}
use agent_send.Transfer.Types.{
  TransferEngine, TransferOutcome, TransferError, protocol, IncomingTransfer,
}
use agent_send.Transfer.Engine.{IncomingStart, ready, completed, begin_incoming}
use agent_send.Transfer.Incoming
use agent_send.Transfer.Incoming.{Session, Step, drop}

-- `result_message`
unfoldable pub result_message : Text → TransferOutcome → PeerMessage
result_message transfer_id o = transfer_result transfer_id o.bytes o.files o.sha256

-- How the loop over the messages ends.
pub data Ending : Type 0 where
  finished : TransferOutcome → Ending
  rejected cancelled closed : Ending

module _ (fs : FileSystem) (sha : Sha256) where
  abbrev no_outcome : Step fs sha Unit → Step fs sha (Option TransferOutcome)
  no_outcome m = do m; pure none

  -- The `match message` of the loop
  unfoldable pub handle : PeerMessage → Step fs sha (Option TransferOutcome)
  handle (directory transfer_id relative_path) =
      no_outcome (Incoming.directory fs sha transfer_id relative_path)
  handle (file_start transfer_id relative_path size) =
      no_outcome (Incoming.file_start fs sha transfer_id relative_path size)
  handle (file_chunk transfer_id offset bytes) =
      no_outcome (Incoming.chunk fs sha transfer_id offset bytes)
  handle (file_complete transfer_id) = no_outcome (Incoming.file_complete fs sha transfer_id)
  handle (transfer_complete transfer_id) = do
    outcome ← Incoming.complete fs sha transfer_id
    pure (some outcome)
  handle _ = raise (protocol (text "unexpected peer transfer message"))

  is_cancel : PeerMessage → Bool
  is_cancel (cancel transfer_id) = true
  is_cancel _ = false

  abbrev after :
      Result TransferError (Option TransferOutcome)
      → Session fs sha
      → Ending × Session fs sha
      → Ending × Session fs sha
  after (ok none) s rest = rest
  after (ok (some o)) s rest = (finished o, s)
  after (err e) s rest = (rejected, s)

  -- The loop: `messages` are those that `connection.receive` returns before it returns nothing or
  -- fails.
  unfoldable pub receive_loop : List PeerMessage → Session fs sha → Ending × Session fs sha
  unfolding is_cancel
  receive_loop [] s = (closed, s)
  receive_loop (m ∷ rest) s =
      let (r, s') = handle m s in
      let next = receive_loop rest s' in if is_cancel m then (cancelled, s) else after r s' next

  abbrev pub replies : Text → Ending → List PeerMessage
  replies transfer_id (finished o) = result_message transfer_id o ∷ []
  replies transfer_id rejected = transfer_rejected transfer_id ∷ []
  replies transfer_id cancelled = []
  replies transfer_id closed = []

  -- What the receiver has sent, and the engine and the disk that it leaves.
  pub record Received : Type 0 where
    pub sent : List PeerMessage
    pub engine : TransferEngine
    pub disk : fs.Disk

  closing : TransferEngine → Text → Ending → Session fs sha → Received
  closing e transfer_id ending s = record {
    sent = transfer_ready transfer_id ∷ replies transfer_id ending;
    engine = record e { completed = s.done };
    disk = drop fs sha s.transfer s.disk;
  }

  run_transfer :
      fs.Disk → TransferEngine → Text → IncomingTransfer fs sha → List PeerMessage → Received
  unfolding closing
  run_transfer d e transfer_id t messages =
      let (ending, s) =
        receive_loop messages (record { transfer = t; disk = d; done = e.completed }) in
      closing e transfer_id ending s

  start_transfer :
      fs.Disk
      → TransferEngine
      → Text
      → Result TransferError (IncomingStart fs sha)
      → (ready_sent : Bool) → List PeerMessage
      → Received
  unfolding run_transfer
  start_transfer d e transfer_id (ok (ready t)) true messages =
      run_transfer d e transfer_id t messages
  start_transfer d e transfer_id (ok (ready t)) false messages = record {
    sent = [];
    engine = e;
    disk = drop fs sha t d;
  }
  start_transfer d e transfer_id (ok (completed o)) _ messages = record {
    sent = result_message transfer_id o ∷ [];
    engine = e;
    disk = d;
  }
  start_transfer d e transfer_id (err x) _ messages = record {
    sent = transfer_rejected transfer_id ∷ [];
    engine = e;
    disk = d;
  }

  -- `receive_socket_transfer`: `ready_sent` says whether the `TransferReady` reply could be sent
  unfoldable pub receive_socket_transfer :
      fs.Disk → TransferEngine → (ready_sent : Bool) → List PeerMessage → Received
  unfolding start_transfer
  receive_socket_transfer d e ready_sent
        (transfer_manifest transfer_id destination_folder_id idempotency_key total_bytes sha256
          ∷ messages) =
      start_transfer d e transfer_id
        (begin_incoming fs sha d e transfer_id destination_folder_id idempotency_key total_bytes
          sha256)
        ready_sent messages
  receive_socket_transfer d e ready_sent _ = record { sent = []; engine = e; disk = d }
