-- ===== src/Transfer/Receive/Retry.antt =====
-- A transfer that is sent again under its idempotency key.
use agent_send.Base.{ℕ, Text, List, [], ◌∷◌, Bool, some, ◌≡◌, ap, ◌∙◌, arith, text_eq_refl}
use agent_send.Base.Result.{ok}
use agent_send.Base.Map.{get, get-insert}
use agent_send.Core.Os.{FileSystem, Sha256}
use agent_send.Peer.Message.{PeerMessage}
use agent_send.Transfer.Types.{TransferEngine, TransferOutcome}
use agent_send.Transfer.Engine.{begin_incoming, completed}
use agent_send.Transfer.Receive.{Received, receive_socket_transfer, start_transfer, result_message}
use agent_send.Transfer.Receive.Ledger.{opened_by, IsRecorded}

module _ (fs : FileSystem) (sha : Sha256) where
  get-recorded :
      (d : fs.Disk) (e : TransferEngine) (id folder_id key hash : Text) (total : ℕ)
      (r : Received fs sha) (o : TransferOutcome)
      → IsRecorded fs sha d e id folder_id key hash total r o
      → get r.engine.completed key ≡ some o
  get-recorded d e id folder_id key hash total r o rec =
      ap (λ (x : TransferEngine). get x.completed key) rec.engine
      ∙ get-insert e.completed key key o
      ∙ ground (arith, text_eq_refl key)

  begun_again :
      (d : fs.Disk) (e : TransferEngine) (id folder_id key hash : Text) (total : ℕ)
      (o : TransferOutcome)
      → get e.completed key ≡ some o
      → begin_incoming fs sha d e id folder_id key total hash ≡ ok (completed o)
  unfolding begin_incoming
  begun_again d e id folder_id key hash total o h = rw (h, begin_incoming)

  answered :
      (d : fs.Disk) (e : TransferEngine) (id folder_id key hash : Text) (total : ℕ) (b : Bool)
      (ms : List PeerMessage) (o : TransferOutcome)
      → get e.completed key ≡ some o
      → receive_socket_transfer fs sha d e b (opened_by id folder_id key hash total ms)
        ≡ record { sent = result_message id o ∷ []; engine = e; disk = d }
  unfolding receive_socket_transfer
  answered d e id folder_id key hash total b ms o h =
      ap (λ start. start_transfer fs sha d e id start b ms)
        (begun_again d e id folder_id key hash total o h)

  module _ (d d' : fs.Disk) (e : TransferEngine) (key : Text) where
    -- A connection that records an outcome settles its idempotency key: any later manifest under
    -- that key, whatever else it declares, is answered at once with the recorded outcome, and
    -- neither the engine nor the disk changes.
    pub receive-again :
        (id folder_id hash id' folder_id' hash' : Text) (total total' : ℕ) (b : Bool)
        (ms : List PeerMessage) (r : Received fs sha) (o : TransferOutcome)
        → IsRecorded fs sha d e id folder_id key hash total r o
        → receive_socket_transfer fs sha d' r.engine b
            (opened_by id' folder_id' key hash' total' ms)
          ≡ record { sent = result_message id' o ∷ []; engine = r.engine; disk = d' }
    receive-again id folder_id hash id' folder_id' hash' total total' b ms r o recorded =
        answered d' r.engine id' folder_id' key hash' total' b ms o
          (get-recorded d e id folder_id key hash total r o recorded)
