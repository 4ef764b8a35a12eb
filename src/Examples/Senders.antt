-- ===== src/Examples/Senders.antt =====
-- Outgoing transfers.
use agent_send.Base.{
  ℕ, Text, text, List, [], ◌∷◌, ◌++◌, Bool, true, false, subst, Bytes, none, ◌≡◌, ◌≢◌, ◌≤◌, refl,
  arith, text_eq, is_blank, length, length-append, ltb, if◌then◌else◌, All,
}
use agent_send.Base.Result.{ok}
use agent_send.Base.Exec.{Exec}
use agent_send.Base.Map.{get}
use agent_send.Hex.{hex}
use agent_send.Core.Os.{FileSystem, Reading}
use agent_send.Core.Request.{FolderDirection, TransferRequest}
use agent_send.Core.Policy.{
  PathPolicy, resolve, nearest_existing, ensure_beneath, validate_relative, check_direction,
}
use agent_send.Core.Paths.{components, join, render, starts_with}
use agent_send.Peer.Message.{PeerMessage}
use agent_send.Transfer.Types.{TransferError, TransferEngine, TransferOutcome}
use agent_send.Transfer.Engine.{IncomingStart, fresh, begin_incoming}
use agent_send.Transfer.Outbound.{PreparedTransfer, manifest}
use agent_send.Transfer.Collect.{hash_items, prepare_outbound}
use agent_send.Core.Policy.Confinement.{resolve-IsReadable}
use agent_send.Transfer.Collect.Fuel.{Ends, IsLimited, prepare_outbound-Ends}
use agent_send.Transfer.Loopback.{Copying, receive}
use agent_send.Transfer.Loopback.Ledger.{Recorded, receive-Recorded}
use agent_send.Peer.Message.{validate}
use agent_send.Peer.Frame.{to_be_bytes, key_info, nonce, associated_data}
use agent_send.Peer.Channel.{seal, open_frame, derive_key}
use agent_send.Peer.Socket.{Stream, send}
use agent_send.Peer.Socket
use agent_send.Peer.Connection.{send_message, receive_message}
use agent_send.Transfer.Receive.{result_message}
use agent_send.Transfer.Send.{Exchange, exchange}
use agent_send.Transfer.Send.Confirmed.{IsConfirmed, exchange-iff-IsConfirmed}
use agent_send.Examples.Channels.{desk, phone}
use agent_send.Examples.Wire.{toy}
use agent_send.Examples.Sockets.{duplex, pipe}
use agent_send.Transfer.Stream.{stream}
use agent_send.Transfer.Stream.Sends.{IsStreamed, stream-IsStreamed}
use agent_send.Transfer.Receive.{receive_socket_transfer}
use agent_send.Transfer.Receive.Agreement.Delivery.{
  HasKind, RepliesWith, stream-receive_socket_transfer,
}
use agent_send.Examples.World.{memory, reading, checksum, disk}
use agent_send.Examples.Transfers.{engine, inbox, sum_of_hi}

-- A connection that keeps what is sent.
abbrev keep : PeerMessage → Exec (List PeerMessage) TransferError Unit
keep m sent = (ok tt, sent ++ (m ∷ []))

abbrev pub never : ℕ → Bool
never n = false

abbrev prepared : PreparedTransfer
prepared = record {
  transfer_id = text "k1";
  destination_folder_id = text "inbox";
  idempotency_key = text "k1";
  total_bytes = 2;
  sha256 = sum_of_hi;
  items =
      record { source = text "/in/note.txt"; relative = text "note.txt"; size = 2 }
      ∷ record { source = text "/in"; relative = text "in"; size = 0 }
      ∷ [];
}

abbrev pub outcome : TransferOutcome
outcome = record { bytes = 2; files = 1; sha256 = sum_of_hi }

streamed : (stream keep (λ e. e) never prepared memory reading disk []).0 ≡ ok outcome
unfolding stream get text_eq render components
streamed = refl

stream-IsStreamed_example :
    IsStreamed keep
      (λ e. e)
      never
      (λ l. l)
      (λ m c h. refl)
      prepared
      memory
      reading
      disk
      []
      outcome
      (stream keep (λ e. e) never prepared memory reading disk []).1
stream-IsStreamed_example =
    stream-IsStreamed keep (λ e. e) never (λ l. l) (λ m c h. refl) prepared memory reading disk []
      streamed

hashed : hash_items memory reading disk checksum prepared.items ≡ ok prepared.sha256
unfolding hash_items get text_eq render components hex
hashed = refl

kinds : All (HasKind memory reading disk checksum) prepared.items
unfolding get text_eq render components
kinds = (refl, (refl, tt))

begins :
    begin_incoming memory checksum disk engine (text "k1") (text "inbox") (text "k1") 2 sum_of_hi
    ≡ ok (IncomingStart.ready (fresh memory checksum (text "k1") (text "k1") inbox 2 sum_of_hi))
unfolding begin_incoming fresh resolve text_eq validate_relative components check_direction
    nearest_existing join get render ensure_beneath starts_with
begins = refl

stream-receive_socket_transfer_example :
    RepliesWith memory checksum
      (text "k1")
      outcome
      (receive_socket_transfer memory checksum disk engine true (
        manifest prepared
        ∷ (stream keep (λ e. e) never prepared memory reading disk []).1.connection)).sent
stream-receive_socket_transfer_example =
    stream-receive_socket_transfer keep (λ e. e) never (λ l. l) (λ m c h. refl) memory reading disk
      checksum prepared memory disk engine [] outcome refl streamed hashed kinds begins

-- The files again, on a system that refuses paths of more than 64 bytes.
abbrev strict : FileSystem
strict = record memory {
  canonicalize = λ d p. if ltb 64 (length p) then none else memory.canonicalize d p;
}

abbrev strict_reading : Reading strict
strict_reading = record {
  metadata = reading.metadata;
  read_dir = reading.read_dir;
  reads = reading.reads;
}

join-longer : (base path : Text) → length path ≤ length (join base path)
unfolding join
join-longer base path = ground (arith, length-append base path, length-append base (b'/' ∷ path))

strict-IsLimited : IsLimited strict strict_reading disk 64
strict-IsLimited = record {
  resolves = λ source relative found.
      let readable = resolve-IsReadable strict disk source relative found in
      ground (arith, readable.target, join-longer readable.root relative);
  named = λ path {names} e.
      let same : (text "note.txt" ∷ []) ≡ names = cc e in
      subst (All (λ name. name ≢ [])) same (λ x. cc x, tt);
}

abbrev pub request : TransferRequest
request = record {
  peer_id = text "phone";
  source_folder_id = text "outbox";
  source_paths = text "note.txt" ∷ [];
  destination_folder_id = text "inbox";
  idempotency_key = text "k1";
}

abbrev pub sender : TransferEngine
sender = record {
  folders = (text "outbox", record { root = text "/in"; direction = FolderDirection.read }) ∷ [];
  completed = [];
}

prepare_outbound-Ends_example :
    Ends (prepare_outbound strict strict_reading disk checksum 65 sender request)
prepare_outbound-Ends_example =
    prepare_outbound-Ends strict strict_reading disk checksum 65 64 sender request strict-IsLimited
      (omega arith)

abbrev source : PathPolicy
source = record { root = text "/in"; direction = FolderDirection.read }

abbrev copying : Copying memory reading checksum never
copying = record {
  disk_now = disk;
  done = [];
  polls = 0;
  bytes = 0;
  files = 0;
  hash = [];
  progress = [];
}

receive-Recorded_example :
    Recorded memory reading checksum never
      (text "k1")
      (receive memory reading checksum never 65 engine request source copying).0
      []
      (receive memory reading checksum never 65 engine request source copying).1.done
receive-Recorded_example =
    receive-Recorded memory reading checksum never 65 engine request source copying

-- The phone has answered that the transfer is done already.
abbrev pub answer : Bytes
answer =
    let (_, c) =
      send_message toy pipe (result_message (text "k1") outcome)
        (record { secure = phone; socket = [] }) in
    c.socket

abbrev exchanged : Exchange toy duplex
exchanged = record { connected = record { secure = desk; socket = (answer, []) }; progress = [] }

answered :
    (exchange toy duplex memory reading disk never (text "k1") prepared exchanged).0 ≡ ok outcome
unfolding exchange send_message receive_message seal validate open_frame send Socket.receive
    is_blank result_message to_be_bytes text_eq derive_key key_info nonce associated_data
answered = refl

exchange-iff-IsConfirmed_example :
    IsConfirmed toy duplex memory reading disk never (text "k1") prepared exchanged outcome
exchange-iff-IsConfirmed_example =
    (exchange-iff-IsConfirmed toy duplex memory reading disk never (text "k1") prepared exchanged
        outcome).0
      answered
