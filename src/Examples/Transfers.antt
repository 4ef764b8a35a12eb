-- ===== src/Examples/Transfers.antt =====
-- Incoming transfers.
use agent_send.Base.{
  All, Text, text, List, [], ◌∷◌, ◌≡◌, ◌⊎◌, refl, true, arith, text_eq, text_compare,
}
use agent_send.Base.Map.{get, insert, remove}
use agent_send.Base.Decimal.{decimal}
use agent_send.Hex.{hex}
use agent_send.Core.Request.{FolderDirection}
use agent_send.Core.Policy.{
  PathPolicy, resolve, nearest_existing, ensure_beneath, validate_relative, check_direction,
}
use agent_send.Core.Paths.{components, join, render, starts_with, parent}
use agent_send.Peer.Message.{PeerMessage, file_start, file_chunk, file_complete, transfer_complete}
use agent_send.Transfer.Types.{TransferOutcome, TransferEngine, IncomingFile, temp_path}
use agent_send.Transfer.Engine.{fresh, begin_incoming}
use agent_send.Transfer.Incoming.{Session, remove_each}
use agent_send.Transfer.Incoming
use agent_send.Transfer.Incoming.Bounds.{IsBounded, fresh-IsBounded}
use agent_send.Transfer.Receive.{
  Received, receive_loop, finished, handle, receive_socket_transfer, result_message,
}
use agent_send.Transfer.Receive.Ledger.{opened_by, IsRecorded, IsUnchanged, receive-ledger}
use agent_send.Transfer.Receive.Retry.{receive-again}
use agent_send.Transfer.Receive.Limits.{IsWithin, receive_loop-IsWithin}
use agent_send.Transfer.Receive.Rollback.{IsNew}
use agent_send.Examples.Places.{memory-Places}
use agent_send.Examples.World.{memory, checksum, disk}

abbrev pub inbox : PathPolicy
inbox = record { root = text "/out"; direction = FolderDirection.write }

abbrev pub engine : TransferEngine
engine = record { folders = (text "inbox", inbox) ∷ []; completed = [] }

-- One file of two bytes. The checksum of `hi` is 104 + 105 = 209, or d1.
abbrev t1 : Text
t1 = text "t1"

abbrev messages : List PeerMessage
messages =
    file_start t1 (text "a/b.txt") 2
    ∷ file_chunk t1 0 (text "hi")
    ∷ file_complete t1
    ∷ transfer_complete t1
    ∷ []

abbrev pub sum_of_hi : Text
sum_of_hi = text "d1d1d1d1d1d1d1d1d1d1d1d1d1d1d1d1d1d1d1d1d1d1d1d1d1d1d1d1d1d1d1d1"

abbrev received : Received memory checksum
received =
    receive_socket_transfer memory checksum disk engine true
      (opened_by t1 (text "inbox") (text "k1") sum_of_hi 2 messages)

receive-ledger_example :
    IsUnchanged memory checksum disk engine t1 (text "inbox") (text "k1") sum_of_hi 2 received
    ⊎ ((o : TransferOutcome) × IsRecorded memory checksum disk engine t1
          (text "inbox")
          (text "k1")
          sum_of_hi
          2
          received
          o)
receive-ledger_example =
    receive-ledger memory checksum disk engine t1 (text "inbox") (text "k1") sum_of_hi 2 true
      messages

abbrev outcome : TransferOutcome
outcome = record { bytes = 2; files = 1; sha256 = sum_of_hi }

abbrev start : Session memory checksum
start = record {
  transfer = fresh memory checksum t1 (text "k1") inbox 2 sum_of_hi;
  disk = disk;
  done = [];
}

start-IsBounded : IsBounded memory checksum start.transfer
start-IsBounded = fresh-IsBounded memory checksum t1 (text "k1") inbox 2 sum_of_hi (omega arith)

finishes : (receive_loop memory checksum messages start).0 ≡ finished outcome
unfolding receive_loop handle fresh Incoming.file_start Incoming.chunk Incoming.file_complete
    Incoming.complete resolve text_eq validate_relative components check_direction nearest_existing
    join get render ensure_beneath starts_with parent temp_path insert text_compare decimal hex
finishes = refl

start-IsNew : IsNew memory memory-Places checksum start
unfolding fresh
start-IsNew = record { active = refl; committed = refl; completed = refl }

receive_loop-IsWithin_example :
    IsWithin memory checksum (receive_loop memory checksum messages start).1 outcome
    × All
        (λ p.
          memory-Places.holds
            (receive_loop memory checksum messages start).1.disk
            (memory-Places.at p)
          ≡ true)
        (receive_loop memory checksum messages start).1.transfer.committed_targets
receive_loop-IsWithin_example =
    receive_loop-IsWithin memory checksum memory-Places messages start outcome start-IsBounded
      start-IsNew finishes

recorded :
    IsRecorded memory checksum disk engine t1
      (text "inbox")
      (text "k1")
      sum_of_hi
      2
      received
      outcome
unfolding receive_loop handle fresh Incoming.file_start Incoming.chunk Incoming.file_complete
    Incoming.complete resolve text_eq validate_relative components check_direction nearest_existing
    join get render ensure_beneath starts_with parent temp_path insert text_compare decimal hex
    receive_socket_transfer begin_incoming
recorded = record { engine = refl; bytes = refl; hash_matches = refl; sent = refl }

abbrev again : Received memory checksum
again =
    receive_socket_transfer memory checksum disk received.engine true
      (opened_by (text "t2") (text "inbox") (text "k1") sum_of_hi 9 messages)

receive-again_example : again ≡ record {
  sent = result_message (text "t2") outcome ∷ [];
  engine = received.engine;
  disk = disk;
}
receive-again_example =
    receive-again memory checksum disk disk engine (text "k1") t1 (text "inbox") sum_of_hi
      (text "t2") (text "inbox") sum_of_hi 2 9 true messages received outcome recorded

-- A connection that is closed while the second file is open.
abbrev cut_off : List PeerMessage
cut_off =
    file_start t1 (text "a/b.txt") 2
    ∷ file_chunk t1 0 (text "hi")
    ∷ file_complete t1
    ∷ file_start t1 (text "c.txt") 0
    ∷ []

abbrev last : Session memory checksum
last = (receive_loop memory checksum cut_off start).1

one_committed : last.transfer.committed_targets ≡ text "/out/a/b.txt" ∷ []
unfolding receive_loop handle fresh Incoming.file_start Incoming.chunk Incoming.file_complete
    Incoming.complete resolve text_eq validate_relative components check_direction nearest_existing
    join get render ensure_beneath starts_with parent temp_path insert text_compare decimal hex
    remove
one_committed = refl

-- Then the target of the open file becomes a directory.
abbrev blocked : Session memory checksum
blocked = record last { disk = record last.disk { dirs = text "/out/c.txt" ∷ last.disk.dirs } }

abbrev open_file : IncomingFile memory
open_file = record {
  target = text "/out/c.txt";
  temp = text "/out/c.agent-send-7-41.part";
  file = text "/out/c.agent-send-7-41.part";
  expected_size = 0;
  offset = 0;
}
