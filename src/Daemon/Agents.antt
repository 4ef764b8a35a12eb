-- ===== src/Daemon/Agents.antt =====
-- `handle_agent_request` and `send_agent_socket_transfer` of crates/agent-send-daemon/src/lib.rs.
pub mod Access
use agent_send.Base.{
  ℕ, Text, text, List, [], ◌∷◌, Bool, true, false, not, ◌&&◌, ◌||◌, Option, none, some, ◌==◌,
  Text_eq, if◌then◌else◌, strip_prefix,
}
use agent_send.Base.Result.{Result, ok, err, ok_or, map_err, is_ok, reject_if, ◌>>=◌, ◌>>◌}
use agent_send.Base.Map.{Map, get}
use agent_send.Core.Os.{FileSystem, Reading, Sha256}
use agent_send.Core.Request.{FolderDirection, TransferRequest}
use agent_send.Peer.Channel
use agent_send.Peer.Channel.{Crypto}
use agent_send.Peer.Secret.{PairedPeer}
use agent_send.Peer.Socket.{Stream, PeerTransportError}
use agent_send.Registry.Types.{PeerRecord, PeerRegistry}
use agent_send.Registry.Pairing.{list, paired_peer}
use agent_send.Transfer.Types.{TransferEngine, TransferOutcome}
use agent_send.Transfer.Engine
use agent_send.Transfer.Send.{SocketTransferError, send_socket_transfer}
use agent_send.Automation.Types.{
  AutomationError, transfer_not_found, scope_denied, untrusted_peer, transfer, AuthorizedAgent,
  AgentScope, allows_peer, allows_folder, StoredAgentToken, AgentTransferState, submitted,
  completed, AgentTransferStatus,
}
use agent_send.Automation.Tokens.{authorize}
use agent_send.Automation.Submissions
use agent_send.Automation.Submissions.{
  AgentTransferStateStore, submit, complete, fail, is_submitted,
}
use agent_send.Automation.Audit.{AuditEntry, append}
use agent_send.Daemon.Http.{header_value}
use agent_send.Daemon.Types
use agent_send.Daemon.Types.{
  DaemonError, peer_channel, socket_transfer, Body, peers, folders, Answer, agent_error,
  bad_request, Json,
}

abbrev pub trusted_record : Option PeerRecord → Option PeerRecord
trusted_record none = none
trusted_record (some r) = if r.trusted then some r else none

-- A socket transfer to a registered peer. `SocketAddr` is what an address is parsed to.
module _ (crypto : Crypto) (stream : Stream) (fs : FileSystem) (disk : Reading fs) (d : fs.Disk)
    (is_cancelled : ℕ → Bool) (sha : Sha256) {SocketAddr : Type 0}
    (parse_address : Text → Option SocketAddr)
    (connect : SocketAddr → Result PeerTransportError stream.Socket) where
  -- The address and the secret, from the registry
  unfoldable pub endpoint : PeerRegistry → Text → Result DaemonError (SocketAddr × PairedPeer)
  unfolding paired_peer
  endpoint registry peer_id = do
    peer_record ←
        ok_or (trusted_record (get registry.peers peer_id)) (DaemonError.untrusted_peer peer_id)
    address ←
        ok_or (parse_address peer_record.advertisement.address) (DaemonError.untrusted_peer peer_id)
    peer ← ok_or (paired_peer registry peer_id) (DaemonError.untrusted_peer peer_id)
    ok (address, peer)

  abbrev pub wrap_error : Option SocketTransferError → Option DaemonError
  wrap_error none = none
  wrap_error (some e) = some (socket_transfer e)

  -- `send_agent_socket_transfer`; `none` in the place of an error says that the fuel for collecting is
  -- used up
  unfoldable pub send_agent_socket_transfer :
      ℕ
      → Text
      → PeerRegistry
      → TransferEngine
      → Text
      → TransferRequest
      → Result (Option DaemonError) TransferOutcome
  unfolding endpoint Channel.new send_socket_transfer
  send_agent_socket_transfer n identity_id registry engine peer_id r = do
    reject_if (not (r.peer_id == peer_id)) (some (DaemonError.untrusted_peer peer_id))
    (address, peer) ← map_err some (endpoint registry peer_id)
    channel ← map_err (λ e. some (peer_channel e)) (Channel.new crypto identity_id peer)
    map_err wrap_error
        (send_socket_transfer crypto stream fs disk d is_cancelled sha n engine channel
          (connect address) r).0

abbrev filter_peers : AgentScope → List PeerRecord → List PeerRecord
filter_peers scope [] = []
filter_peers scope (p ∷ rest) =
    let more = filter_peers scope rest in
    if p.trusted && allows_peer scope p.advertisement.id then p ∷ more else more

abbrev filter_folders : AgentScope → List (Text × FolderDirection) → List (Text × FolderDirection)
filter_folders scope [] = []
filter_folders scope ((id, direction) ∷ rest) =
    let more = filter_folders scope rest in
    if allows_folder scope id then (id, direction) ∷ more else more

-- The `match error` at the end
unfoldable pub error_answer : AutomationError → Answer
error_answer (untrusted_peer id) = agent_error (text "403 Forbidden") (text "forbidden")
error_answer (scope_denied what) = agent_error (text "403 Forbidden") (text "forbidden")
error_answer transfer_not_found = agent_error (text "404 Not Found") (text "transfer_not_found")
error_answer (transfer e) = agent_error (text "400 Bad Request") (text "invalid_transfer")
error_answer _ = bad_request

-- A status always has a JSON value.
abbrev answer_of : Result AutomationError AgentTransferStatus → Answer
answer_of (ok status) = record { status = text "200 OK"; body = Body.transfer status }
answer_of (err e) = error_answer e

abbrev id_of : Result AutomationError AgentTransferStatus → Option Text
id_of (ok status) = some status.transfer_id
id_of (err e) = none

abbrev is_completed : Result AutomationError AgentTransferStatus → Bool
is_completed (ok status) = elim status.state [ AgentTransferState.completed ↦ true | _ ↦ false ]
is_completed (err e) = false

-- What a request changes: the submissions and the log.
pub record AgentState : Type 0 where
  pub transfers : AgentTransferStateStore
  pub log : List AuditEntry

-- The fixed surroundings of one request. `send` is what `send_agent_socket_transfer` returns, with the
-- text of its error. `now` is the time of the audit entry.
module _ (sha : Sha256) (fs : FileSystem) (d : fs.Disk) (json : Json) (registry : PeerRegistry)
    (engine : TransferEngine) (tokens : Map StoredAgentToken)
    (send : TransferRequest → Result Text TransferOutcome) (now : ℕ) where
  abbrev audit :
      Text → Text → Option Text → List Text → Option Text → Text → AgentState → AgentState
  audit actor operation peer folder_ids transfer_id result s = record s {
    log = append sha s.log now actor operation peer folder_ids transfer_id result;
  }

  abbrev denied : Text → Text → Answer → AgentState → Answer × AgentState
  denied actor operation answer s = (answer, audit actor operation none [] none (text "denied") s)

  abbrev settle_sent :
      AuthorizedAgent
      → Text
      → Result Text TransferOutcome
      → AgentTransferStateStore
      → Result AutomationError AgentTransferStatus × AgentTransferStateStore
  settle_sent actor id (ok outcome) t = complete actor id t
  settle_sent actor id (err message) t = fail actor id message t

  -- What follows `submit`
  unfoldable pub send_submitted :
      AuthorizedAgent
      → Bool
      → TransferRequest
      → Result AutomationError AgentTransferStatus × AgentTransferStateStore
      → Result AutomationError AgentTransferStatus × AgentTransferStateStore
  unfolding complete fail
  send_submitted actor is_send r (err e, t) = (err e, t)
  send_submitted actor is_send r (ok status, t) =
      if not is_send || not (is_submitted status.state)
      then (ok status, t)
      else settle_sent actor status.transfer_id (send r) t

  -- `transfers.submit` and `transfers.send`
  unfoldable pub submit_operation :
      AuthorizedAgent → Text → Bool → Option TransferRequest → AgentState → Answer × AgentState
  unfolding append submit send_submitted list
  submit_operation actor operation is_send none s = denied actor.id operation bad_request s
  submit_operation actor operation is_send (some r) s =
      let (result, t) =
        send_submitted actor is_send r (submit fs d actor r (list registry) engine s.transfers) in
      (
        answer_of result,
        audit actor.id operation (some r.peer_id)
            (r.source_folder_id ∷ r.destination_folder_id ∷ []) (id_of result)
            (if not is_send || is_completed result then text "ok" else text "denied")
            (record s { transfers = t }),
      )

  abbrev or_denied : Bool → Text
  or_denied true = text "ok"
  or_denied false = text "denied"

  -- `transfers.status` and `transfers.cancel`
  unfoldable pub transfer_operation :
      AuthorizedAgent → Text → Bool → Option Text → AgentState → Answer × AgentState
  unfolding append Submissions.status Submissions.cancel
  transfer_operation actor operation is_status none s = denied actor.id operation bad_request s
  transfer_operation actor operation is_status (some id) s =
      let (result, t) =
        if is_status
        then (Submissions.status actor id s.transfers, s.transfers)
        else Submissions.cancel actor id s.transfers in
      (
        answer_of result,
        audit actor.id operation none [] (some id) (or_denied (is_ok result))
            (record s { transfers = t }),
      )

  -- The `match operation`
  unfoldable pub perform : AuthorizedAgent → Text → json.Value → AgentState → Answer × AgentState
  unfolding append submit_operation transfer_operation list Engine.folders
  perform actor operation params s =
      if operation == text "peers.list"
      then (
        record { status = text "200 OK"; body = peers (filter_peers actor.scope (list registry)) },
        audit actor.id operation none [] none (text "ok") s,
      )
      else if operation == text "folders.list"
      then (
        record {
          status = text "200 OK";
          body = folders (filter_folders actor.scope (Engine.folders engine));
        },
        audit actor.id operation none [] none (text "ok") s,
      )
      else if operation == text "transfers.submit" || operation == text "transfers.send"
      then submit_operation actor operation (operation == text "transfers.send")
          (json.transfer_request params) s
      else if operation == text "transfers.status" || operation == text "transfers.cancel"
      then transfer_operation actor operation (operation == text "transfers.status")
          (json.transfer_id params) s
      else denied actor.id operation (agent_error (text "404 Not Found") (text "unknown_operation"))
          s

  abbrev stripped : Option Text → Option Text
  stripped none = none
  stripped (some value) = strip_prefix (text "Bearer ") value

  abbrev authorized : Option Text → Option AuthorizedAgent
  authorized none = none
  authorized (some token) = authorize sha tokens token

  -- The agent that the bearer token of a request belongs to
  unfoldable pub actor_of : Text → Option AuthorizedAgent
  unfolding header_value authorize strip_prefix
  actor_of head = authorized (stripped (header_value head (text "authorization")))

  abbrev unless_unauthorized :
      Option AuthorizedAgent → Text → json.Value → AgentState → Answer × AgentState
  unless_unauthorized none operation params s =
      denied (text "unauthenticated") operation
        (agent_error (text "401 Unauthorized") (text "unauthorized")) s
  unless_unauthorized (some actor) operation params s = perform actor operation params s

  abbrev parsed : Option (Text × json.Value) → Text → AgentState → Answer × AgentState
  parsed none head s = denied (text "unauthenticated") (text "invalid_request") bad_request s
  parsed (some (operation, params)) head s = unless_unauthorized (actor_of head) operation params s

  -- `handle_agent_request`
  unfoldable pub handle_agent_request : Text → Text → AgentState → Answer × AgentState
  unfolding append perform actor_of
  handle_agent_request head body s = parsed (json.operation_request body) head s
