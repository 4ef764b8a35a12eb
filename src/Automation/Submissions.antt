-- ===== src/Automation/Submissions.antt =====
-- `AgentTransfers` of crates/agent-send-daemon/src/automation.rs: the submissions of the agents and
-- their results.
pub mod Lifecycle
pub mod Permission
pub mod Repeat
pub mod History
use agent_send.Base.{
  ℕ, Text, text, List, [], ◌∷◌, ◌++◌, Bool, true, false, not, ◌&&◌, ◌||◌, Option, none, some,
  if◌then◌else◌, ◌==◌, Text_eq, any,
}
use agent_send.Base.Decimal.{decimal}
use agent_send.Base.Result.{Result, ok, err, ok_or, map_err, reject_if, ◌>>=◌, ◌>>◌}
use agent_send.Base.Exec.{Exec}
use agent_send.Base.Map.{Map, get, insert, values}
use agent_send.Core.Os.{FileSystem}
use agent_send.Core.Request.{TransferRequest}
use agent_send.Registry.Types.{PeerRecord}
use agent_send.Transfer.Types.{TransferEngine, add64}
use agent_send.Transfer.Engine.{validate_submission}
use agent_send.Automation.Types.{
  AutomationError, transfer_not_found, scope_denied, untrusted_peer, transfer, AuthorizedAgent,
  allows_peer, allows_folder, AgentTransferState, submitted, completed, failed, cancelled,
  AgentTransferStatus, AgentTransfer,
}

pub record AgentTransferStateStore : Type 0 where
  pub next_id : ℕ
  pub transfers : Map AgentTransfer

abbrev pub trusts : List PeerRecord → Text → Bool
trusts peers peer_id = any (λ p. p.trusted && p.advertisement.id == peer_id) peers

abbrev pub Store : Type 0 → Type 0
Store = Exec AgentTransferStateStore AutomationError

-- The `find` of `submit`
unfoldable pub find_existing : List AgentTransfer → Text → Text → Option AgentTransferStatus
find_existing [] actor_id key = none
find_existing (t ∷ rest) actor_id key =
    if t.actor_id == actor_id && t.idempotency_key == key
    then some t.status
    else find_existing rest actor_id key

-- `format!("local-{}", state.next_id)`
unfoldable pub local_id : ℕ → Text
unfolding decimal
local_id n = text "local-" ++ decimal n

unfoldable pub add_transfer : Text → Text → ℕ → Store AgentTransferStatus
unfolding local_id
add_transfer actor_id key next s =
    let status : AgentTransferStatus = record {
      transfer_id = local_id next;
      state = submitted;
      error = none;
    } in
    (
      ok status,
      record {
        next_id = next;
        transfers =
            insert s.transfers (local_id next)
              (record { status = status; actor_id = actor_id; idempotency_key = key });
      },
    )

-- What `submit` does once the submission is authorized.
unfoldable pub enter : Text → Text → Store AgentTransferStatus
unfolding add_transfer find_existing
enter actor_id key s = elim (find_existing (values s.transfers) actor_id key) [
  | some existing ↦ (ok existing, s)
  | none ↦ add_transfer actor_id key (add64 s.next_id 1) s
]

module _ (fs : FileSystem) where
  -- `authorize_submission`
  unfoldable pub authorize_submission :
      fs.Disk
      → AuthorizedAgent
      → TransferRequest
      → List PeerRecord
      → TransferEngine
      → Result AutomationError (Unit {0})
  authorize_submission d actor r peers engine = do
    reject_if (not (allows_peer actor.scope r.peer_id)) (scope_denied (text "peer"))
    reject_if
        (not (allows_folder actor.scope r.source_folder_id)
          || not (allows_folder actor.scope r.destination_folder_id))
        (scope_denied (text "folder"))
    reject_if (not (trusts peers r.peer_id)) (untrusted_peer r.peer_id)
    map_err transfer (validate_submission fs d engine r)

  abbrev when_ok :
      Result AutomationError (Unit {0}) → Store AgentTransferStatus → Store AgentTransferStatus
  when_ok (ok u) m s = m s
  when_ok (err e) m s = (err e, s)

  -- `AgentTransfers::submit`
  unfoldable pub submit :
      fs.Disk
      → AuthorizedAgent
      → TransferRequest
      → List PeerRecord
      → TransferEngine
      → Store AgentTransferStatus
  unfolding authorize_submission enter
  submit d actor r peers engine =
      when_ok (authorize_submission d actor r peers engine) (enter actor.id r.idempotency_key)

abbrev owned : Option AgentTransfer → Text → Option AgentTransfer
owned none actor_id = none
owned (some t) actor_id = if t.actor_id == actor_id then some t else none

-- `AgentTransfers::for_actor`
unfoldable pub for_actor :
    AuthorizedAgent → Text → AgentTransferStateStore → Result AutomationError AgentTransfer
for_actor actor transfer_id s =
    ok_or (owned (get s.transfers transfer_id) actor.id) transfer_not_found

-- `AgentTransfers::status`
unfoldable pub status :
    AuthorizedAgent → Text → AgentTransferStateStore → Result AutomationError AgentTransferStatus
unfolding for_actor
status actor transfer_id s = for_actor actor transfer_id s >>= λ t. ok t.status

abbrev pub is_submitted : AgentTransferState → Bool
is_submitted submitted = true
is_submitted completed = false
is_submitted failed = false
is_submitted cancelled = false

-- The change that `update_result` makes to a status. `cancel` leaves the error as it is.
unfoldable pub settle : AgentTransferState → Option Text → AgentTransferStatus → AgentTransferStatus
settle state error s = if is_submitted s.state then record s { state = state; error = error } else s

unfoldable pub settle_cancelled : AgentTransferStatus → AgentTransferStatus
settle_cancelled s = if is_submitted s.state then record s { state = cancelled } else s

abbrev change :
    (AgentTransferStatus → AgentTransferStatus)
    → Text
    → Option AgentTransfer
    → Store AgentTransferStatus
change f transfer_id none s = (err transfer_not_found, s)
change f transfer_id (some t) s = (
  ok (f t.status),
  record s { transfers = insert s.transfers transfer_id (record t { status = f t.status }) },
)

-- `AgentTransfers::update_result`
unfoldable pub update_result :
    AuthorizedAgent → Text → AgentTransferState → Option Text → Store AgentTransferStatus
unfolding settle
update_result actor transfer_id state error s =
    change (settle state error) transfer_id (owned (get s.transfers transfer_id) actor.id) s

-- `AgentTransfers::complete`
unfoldable pub complete : AuthorizedAgent → Text → Store AgentTransferStatus
unfolding update_result
complete actor transfer_id = update_result actor transfer_id completed none

-- `AgentTransfers::fail`
unfoldable pub fail : AuthorizedAgent → Text → Text → Store AgentTransferStatus
unfolding update_result
fail actor transfer_id error = update_result actor transfer_id failed (some error)

-- `AgentTransfers::cancel`
unfoldable pub cancel : AuthorizedAgent → Text → Store AgentTransferStatus
unfolding settle_cancelled
cancel actor transfer_id s =
    change settle_cancelled transfer_id (owned (get s.transfers transfer_id) actor.id) s
