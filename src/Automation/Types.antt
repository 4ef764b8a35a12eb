-- ===== src/Automation/Types.antt =====
-- Scopes, errors and the stored data of crates/agent-send-daemon/src/automation.rs. A
-- `BTreeSet<String>` is a list of its elements.
use agent_send.Base.{Text, List, Bool, ◌&&◌, ◌||◌, Option, ◌==◌, Text_eq, any, is_empty, is_blank}
use agent_send.Base.Result.{Result, ok, reject_if, ◌>>◌}
use agent_send.Core.Os.{IoError}
use agent_send.Transfer.Types.{TransferError}

pub record AgentScope : Type 0 where
  pub peer_ids : List Text
  pub folder_ids : List Text

pub record IssuedAgentToken : Type 0 where
  pub id : Text
  pub token : Text
  pub scope : AgentScope

pub record StoredAgentToken : Type 0 where
  pub id : Text
  pub token_hash : Text
  pub scope : AgentScope

pub data TokenStoreError : Type 0 where
  io : IoError → TokenStoreError
  invalid : TokenStoreError

pub data AutomationError : Type 0 where
  empty_scope invalid_scope random unauthorized transfer_not_found : AutomationError
  token_store : TokenStoreError → AutomationError
  scope_denied : Text → AutomationError
  untrusted_peer : Text → AutomationError
  transfer : TransferError → AutomationError

pub record AuthorizedAgent : Type 0 where
  pub id : Text
  pub scope : AgentScope

-- `BTreeSet::contains`
abbrev pub contains : List Text → Text → Bool
contains xs x = any (λ y. y == x) xs

-- `AgentScope::allows_peer`
unfoldable pub allows_peer : AgentScope → Text → Bool
allows_peer s peer_id = contains s.peer_ids peer_id

-- `AgentScope::allows_folder`
unfoldable pub allows_folder : AgentScope → Text → Bool
allows_folder s folder_id = contains s.folder_ids folder_id

-- `AgentScope::validate`
unfoldable pub validate_scope : AgentScope → Result AutomationError (Unit {0})
validate_scope s = do
  reject_if (is_empty s.peer_ids && is_empty s.folder_ids) empty_scope
  reject_if (any is_blank s.peer_ids || any is_blank s.folder_ids) invalid_scope
  ok tt

pub data AgentTransferState : Type 0 where
  submitted completed failed cancelled : AgentTransferState

pub record AgentTransferStatus : Type 0 where
  pub transfer_id : Text
  pub state : AgentTransferState
  pub error : Option Text

pub record AgentTransfer : Type 0 where
  pub status : AgentTransferStatus
  pub actor_id : Text
  pub idempotency_key : Text
