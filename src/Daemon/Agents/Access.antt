-- ===== src/Daemon/Agents/Access.antt =====
-- What a request to the local API of the agents may do, see and leave in the audit log.
use agent_send.Base.{
  ℕ, Text, text, List, [], ◌∷◌, Bool, true, false, not, ◌||◌, Option, none, some, ◌≡◌, ◌⊎◌, refl,
  arith, inl, inr, All, ◌==◌, Text_eq, text_eq, if◌then◌else◌,
}
use agent_send.Base.Result.{Result, ok, err, is_ok}
use agent_send.Base.Map.{Map}
use agent_send.Core.Os.{FileSystem, Sha256}
use agent_send.Core.Request.{FolderDirection, TransferRequest}
use agent_send.Registry.Types.{PeerRecord, PeerRegistry}
use agent_send.Registry.Pairing.{list}
use agent_send.Transfer.Types.{TransferEngine, TransferOutcome}
use agent_send.Transfer.Engine
use agent_send.Automation.Types.{
  AutomationError, AuthorizedAgent, AgentScope, allows_peer, allows_folder, StoredAgentToken,
  AgentTransferStatus,
}
use agent_send.Automation.Submissions
use agent_send.Automation.Submissions.{submit}
use agent_send.Automation.Audit.{append}
use agent_send.Daemon.Types.{Body, peers, folders, Answer, agent_error, bad_request, Json}
use agent_send.Daemon.Agents.{
  AgentState, filter_peers, filter_folders, error_answer, answer_of, submit_operation,
  transfer_operation, send_submitted, id_of, is_completed, or_denied, audit, perform, actor_of,
  handle_agent_request,
}

-- What an agent with a scope may be shown.
abbrev pub ShownPeers : AgentScope → List PeerRecord → Type 0
ShownPeers scope = All (λ p. (p.trusted ≡ true) × (allows_peer scope p.advertisement.id ≡ true))

abbrev pub ShownFolders : AgentScope → List (Text × FolderDirection) → Type 0
ShownFolders scope = All (λ f. allows_folder scope f.0 ≡ true)

filter_peers-ShownPeers :
    (scope : AgentScope) (ps : List PeerRecord) → ShownPeers scope (filter_peers scope ps)
filter_peers-ShownPeers scope [] = tt
filter_peers-ShownPeers scope (p ∷ rest) =
    let more = filter_peers-ShownPeers scope rest in ground (arith, more)

filter_folders-ShownFolders :
    (scope : AgentScope) (fs : List (Text × FolderDirection))
    → ShownFolders scope (filter_folders scope fs)
filter_folders-ShownFolders scope [] = tt
filter_folders-ShownFolders scope (f ∷ rest) =
    let more = filter_folders-ShownFolders scope rest in ground (arith, more)

pub either : {X : Type 0} (P : X → Type 0) (b : Bool) {x y : X} → P x → P y → P (if b then x else y)
either P true p q = p
either P false p q = q

-- No answer shows more than the scope allows.
abbrev pub Shown : AgentScope → Body → Type 0
Shown scope (peers ps) = ShownPeers scope ps
Shown scope (folders fs) = ShownFolders scope fs
Shown scope _ = Unit

error-Shown : (scope : AgentScope) (e : AutomationError) → Shown scope (error_answer e).body
unfolding error_answer
error-Shown scope (AutomationError.untrusted_peer id) = tt
error-Shown scope (AutomationError.scope_denied what) = tt
error-Shown scope AutomationError.transfer_not_found = tt
error-Shown scope (AutomationError.transfer e) = tt
error-Shown scope _ = tt

answer-Shown :
    (scope : AgentScope) (r : Result AutomationError AgentTransferStatus)
    → Shown scope (answer_of r).body
answer-Shown scope (ok status) = tt
answer-Shown scope (err e) = error-Shown scope e

module _ (sha : Sha256) (fs : FileSystem) (d : fs.Disk) (json : Json) (registry : PeerRegistry)
    (engine : TransferEngine) (tokens : Map StoredAgentToken)
    (send : TransferRequest → Result Text TransferOutcome) (now : ℕ) where
  -- One entry more in the log, for an actor and an operation.
  pub record IsAudited (s s' : AgentState) (actor operation : Text) : Type 0 where
    pub peer : Option Text
    pub folder_ids : List Text
    pub transfer_id : Option Text
    pub result : Text
    pub appended : s'.log ≡ append sha s.log now actor operation peer folder_ids transfer_id result

  plain-IsAudited :
      (s : AgentState) (actor operation result : Text)
      → IsAudited s
          (audit sha fs d json registry engine tokens send now actor operation none [] none result
            s)
          actor
          operation
  plain-IsAudited s actor operation result = record {
    peer = none;
    folder_ids = [];
    transfer_id = none;
    result = result;
    appended = refl;
  }

  submit-IsAudited :
      (actor : AuthorizedAgent) (operation : Text) (is_send : Bool) (r : Option TransferRequest)
      (s : AgentState)
      → IsAudited s
          (submit_operation sha fs d json registry engine tokens send now actor operation is_send r
            s).1
          actor.id
          operation
  unfolding submit_operation
  submit-IsAudited actor operation is_send none s =
      plain-IsAudited s actor.id operation (text "denied")
  submit-IsAudited actor operation is_send (some r) s =
      let (result, t) =
        send_submitted sha fs d json registry engine tokens send now actor is_send r
          (submit fs d actor r (list registry) engine s.transfers) in
      record {
        peer = some r.peer_id;
        folder_ids = r.source_folder_id ∷ r.destination_folder_id ∷ [];
        transfer_id = id_of result;
        result = if not is_send || is_completed result then text "ok" else text "denied";
        appended = refl;
      }

  transfer-IsAudited :
      (actor : AuthorizedAgent) (operation : Text) (is_status : Bool) (id : Option Text)
      (s : AgentState)
      → IsAudited s
          (transfer_operation sha fs d json registry engine tokens send now actor operation
            is_status id s).1
          actor.id
          operation
  unfolding transfer_operation
  transfer-IsAudited actor operation is_status none s =
      plain-IsAudited s actor.id operation (text "denied")
  transfer-IsAudited actor operation true (some id) s = record {
    peer = none;
    folder_ids = [];
    transfer_id = some id;
    result =
        or_denied sha fs d json registry engine tokens send now
          (is_ok (Submissions.status actor id s.transfers));
    appended = refl;
  }
  transfer-IsAudited actor operation false (some id) s = record {
    peer = none;
    folder_ids = [];
    transfer_id = some id;
    result =
        or_denied sha fs d json registry engine tokens send now
          (is_ok (Submissions.cancel actor id s.transfers).0);
    appended = refl;
  }

  perform-IsAudited :
      (actor : AuthorizedAgent) (operation : Text) (params : json.Value) (s : AgentState)
      → IsAudited s
          (perform sha fs d json registry engine tokens send now actor operation params s).1
          actor.id
          operation
  unfolding perform
  perform-IsAudited actor operation params s =
      let P : Answer × AgentState → Type 0 = λ r. IsAudited s r.1 actor.id operation in
      either P (operation == text "peers.list") (plain-IsAudited s actor.id operation (text "ok")) (
        either P (operation == text "folders.list")
          (plain-IsAudited s actor.id operation (text "ok"))
          (either P (operation == text "transfers.submit" || operation == text "transfers.send")
            (submit-IsAudited actor operation (operation == text "transfers.send")
              (json.transfer_request params) s)
            (either P (operation == text "transfers.status" || operation == text "transfers.cancel")
              (transfer-IsAudited actor operation (operation == text "transfers.status")
                (json.transfer_id params) s)
              (plain-IsAudited s actor.id operation (text "denied")))))

  submit-Shown :
      (actor : AuthorizedAgent) (operation : Text) (is_send : Bool) (r : Option TransferRequest)
      (s : AgentState)
      → Shown actor.scope
          (submit_operation sha fs d json registry engine tokens send now actor operation is_send r
            s).0.body
  unfolding submit_operation
  submit-Shown actor operation is_send none s = tt
  submit-Shown actor operation is_send (some r) s = answer-Shown actor.scope _

  transfer-Shown :
      (actor : AuthorizedAgent) (operation : Text) (is_status : Bool) (id : Option Text)
      (s : AgentState)
      → Shown actor.scope
          (transfer_operation sha fs d json registry engine tokens send now actor operation
            is_status id s).0.body
  unfolding transfer_operation
  transfer-Shown actor operation is_status none s = tt
  transfer-Shown actor operation is_status (some id) s = answer-Shown actor.scope _

  perform-Shown :
      (actor : AuthorizedAgent) (operation : Text) (params : json.Value) (s : AgentState)
      → Shown actor.scope
          (perform sha fs d json registry engine tokens send now actor operation params s).0.body
  unfolding perform
  perform-Shown actor operation params s =
      let P : Answer × AgentState → Type 0 = λ r. Shown actor.scope r.0.body in
      either P (operation == text "peers.list")
        (filter_peers-ShownPeers actor.scope (list registry))
        (either P (operation == text "folders.list")
          (filter_folders-ShownFolders actor.scope (Engine.folders engine))
          (either P (operation == text "transfers.submit" || operation == text "transfers.send")
            (submit-Shown actor operation (operation == text "transfers.send")
              (json.transfer_request params) s)
            (either P (operation == text "transfers.status" || operation == text "transfers.cancel")
              (transfer-Shown actor operation (operation == text "transfers.status")
                (json.transfer_id params) s)
              tt)))

  -- The two ways in which a request ends: nobody is authorized and nothing but the log changes, or an
  -- agent is, and sees what its scope allows. Each leaves one entry in the log.
  pub data IsHandled (head body : Text) (s : AgentState) (r : Answer × AgentState) : Type 0 where
    refused :
        (operation : Text)
        → (json.operation_request body ≡ none)
          ⊎ (actor_of sha fs d json registry engine tokens send now head ≡ none)
        → r.1
          ≡ audit sha fs d json registry engine tokens send now
              (text "unauthenticated")
              operation
              none
              []
              none
              (text "denied")
              s
        → (r.0 ≡ bad_request) ⊎ (r.0 ≡ agent_error (text "401 Unauthorized") (text "unauthorized"))
        → IsHandled head body s r
    acted :
        (actor : AuthorizedAgent) (operation : Text) (params : json.Value)
        → json.operation_request body ≡ some (operation, params)
        → actor_of sha fs d json registry engine tokens send now head ≡ some actor
        → IsAudited s r.1 actor.id operation
        → Shown actor.scope r.0.body
        → IsHandled head body s r

  handled :
      (head body : Text) (s : AgentState) (request : Option (Text × json.Value))
      (actor : Option AuthorizedAgent)
      → json.operation_request body ≡ request
      → actor_of sha fs d json registry engine tokens send now head ≡ actor
      → IsHandled head body s
          (handle_agent_request sha fs d json registry engine tokens send now head body s)
  unfolding handle_agent_request
  handled head body s none actor e a =
      rw e (refused (text "invalid_request") (inl e) refl (inl refl))
  handled head body s (some (operation, params)) none e a =
      rw e (rw a (refused operation (inr a) refl (inr refl)))
  handled head body s (some (operation, params)) (some actor) e a = rw e (
      rw a (
        acted actor operation params e a (perform-IsAudited actor operation params s)
          (perform-Shown actor operation params s)))

  -- A request whose body is not a request or whose bearer token belongs to no agent changes nothing
  -- but the log, which gains one entry `denied`, and is answered with a client error. Any other
  -- request belongs to an agent: the log gains exactly one entry, of this agent and this operation, and
  -- no answer holds a peer that is not trusted or a peer or a folder outside the agent's scope.
  pub handle_agent_request-IsHandled :
      (head body : Text) (s : AgentState)
      → IsHandled head body s
          (handle_agent_request sha fs d json registry engine tokens send now head body s)
  handle_agent_request-IsHandled head body s = handled head body s _ _ refl refl

  -- An agent's request `transfers.submit` with parameters that parse is entered in the log as `ok`,
  -- whatever becomes of the submission, a refusal for its scope included.
  pub submit-audited_ok :
      (head body : Text) (params : json.Value) (actor : AuthorizedAgent) (r : TransferRequest)
      (s : AgentState)
      → json.operation_request body ≡ some (text "transfers.submit", params)
      → actor_of sha fs d json registry engine tokens send now head ≡ some actor
      → json.transfer_request params ≡ some r
      → (id : Option Text) × ((handle_agent_request sha fs d json registry engine tokens send now
            head body s).1.log
          ≡ append sha s.log now actor.id
              (text "transfers.submit")
              (some r.peer_id)
              (r.source_folder_id ∷ r.destination_folder_id ∷ [])
              id
              (text "ok"))
  unfolding handle_agent_request perform submit_operation text_eq
  submit-audited_ok head body params actor r s e a q = rw e (rw a (rw q (_, refl)))
