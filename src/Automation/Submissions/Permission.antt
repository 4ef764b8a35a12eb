-- ===== src/Automation/Submissions/Permission.antt =====
-- What a submission that is accepted has passed.
use agent_send.Base.{List, true, ◌≡◌, arith}
use agent_send.Base.Result.{ok}
use agent_send.Core.Os.{FileSystem}
use agent_send.Core.Request.{TransferRequest}
use agent_send.Registry.Types.{PeerRecord}
use agent_send.Transfer.Types.{TransferEngine}
use agent_send.Transfer.Engine.{validate_submission}
use agent_send.Automation.Types.{AuthorizedAgent, allows_peer, allows_folder, AgentTransferStatus}
use agent_send.Automation.Submissions.{AgentTransferStateStore, trusts, submit}

module _ (fs : FileSystem) (d : fs.Disk) (actor : AuthorizedAgent) (r : TransferRequest)
    (peers : List PeerRecord) (engine : TransferEngine) where
  -- The agent's scope, the daemon's trust and the sender's folders allow the request.
  pub record IsPermitted : Type 0 where
    pub peer : allows_peer actor.scope r.peer_id ≡ true
    pub source : allows_folder actor.scope r.source_folder_id ≡ true
    pub destination : allows_folder actor.scope r.destination_folder_id ≡ true
    pub trusted : trusts peers r.peer_id ≡ true
    pub valid : validate_submission fs d engine r ≡ ok tt

  -- A submission is accepted only if the agent's scope has the peer and both folders, a trusted
  -- record of the peer is known, and the engine finds the request valid.
  pub submit-IsPermitted :
      (s : AgentTransferStateStore) (status : AgentTransferStatus)
      → (submit fs d actor r peers engine s).0 ≡ ok status
      → IsPermitted
  unfolding submit
  submit-IsPermitted s status h = record {
    peer = ground arith;
    source = ground arith;
    destination = ground arith;
    trusted = ground arith;
    valid = ground arith;
  }
