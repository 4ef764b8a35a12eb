-- ===== src/Automation/Submissions/Repeat.antt =====
-- A submission that is sent again under its idempotency key.
use agent_send.Base.{List, ◌≡◌, inl, inr, refl, arith, ap, ◌∙◌, sym}
use agent_send.Base.Result.{ok, err, Result-cases}
use agent_send.Core.Os.{FileSystem}
use agent_send.Core.Request.{TransferRequest}
use agent_send.Registry.Types.{PeerRecord}
use agent_send.Transfer.Types.{TransferEngine}
use agent_send.Automation.Types.{AuthorizedAgent, AutomationError, AgentTransferStatus}
use agent_send.Automation.Submissions.{AgentTransferStateStore, authorize_submission, submit, enter}
use agent_send.Automation.Submissions.Lifecycle.{enter-again}

module _ (fs : FileSystem) (actor : AuthorizedAgent) where
  submit-authorized :
      (d : fs.Disk) (r : TransferRequest) (peers : List PeerRecord) (engine : TransferEngine)
      (s : AgentTransferStateStore)
      → authorize_submission fs d actor r peers engine ≡ ok tt
      → submit fs d actor r peers engine s ≡ enter actor.id r.idempotency_key s
  unfolding submit
  submit-authorized d r peers engine s e = rw (e, submit) refl

  submit-entered :
      (d : fs.Disk) (r : TransferRequest) (peers : List PeerRecord) (engine : TransferEngine)
      (s : AgentTransferStateStore) {status : AgentTransferStatus}
      → (submit fs d actor r peers engine s).0 ≡ ok status
      → submit fs d actor r peers engine s ≡ enter actor.id r.idempotency_key s
  unfolding submit
  submit-entered d r peers engine s h =
      elim (Result-cases (authorize_submission fs d actor r peers engine)) [
        | inl (u, e) ↦ submit-authorized d r peers engine s e
        | inr (x, e) ↦ absurd (refused x e)
      ]
    where
      refused : (x : AutomationError) → authorize_submission fs d actor r peers engine ≡ err x → ⊥
      refused x e = ground arith

  -- A request that is submitted again by the same agent under the same idempotency key, and is
  -- still permitted, is answered with the status of the first submission, and no second transfer
  -- is entered.
  pub submit-again :
      (d d' : fs.Disk) (r r' : TransferRequest) (peers peers' : List PeerRecord)
      (engine engine' : TransferEngine) (s : AgentTransferStateStore) (status : AgentTransferStatus)
      → r'.idempotency_key ≡ r.idempotency_key
      → authorize_submission fs d' actor r' peers' engine' ≡ ok tt
      → (submit fs d actor r peers engine s).0 ≡ ok status
      → submit fs d' actor r' peers' engine' (submit fs d actor r peers engine s).1
        ≡ (ok status, (submit fs d actor r peers engine s).1)
  submit-again d d' r r' peers peers' engine engine' s status same allowed h =
      let entered = submit-entered d r peers engine s h in
      let first : (enter actor.id r.idempotency_key s).0 ≡ ok status =
        sym (ap (λ x. x.0) entered) ∙ h in
      let again = enter-again actor.id r.idempotency_key s status first in
      let second =
        submit-authorized d' r' peers' engine' (submit fs d actor r peers engine s).1 allowed in
      cc (second, same, entered, again)
