-- ===== src/Examples/Agents.antt =====
-- Agents, their tokens and their submissions.
use agent_send.Base.{
  Text, text, Bytes, List, [], ◌∷◌, Bool, true, false, none, some, ◌≡◌, ◌≢◌, ◌↔◌, refl, arith, all,
  ltb, is_blank, text_eq, text_eq_iff,
}
use agent_send.Base.Result.{Result, ok, err}
use agent_send.Base.Map.{get, insert, remove}
use agent_send.Base.Decimal.{decimal}
use agent_send.Core.Os.{os}
use agent_send.Core.Request.{TransferRequest, FolderDirection}
use agent_send.Core.Request
use agent_send.Core.Policy.{resolve, validate_relative, check_direction, ensure_beneath}
use agent_send.Core.Paths.{components, render, join, starts_with}
use agent_send.Registry.Types.{PeerRecord}
use agent_send.Transfer.Types.{TransferEngine}
use agent_send.Transfer.Engine.{validate_submission}
use agent_send.Automation.Types.{
  AgentScope, IssuedAgentToken, StoredAgentToken, TokenStoreError, io, token_store, AuthorizedAgent,
  allows_peer, allows_folder, validate_scope, submitted, cancelled, AgentTransferStatus,
  AgentTransfer,
}
use agent_send.Automation.Compare.{constant_time_eq, AreBytes, constant_time_eq_iff}
use agent_send.Automation.Tokens.{
  AgentTokenStore, AgentTokens, hash, add_token, issue, revoke, authorize, find_token,
}
use agent_send.Hex.{hex}
use agent_send.Automation.Tokens.{load}
use agent_send.Automation.Tokens.Keyed
use agent_send.Automation.Tokens.Access.{IsKeyed, IsFree, issue-authorize, revoke-authorize}
use agent_send.Automation.Submissions.{
  AgentTransferStateStore, local_id, submit, authorize_submission,
}
use agent_send.Automation.Submissions.Permission.{IsPermitted, submit-IsPermitted}
use agent_send.Automation.Submissions.Repeat.{submit-again}
use agent_send.Automation.Submissions.Lifecycle.{Action, enters, completes, IsNumbered}
use agent_send.Automation.Submissions.History.{acts, acts-settled}
use agent_send.Examples.World.{memory, checksum, disk}

abbrev bytes : Bytes
bytes = 1 ∷ 255 ∷ []

bytes-AreBytes : AreBytes bytes
unfolding AreBytes
bytes-AreBytes = (omega arith, (omega arith, tt))

constant_time_eq_iff_example : (constant_time_eq bytes bytes ≡ true) ↔ (bytes ≡ bytes)
constant_time_eq_iff_example = constant_time_eq_iff bytes bytes bytes-AreBytes bytes-AreBytes

-- A store in memory that is writable or not.
abbrev save_to :
    List StoredAgentToken
    → Bool × List StoredAgentToken
    → Result TokenStoreError (Unit {0}) × (Bool × List StoredAgentToken)
save_to ts (true, old) = (ok tt, (true, ts))
save_to ts (false, old) = (err (io (os 30)), (false, old))

abbrev vault : AgentTokenStore
vault = record { Store = Bool × List StoredAgentToken; load_tokens = λ s. ok s.1; save = save_to }

abbrev pub scope : AgentScope
scope = record { peer_ids = text "desk" ∷ []; folder_ids = text "notes" ∷ text "inbox" ∷ [] }

abbrev nobody : AgentTokens vault
nobody = record { backing = (true, []); tokens = [] }

abbrev issued : IssuedAgentToken
issued = record { id = text "01"; token = text "agent_ff"; scope = scope }

is_issued : (issue vault checksum scope (some (1 ∷ [])) (some (255 ∷ [])) nobody).0 ≡ ok issued
unfolding issue validate_scope is_blank add_token hex
is_issued = refl

AreBytes-of : (xs : Bytes) → all (λ x. ltb x 256) xs ≡ true → AreBytes xs
unfolding AreBytes
AreBytes-of [] h = tt
AreBytes-of (x ∷ xs) h = (ground arith, AreBytes-of xs (ground arith))

hash-AreBytes : AreBytes (hash checksum issued.token)
unfolding hash hex
hash-AreBytes = AreBytes-of (hash checksum issued.token) refl

none-IsFree : IsFree (hash checksum issued.token) nobody.tokens
unfolding IsFree
none-IsFree = tt

issue-authorize_example :
    authorize checksum
      (issue vault checksum scope (some (1 ∷ [])) (some (255 ∷ [])) nobody).1.tokens
      issued.token
    ≡ some (record { id = text "01"; scope = scope })
issue-authorize_example =
    issue-authorize vault checksum scope (some (1 ∷ [])) (some (255 ∷ [])) nobody issued
      hash-AreBytes none-IsFree is_issued

abbrev token : Text → StoredAgentToken
token id = record { id = id; token_hash = text "00"; scope = scope }

abbrev two : Bool → AgentTokens vault
two writable = record {
  backing = (writable, []);
  tokens =
      (text "01", token (text "01"))
      ∷ (text "02", record (token (text "02")) { token_hash = hash checksum (text "b") })
      ∷ [];
}

two-IsKeyed : (writable : Bool) → IsKeyed (two writable).tokens
unfolding IsKeyed
two-IsKeyed writable = (refl, (refl, tt))

revoked : (revoke vault (text "01") (two true)).0 ≡ ok true
unfolding revoke get remove text_eq
revoked = refl

lets_in :
    authorize checksum (revoke vault (text "01") (two true)).1.tokens (text "b")
    ≡ some (record { id = text "02"; scope = scope })
unfolding authorize hash revoke get remove text_eq constant_time_eq hex find_token
lets_in = refl

revoke-authorize_example : text "02" ≢ text "01"
revoke-authorize_example =
    revoke-authorize vault checksum (text "01") (text "b") (two true)
      (record { id = text "02"; scope = scope }) (two-IsKeyed true) revoked lets_in

fails_to_save : (revoke vault (text "01") (two false)).0 ≡ err (token_store (io (os 30)))
unfolding revoke get remove text_eq
fails_to_save = refl

-- A submission of one file to a trusted peer.
abbrev pub agent : AuthorizedAgent
agent = record { id = text "01"; scope = scope }

abbrev pub order : TransferRequest
order = record {
  peer_id = text "desk";
  source_folder_id = text "notes";
  source_paths = text "note.txt" ∷ [];
  destination_folder_id = text "inbox";
  idempotency_key = text "k1";
}

abbrev peers : List PeerRecord
peers =
    record {
      advertisement = record { id = text "desk"; alias = []; address = []; api_version = 1 };
      trusted = true;
    }
    ∷ []

abbrev pub engine : TransferEngine
engine = record {
  folders = (text "notes", record { root = text "/in"; direction = FolderDirection.read }) ∷ [];
  completed = [];
}

abbrev pub no_transfers : AgentTransferStateStore
no_transfers = record { next_id = 0; transfers = [] }

abbrev accepted_as : AgentTransferStatus
accepted_as = record { transfer_id = text "local-1"; state = submitted; error = none }

allowed : authorize_submission memory disk agent order peers engine ≡ ok tt
unfolding authorize_submission allows_peer text_eq allows_folder validate_submission
    Request.validate is_blank get resolve validate_relative components check_direction render join
    ensure_beneath starts_with
allowed = refl

accepted : (submit memory disk agent order peers engine no_transfers).0 ≡ ok accepted_as
unfolding submit allows_peer text_eq allows_folder validate_submission Request.validate is_blank get
    resolve validate_relative components check_direction render join ensure_beneath starts_with
accepted = refl

submit-IsPermitted_example : IsPermitted memory disk agent order peers engine
submit-IsPermitted_example =
    submit-IsPermitted memory disk agent order peers engine no_transfers accepted_as accepted

submit-again_example :
    submit memory disk agent order peers engine
      (submit memory disk agent order peers engine no_transfers).1
    ≡ (ok accepted_as, (submit memory disk agent order peers engine no_transfers).1)
submit-again_example =
    submit-again memory agent disk disk order order peers peers engine engine no_transfers
      accepted_as refl allowed accepted

abbrev done : AgentTransfer
done = record {
  status = record { transfer_id = local_id 1; state = cancelled; error = none };
  actor_id = text "01";
  idempotency_key = text "k1";
}

abbrev one_done : AgentTransferStateStore
one_done = record { next_id = 1; transfers = (local_id 1, done) ∷ [] }

one-IsNumbered : IsNumbered one_done
unfolding IsNumbered get
one-IsNumbered k t e = (1, omega arith, ground (arith, text_eq_iff (local_id 1) k))

there : get one_done.transfers (local_id 1) ≡ some done
unfolding get text_eq local_id decimal
there = refl

not_submitted : done.status.state ≢ submitted
not_submitted e = cc e

abbrev actions : List (AuthorizedAgent × Action)
actions = (agent, completes (local_id 1)) ∷ (agent, enters (text "k2")) ∷ []

acts-settled_example :
    (t : AgentTransfer) × (get (acts actions one_done).transfers (local_id 1) ≡ some t)
    × (t.status ≡ done.status)
    × (t.actor_id ≡ text "01")
acts-settled_example =
    acts-settled actions one_done (local_id 1) done one-IsNumbered (omega arith) there not_submitted

abbrev loaded : AgentTokens vault
loaded = record {
  backing = (false, token (text "07") ∷ []);
  tokens = (text "07", token (text "07")) ∷ [];
}

loads : load vault (false, token (text "07") ∷ []) ≡ ok loaded
unfolding load insert
loads = refl

abbrev token_calls : List Keyed.Call
token_calls = Keyed.revokes (text "07") ∷ Keyed.issues scope (some (1 ∷ [])) (some (2 ∷ [])) ∷ []

calls-IsKeyed_example : IsKeyed (Keyed.calls vault checksum token_calls loaded).tokens
calls-IsKeyed_example =
    Keyed.calls-IsKeyed vault checksum (false, token (text "07") ∷ []) loaded token_calls loads
