-- ===== src/Automation/Audit.antt =====
-- `AuditLog` of crates/agent-send-daemon/src/automation.rs. The clock is the argument `timestamp_ms`.
use agent_send.Base.{
  ℕ, Text, text, List, [], ◌∷◌, ◌++◌, map, Option, none, some, if◌then◌else◌, ◌==◌, Text_eq, any,
  true, ◌≡◌,
}
use agent_send.Core.Os.{Sha256}
use agent_send.Hex.{hex}
use agent_send.Automation.Tokens.{hash}

pub record AuditEntry : Type 0 where
  pub timestamp_ms : ℕ
  pub actor_id : Text
  pub operation : Text
  pub peer_id : Option Text
  pub folder_ids : List Text
  pub transfer_id : Option Text
  pub result : Text

-- The arms of `audit_operation` and of `audit_result` that keep the text.
abbrev pub operations : List Text
operations =
    text "peers.list"
    ∷ text "folders.list"
    ∷ text "transfers.submit"
    ∷ text "transfers.send"
    ∷ text "transfers.status"
    ∷ text "transfers.cancel"
    ∷ text "invalid_request"
    ∷ []

abbrev pub results : List Text
results = text "ok" ∷ text "denied" ∷ []

abbrev keep : List Text → Text → Text
keep known t = if any (λ k. k == t) known then t else text "unknown"

-- `audit_operation`
unfoldable pub audit_operation : Text → Text
audit_operation operation = keep operations operation

-- `audit_result`
unfoldable pub audit_result : Text → Text
audit_result result = keep results result

abbrev map_option : (Text → Text) → Option Text → Option Text
map_option f none = none
map_option f (some a) = some (f a)

module _ (sha : Sha256) where
  -- `redact_audit_identifier`
  unfoldable pub redact_audit_identifier : Text → Text
  redact_audit_identifier value = text "redacted:" ++ hash sha value

  -- `AuditLog::record`
  unfoldable pub append :
      List AuditEntry
      → ℕ
      → Text
      → Text
      → Option Text
      → List Text
      → Option Text
      → Text
      → List AuditEntry
  unfolding redact_audit_identifier audit_operation audit_result
  append log timestamp_ms actor_id operation peer_id folder_ids transfer_id result =
      log
      ++ (record {
        timestamp_ms = timestamp_ms;
        actor_id = redact_audit_identifier actor_id;
        operation = audit_operation operation;
        peer_id = map_option redact_audit_identifier peer_id;
        folder_ids = map redact_audit_identifier folder_ids;
        transfer_id = map_option redact_audit_identifier transfer_id;
        result = audit_result result;
      }
          ∷ [])

-- An operation or a result of an entry: a word of the list, or `unknown`.
abbrev IsKnown : List Text → Text → Type 0
IsKnown known t = any (λ k. k == t) (text "unknown" ∷ known) ≡ true

module _ (sha : Sha256) where
  -- The text says that it is redacted, and shows the SHA-256 digest of the identifier.
  abbrev pub Digests : (identifier shown : Text) → Type 0
  Digests identifier shown =
      shown ≡ text "redacted:" ++ hex (sha.finalize (sha.update sha.new identifier))

  -- A digest for each identifier, and none where there is none.
  abbrev pub DigestsEach : (identifiers shown : List Text) → Type 0
  DigestsEach [] [] = Unit
  DigestsEach (i ∷ is) (t ∷ ts) = Digests i t × DigestsEach is ts
  DigestsEach _ _ = ⊥

  abbrev pub DigestsOption : (identifier shown : Option Text) → Type 0
  DigestsOption none none = Unit
  DigestsOption (some i) (some t) = Digests i t
  DigestsOption _ _ = ⊥

  -- An entry about some identifiers: words of the fixed lists, and the digest of each identifier.
  pub record IsRedacted (actor_id : Text) (peer_id : Option Text) (folder_ids : List Text)
      (transfer_id : Option Text) (e : AuditEntry) : Type 0 where
    pub operation : IsKnown operations e.operation
    pub result : IsKnown results e.result
    pub actor : Digests actor_id e.actor_id
    pub peer : DigestsOption peer_id e.peer_id
    pub folders : DigestsEach folder_ids e.folder_ids
    pub transfer : DigestsOption transfer_id e.transfer_id
