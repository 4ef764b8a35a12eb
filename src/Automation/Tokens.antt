-- ===== src/Automation/Tokens.antt =====
-- `AgentTokens` of crates/agent-send-daemon/src/automation.rs. The token store is a parameter: its
-- two methods may fail. Random bytes are arguments, `none` where `getrandom` fails.
pub mod Access
pub mod Keyed
use agent_send.Base.{
  Text, text, Bytes, List, [], ◌∷◌, ◌++◌, Bool, true, false, Option, none, some, if◌then◌else◌,
}
use agent_send.Base.Result.{Result, ok, err, ok_or, map_err, ◌>>=◌, ◌>>◌}
use agent_send.Base.Map.{Map, get, insert, remove, values}
use agent_send.Core.Os.{Sha256}
use agent_send.Hex.{hex}
use agent_send.Automation.Types.{
  AgentScope, IssuedAgentToken, StoredAgentToken, TokenStoreError, AutomationError, random,
  token_store, AuthorizedAgent, validate_scope,
}
use agent_send.Automation.Compare.{constant_time_eq}

-- `AgentTokenStore`
pub record AgentTokenStore : Type 1 where
  pub Store : Type 0
  pub load_tokens : Store → Result TokenStoreError (List StoredAgentToken)
  pub save : List StoredAgentToken → Store → Result TokenStoreError (Unit {0}) × Store

-- `random_hex` of the bytes that `getrandom` gives
unfoldable pub random_hex : Option Bytes → Result AutomationError Text
random_hex bytes = ok_or bytes random >>= λ b. ok (hex b)

unfoldable pub by_id : List StoredAgentToken → Map StoredAgentToken → Map StoredAgentToken
by_id [] m = m
by_id (t ∷ rest) m = by_id rest (insert m t.id t)

-- The `find_map` of `authorize`
unfoldable pub find_token : List StoredAgentToken → Text → Option AuthorizedAgent
find_token [] token_hash = none
find_token (stored ∷ rest) token_hash =
    if constant_time_eq stored.token_hash token_hash
    then some (record { id = stored.id; scope = stored.scope })
    else find_token rest token_hash

module _ (sha : Sha256) where
  -- `hash`
  unfoldable pub hash : Text → Text
  hash value = hex (sha.finalize (sha.update sha.new value))

  -- `AgentTokens::authorize`
  unfoldable pub authorize : Map StoredAgentToken → Text → Option AuthorizedAgent
  unfolding find_token hash
  authorize tokens token = find_token (values tokens) (hash token)

module _ (store : AgentTokenStore) where
  -- `AgentTokens`
  pub record AgentTokens : Type 0 where
    pub backing : store.Store
    pub tokens : Map StoredAgentToken

  -- `AgentTokens::load`
  unfoldable pub load : store.Store → Result AutomationError AgentTokens
  unfolding by_id
  load s = map_err token_store (store.load_tokens s) >>= λ found.
      ok (record { backing = s; tokens = by_id found [] })

  abbrev pub Tokens : Type 0 → Type 0
  Tokens A = AgentTokens → Result AutomationError A × AgentTokens

  -- What is left after `persist`: the new map if it was saved, and the old one if not.
  abbrev keep :
      {A : Type 0}
      → A
      → Map StoredAgentToken
      → Map StoredAgentToken
      → Result TokenStoreError (Unit {0}) × store.Store
      → Result AutomationError A × AgentTokens
  keep a new old (ok u, s) = (ok a, record { backing = s; tokens = new })
  keep a new old (err e, s) = (err (token_store e), record { backing = s; tokens = old })

  -- The insertion of `issue`, with its rollback
  unfoldable pub add_token : {A : Type 0} → StoredAgentToken → A → Tokens A
  add_token stored issued a =
      let added = insert a.tokens stored.id stored in
      keep issued added (remove added stored.id) (store.save (values added) a.backing)

  unfoldable pub make_token :
      Sha256
      → AgentScope
      → Option Bytes
      → Option Bytes
      → Result AutomationError (StoredAgentToken × IssuedAgentToken)
  unfolding hash random_hex
  make_token sha scope id_bytes token_bytes = do
    validate_scope scope
    id ← random_hex id_bytes
    secret ← random_hex token_bytes
    ok (
      record { id = id; token_hash = hash sha (text "agent_" ++ secret); scope = scope },
      record { id = id; token = text "agent_" ++ secret; scope = scope },
    )

  abbrev add_made :
      Result AutomationError (StoredAgentToken × IssuedAgentToken) → Tokens IssuedAgentToken
  add_made (ok made) a = add_token made.0 made.1 a
  add_made (err e) a = (err e, a)

  -- `AgentTokens::issue`
  unfoldable pub issue : Sha256 → AgentScope → Option Bytes → Option Bytes → Tokens IssuedAgentToken
  unfolding make_token
  issue sha scope id_bytes token_bytes = add_made (make_token sha scope id_bytes token_bytes)

  unfoldable pub revoke_found : Text → Option StoredAgentToken → Tokens Bool
  revoke_found id none a = (ok false, a)
  revoke_found id (some removed) a =
      let left = remove a.tokens id in
      keep true left (insert left id removed) (store.save (values left) a.backing)

  -- `AgentTokens::revoke`
  unfoldable pub revoke : Text → Tokens Bool
  unfolding revoke_found
  revoke id a = revoke_found id (get a.tokens id) a
