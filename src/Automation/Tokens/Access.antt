-- ===== src/Automation/Tokens/Access.antt =====
-- Whom a bearer token lets in.
use agent_send.Base.{
  Text, Bytes, [], ◌∷◌, true, false, Option, some, ◌≡◌, ◌≢◌, inl, inr, Option-cases, refl, arith,
  All, ◌==◌, Text_eq, text_eq_iff, Bool-cases,
}
use agent_send.Base.Result.{ok, err}
use agent_send.Base.Map.{Map, get, insert, remove, values, get-insert, get-remove}
use agent_send.Core.Os.{Sha256}
use agent_send.Automation.Types.{
  AgentScope, IssuedAgentToken, StoredAgentToken, AutomationError, AuthorizedAgent,
}
use agent_send.Automation.Compare.{constant_time_eq, AreBytes, constant_time_eq_iff}
use agent_send.Automation.Tokens.{
  hash, find_token, authorize, AgentTokenStore, AgentTokens, issue, revoke, make_token, add_token,
}

-- Every stored token stands under its own identifier.
unfoldable pub IsKeyed : Map StoredAgentToken → Type 0
IsKeyed m = All (λ (e : Text × StoredAgentToken). e.1.id ≡ e.0) m

-- No token of the map has this hash.
unfoldable pub IsFree : Text → Map StoredAgentToken → Type 0
IsFree h m = All (λ (e : Text × StoredAgentToken). constant_time_eq e.1.token_hash h ≡ false) m

pub IsKeyed-insert :
    (m : Map StoredAgentToken) (t : StoredAgentToken) → IsKeyed m → IsKeyed (insert m t.id t)
unfolding IsKeyed insert
IsKeyed-insert [] t h = (refl, tt)
IsKeyed-insert ((j, u) ∷ m) t h = ground (arith, h.0, h.1, IsKeyed-insert m t h.1)

-- A token that is inserted is found by its hash if no other token has that hash.
find-insert :
    (m : Map StoredAgentToken) (t : StoredAgentToken) (k h : Text)
    → IsFree h m
    → constant_time_eq t.token_hash h ≡ true
    → find_token (values (insert m k t)) h ≡ some (record { id = t.id; scope = t.scope })
unfolding IsFree insert find_token
find-insert [] t k h free same = ground arith
find-insert ((j, u) ∷ m) t k h free same = ground (arith, free.0, find-insert m t k h free.1 same)

-- No token that is left stands under the identifier.
IsGone : Text → Map StoredAgentToken → Type 0
IsGone id m = All (λ (e : Text × StoredAgentToken). e.1.id ≢ id) m

remove-IsGone : (m : Map StoredAgentToken) (id : Text) → IsKeyed m → IsGone id (remove m id)
unfolding IsKeyed IsGone remove
remove-IsGone [] id h = tt
remove-IsGone ((j, u) ∷ m) id h = elim (Bool-cases (j == id)) [
  | inl same ↦ rw same (remove-IsGone m id h.1)
  | inr other ↦ rw other ((λ e. ground (arith, h.0, text_eq_iff j id)), remove-IsGone m id h.1)
]

find-IsGone :
    (m : Map StoredAgentToken) (id h : Text) (agent : AuthorizedAgent)
    → IsGone id m
    → find_token (values m) h ≡ some agent
    → agent.id ≢ id
unfolding IsGone find_token
find-IsGone [] id h agent gone e f = ground arith
find-IsGone ((j, u) ∷ m) id h agent gone e f = elim (Bool-cases (constant_time_eq u.token_hash h)) [
  | inl same ↦ gone.0 (ground arith)
  | inr other ↦ find-IsGone m id h agent gone.1 (ground arith) f
]

module _ (store : AgentTokenStore) where
  -- What a successful `issue` leaves.
  issue-tokens :
      (sha : Sha256) (scope : AgentScope) (id_bytes token_bytes : Option Bytes)
      (a : AgentTokens store) (issued : IssuedAgentToken)
      → (issue store sha scope id_bytes token_bytes a).0 ≡ ok issued
      → (issue store sha scope id_bytes token_bytes a).1.tokens
        ≡ insert a.tokens issued.id
            (record { id = issued.id; token_hash = hash sha issued.token; scope = scope })
  unfolding issue make_token add_token
  issue-tokens sha scope id_bytes token_bytes a issued h = ground arith

  revoke-tokens :
      (id : Text) (a : AgentTokens store)
      → (revoke store id a).0 ≡ ok true
      → (revoke store id a).1.tokens ≡ remove a.tokens id
  unfolding revoke
  revoke-tokens id a h = ground arith

  revoke-restored :
      (id : Text) (a : AgentTokens store) {e : AutomationError}
      → (revoke store id a).0 ≡ err e
      → (t : StoredAgentToken) × (get a.tokens id ≡ some t)
        × ((revoke store id a).1.tokens ≡ insert (remove a.tokens id) id t)
  unfolding revoke
  revoke-restored id a h = elim (Option-cases (get a.tokens id)) [
    | inl e ↦ ground arith
    | inr (t, e) ↦ (t, e, ground arith)
  ]

  -- Revoking that fails, because the store cannot be written, leaves every token in place.
  pub revoke-rollback :
      (id k : Text) (a : AgentTokens store) (e : AutomationError)
      → (revoke store id a).0 ≡ err e
      → get (revoke store id a).1.tokens k ≡ get a.tokens k
  revoke-rollback id k a e h =
      let (t, there, after) = revoke-restored id a h in
      rw after (
        ground (
          arith,
          there,
          text_eq_iff id k,
          get-insert (remove a.tokens id) id k t,
          get-remove a.tokens id k,
        ))

  module _ (sha : Sha256) where
    -- A token that is issued lets its holder in at once, under the identifier and the scope that
    -- were issued, if its hash is a list of bytes and no stored token has the same hash.
    pub issue-authorize :
        (scope : AgentScope) (id_bytes token_bytes : Option Bytes) (a : AgentTokens store)
        (issued : IssuedAgentToken)
        → AreBytes (hash sha issued.token)
        → IsFree (hash sha issued.token) a.tokens
        → (issue store sha scope id_bytes token_bytes a).0 ≡ ok issued
        → authorize sha (issue store sha scope id_bytes token_bytes a).1.tokens issued.token
          ≡ some (record { id = issued.id; scope = scope })
    unfolding authorize
    issue-authorize scope id_bytes token_bytes a issued bytes free h =
        rw (issue-tokens sha scope id_bytes token_bytes a issued h) (
          find-insert a.tokens _ issued.id (hash sha issued.token) free
            ((constant_time_eq_iff _ _ bytes bytes).1 refl))

    -- Once a token is revoked, no bearer token lets anybody in under its identifier, if every
    -- stored token stood under its own identifier.
    pub revoke-authorize :
        (id token : Text) (a : AgentTokens store) (agent : AuthorizedAgent)
        → IsKeyed a.tokens
        → (revoke store id a).0 ≡ ok true
        → authorize sha (revoke store id a).1.tokens token ≡ some agent
        → agent.id ≢ id
    unfolding authorize
    revoke-authorize id token a agent keyed h e =
        find-IsGone (remove a.tokens id) id (hash sha token) agent (remove-IsGone a.tokens id keyed)
          (rw (revoke-tokens id a h) at e)
