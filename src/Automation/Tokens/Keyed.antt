-- ===== src/Automation/Tokens/Keyed.antt =====
-- Every stored token stands under its own identifier, from `load` on.
use agent_send.Base.{
  Text, Bytes, List, [], ◌∷◌, true, Option, none, some, ◌≡◌, inl, inr, refl, arith, sym, subst,
  Text_eq, text_eq_iff,
}
use agent_send.Base.Result.{Result, ok, err, Result-cases}
use agent_send.Base.Map.{Map, get, insert, remove, values}
use agent_send.Core.Os.{Sha256}
use agent_send.Automation.Types.{
  AgentScope, StoredAgentToken, IssuedAgentToken, TokenStoreError, AutomationError,
}
use agent_send.Automation.Tokens.{
  AgentTokenStore, AgentTokens, by_id, load, keep, add_token, add_made, make_token, issue, revoke,
  revoke_found,
}
use agent_send.Automation.Tokens.Access.{IsKeyed, IsKeyed-insert}

IsKeyed-remove : (m : Map StoredAgentToken) (id : Text) → IsKeyed m → IsKeyed (remove m id)
unfolding IsKeyed remove
IsKeyed-remove [] id h = tt
IsKeyed-remove ((j, t) ∷ m) id h = ground (arith, h.0, h.1, IsKeyed-remove m id h.1)

IsKeyed-get :
    (m : Map StoredAgentToken) (id : Text) (t : StoredAgentToken)
    → IsKeyed m
    → get m id ≡ some t
    → t.id ≡ id
unfolding IsKeyed get
IsKeyed-get [] id t h e = ground arith
IsKeyed-get ((j, u) ∷ m) id t h e = ground (arith, text_eq_iff j id, h.0, IsKeyed-get m id t h.1)

IsKeyed-by_id :
    (found : List StoredAgentToken) (m : Map StoredAgentToken) → IsKeyed m → IsKeyed (by_id found m)
unfolding by_id
IsKeyed-by_id [] m h = h
IsKeyed-by_id (t ∷ rest) m h = IsKeyed-by_id rest (insert m t.id t) (IsKeyed-insert m t h)

-- The calls on the tokens.
pub data Call : Type 0 where
  issues : AgentScope → (id_bytes token_bytes : Option Bytes) → Call
  revokes : Text → Call

module _ (store : AgentTokenStore) (sha : Sha256) where
  pub call : Call → AgentTokens store → AgentTokens store
  call (issues scope id_bytes token_bytes) a = (issue store sha scope id_bytes token_bytes a).1
  call (revokes id) a = (revoke store id a).1

  pub calls : List Call → AgentTokens store → AgentTokens store
  calls [] a = a
  calls (c ∷ cs) a = calls cs (call c a)

  keep-IsKeyed :
      {A : Type 0} (x : A) (new old : Map StoredAgentToken)
      (saved : Result TokenStoreError (Unit {0}) × store.Store)
      → IsKeyed new
      → IsKeyed old
      → IsKeyed (keep store x new old saved).1.tokens
  keep-IsKeyed x new old (ok u, s) h k = h
  keep-IsKeyed x new old (err e, s) h k = k

  add_made-IsKeyed :
      (made : Result AutomationError (StoredAgentToken × IssuedAgentToken)) (a : AgentTokens store)
      → IsKeyed a.tokens
      → IsKeyed (add_made store made a).1.tokens
  unfolding add_token
  add_made-IsKeyed (ok (t, issued)) a h =
      let added = IsKeyed-insert a.tokens t h in
      keep-IsKeyed issued _ _ (store.save (values (insert a.tokens t.id t)) a.backing) added
        (IsKeyed-remove (insert a.tokens t.id t) t.id added)
  add_made-IsKeyed (err e) a h = h

  revoke_found-IsKeyed :
      (id : Text) (o : Option StoredAgentToken) (a : AgentTokens store)
      → get a.tokens id ≡ o
      → IsKeyed a.tokens
      → IsKeyed (revoke_found store id o a).1.tokens
  unfolding revoke_found
  revoke_found-IsKeyed id none a e h = h
  revoke_found-IsKeyed id (some t) a e h =
      let left = IsKeyed-remove a.tokens id h in
      let same = IsKeyed-get a.tokens id t h e in
      keep-IsKeyed true _ _ (store.save (values (remove a.tokens id)) a.backing) left (
        subst (λ k. IsKeyed (insert (remove a.tokens id) k t)) same
          (IsKeyed-insert (remove a.tokens id) t left))

  call-IsKeyed : (c : Call) (a : AgentTokens store) → IsKeyed a.tokens → IsKeyed (call c a).tokens
  unfolding call issue revoke
  call-IsKeyed (issues scope id_bytes token_bytes) a h =
      add_made-IsKeyed (make_token store sha scope id_bytes token_bytes) a h
  call-IsKeyed (revokes id) a h = revoke_found-IsKeyed id (get a.tokens id) a refl h

  kept_by_calls :
      (cs : List Call) (a : AgentTokens store) → IsKeyed a.tokens → IsKeyed (calls cs a).tokens
  unfolding calls
  kept_by_calls [] a h = h
  kept_by_calls (c ∷ cs) a h = kept_by_calls cs (call c a) (call-IsKeyed c a h)

  load-tokens :
      (s : store.Store) (a : AgentTokens store)
      → load store s ≡ ok a
      → (found : List StoredAgentToken) × (a.tokens ≡ by_id found [])
  unfolding load
  load-tokens s a h = elim (Result-cases (store.load_tokens s)) [
    | inl (found, e) ↦ (found, ground arith)
    | inr (x, e) ↦ ground arith
  ]

  load-IsKeyed : (s : store.Store) (a : AgentTokens store) → load store s ≡ ok a → IsKeyed a.tokens
  unfolding IsKeyed
  load-IsKeyed s a h =
      let (found, e) = load-tokens s a h in subst IsKeyed (sym e) (IsKeyed-by_id found [] tt)

  -- Whatever a store holds, and whatever is issued and revoked after it is loaded, every stored
  -- token stands under its own identifier, whether the changes can be saved or not.
  pub calls-IsKeyed :
      (s : store.Store) (a : AgentTokens store) (cs : List Call)
      → load store s ≡ ok a
      → IsKeyed (calls cs a).tokens
  calls-IsKeyed s a cs h = kept_by_calls cs a (load-IsKeyed s a h)
