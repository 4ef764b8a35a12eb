-- ===== src/Automation/Submissions/History.antt =====
-- Histories of actions on the submissions.
use agent_send.Base.{
  ◌+◌, ◌<◌, ◌≤◌, Text, List, [], ◌∷◌, Option, none, some, ◌≡◌, ◌≢◌, inl, inr, refl, arith, length,
  ◌==◌, Text_eq, text_eq_iff, Bool-cases, Option-cases, ◌∙◌,
}
use agent_send.Base.Map.{get, insert, values, get-insert}
use agent_send.Limits.{u64_mod}
use agent_send.Automation.Types.{
  AuthorizedAgent, AgentTransferState, submitted, completed, failed, AgentTransfer,
}
use agent_send.Automation.Submissions.{
  AgentTransferStateStore, local_id, find_existing, enter, update_result, cancel, complete, fail,
}
use agent_send.Automation.Submissions.Lifecycle.{
  Action, enters, completes, fails, cancels, act, IsNumbered, unnumber, Kept, act-KeptIn,
  enter-existing, enter-new, entry,
}

module _ (actor : AuthorizedAgent) (s : AgentTransferStateStore) (numbered : IsNumbered s) where
  -- An action keeps the numbering, and gives out one number at most.
  record Steps (s' : AgentTransferStateStore) : Type 0 where
    numbers : IsNumbered s'
    next : s'.next_id ≤ s.next_id + 1

  known :
      (s' : AgentTransferStateStore)
      → s'.next_id ≡ s.next_id
      → ((k : Text) → get s.transfers k ≡ none → get s'.transfers k ≡ none)
      → Steps s'
  unfolding IsNumbered
  known s' same absent = record {
    numbers = λ k t e. elim (Option-cases (get s.transfers k)) [
      | inl gone ↦ absurd (clash (absent k gone) e)
      | inr (u, there) ↦
          let (n, below, name) = unnumber s numbered k u there in
          (n, omega (arith, below, same), name)
    ];
    next = omega (arith, same);
  }
    where
      clash : {o : Option AgentTransfer} {t : AgentTransfer} → o ≡ none → o ≡ some t → ⊥
      clash e f = cc (e, f)

  update-Steps :
      (id : Text) (state : AgentTransferState) (error : Option Text)
      → Steps (update_result actor id state error s).1
  unfolding update_result
  update-Steps id state error =
      known _ (ground arith) (λ k gone. grind (arith, get-insert, text_eq_iff))

  cancel-Steps : (id : Text) → Steps (cancel actor id s).1
  unfolding cancel
  cancel-Steps id = known _ (ground arith) (λ k gone. grind (arith, get-insert, text_eq_iff))

  new-Steps :
      (key : Text)
      → Steps (record {
        next_id = s.next_id + 1;
        transfers =
            insert s.transfers (local_id (s.next_id + 1)) (entry actor.id key (s.next_id + 1));
      })
  unfolding IsNumbered
  new-Steps key = record {
    numbers = λ k t e. elim (Bool-cases (local_id (s.next_id + 1) == k)) [
      | inl same ↦
          (s.next_id + 1, omega arith, ground (arith, text_eq_iff (local_id (s.next_id + 1)) k))
      | inr other ↦
          let there : get s.transfers k ≡ some t = ground (
            arith,
            get-insert s.transfers (local_id (s.next_id + 1)) k
                (entry actor.id key (s.next_id + 1)),
          ) in
          let (n, below, name) = unnumber s numbered k t there in (n, omega (arith, below), name)
    ];
    next = omega arith;
  }

  enter-Steps : (key : Text) → s.next_id + 1 < u64_mod → Steps (enter actor.id key s).1
  enter-Steps key room = elim (Option-cases (find_existing (values s.transfers) actor.id key)) [
    | inr (status, e) ↦ rw (enter-existing actor.id key s e) (known s refl (λ k gone. gone))
    | inl e ↦ rw (enter-new actor.id key s e room) (new-Steps key)
  ]

  act-Steps : (a : Action) → s.next_id + 1 < u64_mod → Steps (act actor a s)
  unfolding act complete fail
  act-Steps (enters key) room = enter-Steps key room
  act-Steps (completes id) room = update-Steps id completed none
  act-Steps (fails id error) room = update-Steps id failed (some error)
  act-Steps (cancels id) room = cancel-Steps id

-- The actions of agents, one after the other.
pub acts : List (AuthorizedAgent × Action) → AgentTransferStateStore → AgentTransferStateStore
acts [] s = s
acts ((actor, a) ∷ rest) s = acts rest (act actor a s)

-- A transfer that is completed, failed or cancelled keeps its owner and its status through any
-- later actions of any agents, if the transfers are numbered and the numbers last.
pub acts-settled :
    (calls : List (AuthorizedAgent × Action)) (s : AgentTransferStateStore) (k : Text)
    (t : AgentTransfer)
    → IsNumbered s
    → s.next_id + length calls < u64_mod
    → get s.transfers k ≡ some t
    → t.status.state ≢ submitted
    → (t' : AgentTransfer) × (get (acts calls s).transfers k ≡ some t')
      × (t'.status ≡ t.status)
      × (t'.actor_id ≡ t.actor_id)
unfolding acts
acts-settled [] s k t numbered room there settled = (t, there, refl, refl)
acts-settled ((actor, a) ∷ rest) s k t numbered room there settled =
    let (t1, there1, kept) = act-KeptIn actor s k t there a numbered (omega arith) in
    let steps = act-Steps actor s numbered a (omega arith) in
    let status : t1.status ≡ t.status = unchanged kept in
    let (t2, there2, same, owner) =
      acts-settled rest (act actor a s) k t1 steps.numbers (omega (arith, steps.next)) there1
        (λ e. settled (cc (e, status))) in
    (t2, there2, same ∙ status, owner ∙ kept.owner)
  where
    unchanged : {t1 : AgentTransfer} → Kept actor.id t t1 → t1.status ≡ t.status
    unchanged kept = elim kept.status [ inl same ↦ same | inr changed ↦ absurd (settled changed.0) ]
