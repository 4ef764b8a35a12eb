-- ===== src/Automation/Submissions/Lifecycle.antt =====
-- The life of a submission: who may settle it, and that it is settled once.
use agent_send.Base.{
  ℕ, ◌+◌, ◌<◌, ◌≤◌, Text, [], ◌∷◌, Option, none, some, ◌≡◌, ◌≢◌, ◌⊎◌, inl, inr, refl, arith, ◌==◌,
  Text_eq, text_eq_iff, Bool-cases, Option-cases, text_eq_refl, ◌∙◌,
}
use agent_send.Base.Result.{ok}
use agent_send.Base.Map.{Map, get, insert, values, get-insert}
use agent_send.Base.Decimal.{decimal-injective}
use agent_send.Limits.{u64_mod}
use agent_send.Transfer.Types.{add64}
use agent_send.Automation.Types.{
  AuthorizedAgent, AgentTransferState, submitted, completed, failed, AgentTransferStatus,
  AgentTransfer,
}
use agent_send.Automation.Submissions.{
  AgentTransferStateStore, local_id, find_existing, enter, update_result, cancel, complete, fail,
  settle, settle_cancelled, is_submitted,
}

pub data Action : Type 0 where
  enters : (key : Text) → Action
  completes : (transfer_id : Text) → Action
  fails : (transfer_id error : Text) → Action
  cancels : (transfer_id : Text) → Action

-- An agent's action on the store. `enters` is a submission that has been authorized.
unfoldable pub act : AuthorizedAgent → Action → AgentTransferStateStore → AgentTransferStateStore
act actor (enters key) s = (enter actor.id key s).1
act actor (completes transfer_id) s = (complete actor transfer_id s).1
act actor (fails transfer_id error) s = (fail actor transfer_id error s).1
act actor (cancels transfer_id) s = (cancel actor transfer_id s).1

-- The identifiers that have been given out: the numbers up to the last one.
unfoldable pub IsNumbered : AgentTransferStateStore → Type 0
IsNumbered s =
    (k : Text) (t : AgentTransfer)
    → get s.transfers k ≡ some t
    → (n : ℕ) × (n ≤ s.next_id) × (k ≡ local_id n)

pub local_id-injective : (m n : ℕ) → local_id m ≡ local_id n → m ≡ n
unfolding local_id
local_id-injective m n e = decimal-injective m n cc

-- The transfer is the same, or its owner was the one who settled it, which nobody had done before.
pub record Kept (caller : Text) (t t' : AgentTransfer) : Type 0 where
  pub owner : t'.actor_id ≡ t.actor_id
  pub key : t'.idempotency_key ≡ t.idempotency_key
  pub status : (t'.status ≡ t.status) ⊎ ((t.status.state ≡ submitted) × (t.actor_id ≡ caller))

-- A new transfer.
abbrev pub entry : Text → Text → ℕ → AgentTransfer
entry actor_id key n = record {
  status = record { transfer_id = local_id n; state = submitted; error = none };
  actor_id = actor_id;
  idempotency_key = key;
}

pub enter-existing :
    (actor_id key : Text) (s : AgentTransferStateStore) {status : AgentTransferStatus}
    → find_existing (values s.transfers) actor_id key ≡ some status
    → enter actor_id key s ≡ (ok status, s)
unfolding enter
enter-existing actor_id key s e = ground arith

pub enter-new :
    (actor_id key : Text) (s : AgentTransferStateStore)
    → find_existing (values s.transfers) actor_id key ≡ none
    → s.next_id + 1 < u64_mod
    → (enter actor_id key s).1 ≡ record {
      next_id = s.next_id + 1;
      transfers =
          insert s.transfers (local_id (s.next_id + 1)) (entry actor_id key (s.next_id + 1));
    }
unfolding enter
enter-new actor_id key s e room =
    let sum : add64 s.next_id 1 ≡ s.next_id + 1 = omega arith in ground arith

pub unnumber :
    (s : AgentTransferStateStore)
    → IsNumbered s
    → (k : Text) (t : AgentTransfer) → get s.transfers k ≡ some t
    → (n : ℕ) × (n ≤ s.next_id) × (k ≡ local_id n)
unfolding IsNumbered
unnumber s h = h

module _ (actor : AuthorizedAgent) (s : AgentTransferStateStore) (k : Text) (t : AgentTransfer)
    (there : get s.transfers k ≡ some t) where
  -- What has become of the transfer.
  abbrev KeptIn : AgentTransferStateStore → Type 0
  KeptIn s' = (t' : AgentTransfer) × (get s'.transfers k ≡ some t') × Kept actor.id t t'

  same-Kept : Kept actor.id t t
  same-Kept = record { owner = refl; key = refl; status = inl refl }

  settle-status :
      (state : AgentTransferState) (error : Option Text)
      → t.actor_id ≡ actor.id
      → Kept actor.id t (record t { status = settle state error t.status })
  unfolding settle
  settle-status state error mine = elim (Bool-cases (is_submitted t.status.state)) [
    | inl live ↦ record { owner = refl; key = refl; status = inr (ground arith, mine) }
    | inr settled ↦ record { owner = refl; key = refl; status = inl (ground arith) }
  ]

  cancel-status :
      t.actor_id ≡ actor.id → Kept actor.id t (record t { status = settle_cancelled t.status })
  unfolding settle_cancelled
  cancel-status mine = elim (Bool-cases (is_submitted t.status.state)) [
    | inl live ↦ record { owner = refl; key = refl; status = inr (ground arith, mine) }
    | inr settled ↦ record { owner = refl; key = refl; status = inl (ground arith) }
  ]

  update-KeptIn :
      (id : Text) (state : AgentTransferState) (error : Option Text)
      → KeptIn (update_result actor id state error s).1
  unfolding update_result
  update-KeptIn id state error = elim (Bool-cases (id == k)) [
    | inr other ↦ elim (Option-cases (get s.transfers id)) [
      | inl absent ↦ (t, ground arith, same-Kept)
      | inr (u, found) ↦ (
        t,
        ground (
          arith,
          get-insert s.transfers id k (record u { status = settle state error u.status }),
        ),
        same-Kept,
      )
    ]
    | inl same ↦ elim (Bool-cases (t.actor_id == actor.id)) [
      | inr foreign ↦ (t, ground (arith, text_eq_iff id k, get-insert s.transfers id k), same-Kept)
      | inl mine ↦ (
        record t { status = settle state error t.status },
        ground (
          arith,
          text_eq_iff id k,
          get-insert s.transfers id k (record t { status = settle state error t.status }),
        ),
        settle-status state error ((text_eq_iff _ _).0 mine),
      )
    ]
  ]

  cancel-KeptIn : (id : Text) → KeptIn (cancel actor id s).1
  unfolding cancel
  cancel-KeptIn id = elim (Bool-cases (id == k)) [
    | inr other ↦ elim (Option-cases (get s.transfers id)) [
      | inl absent ↦ (t, ground arith, same-Kept)
      | inr (u, found) ↦ (
        t,
        ground
            (arith, get-insert s.transfers id k (record u { status = settle_cancelled u.status })),
        same-Kept,
      )
    ]
    | inl same ↦ elim (Bool-cases (t.actor_id == actor.id)) [
      | inr foreign ↦ (t, ground (arith, text_eq_iff id k, get-insert s.transfers id k), same-Kept)
      | inl mine ↦ (
        record t { status = settle_cancelled t.status },
        ground (
          arith,
          text_eq_iff id k,
          get-insert s.transfers id k (record t { status = settle_cancelled t.status }),
        ),
        cancel-status ((text_eq_iff _ _).0 mine),
      )
    ]
  ]

  enter-KeptIn :
      (key : Text) → IsNumbered s → s.next_id + 1 < u64_mod → KeptIn (enter actor.id key s).1
  enter-KeptIn key numbered room =
      elim (Option-cases (find_existing (values s.transfers) actor.id key)) [
        | inr (status, e) ↦ (t, rw (enter-existing actor.id key s e) there, same-Kept)
        | inl e ↦
            let (n, below, name) = unnumber s numbered k t there in
            let fresh : local_id (s.next_id + 1) ≢ k = λ e.
              let same = local_id-injective (s.next_id + 1) n (e ∙ name) in
              omega (arith, same, below) in
            (
              t,
              rw (enter-new actor.id key s e room) (
                  ground (
                    arith,
                    fresh,
                    text_eq_iff (local_id (s.next_id + 1)) k,
                    get-insert s.transfers (local_id (s.next_id + 1)) k
                        (entry actor.id key (s.next_id + 1)),
                  )),
              same-Kept,
            )
      ]

  -- An action of an agent never loses a transfer, and changes its status only if the agent is its
  -- owner and the transfer was still submitted.
  pub act-KeptIn : (a : Action) → IsNumbered s → s.next_id + 1 < u64_mod → KeptIn (act actor a s)
  unfolding act complete fail
  act-KeptIn (enters key) numbered room = enter-KeptIn key numbered room
  act-KeptIn (completes id) numbered room = update-KeptIn id completed none
  act-KeptIn (fails id error) numbered room = update-KeptIn id failed (some error)
  act-KeptIn (cancels id) numbered room = cancel-KeptIn id

-- A submission that is repeated, with the same agent and key, finds the first one.
find-insert :
    (m : Map AgentTransfer) (k : Text) (t : AgentTransfer)
    → find_existing (values m) t.actor_id t.idempotency_key ≡ none
    → find_existing (values (insert m k t)) t.actor_id t.idempotency_key ≡ some t.status
unfolding insert find_existing
find-insert [] k t h = ground (arith, text_eq_refl t.actor_id, text_eq_refl t.idempotency_key)
find-insert ((j, u) ∷ m) k t h =
    ground (arith, text_eq_refl t.actor_id, text_eq_refl t.idempotency_key, find-insert m k t)

enter-found :
    (actor_id key : Text) (s : AgentTransferStateStore) (status : AgentTransferStatus)
    → (enter actor_id key s).0 ≡ ok status
    → find_existing (values (enter actor_id key s).1.transfers) actor_id key ≡ some status
unfolding enter
enter-found actor_id key s status h =
    elim (Option-cases (find_existing (values s.transfers) actor_id key)) [
      | inr (old, e) ↦ ground arith
      | inl e ↦
          let n = add64 s.next_id 1 in
          ground (arith, find-insert s.transfers (local_id n) (entry actor_id key n))
    ]

-- Entering the same submission once more gives the same answer and changes nothing.
pub enter-again :
    (actor_id key : Text) (s : AgentTransferStateStore) (status : AgentTransferStatus)
    → (enter actor_id key s).0 ≡ ok status
    → enter actor_id key (enter actor_id key s).1 ≡ (ok status, (enter actor_id key s).1)
enter-again actor_id key s status h =
    enter-existing actor_id key (enter actor_id key s).1 (enter-found actor_id key s status h)
