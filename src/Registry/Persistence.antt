-- ===== src/Registry/Persistence.antt =====
-- `Daemon::confirm_pairing` and `Daemon::revoke_peer` of crates/agent-send-daemon/src/lib.rs, over a
-- `PeerTrustStore` of peer_storage.rs.
use agent_send.Base.{
  ◌⊎◌, ℕ, Text, List, [], ◌∷◌, Bool, true, false, Option, none, some, ◌≡◌, refl, arith, is_some,
  Text_eq,
}
use agent_send.Base.Result.{Result, ok, err}
use agent_send.Base.Map.{Map, get, remove}
use agent_send.Registry.Types.{PeerRegistry, PeerTrustStoreError, StoredPeerTrust}
use agent_send.Registry.Pairing.{confirm_pairing, revoke, stored_trust}
use agent_send.Registry.Consistency.{
  IsConsistent, Confirmed, confirm-Confirmed, refused, expired, accepted,
}

-- `PeerTrustStore`
pub record PeerTrustStore : Type 1 where
  pub Store : Type 0
  pub load : Store → Result PeerTrustStoreError (List StoredPeerTrust)
  pub save : List StoredPeerTrust → Store → Result PeerTrustStoreError (Unit {0}) × Store

-- What is relied on of a store: a successful `save` stores what it is given, and a `save` that fails
-- has stored that too or has changed nothing.
pub record Stores (store : PeerTrustStore) : Type 0 where
  pub contents : store.Store → List StoredPeerTrust
  pub saves :
      (peers : List StoredPeerTrust) (s : store.Store)
      → (store.save peers s).0 ≡ ok tt
      → contents (store.save peers s).1 ≡ peers
  pub fails :
      (peers : List StoredPeerTrust) (s : store.Store) (e : PeerTrustStoreError)
      → (store.save peers s).0 ≡ err e
      → (contents (store.save peers s).1 ≡ contents s) ⊎ (contents (store.save peers s).1 ≡ peers)

module _ (store : PeerTrustStore) where
  -- The part of `Daemon` that the two methods use.
  pub record Daemon : Type 0 where
    pub registry : PeerRegistry
    pub backing : store.Store

  -- The registry is put back if it cannot be saved.
  abbrev keep :
      PeerRegistry
      → PeerRegistry
      → Result PeerTrustStoreError (Unit {0}) × store.Store
      → Result PeerTrustStoreError Bool × Daemon
  keep before after (ok u, s) = (ok true, record { registry = after; backing = s })
  keep before after (err e, s) = (err e, record { registry = before; backing = s })

  unfoldable pub save_changed :
      Daemon → PeerRegistry × Bool → Result PeerTrustStoreError Bool × Daemon
  save_changed d (after, true) = keep d.registry after (store.save (stored_trust after) d.backing)
  save_changed d (after, false) = (ok false, record d { registry = after })

  abbrev unless_panic :
      Daemon → Option (PeerRegistry × Bool) → Option (Result PeerTrustStoreError Bool × Daemon)
  unless_panic d none = none
  unless_panic d (some changed) = some (save_changed d changed)

  -- `Daemon::confirm_pairing`
  unfoldable pub confirm_and_save :
      Text → Text → (now : ℕ) → Daemon → Option (Result PeerTrustStoreError Bool × Daemon)
  unfolding save_changed
  confirm_and_save peer_id code now d = unless_panic d (confirm_pairing peer_id code now d.registry)

  -- `Daemon::revoke_peer`
  unfoldable pub revoke_and_save : Text → Daemon → Result PeerTrustStoreError Bool × Daemon
  unfolding save_changed
  revoke_and_save peer_id d = save_changed d (revoke peer_id d.registry)

  module _ (laws : Stores store) (d : Daemon) where
    -- How a change of trust to the registry `after` ends: it is made, and the store holds its trust;
    -- or it trusts nobody else than before, it is made, and nothing is saved; or the saving fails, the
    -- registry is as it was, and the store holds what it held or, in spite of the failure, the new
    -- trust.
    pub data Persisted (after : PeerRegistry)
        : Result PeerTrustStoreError Bool × Daemon → Type 0 where
      saved :
          {d' : Daemon}
          → d'.registry ≡ after
          → laws.contents d'.backing ≡ stored_trust after
          → Persisted after (ok true, d')
      unchanged :
          {d' : Daemon}
          → d'.registry ≡ after
          → after.trusted ≡ d.registry.trusted
          → d'.backing ≡ d.backing
          → Persisted after (ok false, d')
      failed :
          {d' : Daemon} (e : PeerTrustStoreError)
          → d'.registry ≡ d.registry
          → (laws.contents d'.backing ≡ laws.contents d.backing)
            ⊎ (laws.contents d'.backing ≡ stored_trust after)
          → Persisted after (err e, d')

    keep-Persisted :
        (after : PeerRegistry) (r : Result PeerTrustStoreError (Unit {0}) × store.Store)
        → (r.0 ≡ ok tt → laws.contents r.1 ≡ stored_trust after)
        → ((e : PeerTrustStoreError)
            → r.0 ≡ err e
            → (laws.contents r.1 ≡ laws.contents d.backing)
              ⊎ (laws.contents r.1 ≡ stored_trust after))
        → Persisted after (keep d.registry after r)
    keep-Persisted after (ok u, s) h k = saved refl (h refl)
    keep-Persisted after (err e, s) h k = failed e refl (k e refl)

    save_changed-Persisted :
        (after : PeerRegistry) (b : Bool)
        → (b ≡ false → after.trusted ≡ d.registry.trusted)
        → Persisted after (save_changed d (after, b))
    unfolding save_changed
    save_changed-Persisted after true h =
        keep-Persisted after (store.save (stored_trust after) d.backing)
          (laws.saves (stored_trust after) d.backing) (laws.fails (stored_trust after) d.backing)
    save_changed-Persisted after false h = unchanged refl (h refl) refl

    -- What `confirm_and_save` does with the outcome of `confirm_pairing`.
    abbrev pub Settles :
        Option (PeerRegistry × Bool) → Option (Result PeerTrustStoreError Bool × Daemon) → Type 0
    Settles (some (after, changed)) (some r) = Persisted after r
    Settles _ _ = ⊥

    confirmed :
        (peer_id code : Text) (now : ℕ) {h : IsConsistent d.registry}
        {o : Option (PeerRegistry × Bool)}
        → Confirmed peer_id code now d.registry h o
        → Settles o (unless_panic d o)
    confirmed peer_id code now (refused f) = save_changed-Persisted _ false (λ e. refl)
    confirmed peer_id code now (expired p e late) = save_changed-Persisted _ false (λ e. refl)
    confirmed peer_id code now (accepted p known e live same there) =
        save_changed-Persisted _ true (λ e. absurd (cc e))

    -- With a store that keeps `Stores` and a consistent registry, confirming does not panic. Let
    -- `after` be the registry that `confirm_pairing` makes. Either it is taken on and the store
    -- holds its trust; or it is taken on, trusts the same peers as before, and nothing is saved; or
    -- the saving fails, the registry is as it was, and the store holds what it held or, in spite of
    -- the failure, the trust of `after`.
    pub confirm_and_save-Persisted :
        (peer_id code : Text) (now : ℕ)
        → IsConsistent d.registry
        → Settles
            (confirm_pairing peer_id code now d.registry)
            (confirm_and_save peer_id code now d)
    unfolding confirm_and_save
    confirm_and_save-Persisted peer_id code now h =
        confirmed peer_id code now (confirm-Confirmed peer_id code now d.registry h)

remove-absent {ℓ} : {V : Type ℓ} (m : Map V) (k : Text) → is_some (get m k) ≡ false → remove m k ≡ m
unfolding get remove
remove-absent [] k h = refl
remove-absent ((j, v) ∷ m) k h = ground (arith, remove-absent m k)

revoke-trusted :
    (id : Text) (r : PeerRegistry) → (revoke id r).1 ≡ false → (revoke id r).0.trusted ≡ r.trusted
unfolding revoke
revoke-trusted id r h = remove-absent r.trusted id h

-- Revoking ends in one of the three ways too.
pub revoke_and_save-Persisted :
    (store : PeerTrustStore) (laws : Stores store) (peer_id : Text) (d : Daemon store)
    → Persisted store laws d (revoke peer_id d.registry).0 (revoke_and_save store peer_id d)
unfolding revoke_and_save
revoke_and_save-Persisted store laws peer_id d =
    save_changed-Persisted store laws d (revoke peer_id d.registry).0 (revoke peer_id d.registry).1
      (revoke-trusted peer_id d.registry)
