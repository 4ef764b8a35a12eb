-- ===== src/Registry/Restart.antt =====
-- What a daemon that starts makes of the trust that was stored: `stored_trust` and `restore_trusted`.
pub mod Sorted
pub mod Kept
use agent_send.Base.{
  Text, List, [], ◌∷◌, Bool, true, false, Option, none, some, ◌≡◌, refl, sym, ap, subst, ◌∙◌, arith,
  is_blank, is_some, if◌then◌else◌, ◌==◌, Text_eq, text_eq, text_eq_iff, text_eq_refl, Option-cases,
  inl, inr,
}
use agent_send.Base.Result.{ok, err, reject_if, map_err}
use agent_send.Base.Map.{Map, get, insert, get-insert, contains_key}
use agent_send.Peer.Secret.{
  PairedPeer, IsSecret, from_hex, to_hex, from_hex-to_hex, new_paired_peer,
}
use agent_send.Registry.Types.{
  PendingPairing, PeerRecord, PeerRegistry, StoredPeerTrust, empty, stored, stored_peer,
}
use agent_send.Registry.Pairing.{
  collect_trust, stored_trust, insert_trusted, insert_record, add_trusted, restore_one,
  restore_trusted, paired_peer,
}
use agent_send.Registry.Consistency.{IsConsistent}

-- No key stands twice in a map.
abbrev pub Distinct : Map PairedPeer → Type 0
Distinct [] = Unit
Distinct ((id, p) ∷ m) = (get m id ≡ none) × Distinct m

-- A trusted peer whose record and secret can be stored.
record IsStorable (peers : Map PeerRecord) (id : Text) (p : PairedPeer) : Type 0 where
  known : PeerRecord
  found : get peers id ≡ some known
  own_id : known.advertisement.id ≡ id
  flag : known.trusted ≡ true
  peer_id : p.id ≡ id
  named : is_blank id ≡ false
  secret : IsSecret p.secret

restored_one : PeerRegistry → Text → PairedPeer → PeerRecord → PeerRegistry
restored_one r id p k = record r { trusted = insert r.trusted id p; peers = insert r.peers id k }

stored_peer-stored :
    (peers : Map PeerRecord) (id : Text) (p : PairedPeer) (s : IsStorable peers id p)
    → stored_peer (stored s.known p.secret) ≡ ok p
unfolding stored_peer stored new_paired_peer
stored_peer-stored peers id p s =
    rw (from_hex-to_hex p.secret s.secret, s.own_id, s.named, ← s.peer_id) refl

restore_one-runs :
    (t : StoredPeerTrust) (p : PairedPeer) (r : PeerRegistry)
    → t.peer_record.trusted ≡ true
    → stored_peer t ≡ ok p
    → get r.trusted t.peer_record.advertisement.id ≡ none
    → restore_one t r ≡ (ok tt, restored_one r t.peer_record.advertisement.id p t.peer_record)
unfolding restore_one add_trusted insert_trusted insert_record restored_one
restore_one-runs t p r flag peer new = ground (arith, flag, peer, new)

restore_one-stored :
    (peers : Map PeerRecord) (id : Text) (p : PairedPeer) (s : IsStorable peers id p)
    (r : PeerRegistry)
    → get r.trusted id ≡ none
    → restore_one (stored s.known p.secret) r ≡ (ok tt, restored_one r id p s.known)
unfolding stored
restore_one-stored peers id p s r new =
    subst (λ i. restore_one (stored s.known p.secret) r ≡ (ok tt, restored_one r i p s.known))
      s.own_id
      (restore_one-runs (stored s.known p.secret) p r s.flag (stored_peer-stored peers id p s)
        (subst (λ i. get r.trusted i ≡ none) (sym s.own_id) new))

-- What restoring a part `m` of the trust on a registry `r` gives.
record IsRestored (peers : Map PeerRecord) (m : Map PairedPeer) (r after : PeerRegistry)
    : Type 0 where
  trust :
      (id : Text)
      → get after.trusted id ≡ (if contains_key m id then get m id else get r.trusted id)
  known :
      (id : Text)
      → get after.peers id ≡ (if contains_key m id then get peers id else get r.peers id)
  pending : after.pending ≡ r.pending

module _ (peers : Map PeerRecord) where
  abbrev AllStorable : Map PairedPeer → Type 0
  AllStorable m = (id : Text) (p : PairedPeer) → get m id ≡ some p → IsStorable peers id p

  AllStorable-rest :
      (id : Text) (p : PairedPeer) (m : Map PairedPeer)
      → get m id ≡ none
      → AllStorable ((id, p) ∷ m)
      → AllStorable m
  unfolding get
  AllStorable-rest id p m absent all j q h = all j q (ground (arith, text_eq_iff id j, absent, h))

  head-found : (id : Text) (p : PairedPeer) (m : Map PairedPeer) → get ((id, p) ∷ m) id ≡ some p
  unfolding get
  head-found id p m = rw (text_eq_refl id) refl

  restored_one-absent :
      (id : Text) (p : PairedPeer) (k : PeerRecord) (m : Map PairedPeer) (r : PeerRegistry)
      → get m id ≡ none
      → ((j : Text) → contains_key ((id, p) ∷ m) j ≡ true → get r.trusted j ≡ none)
      → (j : Text) → contains_key m j ≡ true
      → get (restored_one r id p k).trusted j ≡ none
  unfolding get restored_one
  restored_one-absent id p k m r absent fresh j h =
      let before = fresh j in
      ground (arith, get-insert r.trusted id j p, text_eq_iff id j, absent, h, before)

  restored_one-IsRestored :
      (id : Text) (p : PairedPeer) (s : IsStorable peers id p) (m : Map PairedPeer)
      (r after : PeerRegistry)
      → get m id ≡ none
      → IsRestored peers m (restored_one r id p s.known) after
      → IsRestored peers ((id, p) ∷ m) r after
  unfolding get restored_one
  restored_one-IsRestored id p s m r after absent rest = record {
    trust =
        λ j. ground (arith, rest.trust j, get-insert r.trusted id j p, text_eq_iff id j, absent);
    known = λ j.
        ground
          (arith, rest.known j, get-insert r.peers id j s.known, text_eq_iff id j, absent, s.found);
    pending = rest.pending;
  }

  collect_trust-found :
      (id : Text) (p : PairedPeer) (k : PeerRecord) (m : Map PairedPeer)
      → get peers id ≡ some k
      → collect_trust peers ((id, p) ∷ m) ≡ stored k p.secret ∷ collect_trust peers m
  unfolding collect_trust
  collect_trust-found id p k m e = ground (arith, e)

  restore_trusted-step :
      (t : StoredPeerTrust) (rest : List StoredPeerTrust) (r r' : PeerRegistry)
      → restore_one t r ≡ (ok tt, r')
      → restore_trusted (t ∷ rest) r ≡ restore_trusted rest r'
  unfolding restore_trusted
  restore_trusted-step t rest r r' e = ground (arith, e)

  restore_trusted-IsRestored :
      (m : Map PairedPeer) (r : PeerRegistry)
      → Distinct m
      → AllStorable m
      → ((j : Text) → contains_key m j ≡ true → get r.trusted j ≡ none)
      → (after : PeerRegistry) × (restore_trusted (collect_trust peers m) r ≡ (ok tt, after))
        × IsRestored peers m r after
  unfolding restore_trusted collect_trust get
  restore_trusted-IsRestored [] r distinct all fresh =
      (r, refl, record { trust = λ j. refl; known = λ j. refl; pending = refl })
  restore_trusted-IsRestored ((id, p) ∷ m) r (absent, distinct) all fresh =
      let s = all id p (head-found id p m) in
      let (after, runs, rest) =
        restore_trusted-IsRestored m (restored_one r id p s.known) distinct
          (AllStorable-rest id p m absent all)
          (restored_one-absent id p s.known m r absent fresh) in
      let one = restore_one-stored peers id p s r (fresh id (ap is_some (head-found id p m))) in
      (
        after,
        ap (λ l. restore_trusted l r) (collect_trust-found id p s.known m s.found)
            ∙ (restore_trusted-step _ _ r _ one ∙ runs),
        restored_one-IsRestored id p s m r after absent rest,
      )

-- What a registry needs besides the agreement of its maps to be stored and restored.
pub record IsRestorable (r : PeerRegistry) : Type 0 where
  pub distinct : Distinct r.trusted
  pub named : (id : Text) (p : PairedPeer) → get r.trusted id ≡ some p → is_blank id ≡ false
  pub secrets : (id : Text) (p : PairedPeer) → get r.trusted id ≡ some p → IsSecret p.secret
  pub invited : (id : Text) (i : PendingPairing) → get r.pending id ≡ some i → IsSecret i.secret

-- The registry of a daemon that starts again: the same trust, the records of the trusted peers, and
-- no invitation.
pub record IsRestarted (r after : PeerRegistry) : Type 0 where
  pub trust : (id : Text) → paired_peer after id ≡ paired_peer r id
  pub known :
      (id : Text)
      → get after.peers id ≡ (if contains_key r.trusted id then get r.peers id else none)
  pub pending : after.pending ≡ []

module _ (r : PeerRegistry) (h : IsConsistent r) (k : IsRestorable r) where
  storable : AllStorable r.peers r.trusted
  storable id p e = elim (Option-cases (get r.peers id)) [
    | inl none_there ↦ absurd (ground (arith, h.trusted_known id p e, none_there))
    | inr (known, found) ↦ record {
      known = known;
      found = found;
      own_id = h.peer_ids id known found;
      flag = h.flags id known found ∙ ap is_some e;
      peer_id = h.trusted_ids id p e;
      named = k.named id p e;
      secret = k.secrets id p e;
    }
  ]

  pub restore_trusted-stored_trust :
      (after : PeerRegistry) × (restore_trusted (stored_trust r) empty ≡ (ok tt, after))
      × IsRestarted r after
  unfolding stored_trust paired_peer get
  restore_trusted-stored_trust =
      let (after, runs, i) =
        restore_trusted-IsRestored r.peers r.trusted empty k.distinct storable (λ j e. refl) in
      (
        after,
        runs,
        record { trust = λ id. ground (arith, i.trust id); known = i.known; pending = i.pending },
      )
