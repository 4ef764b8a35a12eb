-- ===== src/Registry/History.antt =====
-- Histories of calls on a registry: where trust comes from, and where it goes.
use agent_send.Base.{
  ℕ, ◌<◌, Text, List, [], ◌∷◌, Bool, Option, none, some, ◌≡◌, ◌⊎◌, inl, inr, refl, sym, subst,
  arith, Bool-cases, ◌==◌, Text_eq, text_eq_iff,
}
use agent_send.Base.Map.{get, insert, get-insert, get-remove}
use agent_send.Peer.Secret.{PairingSecret, PairedPeer}
use agent_send.Registry.Types.{PeerAdvertisement, PendingPairing, PeerRegistry, empty}
use agent_send.Registry.Code.{Entropy}
use agent_send.Registry.Pairing.{
  advertise, request_pairing_with_material, confirm_pairing, revoke, paired_peer,
}
use agent_send.Registry.Consistency.{
  IsConsistent, empty-IsConsistent, advertise-IsConsistent, request-IsConsistent,
  confirm-IsConsistent, revoke-IsConsistent, confirm-Confirmed, Confirmed, refused, expired,
  accepted,
}

pub data Call : Type 0 where
  advertises : PeerAdvertisement → Call
  requests : PeerAdvertisement → ℕ → Entropy → Option (Text × PairingSecret) → Call
  confirms : (peer_id code : Text) (now : ℕ) → Call
  revokes : (peer_id : Text) → Call

abbrev pub state_of : Option (PeerRegistry × Bool) → Option PeerRegistry
state_of none = none
state_of (some (r, b)) = some r

-- The registry after a call; `none` is a panic.
unfoldable pub step : PeerRegistry → Call → Option PeerRegistry
step r (advertises a) = some (advertise a r)
step r (requests a now e m) = some (request_pairing_with_material a now e m r).1
step r (confirms peer_id code now) = state_of (confirm_pairing peer_id code now r)
step r (revokes peer_id) = some (revoke peer_id r).0

abbrev and_then : Option PeerRegistry → (PeerRegistry → Option PeerRegistry) → Option PeerRegistry
and_then none f = none
and_then (some r) f = f r

unfoldable pub run : PeerRegistry → List Call → Option PeerRegistry
unfolding step
run r [] = some r
run r (c ∷ cs) = and_then (step r c) (λ r'. run r' cs)

pub step-IsConsistent :
    (r : PeerRegistry) (c : Call)
    → IsConsistent r
    → (r' : PeerRegistry) × (step r c ≡ some r') × IsConsistent r'
unfolding step
step-IsConsistent r (advertises a) h = (_, refl, advertise-IsConsistent a r h)
step-IsConsistent r (requests a now e m) h = (_, refl, request-IsConsistent a now e m r h)
step-IsConsistent r (confirms peer_id code now) h =
    let (r', b, e, h') = confirm-IsConsistent peer_id code now r h in (r', rw e, h')
step-IsConsistent r (revokes peer_id) h = (_, refl, revoke-IsConsistent peer_id r h)

run-from :
    (r : PeerRegistry) (cs : List Call)
    → IsConsistent r
    → (r' : PeerRegistry) × (run r cs ≡ some r') × IsConsistent r'
unfolding run
run-from r [] h = (r, refl, h)
run-from r (c ∷ cs) h =
    let (r', e, h') = step-IsConsistent r c h in
    let (r'', e', h'') = run-from r' cs h' in (r'', rw e e', h'')

-- No history of calls makes the registry panic, and its three maps agree after every one.
pub run-IsConsistent :
    (cs : List Call) → (r : PeerRegistry) × (run empty cs ≡ some r) × IsConsistent r
run-IsConsistent cs = run-from empty cs empty-IsConsistent

-- The call confirms an invitation for this peer under this secret, with its code and in time.
abbrev pub Grants : PeerRegistry → Call → Text → PairedPeer → Type 0
Grants r (confirms peer_id code now) id p =
    (peer_id ≡ id)
    × ((i : PendingPairing) × (get r.pending id ≡ some i)
        × (i.code ≡ code)
        × (now < i.expires_at)
        × (i.secret ≡ p.secret))
Grants r _ id p = ⊥

advertise-trusted : (a : PeerAdvertisement) (r : PeerRegistry) → (advertise a r).trusted ≡ r.trusted
unfolding advertise
advertise-trusted a r = refl

request-trusted :
    (a : PeerAdvertisement) (now : ℕ) (e : Entropy) (m : Option (Text × PairingSecret))
    (r : PeerRegistry)
    → (request_pairing_with_material a now e m r).1.trusted ≡ r.trusted
unfolding request_pairing_with_material advertise
request-trusted a now e m r = ground arith

some-eq : {x y : PeerRegistry} → some x ≡ some y → x ≡ y
some-eq e = cc

same_trusted :
    (r s r' : PeerRegistry) (id : Text) (p : PairedPeer)
    → s.trusted ≡ r.trusted
    → s ≡ r'
    → get r'.trusted id ≡ some p
    → get r.trusted id ≡ some p
same_trusted r s r' id p q e t = cc (q, e, t)

granted :
    (r : PeerRegistry) (peer_id code : Text) (now : ℕ) (id : Text) (p : PairedPeer)
    {o : Option (PeerRegistry × Bool)} {r' : PeerRegistry} (h : IsConsistent r)
    → Confirmed peer_id code now r h o
    → state_of o ≡ some r'
    → get r'.trusted id ≡ some p
    → (get r.trusted id ≡ some p) ⊎ Grants r (confirms peer_id code now) id p
granted r peer_id code now id p {r' = r'} h (refused f) e t =
    inl (same_trusted r _ r' id p refl (some-eq e) t)
granted r peer_id code now id p {r' = r'} h (expired i there late) e t =
    inl (same_trusted r _ r' id p refl (some-eq e) t)
granted r peer_id code now id p {r' = r'} h (accepted i known there live same k) e t =
    let t' : get (insert r.trusted peer_id (record { id = peer_id; secret = i.secret })) id
        ≡ some p =
      subst (λ (x : PeerRegistry). get x.trusted id ≡ some p) (sym (some-eq e)) t in
    elim (Bool-cases (peer_id == id)) [
      | inr other ↦ inl (
          ground (
            arith,
            t',
            get-insert r.trusted peer_id id (record { id = peer_id; secret = i.secret }),
          ))
      | inl this ↦
          let eq = (text_eq_iff peer_id id).0 this in
          inr (
            eq,
            (
              i,
              rw eq at there,
              same,
              live,
              ground (
                arith,
                t',
                get-insert r.trusted peer_id id (record { id = peer_id; secret = i.secret }),
              ),
            ),
          )
    ]

-- A peer that is trusted after a call was trusted before it, under the same secret, or the call
-- has confirmed an invitation that carries this secret. Advertisements and requests trust nobody.
pub step-trust :
    (r r' : PeerRegistry) (c : Call) (id : Text) (p : PairedPeer)
    → IsConsistent r
    → step r c ≡ some r'
    → paired_peer r' id ≡ some p
    → (paired_peer r id ≡ some p) ⊎ Grants r c id p
unfolding step paired_peer
step-trust r r' (advertises a) id p h e t =
    inl (same_trusted r (advertise a r) r' id p (advertise-trusted a r) (some-eq e) t)
step-trust r r' (requests a now en m) id p h e t =
    inl (same_trusted r _ r' id p (request-trusted a now en m r) (some-eq e) t)
step-trust r r' (confirms peer_id code now) id p h e t =
    granted r peer_id code now id p {r' = r'} h (confirm-Confirmed peer_id code now r h) e t
step-trust r r' (revokes peer_id) id p h e t =
    inl (kept (subst (λ (x : PeerRegistry). get x.trusted id ≡ some p) (sym (some-eq e)) t))
  where
    kept : get (revoke peer_id r).0.trusted id ≡ some p → get r.trusted id ≡ some p
    kept t' = unfold revoke in ground (arith, get-remove r.trusted peer_id id)

-- Some call of the history confirms an invitation for this peer under this secret.
abbrev pub Granted : PeerRegistry → List Call → Text → PairedPeer → Type 0
Granted r [] id p = ⊥
Granted r (c ∷ cs) id p =
    Grants r c id p ⊎ ((r' : PeerRegistry) × (step r c ≡ some r') × Granted r' cs id p)

first_is_last :
    (r last : PeerRegistry) (id : Text) (p : PairedPeer)
    → run r [] ≡ some last
    → paired_peer last id ≡ some p
    → paired_peer r id ≡ some p
unfolding run
first_is_last r last id p e t = cc (some-eq e, t)

rest_of_run :
    (r r' : PeerRegistry) (c : Call) (cs : List Call) {last : PeerRegistry}
    → step r c ≡ some r'
    → run r (c ∷ cs) ≡ some last
    → run r' cs ≡ some last
unfolding run
rest_of_run r r' c cs s e = rw s at e

earlier :
    (r r' : PeerRegistry) (c : Call) (cs : List Call) (id : Text) (p : PairedPeer)
    → IsConsistent r
    → step r c ≡ some r'
    → (paired_peer r' id ≡ some p) ⊎ Granted r' cs id p
    → (paired_peer r id ≡ some p) ⊎ Granted r (c ∷ cs) id p
earlier r r' c cs id p h s (inr later) = inr (inr (r', s, later))
earlier r r' c cs id p h s (inl now) = before (step-trust r r' c id p h s now)
  where
    before :
        (paired_peer r id ≡ some p) ⊎ Grants r c id p
        → (paired_peer r id ≡ some p) ⊎ Granted r (c ∷ cs) id p
    before (inl t) = inl t
    before (inr g) = inr (inl g)

from_empty :
    (cs : List Call) (id : Text) (p : PairedPeer)
    → (paired_peer empty id ≡ some p) ⊎ Granted empty cs id p
    → Granted empty cs id p
unfolding paired_peer get
from_empty cs id p (inl t) = cc t
from_empty cs id p (inr g) = g

run-trust :
    (r : PeerRegistry) (cs : List Call) (last : PeerRegistry) (id : Text) (p : PairedPeer)
    → IsConsistent r
    → run r cs ≡ some last
    → paired_peer last id ≡ some p
    → (paired_peer r id ≡ some p) ⊎ Granted r cs id p
run-trust r [] last id p h e t = inl (first_is_last r last id p e t)
run-trust r (c ∷ cs) last id p h e t =
    let (r', s, h') = step-IsConsistent r c h in
    earlier r r' c cs id p h s (run-trust r' cs last id p h' (rest_of_run r r' c cs s e) t)

-- Whoever is trusted after a history of calls has been granted trust in it: an invitation for that
-- peer, carrying the secret under which it is trusted, was confirmed with its code and in time.
pub trust-Granted :
    (cs : List Call) (r : PeerRegistry) (id : Text) (p : PairedPeer)
    → run empty cs ≡ some r
    → paired_peer r id ≡ some p
    → Granted empty cs id p
trust-Granted cs r id p e t = from_empty cs id p (run-trust empty cs r id p empty-IsConsistent e t)
