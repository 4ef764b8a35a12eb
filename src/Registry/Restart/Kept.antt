-- ===== src/Registry/Restart/Kept.antt =====
-- Every history of calls leaves a registry that can be stored and restored.
use agent_send.Base.{
  ℕ, Text, List, [], ◌∷◌, Bool, false, Option, none, some, ◌≡◌, subst, ◌⊎◌, arith, is_blank,
  text_eq_iff, All, Bool-cases, inl, inr, ◌==◌, Text_eq,
}
use agent_send.Base.Result.{ok, Result-cases}
use agent_send.Base.Map.{Map, get, insert, remove, get-insert, get-remove}
use agent_send.Peer.Secret.{PairingSecret, PairedPeer, IsSecret}
use agent_send.Registry.Types.{PeerAdvertisement, PendingPairing, PeerRegistry, PeerRecord, empty}
use agent_send.Registry.Code.{Entropy, choose_material}
use agent_send.Registry.Pairing.{
  advertise, add_pending, request_pairing_with_material, revoke, stored_trust, restore_trusted,
}
use agent_send.Registry.Consistency.{
  IsConsistent, empty-IsConsistent, confirm-Confirmed, Confirmed, refused, expired, accepted,
  trusting,
}
use agent_send.Registry.Restart.Sorted.{IsSorted, Above-absent, insert-IsSorted, remove-IsSorted}
use agent_send.Registry.History.{
  state_of, Call, advertises, requests, confirms, revokes, step, run, step-IsConsistent,
  run-IsConsistent,
}
use agent_send.Registry.Restart.{Distinct, IsRestarted, restore_trusted-stored_trust}

IsSorted-Distinct : (m : Map PairedPeer) → IsSorted m → Distinct m
IsSorted-Distinct [] h = tt
IsSorted-Distinct ((id, p) ∷ m) (above, h) = (Above-absent id m above, IsSorted-Distinct m h)

-- The secrets that come into a call are of the type `[u8; 32]`.
abbrev pub IsSized : Call → Type 0
IsSized (requests a now e m) =
    ((s : PairingSecret) → e.secret_bytes ≡ some s → IsSecret s)
    × ((code : Text) (s : PairingSecret) → m ≡ some (code, s) → IsSecret s)
IsSized _ = Unit

module _ {V : Type 0} where
  in_remove : (m : Map V) (k j : Text) (v : V) → get (remove m k) j ≡ some v → get m j ≡ some v
  in_remove m k j v h = ground (arith, get-remove m k j, h)

  in_insert :
      (m : Map V) (k j : Text) (w v : V)
      → get (insert m k w) j ≡ some v
      → ((k ≡ j) × (w ≡ v)) ⊎ (get m j ≡ some v)
  in_insert m k j w v h = elim (Bool-cases (k == j)) [
    | inl e ↦ inl ((text_eq_iff k j).0 e, ground (arith, get-insert m k j w, e, h))
    | inr e ↦ inr (ground (arith, get-insert m k j w, e, h))
  ]

record IsKept (r : PeerRegistry) : Type 0 where
  sorted : IsSorted r.trusted
  named : (id : Text) (p : PairedPeer) → get r.trusted id ≡ some p → is_blank id ≡ false
  secrets : (id : Text) (p : PairedPeer) → get r.trusted id ≡ some p → IsSecret p.secret
  invited : (id : Text) (i : PendingPairing) → get r.pending id ≡ some i → IsSecret i.secret

choose_material-IsSecret :
    (e : Entropy) (m : Option (Text × PairingSecret)) (code : Text) (s : PairingSecret)
    → ((t : PairingSecret) → e.secret_bytes ≡ some t → IsSecret t)
    → ((c : Text) (t : PairingSecret) → m ≡ some (c, t) → IsSecret t)
    → choose_material e m ≡ ok (code, s)
    → IsSecret s
unfolding choose_material
choose_material-IsSecret e (some (c, t)) code s drawn given h = given code s (ground (arith, h))
choose_material-IsSecret e none code s drawn given h = drawn s (ground (arith, h))

request-IsKept :
    (a : PeerAdvertisement) (now : ℕ) (e : Entropy) (m : Option (Text × PairingSecret))
    (r : PeerRegistry)
    → IsSized (requests a now e m)
    → IsKept r
    → IsKept (request_pairing_with_material a now e m r).1
unfolding request_pairing_with_material add_pending advertise
request-IsKept a now e m r (drawn, given) h = elim (Bool-cases (is_blank a.id)) [
  | inl blank ↦ rw blank h
  | inr named ↦ elim (Result-cases (choose_material e m)) [
    | inr (x, no_material) ↦
        rw (named, no_material)
          (record { sorted = h.sorted; named = h.named; secrets = h.secrets; invited = h.invited })
    | inl (chosen, e') ↦
        let secret = choose_material-IsSecret e m chosen.0 chosen.1 drawn given e' in
        rw (named, e')
          (record {
            sorted = h.sorted;
            named = h.named;
            secrets = h.secrets;
            invited = λ id i f. elim (in_insert r.pending a.id id _ i f) [
              | inl (at, new) ↦ subst (λ q. IsSecret q.secret) new secret
              | inr old ↦ h.invited id i old
            ];
          })
  ]
]

drop-IsKept :
    (id : Text) (r : PeerRegistry) → IsKept r → IsKept (record r { pending = remove r.pending id })
drop-IsKept id r h = record {
  sorted = h.sorted;
  named = h.named;
  secrets = h.secrets;
  invited = λ j i e. h.invited j i (in_remove r.pending id j i e);
}

trusting-IsKept :
    (id : Text) (known : PeerRecord) (s : PairingSecret) (r : PeerRegistry)
    → is_blank id ≡ false
    → IsSecret s
    → IsKept r
    → IsKept (trusting r id known s)
trusting-IsKept id known s r named secret h = record {
  sorted = insert-IsSorted r.trusted id _ h.sorted;
  named = λ j p e. elim (in_insert r.trusted id j _ p e) [
    | inl (at, new) ↦ subst (λ k. is_blank k ≡ false) at named
    | inr old ↦ h.named j p old
  ];
  secrets = λ j p e. elim (in_insert r.trusted id j _ p e) [
    | inl (at, new) ↦ subst (λ q. IsSecret q.secret) new secret
    | inr old ↦ h.secrets j p old
  ];
  invited = λ j i e. h.invited j i (in_remove r.pending id j i e);
}

Confirmed-IsKept :
    (peer_id code : Text) (now : ℕ) (r : PeerRegistry) (c : IsConsistent r)
    → IsKept r
    → {o : Option (PeerRegistry × Bool)} → Confirmed peer_id code now r c o
    → (r' : PeerRegistry) → state_of o ≡ some r'
    → IsKept r'
Confirmed-IsKept peer_id code now r c h (refused f) r' e = subst IsKept (cc e) h
Confirmed-IsKept peer_id code now r c h (expired p f late) r' e =
    subst IsKept (cc e) (drop-IsKept peer_id r h)
Confirmed-IsKept peer_id code now r c h (accepted p known f live same there) r' e =
    subst IsKept (cc e)
      (trusting-IsKept peer_id known p.secret r (c.invited peer_id p f).0 (h.invited peer_id p f) h)

advertise-IsKept : (a : PeerAdvertisement) (r : PeerRegistry) → IsKept r → IsKept (advertise a r)
unfolding advertise
advertise-IsKept a r h = record {
  sorted = h.sorted;
  named = h.named;
  secrets = h.secrets;
  invited = h.invited;
}

revoke-IsKept : (id : Text) (r : PeerRegistry) → IsKept r → IsKept (revoke id r).0
unfolding revoke
revoke-IsKept id r h = record {
  sorted = remove-IsSorted r.trusted id h.sorted;
  named = λ j p e. h.named j p (in_remove r.trusted id j p e);
  secrets = λ j p e. h.secrets j p (in_remove r.trusted id j p e);
  invited = λ j i e. h.invited j i (in_remove r.pending id j i e);
}

step-IsKept :
    (r : PeerRegistry) (c : Call)
    → IsSized c
    → IsConsistent r
    → IsKept r
    → (r' : PeerRegistry) → step r c ≡ some r'
    → IsKept r'
unfolding step
step-IsKept r (advertises a) sized c h r' e = subst IsKept (cc e) (advertise-IsKept a r h)
step-IsKept r (requests a now en m) sized c h r' e =
    subst IsKept (cc e) (request-IsKept a now en m r sized h)
step-IsKept r (confirms peer_id code now) sized c h r' e =
    Confirmed-IsKept peer_id code now r c h (confirm-Confirmed peer_id code now r c) r' e
step-IsKept r (revokes peer_id) sized c h r' e = subst IsKept (cc e) (revoke-IsKept peer_id r h)

run-IsKept :
    (cs : List Call) (r r' : PeerRegistry)
    → All IsSized cs
    → IsConsistent r
    → IsKept r
    → run r cs ≡ some r'
    → IsKept r'
unfolding run
run-IsKept [] r r' sized c h e = subst IsKept (cc e) h
run-IsKept (call ∷ cs) r r' (one, sized) c h e =
    let (next, at, c') = step-IsConsistent r call c in
    run-IsKept cs next r' sized c' (step-IsKept r call one c h next at) (ground (arith, at, e))

empty-IsKept : IsKept empty
unfolding get
empty-IsKept = record {
  sorted = tt;
  named = λ id p e. ground (arith, e);
  secrets = λ id p e. absurd (ground (arith, e));
  invited = λ id i e. absurd (ground (arith, e));
}

-- Whatever is called on a new registry, with secrets of 32 bytes, what `stored_trust` then gives is
-- accepted by `restore_trusted` on a new registry: the restored registry trusts the same peers under
-- the same secrets, has the records of these peers and of no others, and no invitation.
pub restore_trusted-stored_trust-run :
    (cs : List Call)
    → All IsSized cs
    → (r : PeerRegistry) → run empty cs ≡ some r
    → (after : PeerRegistry) × (restore_trusted (stored_trust r) empty ≡ (ok tt, after))
      × IsRestarted r after
restore_trusted-stored_trust-run cs sized r e =
    let kept = run-IsKept cs empty r sized empty-IsConsistent empty-IsKept e in
    let (r', e', c) = run-IsConsistent cs in
    restore_trusted-stored_trust r (subst IsConsistent (cc (e, e')) c) (record {
      distinct = IsSorted-Distinct r.trusted kept.sorted;
      named = kept.named;
      secrets = kept.secrets;
      invited = kept.invited;
    })
