-- ===== src/Registry/Consistency.antt =====
-- The three maps of a registry agree, whatever is called on it.
use agent_send.Base.{
  ℕ, ◌≤◌, ◌<◌, ◌≢◌, Text, Bool, true, false, Option, none, some, ◌≡◌, refl, sym, subst, arith,
  is_blank, text_eq_iff, ◌==◌, Text_eq, Option-cases, Bool-cases, inl, inr,
}
use native.Mathlib.Decide.{dec_lt}
use agent_send.Base.Result.{ok, Result-cases}
use agent_send.Base.Map.{get, insert, remove, get-insert, get-remove, contains_key}
use agent_send.Peer.Secret.{PairingSecret, PairedPeer, new_paired_peer}
use agent_send.Registry.Types.{PeerAdvertisement, PeerRecord, PendingPairing, PeerRegistry, empty}
use agent_send.Registry.Code.{
  Entropy, choose_material, choose_material-valid, validate_pairing_code,
}
use agent_send.Registry.Pairing.{
  advertise, add_pending, request_pairing_with_material, confirm_pairing, revoke,
}

pub record IsConsistent (r : PeerRegistry) : Type 0 where
  -- a record stands under the identifier that it advertises, and shows whether the peer is trusted
  pub peer_ids : (id : Text) (k : PeerRecord) → get r.peers id ≡ some k → k.advertisement.id ≡ id
  pub flags :
      (id : Text) (k : PeerRecord) → get r.peers id ≡ some k → k.trusted ≡ contains_key r.trusted id
  -- a trusted peer has its own identifier, and a record
  pub trusted_ids : (id : Text) (p : PairedPeer) → get r.trusted id ≡ some p → p.id ≡ id
  pub trusted_known :
      (id : Text) (p : PairedPeer) → get r.trusted id ≡ some p → contains_key r.peers id ≡ true
  -- an invitation is for a named peer with a record, under a code of six digits
  pub invited :
      (id : Text) (p : PendingPairing)
      → get r.pending id ≡ some p
      → (is_blank id ≡ false) × (contains_key r.peers id ≡ true)
  pub codes :
      (id : Text) (p : PendingPairing)
      → get r.pending id ≡ some p
      → validate_pairing_code p.code ≡ ok tt

pub empty-IsConsistent : IsConsistent empty
unfolding get
empty-IsConsistent = record {
  peer_ids = λ id k e. cc;
  flags = λ id k e. cc;
  trusted_ids = λ id p e. cc;
  trusted_known = λ id p e. cc;
  invited = λ id p e. ground arith;
  codes = λ id p e. cc;
}

pub advertise-IsConsistent :
    (a : PeerAdvertisement) (r : PeerRegistry) → IsConsistent r → IsConsistent (advertise a r)
unfolding advertise
advertise-IsConsistent a r h = record {
  peer_ids = λ id k e. grind (arith, get-insert, text_eq_iff, h.peer_ids);
  flags = λ id k e. grind (arith, get-insert, text_eq_iff, h.flags);
  trusted_ids = h.trusted_ids;
  trusted_known = λ id p e. grind (arith, get-insert, text_eq_iff, h.trusted_known);
  invited = λ id p e. grind (arith, get-insert, text_eq_iff, h.invited);
  codes = h.codes;
}

add_pending-IsConsistent :
    (id code : Text) (s : PairingSecret) (now : ℕ) (r : PeerRegistry)
    → is_blank id ≡ false
    → contains_key r.peers id ≡ true
    → validate_pairing_code code ≡ ok tt
    → IsConsistent r
    → IsConsistent (add_pending id code s now r).1
unfolding add_pending
add_pending-IsConsistent id code s now r named known valid h = record {
  peer_ids = h.peer_ids;
  flags = h.flags;
  trusted_ids = h.trusted_ids;
  trusted_known = h.trusted_known;
  invited = λ i p e. grind (arith, get-insert, text_eq_iff, h.invited);
  codes = λ i p e. grind (arith, get-insert, text_eq_iff, h.codes);
}

advertise-known :
    (a : PeerAdvertisement) (r : PeerRegistry) → contains_key (advertise a r).peers a.id ≡ true
unfolding advertise
advertise-known a r = grind (arith, get-insert, text_eq_iff)

-- A request for pairing keeps the registry consistent, refused or not.
pub request-IsConsistent :
    (a : PeerAdvertisement) (now : ℕ) (e : Entropy) (m : Option (Text × PairingSecret))
    (r : PeerRegistry)
    → IsConsistent r
    → IsConsistent (request_pairing_with_material a now e m r).1
unfolding request_pairing_with_material
request-IsConsistent a now e m r h = elim (Bool-cases (is_blank a.id)) [
  | inl blank ↦ rw blank h
  | inr named ↦ elim (Result-cases (choose_material e m)) [
    | inr (x, refused) ↦ rw (named, refused) (advertise-IsConsistent a r h)
    | inl (chosen, e') ↦
        rw (named, e')
          (add_pending-IsConsistent a.id chosen.0 chosen.1 now (advertise a r) named
            (advertise-known a r) (choose_material-valid e m chosen.0 chosen.1 e')
            (advertise-IsConsistent a r h))
  ]
]

drop_pending-IsConsistent :
    (id : Text) (r : PeerRegistry)
    → IsConsistent r
    → IsConsistent (record r { pending = remove r.pending id })
drop_pending-IsConsistent id r h = record {
  peer_ids = h.peer_ids;
  flags = h.flags;
  trusted_ids = h.trusted_ids;
  trusted_known = h.trusted_known;
  invited = λ i p e. grind (arith, get-remove, text_eq_iff, h.invited);
  codes = λ i p e. grind (arith, get-remove, text_eq_iff, h.codes);
}

-- The registry once a peer is trusted under a secret.
abbrev pub trusting : PeerRegistry → Text → PeerRecord → PairingSecret → PeerRegistry
trusting r id known s = record {
  peers = insert r.peers id (record known { trusted = true });
  trusted = insert r.trusted id (record { id = id; secret = s });
  pending = remove r.pending id;
}

trusting-IsConsistent :
    (id : Text) (known : PeerRecord) (s : PairingSecret) (r : PeerRegistry)
    → get r.peers id ≡ some known
    → IsConsistent r
    → IsConsistent (trusting r id known s)
trusting-IsConsistent id known s r there h = record {
  peer_ids = λ i k e. grind (arith, get-insert, text_eq_iff, h.peer_ids);
  flags = λ i k e. grind (arith, get-insert, text_eq_iff, h.flags);
  trusted_ids = λ i p e. grind (arith, get-insert, text_eq_iff, h.trusted_ids);
  trusted_known = λ i p e. grind (arith, get-insert, text_eq_iff, h.trusted_known);
  invited = λ i p e. grind (arith, get-insert, get-remove, text_eq_iff, h.invited);
  codes = λ i p e. grind (arith, get-remove, text_eq_iff, h.codes);
}

module _ (peer_id code : Text) (now : ℕ) (r : PeerRegistry) (h : IsConsistent r) where
  -- What `confirm_pairing` does, one constructor for each of its ways.
  pub data Confirmed : Option (PeerRegistry × Bool) → Type 0 where
    -- there is no invitation, or its code is another one
    refused :
        ((p : PendingPairing)
          → get r.pending peer_id ≡ some p
          → (now < p.expires_at) × (p.code ≢ code))
        → Confirmed (some (r, false))
    -- the invitation has expired, and is taken away
    expired :
        (p : PendingPairing)
        → get r.pending peer_id ≡ some p
        → p.expires_at ≤ now
        → Confirmed (some (record r { pending = remove r.pending peer_id }, false))
    -- the invitation is used up, and the peer is trusted under its secret
    accepted :
        (p : PendingPairing) (known : PeerRecord)
        → get r.pending peer_id ≡ some p
        → now < p.expires_at
        → p.code ≡ code
        → get r.peers peer_id ≡ some known
        → Confirmed (some (trusting r peer_id known p.secret, true))

  accept-Confirmed :
      (p : PendingPairing) (known : PeerRecord)
      → get r.pending peer_id ≡ some p
      → now < p.expires_at
      → p.code ≡ code
      → get r.peers peer_id ≡ some known
      → confirm_pairing peer_id code now r ≡ some (trusting r peer_id known p.secret, true)
  unfolding confirm_pairing new_paired_peer
  accept-Confirmed p known e live same there =
      ground (arith, h.invited peer_id p e, text_eq_iff p.code code)

  expired-Confirmed :
      (p : PendingPairing)
      → get r.pending peer_id ≡ some p
      → p.expires_at ≤ now
      → confirm_pairing peer_id code now r
        ≡ some (record r { pending = remove r.pending peer_id }, false)
  unfolding confirm_pairing
  expired-Confirmed p e late = ground arith

  other-Confirmed :
      (p : PendingPairing)
      → get r.pending peer_id ≡ some p
      → now < p.expires_at
      → (p.code == code) ≡ false
      → confirm_pairing peer_id code now r ≡ some (r, false)
  unfolding confirm_pairing
  other-Confirmed p e live other = ground arith

  absent-Confirmed :
      get r.pending peer_id ≡ none → confirm_pairing peer_id code now r ≡ some (r, false)
  unfolding confirm_pairing
  absent-Confirmed e = ground arith

  live-Confirmed :
      (p : PendingPairing)
      → get r.pending peer_id ≡ some p
      → now < p.expires_at
      → Confirmed (confirm_pairing peer_id code now r)
  live-Confirmed p e live = elim (Bool-cases (p.code == code)) [
    | inr other ↦
        subst Confirmed (sym (other-Confirmed p e live other))
          (refused λ q f. grind (arith, text_eq_iff))
    | inl same ↦ elim (Option-cases (get r.peers peer_id)) [
      | inl unknown ↦ absurd (absurd_unknown unknown (h.invited peer_id p e).1)
      | inr (known, there) ↦
          let right = (text_eq_iff p.code code).0 same in
          subst Confirmed (sym (accept-Confirmed p known e live right there))
            (accepted p known e live right there)
    ]
  ]
    where
      absurd_unknown : get r.peers peer_id ≡ none → contains_key r.peers peer_id ≡ true → ⊥
      absurd_unknown e f = ground arith

  -- In a consistent registry, confirming an invitation trusts the peer exactly when the invitation is for it, has not expired
  -- and has this code; the invitation is then used up, an expired one is taken away, and in all
  -- other cases nothing changes. It never panics.
  pub confirm-Confirmed : Confirmed (confirm_pairing peer_id code now r)
  confirm-Confirmed = elim (Option-cases (get r.pending peer_id)) [
    | inl none_there ↦
        subst Confirmed (sym (absent-Confirmed none_there)) (refused λ p e. ground arith)
    | inr (p, e) ↦ elim (dec_lt now p.expires_at) [
      | yes live ↦ live-Confirmed p e live
      | no late ↦
          let over : p.expires_at ≤ now = omega arith in
          subst Confirmed (sym (expired-Confirmed p e over)) (expired p e over)
    ]
  ]

  Confirmed-IsConsistent :
      {o : Option (PeerRegistry × Bool)}
      → Confirmed o
      → (r' : PeerRegistry) × (b : Bool) × (o ≡ some (r', b)) × IsConsistent r'
  Confirmed-IsConsistent (refused f) = (r, false, refl, h)
  Confirmed-IsConsistent (expired p e late) =
      (_, false, refl, drop_pending-IsConsistent peer_id r h)
  Confirmed-IsConsistent (accepted p known e live same there) =
      (_, true, refl, trusting-IsConsistent peer_id known p.secret r there h)

  -- Confirming never panics, and keeps the registry consistent.
  pub confirm-IsConsistent :
      (r' : PeerRegistry) × (b : Bool) × (confirm_pairing peer_id code now r ≡ some (r', b))
      × IsConsistent r'
  confirm-IsConsistent = Confirmed-IsConsistent confirm-Confirmed

pub revoke-IsConsistent :
    (peer_id : Text) (r : PeerRegistry) → IsConsistent r → IsConsistent (revoke peer_id r).0
unfolding revoke
revoke-IsConsistent peer_id r h = record {
  peer_ids = λ id k e. grind (arith, get-insert, text_eq_iff, h.peer_ids);
  flags = λ id k e. grind (arith, get-insert, get-remove, text_eq_iff, h.flags);
  trusted_ids = λ id p e. grind (arith, get-remove, text_eq_iff, h.trusted_ids);
  trusted_known = λ id p e. grind (arith, get-insert, get-remove, text_eq_iff, h.trusted_known);
  invited = λ id p e. grind (arith, get-insert, get-remove, text_eq_iff, h.invited);
  codes = λ id p e. grind (arith, get-remove, text_eq_iff, h.codes);
}
