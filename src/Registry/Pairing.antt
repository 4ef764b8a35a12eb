-- ===== src/Registry/Pairing.antt =====
-- `PeerRegistry` of crates/agent-send-daemon/src/lib.rs. Time is the argument `now`, in seconds.
use agent_send.Base.{
  ℕ, ◌+◌, ◌-◌, Text, List, [], ◌∷◌, Bool, true, false, not, ◌||◌, Option, none, some, if◌then◌else◌,
  ◌==◌, Text_eq, leb, is_blank,
}
use Prim.Native.Nat.{min}
use agent_send.Base.Result.{Result, ok, err, reject_if}
use agent_send.Base.Exec.{Exec, pure, lift, gets, ◌>>=◌, ◌>>◌}
use agent_send.Base.Map.{Map, get, insert, remove, values, contains_key}
use agent_send.Limits.{u64_mod}
use agent_send.Peer.Message.{PeerChannelError}
use agent_send.Peer.Secret.{PairingSecret, PairedPeer, to_hex, new_paired_peer}
use agent_send.Registry.Types.{
  PeerAdvertisement, PeerRecord, PairingResponse, PairingError, invalid_peer_id, PendingPairing,
  PeerRegistry, PeerTrustStoreError, invalid_secret, StoredPeerTrust, stored, stored_peer,
}
use agent_send.Registry.Code.{Entropy, choose_material}

-- `PAIRING_TTL_SECONDS`
abbrev pub pairing_ttl_seconds : ℕ
pairing_ttl_seconds = 300

-- `u64::saturating_add`
abbrev pub saturating_add : ℕ → ℕ → ℕ
saturating_add a b = min (a + b) (u64_mod - 1)

-- `PeerRegistry::list`
unfoldable pub list : PeerRegistry → List PeerRecord
list r = values r.peers

-- `PeerRegistry::advertise`
unfoldable pub advertise : PeerAdvertisement → PeerRegistry → PeerRegistry
advertise a r = record r {
  peers = insert r.peers a.id (record { advertisement = a; trusted = contains_key r.trusted a.id });
}

abbrev pub Registry : Type 0 → Type 0
Registry = Exec PeerRegistry PairingError

abbrev modify : (PeerRegistry → PeerRegistry) → Registry Unit
modify f r = (ok tt, f r)

unfoldable pub add_pending : Text → Text → PairingSecret → ℕ → Registry Unit
add_pending id code s now = modify λ r. record r {
  pending =
      insert r.pending id
        (record { code = code; secret = s; expires_at = saturating_add now pairing_ttl_seconds });
}

-- `PeerRegistry::request_pairing_with_material`
unfoldable pub request_pairing_with_material :
    PeerAdvertisement → ℕ → Entropy → Option (Text × PairingSecret) → Registry PairingResponse
unfolding add_pending
request_pairing_with_material a now entropy material = do
  lift (reject_if (is_blank a.id) invalid_peer_id)
  modify (advertise a)
  chosen ← lift (choose_material entropy material)
  add_pending a.id chosen.0 chosen.1 now
  pure (record {
    peer_id = a.id;
    code = chosen.0;
    pairing_secret = to_hex chosen.1;
    expires_in_seconds = pairing_ttl_seconds;
  })

-- `PeerRegistry::request_pairing`
unfoldable pub request_pairing : PeerAdvertisement → ℕ → Entropy → Registry PairingResponse
unfolding request_pairing_with_material
request_pairing a now entropy = request_pairing_with_material a now entropy none

-- `none` stands for the panic of `PairedPeer::new(..).expect(..)`.
abbrev trust :
    PeerRegistry → Text → Result PeerChannelError PairedPeer → Option (PeerRegistry × Bool)
trust r peer_id (ok p) = some (record r { trusted = insert r.trusted peer_id p }, true)
trust r peer_id (err e) = none

unfoldable pub accept_pairing :
    PeerRegistry → Text → PendingPairing → Option PeerRecord → Option (PeerRegistry × Bool)
accept_pairing r peer_id p none = some (r, false)
accept_pairing r peer_id p (some known) =
    trust (record r { peers = insert r.peers peer_id (record known { trusted = true }) }) peer_id
      (new_paired_peer peer_id p.secret)

unfoldable pub check_pending :
    PeerRegistry → Text → Text → ℕ → Option PendingPairing → Option (PeerRegistry × Bool)
unfolding accept_pairing
check_pending r peer_id code now none = some (r, false)
check_pending r peer_id code now (some p) =
    if leb p.expires_at now || not (p.code == code)
    then some (
        if leb p.expires_at now
        then (record r { pending = remove r.pending peer_id }, false)
        else (r, false))
    else accept_pairing (record r { pending = remove r.pending peer_id }) peer_id p
        (get r.peers peer_id)

-- `PeerRegistry::confirm_pairing`
unfoldable pub confirm_pairing : Text → Text → ℕ → PeerRegistry → Option (PeerRegistry × Bool)
unfolding check_pending
confirm_pairing peer_id code now r = check_pending r peer_id code now (get r.pending peer_id)

abbrev distrust : Map PeerRecord → Text → Option PeerRecord → Map PeerRecord
distrust m peer_id none = m
distrust m peer_id (some p) = insert m peer_id (record p { trusted = false })

-- `PeerRegistry::revoke`
unfoldable pub revoke : Text → PeerRegistry → PeerRegistry × Bool
revoke peer_id r = (
  record {
    peers = distrust r.peers peer_id (get r.peers peer_id);
    trusted = remove r.trusted peer_id;
    pending = remove r.pending peer_id;
  },
  contains_key r.trusted peer_id,
)

-- `PeerRegistry::paired_peer`
unfoldable pub paired_peer : PeerRegistry → Text → Option PairedPeer
paired_peer r peer_id = get r.trusted peer_id

unfoldable pub collect_trust : Map PeerRecord → Map PairedPeer → List StoredPeerTrust
collect_trust peers [] = []
collect_trust peers ((id, p) ∷ rest) = elim (get peers id) [
  | none ↦ collect_trust peers rest
  | some known ↦ stored known p.secret ∷ collect_trust peers rest
]

-- `PeerRegistry::stored_trust`
unfoldable pub stored_trust : PeerRegistry → List StoredPeerTrust
unfolding collect_trust
stored_trust r = collect_trust r.peers r.trusted

unfoldable pub insert_trusted : Text → PairedPeer → Exec PeerRegistry PeerTrustStoreError Unit
insert_trusted id p r = (ok tt, record r { trusted = insert r.trusted id p })

unfoldable pub insert_record : Text → PeerRecord → Exec PeerRegistry PeerTrustStoreError Unit
insert_record id known r = (ok tt, record r { peers = insert r.peers id known })

-- `insert(..).is_some()` inserts, and then refuses an identifier that was there before.
unfoldable pub add_trusted :
    StoredPeerTrust → PairedPeer → Bool → Exec PeerRegistry PeerTrustStoreError Unit
unfolding insert_trusted insert_record
add_trusted t p known = do
  insert_trusted t.peer_record.advertisement.id p
  lift (reject_if known invalid_secret)
  insert_record t.peer_record.advertisement.id t.peer_record

unfoldable pub restore_one : StoredPeerTrust → Exec PeerRegistry PeerTrustStoreError Unit
unfolding add_trusted
restore_one t = do
  lift (reject_if (not t.peer_record.trusted) invalid_secret)
  p ← lift (stored_peer t)
  r ← gets (λ r. r)
  add_trusted t p (contains_key r.trusted t.peer_record.advertisement.id)

-- `PeerRegistry::restore_trusted`
unfoldable pub restore_trusted : List StoredPeerTrust → Exec PeerRegistry PeerTrustStoreError Unit
unfolding restore_one
restore_trusted [] = pure tt
restore_trusted (t ∷ rest) = do restore_one t; restore_trusted rest
