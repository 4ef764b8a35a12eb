-- ===== src/Examples/Pairings.antt =====
-- Pairing codes and the registry.
use agent_send.Base.{
  ◌⊎◌, inl, Bool, false, ℕ, text, List, [], ◌∷◌, ◌≡◌, refl, arith, none, some, true, is_blank,
  text_eq, text_compare,
}
use agent_send.Base.Result.{Result, ok, err}
use agent_send.Core.Os.{os}
use agent_send.Registry.Persistence.{
  PeerTrustStore, Stores, Daemon, Settles, confirm_and_save, confirm_and_save-Persisted,
}
use agent_send.Base.Map.{get, insert, remove}
use agent_send.Peer.Secret.{PairingSecret, new_paired_peer}
use agent_send.Registry.Types.{
  PeerAdvertisement, PeerRegistry, empty, StoredPeerTrust, PeerTrustStoreError, io,
}
use agent_send.Registry.Code.{validate_pairing_code, new_pairing_code, six_digits, choose_material}
use agent_send.Registry.Pairing.{
  advertise, request_pairing_with_material, confirm_pairing, paired_peer,
}
use agent_send.Registry.Consistency.{
  IsConsistent, empty-IsConsistent, request-IsConsistent, confirm-Confirmed, Confirmed,
}
use agent_send.Registry.History.{
  Call, requests, confirms, step, run, run-IsConsistent, Granted, trust-Granted,
}

new_code : new_pairing_code (4294967000 ∷ 4293999999 ∷ []) ≡ ok (text "999999")
unfolding new_pairing_code six_digits
new_code = refl

abbrev draw : ℕ
draw = 1000007

abbrev seven : ℕ
seven = 7

abbrev pub phone : PeerAdvertisement
phone = record {
  id = text "phone";
  alias = text "p";
  address = text "192.0.2.7:1";
  api_version = 1;
}

abbrev key : PairingSecret
key = record { bytes = 1 ∷ 2 ∷ [] }

abbrev asks : Call
asks = requests phone 100 (record { draws = []; secret_bytes = none }) (some (text "123456", key))

abbrev calls : List Call
calls = asks ∷ confirms (text "phone") (text "123456") 160 ∷ []

run-IsConsistent_example : (r : PeerRegistry) × (run empty calls ≡ some r) × IsConsistent r
run-IsConsistent_example = run-IsConsistent calls

abbrev pub paired : PeerRegistry
paired = record {
  peers = (text "phone", record { advertisement = phone; trusted = true }) ∷ [];
  trusted = (text "phone", record { id = text "phone"; secret = key }) ∷ [];
  pending = [];
}

runs : run empty calls ≡ some paired
unfolding run step request_pairing_with_material confirm_pairing get is_blank choose_material
    validate_pairing_code insert advertise text_eq new_paired_peer text_compare remove
runs = refl

trusts_phone : paired_peer paired (text "phone") ≡ some (record { id = text "phone"; secret = key })
unfolding paired_peer get text_eq
trusts_phone = refl

trust-Granted_example :
    Granted empty calls (text "phone") (record { id = text "phone"; secret = key })
trust-Granted_example =
    trust-Granted calls paired (text "phone") (record { id = text "phone"; secret = key }) runs
      trusts_phone

-- The registry that waits for the confirmation.
abbrev pub waiting : PeerRegistry
waiting =
    (request_pairing_with_material phone 100 (record { draws = []; secret_bytes = none })
      (some (text "123456", key)) empty).1

pub waiting-IsConsistent : IsConsistent waiting
waiting-IsConsistent =
    request-IsConsistent phone 100 (record { draws = []; secret_bytes = none })
      (some (text "123456", key)) empty empty-IsConsistent

confirm-Confirmed_example :
    Confirmed
      (text "phone")
      (text "123456")
      160
      waiting
      waiting-IsConsistent
      (confirm_pairing (text "phone") (text "123456") 160 waiting)
confirm-Confirmed_example =
    confirm-Confirmed (text "phone") (text "123456") 160 waiting waiting-IsConsistent

-- A store of trust in memory that is writable or not.
abbrev save_to :
    List StoredPeerTrust
    → Bool × List StoredPeerTrust
    → Result PeerTrustStoreError (Unit {0}) × (Bool × List StoredPeerTrust)
save_to peers (true, old) = (ok tt, (true, peers))
save_to peers (false, old) = (err (io (os 30)), (false, old))

abbrev pub file : PeerTrustStore
file = record { Store = Bool × List StoredPeerTrust; load = λ s. ok s.1; save = save_to }

saves_to :
    (peers : List StoredPeerTrust) (s : Bool × List StoredPeerTrust)
    → (save_to peers s).0 ≡ ok tt
    → (save_to peers s).1.1 ≡ peers
saves_to peers (true, old) h = refl
saves_to peers (false, old) h = ground arith

save_fails :
    (peers : List StoredPeerTrust) (s : Bool × List StoredPeerTrust) (e : PeerTrustStoreError)
    → (save_to peers s).0 ≡ err e
    → ((save_to peers s).1.1 ≡ s.1) ⊎ ((save_to peers s).1.1 ≡ peers)
save_fails peers (true, old) e h = absurd (ground (arith, h))
save_fails peers (false, old) e h = inl refl

file-Stores : Stores file
file-Stores = record { contents = λ s. s.1; saves = saves_to; fails = save_fails }

abbrev pub daemon : PeerRegistry → Bool → Daemon file
daemon r writable = record { registry = r; backing = (writable, []) }

confirm_and_save-Persisted_example :
    Settles file file-Stores
      (daemon waiting true)
      (confirm_pairing (text "phone") (text "123456") 160 waiting)
      (confirm_and_save file (text "phone") (text "123456") 160 (daemon waiting true))
confirm_and_save-Persisted_example =
    confirm_and_save-Persisted file file-Stores (daemon waiting true) (text "phone") (text "123456")
      160 waiting-IsConsistent
