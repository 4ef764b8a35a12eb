-- ===== src/Examples/Restarts.antt =====
-- A daemon that starts again.
use agent_send.Base.{
  text, List, [], ◌∷◌, none, some, ◌≡◌, refl, subst, arith, true, All, is_blank, text_eq,
  text_compare,
}
use agent_send.Base.Result.{ok}
use agent_send.Base.Map.{get, insert, remove}
use agent_send.Peer.Secret.{IsSecret, new_paired_peer}
use agent_send.Registry.Types.{PeerRegistry, empty}
use agent_send.Registry.Code.{validate_pairing_code, choose_material}
use agent_send.Registry.Pairing.{
  advertise, request_pairing_with_material, confirm_pairing, stored_trust, restore_trusted,
}
use agent_send.Registry.History.{Call, requests, confirms, step, run}
use agent_send.Registry.Restart.{IsRestarted}
use agent_send.Registry.Restart.Kept.{IsSized, restore_trusted-stored_trust-run}
use agent_send.Examples.Channels.{key, key-IsSecret}
use agent_send.Examples.Pairings.{phone}

abbrev calls : List Call
calls =
    requests phone 100 (record { draws = []; secret_bytes = none }) (some (text "123456", key))
    ∷ confirms (text "phone") (text "123456") 160
    ∷ []

calls-IsSized : All IsSized calls
calls-IsSized = (
  (λ s e. absurd (ground (arith, e)), λ code s e. subst IsSecret (ground (arith, e)) key-IsSecret),
  (tt, tt),
)

abbrev trusting_phone : PeerRegistry
trusting_phone = record {
  peers = (text "phone", record { advertisement = phone; trusted = true }) ∷ [];
  trusted = (text "phone", record { id = text "phone"; secret = key }) ∷ [];
  pending = [];
}

runs : run empty calls ≡ some trusting_phone
unfolding run step request_pairing_with_material confirm_pairing get is_blank choose_material
    validate_pairing_code insert advertise text_eq new_paired_peer text_compare remove
runs = refl

restore_trusted-stored_trust-run_example :
    (after : PeerRegistry) × (restore_trusted (stored_trust trusting_phone) empty ≡ (ok tt, after))
    × IsRestarted trusting_phone after
restore_trusted-stored_trust-run_example =
    restore_trusted-stored_trust-run calls calls-IsSized trusting_phone runs
