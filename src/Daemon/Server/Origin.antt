-- ===== src/Daemon/Server/Origin.antt =====
-- What a request to the local API may change: nothing from a foreign origin, and never the consistency
-- of the registry.
use agent_send.Base.{
  ℕ, Text, text, ◌++◌, ◌↔◌, ◌∙◌, any, text_eq, text_eq_iff, Bool, true, false, ◌&&◌, ◌||◌, Option,
  none, some, ◌≡◌, refl, sym, subst, arith, inl, inr, ◌==◌, Text_eq, Bool-cases, if◌then◌else◌,
  strip_prefix,
}
use agent_send.Base.Result.{Result, ok, err, Result-cases}
use agent_send.Base.Map.{Map}
use agent_send.Core.Os.{FileSystem, Sha256}
use agent_send.Core.Request.{TransferRequest}
use agent_send.Registry.Types.{
  PeerAdvertisement, PeerRegistry, PeerTrustStoreError, PairingError, PairingResponse,
}
use agent_send.Peer.Secret.{PairingSecret}
use agent_send.Registry.Code.{Entropy}
use agent_send.Registry.Pairing.{revoke, stored_trust}
use agent_send.Registry.Consistency.{
  IsConsistent, request-IsConsistent, confirm-IsConsistent, revoke-IsConsistent,
}
use agent_send.Registry.Persistence.{
  PeerTrustStore, Daemon, save_changed, confirm_and_save, revoke_and_save,
}
use agent_send.Transfer.Types.{TransferEngine, TransferOutcome}
use agent_send.Automation.Types.{StoredAgentToken}
use agent_send.Daemon.Http.{header_value, allowed_origins, is_allowed_origin}
use agent_send.Daemon.Types.{Answer, agent_error, Json}
use agent_send.Daemon.Agents.{AgentState}
use agent_send.Daemon.Agents.Access.{either}
use agent_send.Daemon.Server.{
  ServerState, split_request, method_path, material_of, pair_answer, pair, confirm, saved_answer,
  revoke_peer, delete_or_not_found, route_to, route, origin_allowed, allow_header, with_header,
  respond,
}

-- The pages of the desktop application: under its own scheme on macOS, under its own host on the
-- other systems, and on this machine with no port or with the one of the development server.
pub data DesktopHost : Text → Type 0 where
  localhost : DesktopHost (text "localhost")
  loopback : DesktopHost (text "127.0.0.1")

pub data DesktopOrigin : Text → Type 0 where
  scheme : DesktopOrigin (text "tauri://localhost")
  host : DesktopOrigin (text "http://tauri.localhost")
  local : {h : Text} → DesktopHost h → DesktopOrigin (text "http://" ++ h)
  development : {h : Text} → DesktopHost h → DesktopOrigin (text "http://" ++ (h ++ text ":1420"))

listed-DesktopOrigin : (o : Text) → any (λ k. k == o) allowed_origins ≡ true → DesktopOrigin o
listed-DesktopOrigin o h =
    from_list (text "tauri://localhost") scheme
      (from_list (text "http://tauri.localhost") host (
        from_list (text "http://localhost") (local localhost) (
          from_list (text "http://127.0.0.1") (local loopback) (
            from_list (text "http://localhost:1420") (development localhost) (
              from_list (text "http://127.0.0.1:1420") (development loopback)
                (λ e. absurd (ground (arith, e))))))))
      h
  where
    from_list :
        (k : Text) {b : Bool}
        → DesktopOrigin k
        → (b ≡ true → DesktopOrigin o)
        → ((k == o) || b) ≡ true
        → DesktopOrigin o
    from_list k d rest e = elim (Bool-cases (k == o)) [
      | inl same ↦ subst DesktopOrigin ((text_eq_iff k o).0 same) d
      | inr other ↦ rest (ground (arith, other, e))
    ]

DesktopOrigin-listed : (o : Text) → DesktopOrigin o → is_allowed_origin o ≡ true
unfolding is_allowed_origin text_eq
DesktopOrigin-listed _ scheme = refl
DesktopOrigin-listed _ host = refl
DesktopOrigin-listed _ (local localhost) = refl
DesktopOrigin-listed _ (local loopback) = refl
DesktopOrigin-listed _ (development localhost) = refl
DesktopOrigin-listed _ (development loopback) = refl

is_allowed_origin-iff-DesktopOrigin : (o : Text) → (is_allowed_origin o ≡ true) ↔ DesktopOrigin o
unfolding is_allowed_origin
is_allowed_origin-iff-DesktopOrigin o = (listed-DesktopOrigin o, DesktopOrigin-listed o)

module _ (store : PeerTrustStore) where
  -- A run that does not panic, and leaves the registry consistent.
  abbrev pub Sound : Option (Answer × ServerState store) → Type 0
  Sound none = ⊥
  Sound (some (answer, s)) = IsConsistent s.daemon.registry

  save_changed-IsConsistent :
      (dm : Daemon store) (after : PeerRegistry) (changed : Bool)
      → IsConsistent dm.registry
      → IsConsistent after
      → IsConsistent (save_changed store dm (after, changed)).1.registry
  unfolding save_changed
  save_changed-IsConsistent dm after false h g = g
  save_changed-IsConsistent dm after true h g =
      elim (Result-cases (store.save (stored_trust after) dm.backing).0) [
        | inl (u, e) ↦ rw e g
        | inr (x, e) ↦ rw e h
      ]

  saved_answer-Sound :
      (changed kept : Answer) (r : Result PeerTrustStoreError Bool × Daemon store)
      (agents : AgentState)
      → IsConsistent r.1.registry
      → Sound (some (saved_answer store changed kept r agents))
  saved_answer-Sound changed kept (ok true, dm) agents h = h
  saved_answer-Sound changed kept (ok false, dm) agents h = h
  saved_answer-Sound changed kept (err e, dm) agents h = h

  pair_answer-Sound :
      (r : Result PairingError PairingResponse × PeerRegistry) (s : ServerState store)
      → IsConsistent r.1
      → Sound (some (pair_answer store r s))
  pair_answer-Sound (ok response, r) s h = h
  pair_answer-Sound (err e, r) s h = h

  module _ (s : ServerState store) (h : IsConsistent s.daemon.registry) where
    pair_with-Sound :
        (now : ℕ) (entropy : Entropy) (a : PeerAdvertisement) (code secret : Option Text)
        (m : Result PairingError (Option (Text × PairingSecret)))
        → material_of code secret ≡ m
        → Sound (some (pair store now entropy (some (a, code, secret)) s))
    unfolding pair
    pair_with-Sound now entropy a code secret (err x) e = rw (e, pair) h
    pair_with-Sound now entropy a code secret (ok m) e =
        rw (e, pair)
          (pair_answer-Sound _ s (request-IsConsistent a now entropy m s.daemon.registry h))

    pair-Sound :
        (now : ℕ) (entropy : Entropy) (r : Option (PeerAdvertisement × Option Text × Option Text))
        → Sound (some (pair store now entropy r s))
    unfolding pair
    pair-Sound now entropy none = h
    pair-Sound now entropy (some (a, code, secret)) =
        pair_with-Sound now entropy a code secret _ refl

    confirm-Sound : (now : ℕ) (r : Option (Text × Text)) → Sound (confirm store now r s)
    unfolding confirm confirm_and_save
    confirm-Sound now none = h
    confirm-Sound now (some (peer_id, code)) =
        let (after, changed, e, g) = confirm-IsConsistent peer_id code now s.daemon.registry h in
        rw e (
          saved_answer-Sound _ _ (save_changed store s.daemon (after, changed)) s.agents
            (save_changed-IsConsistent s.daemon after changed h g))

    revoke_peer-Sound : (id : Text) → Sound (some (revoke_peer store id s))
    unfolding revoke_peer revoke_and_save
    revoke_peer-Sound id =
        saved_answer-Sound _ _ (save_changed store s.daemon (revoke id s.daemon.registry)) s.agents
          (save_changed-IsConsistent s.daemon (revoke id s.daemon.registry).0
            (revoke id s.daemon.registry).1 h (revoke-IsConsistent id s.daemon.registry h))

    delete-Sound :
        (method : Text) (id : Option Text) → Sound (some (delete_or_not_found store method id s))
    unfolding delete_or_not_found
    delete-Sound method none = h
    delete-Sound method (some id) =
        either (λ r. Sound (some r)) (method == text "DELETE") (revoke_peer-Sound id) h

    module _ (sha : Sha256) (fs : FileSystem) (d : fs.Disk) (json : Json) (identity_id : Text)
        (engine : TransferEngine) (tokens : Map StoredAgentToken)
        (send : PeerRegistry → TransferRequest → Result Text TransferOutcome) (now : ℕ)
        (entropy : Entropy) where
      route_to-Sound :
          (head body method path : Text)
          → Sound (
              route_to store sha fs d json identity_id engine tokens send now entropy head body
                method path s)
      unfolding route_to
      route_to-Sound head body method path =
          either Sound (method == text "GET" && path == text "/v1/health") h (
            either Sound (method == text "GET" && path == text "/v1/peers") h (
              either Sound (method == text "POST" && path == text "/v1/agent") h (
                either Sound
                  (method == text "POST"
                    && (path == text "/v1/pairings" || path == text "/v1/pairing"))
                  (pair-Sound now entropy (json.pairing_request body))
                  (either Sound
                    (method == text "POST"
                      && (path == text "/v1/pairings/confirm"
                          || path == text "/v1/pairing/confirm"))
                    (confirm-Sound now (json.confirm_pairing body))
                    (delete-Sound method (strip_prefix (text "/v1/peers/") path))))))

      route-Sound :
          (head body : Text) (m : Option Text × Option Text)
          → Sound
              (route store sha fs d json identity_id engine tokens send now entropy head body m s)
      unfolding route
      route-Sound head body (none, path) = h
      route-Sound head body (some method, none) = either Sound (method == text "OPTIONS") h h
      route-Sound head body (some method, some path) =
          either Sound (method == text "OPTIONS") h (route_to-Sound head body method path)

      -- What a request may end in: from a foreign origin in a refusal that changes nothing, from a
      -- page of the desktop application or from no page at all in an answer and a consistent registry.
      -- A header lets in the request's own origin only, and only if it is such a page.
      pub data IsAnswered (request : Text)
          : Option (Answer × Option Text × ServerState store) → Type 0 where
        foreign :
            (origin : Text)
            → header_value (split_request request).0 (text "origin") ≡ some origin
            → ¬ DesktopOrigin origin
            → IsAnswered request
                (some (agent_error (text "403 Forbidden") (text "origin_not_allowed"), none, s))
        from_desktop :
            (origin : Text) {answer : Answer} {s' : ServerState store}
            → header_value (split_request request).0 (text "origin") ≡ some origin
            → DesktopOrigin origin
            → IsConsistent s'.daemon.registry
            → IsAnswered request (some (answer, some origin, s'))
        no_origin :
            {answer : Answer} {s' : ServerState store}
            → header_value (split_request request).0 (text "origin") ≡ none
            → IsConsistent s'.daemon.registry
            → IsAnswered request (some (answer, none, s'))

      local-IsAnswered :
          (request : Text) (origin : Option Text) (r : Option (Answer × ServerState store))
          → header_value (split_request request).0 (text "origin") ≡ origin
          → origin_allowed origin ≡ true
          → Sound r
          → IsAnswered request (with_header store origin r)
      local-IsAnswered request origin none e a x = absurd x
      local-IsAnswered request none (some (answer, s')) e a x = no_origin e x
      local-IsAnswered request (some o) (some (answer, s')) e a x =
          rw a (from_desktop o e ((is_allowed_origin-iff-DesktopOrigin o).0 a) x)

      abbrev answer_to : Text → Option Text → Option (Answer × Option Text × ServerState store)
      answer_to request origin =
          let (head, body) = split_request request in
          with_header store origin (
            if origin_allowed origin
            then route store sha fs d json identity_id engine tokens send now entropy head body
                (method_path head) s
            else some (agent_error (text "403 Forbidden") (text "origin_not_allowed"), s))

      origin-IsAnswered :
          (request : Text) (origin : Option Text)
          → header_value (split_request request).0 (text "origin") ≡ origin
          → IsAnswered request (answer_to request origin)
      origin-IsAnswered request none e = local-IsAnswered request none _ e refl (
          route-Sound (split_request request).0 (split_request request).1
            (method_path (split_request request).0))
      origin-IsAnswered request (some o) e = elim (Bool-cases (is_allowed_origin o)) [
        | inl allowed ↦ rw allowed (
            local-IsAnswered request (some o) _ e allowed (
              route-Sound (split_request request).0 (split_request request).1
                (method_path (split_request request).0)))
        | inr other ↦
            let shut : allow_header (some o) ≡ none = ground (arith, other) in
            rw (other, with_header)
              (subst
                (λ a.
                  IsAnswered request
                    (some (agent_error (text "403 Forbidden") (text "origin_not_allowed"), a, s)))
                (sym shut)
                (foreign o e (λ d.
                  let same : false ≡ true =
                    sym other ∙ (is_allowed_origin-iff-DesktopOrigin o).1 d in
                  absurd (ground (arith, same)))))
      ]

      -- If the registry is consistent, every request is answered without a panic. One whose `Origin` is
      -- not a page of the desktop application is refused, changes nothing and gets no header that lets
      -- it in. One from such a page, or with no `Origin`, leaves the registry consistent, whatever it
      -- asks for and whether or not the store can save; the header lets in exactly the page that it
      -- named, and there is none where it named none.
      pub respond-IsAnswered :
          (request : Text)
          → IsAnswered request
              (respond store sha fs d json identity_id engine tokens send now entropy request s)
      unfolding respond
      respond-IsAnswered request =
          subst (λ o. IsAnswered request (answer_to request o)) refl
            (origin-IsAnswered request (header_value (split_request request).0 (text "origin"))
              refl)
