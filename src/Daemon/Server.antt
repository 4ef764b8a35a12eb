-- ===== src/Daemon/Server.antt =====
-- `handle_connection` of crates/agent-send-daemon/src/lib.rs: one HTTP request to the local API.
pub mod Origin
use agent_send.Base.{
  ℕ, ◌*◌, Text, text, Bytes, List, [], ◌∷◌, ◌++◌, Bool, true, false, ◌&&◌, ◌||◌, Option, none, some,
  ◌==◌, Text_eq, if◌then◌else◌, is_empty, leb, length, trim_start, span_word, strip_prefix, is_some,
}
use agent_send.Base.Result.{Result, ok, err, map_err, ◌>>=◌}
use agent_send.Base.Map.{Map}
use agent_send.Base.Decimal.{decimal}
use agent_send.Core.Os.{FileSystem, Sha256, IoError}
use agent_send.Core.Request.{TransferRequest}
use agent_send.Peer.Message.{invalid_pairing_secret}
use agent_send.Peer.Secret.{PairingSecret, from_hex}
use agent_send.Registry.Types.{
  PeerAdvertisement, PeerRegistry, PairingError, incomplete_material, PairingResponse,
  PeerTrustStoreError,
}
use agent_send.Registry.Types
use agent_send.Registry.Code.{Entropy}
use agent_send.Registry.Pairing.{list, request_pairing_with_material}
use agent_send.Registry.Persistence.{PeerTrustStore, Daemon, confirm_and_save, revoke_and_save}
use agent_send.Transfer.Types.{TransferEngine, TransferOutcome}
use agent_send.Automation.Types.{StoredAgentToken}
use agent_send.Daemon.Http.{header_value, is_allowed_origin, lines, request_is_complete}
use agent_send.Daemon.Types.{
  Body, empty, failure, health, peers, invitation, confirmed_true, confirmed_false, revoked_true,
  Answer, agent_error, bad_request, Json,
}
use agent_send.Daemon.Agents.{AgentState, handle_agent_request}

-- `MAX_REQUEST_BYTES`
abbrev pub max_request_bytes : ℕ
max_request_bytes = 1024 * 1024

module _ (from_utf8_lossy : Bytes → Text) where
  -- The loop that reads the request: `none` where a read fails
  unfoldable pub read_request : Bytes → List (Result IoError Bytes) → Option Bytes
  unfolding request_is_complete
  read_request request [] = some request
  read_request request (err e ∷ rest) =
      if leb max_request_bytes (length request) then some request else none
  read_request request (ok bytes ∷ rest) =
      let later = read_request (request ++ bytes) rest in
      if leb max_request_bytes (length request) || is_empty bytes
      then some request
      else if request_is_complete from_utf8_lossy (request ++ bytes)
      then some (request ++ bytes)
      else later

-- `text.splitn(2, "\r\n\r\n")`
abbrev head_onto : ℕ → Text × Text → Text × Text
head_onto c (head, body) = (c ∷ head, body)

unfoldable pub split_request : Text → Text × Text
unfolding strip_prefix
split_request [] = ([], [])
split_request (c ∷ cs) =
    let later = head_onto c (split_request cs) in
    elim (strip_prefix (13 ∷ 10 ∷ 13 ∷ 10 ∷ []) (c ∷ cs)) [ some body ↦ ([], body) | none ↦ later ]

abbrev first_of : List Text → Text
first_of [] = []
first_of (line ∷ rest) = line

abbrev unless_empty : Text → Option Text
unless_empty [] = none
unless_empty (c ∷ cs) = some (c ∷ cs)

-- `first_line.split_whitespace().take(2)`
unfoldable pub method_path : Text → Option Text × Option Text
unfolding trim_start span_word lines
method_path head =
    let (method, rest) = span_word (trim_start (first_of (lines head))) in
    let (path, _) = span_word (trim_start rest) in (unless_empty method, unless_empty path)

-- The match on the code and the secret of a `PairingRequest`
unfoldable pub material_of :
    Option Text → Option Text → Result PairingError (Option (Text × PairingSecret))
unfolding from_hex
material_of none none = ok none
material_of (some code) (some secret) =
    map_err (λ _. PairingError.secret invalid_pairing_secret) (from_hex secret) >>= λ s.
    ok (some (code, s))
material_of _ _ = err incomplete_material

abbrev origin_allowed : Option Text → Bool
origin_allowed none = true
origin_allowed (some origin) = is_allowed_origin origin

abbrev allow_header : Option Text → Option Text
allow_header none = none
allow_header (some origin) = if is_allowed_origin origin then some origin else none

abbrev cors_line : Option Text → Text
cors_line none = []
cors_line (some origin) = text "Access-Control-Allow-Origin: " ++ (origin ++ (13 ∷ 10 ∷ []))

-- The bytes that are written to the socket
unfoldable pub response_bytes : (Body → Text) → Answer → Option Text → Bytes
unfolding decimal
response_bytes to_string answer allowed =
    let body = to_string answer.body in
    text "HTTP/1.1 "
    ++ (answer.status
        ++ (text "\r\nContent-Type: application/json\r\n"
            ++ (cors_line allowed
                ++ (text
                      "Access-Control-Allow-Headers: Content-Type, Authorization\r\nAccess-Control-Allow-Methods: GET, POST, DELETE, OPTIONS\r\nContent-Length: "
                    ++ (decimal (length body) ++ (text "\r\nConnection: close\r\n\r\n" ++ body))))))

module _ (store : PeerTrustStore) where
  pub record ServerState : Type 0 where
    pub daemon : Daemon store
    pub agents : AgentState

  -- The answer to a change of trust that may fail to be saved
  abbrev saved_answer :
      Answer
      → Answer
      → Result PeerTrustStoreError Bool × Daemon store
      → AgentState
      → Answer × ServerState
  saved_answer changed kept (ok true, d) agents = (changed, record { daemon = d; agents = agents })
  saved_answer changed kept (ok false, d) agents = (kept, record { daemon = d; agents = agents })
  saved_answer changed kept (err e, d) agents = (
    agent_error (text "500 Internal Server Error") (text "storage_failed"),
    record { daemon = d; agents = agents },
  )

  abbrev confirm_answer :
      Option (Result PeerTrustStoreError Bool × Daemon store)
      → AgentState
      → Option (Answer × ServerState)
  confirm_answer none agents = none
  confirm_answer (some r) agents = some (
      saved_answer (record { status = text "200 OK"; body = confirmed_true })
        (record { status = text "400 Bad Request"; body = confirmed_false }) r agents)

  abbrev pair_answer :
      Result PairingError PairingResponse × PeerRegistry → ServerState → Answer × ServerState
  pair_answer (ok response, r) s = (
    record { status = text "200 OK"; body = invitation response },
    record s { daemon = record s.daemon { registry = r } },
  )
  pair_answer (err e, r) s = (bad_request, record s { daemon = record s.daemon { registry = r } })

  -- `POST /v1/pairings`
  unfoldable pub pair :
      ℕ
      → Entropy
      → Option (PeerAdvertisement × Option Text × Option Text)
      → ServerState
      → Answer × ServerState
  unfolding material_of request_pairing_with_material
  pair now entropy none s = (bad_request, s)
  pair now entropy (some (advertisement, code, secret)) s = elim (material_of code secret) [
    | err e ↦ (bad_request, s)
    | ok material ↦
        pair_answer
          (request_pairing_with_material advertisement now entropy material s.daemon.registry) s
  ]

  -- `POST /v1/pairings/confirm`
  unfoldable pub confirm : ℕ → Option (Text × Text) → ServerState → Option (Answer × ServerState)
  unfolding confirm_and_save
  confirm now none s = some (bad_request, s)
  confirm now (some (peer_id, code)) s =
      confirm_answer (confirm_and_save store peer_id code now s.daemon) s.agents

  -- `DELETE /v1/peers/{id}`
  unfoldable pub revoke_peer : Text → ServerState → Answer × ServerState
  unfolding revoke_and_save
  revoke_peer id s =
      saved_answer (record { status = text "200 OK"; body = revoked_true })
        (agent_error (text "404 Not Found") (text "peer_not_found"))
        (revoke_and_save store id s.daemon) s.agents

  -- The last two arms of the match on method and path
  unfoldable pub delete_or_not_found : Text → Option Text → ServerState → Answer × ServerState
  unfolding revoke_peer
  delete_or_not_found method none s = (agent_error (text "404 Not Found") (text "not_found"), s)
  delete_or_not_found method (some id) s =
      if method == text "DELETE"
      then revoke_peer id s
      else (agent_error (text "404 Not Found") (text "not_found"), s)

  abbrev with_header :
      Option Text → Option (Answer × ServerState) → Option (Answer × Option Text × ServerState)
  with_header origin none = none
  with_header origin (some (answer, s)) = some (answer, allow_header origin, s)

  module _ (sha : Sha256) (fs : FileSystem) (d : fs.Disk) (json : Json) (identity_id : Text)
      (engine : TransferEngine) (tokens : Map StoredAgentToken)
      (send : PeerRegistry → TransferRequest → Result Text TransferOutcome) (now : ℕ)
      (entropy : Entropy) where
    abbrev ask_agents : Text → Text → ServerState → Answer × ServerState
    ask_agents head body s =
        let (answer, agents) =
          handle_agent_request sha fs d json s.daemon.registry engine tokens
            (send s.daemon.registry) now head body s.agents in
        (answer, record s { agents = agents })

    -- The match on method and path. `none` stands for a panic in `confirm_pairing`.
    unfoldable pub route_to :
        Text → Text → Text → Text → ServerState → Option (Answer × ServerState)
    unfolding handle_agent_request pair confirm delete_or_not_found list strip_prefix
    route_to head body method path s =
        if method == text "GET" && path == text "/v1/health"
        then some (record { status = text "200 OK"; body = health identity_id }, s)
        else if method == text "GET" && path == text "/v1/peers"
        then some (record { status = text "200 OK"; body = peers (list s.daemon.registry) }, s)
        else if method == text "POST" && path == text "/v1/agent"
        then some (ask_agents head body s)
        else if method == text "POST" && (path == text "/v1/pairings" || path == text "/v1/pairing")
        then some (pair now entropy (json.pairing_request body) s)
        else if method == text "POST"
            && (path == text "/v1/pairings/confirm" || path == text "/v1/pairing/confirm")
        then confirm now (json.confirm_pairing body) s
        else some (delete_or_not_found method (strip_prefix (text "/v1/peers/") path) s)

    unfoldable pub route :
        Text → Text → Option Text × Option Text → ServerState → Option (Answer × ServerState)
    unfolding route_to
    route head body (none, path) s = some (agent_error (text "404 Not Found") (text "not_found"), s)
    route head body (some method, none) s =
        if method == text "OPTIONS"
        then some (record { status = text "204 No Content"; body = empty }, s)
        else some (agent_error (text "404 Not Found") (text "not_found"), s)
    route head body (some method, some path) s =
        if method == text "OPTIONS"
        then some (record { status = text "204 No Content"; body = empty }, s)
        else route_to head body method path s

    -- What `handle_connection` answers to the text of a request: the answer, the value of
    -- `Access-Control-Allow-Origin`, and the state
    unfoldable pub respond : Text → ServerState → Option (Answer × Option Text × ServerState)
    unfolding split_request header_value is_allowed_origin method_path route
    respond request s =
        let (head, body) = split_request request in
        let origin = header_value head (text "origin") in
        with_header origin (
          if origin_allowed origin
          then route head body (method_path head) s
          else some (agent_error (text "403 Forbidden") (text "origin_not_allowed"), s))

    abbrev answered :
        (Body → Text)
        → Option (Answer × Option Text × ServerState)
        → Option (Option Bytes × ServerState)
    answered to_string none = none
    answered to_string (some (answer, allowed, s)) =
        some (some (response_bytes to_string answer allowed), s)

    -- `handle_connection`: `reads` are the results of reading the socket, and `to_string` writes an
    -- answer as JSON. Nothing is written where a read fails.
    unfoldable pub handle_connection :
        (Bytes → Text)
        → (Body → Text)
        → List (Result IoError Bytes)
        → ServerState
        → Option (Option Bytes × ServerState)
    unfolding read_request respond
    handle_connection from_utf8_lossy to_string reads s =
        elim (read_request from_utf8_lossy [] reads) [
          | none ↦ some (none, s)
          | some request ↦ answered to_string (respond (from_utf8_lossy request) s)
        ]
