-- ===== src/Examples/Daemons.antt =====
-- Requests to the local API, and connections of peers.
use agent_send.Base.{
  Text, text, Bytes, [], ◌∷◌, Option, none, some, ◌≡◌, refl, true, text_eq, is_blank,
}
use agent_send.Base.Result.{Result, ok, err}
use agent_send.Base.Map.{Map, get}
use agent_send.Hex.{hex}
use agent_send.Core.Request
use agent_send.Core.Policy.{resolve, validate_relative, check_direction, ensure_beneath}
use agent_send.Core.Paths.{components, render, join, starts_with}
use agent_send.Transfer.Outbound.{transfer_total_bytes, count_files}
use agent_send.Transfer.Receive.{result_message}
use agent_send.Peer.Channel.{seal, open_frame, derive_key}
use agent_send.Peer.Socket.{send}
use agent_send.Peer.Socket
use agent_send.Peer.Frame.{to_be_bytes, key_info, nonce, associated_data}
use agent_send.Core.Request.{TransferRequest}
use agent_send.Peer.Message.{hello, validate}
use agent_send.Peer.Connection.{PeerConnection, send_message, receive_message}
use agent_send.Registry.Types.{PeerRegistry}
use agent_send.Registry.Code.{Entropy}
use agent_send.Transfer.Types.{TransferOutcome}
use agent_send.Automation.Types.{StoredAgentToken}
use agent_send.Automation.Tokens.{hash}
use agent_send.Automation.Compare.{constant_time_eq}
use agent_send.Automation.Audit.{append}
use agent_send.Daemon.Types.{Json}
use agent_send.Daemon.Agents.{
  AgentState, actor_of, handle_agent_request, send_agent_socket_transfer,
}
use agent_send.Daemon.Agents.Access.{IsHandled, handle_agent_request-IsHandled, submit-audited_ok}
use agent_send.Daemon.Server.{ServerState, respond}
use agent_send.Daemon.Server.Origin.{IsAnswered, respond-IsAnswered}
use agent_send.Daemon.Peers.{accept}
use agent_send.Daemon.Peers.Paired.{
  IsPaired, accept-IsPaired, IsToTrusted, send_agent_socket_transfer-IsToTrusted,
}
use agent_send.Examples.World.{memory, reading, checksum, disk}
use agent_send.Examples.Wire.{toy}
use agent_send.Examples.Channels.{key, phone}
use agent_send.Examples.Sockets.{duplex, pipe, desk_end}
use agent_send.Examples.Senders.{never, request, sender, answer, outcome}
use agent_send.Examples.Agents.{scope, agent, order, engine, no_transfers}
use agent_send.Examples.Pairings.{file, daemon, waiting, waiting-IsConsistent, paired}

-- A body is the name of its operation.
abbrev json : Json
json = record {
  Value = Text;
  operation_request = λ b. some (b, []);
  transfer_request = λ v. some order;
  pairing_request = λ b. none;
  confirm_pairing = λ b. some (text "phone", text "123456");
  transfer_id = λ v. none;
}

abbrev tokens : Map StoredAgentToken
tokens =
    (text "01", record { id = text "01"; token_hash = hash checksum (text "t"); scope = scope })
    ∷ []

abbrev unreachable : TransferRequest → Result Text TransferOutcome
unreachable r = err (text "unreachable")

abbrev quiet : AgentState
quiet = record { transfers = no_transfers; log = [] }

abbrev head : Text
head = text "POST /v1/agent HTTP/1.1\r\nAuthorization: Bearer t"

handle_agent_request-IsHandled_example :
    IsHandled checksum memory disk json paired engine tokens unreachable 5 head
      (text "peers.list")
      quiet
      (handle_agent_request checksum memory disk json paired engine tokens unreachable 5 head
        (text "peers.list")
        quiet)
handle_agent_request-IsHandled_example =
    handle_agent_request-IsHandled checksum memory disk json paired engine tokens unreachable 5 head
      (text "peers.list") quiet

authorized : actor_of checksum memory disk json paired engine tokens unreachable 5 head ≡ some agent
unfolding actor_of hash text_eq constant_time_eq hex
authorized = refl

-- The registry does not know the peer `desk`.
submit-audited_ok_example :
    (id : Option Text) × ((handle_agent_request checksum memory disk json paired engine tokens
        unreachable 5 head
        (text "transfers.submit")
        quiet).1.log
      ≡ append checksum [] 5
          (text "01")
          (text "transfers.submit")
          (some (text "desk"))
          (text "notes" ∷ text "inbox" ∷ [])
          id
          (text "ok"))
submit-audited_ok_example =
    submit-audited_ok checksum memory disk json paired engine tokens unreachable 5 head
      (text "transfers.submit") [] agent order quiet refl authorized refl

abbrev server : ServerState file
server = record { daemon = daemon waiting true; agents = quiet }

abbrev no_entropy : Entropy
no_entropy = record { draws = []; secret_bytes = none }

abbrev confirmation : Text
confirmation = text "POST /v1/pairings/confirm HTTP/1.1\r\nOrigin: http://localhost\r\n\r\n{}"

respond-IsAnswered_example :
    IsAnswered file server waiting-IsConsistent checksum memory disk json
      (text "phone")
      engine
      tokens
      (λ r. unreachable)
      160
      no_entropy
      confirmation
      (respond file checksum memory disk json
        (text "phone")
        engine
        tokens
        (λ r. unreachable)
        160
        no_entropy
        confirmation
        server)
respond-IsAnswered_example =
    respond-IsAnswered file server waiting-IsConsistent checksum memory disk json (text "phone")
      engine tokens (λ r. unreachable) 160 no_entropy confirmation

-- A phone that is paired with the desk.
abbrev knows_desk : PeerRegistry
knows_desk = record {
  peers = [];
  trusted = (text "desk", record { id = text "desk"; secret = key }) ∷ [];
  pending = [];
}

abbrev greeted : Bytes
greeted = let (_, c) = send_message toy pipe (hello 1) desk_end in c.socket

abbrev connected : PeerConnection toy pipe
connected = record { secure = record phone { next_receive_sequence = 1 }; socket = [] }

accepted : accept toy (text "phone") knows_desk pipe greeted ≡ some connected
unfolding accept send_message seal validate send to_be_bytes get text_eq is_blank derive_key
    key_info nonce associated_data
accepted = refl

accept-IsPaired_example : IsPaired toy (text "phone") knows_desk pipe greeted connected
accept-IsPaired_example =
    accept-IsPaired toy (text "phone") knows_desk pipe greeted connected accepted

abbrev knows_phone : PeerRegistry
knows_phone = record {
  peers =
      (
        text "phone",
        record {
          advertisement = record {
            id = text "phone";
            alias = [];
            address = text "a";
            api_version = 1;
          };
          trusted = true;
        },
      )
      ∷ [];
  trusted = (text "phone", record { id = text "phone"; secret = key }) ∷ [];
  pending = [];
}

transferred :
    send_agent_socket_transfer toy duplex memory reading disk never checksum
      (λ a. some a)
      (λ a. ok (answer, []))
      65
      (text "desk")
      knows_phone
      sender
      (text "phone")
      request
    ≡ ok outcome
unfolding send_agent_socket_transfer text_eq get is_blank Request.validate resolve validate_relative
    components check_direction render join ensure_beneath starts_with transfer_total_bytes
    count_files send_message seal validate send to_be_bytes derive_key key_info nonce
    associated_data hex result_message receive_message Socket.receive open_frame
transferred = refl

send_agent_socket_transfer-IsToTrusted_example :
    IsToTrusted toy duplex memory reading disk never checksum
      (λ a. some a)
      (λ a. ok (answer, []))
      65
      (text "desk")
      knows_phone
      sender
      (text "phone")
      request
      outcome
send_agent_socket_transfer-IsToTrusted_example =
    send_agent_socket_transfer-IsToTrusted toy duplex memory reading disk never checksum
      (λ a. some a) (λ a. ok (answer, [])) 65 (text "desk") knows_phone sender (text "phone")
      request outcome transferred
