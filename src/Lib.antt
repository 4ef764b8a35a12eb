-- ===== src/Lib.antt =====
-- agent-send: a daemon that moves files between paired devices, with agents as local clients.
--
-- A device keeps named folders, each with a direction (core). Two devices pair by a short code and
-- share a secret (daemon registry). The secret makes an encrypted channel, over which one device
-- sends a manifest, directories, files and chunks, and the other writes them below a folder and
-- answers with a result. Local agents hold bearer tokens with a scope, and submit transfers.
--
-- crates/agent-send-core/src/lib.rs
--   Core/Request: `FolderDirection`, `TransferRequest::validate`.
-- crates/agent-send-core/src/path_policy.rs
--   Core/Policy: `validate_relative`, `resolve`, `check_direction`, `ensure_beneath`,
--   `nearest_existing`. Core/Paths defines `components`, `join`, `starts_with`, `parent` and
--   `with_extension` of `std::path` on Unix. Core/Os: the file system and SHA-256 as interfaces.
-- crates/agent-send-daemon/src/peer_transport.rs
--   Peer/Secret: `PairingSecret`, `PairedPeer`. Peer/Message: `PeerMessage`, `PeerChannelError`.
--   Peer/Frame: nonce, associated data and key input. Peer/Channel: `SecurePeerChannel`, with
--   `seal` and `open` (`open_frame`). Peer/Socket: frames on a stream, `SocketPeerTransport`.
--   Peer/Connection: `PeerConnection`.
--   Transfer/Receive: `receive_socket_transfer`. Transfer/Send: `send_socket_transfer`.
-- crates/agent-send-daemon/src/transfer.rs
--   Transfer/Types: the data. Transfer/Engine: `TransferEngine`, its folders, the check of a
--   submission, `begin_incoming`. Transfer/Incoming: `IncomingTransfer`, each message handler and
--   its `Drop`; Transfer/Incoming/Files and Tracking: whose the files on the disk are. Transfer/Outbound: the total, the limits and the manifest of an outgoing transfer.
--   Transfer/Collect: `collect_items`, `hash_items`, `prepare_outbound`. Transfer/Stream: `stream`.
--   Transfer/Loopback: `send_loopback`, `receive`, `copy_file`.
-- crates/agent-send-daemon/src/lib.rs and peer_storage.rs
--   Registry: `PeerRegistry`, pairing codes, `StoredPeerTrust`. Registry/Persistence:
--   `Daemon::confirm_pairing` and `Daemon::revoke_peer` over a `PeerTrustStore`. Registry/TrustFile:
--   `FilePeerTrustStore` and `trusted_peers_path`. Registry/Restart: what `restore_trusted`
--   makes of `stored_trust`. Daemon/Http: the
--   parts of an HTTP request. Daemon/Agents: `handle_agent_request`, `send_agent_socket_transfer`.
--   Daemon/Server: `handle_connection`. Daemon/Identity:
--   `load_or_create_identity`. Daemon/Peers: `handle_peer_connection` (`accept`) and the
--   methods of `Daemon` about peers.
-- crates/agent-send-daemon/src/automation.rs
--   Automation/Types, Compare, Tokens, Submissions, Audit: scopes, `constant_time_eq`,
--   `AgentTokens`, `AgentTransfers`, `AuditLog`.
--
-- Text is the list of its UTF-8 bytes, a path too. Base/Map is a `BTreeMap<String, _>` in the order
-- of its keys. A method that changes a state takes it and gives it back beside its result
-- (Base/Exec); what was changed before an error stays changed. Mutexes are taken for the whole of a
-- method, so each method is one step. `none` stands for a panic in `confirm_pairing`.
--
-- Numbers are natural numbers; where the source adds machine integers, `add64` wraps around at
-- 2^64, `checked_next` fails there and `saturating_add` stops there. `decimal_digits` has as fuel
-- one more than the number, which has at most that many digits. The loop of `new_pairing_code` runs
-- over the list of random draws and fails at its end. `collect_items` has fuel for the depth of the
-- folders: more than the longest relative path that the system resolves is enough. `none` in the
-- place of an error says that this fuel is used up. A loop over a file runs over the results of
-- `read`. Every other loop is structural.
--
-- Parameters: the file system, SHA-256, the cipher with its key derivation and JSON encoding, the
-- stores of tokens and of trust (`file_store` is an instance of the second), the stream of a
-- socket, what a disk shows a reader (`Reading`), the reading of JSON (`Json`), the decoding of
-- UTF-8, the parsing of an address. `RoundTrips` and `NeverFails` (Peer/Channel/Delivery) are what
-- is assumed of the cipher and the encoding, `Transports` (Peer/Socket/Framing) what is assumed of
-- a stream, any of whose calls may fail, `Stores` (Registry/Persistence) what is assumed of a store
-- of trust, `Replaces` (Registry/TrustFile/Replacement) what is assumed of the system under its
-- file, `ReadsBack` (Daemon/Identity/Stable) what is assumed of it under the file of the identity,
-- `Places` (Transfer/Incoming/Files) what is assumed of it where files are received; each theorem
-- that needs one names it. Time and random bytes are arguments. `Received.sent` holds the replies
-- that the receiver makes; whether the last one arrives is not modelled. Examples has files,
-- digests and a cipher in memory, and runs the code on them.
--
-- Not modelled: the threads that accept sockets, the files of configuration and tokens, discovery,
-- the command line, the MCP adapter and the desktop application. An answer of the local API is kept
-- as the value that is written as JSON.
pub mod Base
pub mod Core
pub mod Limits
pub mod Hex
pub mod Peer
pub mod Transfer
pub mod Registry
pub mod Automation
pub mod Daemon
pub mod Examples
