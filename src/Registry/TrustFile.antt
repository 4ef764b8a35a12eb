-- ===== src/Registry/TrustFile.antt =====
-- `FilePeerTrustStore` of crates/agent-send-daemon/src/peer_storage.rs, and `trusted_peers_path` of
-- lib.rs. serde_json is a parameter.
pub mod Replacement
use agent_send.Base.{
  ℕ, Text, text, Bytes, List, [], ◌∷◌, ◌++◌, Bool, false, Option, none, some, ◌+◌, ◌%◌, ◌^◌,
  if◌then◌else◌, ◌==◌, Text_eq, is_empty,
}
use agent_send.Base.Result.{Result, ok, err, map_err}
use agent_send.Base.Exec.{Exec, pure, ◌>>=◌, ◌>>◌}
use agent_send.Base.Decimal.{decimal}
use agent_send.Core.Os.{FileSystem, IoError, not_found}
use agent_send.Core.Paths.{parent, join, file_name, with_extension}
use agent_send.Registry.Types.{StoredPeerTrust, PeerTrustStoreError, io, invalid}
use agent_send.Registry.Persistence.{PeerTrustStore}

abbrev identity_name : Option Text → Bool
identity_name none = false
identity_name (some name) = name == text "identity.json"

abbrev or_here : Option Text → Text
or_here none = text "."
or_here (some above) = above

unfoldable pub trusted_peers_path : Text → Text
unfolding file_name parent join with_extension
trusted_peers_path identity_path =
    if identity_name (file_name identity_path)
    then join (or_here (parent identity_path)) (text "trusted-peers.json")
    else with_extension identity_path (text "trusted-peers.json")

-- The calls of the system that this store makes besides those of `FileSystem`.
pub record TrustSystem (fs : FileSystem) : Type 0 where
  -- `fs::read_to_string`
  pub read_to_string : fs.Disk → Text → Result IoError Text
  -- `OpenOptions::new().write(true).create_new(true).mode(mode).open(path)`
  pub create_new_mode : (path : Text) → (mode : ℕ) → Exec fs.Disk IoError fs.Handle
  -- `fs::set_permissions`
  pub set_permissions : (path : Text) → (mode : ℕ) → Exec fs.Disk IoError Unit

-- `serde_json::to_vec_pretty` and `serde_json::from_str` at a list of `StoredPeerTrust`
pub record TrustJson : Type 0 where
  pub to_vec_pretty : List StoredPeerTrust → Bytes
  pub from_str : Text → Option (List StoredPeerTrust)

-- 0o600: only the owner reads and writes the file.
abbrev pub private_mode : ℕ
private_mode = 384

module _ (fs : FileSystem) (sys : TrustSystem fs) (json : TrustJson) (path : Text) where
  open fs use {Disk, create_dir_all, write_all, sync_all, rename, remove_file}
  open sys use {read_to_string, create_new_mode, set_permissions}

  -- The disk, and `NEXT_TEMPORARY`, which all the stores of the process share.
  abbrev pub Backing : Type 0
  Backing = Disk × ℕ

  abbrev from_json :
      Option (List StoredPeerTrust) → Result PeerTrustStoreError (List StoredPeerTrust)
  from_json none = err invalid
  from_json (some peers) = ok peers

  abbrev parsed : Result IoError Text → Result PeerTrustStoreError (List StoredPeerTrust)
  parsed (ok contents) = from_json (json.from_str contents)
  parsed (err not_found) = ok []
  parsed (err e) = err (io e)

  -- `FilePeerTrustStore::load`
  unfoldable pub load_trust : Backing → Result PeerTrustStoreError (List StoredPeerTrust)
  load_trust b = parsed (read_to_string b.0 path)

  -- `temporary_path`, where the counter has the given value
  unfoldable pub temporary_path : ℕ → Text
  unfolding with_extension decimal
  temporary_path suffix =
      with_extension path (text "tmp-" ++ (decimal fs.process_id ++ (text "-" ++ decimal suffix)))

  abbrev pub create_above : Option Text → Exec Disk IoError Unit
  create_above none = pure tt
  create_above (some above) = if is_empty above then pure tt else create_dir_all above

  unfoldable pub write_and_rename : (temporary : Text) → Bytes → Exec Disk IoError Unit
  write_and_rename temporary contents = do
    file ← create_new_mode temporary private_mode
    write_all file contents
    sync_all file
    rename temporary path
    set_permissions path private_mode

  abbrev pub discard_if_failed :
      Text → Result IoError (Unit {0}) × Disk → Result IoError (Unit {0}) × Disk
  discard_if_failed temporary (ok u, d) = (ok u, d)
  discard_if_failed temporary (err e, d) = (err e, (remove_file temporary d).1)

  unfoldable pub save_below :
      Bytes → ℕ → Result IoError (Unit {0}) × Disk → Result PeerTrustStoreError (Unit {0}) × Backing
  unfolding write_and_rename
  save_below contents next (err e, d) = (err (io e), (d, next))
  save_below contents next (ok u, d) =
      let temporary = temporary_path next in
      let (result, d') = discard_if_failed temporary (write_and_rename temporary contents d) in
      (map_err io result, (d', (next + 1) % 2 ^ 64))

  -- `FilePeerTrustStore::save`
  unfoldable pub save_trust :
      List StoredPeerTrust → Backing → Result PeerTrustStoreError (Unit {0}) × Backing
  unfolding parent save_below
  save_trust peers (d, next) =
      save_below (json.to_vec_pretty peers) next (create_above (parent path) d)

  unfoldable pub file_store : PeerTrustStore
  unfolding load_trust save_trust
  file_store = record { Store = Backing; load = load_trust; save = save_trust }
