-- ===== src/Daemon/Identity.antt =====
-- `load_or_create_identity` and `new_identity` of
-- crates/agent-send-daemon/src/lib.rs. serde_json is a parameter.
pub mod Stable
use agent_send.Base.{
  ℕ, zero, suc, Text, text, Bytes, List, [], ◌∷◌, ◌++◌, Bool, not, Option, none, some, ◌/◌, ◌%◌,
  if◌then◌else◌, is_empty,
}
use agent_send.Base.Result.{Result, ok, err, map_err}
use agent_send.Base.Exec.{Exec, pure, ◌>>=◌, ◌>>◌}
use agent_send.Core.Os.{FileSystem, IoError, not_found, invalid_data}
use agent_send.Core.Paths.{parent}
use agent_send.Hex.{hex, hex_digit}
use agent_send.Registry.TrustFile.{TrustSystem}
use agent_send.Daemon.Types.{DaemonError, identity}

pub record LocalIdentity : Type 0 where
  pub id : Text
  pub key_placeholder : Text

-- `serde_json::to_vec_pretty` and `serde_json::from_str` at a `LocalIdentity`
pub record IdentityJson : Type 0 where
  pub to_vec_pretty : LocalIdentity → Bytes
  pub from_str : Text → Option LocalIdentity

-- `format!("{n:032x}")` of a `u128`, with the width as an argument
unfoldable pub padded_hex : ℕ → ℕ → Text
padded_hex zero n = []
padded_hex (suc width) n = padded_hex width (n / 16) ++ (hex_digit (n % 16) ∷ [])

abbrev first_bytes : ℕ → Text → Text
first_bytes zero value = []
first_bytes (suc n) [] = []
first_bytes (suc n) (c ∷ cs) = c ∷ first_bytes n cs

abbrev named : Text → LocalIdentity
named value = record { id = text "device-" ++ first_bytes 16 value; key_placeholder = value }

-- `new_identity`: the random bytes, or none where the system gives none
unfoldable pub new_identity : Option Bytes → (nanos : ℕ) → LocalIdentity
unfolding hex padded_hex
new_identity (some bytes) nanos = named (hex bytes)
new_identity none nanos = named (padded_hex 32 nanos)

module _ (fs : FileSystem) (sys : TrustSystem fs) (json : IdentityJson) (path : Text)
    (random : Option Bytes) where
  open fs use {Disk, create_dir_all, create_new, write_all, nanos}
  open sys use {read_to_string}

  abbrev pub on_disk : {A : Type 0} → Exec Disk IoError A → Exec Disk DaemonError A
  on_disk m d = let (r, d') = m d in (map_err identity r, d')

  abbrev pub from_json : Option LocalIdentity → Result DaemonError LocalIdentity
  from_json none = err (identity invalid_data)
  from_json (some i) = ok i

  abbrev pub create_folder_above : Option Text → Exec Disk IoError Unit
  create_folder_above none = pure tt
  create_folder_above (some above) = if is_empty above then pure tt else create_dir_all above

  unfoldable pub create_file : LocalIdentity → Exec Disk DaemonError LocalIdentity
  create_file i = do
    file ← on_disk (create_new path)
    on_disk (write_all file (json.to_vec_pretty i))
    pure i

  unfoldable pub create_identity : Exec Disk DaemonError LocalIdentity
  unfolding parent new_identity create_file
  create_identity = do
    on_disk (create_folder_above (parent path))
    λ d. create_file (new_identity random (nanos d)) d

  unfoldable pub from_file : Result IoError Text → Exec Disk DaemonError LocalIdentity
  unfolding create_identity
  from_file (ok contents) d = (from_json (json.from_str contents), d)
  from_file (err not_found) d = create_identity d
  from_file (err e) d = (err (identity e), d)

  -- `load_or_create_identity`
  unfoldable pub load_or_create_identity : Exec Disk DaemonError LocalIdentity
  unfolding from_file
  load_or_create_identity d = from_file (read_to_string d path) d
