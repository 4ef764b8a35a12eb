-- ===== src/Examples/Identities.antt =====
-- The file of the identity on a disk in memory.
use agent_send.Base.{
  Text, text, [], ◌∷◌, ◌++◌, true, Option, none, some, ◌≡◌, refl, Text_eq, length,
}
use agent_send.Base.Result.{ok}
use agent_send.Examples.Wire.{split_at, split_at-append}
use agent_send.Daemon.Identity.{LocalIdentity, IdentityJson, load_or_create_identity}
use agent_send.Daemon.Identity.Stable.{ReadsBack, load_or_create_identity-again}
use agent_send.Examples.Disk.{memory, system, empty_disk, create_new_file, append_here}

abbrev read_identity : Text → Option LocalIdentity
read_identity [] = none
read_identity (n ∷ xs) =
    let (id, value) = split_at n xs in some (record { id = id; key_placeholder = value })

abbrev identity_json : IdentityJson
identity_json = record {
  to_vec_pretty = λ i. length i.id ∷ (i.id ++ i.key_placeholder);
  from_str = read_identity;
}

identity_parses : (i : LocalIdentity) → read_identity (identity_json.to_vec_pretty i) ≡ some i
identity_parses i = rw (split_at-append i.id i.key_placeholder) refl

memory-ReadsBack : ReadsBack memory (system true) identity_json
memory-ReadsBack = record {
  opened = λ p. p;
  created = λ p d h e. create_new_file p d (d p) h e;
  written = λ p i d fresh h. append_here p (identity_json.to_vec_pretty i) d (d p) fresh h;
  parses = identity_parses;
}

abbrev identity_path : Text
identity_path = text "/d/identity.json"

-- The system gives no random bytes: the identity is the time.
abbrev by_time : LocalIdentity
by_time = record {
  id = text "device-0000000000000000";
  key_placeholder = text "00000000000000000000000000000007";
}

created_identity :
    (load_or_create_identity memory (system true) identity_json identity_path none empty_disk).0
    ≡ ok by_time
unfolding load_or_create_identity
created_identity = refl

load_or_create_identity-again_example :
    load_or_create_identity memory
      (system true)
      identity_json
      identity_path
      (some (1 ∷ 2 ∷ []))
      (load_or_create_identity memory (system true) identity_json identity_path none empty_disk).1
    ≡ (
      ok by_time,
      (load_or_create_identity memory (system true) identity_json identity_path none empty_disk).1,
    )
load_or_create_identity-again_example =
    load_or_create_identity-again memory (system true) identity_json memory-ReadsBack identity_path
      none empty_disk by_time (some (1 ∷ 2 ∷ [])) created_identity
