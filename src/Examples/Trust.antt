-- ===== src/Examples/Trust.antt =====
-- The file of trust on a disk in memory, with an encoding in the place of JSON.
use agent_send.Base.{
  ℕ, zero, suc, Text, text, Bytes, List, [], ◌∷◌, ◌++◌, Bool, true, false, Option, none, some, ◌≡◌,
  ◌≢◌, refl, ap, arith, Text_eq, text_eq, length,
}
use agent_send.Base.Result.{ok, err}
use agent_send.Core.Os.{os}
use agent_send.Examples.Wire.{split_at, split_at-append}
use agent_send.Core.Paths.{
  components, is_prefix, replace_extension, render, component_eq, body, segments, parent,
}
use agent_send.Registry.Types.{io, StoredPeerTrust}
use agent_send.Registry.TrustFile.{
  TrustJson, trusted_peers_path, write_and_rename, save_trust, load_trust, temporary_path,
}
use agent_send.Registry.TrustFile.Replacement.{Apart, Replaces, Saved, save_trust-Saved}
use agent_send.Examples.Disk.{
  memory, read_of, system, put-other, empty_disk, create_other, create_new_file, append_other,
  append_here, move_here, move_fails,
}

abbrev flag : Bool → ℕ
flag true = 1
flag false = 0

abbrev encode_peer : StoredPeerTrust → Bytes → Bytes
encode_peer t rest =
    let a = t.peer_record.advertisement in
    a.api_version
    ∷ flag t.peer_record.trusted
    ∷ length a.id
    ∷ length a.alias
    ∷ length a.address
    ∷ length t.pairing_secret
    ∷ (a.id ++ (a.alias ++ (a.address ++ (t.pairing_secret ++ rest))))

abbrev encode_peers : List StoredPeerTrust → Bytes
encode_peers [] = []
encode_peers (t ∷ ts) = encode_peer t (encode_peers ts)

abbrev and_first : StoredPeerTrust → Option (List StoredPeerTrust) → Option (List StoredPeerTrust)
and_first t none = none
and_first t (some ts) = some (t ∷ ts)

abbrev trusts : ℕ → Bool
trusts zero = false
trusts (suc n) = true

abbrev peer_of : ℕ → ℕ → Text → Text → Text → Text → StoredPeerTrust
peer_of v t id alias address secret = record {
  peer_record = record {
    advertisement = record { id = id; alias = alias; address = address; api_version = v };
    trusted = trusts t;
  };
  pairing_secret = secret;
}

abbrev decode_peers : ℕ → Bytes → Option (List StoredPeerTrust)
decode_peers zero xs = some []
decode_peers (suc n) (v ∷ t ∷ a ∷ b ∷ c ∷ d ∷ xs) =
    let (id, r1) = split_at a xs in
    let (alias, r2) = split_at b r1 in
    let (address, r3) = split_at c r2 in
    let (secret, r4) = split_at d r3 in
    and_first (peer_of v t id alias address secret) (decode_peers n r4)
decode_peers (suc n) _ = none

abbrev decode_list : Bytes → Option (List StoredPeerTrust)
decode_list [] = none
decode_list (n ∷ xs) = decode_peers n xs

abbrev count : List StoredPeerTrust → ℕ
count [] = 0
count (t ∷ ts) = suc (count ts)

abbrev json : TrustJson
json = record { to_vec_pretty = λ ts. count ts ∷ encode_peers ts; from_str = decode_list }

trusts-flag : (b : Bool) → trusts (flag b) ≡ b
trusts-flag true = refl
trusts-flag false = refl

decode-encode : (ts : List StoredPeerTrust) → decode_peers (count ts) (encode_peers ts) ≡ some ts
decode-encode [] = refl
decode-encode (t ∷ ts) =
    let a = t.peer_record.advertisement in
    let r3 = t.pairing_secret ++ encode_peers ts in
    let r2 = a.address ++ r3 in
    rw
      (
        split_at-append a.id (a.alias ++ r2),
        split_at-append a.alias r2,
        split_at-append a.address r3,
        split_at-append t.pairing_secret (encode_peers ts),
        decode-encode ts,
        trusts-flag t.peer_record.trusted,
      )
      refl

Apart-ne : (p q : Text) → Apart p q → p ≢ q
Apart-ne p q apart e = apart (ap components e)

module _ (allows : Bool) where
  memory-Replaces : Replaces memory (system allows) json
  memory-Replaces = record {
    opened = λ p. p;
    folder_apart = λ p q d h. refl;
    create_apart = λ p q mode d apart. create_other p q d (d p) (Apart-ne p q apart);
    created = λ p mode d h e. create_new_file p d (d p) h e;
    write_apart = λ p b q d apart. append_other p q b d (d p) (Apart-ne p q apart);
    written = λ p ts d fresh h. append_here p (json.to_vec_pretty ts) d (d p) fresh h;
    synced = λ p q d. refl;
    renamed = λ p q d b new h. move_here p q b d (d p) new h;
    not_renamed = λ p q d e h. move_fails p q d (d p) e h;
    permitted = λ q d b new. new;
    remove_apart = λ p q d apart. ap read_of (put-other p q none d (Apart-ne p q apart));
    parses = decode-encode;
  }

abbrev path : Text
path = text "/d/trusted-peers.json"

abbrev peer : StoredPeerTrust
peer = peer_of 1 1 (text "phone") (text "p") (text "192.0.2.7:1") (text "0909")

-- Saving with the permissions refused fails, and the new trust is loaded all the same.
refused_but_saved :
    let (result, after) = save_trust memory (system false) json path (peer ∷ []) (empty_disk, 0) in
    (result ≡ err (io (os 1))) × (load_trust memory (system false) json path after ≡ ok (peer ∷ []))
unfolding save_trust load_trust temporary_path replace_extension components is_prefix render text_eq
    write_and_rename parent
refused_but_saved = (refl, refl)

temporary-Apart : Apart (temporary_path memory (system false) json path 0) path
unfolding is_prefix components temporary_path replace_extension render text_eq component_eq body
    segments
temporary-Apart e =
    let same : false ≡ true = ap (λ c. is_prefix c (components path)) e in
    absurd (ground (arith, same))

default_path : trusted_peers_path (text "/d/identity.json") ≡ path
unfolding trusted_peers_path text_eq
default_path = refl

other_path : trusted_peers_path (text "/d/.me.v1.json") ≡ text "/d/.me.v1.trusted-peers.json"
unfolding trusted_peers_path replace_extension text_eq
other_path = refl

save_trust-Saved_example :
    Saved memory
      (system false)
      json
      (memory-Replaces false)
      path
      (peer ∷ [])
      (empty_disk, 0)
      (save_trust memory (system false) json path (peer ∷ []) (empty_disk, 0))
save_trust-Saved_example =
    save_trust-Saved memory (system false) json (memory-Replaces false) path (peer ∷ [])
      (empty_disk, 0) temporary-Apart
