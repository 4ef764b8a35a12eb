-- ===== src/Examples/Wire.antt =====
-- An encoding of messages and a cipher with a one-byte tag, which satisfy the laws of the channel.
use agent_send.Base.{
  ℕ, zero, suc, ◌+◌, ◌*◌, ◌%◌, Bytes, [], ◌∷◌, ◌++◌, Option, none, some, ◌≡◌, refl, arith,
  if◌then◌else◌, ◌==◌, ℕ_eq, length,
}
use agent_send.Peer.Message.{
  PeerMessage, hello, transfer_manifest, transfer_ready, directory, file_start, file_chunk,
  file_complete, transfer_complete, transfer_result, transfer_rejected, cancel,
}
use agent_send.Peer.Channel.{Crypto}
use agent_send.Peer.Channel.Delivery.{RoundTrips, NeverFails}

-- The first `n` bytes, and the rest.
abbrev pub split_at : ℕ → Bytes → Bytes × Bytes
split_at zero xs = ([], xs)
split_at (suc n) [] = ([], [])
split_at (suc n) (x ∷ xs) = let (a, b) = split_at n xs in (x ∷ a, b)

pub split_at-append : (a b : Bytes) → split_at (length a) (a ++ b) ≡ (a, b)
split_at-append [] b = refl
split_at-append (x ∷ a) b = rw (split_at-append a b) refl

abbrev encode : PeerMessage → Bytes
encode (hello v) = 0 ∷ v ∷ []
encode (transfer_ready id) = 1 ∷ id
encode (file_complete id) = 2 ∷ id
encode (transfer_complete id) = 3 ∷ id
encode (transfer_rejected id) = 4 ∷ id
encode (cancel id) = 5 ∷ id
encode (directory id p) = 6 ∷ length id ∷ (id ++ p)
encode (file_start id p n) = 7 ∷ n ∷ length id ∷ (id ++ p)
encode (file_chunk id n bs) = 8 ∷ n ∷ length id ∷ (id ++ bs)
encode (transfer_result id n m h) = 9 ∷ n ∷ m ∷ length id ∷ (id ++ h)
encode (transfer_manifest id f k n h) =
    10 ∷ n ∷ length id ∷ length f ∷ length k ∷ (id ++ (f ++ (k ++ h)))

abbrev decode_manifest : ℕ → ℕ → ℕ → ℕ → Bytes → PeerMessage
decode_manifest n a b c xs =
    let (id, r1) = split_at a xs in
    let (f, r2) = split_at b r1 in let (k, h) = split_at c r2 in transfer_manifest id f k n h

abbrev decode_hello : Bytes → Option PeerMessage
decode_hello (v ∷ []) = some (hello v)
decode_hello _ = none

abbrev decode_two : (Bytes → Bytes → PeerMessage) → Bytes → Option PeerMessage
decode_two f [] = none
decode_two f (a ∷ xs) = let (id, p) = split_at a xs in some (f id p)

abbrev decode_numbered : (ℕ → Bytes → Bytes → PeerMessage) → Bytes → Option PeerMessage
decode_numbered f [] = none
decode_numbered f (n ∷ xs) = decode_two (f n) xs

abbrev decode_result : Bytes → Option PeerMessage
decode_result [] = none
decode_result (n ∷ xs) = decode_numbered (λ m id h. transfer_result id n m h) xs

abbrev decode_four : Bytes → Option PeerMessage
decode_four (n ∷ a ∷ b ∷ c ∷ xs) = some (decode_manifest n a b c xs)
decode_four _ = none

abbrev decode_rest : ℕ → Bytes → Option PeerMessage
decode_rest t xs =
    if t == 6
    then decode_two directory xs
    else if t == 7
    then decode_numbered (λ n id p. file_start id p n) xs
    else if t == 8
    then decode_numbered (λ n id bs. file_chunk id n bs) xs
    else if t == 9
    then decode_result xs
    else decode_four xs

abbrev decode : Bytes → Option PeerMessage
decode [] = none
decode (t ∷ xs) =
    if t == 0
    then decode_hello xs
    else if t == 1
    then some (transfer_ready xs)
    else if t == 2
    then some (file_complete xs)
    else if t == 3
    then some (transfer_complete xs)
    else if t == 4
    then some (transfer_rejected xs)
    else if t == 5
    then some (cancel xs)
    else decode_rest t xs

decode-encode : (m : PeerMessage) → decode (encode m) ≡ some m
decode-encode (hello v) = refl
decode-encode (transfer_ready id) = refl
decode-encode (file_complete id) = refl
decode-encode (transfer_complete id) = refl
decode-encode (transfer_rejected id) = refl
decode-encode (cancel id) = refl
decode-encode (directory id p) = rw (split_at-append id p) refl
decode-encode (file_start id p n) = rw (split_at-append id p) refl
decode-encode (file_chunk id n bs) = rw (split_at-append id bs) refl
decode-encode (transfer_result id n m h) = rw (split_at-append id h) refl
decode-encode (transfer_manifest id f k n h) =
    rw (split_at-append id (f ++ (k ++ h)), split_at-append f (k ++ h), split_at-append k h) refl

abbrev tag : Bytes → ℕ
tag [] = 7
tag (x ∷ xs) = (x + 3 * tag xs) % 256

abbrev opened : (expected : ℕ) → Bytes → Option Bytes
opened expected [] = none
opened expected (t ∷ xs) = if t == expected then some xs else none

abbrev pub toy : Crypto
toy = record {
  hkdf = λ salt secret info. secret ++ info;
  encrypt = λ key nonce aad plaintext. some (tag (key ++ (nonce ++ aad)) ∷ plaintext);
  decrypt = λ key nonce aad ciphertext. opened (tag (key ++ (nonce ++ aad))) ciphertext;
  to_vec = λ m. some (encode m);
  from_slice = decode;
}

opens : (n : ℕ) (xs c : Bytes) → some (n ∷ xs) ≡ some c → opened n c ≡ some xs
opens n xs c h = ground (arith)

decodes_of : (m : PeerMessage) (b : Bytes) → some (encode m) ≡ some b → decode b ≡ some m
decodes_of m b h = let e : encode m ≡ b = cc h in rw (← e) (decode-encode m)

pub toy-RoundTrips : RoundTrips toy
toy-RoundTrips = record {
  decrypts = λ key nonce aad plaintext {c} h. opens (tag (key ++ (nonce ++ aad))) plaintext c h;
  decodes = λ m {b} h. decodes_of m b h;
}

pub toy-NeverFails : NeverFails toy
toy-NeverFails = record {
  encrypts = λ key nonce aad plaintext. (tag (key ++ (nonce ++ aad)) ∷ plaintext, refl);
  encodes = λ m. (encode m, refl);
}
