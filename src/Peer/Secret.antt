-- ===== src/Peer/Secret.antt =====
-- `PairingSecret` and `PairedPeer` of crates/agent-send-daemon/src/peer_transport.rs.
use agent_send.Base.{
  ℕ, ◌-◌, ◌*◌, ◌∙◌, sym, subst, inl, inr, ◌<◌, Text, Bytes, [], ◌∷◌, Bool, not, ◌||◌, ◌≡◌, refl, ap,
  arith, if◌then◌else◌, ◌==◌, ℕ_eq, is_ascii_hexdigit, all, All, length, map, is_blank, Bool-cases,
  true, false, and-eq-true,
}
use agent_send.Base.Result.{
  Result, ok, err, reject_if, reject_if-eq-ok, ok_or, ◌>>=◌, ◌>>◌, >>=-eq-ok,
}
use agent_send.Hex.{
  hex, from_radix16, from_radix16-hex_digit, from_radix16-digits, to_ascii_lowercase, length-hex,
  all-hex,
}
use agent_send.Peer.Message.{PeerChannelError, empty_peer_id, invalid_pairing_secret}

pub record PairingSecret : Type 0 where
  pub bytes : Bytes

-- `[u8; 32]`
pub record IsSecret (s : PairingSecret) : Type 0 where
  pub size : length s.bytes ≡ 32
  pub in_range : All (λ b. b < 256) s.bytes

-- `PairingSecret::to_hex`
unfoldable pub to_hex : PairingSecret → Text
to_hex s = hex s.bytes

-- The loop of `from_hex` over the pairs of digits.
unfoldable pub read_pairs : Text → Result PeerChannelError Bytes
read_pairs [] = ok []
read_pairs (x ∷ []) = ok []
read_pairs (x ∷ y ∷ rest) = do
  b ← ok_or (from_radix16 x y) invalid_pairing_secret
  bs ← read_pairs rest
  ok (b ∷ bs)

abbrev misspelt : Text → Bool
misspelt value = not (length value == 64) || not (all is_ascii_hexdigit value)

-- `PairingSecret::from_hex`
unfoldable pub from_hex : Text → Result PeerChannelError PairingSecret
from_hex value = do
  reject_if (misspelt value) invalid_pairing_secret
  bytes ← read_pairs value
  ok (record { bytes = bytes })

pub record PairedPeer : Type 0 where
  pub id : Text
  pub secret : PairingSecret

-- `PairedPeer::new`
unfoldable pub new_paired_peer : Text → PairingSecret → Result PeerChannelError PairedPeer
new_paired_peer id secret =
    if is_blank id then err empty_peer_id else ok (record { id = id; secret = secret })

read_pairs-hex : (bs : Bytes) → All (λ b. b < 256) bs → read_pairs (hex bs) ≡ ok bs
unfolding read_pairs hex
read_pairs-hex [] h = refl
read_pairs-hex (b ∷ bs) h = rw (from_radix16-hex_digit b h.0, read_pairs-hex bs h.1)

-- A secret of 32 bytes is read back from the text that shows it.
pub from_hex-to_hex : (s : PairingSecret) → IsSecret s → from_hex (to_hex s) ≡ ok s
unfolding from_hex to_hex
from_hex-to_hex s h =
    let size : length (hex s.bytes) ≡ 64 = omega (arith, length-hex s.bytes, h.size) in
    rw (size, all-hex s.bytes h.in_range, read_pairs-hex s.bytes h.in_range)

-- What `read_pairs` reads from hexadecimal digits of an even number.
record IsDecoded (value : Text) (n : ℕ) (bs : Bytes) : Type 0 where
  read : read_pairs value ≡ ok bs
  size : length bs ≡ n
  in_range : All (λ b. b < 256) bs
  shown : hex bs ≡ map to_ascii_lowercase value

read_pairs-IsDecoded :
    (n : ℕ) (value : Text)
    → length value ≡ 2 * n
    → all is_ascii_hexdigit value ≡ true
    → (bs : Bytes) × IsDecoded value n bs
unfolding read_pairs hex
read_pairs-IsDecoded n [] len digits =
    ([], record { read = refl; size = omega arith; in_range = tt; shown = refl })
read_pairs-IsDecoded n (x ∷ []) len digits = absurd (omega arith)
read_pairs-IsDecoded n (x ∷ y ∷ rest) len digits =
    let (hx, digits') = and-eq-true _ _ digits in
    let (hy, more) = and-eq-true _ _ digits' in
    let (b, at, below, hi, lo) = from_radix16-digits x y hx hy in
    let (bs, r) = read_pairs-IsDecoded (n - 1) rest (omega arith) more in
    (
      b ∷ bs,
      record {
        read = rw (at, r.read);
        size = omega (arith, r.size);
        in_range = (below, r.in_range);
        shown = cc (hi, lo, r.shown);
      },
    )

-- What is known of a text and of the secret that is read from it.
pub record IsParsed (value : Text) (s : PairingSecret) : Type 0 where
  pub size : length value ≡ 64
  pub digits : all is_ascii_hexdigit value ≡ true
  pub secret : IsSecret s
  pub shown : to_hex s ≡ map to_ascii_lowercase value

spelt :
    (value : Text)
    → misspelt value ≡ false
    → (length value ≡ 64) × (all is_ascii_hexdigit value ≡ true)
spelt value h = (ground arith, ground arith)

-- Text that is accepted as a secret is 64 hexadecimal digits, and then it is a secret of 32 bytes
-- that prints as the text in lower case.
pub from_hex-IsParsed :
    (value : Text) (s : PairingSecret) → from_hex value ≡ ok s → IsParsed value s
unfolding from_hex to_hex
from_hex-IsParsed value s h =
    let (_, guard, h1) = >>=-eq-ok (reject_if (misspelt value) invalid_pairing_secret) _ h in
    let (bytes, read, h2) = >>=-eq-ok (read_pairs value) _ h1 in
    let (size, digits) = spelt value (reject_if-eq-ok _ _ guard) in
    let (bs, r) = read_pairs-IsDecoded 32 value size digits in
    let same : bs ≡ s.bytes = cc (r.read, read, h2) in
    record {
      size = size;
      digits = digits;
      secret = record {
        size = ap length (sym same) ∙ r.size;
        in_range = subst (All (λ b. b < 256)) same r.in_range;
      };
      shown = ap hex (sym same) ∙ r.shown;
    }

-- Every other text is refused, with the error that names the secret.
pub from_hex-refuses :
    (value : Text) (e : PeerChannelError)
    → from_hex value ≡ err e
    → (misspelt value ≡ true) × (e ≡ invalid_pairing_secret)
unfolding from_hex
from_hex-refuses value e h = elim (Bool-cases (misspelt value)) [
  | inl wrong ↦ (wrong, ground arith)
  | inr right ↦
      let (size, digits) = spelt value right in
      let (bs, r) = read_pairs-IsDecoded 32 value size digits in absurd (absurd_of right r.read h)
]
  where
    absurd_of :
        {bs : Bytes}
        → misspelt value ≡ false
        → read_pairs value ≡ ok bs
        → from_hex value ≡ err e
        → ⊥
    absurd_of right read h = ground arith
