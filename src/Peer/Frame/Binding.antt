-- ===== src/Peer/Frame/Binding.antt =====
-- The nonce and the associated data of a frame determine its version, peers and sequence number.
use mathlib.Core.List.{append_assoc, append-nil}
use agent_send.Base.{
  ℕ, zero, suc, ◌/◌, ◌%◌, ◌*◌, ◌^◌, ◌<◌, Text, Bytes, List, [], ◌∷◌, ◌++◌, length, length-append,
  ◌≡◌, refl, sym, ◌∙◌, arith,
}
use native.Mathlib.Nat.{pow-suc}
use agent_send.Peer.Frame.{to_be_bytes, with_length, key_info, nonce, associated_data, aad_domain}

pub length-to_be_bytes : (w n : ℕ) → length (to_be_bytes w n) ≡ w
unfolding to_be_bytes
length-to_be_bytes zero n = refl
length-to_be_bytes (suc w) n =
    omega (
      arith,
      length-append (to_be_bytes w (n / 256)) (n % 256 ∷ []),
      length-to_be_bytes w (n / 256),
    )

-- Two lists split at one length.
split {ℓ} :
    {A : Type ℓ} (xs ys us vs : List A)
    → length xs ≡ length ys
    → xs ++ us ≡ ys ++ vs
    → (xs ≡ ys) × (us ≡ vs)
split [] [] us vs l e = (refl, e)
split [] (y ∷ ys) us vs l e = absurd (omega arith)
split (x ∷ xs) [] us vs l e = absurd (omega arith)
split (x ∷ xs) (y ∷ ys) us vs l e = ground (arith, split xs ys us vs)

pub to_be_bytes-injective :
    (w m n : ℕ) → m < 256 ^ w → n < 256 ^ w → to_be_bytes w m ≡ to_be_bytes w n → m ≡ n
unfolding to_be_bytes
to_be_bytes-injective zero m n hm hn e = omega arith
to_be_bytes-injective (suc w) m n hm hn e =
    let (high, low) =
      split (to_be_bytes w (m / 256)) (to_be_bytes w (n / 256)) _ _
        (length-to_be_bytes w (m / 256) ∙ sym (length-to_be_bytes w (n / 256))) e in
    let room : 256 ^ suc w ≡ 256 ^ w * 256 = pow-suc 256 w in
    let same : m / 256 ≡ n / 256 =
      to_be_bytes-injective w (m / 256) (n / 256) (omega arith) (omega arith) high in
    let rest : m % 256 ≡ n % 256 = cc in omega arith

-- A text that is shorter than 2^64 bytes, with its length in front, can be told from what follows.
with_length-split :
    (s t : Text) (us vs : Bytes)
    → length s < 256 ^ 8
    → length t < 256 ^ 8
    → with_length s ++ us ≡ with_length t ++ vs
    → (s ≡ t) × (us ≡ vs)
unfolding with_length
with_length-split s t us vs hs ht e =
    let (sizes, rest) =
      split (to_be_bytes 8 (length s)) (to_be_bytes 8 (length t)) (s ++ us) (t ++ vs)
        (length-to_be_bytes 8 (length s) ∙ sym (length-to_be_bytes 8 (length t)))
        (sym (append_assoc (to_be_bytes 8 (length s)) s us)
          ∙ e
          ∙ append_assoc (to_be_bytes 8 (length t)) t vs) in
    split s t us vs (to_be_bytes-injective 8 _ _ hs ht sizes) rest

-- Different sequence numbers below 2^64 have different nonces.
pub nonce-injective : (m n : ℕ) → m < 256 ^ 8 → n < 256 ^ 8 → nonce m ≡ nonce n → m ≡ n
unfolding nonce
nonce-injective m n hm hn e = to_be_bytes-injective 8 m n hm hn (cc)

module _ (v v' : ℕ) (s s' r r' : Text) (n n' : ℕ) where
  -- What a frame claims, within the widths of its fields.
  pub record FitsWidths : Type 0 where
    pub versions : (v < 256 ^ 4) × (v' < 256 ^ 4)
    pub senders : (length s < 256 ^ 8) × (length s' < 256 ^ 8)
    pub recipients : (length r < 256 ^ 8) × (length r' < 256 ^ 8)
    pub numbers : (n < 256 ^ 8) × (n' < 256 ^ 8)

  -- Two frames whose fields fit their widths have the same associated data only if they have the
  -- same version, sender, recipient and number.
  pub associated_data-injective :
      FitsWidths
      → associated_data v s r n ≡ associated_data v' s' r' n'
      → (v ≡ v') × (s ≡ s') × (r ≡ r') × (n ≡ n')
  unfolding associated_data
  associated_data-injective w e =
      let (_, e1) = split aad_domain aad_domain _ _ refl e in
      let (ev, e2) =
        split (to_be_bytes 4 v) (to_be_bytes 4 v') _ _
          (length-to_be_bytes 4 v ∙ sym (length-to_be_bytes 4 v')) e1 in
      let (es, e3) = with_length-split s s' _ _ w.senders.0 w.senders.1 e2 in
      let (er, e4) = with_length-split r r' _ _ w.recipients.0 w.recipients.1 e3 in
      (
        to_be_bytes-injective 4 v v' w.versions.0 w.versions.1 ev,
        es,
        er,
        to_be_bytes-injective 8 n n' w.numbers.0 w.numbers.1 e4,
      )

-- The keys of the two directions come from different inputs unless the peers have one name.
pub key_info-injective :
    (s s' r r' : Text)
    → (length s < 256 ^ 8) × (length s' < 256 ^ 8)
    → (length r < 256 ^ 8) × (length r' < 256 ^ 8)
    → key_info s r ≡ key_info s' r'
    → (s ≡ s') × (r ≡ r')
unfolding key_info
key_info-injective s s' r r' hs hr e =
    let (es, rest) = with_length-split s s' _ _ hs.0 hs.1 e in
    let (er, _) =
      with_length-split r r' [] [] hr.0 hr.1
        (append-nil (with_length r) ∙ rest ∙ sym (append-nil (with_length r'))) in
    (es, er)
