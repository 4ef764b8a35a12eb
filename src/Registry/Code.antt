-- ===== src/Registry/Code.antt =====
-- `validate_pairing_code` and `new_pairing_code` of crates/agent-send-daemon/src/lib.rs. The random
-- numbers that `getrandom` gives are a list: it fails when the list is at its end.
use agent_send.Base.{
  ℕ, ◌+◌, ◌-◌, ◌*◌, ◌/◌, ◌%◌, ◌^◌, ◌<◌, Text, List, [], ◌∷◌, ◌&&◌, ◌≡◌, ◌↔◌, arith, if◌then◌else◌,
  Option, none, some, ◌==◌, ℕ_eq, ltb, length, all, is_ascii_digit,
}
use agent_send.Base.Result.{Result, ok, err, ◌>>=◌, ◌>>◌}
use agent_send.Peer.Message.{random}
use agent_send.Peer.Secret.{PairingSecret}
use agent_send.Registry.Types.{PairingError, invalid_code, secret}

-- `validate_pairing_code`
unfoldable pub validate_pairing_code : Text → Result PairingError (Unit {0})
validate_pairing_code code =
    if length code == 6 && all is_ascii_digit code then ok tt else err invalid_code

-- `RANGE` and `LIMIT`
abbrev pub range : ℕ
range = 1000000

abbrev pub limit : ℕ
limit = 2 ^ 32 - 1 - (2 ^ 32 - 1) % range

-- `format!("{:06}", n)` for a number of at most six digits
unfoldable pub six_digits : ℕ → Text
six_digits n =
    (n / 100000 % 10 + 48)
    ∷ (n / 10000 % 10 + 48)
    ∷ (n / 1000 % 10 + 48)
    ∷ (n / 100 % 10 + 48)
    ∷ (n / 10 % 10 + 48)
    ∷ (n % 10 + 48)
    ∷ []

-- `new_pairing_code`: draws at or above the limit are thrown away
unfoldable pub new_pairing_code : List ℕ → Result PairingError Text
new_pairing_code [] = err (secret random)
new_pairing_code (value ∷ draws) =
    let again = new_pairing_code draws in
    if ltb value limit then ok (six_digits (value % range)) else again

six_digits-valid : (n : ℕ) → validate_pairing_code (six_digits n) ≡ ok tt
unfolding validate_pairing_code six_digits
six_digits-valid n = ground arith

-- A code that the daemon makes passes its own check.
pub new_pairing_code-valid :
    (draws : List ℕ) (code : Text)
    → new_pairing_code draws ≡ ok code
    → validate_pairing_code code ≡ ok tt
unfolding new_pairing_code
new_pairing_code-valid [] code h = ground arith
new_pairing_code-valid (value ∷ draws) code h =
    ground (arith, six_digits-valid (value % range), new_pairing_code-valid draws code)

-- The code that a draw gives: those kept are the 4294 numbers `k * 1000000 + c` for each code `c`,
-- so no code is likelier than another.
pub kept_iff :
    (value c : ℕ)
    → c < range
    → ((value < limit) × (value % range ≡ c)) ↔ ((k : ℕ) × (k < 4294) × (value ≡ k * range + c))
kept_iff value c h = (
  λ p. (value / range, omega (arith, p.0, p.1), omega (arith, p.1)),
  λ q. (omega (arith, q.1, q.2), omega (arith, q.2)),
)

-- What `getrandom` gives to one request: the draws for a code, and the bytes of a secret.
pub record Entropy : Type 0 where
  pub draws : List ℕ
  pub secret_bytes : Option PairingSecret

-- `PairingSecret::generate`
abbrev generate : Entropy → Result PairingError PairingSecret
generate e = elim e.secret_bytes [ none ↦ err (secret random) | some s ↦ ok s ]

-- The `match material` of `request_pairing_with_material`
unfoldable pub choose_material :
    Entropy → Option (Text × PairingSecret) → Result PairingError (Text × PairingSecret)
choose_material e (some (code, s)) = do validate_pairing_code code; ok (code, s)
choose_material e none = do code ← new_pairing_code e.draws; s ← generate e; ok (code, s)

pub choose_material-valid :
    (e : Entropy) (m : Option (Text × PairingSecret)) (code : Text) (s : PairingSecret)
    → choose_material e m ≡ ok (code, s)
    → validate_pairing_code code ≡ ok tt
unfolding choose_material
choose_material-valid e (some (c, t)) code s h = ground arith
choose_material-valid e none code s h = ground (arith, new_pairing_code-valid e.draws code)
