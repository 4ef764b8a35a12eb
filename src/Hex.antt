-- ===== src/Hex.antt =====
-- `hex` of crates/agent-send-daemon/src/transfer.rs and automation.rs, and `u8::from_str_radix`.
use agent_send.Base.{
  ℕ, ◌+◌, ◌-◌, ◌*◌, ◌/◌, ◌%◌, ◌<◌, Text, Bytes, [], ◌∷◌, true, false, ◌&&◌, Option, none, some, ◌≡◌,
  refl, arith, leb, ltb, if◌then◌else◌, ◌==◌, ℕ_eq, is_ascii_hexdigit, is_ascii_digit, all, All,
  length,
}

abbrev pub hex_digit : ℕ → ℕ
hex_digit n = if ltb n 10 then n + 48 else n + 87

-- `format!("{byte:02x}")` of each byte
unfoldable pub hex : Bytes → Text
hex [] = []
hex (b ∷ bs) = hex_digit (b / 16) ∷ hex_digit (b % 16) ∷ hex bs

abbrev pub digit_value : ℕ → Option ℕ
digit_value c =
    if is_ascii_digit c
    then some (c - 48)
    else if leb b'a' c && leb c b'f'
    then some (c - 87)
    else if leb b'A' c && leb c b'F'
    then some (c - 55)
    else none

-- `u8::from_str_radix(_, 16)` on two characters; a leading `+` is allowed
abbrev pub from_radix16 : ℕ → ℕ → Option ℕ
from_radix16 a b = if a == b'+' then digit_value b else elim (digit_value a) [
  | none ↦ none
  | some hi ↦ elim (digit_value b) [ none ↦ none | some lo ↦ some (hi * 16 + lo) ]
]

-- `u8::to_ascii_lowercase`
abbrev pub to_ascii_lowercase : ℕ → ℕ
to_ascii_lowercase c = if leb b'A' c && leb c b'Z' then c + 32 else c

-- A byte is read back from its two digits.
pub from_radix16-hex_digit :
    (b : ℕ) → b < 256 → from_radix16 (hex_digit (b / 16)) (hex_digit (b % 16)) ≡ some b
from_radix16-hex_digit b h = ground arith

value : ℕ → ℕ
value c = if is_ascii_digit c then c - 48 else if leb b'a' c then c - 87 else c - 55

digit_value-hexdigit :
    (c : ℕ)
    → is_ascii_hexdigit c ≡ true
    → (digit_value c ≡ some (value c))
      × (value c < 16)
      × (hex_digit (value c) ≡ to_ascii_lowercase c)
      × ((c == b'+') ≡ false)
unfolding value
digit_value-hexdigit c h = (ground arith, ground arith, ground arith, ground arith)

-- Two hexadecimal digits always give a byte, which prints as the same digits in lower case.
pub from_radix16-digits :
    (x y : ℕ)
    → is_ascii_hexdigit x ≡ true
    → is_ascii_hexdigit y ≡ true
    → (b : ℕ) × (from_radix16 x y ≡ some b)
      × (b < 256)
      × (hex_digit (b / 16) ≡ to_ascii_lowercase x)
      × (hex_digit (b % 16) ≡ to_ascii_lowercase y)
from_radix16-digits x y hx hy =
    let (vx, bx, lx, px) = digit_value-hexdigit x hx in
    let (vy, by, ly, py) = digit_value-hexdigit y hy in
    let hi : (value x * 16 + value y) / 16 ≡ value x = omega arith in
    let lo : (value x * 16 + value y) % 16 ≡ value y = omega arith in
    (value x * 16 + value y, rw (px, vx, vy), omega arith, rw hi lx, rw lo ly)

pub length-hex : (bs : Bytes) → length (hex bs) ≡ 2 * length bs
unfolding hex
length-hex [] = refl
length-hex (b ∷ bs) = omega (arith, length-hex bs)

hexdigit-hex_digit : (n : ℕ) → n < 16 → is_ascii_hexdigit (hex_digit n) ≡ true
hexdigit-hex_digit n h = ground arith

pub all-hex : (bs : Bytes) → All (λ b. b < 256) bs → all is_ascii_hexdigit (hex bs) ≡ true
unfolding hex
all-hex [] h = refl
all-hex (b ∷ bs) h =
    rw (hexdigit-hex_digit (b / 16) (omega (arith, h.0)), hexdigit-hex_digit (b % 16) (omega arith))
      (all-hex bs h.1)
