-- ===== src/Automation/Compare.antt =====
-- `constant_time_eq` of crates/agent-send-daemon/src/automation.rs.
use Prim.Native.Nat.{bit_xor, bit_or}
use agent_send.Base.{
  ℕ, zero, suc, ◌<◌, Bytes, [], ◌∷◌, Bool, true, false, not, ◌&&◌, ◌≡◌, ◌↔◌, refl, arith,
  if◌then◌else◌, ◌==◌, ℕ_eq, length, ltb, All,
}

abbrev difference : ℕ → Bytes → Bytes → ℕ
difference d [] ys = d
difference d (x ∷ xs) [] = d
difference d (x ∷ xs) (y ∷ ys) = difference (bit_or d (bit_xor x y)) xs ys

-- `constant_time_eq`
unfoldable pub constant_time_eq : Bytes → Bytes → Bool
constant_time_eq left right =
    if not (length left == length right) then false else difference 0 left right == 0

-- The test passes at every number below the bound.
passes : (ℕ → Bool) → (bound : ℕ) → Bool
passes test zero = true
passes test (suc last) = let before = passes test last in if test last then before else false

test-passes :
    (bound : ℕ) (test : ℕ → Bool) (n : ℕ) → n < bound → passes test bound ≡ true → test n ≡ true
unfolding passes
test-passes zero test n below ok = absurd (omega arith)
test-passes (suc last) test n below ok = ground (arith, test-passes last test n)

same : Bool → Bool → Bool
same true b = b
same false b = not b

-- What is known of two bytes.
abbrev facts : ℕ → ℕ → Bool
facts x y =
    same (bit_xor x y == 0) (x == y)
    && (ltb (bit_xor x y) 256
        && (ltb (bit_or x y) 256 && same (bit_or x y == 0) (x == 0 && y == 0)))

table : passes (λ x. passes (facts x) 256) 256 ≡ true
unfolding passes same
table = refl

-- A list of bytes.
unfoldable pub AreBytes : Bytes → Type 0
AreBytes xs = All (λ x. x < 256) xs

facts-hold : (x y : ℕ) → x < 256 → y < 256 → facts x y ≡ true
facts-hold x y hx hy =
    test-passes 256 (facts x) y hy (test-passes 256 (λ z. passes (facts z) 256) x hx table)

xor-facts : (x y : ℕ) → x < 256 → y < 256 → ((bit_xor x y ≡ 0) ↔ (x ≡ y)) × (bit_xor x y < 256)
unfolding same
xor-facts x y hx hy = ground (arith, facts-hold x y hx hy)

or-facts :
    (x y : ℕ) → x < 256 → y < 256 → ((bit_or x y ≡ 0) ↔ ((x ≡ 0) × (y ≡ 0))) × (bit_or x y < 256)
unfolding same
or-facts x y hx hy = ground (arith, facts-hold x y hx hy)

difference-zero :
    (d : ℕ) (xs ys : Bytes)
    → d < 256
    → AreBytes xs
    → AreBytes ys
    → length xs ≡ length ys
    → (difference d xs ys ≡ 0) ↔ ((d ≡ 0) × (xs ≡ ys))
unfolding AreBytes
difference-zero d [] [] hd hx hy e = (λ h. (h, refl), λ h. h.0)
difference-zero d [] (y ∷ ys) hd hx hy e = absurd (omega (arith, e))
difference-zero d (x ∷ xs) [] hd hx hy e = absurd (omega (arith, e))
difference-zero d (x ∷ xs) (y ∷ ys) hd hx hy e =
    let xor = xor-facts x y hx.0 hy.0 in
    let or = or-facts d (bit_xor x y) hd xor.1 in
    let rest = difference-zero (bit_or d (bit_xor x y)) xs ys or.1 hx.1 hy.1 (omega (arith, e)) in
    ground (arith, xor, or, rest)

-- The comparison in constant time decides equality: of two lists of bytes, it gives true exactly
-- where they are equal.
pub constant_time_eq_iff :
    (left right : Bytes)
    → AreBytes left
    → AreBytes right
    → (constant_time_eq left right ≡ true) ↔ (left ≡ right)
unfolding constant_time_eq
constant_time_eq_iff left right hl hr = (
  λ h. ground (arith, difference-zero 0 left right (omega arith) hl hr),
  λ e. ground (arith, difference-zero 0 left right (omega arith) hl hr),
)
