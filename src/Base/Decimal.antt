-- ===== src/Base/Decimal.antt =====
-- Decimal digits: `format!("{n}")` of an unsigned integer.
use agent_send.Base.Strings.{Text}
use agent_send.Base.Tests.{ltb, if◌then◌else◌}
use Prim.Native.Nat.{ℕ, zero, suc, ◌+◌, ◌-◌, ◌*◌, ◌/◌, ◌%◌, ◌<◌}
use mathlib.Core.Path.{◌≡◌, refl}
use native.Mathlib.Decide.{dec_lt}
use native.Mathlib.Omega.{arith}
use mathlib.Core.List.{[], ◌∷◌, ◌++◌}

-- The fuel is a bound on the digits: a number has at most as many as its value plus one.
unfoldable pub decimal_digits : ℕ → ℕ → Text
decimal_digits zero n = []
decimal_digits (suc fuel) n =
    let higher = decimal_digits fuel (n / 10) in
    if ltb n 10 then (n + 48) ∷ [] else higher ++ ((n % 10 + 48) ∷ [])

unfoldable pub decimal : ℕ → Text
unfolding decimal_digits
decimal n = decimal_digits (suc n) n

-- The number that digits show.
read_from : ℕ → Text → ℕ
read_from acc [] = acc
read_from acc (c ∷ cs) = read_from (acc * 10 + (c - 48)) cs

read_from-append :
    (acc c : ℕ) (xs : Text) → read_from acc (xs ++ (c ∷ [])) ≡ read_from acc xs * 10 + (c - 48)
unfolding read_from
read_from-append acc c [] = refl
read_from-append acc c (x ∷ xs) = read_from-append (acc * 10 + (x - 48)) c xs

read-decimal_digits : (fuel n : ℕ) → n < fuel → read_from 0 (decimal_digits fuel n) ≡ n
unfolding decimal_digits read_from
read-decimal_digits zero n h = absurd (omega arith)
read-decimal_digits (suc fuel) n h = elim (dec_lt n 10) [
  | yes small ↦ ground arith
  | no large ↦
      let rest = read-decimal_digits fuel (n / 10) (omega arith) in
      let last = read_from-append 0 (n % 10 + 48) (decimal_digits fuel (n / 10)) in
      ground (arith, rest, last)
]

-- Different numbers have different digits.
pub decimal-injective : (m n : ℕ) → decimal m ≡ decimal n → m ≡ n
unfolding decimal
decimal-injective m n e =
    let hm = read-decimal_digits (suc m) m (omega arith) in
    let hn = read-decimal_digits (suc n) n (omega arith) in cc (hm, hn, e)
