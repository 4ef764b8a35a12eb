-- ===== src/Base/Strings.antt =====
-- Texts as their UTF-8 bytes, with the standard library's operations on `str` that the source uses.
use Prim.Native.Char.{code}
use Prim.Native.String.{String}
use Prim.Native.Nat.{ℕ, compare, Ordering}
use mathlib.Core.Path.{◌≡◌, refl}
use mathlib.Core.Logic.{◌↔◌}
use mathlib.Core.Bool.{Bool, true, false, ◌&&◌, ◌||◌}
use mathlib.Core.Option.{Option, none, some}
use mathlib.Core.List.{List, [], ◌∷◌}
use native.Mathlib.Omega.{arith}
use agent_send.Base.Tests.{leb, nat_eq, nat_eq_iff, if◌then◌else◌}

-- Types whose values the source compares with `==`.
pub record HasEq {ℓ} (T : Type ℓ) : Type ℓ where
  pub same : (left right : T) → Bool
  pub same_iff : (left right : T) → (same left right ≡ true) ↔ (left ≡ right)

infix 50 ◌==◌
abbrev pub ◌==◌ {ℓ} : {T : Type ℓ} ⦃eq : HasEq T⦄ → T → T → Bool
◌==◌ ⦃eq⦄ left right = eq.same left right

instance abbrev pub ℕ_eq : HasEq ℕ
ℕ_eq = record { same_iff = nat_eq_iff; same = nat_eq }

-- The bytes of a `String` or of a `Vec<u8>`.
abbrev pub Bytes : Type 0
Bytes = List ℕ

abbrev pub Text : Type 0
Text = List ℕ

-- The bytes of a literal, which is ASCII wherever it is used.
abbrev pub text : String → Text
text String.[] = []
text (String.◌∷◌ c s) = code c ∷ text s

unfoldable pub text_eq : Text → Text → Bool
text_eq [] [] = true
text_eq [] (y ∷ ys) = false
text_eq (x ∷ xs) [] = false
text_eq (x ∷ xs) (y ∷ ys) = nat_eq x y && text_eq xs ys

text_eq_sound : (xs ys : Text) → text_eq xs ys ≡ true → xs ≡ ys
unfolding text_eq
text_eq_sound [] [] h = refl
text_eq_sound [] (y ∷ ys) h = ground arith
text_eq_sound (x ∷ xs) [] h = ground arith
text_eq_sound (x ∷ xs) (y ∷ ys) h = ground (arith, text_eq_sound xs ys)

pub text_eq_refl : (xs : Text) → text_eq xs xs ≡ true
unfolding text_eq
text_eq_refl [] = refl
text_eq_refl (x ∷ xs) = ground (arith, text_eq_refl xs)

pub text_eq_iff : (xs ys : Text) → (text_eq xs ys ≡ true) ↔ (xs ≡ ys)
text_eq_iff xs ys = (text_eq_sound xs ys, λ e. ground (arith, text_eq_refl xs))

instance abbrev pub Text_eq : HasEq Text
Text_eq = record { same_iff = text_eq_iff; same = text_eq }

-- `Ord for str`: bytewise, a proper prefix first.
unfoldable pub text_compare : Text → Text → Ordering
text_compare [] [] = Ordering.eq
text_compare [] (y ∷ ys) = Ordering.lt
text_compare (x ∷ xs) [] = Ordering.gt
text_compare (x ∷ xs) (y ∷ ys) =
    let rest = text_compare xs ys in
    elim (compare x y) [
      | Ordering.lt ↦ Ordering.lt
      | Ordering.eq ↦ rest
      | Ordering.gt ↦ Ordering.gt
    ]

-- `str::trim().is_empty()`: nothing but characters of the Unicode class White_Space. Beyond ASCII
-- these are U+0085 and U+00A0, U+1680, U+2000 to U+200A, U+2028, U+2029, U+202F, U+205F, U+3000.
abbrev ascii_white : ℕ → Bool
ascii_white b = b == 32 || leb 9 b && leb b 13

abbrev white2 : ℕ → ℕ → Bool
white2 a b = a == 0xc2 && (b == 0x85 || b == 0xa0)

abbrev white3 : ℕ → ℕ → ℕ → Bool
white3 a b c =
    a == 0xe1 && b == 0x9a && c == 0x80
    || a == 0xe2 && b == 0x80 && (leb 0x80 c && leb c 0x8a || c == 0xa8 || c == 0xa9 || c == 0xaf)
    || a == 0xe2 && b == 0x81 && c == 0x9f
    || a == 0xe3 && b == 0x80 && c == 0x80

unfoldable pub is_blank : Text → Bool
is_blank [] = true
is_blank (a ∷ []) = ascii_white a
is_blank (a ∷ b ∷ []) = ascii_white a && ascii_white b || white2 a b
is_blank (a ∷ b ∷ c ∷ rest) =
    let one = is_blank (b ∷ c ∷ rest) in
    let two = is_blank (c ∷ rest) in
    let three = is_blank rest in
    if ascii_white a then one else if white2 a b then two else if white3 a b c then three else false

-- `u8::is_ascii_digit` and `u8::is_ascii_hexdigit`
abbrev pub is_ascii_digit : ℕ → Bool
is_ascii_digit b = leb b'0' b && leb b b'9'

abbrev pub is_ascii_hexdigit : ℕ → Bool
is_ascii_hexdigit b = is_ascii_digit b || leb b'a' b && leb b b'f' || leb b'A' b && leb b b'F'

-- `str::trim_start`: a character of White_Space in front is dropped, as long as there is one.
unfoldable pub trim_start : Text → Text
trim_start [] = []
trim_start (a ∷ []) = if ascii_white a then [] else a ∷ []
trim_start (a ∷ b ∷ []) =
    let one = trim_start (b ∷ []) in
    if ascii_white a then one else if white2 a b then [] else a ∷ b ∷ []
trim_start (a ∷ b ∷ c ∷ rest) =
    let one = trim_start (b ∷ c ∷ rest) in
    let two = trim_start (c ∷ rest) in
    let three = trim_start rest in
    if ascii_white a
    then one
    else if white2 a b
    then two
    else if white3 a b c
    then three
    else a ∷ b ∷ c ∷ rest

-- `str::trim_end`: what is blank to its end is dropped.
unfoldable pub trim_end : Text → Text
unfolding is_blank
trim_end [] = []
trim_end (c ∷ cs) = let rest = trim_end cs in if is_blank (c ∷ cs) then [] else c ∷ rest

-- `str::trim`
unfoldable pub trim : Text → Text
unfolding trim_start trim_end
trim s = trim_end (trim_start s)

-- `str::strip_prefix`
unfoldable pub strip_prefix : (prefix s : Text) → Option Text
strip_prefix [] s = some s
strip_prefix (p ∷ ps) [] = none
strip_prefix (p ∷ ps) (c ∷ cs) = let rest = strip_prefix ps cs in if p == c then rest else none

abbrev cons_word : ℕ → Text × Text → Text × Text
cons_word c (word, rest) = (c ∷ word, rest)

-- What stands before the first character of White_Space, and the rest.
unfoldable pub span_word : Text → Text × Text
span_word [] = ([], [])
span_word (a ∷ []) = if ascii_white a then ([], a ∷ []) else (a ∷ [], [])
span_word (a ∷ b ∷ []) =
    let more = span_word (b ∷ []) in
    if ascii_white a || white2 a b then ([], a ∷ b ∷ []) else cons_word a more
span_word (a ∷ b ∷ c ∷ rest) =
    let more = span_word (b ∷ c ∷ rest) in
    if ascii_white a || white2 a b || white3 a b c then ([], a ∷ b ∷ c ∷ rest) else cons_word a more
