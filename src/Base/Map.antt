-- ===== src/Base/Map.antt =====
-- `BTreeMap<String, V>` and `BTreeSet<String>`: an association list in the order of the keys.
use mathlib.Core.Path.{◌≡◌, refl}
use mathlib.Core.Bool.{Bool}
use mathlib.Core.Option.{Option, none, some}
use mathlib.Core.List.{List, [], ◌∷◌}
use native.Mathlib.Omega.{arith}
use Prim.Native.Nat.{ℕ, compare, Ordering}
use agent_send.Base.Tests.{if◌then◌else◌}
use agent_send.Base.Lists.{is_some}
use agent_send.Base.Strings.{Text, ◌==◌, Text_eq, text_eq_iff, text_compare}

abbrev pub Map {ℓ} : Type ℓ → Type ℓ
Map V = List (Text × V)

module _ {ℓ} {V : Type ℓ} where
  unfoldable pub get : Map V → Text → Option V
  get [] k = none
  get ((j, v) ∷ m) k = if j == k then some v else get m k

  unfoldable pub insert : Map V → Text → V → Map V
  insert [] k v = (k, v) ∷ []
  insert ((j, w) ∷ m) k v =
      let rest = insert m k v in
      elim (text_compare k j) [
        | Ordering.lt ↦ (k, v) ∷ (j, w) ∷ m
        | Ordering.eq ↦ (k, v) ∷ m
        | Ordering.gt ↦ (j, w) ∷ rest
      ]

  unfoldable pub remove : Map V → Text → Map V
  remove [] k = []
  remove ((j, v) ∷ m) k = let rest = remove m k in if j == k then rest else (j, v) ∷ rest

  abbrev pub contains_key : Map V → Text → Bool
  contains_key m k = is_some (get m k)

  abbrev pub values : Map V → List V
  values [] = []
  values ((k, v) ∷ m) = v ∷ values m

  abbrev pub keys : Map V → List Text
  keys [] = []
  keys ((k, v) ∷ m) = k ∷ keys m

compare-eq : (x y : ℕ) → compare x y ≡ Ordering.eq → x ≡ y
compare-eq x y h = ground arith

pub text_compare_sound : (xs ys : Text) → text_compare xs ys ≡ Ordering.eq → xs ≡ ys
unfolding text_compare
text_compare_sound [] [] h = refl
text_compare_sound [] (y ∷ ys) h = ground arith
text_compare_sound (x ∷ xs) [] h = ground arith
text_compare_sound (x ∷ xs) (y ∷ ys) h = ground (arith, text_compare_sound xs ys)

pub text_compare_refl : (xs : Text) → text_compare xs xs ≡ Ordering.eq
unfolding text_compare
text_compare_refl [] = refl
text_compare_refl (x ∷ xs) = ground (arith, text_compare_refl xs)

text_compare-of_eq : (xs ys : Text) → xs ≡ ys → text_compare ys xs ≡ Ordering.eq
text_compare-of_eq xs ys e = rw e (text_compare_refl ys)

module _ {ℓ} {V : Type ℓ} where
  pub get-insert :
      (m : Map V) (k j : Text) (v : V) → get (insert m k v) j ≡ (if k == j then some v else get m j)
  unfolding get insert
  get-insert [] k j v = refl
  get-insert ((i, w) ∷ m) k j v = ground (
    arith,
    text_eq_iff k j,
    text_eq_iff i k,
    text_eq_iff i j,
    text_compare_sound k i,
    text_compare-of_eq i k,
    get-insert m k j v,
  )

  pub get-remove :
      (m : Map V) (k j : Text) → get (remove m k) j ≡ (if k == j then none else get m j)
  unfolding get remove
  get-remove [] k j = ground arith
  get-remove ((i, w) ∷ m) k j =
      ground (arith, text_eq_iff k j, text_eq_iff i k, text_eq_iff i j, get-remove m k j)

pub ruleset map_laws = (get-insert, get-remove)
