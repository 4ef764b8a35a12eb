-- ===== src/Registry/Restart/Sorted.antt =====
-- The order of the keys of a `BTreeMap<String, _>`.
use agent_send.Base.{
  Text, [], ◌∷◌, none, ◌≡◌, refl, sym, subst, arith, text_compare, text_eq_iff, ◌==◌, Text_eq,
  Bool-cases, inl, inr, Ordering, ◌⊎◌,
}
use agent_send.Base.Map.{Map, get, insert, remove, text_compare_refl, text_compare_sound}

text_compare_flip :
    (xs ys : Text) → text_compare xs ys ≡ Ordering.gt → text_compare ys xs ≡ Ordering.lt
unfolding text_compare
text_compare_flip [] [] h = ground arith
text_compare_flip [] (y ∷ ys) h = ground arith
text_compare_flip (x ∷ xs) [] h = refl
text_compare_flip (x ∷ xs) (y ∷ ys) h = ground (arith, text_compare_flip xs ys)

text_compare_trans :
    (xs ys zs : Text)
    → text_compare xs ys ≡ Ordering.lt
    → text_compare ys zs ≡ Ordering.lt
    → text_compare xs zs ≡ Ordering.lt
unfolding text_compare
text_compare_trans [] [] zs h k = ground arith
text_compare_trans [] (y ∷ ys) [] h k = ground arith
text_compare_trans [] (y ∷ ys) (z ∷ zs) h k = refl
text_compare_trans (x ∷ xs) [] zs h k = ground arith
text_compare_trans (x ∷ xs) (y ∷ ys) [] h k = ground arith
text_compare_trans (x ∷ xs) (y ∷ ys) (z ∷ zs) h k = ground (arith, text_compare_trans xs ys zs)

text_compare_total :
    (xs ys : Text)
    → (text_compare xs ys ≡ Ordering.lt)
      ⊎ ((text_compare xs ys ≡ Ordering.eq) ⊎ (text_compare xs ys ≡ Ordering.gt))
text_compare_total xs ys = go (text_compare xs ys)
  where
    go : (o : Ordering) → (o ≡ Ordering.lt) ⊎ ((o ≡ Ordering.eq) ⊎ (o ≡ Ordering.gt))
    go Ordering.lt = inl refl
    go Ordering.eq = inr (inl refl)
    go Ordering.gt = inr (inr refl)

module _ {ℓ} {V : Type ℓ} where
  -- Every key of the map is above the given one.
  abbrev Above : Text → Map V → Type 0
  Above k [] = Unit
  Above k ((j, v) ∷ m) = (text_compare k j ≡ Ordering.lt) × Above k m

  -- The keys ascend.
  abbrev pub IsSorted : Map V → Type 0
  IsSorted [] = Unit
  IsSorted ((j, v) ∷ m) = Above j m × IsSorted m

  Above-trans : (k j : Text) (m : Map V) → text_compare k j ≡ Ordering.lt → Above j m → Above k m
  Above-trans k j [] h a = tt
  Above-trans k j ((i, v) ∷ m) h (a, rest) =
      (text_compare_trans k j i h a, Above-trans k j m h rest)

  Above-insert :
      (k j : Text) (v : V) (m : Map V)
      → text_compare k j ≡ Ordering.lt
      → Above k m
      → Above k (insert m j v)
  unfolding insert
  Above-insert k j v [] h a = (h, tt)
  Above-insert k j v ((i, w) ∷ m) h (a, rest) = elim (text_compare_total j i) [
    | inl e ↦ rw (e, Above) (h, (a, rest))
    | inr (inl e) ↦ rw (e, Above) (h, rest)
    | inr (inr e) ↦ rw (e, Above) (a, Above-insert k j v m h rest)
  ]

  pub insert-IsSorted : (m : Map V) (k : Text) (v : V) → IsSorted m → IsSorted (insert m k v)
  unfolding insert
  insert-IsSorted [] k v h = (tt, tt)
  insert-IsSorted ((j, w) ∷ m) k v (a, h) = elim (text_compare_total k j) [
    | inl e ↦ rw (e, IsSorted) ((e, Above-trans k j m e a), (a, h))
    | inr (inl e) ↦ rw (e, IsSorted) (subst (λ i. Above i m) (sym (text_compare_sound k j e)) a, h)
    | inr (inr e) ↦
        rw (e, IsSorted) (Above-insert j k v m (text_compare_flip k j e) a, insert-IsSorted m k v h)
  ]

  Above-remove : (k j : Text) (m : Map V) → Above k m → Above k (remove m j)
  unfolding remove
  Above-remove k j [] a = tt
  Above-remove k j ((i, w) ∷ m) (a, rest) = elim (Bool-cases (i == j)) [
    | inl e ↦ rw (e, Above) (Above-remove k j m rest)
    | inr e ↦ rw (e, Above) (a, Above-remove k j m rest)
  ]

  pub remove-IsSorted : (m : Map V) (k : Text) → IsSorted m → IsSorted (remove m k)
  unfolding remove
  remove-IsSorted [] k h = tt
  remove-IsSorted ((j, w) ∷ m) k (a, h) = elim (Bool-cases (j == k)) [
    | inl e ↦ rw (e, IsSorted) (remove-IsSorted m k h)
    | inr e ↦ rw (e, IsSorted) (Above-remove j k m a, remove-IsSorted m k h)
  ]

  -- A key below all those of a map is not in it.
  pub Above-absent : (k : Text) (m : Map V) → Above k m → get m k ≡ none
  unfolding get
  Above-absent k [] a = refl
  Above-absent k ((j, v) ∷ m) (a, rest) =
      ground (arith, text_eq_iff j k, text_compare_refl k, a, Above-absent k m rest)
