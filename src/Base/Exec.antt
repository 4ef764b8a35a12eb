-- ===== src/Base/Exec.antt =====
-- Methods over a mutable state `S` that may fail with an `E`.
use mathlib.Core.Path.{◌≡◌}
use mathlib.Core.Logic.{inl, inr}
use native.Mathlib.Omega.{arith}
use agent_send.Base.Result.{Result, ok, err, Result-cases}

abbrev pub Exec {ℓ} : Type ℓ → Type ℓ → Type ℓ → Type ℓ
Exec S E A = S → Result E A × S

module _ {ℓ} {S E A : Type ℓ} where
  abbrev pub pure : A → Exec S E A
  pure a s = (ok a, s)

  abbrev pub raise : E → Exec S E A
  raise e s = (err e, s)

  abbrev pub lift : Result E A → Exec S E A
  lift r s = (r, s)

  abbrev pub gets : (S → A) → Exec S E A
  gets f s = (ok (f s), s)

module _ {ℓ} {S E A B : Type ℓ} where
  abbrev pub continue : Result E A → (A → Exec S E B) → Exec S E B
  continue (ok a) f s = f a s
  continue (err e) f s = (err e, s)

  infixl 5 ◌>>=◌ ◌>>◌
  abbrev pub ◌>>=◌ : Exec S E A → (A → Exec S E B) → Exec S E B
  ◌>>=◌ m f s = let (r, s') = m s in continue r f s'

  abbrev pub ◌>>◌ : Exec S E A → Exec S E B → Exec S E B
  ◌>>◌ m k s = let (r, s') = m s in continue r (λ _. k) s'

  -- A chain that succeeds is its second step, in the state that the first one leaves.
  pub >>=-runs :
      (m : Exec S E A) (f : A → Exec S E B) (s : S) {b : B}
      → ((m >>= f) s).0 ≡ ok b
      → (a : A) × ((m s).0 ≡ ok a) × ((m >>= f) s ≡ f a (m s).1)
  >>=-runs m f s h = elim (Result-cases (m s).0) [
    | inl (a, e) ↦ (a, e, ground (arith, e))
    | inr (x, e) ↦ absurd (ground (arith, e, h))
  ]

  pub >>-runs :
      (m : Exec S E A) (k : Exec S E B) (s : S) {b : B}
      → ((m >> k) s).0 ≡ ok b
      → (a : A) × ((m s).0 ≡ ok a) × ((m >> k) s ≡ k (m s).1)
  >>-runs m k s h = >>=-runs m (λ _. k) s h
