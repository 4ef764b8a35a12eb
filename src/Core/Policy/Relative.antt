-- ===== src/Core/Policy/Relative.antt =====
-- Which paths `validate_relative` accepts.
use agent_send.Base.{
  Text, text, List, [], ◌∷◌, true, false, ◌≡◌, ◌≢◌, ◌↔◌, refl, ◌==◌, Text_eq, ℕ_eq, arith,
  text_eq_iff, Bool-cases, inl, inr, is_empty, All, any,
}
use agent_send.Base.Result.{ok}
use agent_send.Core.Paths.{segments, body, lead, components, has_root}
use agent_send.Core.Policy.{check_components, validate_relative}

-- No piece between two slashes is `..`.
abbrev pub NoParents : List Text → Type 0
NoParents = All (λ s. s ≢ text "..")

-- A path that stays inside the directory that it is read from.
pub record IsConfined (p : Text) : Type 0 where
  pub nonempty : p ≢ []
  pub no_nul : any (λ b. b == 0) p ≡ false
  pub relative : has_root p ≡ false
  pub no_parents : NoParents (segments p)

dot_ne_parent : (s : Text) → s ≡ text "." → s ≢ text ".."
dot_ne_parent s e f = ground arith

empty_ne_parent : (s : Text) → is_empty s ≡ true → s ≢ text ".."
empty_ne_parent [] e f = ground arith
empty_ne_parent (c ∷ s) e f = ground arith

check-body→NoParents : (ss : List Text) → check_components (body ss) ≡ ok tt → NoParents ss
unfolding check_components body
check-body→NoParents [] h = tt
check-body→NoParents (s ∷ ss) h = ground (
  arith,
  text_eq_iff s (text "."),
  text_eq_iff s (text ".."),
  dot_ne_parent s,
  empty_ne_parent s,
  check-body→NoParents ss,
)

NoParents→check-body : (ss : List Text) → NoParents ss → check_components (body ss) ≡ ok tt
unfolding check_components body
NoParents→check-body [] h = refl
NoParents→check-body (s ∷ ss) h =
    ground (arith, text_eq_iff s (text ".."), h.0, NoParents→check-body ss h.1)

check-lead→NoParents : (ss : List Text) → check_components (lead ss) ≡ ok tt → NoParents ss
unfolding check_components
check-lead→NoParents [] h = tt
check-lead→NoParents (s ∷ ss) h = elim (Bool-cases (s == text ".")) [
  | inl dot ↦
      (dot_ne_parent s ((text_eq_iff s (text ".")).0 dot), check-body→NoParents ss (rw dot at h))
  | inr other ↦ check-body→NoParents (s ∷ ss) (rw other at h)
]

NoParents→check-lead : (ss : List Text) → NoParents ss → check_components (lead ss) ≡ ok tt
unfolding check_components
NoParents→check-lead [] h = refl
NoParents→check-lead (s ∷ ss) h = elim (Bool-cases (s == text ".")) [
  | inl dot ↦ rw dot (NoParents→check-body ss h.1)
  | inr other ↦ rw other (NoParents→check-body (s ∷ ss) h)
]

relative_of_check : (p : Text) → check_components (components p) ≡ ok tt → has_root p ≡ false
unfolding check_components components
relative_of_check p h = ground arith

lead_of_relative : (p : Text) → has_root p ≡ false → components p ≡ lead (segments p)
unfolding components
lead_of_relative p h = rw h

accepted→IsConfined : (p : Text) → validate_relative p ≡ ok tt → IsConfined p
unfolding validate_relative
accepted→IsConfined p h =
    let checked : check_components (components p) ≡ ok tt = ground arith in
    let relative : has_root p ≡ false = relative_of_check p checked in
    record {
      nonempty = ground arith;
      no_nul = ground arith;
      relative = relative;
      no_parents = check-lead→NoParents (segments p) (rw (lead_of_relative p relative) at checked);
    }

is_empty_of_ne : (p : Text) → p ≢ [] → is_empty p ≡ false
is_empty_of_ne [] h = absurd (h refl)
is_empty_of_ne (c ∷ p) h = refl

IsConfined→accepted : (p : Text) → IsConfined p → validate_relative p ≡ ok tt
unfolding validate_relative
IsConfined→accepted p h =
    rw (is_empty_of_ne p h.nonempty, h.no_nul, lead_of_relative p h.relative)
      (NoParents→check-lead (segments p) h.no_parents)

-- A path is accepted exactly when it is not empty, has no NUL byte, does not begin with a slash,
-- and none of the pieces between its slashes is `..`.
pub validate_relative-iff-IsConfined : (p : Text) → (validate_relative p ≡ ok tt) ↔ IsConfined p
validate_relative-iff-IsConfined p = (accepted→IsConfined p, IsConfined→accepted p)
