-- ===== src/Core/Paths/Laws.antt =====
-- How the components of a path go with `join`.
use mathlib.Core.List.{append-nil}
use mathlib.Core.Logic.{◌≢◌}
use agent_send.Base.{
  Text, ℕ, List, [], ◌∷◌, ◌++◌, true, false, ◌≡◌, refl, ap, sym, ◌∙◌, Text_eq, ℕ_eq, arith,
  text_eq_refl, Bool-cases, inl, inr, is_empty,
}
use agent_send.Core.Paths.{
  Component, prefix, root_dir, cur_dir, parent_dir, normal, cons_head, segments, body, components,
  is_prefix, starts_with, has_root, join, ends_with_slash,
}

segments-ne-nil : (p : Text) → segments p ≢ []
unfolding segments
segments-ne-nil [] h = ground arith
segments-ne-nil (c ∷ cs) h = ground arith

cons_head-append :
    (c : ℕ) (xs ys : List Text) → xs ≢ [] → cons_head c (xs ++ ys) ≡ cons_head c xs ++ ys
cons_head-append c [] ys h = absurd (h refl)
cons_head-append c (x ∷ xs) ys h = refl

-- A slash separates the pieces on its two sides.
pub segments-slash : (a p : Text) → segments (a ++ (b'/' ∷ p)) ≡ segments a ++ segments p
unfolding segments
segments-slash [] p = refl
segments-slash (c ∷ cs) p =
    ground (
      arith,
      segments-slash cs p,
      cons_head-append c (segments cs) (segments p) (segments-ne-nil cs),
    )

pub body-append : (xs ys : List Text) → body (xs ++ ys) ≡ body xs ++ body ys
unfolding body
body-append [] ys = refl
body-append (x ∷ xs) ys = ground (arith, body-append xs ys)

pub is_prefix-append : (cs ds : List Component) → is_prefix cs (cs ++ ds) ≡ true
unfolding is_prefix
is_prefix-append [] ds = refl
is_prefix-append (prefix s ∷ cs) ds = ground (arith, text_eq_refl s, is_prefix-append cs ds)
is_prefix-append (normal s ∷ cs) ds = ground (arith, text_eq_refl s, is_prefix-append cs ds)
is_prefix-append (root_dir ∷ cs) ds = is_prefix-append cs ds
is_prefix-append (cur_dir ∷ cs) ds = is_prefix-append cs ds
is_prefix-append (parent_dir ∷ cs) ds = is_prefix-append cs ds

-- What stands before a final slash.
unslash : Text → Text
unslash [] = []
unslash (c ∷ []) = []
unslash (c ∷ d ∷ s) = c ∷ unslash (d ∷ s)

unslash-append : (s p : Text) → ends_with_slash s ≡ true → s ++ p ≡ unslash s ++ (b'/' ∷ p)
unfolding unslash
unslash-append [] p h = ground arith
unslash-append (c ∷ []) p h = ground arith
unslash-append (c ∷ d ∷ s) p h = ap (λ t. c ∷ t) (unslash-append (d ∷ s) p h)

body-slash :
    (u p : Text) → body (segments (u ++ (b'/' ∷ p))) ≡ body (segments u) ++ body (segments p)
body-slash u p = rw segments-slash (body-append (segments u) (segments p))

-- A final slash adds no component.
body-unslash :
    (s : Text) → ends_with_slash s ≡ true → body (segments (unslash s)) ≡ body (segments s)
unfolding segments body
body-unslash s h =
    let e : s ≡ unslash s ++ (b'/' ∷ []) = sym (append-nil s) ∙ unslash-append s [] h in
    sym (ap (λ t. body (segments t)) e ∙ body-slash (unslash s) [] ∙ append-nil _)

body-segments-slash :
    (s p : Text)
    → ends_with_slash s ≡ true
    → body (segments (s ++ p)) ≡ body (segments s) ++ body (segments p)
body-segments-slash s p h =
    ap (λ t. body (segments t)) (unslash-append s p h)
    ∙ body-slash (unslash s) p
    ∙ ap (λ b. b ++ body (segments p)) (body-unslash s h)

has_root-append : (s p : Text) → has_root s ≡ true → has_root (s ++ p) ≡ true
has_root-append [] p h = ground arith
has_root-append (c ∷ s) p h = h

components-rooted : (s : Text) → has_root s ≡ true → components s ≡ root_dir ∷ body (segments s)
unfolding components
components-rooted s h = rw h

not-empty_of_rooted : (s : Text) → has_root s ≡ true → is_empty s ≡ false
not-empty_of_rooted [] h = ground arith
not-empty_of_rooted (c ∷ s) h = refl

-- Joining a relative path to an absolute one appends the components of its pieces.
pub components-join :
    (base path : Text)
    → has_root base ≡ true
    → has_root path ≡ false
    → components (join base path) ≡ components base ++ body (segments path)
unfolding join
components-join base path rooted relative =
    rw (relative, not-empty_of_rooted base rooted)
      (elim (Bool-cases (ends_with_slash base)) [
        | inl slash ↦
            rw
              (
                slash,
                components-rooted (base ++ path) (has_root-append base path rooted),
                components-rooted base rooted,
              )
              (ap (λ b. root_dir ∷ b) (body-segments-slash base path slash))
        | inr bare ↦
            rw
              (
                bare,
                components-rooted (base ++ (b'/' ∷ path)) (has_root-append base _ rooted),
                components-rooted base rooted,
              )
              (ap (λ b. root_dir ∷ b) (body-slash base path))
      ])

-- So the result lies beneath the absolute path, as `starts_with` sees it.
pub join-starts_with :
    (base path : Text)
    → has_root base ≡ true
    → has_root path ≡ false
    → starts_with (join base path) base ≡ true
unfolding starts_with
join-starts_with base path rooted relative =
    rw (components-join base path rooted relative)
      (is_prefix-append (components base) (body (segments path)))
