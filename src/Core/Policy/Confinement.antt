-- ===== src/Core/Policy/Confinement.antt =====
-- What a path that `resolve` hands out is worth.
use mathlib.Core.List.{reverse}
use agent_send.Base.{
  Text, text, List, [], ◌∷◌, ◌++◌, Bool, true, false, not, some, ◌≡◌, ◌≢◌, ◌⊎◌, inl, inr, refl, ap,
  ◌∙◌, ◌==◌, Text_eq, arith, text_eq_iff, if◌then◌else◌, Bool-cases, ◌||◌, is_empty, map,
}
use agent_send.Base.Result.{Result, ok, err, ok_or, reject_if, >>=-eq-ok, ok_or-eq-ok}
use agent_send.Core.Os.{FileSystem}
use agent_send.Core.Paths.{
  Component, prefix, root_dir, cur_dir, parent_dir, normal, segments, body, components, has_root,
  join, render, starts_with,
}
use agent_send.Core.Paths.Laws.{components-join}
use agent_send.Core.Policy.{
  PathOperation, read, write, PathPolicyError, PathPolicy, validate_relative, check_direction,
  ensure_beneath, climb, root_unavailable, path_unavailable, nearest_existing, locate, resolve,
}
use agent_send.Core.Policy.Relative.{NoParents, IsConfined, validate_relative-iff-IsConfined}

-- The pieces that give an ordinary component.
names : List Text → List Text
names [] = []
names (s ∷ ss) = if is_empty s || s == text "." then names ss else s ∷ names ss

body-normal : (ss : List Text) → NoParents ss → body ss ≡ map normal (names ss)
unfolding body names
body-normal [] h = refl
body-normal (s ∷ ss) h = ground (arith, text_eq_iff s (text ".."), h.0, body-normal ss h.1)

-- An accepted path, joined to an absolute directory, names an entry below that directory: its
-- components are those of the directory and then ordinary names, with no `..` and no root.
pub join-confined :
    (base path : Text)
    → has_root base ≡ true
    → validate_relative path ≡ ok tt
    → (below : List Text) × (components (join base path) ≡ components base ++ map normal below)
join-confined base path rooted accepted =
    let safe : IsConfined path = (validate_relative-iff-IsConfined path).0 accepted in
    (
      names (segments path),
      components-join base path rooted safe.relative
          ∙ ap (λ b. components base ++ b) (body-normal (segments path) safe.no_parents),
    )

-- The paths strictly between a missing path and the ancestor that was kept; both lists have the
-- last component first.
abbrev pub Missing : (Text → Bool) → List Component → List Component → Type 0
Missing exists [] kept = Unit
Missing exists (c ∷ []) kept = Unit
Missing exists (c ∷ d ∷ gone) kept =
    (exists (render (reverse (d ∷ (gone ++ kept)))) ≡ false) × Missing exists (d ∷ gone) kept

-- `found` is the ancestor of a missing path that is nearest to it and exists.
pub record IsNearest (exists : Text → Bool) (above : List Component) (found : Text) : Type 0 where
  pub gone : List Component
  pub kept : List Component
  pub nonempty : gone ≢ []
  pub split : above ≡ gone ++ kept
  pub here : found ≡ render (reverse kept)
  pub missing : Missing exists gone kept

Missing-cons :
    (exists : Text → Bool) (c : Component) (gone kept : List Component)
    → exists (render (reverse (gone ++ kept))) ≡ false
    → Missing exists gone kept
    → Missing exists (c ∷ gone) kept
Missing-cons exists c [] kept absent m = tt
Missing-cons exists c (d ∷ gone) kept absent m = (absent, m)

IsNearest-cons :
    (exists : Text → Bool) (c : Component) (above : List Component) (found : Text)
    → exists (render (reverse above)) ≡ false
    → IsNearest exists above found
    → IsNearest exists (c ∷ above) found
IsNearest-cons exists c above found absent n = record {
  gone = c ∷ n.gone;
  kept = n.kept;
  nonempty = λ e. ground arith;
  split = ap (λ l. c ∷ l) n.split;
  here = n.here;
  missing = Missing-cons exists c n.gone n.kept (rw (n.split) at absent) n.missing;
}

-- What the loop of `nearest_existing` finds.
abbrev Found : (Text → Bool) → Text → List Component → Text → Type 0
Found exists current above found =
    (exists found ≡ true)
    × ((found ≡ current) ⊎ ((exists current ≡ false) × IsNearest exists above found))

Found-up :
    (exists : Text → Bool) (c : Component) (current : Text) (above : List Component) (found : Text)
    → exists current ≡ false
    → Found exists (render (reverse above)) above found
    → Found exists current (c ∷ above) found
Found-up exists c current above found absent (there, inl e) = (
  there,
  inr (
    absent,
    record {
      gone = c ∷ [];
      kept = above;
      nonempty = λ p. ground arith;
      split = refl;
      here = e;
      missing = tt;
    },
  ),
)
Found-up exists c current above found absent (there, inr (higher, n)) =
    (there, inr (absent, IsNearest-cons exists c above found higher n))

stop :
    (exists : Text → Bool) (current : Text) (above : List Component) (found : Text)
    (e : PathPolicyError)
    → (if exists current then ok current else err e) ≡ ok found
    → Found exists current above found
stop exists current above found e h = elim (Bool-cases (exists current)) [
  | inl there ↦ ground arith
  | inr absent ↦ ground arith
]

go_up :
    (exists : Text → Bool) (c : Component) (current : Text) (above : List Component) (found : Text)
    (higher : Result PathPolicyError Text)
    → (higher ≡ ok found → Found exists (render (reverse above)) above found)
    → (if exists current then ok current else higher) ≡ ok found
    → Found exists current (c ∷ above) found
go_up exists c current above found higher rec h = elim (Bool-cases (exists current)) [
  | inl there ↦ ground arith
  | inr absent ↦ Found-up exists c current above found absent (rec (rw absent at h))
]

climb-Found :
    (exists : Text → Bool) (current : Text) (above : List Component) (found : Text)
    → climb exists current above ≡ ok found
    → Found exists current above found
unfolding climb
climb-Found exists current [] found h = stop exists current [] found _ h
climb-Found exists current (prefix s ∷ above) found h = stop exists current _ found _ h
climb-Found exists current (root_dir ∷ above) found h = stop exists current _ found _ h
climb-Found exists current (cur_dir ∷ above) found h =
    go_up exists cur_dir current above found _
      (climb-Found exists (render (reverse above)) above found) h
climb-Found exists current (parent_dir ∷ above) found h =
    go_up exists parent_dir current above found _
      (climb-Found exists (render (reverse above)) above found) h
climb-Found exists current (normal s ∷ above) found h =
    go_up exists (normal s) current above found _
      (climb-Found exists (render (reverse above)) above found) h

-- `nearest_existing` returns an existing path: the path itself, or else an ancestor of it with
-- nothing on the way that exists.
pub nearest_existing-Found :
    (exists : Text → Bool) (path found : Text)
    → nearest_existing exists path ≡ ok found
    → (exists found ≡ true)
      × ((found ≡ path)
          ⊎ ((exists path ≡ false) × IsNearest exists (reverse (components path)) found))
unfolding nearest_existing
nearest_existing-Found exists path found h = climb-Found exists path _ found h

module _ (fs : FileSystem) (d : fs.Disk) (policy : PathPolicy) (path : Text) where
  open fs use {canonicalize, exists, is_dir}

  -- The guards that every path has passed which `resolve` hands out for an operation.
  pub record Passed (operation : PathOperation) (root : Text) : Type 0 where
    pub confined : IsConfined path
    pub allowed : check_direction policy.direction operation ≡ ok tt
    pub root_found : canonicalize d policy.root ≡ some root
    pub root_is_dir : is_dir d root ≡ true

  -- A path that may be read: the target of the joined path with every link followed, and that
  -- target lies beneath the directory.
  pub record IsReadable (found : Text) : Type 0 where
    pub root : Text
    pub passed : Passed read root
    pub target : canonicalize d (join root path) ≡ some found
    pub beneath : starts_with found root ≡ true

  -- A path that may be written: the joined path itself, whose nearest existing ancestor lies
  -- beneath the directory once every link on the way to it is followed.
  pub record IsWritable (found : Text) : Type 0 where
    pub root : Text
    pub passed : Passed write root
    pub joined : found ≡ join root path
    pub existing : Text
    pub there : exists d existing ≡ true
    pub nearest :
        (existing ≡ found)
        ⊎ ((exists d found ≡ false) × IsNearest (exists d) (reverse (components found)) existing)
    pub target : Text
    pub resolved : canonicalize d existing ≡ some target
    pub beneath : starts_with target root ≡ true

  guards :
      (operation : PathOperation) {found : Text}
      → resolve fs d policy path operation ≡ ok found
      → (root : Text) × Passed operation root
        × (locate fs d root (join root path) operation ≡ ok found)
  unfolding resolve
  guards operation h =
      let (_, valid, h1) = >>=-eq-ok (validate_relative path) _ h in
      let (_, allows, h2) = >>=-eq-ok (check_direction policy.direction operation) _ h1 in
      let (root, at, h3) = >>=-eq-ok (ok_or (canonicalize d policy.root) root_unavailable) _ h2 in
      let (_, dir, h4) = >>=-eq-ok (reject_if (not (is_dir d root)) root_unavailable) _ h3 in
      (
        root,
        record {
          confined = (validate_relative-iff-IsConfined path).0 valid;
          allowed = allows;
          root_found = ok_or-eq-ok _ _ at;
          root_is_dir = ground arith;
        },
        h4,
      )

  locate-read :
      (root : Text) {found : Text}
      → locate fs d root (join root path) read ≡ ok found
      → (canonicalize d (join root path) ≡ some found) × (starts_with found root ≡ true)
  unfolding locate ensure_beneath
  locate-read root h = ground arith

  locate-write :
      (root : Text) {found : Text}
      → locate fs d root (join root path) write ≡ ok found
      → (found ≡ join root path)
        × ((existing target : Text) × (nearest_existing (exists d) (join root path) ≡ ok existing)
            × (canonicalize d existing ≡ some target)
            × (starts_with target root ≡ true))
  unfolding locate ensure_beneath
  locate-write root {found} h =
      let (existing, e, h1) = >>=-eq-ok (nearest_existing (exists d) (join root path)) _ h in
      let (target, t, h2) = >>=-eq-ok (ok_or (canonicalize d existing) path_unavailable) _ h1 in
      let (_, b, h3) = >>=-eq-ok (ensure_beneath root target) _ h2 in
      (ground arith, (existing, target, e, ok_or-eq-ok _ _ t, ground arith))

  -- Whatever `resolve` returns for a read is the target of the joined path with every link followed,
  -- and lies beneath the canonical directory, which the folder's direction allows to be read; and
  -- the path that was asked for is confined.
  pub resolve-IsReadable :
      {found : Text} → resolve fs d policy path read ≡ ok found → IsReadable found
  resolve-IsReadable h =
      let (root, passed, l) = guards read h in
      let (target, beneath) = locate-read root l in
      record { root = root; passed = passed; target = target; beneath = beneath }

  -- Whatever `resolve` returns for a write is the joined path itself. Its nearest existing ancestor,
  -- with every link followed, lies beneath the canonical directory, which the folder's direction
  -- allows to be written; and the path that was asked for is confined.
  pub resolve-IsWritable :
      {found : Text} → resolve fs d policy path write ≡ ok found → IsWritable found
  resolve-IsWritable {found} h =
      let (root, passed, l) = guards write h in
      let (joined, rest) = locate-write root l in
      let (existing, target, near, resolved, beneath) = rest in
      let found_there = nearest_existing-Found (exists d) (join root path) existing near in
      record {
        root = root;
        passed = passed;
        joined = joined;
        existing = existing;
        there = found_there.0;
        nearest = rw joined found_there.1;
        target = target;
        resolved = resolved;
        beneath = beneath;
      }
