-- ===== src/Core/Paths.antt =====
-- `std::path::Path` on Unix, over the bytes of a path: components, `join`, `starts_with`, `parent`,
-- `file_name`, `with_extension`. `parent` and `with_extension` give the normal form of the path that
-- the library returns, which is equal to it as a `Path`: the library compares paths by their
-- components.
pub mod Laws
use agent_send.Base.{
  Text, text, ℕ, List, [], ◌∷◌, ◌++◌, Bool, true, false, ◌&&◌, ◌||◌, Option, none, some, ◌==◌,
  Text_eq, ℕ_eq, is_empty, if◌then◌else◌, text_eq,
}
use mathlib.Core.List.{reverse}

pub data Component : Type 0 where
  prefix : Text → Component
  root_dir cur_dir parent_dir : Component
  normal : Text → Component

-- The pieces between the slashes.
abbrev cons_head : ℕ → List Text → List Text
cons_head c [] = (c ∷ []) ∷ []
cons_head c (s ∷ rest) = (c ∷ s) ∷ rest

unfoldable pub segments : Text → List Text
segments [] = [] ∷ []
segments (c ∷ cs) = let rest = segments cs in if c == b'/' then [] ∷ rest else cons_head c rest

abbrev pub has_root : Text → Bool
has_root [] = false
has_root (c ∷ cs) = c == b'/'

-- Empty pieces and `.` give no component.
unfoldable pub body : List Text → List Component
unfolding text_eq
body [] = []
body (s ∷ rest) =
    if is_empty s || s == text "."
    then body rest
    else (if s == text ".." then parent_dir else normal s) ∷ body rest

-- A leading `.` of a relative path is a component of its own.
abbrev pub lead : List Text → List Component
lead [] = []
lead (s ∷ rest) = if s == text "." then cur_dir ∷ body rest else body (s ∷ rest)

-- `Path::components`
unfoldable pub components : Text → List Component
unfolding segments body
components p = if has_root p then root_dir ∷ body (segments p) else lead (segments p)

unfoldable pub component_eq : Component → Component → Bool
component_eq (prefix s) (prefix t) = s == t
component_eq root_dir root_dir = true
component_eq cur_dir cur_dir = true
component_eq parent_dir parent_dir = true
component_eq (normal s) (normal t) = s == t
component_eq _ _ = false

unfoldable pub is_prefix : List Component → List Component → Bool
unfolding component_eq
is_prefix [] ds = true
is_prefix (c ∷ cs) [] = false
is_prefix (c ∷ cs) (d ∷ ds) = component_eq c d && is_prefix cs ds

-- `path.starts_with(base)`
unfoldable pub starts_with : Text → Text → Bool
unfolding components is_prefix
starts_with path base = is_prefix (components base) (components path)

abbrev ends_with_slash : Text → Bool
ends_with_slash [] = false
ends_with_slash (c ∷ []) = c == b'/'
ends_with_slash (c ∷ d ∷ s) = ends_with_slash (d ∷ s)

-- `base.join(path)`
unfoldable pub join : Text → Text → Text
join base path =
    if has_root path
    then path
    else if is_empty base || ends_with_slash base
    then base ++ path
    else base ++ (b'/' ∷ path)

abbrev spell : Component → Text
spell (prefix s) = s
spell root_dir = []
spell cur_dir = text "."
spell parent_dir = text ".."
spell (normal s) = s

-- The path with the given components.
unfoldable pub render : List Component → Text
render [] = []
render (root_dir ∷ []) = text "/"
render (c ∷ []) = spell c
render (c ∷ d ∷ rest) = spell c ++ (b'/' ∷ render (d ∷ rest))

abbrev pub parent_from : List Component → Option Text
parent_from [] = none
parent_from (prefix s ∷ above) = none
parent_from (root_dir ∷ above) = none
parent_from (c ∷ above) = some (render (reverse above))

-- `Path::parent`
unfoldable pub parent : Text → Option Text
unfolding components render
parent p = parent_from (reverse (components p))

abbrev file_name_from : List Component → Option Text
file_name_from (normal s ∷ above) = some s
file_name_from _ = none

-- `Path::file_name`
unfoldable pub file_name : Text → Option Text
unfolding components
file_name p = file_name_from (reverse (components p))

-- What stands before the last dot, if there is one.
unfoldable pub before_dot : Text → Option Text
before_dot [] = none
before_dot (c ∷ cs) = elim (before_dot cs) [
  | some stem ↦ some (c ∷ stem)
  | none ↦ if c == b'.' then some [] else none
]

-- `Path::file_stem` of a file's name: a dot at the start alone begins no extension.
abbrev stem_or : Text → Option Text → Text
stem_or name none = name
stem_or name (some []) = name
stem_or name (some (c ∷ cs)) = c ∷ cs

unfoldable pub replace_extension : Text → Text → List Component → Text
unfolding render before_dot
replace_extension p extension (normal s ∷ above) =
    render (reverse (normal (stem_or s (before_dot s) ++ (b'.' ∷ extension)) ∷ above))
replace_extension p extension _ = p

-- `Path::with_extension`, for an extension that is not empty
unfoldable pub with_extension : Text → Text → Text
unfolding components replace_extension
with_extension p extension = replace_extension p extension (reverse (components p))
