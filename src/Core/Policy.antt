-- ===== src/Core/Policy.antt =====
-- crates/agent-send-core/src/path_policy.rs: capabilities on one configured directory.
pub mod Relative
pub mod Confinement
use mathlib.Core.List.{reverse}
use agent_send.Base.{Text, List, [], ◌∷◌, Bool, not, ◌==◌, ℕ_eq, is_empty, any, if◌then◌else◌}
use agent_send.Base.Result.{Result, ok, err, ok_or, reject_if, ◌>>=◌, ◌>>◌}
use agent_send.Core.Os.{FileSystem}
use agent_send.Core.Paths.{
  Component, prefix, root_dir, cur_dir, parent_dir, normal, components, join, render, starts_with,
}
use agent_send.Core.Request.{FolderDirection}

pub data PathOperation : Type 0 where
  read write : PathOperation

pub data PathPolicyError : Type 0 where
  empty_path absolute_path traversal invalid_path root_unavailable path_unavailable :
      PathPolicyError
  symlink_escape read_not_allowed write_not_allowed : PathPolicyError

pub record PathPolicy : Type 0 where
  pub root : Text
  pub direction : FolderDirection

-- The loop of `validate_relative`.
unfoldable pub check_components : List Component → Result PathPolicyError (Unit {0})
check_components [] = ok tt
check_components (prefix s ∷ rest) = err absolute_path
check_components (root_dir ∷ rest) = err absolute_path
check_components (parent_dir ∷ rest) = err traversal
check_components (cur_dir ∷ rest) = check_components rest
check_components (normal s ∷ rest) = check_components rest

-- `PathPolicy::validate_relative`
unfoldable pub validate_relative : Text → Result PathPolicyError (Unit {0})
unfolding check_components
validate_relative path = do
  reject_if (is_empty path) empty_path
  reject_if (any (λ b. b == 0) path) invalid_path
  check_components (components path)

-- `PathPolicy::check_direction`
unfoldable pub check_direction : FolderDirection → PathOperation → Result PathPolicyError (Unit {0})
check_direction FolderDirection.write read = err read_not_allowed
check_direction FolderDirection.read write = err write_not_allowed
check_direction _ _ = ok tt

-- `ensure_beneath`
unfoldable pub ensure_beneath : Text → Text → Result PathPolicyError (Unit {0})
ensure_beneath root path = if starts_with path root then ok tt else err symlink_escape

-- The loop of `nearest_existing`: `above` are the components of `current`, the last one first.
unfoldable pub climb : (Text → Bool) → Text → List Component → Result PathPolicyError Text
climb exists current [] = if exists current then ok current else err path_unavailable
climb exists current (prefix s ∷ above) =
    if exists current then ok current else err path_unavailable
climb exists current (root_dir ∷ above) =
    if exists current then ok current else err path_unavailable
climb exists current (_ ∷ above) =
    let higher = climb exists (render (reverse above)) above in
    if exists current then ok current else higher

-- `nearest_existing`
unfoldable pub nearest_existing : (Text → Bool) → Text → Result PathPolicyError Text
unfolding climb
nearest_existing exists path = climb exists path (reverse (components path))

module _ (fs : FileSystem) where
  open fs use {Disk, canonicalize, exists, is_dir}

  -- The `match operation` of `resolve`.
  unfoldable pub locate : Disk → Text → Text → PathOperation → Result PathPolicyError Text
  locate d root candidate read = do
    resolved ← ok_or (canonicalize d candidate) path_unavailable
    ensure_beneath root resolved
    ok resolved
  locate d root candidate write = do
    existing ← nearest_existing (exists d) candidate
    resolved_existing ← ok_or (canonicalize d existing) path_unavailable
    ensure_beneath root resolved_existing
    ok candidate

  -- `PathPolicy::resolve`
  unfoldable pub resolve : Disk → PathPolicy → Text → PathOperation → Result PathPolicyError Text
  unfolding locate
  resolve d policy path operation = do
    validate_relative path
    check_direction policy.direction operation
    root ← ok_or (canonicalize d policy.root) root_unavailable
    reject_if (not (is_dir d root)) root_unavailable
    locate d root (join root path) operation
