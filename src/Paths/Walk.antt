-- ===== src/Paths/Walk.antt =====
-- `walk_safe`, `resolve` and `resolve_parent` of crates/qftp-protocol/src/handler.rs.
pub mod Symlinks
pub mod Lexical
use qftp.Prelude.{
  ℕ, Bytes, bytes, Bool, true, false, not, ◌&&◌, ◌||◌, Option, none, some, List, [], ◌∷◌, ◌++◌,
  ◌==◌, nat_eq, list_eq, if◌then◌else◌, Result, ok, err, ◌>>=◌,
}
use qftp.Protocol.Codes.{permission_denied, not_found, malformed, internal}
use qftp.Protocol.Messages.{ErrorResponse, new_error}
use qftp.Paths.{
  FilePath, Component, root_dir, cur_dir, parent_dir, normal, is_absolute, components, parent,
  starts_with, push, display, Stat, found, failed, Lstat, Metadata, is_symlink, is_dir, IoError,
  is_not_found,
}

unfoldable pub outside_root : ErrorResponse
outside_root = new_error permission_denied (bytes "path outside root")

unfoldable pub symlink_in_path : FilePath → ErrorResponse
symlink_in_path p =
    new_error permission_denied (bytes "symlink not allowed in path (" ++ display p ++ bytes ")")

unfoldable pub stat_failed : IoError → ErrorResponse
stat_failed e = new_error internal (bytes "Failed to stat path component: " ++ e.text)

-- the match on `symlink_metadata(&current)` after a push
unfoldable pub check_pushed : FilePath → Stat → Result ErrorResponse FilePath
check_pushed current (found meta) =
    if is_symlink meta.kind then err (symlink_in_path current) else ok current
check_pushed current (failed e) = if is_not_found e.kind then ok current else err (stat_failed e)

-- the arm `Component::ParentDir`: the tests in the order of the `||`
unfoldable pub go_up : FilePath → FilePath → Result ErrorResponse FilePath
go_up root current = if current == root then err outside_root else elim (parent current) [
  | none ↦ err outside_root
  | some above ↦ if starts_with root above then ok above else err outside_root
]

module _ (lstat : Lstat) (root : FilePath) where
  -- one round of `for comp in p.components()`
  unfoldable pub walk_component : FilePath → Component → Result ErrorResponse FilePath
  unfolding go_up check_pushed
  walk_component current root_dir = ok root
  walk_component current cur_dir = ok current
  walk_component current parent_dir = go_up root current
  walk_component current (normal name) =
      check_pushed (push current name) (lstat (push current name))

  unfoldable pub walk_components : FilePath → List Component → Result ErrorResponse FilePath
  walk_components current [] = ok current
  walk_components current (c ∷ cs) = elim (walk_component current c) [
    | ok next ↦ walk_components next cs
    | err e ↦ err e
  ]

  abbrev guard_root : FilePath → Result ErrorResponse FilePath
  guard_root current = if starts_with root current then ok current else err outside_root

  unfoldable pub walk_safe : FilePath → Bytes → Result ErrorResponse FilePath
  unfolding walk_components
  walk_safe cwd user_path = do
    current ← walk_components (if is_absolute user_path then root else cwd) (components user_path)
    guard_root current

unfoldable pub no_such_file : FilePath → ErrorResponse
no_such_file p = new_error not_found (bytes "No such file or directory: " ++ display p)

-- `follows` is `Path::exists`, which follows a final symlink.
unfoldable pub resolve :
    Lstat → (FilePath → Bool) → FilePath → FilePath → Bytes → Result ErrorResponse FilePath
unfolding walk_safe
resolve lstat follows cwd root user_path = do
  path ← walk_safe lstat root cwd user_path
  if follows path then ok path else err (no_such_file path)

unfoldable pub no_parent : ErrorResponse
no_parent = new_error malformed (bytes "invalid path: no parent")

unfoldable pub parent_not_found : FilePath → ErrorResponse
parent_not_found p = new_error not_found (bytes "Parent directory not found: " ++ display p)

-- `symlink_metadata(parent).map(|m| m.is_dir()).unwrap_or(false)`
abbrev pub stat_is_dir : Stat → Bool
stat_is_dir (found meta) = is_dir meta.kind
stat_is_dir (failed e) = false

abbrev pub check_parent : Lstat → FilePath → Option FilePath → Result ErrorResponse FilePath
check_parent lstat path none = err no_parent
check_parent lstat path (some above) =
    if stat_is_dir (lstat above) then ok path else err (parent_not_found above)

unfoldable pub resolve_parent : Lstat → FilePath → FilePath → Bytes → Result ErrorResponse FilePath
unfolding walk_safe
resolve_parent lstat cwd root user_path = do
  path ← walk_safe lstat root cwd user_path
  check_parent lstat path (parent path)
