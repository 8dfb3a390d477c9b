-- ===== src/Paths/Recheck.antt =====
-- `recheck_ancestors_no_symlinks` and `recheck_path_no_symlinks` of
-- crates/qftp-protocol/src/handler.rs: the second look before a system call.
pub mod Below
use mathlib.Core.List.{reverse}
use qftp.Prelude.{
  ℕ, Bytes, bytes, Bool, true, false, not, ◌&&◌, Option, none, some, List, [], ◌∷◌, ◌++◌, ◌==◌,
  nat_eq, list_eq, if◌then◌else◌, Result, ok, err, ◌>>=◌, ◌>>◌,
}
use qftp.Protocol.Codes.{permission_denied, not_found, internal}
use qftp.Protocol.Messages.{ErrorResponse, new_error}
use qftp.Paths.{
  FilePath, parent, starts_with, display, Stat, found, failed, Lstat, Metadata, is_symlink, IoError,
  is_not_found,
}
use qftp.Paths.Walk.{outside_root}

-- The loop `while let Some(p) = cur`: the parents of a path, nearest first, up to the root. The
-- path is given with its last name first, so that the parent is the tail.
unfoldable pub ancestors : FilePath → FilePath → Result ErrorResponse (List FilePath)
ancestors root [] = ok []
ancestors root (n ∷ up) =
    let p = reverse up in
    let further = ancestors root up in
    if p == root
    then ok (p ∷ [])
    else if not (starts_with root p)
    then err outside_root
    else further >>= λ ps. ok (p ∷ ps)

unfoldable pub parent_became_symlink : FilePath → ErrorResponse
parent_became_symlink p =
    new_error permission_denied
      (bytes "parent became a symlink between resolve and op (" ++ display p ++ bytes ", #137)")

unfoldable pub parent_disappeared : FilePath → ErrorResponse
parent_disappeared p =
    new_error not_found (bytes "parent disappeared between resolve and op: " ++ display p)

unfoldable pub parent_stat_failed : FilePath → IoError → ErrorResponse
parent_stat_failed p e =
    new_error internal (bytes "failed to re-stat parent " ++ display p ++ bytes ": " ++ e.text)

unfoldable pub recheck_ancestor : FilePath → FilePath → Stat → Result ErrorResponse (Unit {0})
recheck_ancestor root p (found meta) =
    if is_symlink meta.kind && not (p == root) then err (parent_became_symlink p) else ok tt
recheck_ancestor root p (failed e) =
    if is_not_found e.kind then err (parent_disappeared p) else err (parent_stat_failed p e)

unfoldable pub recheck_each : Lstat → FilePath → List FilePath → Result ErrorResponse (Unit {0})
recheck_each lstat root [] = ok tt
recheck_each lstat root (p ∷ ps) = recheck_ancestor root p (lstat p) >> recheck_each lstat root ps

unfoldable pub recheck_ancestors_no_symlinks :
    Lstat → FilePath → FilePath → Result ErrorResponse (Unit {0})
unfolding ancestors recheck_each
recheck_ancestors_no_symlinks lstat target root =
    ancestors root (reverse target) >>= λ above. recheck_each lstat root (reverse above)

unfoldable pub path_became_symlink : FilePath → ErrorResponse
path_became_symlink p =
    new_error permission_denied
      (bytes "path became a symlink between resolve and op (" ++ display p ++ bytes ", #137)")

unfoldable pub path_disappeared : FilePath → ErrorResponse
path_disappeared p =
    new_error not_found (bytes "path disappeared between resolve and op: " ++ display p)

unfoldable pub path_stat_failed : FilePath → IoError → ErrorResponse
path_stat_failed p e =
    new_error internal (bytes "failed to re-stat " ++ display p ++ bytes ": " ++ e.text)

unfoldable pub recheck_leaf : FilePath → Stat → Result ErrorResponse (Unit {0})
recheck_leaf p (found meta) = if is_symlink meta.kind then err (path_became_symlink p) else ok tt
recheck_leaf p (failed e) =
    if is_not_found e.kind then err (path_disappeared p) else err (path_stat_failed p e)

unfoldable pub recheck_path_no_symlinks :
    Lstat → FilePath → FilePath → Result ErrorResponse (Unit {0})
unfolding recheck_ancestors_no_symlinks recheck_leaf
recheck_path_no_symlinks lstat target root =
    if target == root
    then ok tt
    else recheck_ancestors_no_symlinks lstat target root >> recheck_leaf target (lstat target)
