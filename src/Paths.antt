-- ===== src/Paths.antt =====
-- The paths of Rust's `std::path` on Unix, as far as crates/qftp-protocol/src/handler.rs uses them,
-- what `lstat` answers, and `walk_safe` with its two callers.
pub mod Names
pub mod Walk
pub mod Recheck
mod Tests
use qftp.Prelude.{
  ℕ, Bytes, bytes, Bool, true, false, not, ◌&&◌, ◌||◌, Option, none, some, List, [], ◌∷◌, ◌++◌,
  ◌==◌, nat_eq, list_eq, if◌then◌else◌, split_on,
}

-- An absolute path: the names from `/` down, none of them `.` or `..`.
abbrev pub FilePath : Type 0
FilePath = List Bytes

-- `std::path::Component`; there is no `Prefix` on Unix.
pub data Component : Type 0 where
  root_dir cur_dir parent_dir : Component
  normal : Bytes → Component

abbrev classify : Bytes → List Component → List Component
classify piece rest =
    if piece == [] || piece == bytes "."
    then rest
    else if piece == bytes ".."
    then parent_dir ∷ rest
    else normal piece ∷ rest

unfoldable pub pieces_components : List Bytes → List Component
pieces_components [] = []
pieces_components (p ∷ ps) = classify p (pieces_components ps)

unfoldable pub is_absolute : Bytes → Bool
is_absolute [] = false
is_absolute (c ∷ cs) = c == b'/'

-- `Path::components`: repeated slashes and inner `.` are skipped. A leading `.` would be a `CurDir`,
-- which the walk skips too.
unfoldable pub components : Bytes → List Component
unfolding is_absolute pieces_components split_on
components path =
    if is_absolute path
    then root_dir ∷ pieces_components (split_on b'/' path)
    else pieces_components (split_on b'/' path)

-- `Path::parent`, and `PathBuf::pop`, which fails at `/`
unfoldable pub parent : FilePath → Option FilePath
parent [] = none
parent (n ∷ []) = some []
parent (n ∷ m ∷ ns) = elim (parent (m ∷ ns)) [ none ↦ none | some p ↦ some (n ∷ p) ]

-- `Path::starts_with` compares whole components.
unfoldable pub starts_with : FilePath → FilePath → Bool
starts_with [] p = true
starts_with (r ∷ rs) [] = false
starts_with (r ∷ rs) (n ∷ ns) = r == n && starts_with rs ns

-- `PathBuf::push` of a normal component
abbrev pub push : FilePath → Bytes → FilePath
push p name = p ++ name ∷ []

-- `Path::file_name`
unfoldable pub file_name : FilePath → Option Bytes
file_name [] = none
file_name (n ∷ []) = some n
file_name (n ∷ m ∷ ns) = file_name (m ∷ ns)

-- `Path::display`
unfoldable pub display : FilePath → Bytes
display [] = bytes "/"
display (n ∷ []) = b'/' ∷ n
display (n ∷ m ∷ ns) = b'/' ∷ n ++ display (m ∷ ns)

-- the kinds of `std::io::ErrorKind` that the program tells apart
pub data ErrorKind : Type 0 where
  kind_not_found kind_permission_denied kind_already_exists kind_other : ErrorKind

pub record IoError : Type 0 where
  pub kind : ErrorKind
  pub text : Bytes

pub data FileKind : Type 0 where
  regular_file directory_file symbolic_link special_file : FileKind

-- `std::fs::Metadata`
pub record Metadata : Type 0 where
  pub kind : FileKind
  pub len : ℕ
  pub modified : ℕ
  pub mtime_nanos : ℕ
  pub uid : ℕ
  pub gid : ℕ
  pub mode : ℕ

abbrev pub is_symlink : FileKind → Bool
is_symlink symbolic_link = true
is_symlink _ = false

abbrev pub is_dir : FileKind → Bool
is_dir directory_file = true
is_dir _ = false

abbrev pub is_file : FileKind → Bool
is_file regular_file = true
is_file _ = false

-- `fs::symlink_metadata` at one moment, for every path
pub data Stat : Type 0 where
  found : Metadata → Stat
  failed : IoError → Stat

abbrev pub Lstat : Type 0
Lstat = FilePath → Stat

abbrev pub is_not_found : ErrorKind → Bool
is_not_found kind_not_found = true
is_not_found _ = false
