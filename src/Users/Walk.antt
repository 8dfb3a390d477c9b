-- ===== src/Users/Walk.antt =====
-- The walk over a home in crates/qftp-protocol/src/user.rs, and what it is used for: the bytes of a
-- home, and the removal of abandoned partial uploads.
pub mod Totals
use qftp.Prelude.{
  ℕ, zero, suc, ◌+◌, ◌-◌, ◌*◌, ◌≤◌, Bytes, bytes, Bool, true, false, ◌&&◌, Option, none, some, List,
  [], ◌∷◌, ◌++◌, ◌==◌, nat_eq, list_eq, ltb, leb, length, ends_with, if◌then◌else◌,
}
use qftp.Paths.{FilePath, push, Metadata, is_dir, is_file}
use qftp.Upload.Quota.{saturating_add}
use qftp.Upload.Claims.{partial_suffix}

-- What the file system answers for a directory: it cannot be read, or its entries. An entry may fail
-- to be read, or its metadata may; below an entry stands what reading it as a directory gives.
mutual
  pub data Listing : Type 0 where
    unreadable : Listing
    listed : Entries → Listing

  pub data Entries : Type 0 where
    end : Entries
    entry_failed : Entries → Entries
    metadata_failed : (name : Bytes) → Entries → Entries
    entry : (name : Bytes) → Metadata → (below : Listing) → Entries → Entries

abbrev pub Stack : Type 0
Stack = List (FilePath × Listing)

module _ {ℓ} {A : Type ℓ} (visit : FilePath → Bytes → Metadata → A → A) where
  -- The `for` loop over the entries of `dir`; the stack grows at its front.
  unfoldable pub walk_entries : FilePath → Entries → Stack → A → Stack × A
  walk_entries dir end stack acc = (stack, acc)
  walk_entries dir (entry_failed es) stack acc = walk_entries dir es stack acc
  walk_entries dir (metadata_failed name es) stack acc = walk_entries dir es stack acc
  walk_entries dir (entry name meta below es) stack acc =
      walk_entries dir es (if is_dir meta.kind then (push dir name, below) ∷ stack else stack) (
        if is_dir meta.kind
        then acc
        else if is_file meta.kind
        then visit dir name meta acc
        else acc)

  -- The `while` loop, on rounds: each takes one directory off the stack.
  unfoldable pub walk_stack : ℕ → Stack → A → A
  unfolding walk_entries
  walk_stack zero stack acc = acc
  walk_stack (suc rounds) [] acc = acc
  walk_stack (suc rounds) ((dir, unreadable) ∷ stack) acc = walk_stack rounds stack acc
  walk_stack (suc rounds) ((dir, listed es) ∷ stack) acc =
      let (stack', acc') = walk_entries dir es stack acc in walk_stack rounds stack' acc'

-- how many directories there are
unfoldable mutual
  pub dirs : Listing → ℕ
  dirs unreadable = 1
  dirs (listed es) = suc (dirs_below es)

  pub dirs_below : Entries → ℕ
  dirs_below end = 0
  dirs_below (entry_failed es) = dirs_below es
  dirs_below (metadata_failed name es) = dirs_below es
  dirs_below (entry name meta below es) =
      (if is_dir meta.kind then dirs below else 0) + dirs_below es

unfoldable pub walk_directory {ℓ} :
    {A : Type ℓ} → (FilePath → Bytes → Metadata → A → A) → FilePath → Listing → A → A
unfolding walk_stack dirs
walk_directory visit root listing acc = walk_stack visit (dirs listing) ((root, listing) ∷ []) acc

-- the closure of `walk_size`
abbrev pub count_file : FilePath → Bytes → Metadata → ℕ × ℕ → ℕ × ℕ
count_file dir name meta (total, count) = (saturating_add total meta.len, saturating_add count 1)

unfoldable pub walk_size : FilePath → Listing → ℕ × ℕ
unfolding walk_directory saturating_add
walk_size root listing = walk_directory count_file root listing (0, 0)

-- in nanoseconds, as are the times below
abbrev pub stale_partial_age : ℕ
stale_partial_age = 24 * 60 * 60 * 1000000000

-- `Metadata::modified`
abbrev pub modified_at : Metadata → ℕ
modified_at meta = meta.modified * 1000000000 + meta.mtime_nanos

-- `duration_since` fails on a time that has not come yet.
unfoldable pub is_abandoned : (now : ℕ) → Bytes → Metadata → Bool
unfolding ends_with
is_abandoned now name meta =
    ends_with partial_suffix name
    && ltb (length partial_suffix) (length name)
    && leb (modified_at meta) now
    && ltb stale_partial_age (now - modified_at meta)

-- The files that `sweep_stale_partials` removes, the last one first. A failed removal is logged.
unfoldable pub sweep_stale_partials : (now : ℕ) → FilePath → Listing → List FilePath
unfolding walk_directory is_abandoned
sweep_stale_partials now root listing =
    walk_directory
      (λ dir name meta removed.
        if is_abandoned now name meta then push dir name ∷ removed else removed)
      root listing []
