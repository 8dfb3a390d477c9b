-- ===== src/Users/Walk/Totals.antt =====
-- What `walk_size` of crates/qftp-protocol/src/user.rs counts, against a recursion over the tree.
use qftp.Prelude.{
  ℕ, zero, suc, ◌+◌, ◌-◌, ◌≤◌, ◌^◌, min, [], ◌∷◌, nat_eq, list_eq, ◌≡◌, arith, if◌then◌else◌,
  Bool-cases, inl, inr,
}
use qftp.Paths.{FilePath, push, is_dir, is_file}
use qftp.Upload.Quota.{saturating_add}
use qftp.Users.Walk.{
  Listing, unreadable, listed, Entries, end, entry_failed, metadata_failed, entry, Stack,
  walk_entries, walk_stack, dirs, dirs_below, walk_directory, count_file, walk_size,
}

-- The sizes of all regular files below a directory, and how many they are.
unfoldable mutual
  pub total_bytes : Listing → ℕ
  total_bytes unreadable = 0
  total_bytes (listed es) = entry_bytes es

  pub entry_bytes : Entries → ℕ
  entry_bytes end = 0
  entry_bytes (entry_failed es) = entry_bytes es
  entry_bytes (metadata_failed name es) = entry_bytes es
  entry_bytes (entry name meta below es) =
      (if is_dir meta.kind then total_bytes below else if is_file meta.kind then meta.len else 0)
      + entry_bytes es

unfoldable mutual
  pub total_files : Listing → ℕ
  total_files unreadable = 0
  total_files (listed es) = entry_files es

  pub entry_files : Entries → ℕ
  entry_files end = 0
  entry_files (entry_failed es) = entry_files es
  entry_files (metadata_failed name es) = entry_files es
  entry_files (entry name meta below es) =
      (if is_dir meta.kind then total_files below else if is_file meta.kind then 1 else 0)
      + entry_files es

abbrev stack_dirs : Stack → ℕ
stack_dirs [] = 0
stack_dirs ((d, l) ∷ s) = dirs l + stack_dirs s

abbrev stack_bytes : Stack → ℕ
stack_bytes [] = 0
stack_bytes ((d, l) ∷ s) = total_bytes l + stack_bytes s

abbrev stack_files : Stack → ℕ
stack_files [] = 0
stack_files ((d, l) ∷ s) = total_files l + stack_files s

abbrev cap_at : ℕ → ℕ
cap_at n = min n (2 ^ 64 - 1)

-- The walk counted `b` bytes and `f` files, with saturation.
abbrev Counted : ℕ → ℕ → ℕ × ℕ → Type 0
Counted b f acc = (acc.0 ≡ cap_at b) × (acc.1 ≡ cap_at f)

-- What the loop over the entries of a directory adds to the counts and to the stack.
abbrev Adds : Stack → Entries → ℕ → ℕ → Stack × (ℕ × ℕ) → Type 0
Adds stack es b f r =
    (b' : ℕ) × (f' : ℕ) × (stack_dirs r.0 ≡ stack_dirs stack + dirs_below es)
    × Counted b' f' r.1
    × (b' + stack_bytes r.0 ≡ b + stack_bytes stack + entry_bytes es)
    × (f' + stack_files r.0 ≡ f + stack_files stack + entry_files es)

walk_entries-Adds :
    (dir : FilePath) (es : Entries) (stack : Stack) (acc : ℕ × ℕ) (b f : ℕ)
    → Counted b f acc
    → Adds stack es b f (walk_entries count_file dir es stack acc)
unfolding walk_entries dirs_below entry_bytes entry_files saturating_add
walk_entries-Adds dir end stack acc b f h = (b, f, omega arith, h, omega arith, omega arith)
walk_entries-Adds dir (entry_failed es) stack acc b f h = walk_entries-Adds dir es stack acc b f h
walk_entries-Adds dir (metadata_failed name es) stack acc b f h =
    walk_entries-Adds dir es stack acc b f h
walk_entries-Adds dir (entry name meta below es) stack acc b f h =
    elim (Bool-cases (is_dir meta.kind)) [
      | inl d ↦
          let (b', f', k, c, x, y) =
            walk_entries-Adds dir es ((push dir name, below) ∷ stack) acc b f h in
          rw (d, walk_entries) (b', f', omega (arith, k), c, omega (arith, x), omega (arith, y))
      | inr d ↦ elim (Bool-cases (is_file meta.kind)) [
        | inl e ↦
            let (b', f', k, c, x, y) =
              walk_entries-Adds dir es stack (count_file dir name meta acc) (b + meta.len) (f + 1)
                (omega (arith, h), omega (arith, h)) in
            rw (d, e, walk_entries)
              (b', f', omega (arith, k), c, omega (arith, x), omega (arith, y))
        | inr e ↦
            let (b', f', k, c, x, y) = walk_entries-Adds dir es stack acc b f h in
            rw (d, e, walk_entries)
              (b', f', omega (arith, k), c, omega (arith, x), omega (arith, y))
      ]
    ]

walk_stack-Counted :
    (rounds : ℕ) (stack : Stack) (acc : ℕ × ℕ) (b f : ℕ)
    → stack_dirs stack ≤ rounds
    → Counted b f acc
    → Counted
        (b + stack_bytes stack)
        (f + stack_files stack)
        (walk_stack count_file rounds stack acc)
unfolding walk_stack dirs total_bytes total_files
walk_stack-Counted zero [] acc b f n h = (omega (arith, h), omega (arith, h))
walk_stack-Counted zero ((d, unreadable) ∷ stack) acc b f n h = absurd (omega arith)
walk_stack-Counted zero ((d, listed es) ∷ stack) acc b f n h = absurd (omega arith)
walk_stack-Counted (suc rounds) [] acc b f n h = (omega (arith, h), omega (arith, h))
walk_stack-Counted (suc rounds) ((d, unreadable) ∷ stack) acc b f n h =
    let r = walk_stack-Counted rounds stack acc b f (omega arith) h in
    (omega (arith, r), omega (arith, r))
walk_stack-Counted (suc rounds) ((d, listed es) ∷ stack) acc b f n h =
    let (b', f', k, c, x, y) = walk_entries-Adds d es stack acc b f h in
    let w = walk_entries count_file d es stack acc in
    let r = walk_stack-Counted rounds w.0 w.1 b' f' (omega (arith, k)) c in
    (omega (arith, r, x), omega (arith, r, y))

-- `walk_size` counts the bytes and the regular files of the whole tree, each once and saturated at
-- the largest word; what cannot be read counts for nothing.
pub walk_size-totals :
    (root : FilePath) (listing : Listing)
    → walk_size root listing
      ≡ (min (total_bytes listing) (2 ^ 64 - 1), min (total_files listing) (2 ^ 64 - 1))
unfolding walk_size walk_directory
walk_size-totals root listing =
    let r =
      walk_stack-Counted (dirs listing) ((root, listing) ∷ []) (0, 0) 0 0 (omega arith)
        (omega arith, omega arith) in
    ground (arith, r)
