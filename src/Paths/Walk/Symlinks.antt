-- ===== src/Paths/Walk/Symlinks.antt =====
-- `walk_safe` of crates/qftp-protocol/src/handler.rs and the symbolic links beneath the root.
use mathlib.Core.List.{append_assoc, append-nil}
use qftp.Prelude.{
  Bytes, Bool, true, false, some, List, [], ◌∷◌, ◌++◌, ◌≡◌, refl, arith, Option-cases, inl, inr,
  Result-cases, ok, >>=-eq-ok, if◌then◌else◌,
}
use qftp.Paths.{
  FilePath, Component, root_dir, cur_dir, parent_dir, normal, is_absolute, components, parent, push,
  Lstat,
}
use qftp.Paths.Names.{parent-eq_some}
use qftp.Paths.Walk.{check_pushed, walk_component, walk_components, walk_safe}
use qftp.Paths.Walk.Lexical.{IsWalkable, go_up-under, check_pushed-ok}

-- No component of the path below `base` is a link, or fails to be read other than by absence.
abbrev pub IsCleanFrom : Lstat → FilePath → FilePath → Type 0
IsCleanFrom lstat base [] = Unit {0}
IsCleanFrom lstat base (n ∷ ns) =
    IsWalkable (lstat (push base n)) × IsCleanFrom lstat (push base n) ns

-- A path at or below the root, clean from the root down.
abbrev pub IsClean : Lstat → FilePath → FilePath → Type 0
IsClean lstat root p = (rel : FilePath) × (p ≡ root ++ rel) × IsCleanFrom lstat root rel

module _ (lstat : Lstat) where
  clean_push :
      (base rel : FilePath) (name : Bytes)
      → IsCleanFrom lstat base rel
      → IsWalkable (lstat (push (base ++ rel) name))
      → IsCleanFrom lstat base (push rel name)
  clean_push base [] name clean here = (rw (← (append-nil base)) here, tt)
  clean_push base (n ∷ ns) name clean here =
      (clean.0, clean_push (push base n) ns name clean.1 (rw (append_assoc base (n ∷ []) ns) here))

  clean_pop :
      (base rel : FilePath) (name : Bytes)
      → IsCleanFrom lstat base (push rel name)
      → IsCleanFrom lstat base rel
  clean_pop base [] name clean = tt
  clean_pop base (n ∷ ns) name clean = (clean.0, clean_pop (push base n) ns name clean.1)

  clean_parent :
      (base rel above : FilePath)
      → parent rel ≡ some above
      → IsCleanFrom lstat base rel
      → IsCleanFrom lstat base above
  clean_parent base rel above e clean =
      let (name, split) = parent-eq_some rel above e in
      clean_pop base above name (rw (← split) clean)

  module _ (root : FilePath) where
    walk_components-IsClean :
        (rel : FilePath) (cs : List Component) (p : FilePath)
        → IsCleanFrom lstat root rel
        → walk_components lstat root (root ++ rel) cs ≡ ok p
        → IsClean lstat root p
    unfolding walk_components walk_component
    walk_components-IsClean rel [] p clean h = (rel, ground (arith, h), clean)
    walk_components-IsClean rel (root_dir ∷ cs) p clean h =
        walk_components-IsClean [] cs p tt (rw (append-nil root) h)
    walk_components-IsClean rel (cur_dir ∷ cs) p clean h = walk_components-IsClean rel cs p clean h
    walk_components-IsClean rel (parent_dir ∷ cs) p clean h = elim (Option-cases (parent rel)) [
      | inl e ↦ absurd (ground (arith, go_up-under root rel, e))
      | inr (above, e) ↦
          walk_components-IsClean above cs p (clean_parent root rel above e clean)
            (ground (arith, go_up-under root rel, e))
    ]
    walk_components-IsClean rel (normal name ∷ cs) p clean h =
        elim (Result-cases
          (check_pushed (push (root ++ rel) name) (lstat (push (root ++ rel) name)))) [
            | inl (next, e) ↦
                let (same, here) =
                  check_pushed-ok (push (root ++ rel) name) (lstat (push (root ++ rel) name)) e in
                walk_components-IsClean (push rel name) cs p (clean_push root rel name clean here)
                  (ground (arith, e, same, append_assoc root rel (name ∷ [])))
            | inr (e, eq) ↦ absurd (ground (arith, eq))
          ]

walk_from_start-IsClean :
    (lstat : Lstat) (root cwd : FilePath) (absolute : Bool) (cs : List Component) (p : FilePath)
    → ((absolute ≡ false) → IsClean lstat root cwd)
    → walk_components lstat root (if absolute then root else cwd) cs ≡ ok p
    → IsClean lstat root p
walk_from_start-IsClean lstat root cwd true cs p start h =
    walk_components-IsClean lstat root [] cs p tt (rw (append-nil root) h)
walk_from_start-IsClean lstat root cwd false cs p start h =
    let (rel, split, clean) = start refl in
    walk_components-IsClean lstat root rel cs p clean (rw (← split) h)

-- From a working directory that is clean from the root down, and for an absolute path from any
-- working directory, `walk_safe` returns only a path under the root none of whose components below
-- the root is a symbolic link (or fails to be read other than by not existing).
pub walk_safe-IsClean :
    (lstat : Lstat) (root cwd : FilePath) (user_path : Bytes) (p : FilePath)
    → ((is_absolute user_path ≡ false) → IsClean lstat root cwd)
    → walk_safe lstat root cwd user_path ≡ ok p
    → IsClean lstat root p
unfolding walk_safe
walk_safe-IsClean lstat root cwd user_path p start h =
    let (q, walked, guarded) =
      >>=-eq-ok
        (walk_components lstat root (if is_absolute user_path then root else cwd)
          (components user_path))
        _ h in
    walk_from_start-IsClean lstat root cwd (is_absolute user_path) (components user_path) p start
      (ground (arith, walked, guarded))
