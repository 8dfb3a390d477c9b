-- ===== src/Paths/Walk/Lexical.antt =====
-- `walk_safe` of crates/qftp-protocol/src/handler.rs against a resolution that reads the text of
-- the path alone, relative to the root.
use mathlib.Core.List.{append_assoc, append-nil}
use qftp.Prelude.{
  Bytes, Bool, true, false, Option, none, some, List, [], ◌∷◌, ◌++◌, nat_eq, list_eq, list_beq_iff,
  ◌≡◌, ◌≢◌, refl, sym, arith, Option-cases, inl, inr, Result, Result-cases, ok, err, >>=-eq-ok,
  if◌then◌else◌,
}
use qftp.Protocol.Messages.{ErrorResponse}
use qftp.Paths.{
  FilePath, Component, root_dir, cur_dir, parent_dir, normal, is_absolute, components, parent, push,
  Stat, found, failed, Lstat, is_symlink, is_not_found,
}
use qftp.Paths.Names.{starts_with-append, parent-eq_none, parent-append}
use qftp.Paths.Walk.{outside_root, check_pushed, go_up, walk_component, walk_components, walk_safe}

-- Names below the root, or `none` for a path that leaves it.
unfoldable pub lexical : FilePath → List Component → Option FilePath
lexical rel [] = some rel
lexical rel (root_dir ∷ cs) = lexical [] cs
lexical rel (cur_dir ∷ cs) = lexical rel cs
lexical rel (parent_dir ∷ cs) = elim (parent rel) [ none ↦ none | some above ↦ lexical above cs ]
lexical rel (normal name ∷ cs) = lexical (push rel name) cs

-- A path that can be walked over: no link, and no failure but absence.
abbrev pub IsWalkable : Stat → Type 0
IsWalkable (found meta) = is_symlink meta.kind ≡ false
IsWalkable (failed e) = is_not_found e.kind ≡ true

go_up-at_root : (root : FilePath) → go_up root root ≡ err outside_root
unfolding go_up
go_up-at_root root = ground (arith, (list_beq_iff root root).1 refl)

ne_root : (root : FilePath) (n : Bytes) (ns : FilePath) → root ++ (n ∷ ns) ≢ root
ne_root [] n ns e = cc
ne_root (r ∷ rs) n ns e = ne_root rs n ns (ground (arith, e))

go_up-below :
    (root : FilePath) (n : Bytes) (ns above : FilePath)
    → parent (n ∷ ns) ≡ some above
    → go_up root (root ++ (n ∷ ns)) ≡ ok (root ++ above)
unfolding go_up
go_up-below root n ns above h = ground (
  arith,
  (list_beq_iff (root ++ (n ∷ ns)) root).0,
  ne_root root n ns,
  parent-append root (n ∷ ns) above h,
  starts_with-append root above,
)

abbrev pub under : FilePath → Option FilePath → Result ErrorResponse FilePath
under root none = err outside_root
under root (some rel) = ok (root ++ rel)

pub go_up-under : (root rel : FilePath) → go_up root (root ++ rel) ≡ under root (parent rel)
go_up-under root [] = rw append-nil (unfold parent in go_up-at_root root)
go_up-under root (n ∷ ns) = elim (Option-cases (parent (n ∷ ns))) [
  | inl e ↦ cc (parent-eq_none (n ∷ ns) e)
  | inr (above, e) ↦ rw e (go_up-below root n ns above e)
]

pub check_pushed-ok :
    (current : FilePath) (s : Stat) {p : FilePath}
    → check_pushed current s ≡ ok p
    → (p ≡ current) × IsWalkable s
unfolding check_pushed
check_pushed-ok current (found meta) h = ground arith
check_pushed-ok current (failed e) h = ground arith

check_pushed-walkable :
    (current : FilePath) (s : Stat) → IsWalkable s → check_pushed current s ≡ ok current
unfolding check_pushed
check_pushed-walkable current (found meta) h = ground arith
check_pushed-walkable current (failed e) h = ground arith

-- No link and no failing component anywhere beneath the root.
abbrev pub IsQuiet : Lstat → FilePath → Type 0
IsQuiet lstat root = (rel : FilePath) → IsWalkable (lstat (root ++ rel))

module _ (lstat : Lstat) (root : FilePath) where
  walk_components-ok :
      (rel : FilePath) (cs : List Component) (p : FilePath)
      → walk_components lstat root (root ++ rel) cs ≡ ok p
      → (end : FilePath) × (lexical rel cs ≡ some end) × (p ≡ root ++ end)
  unfolding walk_components walk_component lexical
  walk_components-ok rel [] p h = (rel, refl, ground arith)
  walk_components-ok rel (root_dir ∷ cs) p h = walk_components-ok [] cs p (rw append-nil h)
  walk_components-ok rel (cur_dir ∷ cs) p h = walk_components-ok rel cs p h
  walk_components-ok rel (parent_dir ∷ cs) p h = elim (Option-cases (parent rel)) [
    | inl e ↦ ground (arith, go_up-under root rel, e)
    | inr (above, e) ↦
        rw (e, lexical) (walk_components-ok above cs p (ground (arith, go_up-under root rel, e)))
  ]
  walk_components-ok rel (normal name ∷ cs) p h =
      elim (Result-cases
        (check_pushed (push (root ++ rel) name) (lstat (push (root ++ rel) name)))) [
          | inl (next, e) ↦ walk_components-ok (push rel name) cs p (
              ground (
                arith,
                e,
                check_pushed-ok (push (root ++ rel) name) (lstat (push (root ++ rel) name)) e,
                append_assoc root rel (name ∷ []),
              ))
          | inr (e, eq) ↦ ground (arith, eq)
        ]

  module _ (quiet : IsQuiet lstat root) where
    push-quiet :
        (rel : FilePath) (name : Bytes)
        → walk_component lstat root (root ++ rel) (normal name) ≡ ok (root ++ push rel name)
    unfolding walk_component
    push-quiet rel name = rw (append_assoc root rel (name ∷ [])) (
        check_pushed-walkable (root ++ push rel name) (lstat (root ++ push rel name))
          (quiet (push rel name)))

    walk_components-quiet :
        (rel : FilePath) (cs : List Component)
        → walk_components lstat root (root ++ rel) cs ≡ under root (lexical rel cs)
    unfolding walk_components walk_component lexical
    walk_components-quiet rel [] = refl
    walk_components-quiet rel (root_dir ∷ cs) =
        ground (arith, walk_components-quiet [] cs, append-nil root)
    walk_components-quiet rel (cur_dir ∷ cs) = walk_components-quiet rel cs
    walk_components-quiet rel (parent_dir ∷ cs) = elim (Option-cases (parent rel)) [
      | inl e ↦ ground (arith, go_up-under root rel, e)
      | inr (above, e) ↦ ground (arith, go_up-under root rel, e, walk_components-quiet above cs)
    ]
    walk_components-quiet rel (normal name ∷ cs) =
        ground (arith, push-quiet rel name, walk_components-quiet (push rel name) cs)

-- Where a path leads from the directory `rel` below the root, by its text.
abbrev pub lexical_path : FilePath → Bytes → Option FilePath
lexical_path rel user_path =
    lexical (if is_absolute user_path then [] else rel) (components user_path)

start-append :
    (root rel : FilePath) (b : Bool)
    → (if b then root else root ++ rel) ≡ root ++ (if b then [] else rel)
start-append root rel true = sym (append-nil root)
start-append root rel false = refl

-- What `walk_safe` returns lies under the root, at the place that the path's text names, whatever
-- the file system answers.
pub walk_safe-lexical :
    (lstat : Lstat) (root rel : FilePath) (user_path : Bytes) (p : FilePath)
    → walk_safe lstat root (root ++ rel) user_path ≡ ok p
    → (end : FilePath) × (lexical_path rel user_path ≡ some end) × (p ≡ root ++ end)
unfolding walk_safe
walk_safe-lexical lstat root rel user_path p h =
    let (q, walked, guarded) =
      >>=-eq-ok
        (walk_components lstat root (if is_absolute user_path then root else root ++ rel)
          (components user_path))
        _ h in
    let (end, e, split) =
      walk_components-ok lstat root (if is_absolute user_path then [] else rel)
        (components user_path) q (rw (← (start-append root rel (is_absolute user_path))) walked) in
    (end, e, ground (arith, guarded, split))

-- When nothing beneath the root is a link or fails to be read, `walk_safe` accepts exactly the paths
-- whose text stays under the root, and refuses every other as outside the root.
pub walk_safe-quiet :
    (lstat : Lstat) (root rel : FilePath) (user_path : Bytes)
    → IsQuiet lstat root
    → walk_safe lstat root (root ++ rel) user_path ≡ under root (lexical_path rel user_path)
unfolding walk_safe
walk_safe-quiet lstat root rel user_path quiet =
    rw
      (
        start-append root rel (is_absolute user_path),
        walk_components-quiet lstat root quiet (if is_absolute user_path then [] else rel)
            (components user_path),
      )
      (elim (Option-cases (lexical_path rel user_path)) [
        | inl e ↦ ground (arith, e)
        | inr (end, e) ↦ ground (arith, e, starts_with-append root end)
      ])
