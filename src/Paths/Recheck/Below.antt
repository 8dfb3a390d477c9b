-- ===== src/Paths/Recheck/Below.antt =====
-- When the second look of crates/qftp-protocol/src/handler.rs succeeds.
use mathlib.Core.List.{append_assoc, reverse, reverse-cons, reverse-append, reverse-reverse}
use qftp.Prelude.{
  Bytes, true, false, List, [], ◌∷◌, ◌++◌, length, length-append, ◌==◌, nat_eq, list_eq,
  list_beq_iff, ◌≡◌, ◌≢◌, ◌↔◌, refl, ap, subst, arith, sym, ◌∙◌, ok, err, ◌>>=◌, >>-eq-ok,
  Bool-cases, inl, inr,
}
use qftp.Paths.{FilePath, starts_with, push, Stat, found, failed, Lstat, is_symlink}
use qftp.Paths.Names.{starts_with-append, starts_with→append}
use qftp.Paths.Walk.{outside_root}
use qftp.Paths.Recheck.{
  ancestors, recheck_ancestor, recheck_each, recheck_ancestors_no_symlinks, recheck_leaf,
  recheck_path_no_symlinks,
}

abbrev pub IsFound : Stat → Type 0
IsFound (found meta) = Unit {0}
IsFound (failed e) = ⊥

-- There, and not a link.
abbrev pub IsSolid : Stat → Type 0
IsSolid (found meta) = is_symlink meta.kind ≡ false
IsSolid (failed e) = ⊥

-- Every component of the path below `base` is there and is not a link.
abbrev pub IsSolidFrom : Lstat → FilePath → FilePath → Type 0
IsSolidFrom lstat base [] = Unit {0}
IsSolidFrom lstat base (n ∷ ns) = IsSolid (lstat (push base n)) × IsSolidFrom lstat (push base n) ns

-- The ancestors of `root ++ reverse rrel ++ [name]`, nearest first.
chain : FilePath → FilePath → List FilePath
chain root [] = root ∷ []
chain root (m ∷ rrel) = (root ++ reverse (m ∷ rrel)) ∷ chain root rrel

push_ne : (root p : FilePath) (n : Bytes) → root ++ push p n ≢ root
push_ne root p n e =
    omega (arith, ap length e, length-append root (push p n), length-append p (n ∷ []))

reverse_up : (root rrel : FilePath) → reverse (rrel ++ reverse root) ≡ root ++ reverse rrel
reverse_up root rrel = rw (reverse-append rrel (reverse root), reverse-reverse root) refl

module _ (root : FilePath) (name : Bytes) (up p : FilePath) (is_parent : reverse up ≡ p) where
  ancestors-at_root : p ≡ root → ancestors root (name ∷ up) ≡ ok (root ∷ [])
  unfolding ancestors
  ancestors-at_root e = rw is_parent (ground (arith, e, (list_beq_iff p root).1 e))

  ancestors-further :
      (ps : List FilePath)
      → p ≢ root
      → starts_with root p ≡ true
      → ancestors root up ≡ ok ps
      → ancestors root (name ∷ up) ≡ ok (p ∷ ps)
  unfolding ancestors
  ancestors-further ps ne inside e =
      rw is_parent (ground (arith, ne, inside, e, (list_beq_iff p root).0))

ancestors-chain :
    (root rrel : FilePath) (name : Bytes)
    → ancestors root (name ∷ (rrel ++ reverse root)) ≡ ok (chain root rrel)
unfolding chain
ancestors-chain root [] name =
    ancestors-at_root root name (reverse root) root (reverse-reverse root) refl
ancestors-chain root (m ∷ rrel) name =
    ancestors-further root name (m ∷ rrel ++ reverse root) (root ++ reverse (m ∷ rrel))
      (reverse_up root (m ∷ rrel)) (chain root rrel)
      (rw (reverse-cons m rrel) (push_ne root (reverse rrel) m))
      (starts_with-append root (reverse (m ∷ rrel))) (ancestors-chain root rrel m)

module _ (lstat : Lstat) (root : FilePath) where
  recheck_each-snoc :
      (ps : List FilePath) (p : FilePath)
      → (recheck_each lstat root (ps ++ p ∷ []) ≡ ok tt)
        ↔ ((recheck_each lstat root ps ≡ ok tt) × (recheck_ancestor root p (lstat p) ≡ ok tt))
  unfolding recheck_each
  recheck_each-snoc [] p = (
    λ h. (refl, ((>>-eq-ok (recheck_ancestor root p (lstat p)) (ok tt)).0 h).0),
    λ h. (>>-eq-ok (recheck_ancestor root p (lstat p)) (ok tt)).1 (h.1, refl),
  )
  recheck_each-snoc (q ∷ ps) p =
      let (apart, together) = recheck_each-snoc ps p in
      let (split, join) =
        >>-eq-ok (recheck_ancestor root q (lstat q)) (recheck_each lstat root (ps ++ p ∷ [])) in
      let (split_old, join_old) =
        >>-eq-ok (recheck_ancestor root q (lstat q)) (recheck_each lstat root ps) in
      (
        λ h. (join_old ((split h).0, (apart (split h).1).0), (apart (split h).1).1),
        λ h. join ((split_old h.0).0, together ((split_old h.0).1, h.1)),
      )

  IsSolidFrom-push :
      (base rel : FilePath) (name : Bytes)
      → IsSolidFrom lstat base (push rel name)
        ↔ (IsSolidFrom lstat base rel × IsSolid (lstat (base ++ push rel name)))
  IsSolidFrom-push base [] name = (λ h. (tt, h.0), λ h. (h.1, tt))
  IsSolidFrom-push base (n ∷ ns) name =
      let (apart, together) = IsSolidFrom-push (push base n) ns name in
      rw (← (append_assoc base (n ∷ []) (push ns name)))
        (λ h. ((h.0, (apart h.1).0), (apart h.1).1), λ h. (h.0.0, together (h.0.1, h.1)))

  -- the root must be there, but may be a link
  recheck_ancestor-root : (s : Stat) → (recheck_ancestor root root s ≡ ok tt) ↔ IsFound s
  unfolding recheck_ancestor
  recheck_ancestor-root (found meta) = ground (arith, (list_beq_iff root root).1 refl)
  recheck_ancestor-root (failed e) = ground arith

  recheck_ancestor-below :
      (p : FilePath) (s : Stat) → p ≢ root → (recheck_ancestor root p s ≡ ok tt) ↔ IsSolid s
  unfolding recheck_ancestor
  recheck_ancestor-below p (found meta) ne = ground (arith, (list_beq_iff p root).0)
  recheck_ancestor-below p (failed e) ne = ground arith

  recheck_each-chain :
      (rrel : FilePath)
      → (recheck_each lstat root (reverse (chain root rrel)) ≡ ok tt)
        ↔ (IsFound (lstat root) × IsSolidFrom lstat root (reverse rrel))
  unfolding chain recheck_each
  recheck_each-chain [] =
      let (apart, together) = recheck_each-snoc [] root in
      let (to, back) = recheck_ancestor-root (lstat root) in
      (λ h. (to (apart h).1, tt), λ h. together (refl, back h.0))
  recheck_each-chain (m ∷ rrel) =
      let (apart, together) =
        recheck_each-snoc (reverse (chain root rrel)) (root ++ push (reverse rrel) m) in
      let (before, again) = recheck_each-chain rrel in
      let (split, join) = IsSolidFrom-push root (reverse rrel) m in
      let (to, back) =
        recheck_ancestor-below (root ++ push (reverse rrel) m)
          (lstat (root ++ push (reverse rrel) m)) (push_ne root (reverse rrel) m) in
      rw (reverse-cons (root ++ reverse (m ∷ rrel)) (chain root rrel), reverse-cons m rrel)
        (
          λ h. ((before (apart h).0).0, join ((before (apart h).0).1, to (apart h).1)),
          λ h. together (again (h.0, (split h.1).0), back (split h.1).1),
        )

reverse_down :
    (root rel : FilePath) (name : Bytes)
    → reverse (root ++ push rel name) ≡ name ∷ (reverse rel ++ reverse root)
reverse_down root rel name =
    rw (reverse-append root (push rel name), reverse-append rel (name ∷ [])) refl

-- The re-check of the ancestors of a path strictly below the root succeeds exactly when the root is
-- there and every directory strictly between the root and the path is there and is not a symbolic
-- link.
pub recheck_ancestors_iff :
    (lstat : Lstat) (root rel : FilePath) (name : Bytes)
    → (recheck_ancestors_no_symlinks lstat (root ++ push rel name) root ≡ ok tt)
      ↔ (IsFound (lstat root) × IsSolidFrom lstat root rel)
unfolding recheck_ancestors_no_symlinks
recheck_ancestors_iff lstat root rel name =
    rw (reverse_down root rel name, ancestors-chain root (reverse rel) name)
      (subst
        (λ r.
          (recheck_each lstat root (reverse (chain root (reverse rel))) ≡ ok tt)
          ↔ (IsFound (lstat root) × IsSolidFrom lstat root r))
        (reverse-reverse rel) (recheck_each-chain lstat root (reverse rel)))

-- a parent is not under its child
starts_with-parent : (p : FilePath) (n : Bytes) → starts_with (push p n) p ≡ false
starts_with-parent p n = elim (Bool-cases (starts_with (push p n) p)) [
  | inr out ↦ out
  | inl inside ↦
      let (rel, e) = starts_with→append (push p n) p inside in
      absurd (omega (arith, ap length e, length-append (push p n) rel, length-append p (n ∷ [])))
]

parent_beq : (p : FilePath) (n : Bytes) → (p == push p n) ≡ false
parent_beq p n = elim (Bool-cases (p == push p n)) [
  | inr apart ↦ apart
  | inl same ↦
      absurd
        (omega (arith, ap length ((list_beq_iff p (push p n)).0 same), length-append p (n ∷ [])))
]

ancestors-above :
    (root up : FilePath) (n : Bytes)
    → root ≡ push (reverse up) n
    → ancestors root (n ∷ up) ≡ err outside_root
unfolding ancestors
ancestors-above root up n e =
    rw (e, parent_beq (reverse up) n, starts_with-parent (reverse up) n) refl

-- The root itself has no ancestor inside the root, so it is refused, unless it is `/`.
pub recheck_ancestors-root :
    (lstat : Lstat) (root : FilePath)
    → recheck_ancestors_no_symlinks lstat root root ≡ ok tt
    → root ≡ []
unfolding recheck_ancestors_no_symlinks
recheck_ancestors-root lstat root h = from_end (reverse root) (sym (reverse-reverse root)) h
  where
    from_end :
        (up : FilePath)
        → root ≡ reverse up
        → (ancestors root up >>= λ above. recheck_each lstat root (reverse above)) ≡ ok tt
        → root ≡ []
    from_end [] e h = e
    from_end (n ∷ up) e h =
        absurd (ground (arith, ancestors-above root up n (e ∙ reverse-cons n up), h))

push_beq : (root rel : FilePath) (name : Bytes) → (root ++ push rel name == root) ≡ false
push_beq root rel name =
    ground (arith, push_ne root rel name, (list_beq_iff (root ++ push rel name) root).0)

recheck_leaf_iff : (p : FilePath) (s : Stat) → (recheck_leaf p s ≡ ok tt) ↔ IsSolid s
unfolding recheck_leaf
recheck_leaf_iff p (found meta) = ground arith
recheck_leaf_iff p (failed e) = ground arith

-- The re-check before a directory is listed or entered succeeds on the root itself; on a path
-- strictly below the root it succeeds exactly when the root is there and every component below the
-- root, the last one included, is there and is not a symbolic link.
pub recheck_path_iff :
    (lstat : Lstat) (root rel : FilePath) (name : Bytes)
    → (recheck_path_no_symlinks lstat root root ≡ ok tt)
      × ((recheck_path_no_symlinks lstat (root ++ push rel name) root ≡ ok tt)
          ↔ (IsFound (lstat root) × IsSolidFrom lstat root (push rel name)))
unfolding recheck_path_no_symlinks
recheck_path_iff lstat root rel name =
    let p = root ++ push rel name in
    let (split, join) =
      >>-eq-ok (recheck_ancestors_no_symlinks lstat p root) (recheck_leaf p (lstat p)) in
    let (above, again) = recheck_ancestors_iff lstat root rel name in
    let (leaf, leaf_ok) = recheck_leaf_iff p (lstat p) in
    let (apart, together) = IsSolidFrom-push lstat root root rel name in
    let ne = push_beq root rel name in
    (
      ground (arith, (list_beq_iff root root).1 refl),
      rw ne (
        λ h. ((above (split h).0).0, together ((above (split h).0).1, leaf (split h).1)),
        λ h. join (again (h.0, (apart h.1).0), leaf_ok (apart h.1).1),
      ),
    )
