-- ===== src/Paths/Names.antt =====
-- Laws of the paths of Rust's `std::path` that crates/qftp-protocol/src/handler.rs relies on.
use qftp.Prelude.{
  Bytes, true, none, some, [], ◌∷◌, ◌++◌, nat_eq, list_eq, list_beq_iff, ◌≡◌, ap, refl, arith,
  Option-cases, inl, inr,
}
use qftp.Paths.{FilePath, parent, starts_with, push, file_name}

pub starts_with-append : (root rel : FilePath) → starts_with root (root ++ rel) ≡ true
unfolding starts_with
starts_with-append [] rel = refl
starts_with-append (r ∷ rs) rel =
    ground (arith, (list_beq_iff r r).1 refl, starts_with-append rs rel)

pub starts_with→append :
    (root p : FilePath) → starts_with root p ≡ true → (rel : FilePath) × (p ≡ root ++ rel)
unfolding starts_with
starts_with→append [] p h = (p, refl)
starts_with→append (r ∷ rs) [] h = cc
starts_with→append (r ∷ rs) (n ∷ ns) h =
    let (rel, e) = starts_with→append rs ns (ground arith) in
    (rel, ground (arith, (list_beq_iff r n).0, e))

pub parent-eq_none : (p : FilePath) → parent p ≡ none → p ≡ []
unfolding parent
parent-eq_none [] h = refl
parent-eq_none (n ∷ []) h = cc
parent-eq_none (n ∷ m ∷ ns) h = ground (arith, parent-eq_none (m ∷ ns))

pub parent-append :
    (root rel above : FilePath)
    → parent rel ≡ some above
    → parent (root ++ rel) ≡ some (root ++ above)
unfolding parent
parent-append [] rel above h = h
parent-append (r ∷ []) [] above h = cc
parent-append (r ∷ []) (n ∷ ns) above h = ground arith
parent-append (r ∷ s ∷ rs) rel above h = ground (arith, parent-append (s ∷ rs) rel above h)

pub parent-push : (p : FilePath) (name : Bytes) → parent (push p name) ≡ some p
unfolding parent
parent-push [] name = refl
parent-push (n ∷ []) name = refl
parent-push (n ∷ m ∷ ns) name = ground (arith, parent-push (m ∷ ns) name)

-- A path that has a parent is the parent and one name.
pub parent-eq_some :
    (p above : FilePath) → parent p ≡ some above → (name : Bytes) × (p ≡ push above name)
unfolding parent
parent-eq_some [] above h = cc
parent-eq_some (n ∷ []) above h = (n, ground arith)
parent-eq_some (n ∷ m ∷ ns) above h = elim (Option-cases (parent (m ∷ ns))) [
  | inl e ↦ ground arith
  | inr (q, e) ↦ let (name, split) = parent-eq_some (m ∷ ns) q e in (name, ground (arith, e, split))
]

pub file_name-push : (p : FilePath) (name : Bytes) → file_name (push p name) ≡ some name
unfolding file_name
file_name-push [] name = refl
file_name-push (n ∷ []) name = refl
file_name-push (n ∷ m ∷ ns) name = file_name-push (m ∷ ns) name

-- A path with a last name is a directory and that name.
pub file_name-eq_some :
    (p : FilePath) (name : Bytes) → file_name p ≡ some name → (dir : FilePath) × (p ≡ push dir name)
unfolding file_name
file_name-eq_some [] name h = cc
file_name-eq_some (n ∷ []) name h = ([], ground (arith, h))
file_name-eq_some (n ∷ m ∷ ns) name h =
    let (dir, e) = file_name-eq_some (m ∷ ns) name h in (n ∷ dir, ap (λ r. n ∷ r) e)
