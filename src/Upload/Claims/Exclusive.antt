-- ===== src/Upload/Claims/Exclusive.antt =====
-- Courses of claims of crates/qftp-protocol/src/stream.rs: the destinations and the temp files in
-- use.
use qftp.Prelude.{
  Bytes, true, false, none, some, List, [], ◌∷◌, ◌++◌, ◌==◌, nat_eq, list_eq, list_beq_iff,
  contains, length, take, All, length-append, take-length_append, Option-cases, sym, ◌∙◌,
  if◌then◌else◌, ◌≡◌, ◌≢◌, refl, ap, arith, inl, inr,
}
use qftp.Paths.{FilePath, parent, file_name, push}
use qftp.Paths.Names.{parent-push, file_name-push, file_name-eq_some}
use qftp.Upload.Claims.{partial_suffix, temp_path_for, try_claim, drop_claim}

-- The uploads under way and the set of claims after each: an upload begins with a claim, and gives it
-- up when it ends.
pub data Step : List FilePath → List FilePath → List FilePath → List FilePath → Type 0 where
  began :
      (path : FilePath) (active uploads : List FilePath)
      → (try_claim path active).0 ≡ true
      → Step active uploads (try_claim path active).1 (path ∷ uploads)
  refused :
      (path : FilePath) (active uploads : List FilePath)
      → (try_claim path active).0 ≡ false
      → Step active uploads (try_claim path active).1 uploads
  ended :
      (path : FilePath) (active before after : List FilePath)
      → Step active (before ++ path ∷ after) (drop_claim path active) (before ++ after)

pub data Reached : List FilePath → List FilePath → Type 0 where
  start : Reached [] []
  further :
      {active uploads after left : List FilePath}
      → Reached active uploads
      → Step active uploads after left
      → Reached after left

abbrev pub IsDistinct : List FilePath → Type 0
IsDistinct [] = Unit {0}
IsDistinct (p ∷ ps) = (contains ps p ≡ false) × IsDistinct ps

-- The claims are the destinations of the uploads, and no two uploads have one destination.
pub record IsExclusive (active uploads : List FilePath) : Type 0 where
  pub claimed : (p : FilePath) → contains active p ≡ contains uploads p
  pub distinct : IsDistinct uploads

contains-drop_claim :
    (path q : FilePath) (active : List FilePath)
    → contains (drop_claim path active) q ≡ (if path == q then false else contains active q)
unfolding drop_claim
contains-drop_claim path q [] = ground arith
contains-drop_claim path q (p ∷ active) = ground (
  arith,
  list_beq_iff path q,
  list_beq_iff p path,
  list_beq_iff p q,
  contains-drop_claim path q active,
)

-- One upload taken out of distinct ones.
contains-without :
    (path q : FilePath) (before after : List FilePath)
    → IsDistinct (before ++ path ∷ after)
    → contains (before ++ after) q
      ≡ (if path == q then false else contains (before ++ path ∷ after) q)
contains-without path q [] after d = ground (arith, d.0, list_beq_iff path q)
contains-without path q (p ∷ before) after d = ground (
  arith,
  d.0,
  list_beq_iff path q,
  list_beq_iff p q,
  list_beq_iff p path,
  contains-without path q before after d.1,
  contains-middle path before after,
)
  where
    contains-middle :
        (path : FilePath) (before after : List FilePath)
        → contains (before ++ path ∷ after) path ≡ true
    contains-middle path [] after = ground (arith, list_beq_iff path path)
    contains-middle path (p ∷ before) after = ground (arith, contains-middle path before after)

without-IsDistinct :
    (path : FilePath) (before after : List FilePath)
    → IsDistinct (before ++ path ∷ after)
    → IsDistinct (before ++ after)
without-IsDistinct path [] after d = d.1
without-IsDistinct path (p ∷ before) after d = (
  ground (arith, d.0, contains-without path p before after d.1),
  without-IsDistinct path before after d.1,
)

Step-IsExclusive :
    {active uploads after left : List FilePath}
    → Step active uploads after left
    → IsExclusive active uploads
    → IsExclusive after left
unfolding try_claim
Step-IsExclusive (began path active uploads granted) x = record {
  claimed = λ p. ground (arith, granted, x.claimed p);
  distinct = (ground (arith, granted, x.claimed path), x.distinct);
}
Step-IsExclusive (refused path active uploads denied) x = record {
  claimed = λ p. ground (arith, denied, x.claimed p);
  distinct = x.distinct;
}
Step-IsExclusive (ended path active before after) x = record {
  claimed = λ p. ground (
    arith,
    contains-drop_claim path p active,
    contains-without path p before after x.distinct,
    x.claimed p,
  );
  distinct = without-IsDistinct path before after x.distinct;
}

Reached-IsExclusive :
    (active uploads : List FilePath) → Reached active uploads → IsExclusive active uploads
Reached-IsExclusive active uploads start = record { claimed = λ p. refl; distinct = tt }
Reached-IsExclusive active uploads (further r s) = Step-IsExclusive s (Reached-IsExclusive _ _ r)

temp_path_for-push :
    (dir : FilePath) (name : Bytes)
    → temp_path_for (push dir name) ≡ push dir (name ++ partial_suffix)
unfolding temp_path_for
temp_path_for-push dir name = rw (parent-push dir name, file_name-push dir name) refl

some-injective : {A : Type 0} (a b : A) → some a ≡ some b → a ≡ b
some-injective a b e = cc

suffix-cancel : (a b suffix : Bytes) → a ++ suffix ≡ b ++ suffix → a ≡ b
suffix-cancel a b suffix e =
    sym (take-length_append (length a) a suffix refl)
    ∙ ap (take (length a)) e
    ∙ take-length_append (length a) b suffix
        (omega (arith, ap length e, length-append a suffix, length-append b suffix))

-- Destinations with a name have their own temp files.
temp_path_for-injective :
    (p q : FilePath)
    → file_name p ≢ none
    → file_name q ≢ none
    → temp_path_for p ≡ temp_path_for q
    → p ≡ q
temp_path_for-injective p q hp hq e = elim (Option-cases (file_name p)) [
  | inl missing ↦ absurd (hp missing)
  | inr (n, np) ↦ elim (Option-cases (file_name q)) [
    | inl missing ↦ absurd (hq missing)
    | inr (m, nq) ↦
        let (d, dp) = file_name-eq_some p n np in
        let (f, fq) = file_name-eq_some q m nq in
        let same : push d (n ++ partial_suffix) ≡ push f (m ++ partial_suffix) =
          sym (temp_path_for-push d n)
          ∙ ap temp_path_for (sym dp)
          ∙ e
          ∙ ap temp_path_for fq
          ∙ temp_path_for-push f m in
        let dirs = some-injective d f (
          sym (parent-push d (n ++ partial_suffix))
          ∙ ap parent same
          ∙ parent-push f (m ++ partial_suffix)) in
        let names = suffix-cancel n m partial_suffix (
          some-injective (n ++ partial_suffix) (m ++ partial_suffix) (
            sym (file_name-push d (n ++ partial_suffix))
            ∙ ap file_name same
            ∙ file_name-push f (m ++ partial_suffix))) in
        cc (dp, fq, dirs, names)
  ]
]

unfoldable pub temp_paths : List FilePath → List FilePath
temp_paths [] = []
temp_paths (p ∷ ps) = temp_path_for p ∷ temp_paths ps

contains-temp_paths :
    (p : FilePath) (ps : List FilePath)
    → file_name p ≢ none
    → All (λ q. file_name q ≢ none) ps
    → contains ps p ≡ false
    → contains (temp_paths ps) (temp_path_for p) ≡ false
unfolding temp_paths
contains-temp_paths p [] hp hs h = refl
contains-temp_paths p (q ∷ ps) hp hs h = ground (
  arith,
  h,
  list_beq_iff q p,
  list_beq_iff (temp_path_for q) (temp_path_for p),
  temp_path_for-injective q p hs.0 hp,
  contains-temp_paths p ps hp hs.1,
)

temp_paths-IsDistinct :
    (ps : List FilePath)
    → All (λ q. file_name q ≢ none) ps
    → IsDistinct ps
    → IsDistinct (temp_paths ps)
unfolding temp_paths
temp_paths-IsDistinct [] hs d = tt
temp_paths-IsDistinct (p ∷ ps) hs d =
    (contains-temp_paths p ps hs.0 hs.1 d.0, temp_paths-IsDistinct ps hs.1 d.1)

-- However uploads begin and end, no two of them that are under way have one destination, and, since
-- each destination has a name, no two write to one temp file.
pub Reached-IsDistinct :
    (active uploads : List FilePath)
    → Reached active uploads
    → All (λ q. file_name q ≢ none) uploads
    → IsDistinct uploads × IsDistinct (temp_paths uploads)
Reached-IsDistinct active uploads r named =
    let x = Reached-IsExclusive active uploads r in
    (x.distinct, temp_paths-IsDistinct uploads named x.distinct)
