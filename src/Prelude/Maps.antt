-- ===== src/Prelude/Maps.antt =====
-- Maps and sets of the program (`HashMap`, `HashSet`) as association lists; the order of a list is
-- one order in which the program may iterate.
use Prim.Native.Nat.{suc, ◌≤◌}
use mathlib.Core.Path.{◌≡◌}
use mathlib.Core.Logic.{inl, inr}
use mathlib.Core.Option.{Option, none, some}
use mathlib.Core.List.{List, [], ◌∷◌}
use native.Mathlib.Omega.{arith}
use qftp.Prelude.Tests.{if◌then◌else◌, Bool-cases}
use qftp.Prelude.Lists.{length, All}
use qftp.Prelude.Equality.{Eq, ◌==◌}

abbrev pub Assoc {ℓ κ} : Type ℓ → Type κ → Type (ℓ ⊔ κ)
Assoc K V = List (K × V)

module _ {ℓ κ} {K : Type ℓ} {V : Type κ} ⦃e : Eq K⦄ where
  unfoldable pub lookup : K → Assoc K V → Option V
  lookup key [] = none
  lookup key ((held, value) ∷ others) = if held == key then some value else lookup key others

  -- `insert`: an existing entry keeps its place
  unfoldable pub insert : K → V → Assoc K V → Assoc K V
  insert key value [] = (key, value) ∷ []
  insert key value ((held, old) ∷ others) =
      if held == key then (key, value) ∷ others else (held, old) ∷ insert key value others

  unfoldable pub remove : K → Assoc K V → Assoc K V
  remove k [] = []
  remove k ((j, w) ∷ m) = let rest = remove k m in if j == k then rest else (j, w) ∷ rest

  pub lookup-insert :
      (k j : K) (v : V) (table : Assoc K V)
      → lookup j (insert k v table) ≡ (if k == j then some v else lookup j table)
  unfolding lookup insert
  lookup-insert k j v [] = ground arith
  lookup-insert k j v ((i, w) ∷ rest) =
      ground (arith, e.eqb_iff k j, e.eqb_iff i k, e.eqb_iff i j, lookup-insert k j v rest)

  pub lookup-remove :
      (k j : K) (m : Assoc K V) → lookup j (remove k m) ≡ (if k == j then none else lookup j m)
  unfolding lookup remove
  lookup-remove k j [] = ground arith
  lookup-remove k j ((i, w) ∷ m) =
      ground (arith, e.eqb_iff k j, e.eqb_iff i k, e.eqb_iff i j, lookup-remove k j m)

  pub length-remove-le : (k : K) (m : Assoc K V) → length (remove k m) ≤ length m
  unfolding remove
  length-remove-le k [] = omega arith
  length-remove-le k ((i, w) ∷ m) = ground (arith, length-remove-le k m)

  pub length-insert_old :
      (k : K) (v w : V) (m : Assoc K V) → lookup k m ≡ some w → length (insert k v m) ≡ length m
  unfolding lookup insert
  length-insert_old k v w [] h = cc
  length-insert_old k v w ((i, x) ∷ m) h = ground (arith, length-insert_old k v w m)

  pub length-insert-le : (k : K) (v : V) (m : Assoc K V) → length (insert k v m) ≤ suc (length m)
  unfolding insert
  length-insert-le k v [] = omega arith
  length-insert-le k v ((i, x) ∷ m) = ground (arith, length-insert-le k v m)

  pub All-insert {μ} :
      (P : K × V → Type μ) (k : K) (v : V) (m : Assoc K V)
      → P (k, v)
      → All P m
      → All P (insert k v m)
  unfolding insert
  All-insert P k v [] here h = (here, tt)
  All-insert P k v ((i, x) ∷ m) here h = elim (Bool-cases (i == k)) [
    | inl e ↦ rw e (here, h.1)
    | inr e ↦ rw e (h.0, All-insert P k v m here h.1)
  ]

  pub All-remove {μ} : (P : K × V → Type μ) (k : K) (m : Assoc K V) → All P m → All P (remove k m)
  unfolding remove
  All-remove P k [] h = tt
  All-remove P k ((i, x) ∷ m) h = elim (Bool-cases (i == k)) [
    | inl e ↦ rw e (All-remove P k m h.1)
    | inr e ↦ rw e (h.0, All-remove P k m h.1)
  ]
