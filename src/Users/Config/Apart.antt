-- ===== src/Users/Config/Apart.antt =====
-- The directories that `from_config` of crates/qftp-protocol/src/user.rs accepts.
use mathlib.Core.List.{append_assoc, append-nil, map-append}
use qftp.Prelude.{
  subst, Bytes, Bool, true, false, none, List, [], ◌∷◌, ◌++◌, map, nat_eq, list_eq, Assoc, Result,
  ok, err, All, All-append, ◌≡◌, sym, ap, ◌∙◌, arith, Result-cases, inl, inr,
}
use qftp.Paths.{FilePath, starts_with, IoError}
use qftp.Users.{User}
use qftp.Users.Config.{
  UserSpec, ConfigError, Disk, check_home_overlap, resolve_home, resolve_apart, resolve_all,
  raw_home, check_home, create_home, resolve_raw, keep_apart,
}

-- Neither path is the other or lies below it.
abbrev pub IsApart : FilePath → FilePath → Type 0
IsApart p q = (starts_with p q ≡ false) × (starts_with q p ≡ false)

-- The earlier one of any two elements stands in `R` to the later one.
abbrev pub Pairwise {ℓ κ} : {A : Type ℓ} → (A → A → Type κ) → List A → Type κ
Pairwise R [] = Unit
Pairwise R (x ∷ xs) = All (R x) xs × Pairwise R xs

pub Pairwise-snoc {ℓ κ} :
    {A : Type ℓ} (R : A → A → Type κ) (xs : List A) (y : A)
    → Pairwise R xs
    → All (λ x. R x y) xs
    → Pairwise R (xs ++ y ∷ [])
Pairwise-snoc R [] y p h = (tt, tt)
Pairwise-snoc R (x ∷ xs) y p h =
    (All-append (R x) xs (y ∷ []) p.0 (h.0, tt), Pairwise-snoc R xs y p.1 h.1)

abbrev pub homes_of : List (Bytes × FilePath) → List FilePath
homes_of = map (λ r. r.1)

abbrev pub homes : Assoc Bytes User → List FilePath
homes = map (λ e. e.1.home)

abbrev pub names {ℓ} : {V : Type ℓ} → Assoc Bytes V → List Bytes
names = map (λ e. e.0)

abbrev pub spec_names : List UserSpec → List Bytes
spec_names = map (λ spec. spec.name)

-- The homes lie in the root and apart from one another.
abbrev pub IsKept : FilePath → List (Bytes × FilePath) → Type 0
IsKept root resolved =
    Pairwise IsApart (homes_of resolved)
    × All (λ home. starts_with root home ≡ true) (homes_of resolved)

IsKept-snoc :
    (root : FilePath) (resolved : List (Bytes × FilePath)) (name : Bytes) (home : FilePath)
    → IsKept root resolved
    → starts_with root home ≡ true
    → All (λ other. IsApart other home) (homes_of resolved)
    → IsKept root (resolved ++ (name, home) ∷ [])
IsKept-snoc root resolved name home k inside apart =
    rw (map-append (λ (r : Bytes × FilePath). r.1) resolved ((name, home) ∷ [])) (
      Pairwise-snoc IsApart (homes_of resolved) home k.0 apart,
      All-append (λ h. starts_with root h ≡ true) (homes_of resolved) (home ∷ []) k.1 (inside, tt),
    )

check_home_overlap-none :
    (home : FilePath) (resolved : List (Bytes × FilePath))
    → check_home_overlap home resolved ≡ none
    → All (λ other. IsApart other home) (homes_of resolved)
unfolding check_home_overlap
check_home_overlap-none home [] h = tt
check_home_overlap-none home ((name, other) ∷ resolved) h = (
  (ground (arith, h), ground (arith, h)),
  check_home_overlap-none home resolved (ground (arith, h)),
)

module _ {S : Type 0} (d : Disk S) where
  check_home-ok :
      (root : FilePath) (name raw : Bytes) (pre : Bool) (c : Result IoError FilePath) (s : S)
      {home : FilePath}
      → (check_home d root name raw pre c s).0 ≡ ok home
      → starts_with root home ≡ true
  check_home-ok root name raw pre (err e) s h = cc
  check_home-ok root name raw pre (ok c) s h = ground (arith, h)

  create_home-ok :
      (root : FilePath) (name raw : Bytes) (pre : Bool) (c : Result IoError (Unit {0}) × S)
      {home : FilePath}
      → (create_home d root name raw pre c).0 ≡ ok home
      → starts_with root home ≡ true
  create_home-ok root name raw pre (err e, s) h = cc
  create_home-ok root name raw pre (ok u, s) h =
      check_home-ok root name raw pre (d.canonicalize raw s) s h

  resolve_raw-ok :
      (root : FilePath) (name : Bytes) (raw : Result ConfigError Bytes) (s : S) {home : FilePath}
      → (resolve_raw d root name raw s).0 ≡ ok home
      → starts_with root home ≡ true
  resolve_raw-ok root name (err e) s h = cc
  resolve_raw-ok root name (ok raw) s h =
      create_home-ok root name raw (d.exists raw s) (d.create_dir_all raw s) h

  keep_apart-ok :
      (root : FilePath) (name : Bytes) (resolved : List (Bytes × FilePath))
      (r : Result ConfigError FilePath × S) {home : FilePath}
      → (keep_apart d name resolved r).0 ≡ ok home
      → (r.0 ≡ ok home) × (check_home_overlap home resolved ≡ none)
  keep_apart-ok root name resolved (err e, s) h = cc
  keep_apart-ok root name resolved (ok home, s) h = ground (arith, h)

  -- A home that is accepted lies in the root and apart from the earlier ones.
  pub resolve_apart-ok :
      (global_root : Bytes) (root : FilePath) (spec : UserSpec) (resolved : List (Bytes × FilePath))
      (s : S) {home : FilePath}
      → (resolve_apart d global_root root spec resolved s).0 ≡ ok home
      → (starts_with root home ≡ true) × All (λ other. IsApart other home) (homes_of resolved)
  unfolding resolve_apart resolve_home
  resolve_apart-ok global_root root spec resolved s {home} h =
      let k = keep_apart-ok root spec.name resolved (resolve_home d global_root root spec s) h in
      (
        resolve_raw-ok root spec.name (raw_home d global_root spec) s k.0,
        check_home_overlap-none home resolved k.1,
      )

  pub resolve_all-ok :
      (global_root : Bytes) (root : FilePath) (specs : List UserSpec)
      (acc : List (Bytes × FilePath)) (s : S) {resolved : List (Bytes × FilePath)}
      → IsKept root acc
      → (resolve_all d global_root root specs acc s).0 ≡ ok resolved
      → IsKept root resolved × (names resolved ≡ names acc ++ spec_names specs)
  unfolding resolve_all
  resolve_all-ok global_root root [] acc s p h =
      subst (λ r. IsKept root r × (names r ≡ names acc ++ [])) (cc)
        (p, sym (append-nil (names acc)))
  resolve_all-ok global_root root (spec ∷ specs) acc s {resolved} p h =
      elim (Result-cases (resolve_apart d global_root root spec acc s).0) [
        | inr (e, eq) ↦ absurd (ground (arith, h, eq))
        | inl (home, eq) ↦
            let a = resolve_apart-ok global_root root spec acc s eq in
            let acc' = acc ++ (spec.name, home) ∷ [] in
            let rest : (resolve_all d global_root root specs acc'
                  (resolve_apart d global_root root spec acc s).1).0
                ≡ ok resolved =
              ground (arith, h, eq) in
            let r =
              resolve_all-ok global_root root specs acc'
                (resolve_apart d global_root root spec acc s).1
                (IsKept-snoc root acc spec.name home p a.0 a.1) rest in
            (
              r.0,
              r.1
                  ∙ (ap (λ l. l ++ spec_names specs)
                        (map-append (λ (x : Bytes × FilePath). x.0) acc ((spec.name, home) ∷ []))
                      ∙ append_assoc (names acc) (spec.name ∷ []) (spec_names specs)),
            )
      ]
