-- ===== src/Users/Config/Valid.antt =====
-- The directory that `from_config` of crates/qftp-protocol/src/user.rs builds, against the
-- configuration it is built from.
use mathlib.Core.List.{append_assoc, append-nil, map-append}
use qftp.Prelude.{
  Bytes, true, false, Option, none, some, List, [], ◌∷◌, ◌++◌, nat_eq, list_eq, list_beq_iff, Assoc,
  lookup, insert, Result, ok, err, All, ◌≡◌, ◌≢◌, refl, sym, ap, ◌∙◌, subst, arith, Option-cases,
  inl, inr,
}
use qftp.Paths.{FilePath, starts_with, IoError}
use qftp.Access.{read_only}
use qftp.Users.{User, UserDirectory}
use qftp.Users.Config.{
  UserSpec, UserConfig, ConfigError, Disk, resolve_apart, resolve_all, build_user, build_all,
  build_anonymous, validate_specs, validate_users, from_config, from_root, from_valid,
  from_resolved, from_tables, with_users, built, with_anonymous, has_zero_quota,
}
use qftp.Users.Config.Apart.{
  IsApart, Pairwise, Pairwise-snoc, homes_of, homes, names, spec_names, IsKept, resolve_apart-ok,
  resolve_all-ok,
}

insert-fresh {ℓ} :
    {V : Type ℓ} (k : Bytes) (v : V) (m : Assoc Bytes V)
    → lookup k m ≡ none
    → insert k v m ≡ m ++ (k, v) ∷ []
unfolding lookup insert
insert-fresh k v [] h = refl
insert-fresh k v ((j, w) ∷ m) h = ground (arith, insert-fresh k v m, h)

lookup-none {ℓ} :
    {V : Type ℓ} (k : Bytes) (m : Assoc Bytes V) → lookup k m ≡ none → All (λ j. j ≢ k) (names m)
unfolding lookup
lookup-none k [] h = tt
lookup-none k ((j, w) ∷ m) h =
    (λ e. ground (arith, (list_beq_iff j k).1 e, h), lookup-none k m (ground (arith, h)))

abbrev IsDistinct : List Bytes → Type 0
IsDistinct = Pairwise (λ j k. j ≢ k)

module _ {S : Type 0} (d : Disk S) where
  home-build_user :
      (spec : UserSpec) (home : FilePath) (s : S)
      → let u = (build_user d spec home s).0 in
        (u.home ≡ home) × (u.permissions ≡ spec.permissions) × (u.quota_bytes ≡ spec.quota_bytes)
  unfolding build_user
  home-build_user spec home s = (refl, refl, refl)

  build_all-ok :
      (specs : List UserSpec) (resolved : List (Bytes × FilePath)) (by_name : Assoc Bytes User)
      (s : S) {table : Assoc Bytes User}
      → names resolved ≡ spec_names specs
      → IsDistinct (names by_name)
      → (build_all d specs resolved by_name s).0 ≡ ok table
      → IsDistinct (names table)
        × (names table ≡ names by_name ++ spec_names specs)
        × (homes table ≡ homes by_name ++ homes_of resolved)
  unfolding build_all
  build_all-ok [] [] by_name s n u h =
      subst
        (λ t.
          IsDistinct (names t) × (names t ≡ names by_name ++ []) × (homes t ≡ homes by_name ++ []))
        (cc) (u, sym (append-nil (names by_name)), sym (append-nil (homes by_name)))
  build_all-ok [] (r ∷ resolved) by_name s n u h = absurd (ground (arith, n))
  build_all-ok (spec ∷ specs) [] by_name s n u h = absurd (ground (arith, n))
  build_all-ok (spec ∷ specs) ((m, home) ∷ resolved) by_name s {table} n u h =
      elim (Option-cases (lookup spec.name by_name)) [
        | inr (w, e) ↦ absurd (ground (arith, h, e))
        | inl e ↦
            let b = build_user d spec home s in
            let grown : insert spec.name b.0 by_name ≡ by_name ++ (spec.name, b.0) ∷ [] =
              insert-fresh spec.name b.0 by_name e in
            let name_of = λ (x : Bytes × User). x.0 in
            let home_of = λ (x : Bytes × User). x.1.home in
            let entry : List (Bytes × User) = (spec.name, b.0) ∷ [] in
            let ns = ap names grown ∙ map-append name_of by_name entry in
            let hs = ap homes grown ∙ map-append home_of by_name entry in
            let fresh : IsDistinct (names (insert spec.name b.0 by_name)) =
              subst IsDistinct (sym ns) (
                Pairwise-snoc (λ j k. j ≢ k) (names by_name) spec.name u
                  (lookup-none spec.name by_name e)) in
            let r =
              build_all-ok specs resolved (insert spec.name b.0 by_name) b.1 {table = table}
                (ground (arith, n)) fresh (ground (arith, h, e)) in
            (
              r.0,
              r.1
                  ∙ (ap (λ l. l ++ spec_names specs) ns
                      ∙ append_assoc (names by_name) (spec.name ∷ []) (spec_names specs)),
              r.2
                  ∙ (ap (λ l. l ++ homes_of resolved) hs
                      ∙ (append_assoc (homes by_name) (b.0.home ∷ []) (homes_of resolved)
                          ∙ ap (λ x. homes by_name ++ x ∷ homes_of resolved)
                              (home-build_user spec home s).0)),
            )
      ]

abbrev pub AnonymousIsSafe : FilePath → List FilePath → Option UserSpec → User → Type 0
AnonymousIsSafe root others none u =
    (u.home ≡ root) × (u.permissions ≡ read_only) × (u.quota_bytes ≡ none)
AnonymousIsSafe root others (some spec) u =
    (starts_with root u.home ≡ true)
    × All (λ other. IsApart other u.home) others
    × (u.permissions ≡ spec.permissions)
    × (u.quota_bytes ≡ spec.quota_bytes)

-- What a directory owes its configuration.
pub record IsBuilt (root : FilePath) (cfg : UserConfig) (dir : UserDirectory) : Type 0 where
  pub names_kept : names dir.by_name ≡ spec_names cfg.users
  pub names_distinct : Pairwise (λ j k. j ≢ k) (names dir.by_name)
  pub homes_inside : All (λ home. starts_with root home ≡ true) (homes dir.by_name)
  pub homes_apart : Pairwise IsApart (homes dir.by_name)
  pub anonymous_safe : AnonymousIsSafe root (homes dir.by_name) cfg.anonymous dir.anonymous
  pub quotas_positive : All (λ spec. has_zero_quota spec.quota_bytes ≡ false) (with_anonymous cfg)

validate_users-none :
    (specs : List UserSpec)
    → validate_users specs ≡ none
    → All (λ spec. has_zero_quota spec.quota_bytes ≡ false) specs
unfolding validate_users
validate_users-none [] h = tt
validate_users-none (spec ∷ specs) h =
    (ground (arith, h), validate_users-none specs (ground (arith, h)))

validate_specs-ok :
    (cfg : UserConfig) {u : Unit {0}}
    → validate_specs cfg ≡ ok u
    → validate_users (with_anonymous cfg) ≡ none
unfolding validate_specs
validate_specs-ok cfg h = ground (arith, h)

module _ {S : Type 0} (d : Disk S) where
  built-ok :
      (spec : UserSpec) (r : Result ConfigError FilePath × S) {u : User}
      → (built d spec r).0 ≡ ok u
      → (home : FilePath) × (r.0 ≡ ok home)
        × (u.home ≡ home)
        × (u.permissions ≡ spec.permissions)
        × (u.quota_bytes ≡ spec.quota_bytes)
  built-ok spec (err e, s) h = cc
  built-ok spec (ok home, s) {u} h =
      let v = (build_user d spec home s).0 in
      let e : v ≡ u = cc in
      let b = home-build_user d spec home s in
      (
        home,
        refl,
        ap (λ (w : User). w.home) (sym e) ∙ b.0,
        ap (λ (w : User). w.permissions) (sym e) ∙ b.1,
        ap (λ (w : User). w.quota_bytes) (sym e) ∙ b.2,
      )

  build_anonymous-ok :
      (global_root : Bytes) (root : FilePath) (spec : Option UserSpec)
      (resolved : List (Bytes × FilePath)) (s : S) {u : User}
      → (build_anonymous d global_root root spec resolved s).0 ≡ ok u
      → AnonymousIsSafe root (homes_of resolved) spec u
  unfolding build_anonymous
  build_anonymous-ok global_root root none resolved s h =
      (ground (arith, h), ground (arith, h), ground (arith, h))
  build_anonymous-ok global_root root (some spec) resolved s {u} h =
      let b = built-ok spec (resolve_apart d global_root root spec resolved s) h in
      let a = resolve_apart-ok d global_root root spec resolved s b.1 in
      (
        subst (λ home. starts_with root home ≡ true) (sym b.2) a.0,
        subst (λ home. All (λ other. IsApart other home) (homes_of resolved)) (sym b.2) a.1,
        b.3,
        b.4,
      )

  with_users-ok :
      (table : Assoc Bytes User) (r : Result ConfigError User × S) {dir : UserDirectory}
      → (with_users d table r).0 ≡ ok dir
      → (r.0 ≡ ok dir.anonymous) × (dir.by_name ≡ table)
  with_users-ok table (err e, s) h = cc
  with_users-ok table (ok u, s) h = (cc, cc)

  from_tables-ok :
      (global_root : Bytes) (root : FilePath) (cfg : UserConfig)
      (resolved : List (Bytes × FilePath)) (r : Result ConfigError (Assoc Bytes User) × S)
      {dir : UserDirectory}
      → (from_tables d global_root root cfg resolved r).0 ≡ ok dir
      → (r.0 ≡ ok dir.by_name)
        × AnonymousIsSafe root (homes_of resolved) cfg.anonymous dir.anonymous
  from_tables-ok global_root root cfg resolved (err e, s) h = cc
  from_tables-ok global_root root cfg resolved (ok table, s) h =
      let w = with_users-ok table (build_anonymous d global_root root cfg.anonymous resolved s) h in
      (ap ok (sym w.1), build_anonymous-ok global_root root cfg.anonymous resolved s w.0)

  from_resolved-ok :
      (global_root : Bytes) (root : FilePath) (cfg : UserConfig)
      (r : Result ConfigError (List (Bytes × FilePath)) × S) {dir : UserDirectory}
      → ((resolved : List (Bytes × FilePath))
          → r.0 ≡ ok resolved
          → IsKept root resolved × (names resolved ≡ spec_names cfg.users))
      → All (λ spec. has_zero_quota spec.quota_bytes ≡ false) (with_anonymous cfg)
      → (from_resolved d global_root root cfg r).0 ≡ ok dir
      → IsBuilt root cfg dir
  from_resolved-ok global_root root cfg (err e, s) kept quotas h = absurd (cc)
  from_resolved-ok global_root root cfg (ok resolved, s) {dir} kept quotas h =
      let k = kept resolved refl in
      let t =
        from_tables-ok global_root root cfg resolved (build_all d cfg.users resolved [] s) h in
      let b = build_all-ok d cfg.users resolved [] s {table = dir.by_name} k.1 tt t.0 in
      record {
        names_kept = b.1;
        names_distinct = b.0;
        homes_inside = subst (All (λ home. starts_with root home ≡ true)) (sym b.2) k.0.1;
        homes_apart = subst (Pairwise IsApart) (sym b.2) k.0.0;
        anonymous_safe =
            subst (λ hs. AnonymousIsSafe root hs cfg.anonymous dir.anonymous) (sym b.2) t.1;
        quotas_positive = quotas;
      }

  from_valid-ok :
      (global_root : Bytes) (root : FilePath) (cfg : UserConfig) (v : Result ConfigError (Unit {0}))
      (s : S) {dir : UserDirectory}
      → v ≡ validate_specs cfg
      → (from_valid d global_root root cfg v s).0 ≡ ok dir
      → IsBuilt root cfg dir
  from_valid-ok global_root root cfg (err e) s v h = absurd (cc)
  from_valid-ok global_root root cfg (ok u) s v h =
      from_resolved-ok global_root root cfg (resolve_all d global_root root cfg.users [] s)
        (λ resolved e. resolve_all-ok d global_root root cfg.users [] s (tt, tt) e)
        (validate_users-none (with_anonymous cfg) (validate_specs-ok cfg (sym v))) h

  from_root-ok :
      (global_root : Bytes) (cfg : UserConfig) (r : Result IoError FilePath) (s : S)
      {dir : UserDirectory}
      → (from_root d global_root cfg r s).0 ≡ ok dir
      → (root : FilePath) × (r ≡ ok root) × IsBuilt root cfg dir
  from_root-ok global_root cfg (err e) s h = absurd (cc)
  from_root-ok global_root cfg (ok root) s h =
      (root, refl, from_valid-ok global_root root cfg (validate_specs cfg) s refl h)

  -- A configuration that is accepted gives each configured name one user, the names all distinct;
  -- every home lies in the root, and no home is another or lies below it, that of a configured
  -- anonymous user included; an anonymous user that is not configured only reads, and has no
  -- quota; and no quota is zero, whatever the file system answers and does.
  pub from_config-IsBuilt :
      (global_root : Bytes) (cfg : UserConfig) (s : S) {dir : UserDirectory}
      → (from_config d global_root cfg s).0 ≡ ok dir
      → (root : FilePath) × (d.canonicalize global_root s ≡ ok root) × IsBuilt root cfg dir
  unfolding from_config
  from_config-IsBuilt global_root cfg s h =
      from_root-ok global_root cfg (d.canonicalize global_root s) s h
