-- ===== src/Users/Identity/Unique.antt =====
-- What `resolve_identity` of crates/qftp-protocol/src/user.rs says of all identities of a
-- certificate.
use qftp.Prelude.{
  Bytes, true, false, none, some, List, [], ◌∷◌, ◌++◌, nat_eq, list_eq, list_beq_iff, All,
  All-append, All-map, contains, beq_refl, ◌≡◌, ◌≢◌, ◌⊎◌, sym, subst, arith, Bool-cases,
  Option-cases, inl, inr,
}
use qftp.Users.{UserDirectory, ArcUser, lookup_strict}
use qftp.Users.Config.Apart.{Pairwise, Pairwise-snoc}
use qftp.Users.Identity.{
  IdentityResolution, matched, no_match, ambiguous, name_at, Matches, is_listed, add_match,
  match_all, resolution, resolve_identity,
}

module _ (dir : UserDirectory) where
  -- The candidate names no user, or one with the name of `user`.
  abbrev pub Agrees : ArcUser → Bytes → Type 0
  Agrees user id =
      (lookup_strict dir id ≡ none)
      ⊎ ((u : ArcUser) × (lookup_strict dir id ≡ some u) × (name_at dir u ≡ name_at dir user))

  -- A match is a candidate that names its user.
  abbrev IsMatch : List Bytes → Bytes × ArcUser → Type 0
  IsMatch candidates m = (contains candidates m.0 ≡ true) × (lookup_strict dir m.0 ≡ some m.1)

  abbrev Differ : Bytes × ArcUser → Bytes × ArcUser → Type 0
  Differ m n = name_at dir m.1 ≢ name_at dir n.1

  -- What a resolution says of the candidates.
  abbrev pub IsResolved : List Bytes → IdentityResolution → Type 0
  IsResolved candidates no_match = All (λ id. lookup_strict dir id ≡ none) candidates
  IsResolved candidates (matched id user) =
      (contains candidates id ≡ true)
      × (lookup_strict dir id ≡ some user)
      × All (Agrees user) candidates
  IsResolved candidates (ambiguous names) =
      (m : Bytes × ArcUser) × (n : Bytes × ArcUser) × IsMatch candidates m
      × IsMatch candidates n
      × Differ m n

  abbrev IsCovered : Matches → Bytes → Type 0
  IsCovered ms id =
      (lookup_strict dir id ≡ none)
      ⊎ ((u : ArcUser) × (lookup_strict dir id ≡ some u) × (is_listed dir u ms ≡ true))

  is_listed-append :
      (u : ArcUser) (ms ns : Matches)
      → is_listed dir u ms ≡ true
      → is_listed dir u (ms ++ ns) ≡ true
  unfolding is_listed
  is_listed-append u [] ns h = cc
  is_listed-append u (m ∷ ms) ns h = ground (arith, is_listed-append u ms ns)

  is_listed-last :
      (u : ArcUser) (id : Bytes) (ms : Matches) → is_listed dir u (ms ++ (id, u) ∷ []) ≡ true
  unfolding is_listed
  is_listed-last u id [] = ground (arith, beq_refl (name_at dir u))
  is_listed-last u id (m ∷ ms) = ground (arith, is_listed-last u id ms)

  is_listed-false :
      (u : ArcUser) (id : Bytes) (ms : Matches)
      → is_listed dir u ms ≡ false
      → All (λ m. Differ m (id, u)) ms
  unfolding is_listed
  is_listed-false u id [] h = tt
  is_listed-false u id (m ∷ ms) h = (
    λ e. ground (arith, (list_beq_iff (name_at dir m.1) (name_at dir u)).1 e, h),
    is_listed-false u id ms (ground (arith, h)),
  )

  IsCovered-append : (ms ns : Matches) (id : Bytes) → IsCovered ms id → IsCovered (ms ++ ns) id
  IsCovered-append ms ns id (inl h) = inl h
  IsCovered-append ms ns id (inr (u, e, h)) = inr (u, e, is_listed-append u ms ns h)

  -- What holds of the matches after the first candidates.
  abbrev Collected : List Bytes → List Bytes → Matches → Type 0
  Collected all done ms = All (IsMatch all) ms × Pairwise Differ ms × All (IsCovered ms) done

  add_match-Collected :
      (all done : List Bytes) (id : Bytes) (ms : Matches)
      → contains all id ≡ true
      → Collected all done ms
      → Collected all (id ∷ done) (add_match dir id (lookup_strict dir id) ms)
  add_match-Collected all done id ms member c = elim (Option-cases (lookup_strict dir id)) [
    | inl e ↦
        let same : add_match dir id (lookup_strict dir id) ms ≡ ms = rw e in
        subst (Collected all (id ∷ done)) (sym same) (c.0, c.1, (inl e, c.2))
    | inr (u, e) ↦ elim (Bool-cases (is_listed dir u ms)) [
      | inl old ↦
          let same : add_match dir id (lookup_strict dir id) ms ≡ ms = rw (e, old) in
          subst (Collected all (id ∷ done)) (sym same) (c.0, c.1, (inr (u, e, old), c.2))
      | inr new ↦
          let grown : add_match dir id (lookup_strict dir id) ms ≡ ms ++ (id, u) ∷ [] =
            rw (e, new) in
          subst (Collected all (id ∷ done)) (sym grown) (
            All-append (IsMatch all) ms ((id, u) ∷ []) c.0 ((member, e), tt),
            Pairwise-snoc Differ ms (id, u) c.1 (is_listed-false u id ms new),
            (
              inr (u, e, is_listed-last u id ms),
              All-map (IsCovered-append ms ((id, u) ∷ [])) done c.2,
            ),
          )
    ]
  ]

  match_all-Collected :
      (all done ids : List Bytes) (ms : Matches)
      → All (λ id. contains all id ≡ true) ids
      → Collected all done ms
      → All (IsMatch all) (match_all dir ids ms)
        × Pairwise Differ (match_all dir ids ms)
        × All (IsCovered (match_all dir ids ms)) done
        × All (IsCovered (match_all dir ids ms)) ids
  unfolding match_all
  match_all-Collected all done [] ms m c = (c.0, c.1, c.2, tt)
  match_all-Collected all done (id ∷ ids) ms m c =
      let r =
        match_all-Collected all (id ∷ done) ids (add_match dir id (lookup_strict dir id) ms) m.1
          (add_match-Collected all done id ms m.0 c) in
      (r.0, r.1, r.2.1, (r.2.0, r.3))

  none_covered : (id : Bytes) → IsCovered [] id → lookup_strict dir id ≡ none
  unfolding is_listed
  none_covered id (inl h) = h
  none_covered id (inr (u, e, h)) = cc

  one_covered :
      (id : Bytes) (user : ArcUser) (c : Bytes) → IsCovered ((id, user) ∷ []) c → Agrees user c
  unfolding is_listed
  one_covered id user c (inl h) = inl h
  one_covered id user c (inr (u, e, h)) =
      inr (u, e, sym ((list_beq_iff (name_at dir user) (name_at dir u)).0 (ground (arith, h))))

  resolution-IsResolved :
      (all : List Bytes) (ms : Matches)
      → All (IsMatch all) ms
      → Pairwise Differ ms
      → All (IsCovered ms) all
      → IsResolved all (resolution dir ms)
  resolution-IsResolved all [] m p c = All-map none_covered all c
  resolution-IsResolved all ((id, user) ∷ []) m p c =
      (m.0.0, m.0.1, All-map (one_covered id user) all c)
  resolution-IsResolved all (m ∷ n ∷ ms) h p c = (m, n, h.0, h.1.0, p.0.0)

contains-cons :
    (x : Bytes) (all ids : List Bytes)
    → All (λ id. contains all id ≡ true) ids
    → All (λ id. contains (x ∷ all) id ≡ true) ids
contains-cons x all [] h = tt
contains-cons x all (id ∷ ids) h = (ground (arith, h), contains-cons x all ids h.1)

contains_self : (ids : List Bytes) → All (λ id. contains ids id ≡ true) ids
contains_self [] = tt
contains_self (id ∷ ids) =
    (ground (arith, beq_refl id), contains-cons id ids ids (contains_self ids))

-- A certificate is matched with a user only if one of its identities names that user and none of
-- them names a user of another name; it matches no user exactly if no identity names one; and it
-- is ambiguous only if two identities name users of different names.
pub resolve_identity-IsResolved :
    (dir : UserDirectory) (candidates : List Bytes)
    → IsResolved dir candidates (resolve_identity candidates dir)
unfolding resolve_identity
resolve_identity-IsResolved dir candidates =
    let r =
      match_all-Collected dir candidates [] candidates [] (contains_self candidates) (tt, tt, tt) in
    resolution-IsResolved dir candidates (match_all dir candidates []) r.0 r.1 r.3
