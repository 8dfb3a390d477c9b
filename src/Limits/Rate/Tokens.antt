-- ===== src/Limits/Rate/Tokens.antt =====
-- The tokens in the buckets of the rate limiter in crates/qftp-server/src/limits.rs, against the
-- burst.
use qftp.Prelude.{
  ℕ, ◌-◌, Bool, true, List, [], ◌∷◌, All, length, take, ltb, nat_eq, list_eq, Assoc, lookup, remove,
  All-insert, All-remove, ◌≡◌, ◌⊎◌, refl, sym, subst, ◌∙◌, arith, Option-cases, Bool-cases, inl,
  inr,
}
use qftp.Limits.{IpAddr, IpKey, bucket_key}
use qftp.Limits.Rate.{
  Floats, Bucket, RateLimiter, retain, oldest, evict_sample, maybe_sweep, make_room_for,
  bucket_or_new, refill, take_token, try_consume,
}

module _ {F : Type 0} (floats : Floats F) where
  -- What holds of `f64` for a burst that is a number: the lesser of two is at most each, and what is
  -- at most the burst still is when one is taken off.
  pub record IsBurst (burst : F) : Type 0 where
    pub reflexive : floats.at_least burst burst ≡ true
    pub lesser_le : (a : F) → floats.at_least burst (floats.lesser a burst) ≡ true
    pub sub_le :
        (a : F)
        → floats.at_least burst a ≡ true
        → floats.at_least burst (floats.sub a floats.one) ≡ true

  abbrev pub IsFilled : F → IpKey × Bucket F → Type 0
  IsFilled burst e = floats.at_least burst e.1.tokens ≡ true

  retain-All :
      (P : IpKey × Bucket F → Type 0) (keep : Bucket F → Bool) (m : Assoc IpKey (Bucket F))
      → All P m
      → All P (retain keep m)
  unfolding retain
  retain-All P keep [] h = tt
  retain-All P keep ((key, value) ∷ m) h = elim (Bool-cases (keep value)) [
    | inl e ↦ rw e (h.0, retain-All P keep m h.1)
    | inr e ↦ rw e (retain-All P keep m h.1)
  ]

  module _ (iter : Assoc IpKey (Bucket F) → List (IpKey × Bucket F)) where
    maybe_sweep-IsFilled :
        (now : ℕ) (l : RateLimiter F)
        → All (IsFilled l.burst) l.buckets
        → All (IsFilled l.burst) (maybe_sweep floats iter now l).buckets
          × ((maybe_sweep floats iter now l).burst ≡ l.burst)
    unfolding maybe_sweep
    maybe_sweep-IsFilled now l h = elim (Bool-cases (ltb (now - l.last_sweep) l.sweep_interval)) [
      | inl e ↦ rw e (h, refl)
      | inr e ↦ rw e (retain-All (IsFilled l.burst) _ l.buckets h, refl)
    ]

    make_room_for-cases :
        (key : IpKey) (l : RateLimiter F)
        → (make_room_for floats iter key l ≡ l)
          ⊎ ((victim : IpKey) × (make_room_for floats iter key l
                ≡ record l { buckets = remove victim l.buckets }))
    unfolding make_room_for
    make_room_for-cases key l = elim (Bool-cases (ltb (length l.buckets) l.max_tracked)) [
      | inl room ↦ inl (rw room refl)
      | inr full ↦ elim (Option-cases (lookup key l.buckets)) [
        | inr (bucket, held) ↦ inl (ground (arith, held))
        | inl missing ↦ elim (Option-cases (oldest (take evict_sample (iter l.buckets)))) [
          | inl nobody ↦ inl (ground (arith, missing, nobody))
          | inr (victim, found) ↦ inr (victim.0, ground (arith, full, missing, found))
        ]
      ]
    ]

    make_room_for-IsFilled :
        (key : IpKey) (l : RateLimiter F)
        → All (IsFilled l.burst) l.buckets
        → All (IsFilled l.burst) (make_room_for floats iter key l).buckets
          × ((make_room_for floats iter key l).burst ≡ l.burst)
    unfolding make_room_for
    make_room_for-IsFilled key l h = elim (make_room_for-cases key l) [
      | inl same ↦ rw same (h, refl)
      | inr (victim, removed) ↦ rw removed (All-remove (IsFilled l.burst) victim l.buckets h, refl)
    ]

    take_token-IsFilled :
        (key : IpKey) (b : Bucket F) (l : RateLimiter F)
        → IsBurst l.burst
        → floats.at_least l.burst b.tokens ≡ true
        → All (IsFilled l.burst) l.buckets
        → All (IsFilled l.burst) (take_token floats iter key b l).1.buckets
          × ((take_token floats iter key b l).1.burst ≡ l.burst)
    take_token-IsFilled key b l law filled h =
        let spent : Bucket F = record b { tokens = floats.sub b.tokens floats.one } in
        elim (Bool-cases (floats.at_least b.tokens floats.one)) [
          | inl e ↦ rw e (
            All-insert (IsFilled l.burst) key spent l.buckets (law.sub_le b.tokens filled) h,
            refl,
          )
          | inr e ↦ rw e (All-insert (IsFilled l.burst) key b l.buckets filled h, refl)
        ]

    -- No bucket ever holds more tokens than the burst: if none did before a request, none does after
    -- it, whatever the address and the time, and the burst is the same.
    pub try_consume-IsFilled :
        (now : ℕ) (ip : IpAddr) (l : RateLimiter F)
        → IsBurst l.burst
        → All (IsFilled l.burst) l.buckets
        → All (IsFilled l.burst) (try_consume floats iter now ip l).1.buckets
          × ((try_consume floats iter now ip l).1.burst ≡ l.burst)
    unfolding try_consume
    try_consume-IsFilled now ip l law h =
        let swept = maybe_sweep floats iter now l in
        let ready = make_room_for floats iter (bucket_key ip) swept in
        let (swept_filled, swept_burst) = maybe_sweep-IsFilled now l h in
        let (ready_filled, ready_burst) =
          make_room_for-IsFilled (bucket_key ip) swept (rw swept_burst swept_filled) in
        let kept = ready_burst ∙ swept_burst in
        let ready_law = subst IsBurst (sym kept) law in
        let refilled =
          refill floats iter ready now
            (bucket_or_new floats iter ready.burst now (lookup (bucket_key ip) ready.buckets)) in
        subst
          (λ b.
            All (IsFilled b) (take_token floats iter (bucket_key ip) refilled ready).1.buckets
            × ((take_token floats iter (bucket_key ip) refilled ready).1.burst ≡ b))
          kept
          (take_token-IsFilled (bucket_key ip) refilled ready ready_law (ready_law.lesser_le _)
            (subst (λ b. All (IsFilled b) ready.buckets) (sym ready_burst) ready_filled))
