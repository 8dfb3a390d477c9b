-- ===== src/Limits/Rate/Table.antt =====
-- What holds of the table of the rate limiter in crates/qftp-server/src/limits.rs after each request.
use qftp.Prelude.{
  ℕ, ◌-◌, ◌≤◌, ◌<◌, Bool, none, some, List, [], ◌∷◌, length, take, length-take, All, All-take, ltb,
  nat_eq, list_eq, Assoc, lookup, remove, length-remove-le, length-insert_old, length-insert-le,
  ◌≡◌, ◌≢◌, ◌⊎◌, refl, subst, arith, Option-cases, Bool-cases, inl, inr,
}
use qftp.Limits.{IpAddr, IpKey, bucket_key}
use qftp.Limits.Rate.{
  Floats, Bucket, RateLimiter, retain, oldest, evict_sample, maybe_sweep, make_room_for,
  bucket_or_new, refill, take_token, try_consume,
}

-- The iteration of a map visits entries of the map, and some entry when there is one.
pub record IsIteration {F : Type 0} (iter : Assoc IpKey (Bucket F) → List (IpKey × Bucket F))
    : Type 0 where
  pub visits : (m : Assoc IpKey (Bucket F)) → All (λ e. lookup e.0 m ≢ none) (iter m)
  pub nonempty : (m : Assoc IpKey (Bucket F)) → 0 < length m → 0 < length (iter m)

length-retain-le :
    {V : Type 0} (keep : V → Bool) (m : Assoc IpKey V) → length (retain keep m) ≤ length m
unfolding retain
length-retain-le keep [] = omega arith
length-retain-le keep ((key, value) ∷ m) = ground (arith, length-retain-le keep m)

length-remove-lt :
    {V : Type 0} (key : IpKey) (m : Assoc IpKey V)
    → lookup key m ≢ none
    → length (remove key m) < length m
unfolding lookup remove
length-remove-lt key [] h = absurd (h refl)
length-remove-lt key ((held, value) ∷ m) h =
    ground (arith, length-remove-lt key m, length-remove-le key m)

oldest-step :
    {F : Type 0} (key : IpKey) (bucket : Bucket F) (es : List (IpKey × Bucket F))
    (e : IpKey × Bucket F)
    → oldest ((key, bucket) ∷ es) ≡ some e
    → ((key, bucket) ≡ e) ⊎ (oldest es ≡ some e)
unfolding oldest
oldest-step key bucket es e q = elim (Option-cases (oldest es)) [
  | inl e' ↦ inl (ground (arith, e'))
  | inr (other, e') ↦ elim (Bool-cases (ltb other.1.last bucket.last)) [
    | inl younger ↦ inr (ground (arith, e', younger))
    | inr older ↦ inl (ground (arith, e', older))
  ]
]

oldest-All :
    {F : Type 0} (P : IpKey × Bucket F → Type 0) (es : List (IpKey × Bucket F))
    (e : IpKey × Bucket F)
    → All P es
    → oldest es ≡ some e
    → P e
unfolding oldest
oldest-All P [] e h q = cc
oldest-All P ((key, bucket) ∷ es) e h q = elim (oldest-step key bucket es e q) [
  | inl here ↦ subst P here h.0
  | inr further ↦ oldest-All P es e h.1 further
]

oldest-ne-none : {F : Type 0} (es : List (IpKey × Bucket F)) → 0 < length es → oldest es ≢ none
unfolding oldest
oldest-ne-none [] h = omega arith
oldest-ne-none ((key, bucket) ∷ es) h = elim (Option-cases (oldest es)) [
  | inl none_left ↦ ground (arith, none_left)
  | inr (other, found) ↦ ground (arith, found)
]

module _ {F : Type 0} (floats : Floats F)
    (iter : Assoc IpKey (Bucket F) → List (IpKey × Bucket F)) where
  length-maybe_sweep-le :
      (now : ℕ) (l : RateLimiter F)
      → length (maybe_sweep floats iter now l).buckets ≤ length l.buckets
  unfolding maybe_sweep
  length-maybe_sweep-le now l =
      ground (arith, length-retain-le (λ b. ltb (now - b.last) l.idle_cutoff) l.buckets)

  max_tracked-maybe_sweep :
      (now : ℕ) (l : RateLimiter F) → (maybe_sweep floats iter now l).max_tracked ≡ l.max_tracked
  unfolding maybe_sweep
  max_tracked-maybe_sweep now l = ground arith

  take_token-fits :
      (key : IpKey) (b : Bucket F) (l : RateLimiter F) (cap : ℕ)
      → length l.buckets ≤ cap
      → (lookup key l.buckets ≡ none → length l.buckets < cap)
      → length (take_token floats iter key b l).1.buckets ≤ cap
  take_token-fits key b l cap fits room =
      let spent : Bucket F = record b { tokens = floats.sub b.tokens floats.one } in
      elim (Option-cases (lookup key l.buckets)) [
        | inl missing ↦ ground (
          arith,
          room missing,
          length-insert-le key b l.buckets,
          length-insert-le key spent l.buckets,
        )
        | inr (bucket, held) ↦ ground (
          arith,
          length-insert_old key b bucket l.buckets held,
          length-insert_old key spent bucket l.buckets held,
        )
      ]

  max_tracked-take_token :
      (key : IpKey) (b : Bucket F) (l : RateLimiter F)
      → (take_token floats iter key b l).1.max_tracked ≡ l.max_tracked
  max_tracked-take_token key b l = ground arith

  module _ (law : IsIteration iter) where
    -- After `make_room_for` there is room for one more, unless the key has a bucket.
    make_room_for-room :
        (key : IpKey) (l : RateLimiter F)
        → 0 < l.max_tracked
        → length l.buckets ≤ l.max_tracked
        → (length (make_room_for floats iter key l).buckets ≤ l.max_tracked)
          × ((make_room_for floats iter key l).max_tracked ≡ l.max_tracked)
          × ((lookup key (make_room_for floats iter key l).buckets ≡ none)
              → length (make_room_for floats iter key l).buckets < l.max_tracked)
    unfolding make_room_for
    make_room_for-room key l pos bound = elim (Option-cases (lookup key l.buckets)) [
      | inr (bucket, held) ↦ ground (arith, held)
      | inl missing ↦ elim (Option-cases (oldest (take evict_sample (iter l.buckets)))) [
        | inl nobody ↦ ground (
          arith,
          missing,
          nobody,
          oldest-ne-none (take evict_sample (iter l.buckets)),
          length-take evict_sample (iter l.buckets),
          law.nonempty l.buckets,
        )
        | inr (victim, found) ↦ ground (
          arith,
          missing,
          found,
          length-remove-lt victim.0 l.buckets (
              oldest-All (λ e. lookup e.0 l.buckets ≢ none) (take evict_sample (iter l.buckets))
                victim (All-take _ evict_sample (iter l.buckets) (law.visits l.buckets)) found),
        )
      ]
    ]

    -- The table of the rate limiter never outgrows its cap: a request of any address at any time
    -- leaves at most `max_tracked` buckets, if there were no more and the cap is positive.
    pub length-try_consume-le :
        (now : ℕ) (ip : IpAddr) (l : RateLimiter F)
        → 0 < l.max_tracked
        → length l.buckets ≤ l.max_tracked
        → (length (try_consume floats iter now ip l).1.buckets ≤ l.max_tracked)
          × ((try_consume floats iter now ip l).1.max_tracked ≡ l.max_tracked)
    unfolding try_consume
    length-try_consume-le now ip l pos bound =
        let swept = maybe_sweep floats iter now l in
        let (fits, same, room) =
          make_room_for-room (bucket_key ip) swept (omega (arith, max_tracked-maybe_sweep now l))
            (omega (arith, max_tracked-maybe_sweep now l, length-maybe_sweep-le now l)) in
        let ready = make_room_for floats iter (bucket_key ip) swept in
        let refilled =
          refill floats iter ready now
            (bucket_or_new floats iter ready.burst now (lookup (bucket_key ip) ready.buckets)) in
        let kept = max_tracked-maybe_sweep now l in
        (
          take_token-fits (bucket_key ip) refilled ready l.max_tracked (omega (arith, kept))
              (λ missing. omega (arith, kept, room missing)),
          cc (max_tracked-take_token (bucket_key ip) refilled ready, same, kept),
        )
