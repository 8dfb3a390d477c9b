-- ===== src/Limits/Rate.antt =====
-- The rate limiter of crates/qftp-server/src/limits.rs. Its `f64` arithmetic is a parameter.
pub mod Table
pub mod Tokens
use qftp.Prelude.{
  ℕ, zero, suc, ◌+◌, ◌-◌, ◌*◌, ◌^◌, min, max, ◌≤◌, Bool, true, false, Option, none, some, List, [],
  ◌∷◌, length, take, ltb, leb, ◌==◌, nat_eq, list_eq, if◌then◌else◌, Assoc, lookup, insert, remove,
}
use qftp.Limits.{IpAddr, IpKey, bucket_key}

-- The operations on `f64` that the limiter uses: `lesser` is `min`, `seconds` is
-- `Duration::as_secs_f64` of nanoseconds, `le_zero` is `<= 0.0` and `millis_per` is the ceiling of
-- `1000.0 / rps`.
pub record Floats (F : Type 0) : Type 0 where
  pub add : F → F → F
  pub mul : F → F → F
  pub sub : F → F → F
  pub lesser : F → F → F
  pub at_least : F → F → Bool
  pub one : F
  pub seconds : ℕ → F
  pub le_zero : F → Bool
  pub millis_per : F → ℕ

pub record Bucket (F : Type 0) : Type 0 where
  pub tokens : F
  pub last : ℕ

-- Instants and durations are nanoseconds.
pub record RateLimiter (F : Type 0) : Type 0 where
  pub rps : F
  pub burst : F
  pub buckets : Assoc IpKey (Bucket F)
  pub max_tracked : ℕ
  pub sweep_interval : ℕ
  pub last_sweep : ℕ
  pub idle_cutoff : ℕ

abbrev pub evict_sample : ℕ
evict_sample = 8

abbrev pub second : ℕ
second = 1000000000

-- `RateLimiter::new` at an instant
unfoldable pub new_limiter : {F : Type 0} → F → F → ℕ → RateLimiter F
new_limiter rps burst now = record {
  rps = rps;
  burst = burst;
  buckets = [];
  max_tracked = 4096;
  sweep_interval = 60 * second;
  last_sweep = now;
  idle_cutoff = 300 * second;
}

-- `HashMap::retain`
unfoldable pub retain : {V : Type 0} → (V → Bool) → Assoc IpKey V → Assoc IpKey V
retain keep [] = []
retain keep ((key, value) ∷ others) =
    let kept = retain keep others in if keep value then (key, value) ∷ kept else kept

-- `min_by_key(|(_, b)| b.last)`: of several oldest, the first
unfoldable pub oldest : {F : Type 0} → List (IpKey × Bucket F) → Option (IpKey × Bucket F)
oldest [] = none
oldest ((key, bucket) ∷ others) = elim (oldest others) [
  | none ↦ some (key, bucket)
  | some (other, younger) ↦
      if ltb younger.last bucket.last then some (other, younger) else some (key, bucket)
]

module _ {F : Type 0} (floats : Floats F)
    (iter : Assoc IpKey (Bucket F) → List (IpKey × Bucket F)) where
  unfoldable pub maybe_sweep : ℕ → RateLimiter F → RateLimiter F
  unfolding retain
  maybe_sweep now l = if ltb (now - l.last_sweep) l.sweep_interval then l else record l {
    last_sweep = now;
    buckets = retain (λ b. ltb (now - b.last) l.idle_cutoff) l.buckets;
  }

  unfoldable pub retry_after_millis : RateLimiter F → ℕ
  retry_after_millis l =
      if floats.le_zero l.rps then 1000 else min (max 1 (floats.millis_per l.rps)) (2 ^ 32 - 1)

  abbrev evict : Option (IpKey × Bucket F) → RateLimiter F → RateLimiter F
  evict none l = l
  evict (some (key, bucket)) l = record l { buckets = remove key l.buckets }

  -- `iter` is the order in which the map iterates.
  unfoldable pub make_room_for : IpKey → RateLimiter F → RateLimiter F
  unfolding oldest
  make_room_for key l =
      if ltb (length l.buckets) l.max_tracked then l else elim (lookup key l.buckets) [
        | some bucket ↦ l
        | none ↦ evict (oldest (take evict_sample (iter l.buckets))) l
      ]

  abbrev bucket_or_new : F → ℕ → Option (Bucket F) → Bucket F
  bucket_or_new burst now none = record { tokens = burst; last = now }
  bucket_or_new burst now (some b) = b

  -- The bucket at `now`, refilled
  abbrev pub refill : RateLimiter F → ℕ → Bucket F → Bucket F
  refill l now b = record {
    tokens =
        floats.lesser (floats.add b.tokens (floats.mul (floats.seconds (now - b.last)) l.rps))
          l.burst;
    last = now;
  }

  abbrev take_token : IpKey → Bucket F → RateLimiter F → Bool × RateLimiter F
  take_token key b l =
      if floats.at_least b.tokens floats.one
      then (
        true,
        record l {
          buckets = insert key (record b { tokens = floats.sub b.tokens floats.one }) l.buckets;
        },
      )
      else (false, record l { buckets = insert key b l.buckets })

  unfoldable pub try_consume : ℕ → IpAddr → RateLimiter F → Bool × RateLimiter F
  unfolding bucket_key maybe_sweep make_room_for
  try_consume now ip l =
      let key = bucket_key ip in
      let ready = make_room_for key (maybe_sweep now l) in
      take_token key (refill ready now (bucket_or_new ready.burst now (lookup key ready.buckets)))
        ready
