-- ===== src/Limits/Tests.antt =====
-- Runs of the limits on a few addresses.
use qftp.Prelude.{
  ℕ, ◌+◌, ◌-◌, ◌*◌, ◌/◌, ◌≤◌, min, true, false, none, List, [], ◌∷◌, length, All, leb, lookup,
  insert, Assoc, ◌==◌, nat_eq, list_eq, list_beq_iff, ◌≡◌, ◌≢◌, refl, arith,
}
use qftp.Limits.{
  IpAddr, v4, v6, IpKey, bucket_key, Caps, ConnectionCounter, no_connections, try_acquire, release,
}
use qftp.Limits.Slots.{
  Counts, IsWithinCaps, close_one, acquired, gave_back, refused, Reached, start, further,
  Reached-Counts,
}
use qftp.Limits.Rate.{Floats, Bucket, RateLimiter, new_limiter, try_consume}
use qftp.Limits.Rate.Table.{IsIteration, length-try_consume-le}
use qftp.Limits.Rate.Tokens.{IsBurst, IsFilled, try_consume-IsFilled}

abbrev host : IpAddr
host = v4 (10 ∷ 0 ∷ 0 ∷ 1 ∷ [])

abbrev net : IpAddr
net = v6 (32 ∷ 1 ∷ 13 ∷ 184 ∷ 0 ∷ 0 ∷ 0 ∷ 1 ∷ 0 ∷ 0 ∷ 0 ∷ 0 ∷ 0 ∷ 0 ∷ 0 ∷ 9 ∷ [])

abbrev caps : Caps
caps = record { max_total_connections = 2; max_per_ip_connections = 1 }

abbrev one_connection : ConnectionCounter
one_connection = (try_acquire caps host no_connections).1

accepted : (try_acquire caps host no_connections).0 ≡ true
unfolding try_acquire lookup
accepted = refl

-- The second connection of the host is refused, and the first is closed.
second_refused : (try_acquire caps host one_connection).0 ≡ false
unfolding try_acquire lookup insert
second_refused = refl

one-Reached : Reached caps one_connection (bucket_key host ∷ [])
one-Reached = further start (acquired host no_connections [] accepted)

closed-Reached :
    Reached caps
      (release host (try_acquire caps host one_connection).1)
      (close_one (bucket_key host) (bucket_key host ∷ []))
unfolding bucket_key
closed-Reached =
    further
      (further one-Reached (refused host one_connection (bucket_key host ∷ []) second_refused))
      (gave_back host (try_acquire caps host one_connection).1 (bucket_key host ∷ []) (omega arith))

Reached-Counts_example :
    Counts
      (release host (try_acquire caps host one_connection).1)
      (close_one (bucket_key host) (bucket_key host ∷ []))
    × IsWithinCaps caps (close_one (bucket_key host) (bucket_key host ∷ []))
Reached-Counts_example =
    Reached-Counts caps (release host (try_acquire caps host one_connection).1)
      (close_one (bucket_key host) (bucket_key host ∷ [])) closed-Reached

one_Counts : Counts one_connection (bucket_key host ∷ [])
one_Counts = (Reached-Counts caps one_connection (bucket_key host ∷ []) one-Reached).0

-- Whole tokens: arithmetic on ℕ, a nanosecond for a second.
abbrev whole : Floats ℕ
whole = record {
  add = λ a b. a + b;
  mul = λ a b. a * b;
  sub = λ a b. a - b;
  lesser = min;
  at_least = λ a b. leb b a;
  one = 1;
  seconds = λ n. n;
  le_zero = λ a. a == 0;
  millis_per = λ a. 1000 / a;
}

abbrev in_order : Assoc IpKey (Bucket ℕ) → List (IpKey × Bucket ℕ)
in_order m = m

still_visited :
    (held : IpKey × Bucket ℕ) (m rest : Assoc IpKey (Bucket ℕ))
    → All (λ e. lookup e.0 m ≢ none) rest
    → All (λ e. lookup e.0 (held ∷ m) ≢ none) rest
unfolding lookup
still_visited held m [] h = tt
still_visited held m (e ∷ rest) h = (ground (arith, h.0), still_visited held m rest h.1)

in_order_visits : (m : Assoc IpKey (Bucket ℕ)) → All (λ e. lookup e.0 m ≢ none) m
unfolding lookup
in_order_visits [] = tt
in_order_visits ((key, bucket) ∷ m) =
    (ground (arith, list_beq_iff key key), still_visited (key, bucket) m m (in_order_visits m))

in_order-IsIteration : IsIteration in_order
in_order-IsIteration = record { visits = in_order_visits; nonempty = λ m h. h }

abbrev limiter : RateLimiter ℕ
limiter = new_limiter 1 3 0

length-try_consume-le_example :
    (length (try_consume whole in_order 5 host limiter).1.buckets ≤ 4096)
    × ((try_consume whole in_order 5 host limiter).1.max_tracked ≡ 4096)
unfolding new_limiter
length-try_consume-le_example =
    length-try_consume-le whole in_order in_order-IsIteration 5 host limiter (omega arith)
      (omega arith)

three-IsBurst : IsBurst whole 3
three-IsBurst = record {
  reflexive = refl;
  lesser_le = λ a. ground arith;
  sub_le = λ a h. ground arith;
}

try_consume-IsFilled_example :
    All (IsFilled whole 3) (try_consume whole in_order 5 host limiter).1.buckets
    × ((try_consume whole in_order 5 host limiter).1.burst ≡ 3)
unfolding new_limiter
try_consume-IsFilled_example = try_consume-IsFilled whole in_order 5 host limiter three-IsBurst tt
