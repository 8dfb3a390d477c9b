-- ===== src/Limits/Slots.antt =====
-- The connection counter of crates/qftp-server/src/limits.rs against the list of the connections
-- that hold a slot.
use qftp.Prelude.{
  ℕ, suc, ◌-◌, ◌≤◌, ◌<◌, true, false, List, [], ◌∷◌, length, ◌==◌, nat_eq, list_eq, list_beq_iff,
  if◌then◌else◌, lookup, lookup-insert, lookup-remove, ◌≡◌, ◌↔◌, refl, arith, Option-cases, inl,
  inr,
}
use qftp.Limits.{
  IpAddr, IpKey, bucket_key, Caps, ConnectionCounter, no_connections, count_of, try_acquire,
  release,
}

-- How many of the live connections have the key.
abbrev pub occurrences : IpKey → List IpKey → ℕ
occurrences k [] = 0
occurrences k (j ∷ live) = if j == k then suc (occurrences k live) else occurrences k live

-- The list without one connection of the key.
abbrev pub close_one : IpKey → List IpKey → List IpKey
close_one k [] = []
close_one k (j ∷ live) = elim (j == k) [ true ↦ live | false ↦ j ∷ close_one k live ]

-- The counter counts the live connections, in all and for each key.
pub record Counts (c : ConnectionCounter) (live : List IpKey) : Type 0 where
  pub in_all : c.total ≡ length live
  pub per_key : (k : IpKey) → count_of (lookup k c.per_ip) ≡ occurrences k live

pub record IsWithinCaps (caps : Caps) (live : List IpKey) : Type 0 where
  pub in_all : length live ≤ caps.max_total_connections
  pub per_key : (k : IpKey) → occurrences k live ≤ caps.max_per_ip_connections

-- What happens to the counter over the life of a server: a connection gets a slot, is refused one,
-- or a live one gives its slot back (its guard is dropped armed, or it was committed and the
-- connection is reaped).
pub data Step (caps : Caps)
    : ConnectionCounter → List IpKey → ConnectionCounter → List IpKey → Type 0 where
  acquired :
      (ip : IpAddr) (c : ConnectionCounter) (live : List IpKey)
      → (try_acquire caps ip c).0 ≡ true
      → Step caps c live (try_acquire caps ip c).1 (bucket_key ip ∷ live)
  refused :
      (ip : IpAddr) (c : ConnectionCounter) (live : List IpKey)
      → (try_acquire caps ip c).0 ≡ false
      → Step caps c live (try_acquire caps ip c).1 live
  gave_back :
      (ip : IpAddr) (c : ConnectionCounter) (live : List IpKey)
      → 0 < occurrences (bucket_key ip) live
      → Step caps c live (release ip c) (close_one (bucket_key ip) live)

-- The states that a server reaches from its start.
pub data Reached (caps : Caps) : ConnectionCounter → List IpKey → Type 0 where
  start : Reached caps no_connections []
  further :
      {c d : ConnectionCounter} {live after : List IpKey}
      → Reached caps c live
      → Step caps c live d after
      → Reached caps d after

occurrences-le : (k : IpKey) (live : List IpKey) → occurrences k live ≤ length live
occurrences-le k [] = omega arith
occurrences-le k (j ∷ live) = ground (arith, occurrences-le k live)

length-close_one :
    (k : IpKey) (live : List IpKey)
    → 0 < occurrences k live
    → length (close_one k live) ≡ length live - 1
length-close_one k [] h = omega arith
length-close_one k (j ∷ live) h = ground (arith, length-close_one k live, occurrences-le k live)

occurrences-close_one :
    (k j : IpKey) (live : List IpKey)
    → occurrences j (close_one k live)
      ≡ (if k == j then occurrences j live - 1 else occurrences j live)
occurrences-close_one k j [] = ground arith
occurrences-close_one k j (i ∷ live) =
    ground
      (arith, list_beq_iff k j, list_beq_iff i k, list_beq_iff i j, occurrences-close_one k j live)

module _ (caps : Caps) (ip : IpAddr) (c : ConnectionCounter) (live : List IpKey)
    (counts : Counts c live) where
  Counts-acquired :
      (try_acquire caps ip c).0 ≡ true → Counts (try_acquire caps ip c).1 (bucket_key ip ∷ live)
  unfolding try_acquire
  Counts-acquired h = record {
    in_all = ground (arith, counts.in_all);
    per_key = λ k. ground (
      arith,
      counts.per_key k,
      counts.per_key (bucket_key ip),
      lookup-insert (bucket_key ip) k (suc (count_of (lookup (bucket_key ip) c.per_ip))) c.per_ip,
      list_beq_iff (bucket_key ip) k,
    );
  }

  Counts-refused : (try_acquire caps ip c).0 ≡ false → Counts (try_acquire caps ip c).1 live
  unfolding try_acquire
  Counts-refused h = record {
    in_all = ground (arith, counts.in_all);
    per_key = λ k. ground (
      arith,
      counts.per_key k,
      lookup-insert (bucket_key ip) k (count_of (lookup (bucket_key ip) c.per_ip)) c.per_ip,
      list_beq_iff (bucket_key ip) k,
    );
  }

  Counts-release :
      0 < occurrences (bucket_key ip) live → Counts (release ip c) (close_one (bucket_key ip) live)
  unfolding release
  Counts-release h = record {
    in_all = omega (arith, counts.in_all, length-close_one (bucket_key ip) live h);
    per_key = λ k. elim (Option-cases (lookup (bucket_key ip) c.per_ip)) [
      | inl e ↦ absurd (ground (arith, counts.per_key (bucket_key ip), e))
      | inr (n, e) ↦ ground (
        arith,
        e,
        counts.per_key k,
        counts.per_key (bucket_key ip),
        occurrences-close_one (bucket_key ip) k live,
        lookup-insert (bucket_key ip) k (n - 1) c.per_ip,
        lookup-remove (bucket_key ip) k c.per_ip,
        list_beq_iff (bucket_key ip) k,
      )
    ];
  }

-- A slot is handed out exactly when fewer connections than the server's cap are live, and fewer
-- than the cap of the address's bucket.
pub try_acquire_iff :
    (caps : Caps) (ip : IpAddr) (c : ConnectionCounter) (live : List IpKey)
    → Counts c live
    → ((try_acquire caps ip c).0 ≡ true) ↔ (
        (length live < caps.max_total_connections)
        × (occurrences (bucket_key ip) live < caps.max_per_ip_connections))
unfolding try_acquire
try_acquire_iff caps ip c live counts =
    ground (arith, counts.in_all, counts.per_key (bucket_key ip))

occurrences-close_one-le :
    (k j : IpKey) (live : List IpKey) → occurrences j (close_one k live) ≤ occurrences j live
occurrences-close_one-le k j live = ground (arith, occurrences-close_one k j live)

length-close_one-le : (k : IpKey) (live : List IpKey) → length (close_one k live) ≤ length live
length-close_one-le k [] = omega arith
length-close_one-le k (j ∷ live) = ground (arith, length-close_one-le k live)

Step-keeps :
    (caps : Caps) {c d : ConnectionCounter} {live after : List IpKey}
    → Step caps c live d after
    → Counts c live × IsWithinCaps caps live
    → Counts d after × IsWithinCaps caps after
Step-keeps caps (acquired ip c live h) (counts, within) =
    let (room, room_here) = (try_acquire_iff caps ip c live counts).0 h in
    (
      Counts-acquired caps ip c live counts h,
      record {
        in_all = omega arith;
        per_key = λ k. ground (arith, within.per_key k, list_beq_iff (bucket_key ip) k);
      },
    )
Step-keeps caps (refused ip c live h) (counts, within) =
    (Counts-refused caps ip c live counts h, within)
Step-keeps caps (gave_back ip c live h) (counts, within) = (
  Counts-release caps ip c live counts h,
  record {
    in_all = omega (arith, within.in_all, length-close_one-le (bucket_key ip) live);
    per_key = λ k. omega (arith, within.per_key k, occurrences-close_one-le (bucket_key ip) k live);
  },
)

-- However slots are asked for, refused and given back, the counter counts exactly the connections
-- that are live, in all and in each bucket, and their numbers stay within both caps.
pub Reached-Counts :
    (caps : Caps) (c : ConnectionCounter) (live : List IpKey)
    → Reached caps c live
    → Counts c live × IsWithinCaps caps live
unfolding lookup
Reached-Counts caps c live start = (
  record { in_all = refl; per_key = λ k. refl },
  record { in_all = omega arith; per_key = λ k. omega arith },
)
Reached-Counts caps c live (further r s) = Step-keeps caps s (Reached-Counts caps _ _ r)
