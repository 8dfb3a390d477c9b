-- ===== src/Limits.antt =====
-- crates/qftp-server/src/limits.rs: the keys of addresses, the connection counter and the rate
-- limiter.
pub mod Keys
pub mod Slots
pub mod Rate
mod Tests
use qftp.Prelude.{
  ℕ, suc, ◌+◌, ◌-◌, Bytes, Bool, true, false, Option, none, some, List, [], ◌∷◌, ◌++◌, map, ◌==◌,
  nat_eq, list_eq, leb, if◌then◌else◌, Assoc, lookup, insert, remove, take, drop, replicate,
}

-- `std::net::IpAddr`, by its octets
pub data IpAddr : Type 0 where
  v4 v6 : (octets : Bytes) → IpAddr

abbrev pub IpKey : Type 0
IpKey = Bytes

-- An IPv4 address counts as itself, in its mapped form; of an IPv6 address the first eight octets
-- count.
unfoldable pub bucket_key : IpAddr → IpKey
bucket_key (v4 octets) = replicate 10 0 ++ 255 ∷ 255 ∷ octets
bucket_key (v6 octets) = take 8 octets ++ map {B = ℕ} (λ b. 0) (drop 8 octets)

pub record Caps : Type 0 where
  pub max_total_connections : ℕ
  pub max_per_ip_connections : ℕ

pub record ConnectionCounter : Type 0 where
  pub total : ℕ
  pub per_ip : Assoc IpKey ℕ

abbrev pub no_connections : ConnectionCounter
no_connections = record { total = 0; per_ip = [] }

abbrev pub count_of : Option ℕ → ℕ
count_of none = 0
count_of (some n) = n

-- Whether a slot was handed out, and the counter after it. `entry(key).or_insert(0)` leaves an entry
-- behind also where the address is refused.
unfoldable pub try_acquire : Caps → IpAddr → ConnectionCounter → Bool × ConnectionCounter
unfolding bucket_key
try_acquire caps ip c =
    let key = bucket_key ip in
    let entry = count_of (lookup key c.per_ip) in
    if leb caps.max_total_connections c.total
    then (false, c)
    else if leb caps.max_per_ip_connections entry
    then (false, record c { per_ip = insert key entry c.per_ip })
    else (true, record { total = suc c.total; per_ip = insert key (suc entry) c.per_ip })

abbrev release_key : IpKey → Option ℕ → Assoc IpKey ℕ → Assoc IpKey ℕ
release_key key none per_ip = per_ip
release_key key (some n) per_ip =
    if n - 1 == 0 then remove key per_ip else insert key (n - 1) per_ip

unfoldable pub release : IpAddr → ConnectionCounter → ConnectionCounter
unfolding bucket_key
release ip c =
    let key = bucket_key ip in
    record { total = c.total - 1; per_ip = release_key key (lookup key c.per_ip) c.per_ip }

-- `Drop` of a `ConnectionSlot`; `commit` is what disarms it.
unfoldable pub drop_slot : (armed : Bool) → IpAddr → ConnectionCounter → ConnectionCounter
unfolding release
drop_slot armed ip c = if armed then release ip c else c
