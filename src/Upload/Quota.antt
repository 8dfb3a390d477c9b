-- ===== src/Upload/Quota.antt =====
-- The quota of a user: the counters of crates/qftp-protocol/src/user.rs, and how
-- crates/qftp-server/src/transfer_put.rs, crates/qftp-protocol/src/stream.rs and
-- crates/qftp-protocol/src/handler.rs move them over the life of an upload.
pub mod Ledger
pub mod Enforced
use qftp.Prelude.{
  ℕ, ◌+◌, ◌-◌, ◌*◌, ◌%◌, ◌^◌, min, Bool, true, false, Option, none, some, ltb, ◌==◌, nat_eq,
  if◌then◌else◌,
}

abbrev pub word : ℕ
word = 2 ^ 64

abbrev pub max_file_size : ℕ
max_file_size = 1024 * 1024 * 1024

-- `AtomicU64::fetch_add` and `fetch_sub` wrap around.
unfoldable pub fetch_add : ℕ → ℕ → ℕ
fetch_add a n = (a + n) % word

unfoldable pub fetch_sub : ℕ → ℕ → ℕ
fetch_sub a n = (a + word - n) % word

unfoldable pub saturating_add : ℕ → ℕ → ℕ
saturating_add a n = min (a + n) (word - 1)

-- The counters of `User`.
pub record Usage : Type 0 where
  pub used_bytes : ℕ
  pub in_flight_bytes : ℕ
  pub quota_bytes : Option ℕ

unfoldable pub current_usage : Usage → ℕ
unfolding saturating_add
current_usage u = saturating_add u.used_bytes u.in_flight_bytes

-- `InFlightReservation::reserve`
unfoldable pub reserve : ℕ → Usage → Usage
unfolding fetch_add
reserve bytes u = record u { in_flight_bytes = fetch_add u.in_flight_bytes bytes }

-- `Drop` of an `InFlightReservation`
unfoldable pub drop_reservation : (armed : Bool) → ℕ → Usage → Usage
unfolding fetch_sub
drop_reservation armed bytes u =
    if armed then record u { in_flight_bytes = fetch_sub u.in_flight_bytes bytes } else u

-- The refund of `fetch_update(.. saturating_sub ..)`, made when there is something to refund.
unfoldable pub refund : ℕ → Usage → Usage
refund bytes u = if bytes == 0 then u else record u { used_bytes = u.used_bytes - bytes }

abbrev over_quota : Option ℕ → ℕ → Bool
over_quota none projected = false
over_quota (some limit) projected = ltb limit projected

-- The reservation and the quota check of `start_put`: whether the upload is accepted, and the
-- counters. A refusal drops the reservation, which is still armed.
unfoldable pub admit : ℕ → Usage → Bool × Usage
unfolding reserve drop_reservation saturating_add
admit new_bytes u =
    let reserved = reserve new_bytes u in
    let projected = saturating_add reserved.used_bytes reserved.in_flight_bytes in
    if over_quota u.quota_bytes projected
    then (false, drop_reservation true new_bytes reserved)
    else (true, reserved)

-- The counters in `cleanup_rejected_upload`
unfoldable pub reject_upload : (reserved_bytes prior_bytes : ℕ) → Usage → Usage
unfolding fetch_sub refund
reject_upload reserved_bytes prior_bytes u =
    refund prior_bytes (record u { in_flight_bytes = fetch_sub u.in_flight_bytes reserved_bytes })

-- The counters at the end of a successful `drive_put`
unfoldable pub commit_upload : (reserved_bytes : ℕ) → Usage → Usage
unfolding fetch_sub fetch_add
commit_upload reserved_bytes u = record u {
  in_flight_bytes = fetch_sub u.in_flight_bytes reserved_bytes;
  used_bytes = fetch_add u.used_bytes reserved_bytes;
}

-- `Drop` of a `StreamState`: what was received of an upload that did not complete is charged.
unfoldable pub drop_upload : (completed : Bool) → (remaining reserved_bytes : ℕ) → Usage → Usage
unfolding fetch_sub fetch_add
drop_upload completed remaining reserved_bytes u =
    let written = reserved_bytes - remaining in
    let released : Usage = record u {
      in_flight_bytes = fetch_sub u.in_flight_bytes reserved_bytes;
    } in
    if completed
    then u
    else if written == 0
    then released
    else record released { used_bytes = fetch_add released.used_bytes written }
