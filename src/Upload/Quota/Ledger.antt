-- ===== src/Upload/Quota/Ledger.antt =====
-- The quota counters of crates/qftp-protocol/src/user.rs against the bytes that a user has on disk,
-- over every course of uploads, deletions and overwrites.
use qftp.Prelude.{
  ℕ, ◌+◌, ◌-◌, ◌^◌, ◌≤◌, ◌<◌, true, false, some, List, [], ◌∷◌, ◌++◌, ltb, nat_eq, ◌≡◌, ◌⊎◌, inl,
  inr, Bool-cases, ◌∙◌, arith,
}
use qftp.Upload.Quota.{
  word, max_file_size, fetch_add, fetch_sub, saturating_add, Usage, reserve, drop_reservation,
  refund, admit, reject_upload, commit_upload, drop_upload,
}

-- An upload that is under way: the bytes it reserved, those of them that have not arrived, and the
-- bytes of the partial file that it resumes.
pub record Live : Type 0 where
  pub reserved : ℕ
  pub remaining : ℕ
  pub prior : ℕ

-- The counters, the bytes at rest on disk (complete files, and partial files up to where an upload
-- found them), and the uploads under way.
pub record Account : Type 0 where
  pub usage : Usage
  pub stored : ℕ
  pub live : List Live

abbrev pub total : (Live → ℕ) → List Live → ℕ
total f [] = 0
total f (u ∷ us) = f u + total f us

abbrev pub received : Live → ℕ
received u = u.reserved - u.remaining

-- All bytes on disk.
abbrev pub on_disk : Account → ℕ
on_disk a = a.stored + total received a.live

-- What may happen. A fresh upload truncates the partial file that an earlier one left, which is
-- refunded, and then reserves its size; a resumed one keeps the file. A file that is removed or
-- overwritten is none that an upload resumes.
pub data Step : Account → Account → Type 0 where
  fresh :
      (u : Usage) (stored stale size : ℕ) (live : List Live)
      → size ≤ max_file_size
      → stale + total (λ l. l.prior) live ≤ stored
      → (admit size (refund stale u)).0 ≡ true
      → Step
          (record { usage = u; stored = stored; live = live })
          (record {
            usage = (admit size (refund stale u)).1;
            stored = stored - stale;
            live = record { reserved = size; remaining = size; prior = 0 } ∷ live;
          })
  fresh_refused :
      (u : Usage) (stored stale size : ℕ) (live : List Live)
      → size ≤ max_file_size
      → stale + total (λ l. l.prior) live ≤ stored
      → (admit size (refund stale u)).0 ≡ false
      → Step
          (record { usage = u; stored = stored; live = live })
          (record { usage = (admit size (refund stale u)).1; stored = stored - stale; live = live })
  resumed :
      (u : Usage) (stored offset size : ℕ) (live : List Live)
      → size ≤ max_file_size
      → offset + total (λ l. l.prior) live ≤ stored
      → (admit size u).0 ≡ true
      → Step
          (record { usage = u; stored = stored; live = live })
          (record {
            usage = (admit size u).1;
            stored = stored;
            live = record { reserved = size; remaining = size; prior = offset } ∷ live;
          })
  resume_refused :
      (u : Usage) (stored size : ℕ) (live : List Live)
      → size ≤ max_file_size
      → (admit size u).0 ≡ false
      → Step
          (record { usage = u; stored = stored; live = live })
          (record { usage = (admit size u).1; stored = stored; live = live })
  arrived :
      (u : Usage) (stored n : ℕ) (before after : List Live) (l : Live)
      → n ≤ l.remaining
      → Step
          (record { usage = u; stored = stored; live = before ++ l ∷ after })
          (record {
            usage = u;
            stored = stored;
            live = before ++ record l { remaining = l.remaining - n } ∷ after;
          })
  committed :
      (u : Usage) (stored overwritten : ℕ) (before after : List Live) (l : Live)
      → l.remaining ≡ 0
      → overwritten + total (λ l. l.prior) (before ++ l ∷ after) ≤ stored
      → Step
          (record { usage = u; stored = stored; live = before ++ l ∷ after })
          (record {
            usage = commit_upload l.reserved u;
            stored = stored + l.reserved - overwritten;
            live = before ++ after;
          })
  rejected :
      (u : Usage) (stored : ℕ) (before after : List Live) (l : Live)
      → Step
          (record { usage = u; stored = stored; live = before ++ l ∷ after })
          (record {
            usage = reject_upload l.reserved l.prior u;
            stored = stored - l.prior;
            live = before ++ after;
          })
  aborted :
      (u : Usage) (stored : ℕ) (before after : List Live) (l : Live)
      → Step
          (record { usage = u; stored = stored; live = before ++ l ∷ after })
          (record {
            usage = drop_upload false l.remaining l.reserved u;
            stored = stored + received l;
            live = before ++ after;
          })
  removed :
      (u : Usage) (stored size : ℕ) (live : List Live)
      → size + total (λ l. l.prior) live ≤ stored
      → Step
          (record { usage = u; stored = stored; live = live })
          (record { usage = refund size u; stored = stored - size; live = live })

-- The books balance, under a quota of `limit` bytes.
pub record Balances (limit : ℕ) (a : Account) : Type 0 where
  pub quota : a.usage.quota_bytes ≡ some limit
  pub in_flight : a.usage.in_flight_bytes ≡ total (λ l. l.reserved) a.live
  pub charged : a.stored ≤ a.usage.used_bytes
  pub within : a.usage.used_bytes + a.usage.in_flight_bytes ≤ limit
  pub priors : total (λ l. l.prior) a.live ≤ a.stored

pub total-append :
    (f : Live → ℕ) (before after : List Live)
    → total f (before ++ after) ≡ total f before + total f after
total-append f [] after = omega arith
total-append f (u ∷ us) after = omega (arith, total-append f us after)

pub fetch_add-small : (a n : ℕ) → a + n < word → fetch_add a n ≡ a + n
unfolding fetch_add
fetch_add-small a n h = omega arith

pub fetch_sub-small : (a n : ℕ) → a < word → n ≤ a → fetch_sub a n ≡ a - n
unfolding fetch_sub
fetch_sub-small a n small h = omega arith

module _ (limit : ℕ) (small : limit < 2 ^ 63) (u : Usage) (quota : u.quota_bytes ≡ some limit)
    (within : u.used_bytes + u.in_flight_bytes ≤ limit) where
  pub admit-cases :
      (size : ℕ)
      → size ≤ max_file_size
      → (((admit size u).0 ≡ true)
          × ((admit size u).1 ≡ record u { in_flight_bytes = u.in_flight_bytes + size })
          × (u.used_bytes + u.in_flight_bytes + size ≤ limit))
        ⊎ (((admit size u).0 ≡ false) × ((admit size u).1 ≡ u))
  unfolding admit reserve drop_reservation saturating_add
  admit-cases size fits =
      let add : fetch_add u.in_flight_bytes size ≡ u.in_flight_bytes + size =
        fetch_add-small u.in_flight_bytes size (omega arith) in
      let back : fetch_sub (u.in_flight_bytes + size) size ≡ u.in_flight_bytes =
        fetch_sub-small (u.in_flight_bytes + size) size (omega arith) (omega arith) ∙ omega arith in
      elim (Bool-cases (ltb limit (u.used_bytes + u.in_flight_bytes + size))) [
        | inl over ↦ inr (ground (arith, add, back, quota))
        | inr fine ↦ inl (ground (arith, add, quota))
      ]
