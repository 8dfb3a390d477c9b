-- ===== src/Upload/Quota/Enforced.antt =====
-- The quota of crates/qftp-protocol/src/user.rs against the bytes on disk, over courses of
-- uploads.
use qftp.Prelude.{ℕ, ◌+◌, ◌-◌, ◌^◌, ◌≤◌, ◌<◌, some, List, [], ◌∷◌, ◌++◌, nat_eq, ◌≡◌, ◌∙◌, arith}
use qftp.Upload.Quota.{fetch_add, fetch_sub, Usage, commit_upload}
use qftp.Upload.Quota.Ledger.{
  Live, Account, total, Step, Balances, total-append, fetch_add-small, fetch_sub-small,
}

-- One upload taken out of the list.
total-split :
    (f : Live → ℕ) (before after : List Live) (l : Live)
    → total f (before ++ l ∷ after) ≡ total f (before ++ after) + f l
total-split f before after l =
    omega (arith, total-append f before (l ∷ after), total-append f before after)

module _ (limit : ℕ) (small : limit < 2 ^ 63) where
  module _ (u : Usage) (stored : ℕ) (before after : List Live) (l : Live)
      (b : Balances limit (record { usage = u; stored = stored; live = before ++ l ∷ after })) where
    release : fetch_sub u.in_flight_bytes l.reserved ≡ total (λ l. l.reserved) (before ++ after)
    release =
        fetch_sub-small u.in_flight_bytes l.reserved (omega (arith, b.within))
          (omega (arith, b.in_flight, total-split (λ l. l.reserved) before after l))
        ∙ omega (arith, b.in_flight, total-split (λ l. l.reserved) before after l)

-- The accounts that a server reaches from a user's files at its start: nothing is under way, and the
-- counter is the size of the files.
pub data Reached (limit size : ℕ) : Account → Type 0 where
  start : Reached limit size (record {
    usage = record { used_bytes = size; in_flight_bytes = 0; quota_bytes = some limit };
    stored = size;
    live = [];
  })
  further : {a c : Account} → Reached limit size a → Step a c → Reached limit size c

-- The commit of an upload over an existing file charges the upload in full and refunds nothing: what
-- the counter claims beyond the bytes on disk grows by the size of the file that was overwritten.
pub overwrite_drifts :
    (limit : ℕ)
    → limit < 2 ^ 63
    → (u : Usage) (stored overwritten : ℕ) (before after : List Live) (l : Live)
    → overwritten ≤ stored
    → Balances limit (record { usage = u; stored = stored; live = before ++ l ∷ after })
    → (commit_upload l.reserved u).used_bytes - (stored + l.reserved - overwritten)
      ≡ u.used_bytes - stored + overwritten
unfolding commit_upload
overwrite_drifts limit small u stored overwritten before after l enough b =
    let add : fetch_add u.used_bytes l.reserved ≡ u.used_bytes + l.reserved =
      fetch_add-small u.used_bytes l.reserved
        (omega (arith, b.within, b.in_flight, total-split (λ l. l.reserved) before after l)) in
    omega (arith, add, b.charged)
