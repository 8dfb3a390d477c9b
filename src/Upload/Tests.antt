-- ===== src/Upload/Tests.antt =====
-- Uploads on small inputs.
use qftp.Prelude.{◌+◌, ◌-◌, bytes, none, some, [], ◌∷◌, All, nat_eq, list_eq, ◌≡◌, ◌≢◌, refl, arith}
use qftp.Paths.{FilePath, file_name}
use qftp.Upload.Quota.{Usage, commit_upload}
use qftp.Upload.Quota.Ledger.{Account, Balances}
use qftp.Upload.Quota.Enforced.{Reached, start, further, overwrite_drifts}
use qftp.Upload.Claims.{try_claim}
use qftp.Upload.Claims.Exclusive.{
  Reached as Claimed, start as unclaimed, further as next, began, IsDistinct, temp_paths,
  Reached-IsDistinct,
}

-- A user with a quota of 100 bytes and 40 bytes on disk uploads 60 and overwrites a file of 10.
abbrev at_start : Usage
at_start = record { used_bytes = 40; in_flight_bytes = 0; quota_bytes = some 100 }

abbrev uploading : Account
uploading = record {
  usage = record at_start { in_flight_bytes = 60 };
  stored = 40;
  live = record { reserved = 60; remaining = 60; prior = 0 } ∷ [];
}

uploading-Balances : Balances 100 uploading
uploading-Balances = record {
  quota = refl;
  in_flight = refl;
  charged = omega arith;
  within = omega arith;
  priors = omega arith;
}

overwrite_drifts_example :
    (commit_upload 60 uploading.usage).used_bytes - (40 + 60 - 10)
    ≡ uploading.usage.used_bytes - 40 + 10
overwrite_drifts_example =
    overwrite_drifts 100 (omega arith) uploading.usage 40 10 [] []
      (record { reserved = 60; remaining = 60; prior = 0 }) (omega arith) uploading-Balances

-- Two uploads, the second of them refused, and the first at its end.
abbrev target : FilePath
target = bytes "srv" ∷ bytes "a" ∷ []

abbrev other : FilePath
other = bytes "srv" ∷ bytes "b" ∷ []

both-Claimed : Claimed (try_claim other (try_claim target []).1).1 (other ∷ target ∷ [])
unfolding try_claim
both-Claimed =
    next (next unclaimed (began target [] [] refl))
      (began other (try_claim target []).1 (target ∷ []) refl)

both_named : All (λ p. file_name p ≢ none) (other ∷ target ∷ [])
unfolding file_name
both_named = (λ e. cc, (λ e. cc, tt))

Reached-IsDistinct_example :
    IsDistinct (other ∷ target ∷ []) × IsDistinct (temp_paths (other ∷ target ∷ []))
Reached-IsDistinct_example =
    Reached-IsDistinct (try_claim other (try_claim target []).1).1 (other ∷ target ∷ [])
      both-Claimed both_named
