-- ===== src/Upload/Driver/Start/Served.antt =====
-- The destination of the upload of a stream, from `start_put` of crates/qftp-server/src/transfer_put.rs on.
use qftp.Prelude.{
  ℕ, ◌+◌, ◌-◌, ◌≤◌, ◌<◌, ◌^◌, Bytes, Bool, true, false, ◌&&◌, Option, none, some, List, [], ◌∷◌,
  length, take, drop, ◌==◌, nat_eq, list_eq, lookup, Result, ok, err, ◌≡◌, ◌≢◌, ◌⊎◌, inl, inr, refl,
  sym, subst, arith, Bool-cases, Option-cases, Result-cases,
}
use qftp.Protocol.Messages.{Response, ok_response}
use qftp.Paths.{FilePath, file_name}
use qftp.Paths.Walk.{resolve_parent}
use qftp.Paths.Recheck.{recheck_ancestors_no_symlinks}
use qftp.Server.Plan.{PutRequest}
use qftp.Upload.Claims.{temp_path_for, try_claim}
use qftp.Upload.Trailer.{TrailerBuf}
use qftp.Upload.Decoder.{Zstd, ZstdDecoder}
use qftp.Upload.Split.{PutOverflow, PutChunkSplit}
use qftp.Upload.Driver.{
  PutError, no_file_name, destination_exists, upload_in_progress, put_overflow_err, RecvEncoding,
  identity_body, zstd_body, ResumeRehash, Upload, World, StreamRecv, Env, Exit, waiting, answer,
  Put, take_body, feed_zstd_put_chunk,
}
use qftp.Upload.Driver.Drive
use qftp.Upload.Driver.Drive.{is_there}
use qftp.Upload.Driver.Sound.{
  IsReady, IsHashing, IsOpen, IsAnswered, IsGood, refusal-ne-ok, take_body-IsGood,
  feed_zstd_put_chunk-IsGood, rejected-IsGood,
}
use qftp.Upload.Driver.Steps.{refused, classify-fits, keep_trailer-Ready}
use qftp.Upload.Driver.Committed.{drive_put-IsDriven, IsDriven}
use qftp.Upload.Driver.Start.{
  StartEnv, Store, check_request, take_leftover, leftover_of, leftover_split, keep_body,
  leftover_zstd, driven, settled, started, claimed, to_path, start_put, Stream,
}
use qftp.Upload.Driver.Start.Begun.{temp_path_for-ne, begin_put-IsBegun, IsBegun}

check_request-small : (req : PutRequest) → check_request req ≡ none → req.offset < 2 ^ 64 - 1
unfolding check_request
check_request-small req h = ground (arith, h)

module _ {Z : Type 0} (z : Zstd Z) (hash : Bytes → Bytes) (text : PutError → Bytes) where
  module _ (env : Env) (final : FilePath) (before : Option Bytes) (total : ℕ) where
    abbrev Open : Put Z → Type 0
    Open = IsOpen hash final before total

    -- What is owed to the bytes that came with the request
    abbrev IsTaken : Result Exit (Unit {0}) × Put Z → Type 0
    IsTaken (ok a, p) = Open p
    IsTaken (err waiting, p) = Open p
    IsTaken (err (answer resp), p) = IsAnswered hash final before total resp p

    good-IsTaken :
        (s : Result Exit (Unit {0}) × Put Z) → IsGood hash final before total s → IsTaken s
    good-IsTaken (ok a, p) g = inl g
    good-IsTaken (err waiting, p) g = g
    good-IsTaken (err (answer resp), p) g = g

    pending-IsOpen :
        (body : Bytes) (rh : ResumeRehash) (u : Upload Z) (w : World)
        → IsHashing hash final before total rh (u, w)
        → Open (record u { rehash = some (record rh { pending_body = body }) }, w)
    pending-IsOpen body rh u w h = inr (
      record rh { pending_body = body },
      record {
        keeps = record { place = h.keeps.place; apart = h.keeps.apart; kept = h.keeps.kept };
        hashing = refl;
        rest = h.rest;
        temp = h.temp;
        unread = h.unread;
        size = h.size;
      },
    )

    keep_body-hashing :
        (body : Bytes) (rh : ResumeRehash) (p : Put Z)
        → IsHashing hash final before total rh p
        → IsTaken (keep_body z hash text env body (some rh) p)
    keep_body-hashing body rh (u, w) h = pending-IsOpen body rh u w h

    keep_body-ready :
        (body : Bytes) (p : Put Z)
        → length body ≤ p.0.remaining
        → IsReady hash final before total p
        → IsTaken (keep_body z hash text env body none p)
    keep_body-ready body p fits r = elim (Bool-cases (length body == 0)) [
      | inl empty ↦ rw empty (inl r)
      | inr more ↦ rw more (
          good-IsTaken (take_body text env body p)
            (take_body-IsGood hash final before total text env body p r fits))
    ]

    keep_trailer-IsHashing :
        (bs : Bytes) (buf : Option TrailerBuf) (rh : ResumeRehash) (p : Put Z)
        → IsHashing hash final before total rh p
        → IsHashing hash final before total rh (Drive.keep_trailer z hash text env bs buf p)
    keep_trailer-IsHashing bs none rh p h = h
    keep_trailer-IsHashing bs (some buf) rh p h = elim (Bool-cases (length bs == 0)) [
      | inl empty ↦ rw empty h
      | inr more ↦ rw more (record {
        keeps = record { place = h.keeps.place; apart = h.keeps.apart; kept = h.keeps.kept };
        hashing = h.hashing;
        rest = h.rest;
        temp = h.temp;
        unread = h.unread;
        size = h.size;
      })
    ]

    keep_trailer-remaining :
        (bs : Bytes) (buf : Option TrailerBuf) (p : Put Z)
        → (Drive.keep_trailer z hash text env bs buf p).0.remaining ≡ p.0.remaining
    keep_trailer-remaining bs none p = refl
    keep_trailer-remaining bs (some buf) p = elim (Bool-cases (length bs == 0)) [
      | inl empty ↦ rw empty refl
      | inr more ↦ rw more refl
    ]

    leftover_split-IsTaken :
        (leftover : Bytes) (split : Result PutOverflow PutChunkSplit) (p : Put Z)
        → ((s : PutChunkSplit) → split ≡ ok s → length (take s.to_body leftover) ≤ p.0.remaining)
        → Open p
        → IsTaken (leftover_split z hash text env leftover split p)
    leftover_split-IsTaken leftover (err o) p fits (inl r) =
        refused z hash text env final before total (Unit {0}) (put_overflow_err o) p r.keeps
    leftover_split-IsTaken leftover (err o) p fits (inr (rh, h)) =
        refused z hash text env final before total (Unit {0}) (put_overflow_err o) p h.keeps
    leftover_split-IsTaken leftover (ok split) (u, w) fits (inl r) =
        let bs = take split.to_trailer (drop split.to_body leftover) in
        subst
          (λ rh. IsTaken (
            keep_body z hash text env (take split.to_body leftover) rh
              (Drive.keep_trailer z hash text env bs u.trailer_buf (u, w))))
          (sym r.prefix_hashed)
          (keep_body-ready (take split.to_body leftover) _
            (omega (arith, keep_trailer-remaining bs u.trailer_buf (u, w), fits split refl))
            (keep_trailer-Ready z hash text env final before total bs u.trailer_buf (u, w) r))
    leftover_split-IsTaken leftover (ok split) (u, w) fits (inr (rh, h)) =
        let bs = take split.to_trailer (drop split.to_body leftover) in
        subst
          (λ rh. IsTaken (
            keep_body z hash text env (take split.to_body leftover) rh
              (Drive.keep_trailer z hash text env bs u.trailer_buf (u, w))))
          (sym h.hashing)
          (keep_body-hashing (take split.to_body leftover) rh _
            (keep_trailer-IsHashing bs u.trailer_buf rh (u, w) h))

    leftover_zstd-IsTaken :
        (leftover : Bytes) (d : ZstdDecoder Z) (p : Put Z)
        → Open p
        → IsTaken (leftover_zstd z hash text env leftover d p.0.rehash p)
    leftover_zstd-IsTaken leftover d (u, w) (inl r) =
        subst (λ rh. IsTaken (leftover_zstd z hash text env leftover d rh (u, w)))
          (sym r.prefix_hashed)
          (good-IsTaken _ (
            rejected-IsGood hash final before total
              (feed_zstd_put_chunk text z env leftover d (u, w))
              (feed_zstd_put_chunk-IsGood hash final before total text env z leftover d (u, w) r)))
    leftover_zstd-IsTaken leftover d (u, w) (inr (rh, h)) =
        subst (λ rh. IsTaken (leftover_zstd z hash text env leftover d rh (u, w))) (sym h.hashing)
          (pending-IsOpen leftover rh u w h)

    leftover_of-IsTaken :
        (leftover : Bytes) (enc : RecvEncoding Z) (p : Put Z)
        → Open p
        → IsTaken (leftover_of z hash text env leftover enc p)
    leftover_of-IsTaken leftover identity_body (u, w) h =
        leftover_split-IsTaken leftover _ (u, w)
          (λ s e. classify-fits z hash text env final before total leftover u.remaining _ _ s e) h
    leftover_of-IsTaken leftover (zstd_body d) (u, w) h = leftover_zstd-IsTaken leftover d (u, w) h

    take_leftover-IsTaken :
        (leftover : Bytes) (p : Put Z) → Open p → IsTaken (take_leftover z hash text env leftover p)
    unfolding take_leftover
    take_leftover-IsTaken [] p h = h
    take_leftover-IsTaken (c ∷ leftover) (u, w) h =
        leftover_of-IsTaken (c ∷ leftover) u.recv_encoding (u, w) h

    driven-IsDriven :
        (answers : List StreamRecv) (s : Result Exit (Unit {0}) × Put Z)
        → IsTaken s
        → IsDriven z hash text env final before total (driven z hash text env answers s)
    driven-IsDriven answers (ok u, p) g =
        drive_put-IsDriven z hash text env final before total answers p g
    driven-IsDriven answers (err waiting, p) g = g
    driven-IsDriven answers (err (answer resp), p) g = g

  -- The response of a stream that has refused, and of one that has ended
  abbrev pub IsSettled : FilePath → Option Bytes → ℕ → Stream z hash text → Type 0
  IsSettled final before total (some resp, u, s) =
      (resp ≢ ok_response) × (lookup final s.world.files ≡ before)
      ⊎ (resp ≡ ok_response)
        × ((content : Bytes) × (lookup final s.world.files ≡ some content)
            × (length content ≡ total))
  IsSettled final before total (none, some u, s) = IsOpen hash final before total (u, s.world)
  IsSettled final before total (none, none, s) = ⊥

  settled-IsSettled :
      (env : Env) (final : FilePath) (before : Option Bytes) (total : ℕ) (claims : List FilePath)
      (r : Option Response × Put Z)
      → IsDriven z hash text env final before total r
      → IsSettled final before total (settled z hash text final claims r)
  settled-IsSettled env final before total claims (none, p) h = h
  settled-IsSettled env final before total claims (some resp, p) (inl (wrong, k)) =
      inl (wrong, k.kept)
  settled-IsSettled env final before total claims (some resp, p)
        (inr (e, (content, held, size, sum, apart))) =
      inr (e, (content, held, size))

  module _ (senv : StartEnv) (env : Env) (answers : List StreamRecv) (req : PutRequest) where
    abbrev whole_size : ℕ
    whole_size = req.offset + req.size

    started-IsSettled :
        (home final : FilePath) (claims : List FilePath) (before : Option Bytes)
        (named : temp_path_for final ≢ final) (r : Result Response (Upload Z) × World)
        → IsBegun final named z hash text req home before r
        → IsSettled final before whole_size (started z hash text env answers req final claims r)
    started-IsSettled home final claims before named (err resp, w) h = inl h
    started-IsSettled home final claims before named (ok u, w) (h, same) =
        settled-IsSettled env final before whole_size claims _ (
          driven-IsDriven env final before whole_size answers _
            (take_leftover-IsTaken env final before whole_size req.leftover (u, w) h))

    claimed-IsSettled :
        (home final : FilePath) (named : temp_path_for final ≢ final) (w : World)
        (c : Bool × List FilePath)
        → req.offset < 2 ^ 64 - 1
        → IsSettled final
            (lookup final w.files)
            whole_size
            (claimed z hash text senv env answers req home final w c)
    claimed-IsSettled home final named w (false, claims) small =
        inl (refusal-ne-ok text (upload_in_progress req.path), refl)
    claimed-IsSettled home final named w (true, claims) small =
        started-IsSettled home final claims (lookup final w.files) named _
          (begin_put-IsBegun final named z hash text senv req home w small)

    to_path-IsSettled :
        (home final : FilePath) (s : Store)
        → req.offset < 2 ^ 64 - 1
        → IsSettled final
            (lookup final s.world.files)
            whole_size
            (to_path z hash text senv env answers req home final s)
    to_path-IsSettled home final s small = elim (Option-cases (file_name final)) [
      | inl nameless ↦ rw nameless (inl (refusal-ne-ok text no_file_name, refl))
      | inr (name, named) ↦
          rw named (elim (Result-cases (recheck_ancestors_no_symlinks senv.lstat final home)) [
            | inr (e, unsafe) ↦ rw unsafe (inl (λ same. cc, refl))
            | inl (t, safe) ↦ elim (Bool-cases (req.no_clobber && is_there (senv.lstat final))) [
              | inl exists ↦
                  rw (safe, exists) (inl (refusal-ne-ok text (destination_exists req.path), refl))
              | inr free ↦
                  rw (safe, free)
                    (claimed-IsSettled home final (temp_path_for-ne final name named) s.world
                      (try_claim final s.claims) small)
            ]
          ])
    ]

    -- The upload of a stream from its request on, to the destination that the path of the request
    -- resolves to. It is answered with success only when the destination holds exactly `offset +
    -- size` bytes; a refusal, by any of the checks before or after the upload has begun, leaves the
    -- destination as it was; and without an answer the upload goes on, in a state from which
    -- `drive_put` continues, with the destination as it was.
    pub start_put-IsSettled :
        (cwd home final : FilePath) (s : Store)
        → resolve_parent senv.lstat cwd home req.path ≡ ok final
        → IsSettled final
            (lookup final s.world.files)
            whole_size
            (start_put z hash text senv env answers cwd home req s)
    unfolding start_put
    start_put-IsSettled cwd home final s path = elim (Option-cases (check_request req)) [
      | inr (e, wrong) ↦ rw (wrong, start_put) (inl (refusal-ne-ok text e, refl))
      | inl fine ↦
          rw (fine, path, start_put) (to_path-IsSettled home final s (check_request-small req fine))
    ]
