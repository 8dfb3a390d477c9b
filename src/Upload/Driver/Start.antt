-- ===== src/Upload/Driver/Start.antt =====
-- `start_put` of crates/qftp-server/src/transfer_put.rs: the checks of a Put, the partial that it
-- starts or resumes, the quota, and the bytes that came with the request.
pub mod Begun
pub mod Served
use qftp.Prelude.{
  ℕ, suc, ◌+◌, ◌-◌, ◌*◌, ◌^◌, min, Bytes, bytes, Bool, true, false, not, ◌&&◌, Option, none, some,
  List, [], ◌∷◌, ◌++◌, length, take, drop, ltb, ◌==◌, nat_eq, list_eq, if◌then◌else◌, Assoc, lookup,
  insert, remove, Result, ok, err,
}
use qftp.Protocol.Codes.{Encoding, identity, zstd, unknown, is_supported}
use qftp.Protocol.Messages.{Response, err_response, ErrorResponse}
use qftp.Server.Plan.{PutRequest}
use qftp.Paths.{FilePath, IoError, kind_not_found, Stat, Lstat, file_name}
use qftp.Paths.Walk.{resolve_parent}
use qftp.Paths.Recheck.{recheck_ancestors_no_symlinks}
use qftp.Upload.Trailer.{TrailerBuf, new_trailer, extend, remaining}
use qftp.Upload.Decoder.{Zstd, ZstdDecoder, new_decoder}
use qftp.Upload.Split.{PutOverflow, PutChunkSplit, classify_put_chunk}
use qftp.Upload.Claims.{temp_path_for, is_upload_temp, try_claim, drop_claim}
use qftp.Upload.Quota.{
  Usage, admit, drop_reservation, refund, saturating_add, max_file_size, drop_upload,
}
use qftp.Upload.Driver.{
  PutError, is_upload_temp_path, resume_without_checksum, unsupported_encoding,
  compressed_without_checksum, no_file_name, decoder_failed, size_mismatch, too_large,
  destination_exists, upload_in_progress, create_failed, truncate_failed, mode_failed, no_partial,
  seek_failed, reopen_failed, range_mismatch, over_limit, put_overflow_err, refusal, RecvEncoding,
  identity_body, zstd_body, ResumeRehash, Upload, World, StreamRecv, Env, Exit, waiting, answer,
  Put, Step, take_body, or_reject, feed_zstd_put_chunk,
}
use qftp.Upload.Driver.Drive
use qftp.Upload.Driver.Drive.{is_there, drive_put}

-- What the calls of the system answer during `start_put`: `lstat`, the opening of the partial and
-- what is done to it, `none` where there is no error, and whether its metadata can be read.
pub record StartEnv : Type 0 where
  pub lstat : Lstat
  pub opens : Option IoError
  pub metadata : Bool
  pub set_len : Option IoError
  pub set_permissions : Option IoError
  pub seek : Option IoError
  pub reopen : Option IoError

-- The destinations in use, and what uploads change.
pub record Store : Type 0 where
  pub claims : List FilePath
  pub world : World

-- The partial after it was opened: the store, the bytes that are accounted for already, and the
-- prefix to re-hash.
pub record Opened : Type 0 where
  pub world : World
  pub prior_bytes : ℕ
  pub rehash : Option ResumeRehash

abbrev pub is_none {ℓ} : {A : Type ℓ} → Option A → Bool
is_none none = true
is_none (some a) = false

abbrev pub is_identity : Encoding → Bool
is_identity identity = true
is_identity _ = false

abbrev pub is_zstd : Encoding → Bool
is_zstd zstd = true
is_zstd _ = false

-- The checks that need no file system, in order
unfoldable pub check_request : PutRequest → Option PutError
unfolding is_upload_temp is_supported saturating_add
check_request req =
    let unchecked = not req.checksum_trailer && is_none req.expected_checksum in
    let final_size = saturating_add req.offset req.size in
    if is_upload_temp req.path
    then some is_upload_temp_path
    else if ltb 0 req.offset && unchecked
    then some resume_without_checksum
    else if not (is_supported req.encoding)
    then some unsupported_encoding
    else if not (is_identity req.encoding) && unchecked
    then some compressed_without_checksum
    else if is_zstd req.encoding && not (req.plaintext_size == req.size)
    then some (size_mismatch req.size req.plaintext_size)
    else if ltb max_file_size final_size
    then some (too_large final_size)
    else none

abbrev pub set_file : FilePath → Bytes → World → World
set_file path content w = record w { files = insert path content w.files }

abbrev pub refunded : ℕ → World → World
refunded stale w = record w { usage = refund stale w.usage }

-- A fresh upload: what an earlier attempt left is refunded, and truncated.
abbrev pub open_fresh : StartEnv → FilePath → Bytes → World → Result PutError Opened × World
open_fresh env temp old w =
    let created = set_file temp old w in
    let paid = refunded (if env.metadata then length old else 0) created in
    elim env.set_len [
      | some e ↦ (err (truncate_failed e), paid)
      | none ↦
          let truncated = set_file temp [] paid in
          elim env.set_permissions [
            | some e ↦ (err (mode_failed e), truncated)
            | none ↦ (ok (record { world = truncated; prior_bytes = 0; rehash = none }), truncated)
          ]
    ]

-- A resumed upload: the partial must hold exactly `offset` bytes.
abbrev pub open_resumed : StartEnv → ℕ → Bytes → World → Result PutError Opened × World
open_resumed env offset old w =
    let have = if env.metadata then length old else 2 ^ 64 - 1 in
    if not (have == offset) then (err (range_mismatch offset have), w) else elim env.seek [
      | some e ↦ (err (seek_failed e), w)
      | none ↦ elim env.reopen [
        | some e ↦ (err (reopen_failed e), w)
        | none ↦ (
          ok (record {
            world = w;
            prior_bytes = offset;
            rehash = some (record { remaining = offset; pending_body = [] });
          }),
          w,
        )
      ]
    ]

abbrev pub not_there : IoError
not_there = record { kind = kind_not_found; text = bytes "No such file or directory" }

abbrev pub resume_old : StartEnv → ℕ → Option Bytes → World → Result PutError Opened × World
resume_old env offset none w = (err (no_partial not_there), w)
resume_old env offset (some old) w = open_resumed env offset old w

abbrev pub or_empty : Option Bytes → Bytes
or_empty none = []
or_empty (some old) = old

unfoldable pub open_partial : StartEnv → FilePath → ℕ → World → Result PutError Opened × World
unfolding lookup insert refund
open_partial env temp offset w = elim env.opens [
  | some e ↦ (err (if offset == 0 then create_failed e else no_partial e), w)
  | none ↦
      if offset == 0
      then open_fresh env temp (or_empty (lookup temp w.files)) w
      else resume_old env offset (lookup temp w.files) w
]

abbrev pub encoding_of : {Z : Type 0} → Zstd Z → ℕ → Encoding → Option (RecvEncoding Z)
encoding_of z size identity = some identity_body
encoding_of z size (unknown n) = none
encoding_of z size zstd = elim (new_decoder z (min size max_file_size)) [
  | none ↦ none
  | some d ↦ some (zstd_body d)
]

module _ {Z : Type 0} (z : Zstd Z) (hash : Bytes → Bytes) (text : PutError → Bytes) where
  abbrev pub Ended : Type 0
  Ended = Result Response (Upload Z) × World

  -- The state of the stream, once the reservation is made
  abbrev pub begin_with :
      PutRequest → FilePath → FilePath → Opened → Option (RecvEncoding Z) → World → Ended
  begin_with req home final opened none w = (
    err (refusal text decoder_failed),
    record w { usage = drop_reservation true req.size w.usage },
  )
  begin_with req home final opened (some encoding) w = (
    ok (record {
      final_path = final;
      temp_path = temp_path_for final;
      remaining = req.size;
      mode = req.mode;
      completed = false;
      no_clobber = req.no_clobber;
      hashed = [];
      recv_encoding = encoding;
      expected_checksum = req.expected_checksum;
      trailer_buf = if req.checksum_trailer then some new_trailer else none;
      reserved_bytes = req.size;
      prior_bytes = opened.prior_bytes;
      rehash = opened.rehash;
      home = home;
    }),
    w,
  )

  abbrev pub limit_of : Option ℕ → ℕ
  limit_of none = 0
  limit_of (some limit) = limit

  -- The reservation and the quota; a fresh upload that is refused leaves no partial.
  abbrev pub admitted : PutRequest → FilePath → FilePath → Opened → Bool × Usage → Ended
  admitted req home final opened (true, usage) =
      begin_with req home final opened (encoding_of z req.size req.encoding)
        (record opened.world { usage = usage })
  admitted req home final opened (false, usage) =
      let w = record opened.world { usage = usage } in
      (
        err (
            refusal text (
              over_limit (saturating_add usage.used_bytes (usage.in_flight_bytes + req.size))
                (limit_of usage.quota_bytes))),
        if req.offset == 0 then record w { files = remove (temp_path_for final) w.files } else w,
      )

  abbrev pub with_partial :
      PutRequest → FilePath → FilePath → Result PutError Opened × World → Ended
  with_partial req home final (err e, w) = (err (refusal text e), w)
  with_partial req home final (ok opened, w) =
      admitted req home final opened (admit req.size opened.world.usage)

  -- From the claim on, `temp_path_for` the destination is this upload's.
  unfoldable pub begin_put : StartEnv → PutRequest → FilePath → FilePath → World → Ended
  unfolding open_partial admit drop_reservation temp_path_for refusal remove saturating_add
      new_decoder
  begin_put env req home final w =
      with_partial req home final (open_partial env (temp_path_for final) req.offset w)

  -- The bytes that came with the request, of an identity body
  abbrev pub keep_body : Env → Bytes → Option ResumeRehash → Step Z (Unit {0})
  keep_body env body (some rh) (u, w) =
      (ok tt, (record u { rehash = some (record rh { pending_body = body }) }, w))
  keep_body env body none p = if length body == 0 then (ok tt, p) else take_body text env body p

  abbrev pub leftover_split : Env → Bytes → Result PutOverflow PutChunkSplit → Step Z (Unit {0})
  leftover_split env leftover (err o) p = (err (answer (refusal text (put_overflow_err o))), p)
  leftover_split env leftover (ok split) (u, w) =
      let p =
        Drive.keep_trailer z hash text env (take split.to_trailer (drop split.to_body leftover))
          u.trailer_buf (u, w) in
      keep_body env (take split.to_body leftover) u.rehash p

  abbrev pub leftover_zstd : Env → Bytes → ZstdDecoder Z → Option ResumeRehash → Step Z (Unit {0})
  leftover_zstd env leftover d (some rh) (u, w) =
      (ok tt, (record u { rehash = some (record rh { pending_body = leftover }) }, w))
  leftover_zstd env leftover d none p = or_reject (feed_zstd_put_chunk text z env leftover d) p

  abbrev pub leftover_of : Env → Bytes → RecvEncoding Z → Step Z (Unit {0})
  leftover_of env leftover identity_body (u, w) =
      leftover_split env leftover
        (classify_put_chunk (length leftover) u.remaining
          (Drive.has_trailer z hash text env u.trailer_buf)
          (Drive.trailer_room z hash text env u.trailer_buf))
        (u, w)
  leftover_of env leftover (zstd_body d) (u, w) = leftover_zstd env leftover d u.rehash (u, w)

  unfoldable pub take_leftover : Env → Bytes → Step Z (Unit {0})
  unfolding classify_put_chunk extend remaining refusal take_body feed_zstd_put_chunk
      put_overflow_err
  take_leftover env [] p = (ok tt, p)
  take_leftover env (c ∷ leftover) (u, w) = leftover_of env (c ∷ leftover) u.recv_encoding (u, w)

  -- The stream after `start_put`: the response to it, if it has one, and the upload and what it
  -- has changed.
  abbrev pub driven :
      Env → List StreamRecv → Result Exit (Unit {0}) × Put Z → Option Response × Put Z
  driven env answers (ok u, p) = drive_put z hash text env answers p
  driven env answers (err waiting, p) = (none, p)
  driven env answers (err (answer resp), p) = (some resp, p)

  -- What is left of a stream that has got its response: `Drop` of its state, and of the claim.
  abbrev pub dropped : Put Z → World
  dropped (u, w) = record w { usage = drop_upload u.completed u.remaining u.reserved_bytes w.usage }

  abbrev pub Stream : Type 0
  Stream = Option Response × Option (Upload Z) × Store

  abbrev pub settled : FilePath → List FilePath → Option Response × Put Z → Stream
  settled final claims (none, (u, w)) = (none, some u, record { claims = claims; world = w })
  settled final claims (some resp, p) =
      (some resp, none, record { claims = drop_claim final claims; world = dropped p })

  abbrev pub started :
      Env → List StreamRecv → PutRequest → FilePath → List FilePath → Ended → Stream
  started env answers req final claims (err resp, w) =
      (some resp, none, record { claims = drop_claim final claims; world = w })
  started env answers req final claims (ok u, w) =
      settled final claims (driven env answers (take_leftover env req.leftover (u, w)))

  abbrev pub claimed :
      StartEnv
      → Env
      → List StreamRecv
      → PutRequest
      → FilePath
      → FilePath
      → World
      → Bool × List FilePath
      → Stream
  claimed senv env answers req home final w (false, claims) = (
    some (refusal text (upload_in_progress req.path)),
    none,
    record { claims = claims; world = w },
  )
  claimed senv env answers req home final w (true, claims) =
      started env answers req final claims (begin_put senv req home final w)

  abbrev pub refuse : Response → Store → Stream
  refuse resp s = (some resp, none, s)

  abbrev pub to_path :
      StartEnv → Env → List StreamRecv → PutRequest → FilePath → FilePath → Store → Stream
  to_path senv env answers req home final s =
      if is_none (file_name final)
      then refuse (refusal text no_file_name) s
      else elim (recheck_ancestors_no_symlinks senv.lstat final home) [
        | err e ↦ refuse (err_response e) s
        | ok u ↦
            if req.no_clobber && is_there (senv.lstat final)
            then refuse (refusal text (destination_exists req.path)) s
            else claimed senv env answers req home final s.world (try_claim final s.claims)
      ]

  -- `start_put`, for the user with this home and the connection with this working directory
  unfoldable pub start_put :
      StartEnv → Env → List StreamRecv → FilePath → FilePath → PutRequest → Store → Stream
  unfolding check_request resolve_parent recheck_ancestors_no_symlinks try_claim drop_claim
      begin_put take_leftover drive_put drop_upload refusal file_name
  start_put senv env answers cwd home req s = elim (check_request req) [
    | some e ↦ refuse (refusal text e) s
    | none ↦ elim (resolve_parent senv.lstat cwd home req.path) [
      | err e ↦ refuse (err_response e) s
      | ok final ↦ to_path senv env answers req home final s
    ]
  ]
