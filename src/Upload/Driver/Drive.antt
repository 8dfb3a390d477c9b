-- ===== src/Upload/Driver/Drive.antt =====
-- `drive_put` of crates/qftp-server/src/transfer_put.rs: the re-hash of a resumed upload, the body,
-- the trailer, and the commit.
use qftp.Prelude.{
  ℕ, suc, ◌-◌, ◌%◌, min, Bytes, Bool, true, false, not, ◌&&◌, Option, none, some, List, [], ◌∷◌,
  ◌++◌, length, take, drop, ltb, ◌==◌, nat_eq, list_eq, if◌then◌else◌, lookup, insert, remove,
  Result, ok, err,
}
use qftp.Protocol.Messages.{Response, ok_response, err_response, ErrorResponse}
use qftp.Paths.{IoError, Stat, found, failed}
use qftp.Paths.Recheck.{recheck_ancestors_no_symlinks}
use qftp.Upload.Trailer.{TrailerBuf, extend, is_full, remaining, resolve_put_checksum}
use qftp.Upload.Decoder.{Zstd}
use qftp.Upload.Split.{PutOverflow, PutChunkSplit, classify_put_chunk}
use qftp.Upload.Quota.{commit_upload}
use qftp.Upload.Driver.{
  PutError, body_overflow, surplus_trailer, partial_shrank, rehash_failed, body_truncated,
  frame_cut, stream_failed, bytes_missing, trailer_cut, flush_failed, checksum_failed, appeared,
  rename_failed, put_overflow_err, refusal, RecvEncoding, identity_body, zstd_body, ResumeRehash,
  Upload, World, StreamRecv, chunk, blocked, invalid_state, recv_failed, Env, Exit, waiting, answer,
  Put, Step, ◌>>=◌, ◌>>◌, content_at, cleanup_rejected_upload, reject, or_reject, take_body,
  set_trailer, feed_zstd_put_chunk,
}

-- The checksum that the file must have, if any
abbrev pub expected_of : Option TrailerBuf → Option Bytes → Option Bytes
expected_of none header = header
expected_of (some buf) header = resolve_put_checksum true buf header

abbrev pub matches : (Bytes → Bytes) → Option Bytes → Bytes → Bool
matches hash none hashed = true
matches hash (some expected) hashed = hash hashed == expected

-- `symlink_metadata(..).is_ok()`
abbrev pub is_there : Stat → Bool
is_there (found meta) = true
is_there (failed e) = false

module _ {Z : Type 0} (z : Zstd Z) (hash : Bytes → Bytes) (text : PutError → Bytes)
    (env : Env) where
  -- The bytes that arrived with the request, once the prefix is hashed
  abbrev pub take_held : Bytes → RecvEncoding Z → Step Z (Unit {0})
  take_held pending identity_body (u, w) =
      if ltb u.remaining (length pending)
      then (err (answer (refusal text body_overflow)), (u, w))
      else take_body text env pending (u, w)
  take_held pending (zstd_body d) p = or_reject (feed_zstd_put_chunk text z env pending d) p

  abbrev pub take_pending : Bytes → Step Z (Unit {0})
  take_pending pending (u, w) =
      if length pending == 0 then (ok tt, (u, w)) else take_held pending u.recv_encoding (u, w)

  abbrev pub after_rehash : Bytes → ResumeRehash → Step Z (Unit {0})
  after_rehash piece rh (u, w) =
      let left = rh.remaining - length piece in
      let hashed = u.hashed ++ piece in
      if ltb 0 left
      then (
        err waiting,
        (record u { hashed = hashed; rehash = some (record rh { remaining = left }) }, w),
      )
      else take_pending rh.pending_body (record u { hashed = hashed; rehash = none }, w)

  -- What a read of the partial brings, behind what was hashed before.
  abbrev pub read_piece : ResumeRehash → ℕ → Upload Z → World → Bytes
  read_piece rh brought u w =
      take (min brought (min rh.remaining env.buffer_len))
        (drop (length u.hashed) (content_at u.temp_path w))

  abbrev pub rehash_piece : ResumeRehash → Result IoError ℕ → Step Z (Unit {0})
  rehash_piece rh (err e) (u, w) = reject (refusal text (rehash_failed e)) (u, w)
  rehash_piece rh (ok brought) (u, w) =
      let piece = read_piece rh brought u w in
      if length piece == 0
      then reject (refusal text partial_shrank) (u, w)
      else after_rehash piece rh (u, w)

  abbrev pub rehash_step : Option ResumeRehash → Step Z (Unit {0})
  rehash_step none p = (ok tt, p)
  rehash_step (some rh) p = rehash_piece rh env.read p

  -- the re-hash phase: one read, if the upload is a resumed one and its prefix is not hashed yet
  unfoldable pub rehash_phase : Step Z (Unit {0})
  unfolding take_body feed_zstd_put_chunk cleanup_rejected_upload refusal lookup
  rehash_phase (u, w) = rehash_step u.rehash (u, w)

  abbrev pub is_done : RecvEncoding Z → ℕ → Bool
  is_done identity_body left = left == 0
  is_done (zstd_body d) left = d.frame_complete

  abbrev pub body_done : Put Z → Bool
  body_done (u, w) = is_done u.recv_encoding u.remaining

  abbrev pub trailer_room : Option TrailerBuf → ℕ
  trailer_room none = 0
  trailer_room (some buf) = remaining buf

  abbrev pub has_trailer : Option TrailerBuf → Bool
  has_trailer none = false
  has_trailer (some buf) = true

  abbrev pub keep_trailer : Bytes → Option TrailerBuf → Put Z → Put Z
  keep_trailer piece none p = p
  keep_trailer piece (some buf) p =
      if length piece == 0 then p else set_trailer text (extend piece buf).1 p

  abbrev pub split_chunk : Bytes → Result PutOverflow PutChunkSplit → Step Z (Unit {0})
  split_chunk piece (err o) p = (err (answer (refusal text (put_overflow_err o))), p)
  split_chunk piece (ok split) p =
      (take_body text env (take split.to_body piece) >> λ (u, w).
      (ok tt, keep_trailer (take split.to_trailer (drop split.to_body piece)) u.trailer_buf (u, w)))
        p

  abbrev pub check_fin : Bool → Step Z (Unit {0})
  check_fin fin (u, w) =
      if fin && ltb 0 u.remaining
      then (err (answer (refusal text (body_truncated u.remaining))), (u, w))
      else (ok tt, (u, w))

  abbrev pub frame_open : RecvEncoding Z → Bool
  frame_open identity_body = true
  frame_open (zstd_body d) = not d.frame_complete

  abbrev pub check_frame : Bool → Step Z (Unit {0})
  check_frame fin (u, w) =
      if fin && frame_open u.recv_encoding
      then reject (refusal text frame_cut) (u, w)
      else (ok tt, (u, w))

  abbrev pub take_chunk : Bytes → Bool → RecvEncoding Z → Step Z (Unit {0})
  take_chunk piece fin identity_body (u, w) =
      (split_chunk piece (
            classify_put_chunk (length piece) u.remaining (has_trailer u.trailer_buf)
              (trailer_room u.trailer_buf))
          >> check_fin fin)
        (u, w)
  take_chunk piece fin (zstd_body d) p =
      (or_reject (feed_zstd_put_chunk text z env piece d) >> check_frame fin) p

  -- one round of the loop of phase A
  unfoldable pub receive_chunk : Bytes → Bool → Step Z (Unit {0})
  unfolding take_body feed_zstd_put_chunk cleanup_rejected_upload classify_put_chunk extend
      remaining refusal put_overflow_err
  receive_chunk piece fin (u, w) = take_chunk piece fin u.recv_encoding (u, w)

  -- One answer of `stream_recv`, and whether the body was there before; `rest` is the loop on the
  -- further answers. What is left of them is for the trailer.
  abbrev pub on_answer :
      Step Z (List StreamRecv) → List StreamRecv → StreamRecv → Bool → Step Z (List StreamRecv)
  on_answer rest answers a true p = (ok (a ∷ answers), p)
  on_answer rest answers blocked false p = (ok answers, p)
  on_answer rest answers invalid_state false p = (err (answer (refusal text stream_failed)), p)
  on_answer rest answers recv_failed false p = (err (answer (refusal text stream_failed)), p)
  on_answer rest answers (chunk piece fin) false p = (receive_chunk piece fin >> rest) p

  -- Phase A; behind the last answer there is nothing to read for now.
  unfoldable pub phase_a : List StreamRecv → Step Z (List StreamRecv)
  unfolding receive_chunk
  phase_a [] p = (ok [], p)
  phase_a (a ∷ answers) p = on_answer (phase_a answers) answers a (body_done p) p

  -- The trailer's loop of phase B
  unfoldable pub drain_trailer : List StreamRecv → TrailerBuf → Step Z (Unit {0})
  unfolding extend is_full refusal
  drain_trailer [] buf p = if is_full buf then (ok tt, p) else (err waiting, p)
  drain_trailer (blocked ∷ answers) buf p = if is_full buf then (ok tt, p) else (err waiting, p)
  drain_trailer (invalid_state ∷ answers) buf p =
      if is_full buf then (ok tt, p) else (err (answer (refusal text trailer_cut)), p)
  drain_trailer (recv_failed ∷ answers) buf p =
      if is_full buf then (ok tt, p) else (err (answer (refusal text stream_failed)), p)
  drain_trailer (chunk piece fin ∷ answers) buf p =
      let (consumed, buf') = extend piece buf in
      let p' = set_trailer text buf' p in
      let rest = drain_trailer answers buf' p' in
      if is_full buf
      then (ok tt, p)
      else if ltb consumed (length piece)
      then (err (answer (refusal text surplus_trailer)), p')
      else if fin && not (is_full buf')
      then (err (answer (refusal text trailer_cut)), p')
      else rest

  abbrev pub complete_trailer : List StreamRecv → Option TrailerBuf → Step Z (Unit {0})
  complete_trailer answers none p = (ok tt, p)
  complete_trailer answers (some buf) p = drain_trailer answers buf p

  -- The rename, `apply_mode`, and the counters
  abbrev pub commit : Step Z (Unit {0})
  commit (u, w) = (
    err (answer ok_response),
    (
      record u { completed = true },
      record {
        files = insert u.final_path (content_at u.temp_path w) (remove u.temp_path w.files);
        modes = insert u.final_path (u.mode % 512) w.modes;
        usage = commit_upload u.reserved_bytes w.usage;
        bytes_received = w.bytes_received;
        uploads_completed = suc w.uploads_completed;
      },
    ),
  )

  abbrev pub rename_temp : Option IoError → Step Z (Unit {0})
  rename_temp (some e) p = (err (answer (refusal text (rename_failed e))), p)
  rename_temp none p = commit p

  -- the re-check of the parents, and `no_clobber_commit_guard`
  abbrev pub guarded : Result ErrorResponse (Unit {0}) → Step Z (Unit {0})
  guarded (err e) p = (err (answer (err_response e)), p)
  guarded (ok tt) (u, w) =
      if u.no_clobber && is_there (env.lstat u.final_path)
      then reject (refusal text (appeared u.final_path)) (u, w)
      else rename_temp env.rename (u, w)

  abbrev pub verify : Step Z (Unit {0})
  verify (u, w) =
      if not (matches hash (expected_of u.trailer_buf u.expected_checksum) u.hashed)
      then reject (refusal text checksum_failed) (u, w)
      else guarded (recheck_ancestors_no_symlinks env.lstat u.final_path u.home) (u, w)

  abbrev pub flushed : Option IoError → Step Z (Unit {0})
  flushed (some e) p = (err (answer (refusal text (flush_failed e))), p)
  flushed none p = verify p

  -- Phase B: the trailer, the verification and the commit, once the body is there
  unfoldable pub phase_b : List StreamRecv → Step Z (Unit {0})
  unfolding drain_trailer cleanup_rejected_upload commit_upload insert remove refusal
      resolve_put_checksum recheck_ancestors_no_symlinks lookup
  phase_b answers (u, w) =
      if not (body_done (u, w))
      then (err waiting, (u, w))
      else if ltb 0 u.remaining
      then reject (refusal text (bytes_missing u.remaining)) (u, w)
      else (complete_trailer answers u.trailer_buf >> flushed env.flush) (u, w)

  abbrev pub concluded : Result Exit (Unit {0}) × Put Z → Option Response × Put Z
  concluded (err waiting, p) = (none, p)
  concluded (err (answer resp), p) = (some resp, p)
  concluded (ok u, p) = (none, p)

  -- `drive_put`: the response, if there is one
  unfoldable pub drive_put : List StreamRecv → Put Z → Option Response × Put Z
  unfolding rehash_phase phase_a phase_b
  drive_put answers p = concluded ((rehash_phase >> (phase_a answers >>= phase_b)) p)
