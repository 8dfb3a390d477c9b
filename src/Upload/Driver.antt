-- ===== src/Upload/Driver.antt =====
-- The state of one upload and of what it changes, and the steps of the driver in
-- crates/qftp-server/src/transfer_put.rs: the refusals, the writing of body bytes, and the trailer.
pub mod Drive
pub mod Start
pub mod Sound
pub mod Steps
pub mod Rehash
pub mod Committed
mod Tests
use qftp.Prelude.{
  ℕ, suc, ◌+◌, ◌-◌, ◌*◌, ◌%◌, min, Bytes, bytes, Bool, true, false, not, ◌&&◌, Option, none, some,
  List, [], ◌∷◌, ◌++◌, length, take, drop, ltb, ◌==◌, nat_eq, list_eq, if◌then◌else◌, Assoc, lookup,
  insert, remove, Result, ok, err,
}
use qftp.Protocol.Codes.{
  ErrorCode, malformed, permission_denied, unsupported, already_exists, not_found, file_too_large,
  invalid_range, checksum_mismatch, upload_overflow, upload_truncated, quota_exceeded, decode_error,
  internal,
}
use qftp.Protocol.Messages.{Response, err_response, new_error, with_details, range, ErrorDetails}
use qftp.Paths.{
  FilePath, IoError, ErrorKind, kind_not_found, kind_permission_denied, kind_already_exists,
  kind_other, Lstat,
}
use qftp.Upload.Trailer.{TrailerBuf, extend}
use qftp.Upload.Decoder.{
  Zstd, ZstdDecoder, CompressionError, codec, truncated, no_progress, out_of_rounds,
  plaintext_limit, DecodeProgress, push,
}
use qftp.Upload.Split.{PutOverflow, body_exceeded, trailer_exceeded}
use qftp.Upload.Quota.{Usage, reject_upload}

-- `io_code` of crates/qftp-protocol/src/handler.rs
unfoldable pub io_code : ErrorKind → ErrorCode
io_code kind_not_found = not_found
io_code kind_permission_denied = permission_denied
io_code kind_already_exists = already_exists
io_code kind_other = internal

-- The refusals of an upload, with what their texts show.
pub data PutError : Type 0 where
  is_upload_temp_path resume_without_checksum unsupported_encoding : PutError
  compressed_without_checksum no_file_name decoder_failed : PutError
  size_mismatch : (size plaintext_size : ℕ) → PutError
  too_large : ℕ → PutError
  destination_exists upload_in_progress : Bytes → PutError
  create_failed truncate_failed mode_failed no_partial seek_failed reopen_failed :
      IoError → PutError
  range_mismatch : (offset have : ℕ) → PutError
  over_limit : (projected limit : ℕ) → PutError
  body_overflow trailer_overflow decoded_overflow surplus_trailer : PutError
  frame_truncated codec_failed decoder_stuck stopped_early : PutError
  bytes_missing : ℕ → PutError
  write_failed flush_failed rename_failed rehash_failed : IoError → PutError
  partial_shrank stream_failed : PutError
  body_truncated : ℕ → PutError
  frame_cut trailer_cut checksum_failed : PutError
  appeared : FilePath → PutError

unfoldable pub code_of : PutError → ErrorCode
unfolding io_code
code_of is_upload_temp_path = permission_denied
code_of resume_without_checksum = unsupported
code_of unsupported_encoding = unsupported
code_of compressed_without_checksum = unsupported
code_of no_file_name = malformed
code_of decoder_failed = internal
code_of (size_mismatch size plaintext_size) = malformed
code_of (too_large n) = file_too_large
code_of (destination_exists path) = already_exists
code_of (upload_in_progress path) = already_exists
code_of (create_failed e) = io_code e.kind
code_of (truncate_failed e) = io_code e.kind
code_of (mode_failed e) = io_code e.kind
code_of (no_partial e) = invalid_range
code_of (seek_failed e) = io_code e.kind
code_of (reopen_failed e) = io_code e.kind
code_of (range_mismatch offset have) = invalid_range
code_of (over_limit projected limit) = quota_exceeded
code_of body_overflow = upload_overflow
code_of trailer_overflow = upload_overflow
code_of decoded_overflow = upload_overflow
code_of surplus_trailer = upload_overflow
code_of frame_truncated = decode_error
code_of codec_failed = decode_error
code_of decoder_stuck = decode_error
code_of stopped_early = decode_error
code_of (bytes_missing n) = decode_error
code_of (write_failed e) = internal
code_of (flush_failed e) = internal
code_of (rename_failed e) = internal
code_of (rehash_failed e) = io_code e.kind
code_of partial_shrank = internal
code_of stream_failed = internal
code_of (body_truncated n) = upload_truncated
code_of frame_cut = upload_truncated
code_of trailer_cut = upload_truncated
code_of checksum_failed = checksum_mismatch
code_of (appeared path) = already_exists

abbrev pub details_of : PutError → Option ErrorDetails
details_of (range_mismatch offset have) = some (range offset have)
details_of _ = none

-- The response to a refusal; `text` writes its message.
unfoldable pub refusal : (PutError → Bytes) → PutError → Response
unfolding code_of
refusal text e = elim (details_of e) [
  | none ↦ err_response (new_error (code_of e) (text e))
  | some d ↦ err_response (with_details (code_of e) (text e) d)
]

-- `put_overflow_err`
unfoldable pub put_overflow_err : PutOverflow → PutError
put_overflow_err body_exceeded = body_overflow
put_overflow_err trailer_exceeded = trailer_overflow

-- `compressed_decode_err`
unfoldable pub compressed_decode_err : CompressionError → PutError
compressed_decode_err (plaintext_limit m) = decoded_overflow
compressed_decode_err truncated = frame_truncated
compressed_decode_err codec = codec_failed
compressed_decode_err no_progress = decoder_stuck
compressed_decode_err out_of_rounds = decoder_stuck

-- `RecvEncoding`
pub data RecvEncoding (Z : Type 0) : Type 0 where
  identity_body : RecvEncoding Z
  zstd_body : ZstdDecoder Z → RecvEncoding Z

-- `ResumeRehash`; its reader has read what the hasher was given.
pub record ResumeRehash : Type 0 where
  pub remaining : ℕ
  pub pending_body : Bytes

-- `StreamState::ReadingFileData`. The hasher is the bytes that it was given; `home` is that of the
-- owner. The writer appends to the file at `temp_path`.
pub record Upload (Z : Type 0) : Type 0 where
  pub final_path : FilePath
  pub temp_path : FilePath
  pub remaining : ℕ
  pub mode : ℕ
  pub completed : Bool
  pub no_clobber : Bool
  pub hashed : Bytes
  pub recv_encoding : RecvEncoding Z
  pub expected_checksum : Option Bytes
  pub trailer_buf : Option TrailerBuf
  pub reserved_bytes : ℕ
  pub prior_bytes : ℕ
  pub rehash : Option ResumeRehash
  pub home : FilePath

-- What an upload changes: the contents and the modes of files, the counters of the owner, and the
-- metrics.
pub record World : Type 0 where
  pub files : Assoc FilePath Bytes
  pub modes : Assoc FilePath ℕ
  pub usage : Usage
  pub bytes_received : ℕ
  pub uploads_completed : ℕ

-- What `stream_recv` answers: bytes with the FIN flag, nothing now, or an error.
pub data StreamRecv : Type 0 where
  chunk : Bytes → Bool → StreamRecv
  blocked invalid_state recv_failed : StreamRecv

-- What the calls of the system answer during one call of the driver: a read of the partial, by how
-- many bytes it may bring; a write, by how much of the file is there; the flush and the rename; and
-- `lstat`.
pub record Env : Type 0 where
  pub read : Result IoError ℕ
  pub buffer_len : ℕ
  pub write : ℕ → Option IoError
  pub flush : Option IoError
  pub rename : Option IoError
  pub lstat : Lstat

-- Where a call of the driver ends before its last line.
pub data Exit : Type 0 where
  waiting : Exit
  answer : Response → Exit

abbrev pub Put : Type 0 → Type 0
Put Z = Upload Z × World

-- A step of the driver: a value, or where the call ends, and the state after it.
abbrev pub Step : Type 0 → Type 0 → Type 0
Step Z A = Put Z → Result Exit A × Put Z

abbrev pub continue :
    {Z A B : Type 0} → (A → Step Z B) → Result Exit A × Put Z → Result Exit B × Put Z
continue f (err e, p) = (err e, p)
continue f (ok a, p) = f a p

infixl 5 ◌>>=◌ ◌>>◌
abbrev pub ◌>>=◌ : {Z A B : Type 0} → Step Z A → (A → Step Z B) → Step Z B
◌>>=◌ m f p = continue f (m p)

abbrev pub ◌>>◌ : {Z B : Type 0} → Step Z (Unit {0}) → Step Z B → Step Z B
m >> k = m >>= λ _. k

abbrev pub leave : {Z A : Type 0} → Exit → Step Z A
leave e p = (err e, p)

abbrev pub skip : {Z : Type 0} → Step Z (Unit {0})
skip p = (ok tt, p)

abbrev pub content_at : FilePath → World → Bytes
content_at path w = elim (lookup path w.files) [ none ↦ [] | some c ↦ c ]

-- `cleanup_rejected_upload`
unfoldable pub cleanup_rejected_upload : {Z : Type 0} → Put Z → Put Z
unfolding reject_upload remove
cleanup_rejected_upload (u, w) = (
  record u { completed = true },
  record w {
    files = remove u.temp_path w.files;
    usage = reject_upload u.reserved_bytes u.prior_bytes w.usage;
  },
)

-- `return Ok(Some(fail_rejected_upload(..)))`
abbrev pub reject : {Z A : Type 0} → Response → Step Z A
reject resp p = (err (answer resp), cleanup_rejected_upload p)

-- What is under this never waits.
abbrev pub rejected : {Z A : Type 0} → Result Exit A × Put Z → Result Exit A × Put Z
rejected (ok a, p) = (ok a, p)
rejected (err waiting, p) = (err waiting, p)
rejected (err (answer resp), p) = (err (answer resp), cleanup_rejected_upload p)

-- `if let Err(resp) = .. { return Ok(Some(fail_rejected_upload(..))) }`
abbrev pub or_reject : {Z A : Type 0} → Step Z A → Step Z A
or_reject m p = rejected (m p)

module _ (text : PutError → Bytes) where
  abbrev pub fail : {Z A : Type 0} → PutError → Step Z A
  fail e = leave (answer (refusal text e))

  -- A body part: `write_all`, `hasher.update`, and the counts. A write that fails is taken to leave
  -- the file as it was.
  unfoldable pub take_body : {Z : Type 0} → Env → Bytes → Step Z (Unit {0})
  unfolding insert lookup refusal
  take_body env body (u, w) = elim (env.write (length u.hashed)) [
    | some e ↦ (err (answer (refusal text (write_failed e))), (u, w))
    | none ↦ (
      ok tt,
      (
        record u { hashed = u.hashed ++ body; remaining = u.remaining - length body },
        record w {
          files = insert u.temp_path (content_at u.temp_path w ++ body) w.files;
          bytes_received = w.bytes_received + length body;
        },
      ),
    )
  ]

  abbrev pub set_trailer : {Z : Type 0} → TrailerBuf → Put Z → Put Z
  set_trailer b (u, w) = (record u { trailer_buf = some b }, w)

  abbrev pub extend_trailer : {Z : Type 0} → Bytes → Option TrailerBuf → Step Z (Unit {0})
  extend_trailer piece none p = (err (answer (refusal text body_overflow)), p)
  extend_trailer piece (some buf) p =
      let (consumed, buf') = extend piece buf in
      if ltb consumed (length piece)
      then (err (answer (refusal text surplus_trailer)), set_trailer buf' p)
      else (ok tt, set_trailer buf' p)

  -- `append_put_trailer`
  unfoldable pub append_put_trailer : {Z : Type 0} → Bytes → Step Z (Unit {0})
  unfolding extend refusal
  append_put_trailer [] p = (ok tt, p)
  append_put_trailer (c ∷ piece) (u, w) = extend_trailer (c ∷ piece) u.trailer_buf (u, w)

  abbrev pub set_decoder : {Z : Type 0} → ZstdDecoder Z → Put Z → Put Z
  set_decoder d (u, w) = (record u { recv_encoding = zstd_body d }, w)

  -- The `while` loop over the pending bytes: its one round takes all of them.
  abbrev pub drain_pending : {Z : Type 0} → Env → ZstdDecoder Z → Step Z (Unit {0})
  drain_pending env d (u, w) =
      if length d.pending == 0
      then (ok tt, (u, w))
      else if ltb u.remaining (length d.pending)
      then (err (answer (refusal text decoded_overflow)), (u, w))
      else (take_body env d.pending >> λ p. (ok tt, set_decoder (record d { pending = [] }) p))
          (u, w)

  -- What follows the pushed chunk: the frame is complete, and the rest of the chunk is trailer; or
  -- the decoder has taken all of the chunk.
  abbrev pub after_push : {Z : Type 0} → Bytes → DecodeProgress → Step Z (Unit {0})
  after_push input progress (u, w) =
      if progress.frame_complete
      then if ltb 0 u.remaining
        then (err (answer (refusal text (bytes_missing u.remaining))), (u, w))
        else append_put_trailer (drop progress.consumed input) (u, w)
      else if ltb progress.consumed (length input)
      then (err (answer (refusal text stopped_early)), (u, w))
      else (ok tt, (u, w))

  abbrev pub pushed :
      {Z : Type 0}
      → Env
      → Bytes
      → Result CompressionError DecodeProgress × ZstdDecoder Z
      → Step Z (Unit {0})
  pushed env input (err e, d) p =
      (err (answer (refusal text (compressed_decode_err e))), set_decoder d p)
  pushed env input (ok progress, d) p =
      (drain_pending env d >> after_push input progress) (set_decoder d p)

  -- `feed_zstd_put_chunk`
  unfoldable pub feed_zstd_put_chunk :
      {Z : Type 0} → Zstd Z → Env → Bytes → ZstdDecoder Z → Step Z (Unit {0})
  unfolding append_put_trailer take_body push compressed_decode_err refusal
  feed_zstd_put_chunk z env input d =
      if d.frame_complete then append_put_trailer input else pushed env input (push z input d)
