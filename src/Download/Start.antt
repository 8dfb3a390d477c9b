-- ===== src/Download/Start.antt =====
-- `start_get` of crates/qftp-server/src/transfer_get.rs, with the choice of an encoding by
-- `is_likely_incompressible` of crates/qftp-protocol/src/compress.rs.
pub mod Begun
use qftp.Prelude.{
  ℕ, ◌+◌, ◌-◌, min, Bytes, bytes, Bool, true, false, not, ◌&&◌, ◌||◌, Option, none, some, List, [],
  ◌∷◌, ◌++◌, map, length, any, ltb, leb, ◌==◌, nat_eq, list_eq, if◌then◌else◌, Result, ok, err,
}
use qftp.Protocol.Codes.{
  Encoding, identity, zstd, unknown, blake3, permission_denied, is_a_directory, file_too_large,
  invalid_range, internal,
}
use qftp.Protocol.Messages.{
  GetFields, Response, err_response, ErrorResponse, new_error, with_details, range, FileReadyFields,
}
use qftp.Paths.{FilePath, IoError, Metadata, is_file, Lstat, file_name}
use qftp.Paths.Walk.{resolve}
use qftp.Paths.Recheck.{recheck_ancestors_no_symlinks}
use qftp.Upload.Claims.{is_upload_temp}
use qftp.Upload.Quota.{max_file_size}
use qftp.Upload.Driver.{io_code}
use qftp.Download.{BodySend}

-- a text before and behind its last dot
unfoldable pub split_at_dot : Bytes → Option (Bytes × Bytes)
split_at_dot [] = none
split_at_dot (c ∷ s) =
    let rest = split_at_dot s in
    elim rest [
      | some (before, after) ↦ some (c ∷ before, after)
      | none ↦ if c == b'.' then some ([], s) else none
    ]

abbrev pub extension_of : Option (Bytes × Bytes) → Option Bytes
extension_of none = none
extension_of (some ([], after)) = none
extension_of (some (c ∷ before, after)) = some after

-- `Path::extension`
unfoldable pub extension : FilePath → Option Bytes
unfolding file_name split_at_dot
extension path = elim (file_name path) [ none ↦ none | some n ↦ extension_of (split_at_dot n) ]

-- `u8::to_ascii_lowercase`
abbrev pub to_lower : ℕ → ℕ
to_lower c = if leb 65 c && leb c 90 then c + 32 else c

abbrev pub incompressible : List Bytes
incompressible =
    bytes "zip"
    ∷ bytes "gz"
    ∷ bytes "tgz"
    ∷ bytes "bz2"
    ∷ bytes "tbz2"
    ∷ bytes "tbz"
    ∷ bytes "xz"
    ∷ bytes "txz"
    ∷ bytes "zst"
    ∷ bytes "tzst"
    ∷ bytes "lz4"
    ∷ bytes "lzma"
    ∷ bytes "lzo"
    ∷ bytes "7z"
    ∷ bytes "rar"
    ∷ bytes "br"
    ∷ bytes "z"
    ∷ bytes "cab"
    ∷ bytes "arj"
    ∷ bytes "jpg"
    ∷ bytes "jpeg"
    ∷ bytes "png"
    ∷ bytes "gif"
    ∷ bytes "webp"
    ∷ bytes "heic"
    ∷ bytes "heif"
    ∷ bytes "avif"
    ∷ bytes "jxl"
    ∷ bytes "mp3"
    ∷ bytes "aac"
    ∷ bytes "m4a"
    ∷ bytes "ogg"
    ∷ bytes "oga"
    ∷ bytes "opus"
    ∷ bytes "flac"
    ∷ bytes "wma"
    ∷ bytes "mp4"
    ∷ bytes "m4v"
    ∷ bytes "mkv"
    ∷ bytes "webm"
    ∷ bytes "mov"
    ∷ bytes "avi"
    ∷ bytes "wmv"
    ∷ bytes "flv"
    ∷ bytes "mpeg"
    ∷ bytes "mpg"
    ∷ bytes "ts"
    ∷ bytes "docx"
    ∷ bytes "xlsx"
    ∷ bytes "pptx"
    ∷ bytes "odt"
    ∷ bytes "ods"
    ∷ bytes "odp"
    ∷ bytes "jar"
    ∷ bytes "apk"
    ∷ bytes "epub"
    ∷ bytes "woff"
    ∷ bytes "woff2"
    ∷ bytes "deb"
    ∷ bytes "rpm"
    ∷ bytes "dmg"
    ∷ bytes "iso"
    ∷ bytes "gpg"
    ∷ bytes "pgp"
    ∷ []

unfoldable pub is_likely_incompressible : FilePath → Bool
unfolding extension
is_likely_incompressible path = elim (extension path) [
  | none ↦ false
  | some ext ↦ any (λ e. e == map to_lower ext) incompressible
]

abbrev pub is_zstd : Encoding → Bool
is_zstd zstd = true
is_zstd _ = false

-- What the system answers: `lstat` while the path is resolved and when it is looked at again,
-- `Path::exists`, the opened file, and the text of the error where no encoder can be made; and how numbers are written.
pub record GetEnv : Type 0 where
  pub resolving : Lstat
  pub rechecking : Lstat
  pub follows : FilePath → Bool
  pub open_get_file : FilePath → Result IoError Metadata
  pub encoder_error : Option Bytes
  pub decimal : ℕ → Bytes

-- The header of a download that begins, and the state of its stream
abbrev pub Begun : Type 0
Begun = FileReadyFields × Encoding × BodySend

abbrev pub fresh_send : (offset size : ℕ) → BodySend
fresh_send offset size = record {
  position = 0;
  total_size = size;
  sent = 0;
  hashed = [];
  trailer = none;
  trailer_offset = 0;
  finished = false;
  prefix_remaining = offset;
}

module _ (env : GetEnv) where
  abbrev pub ready : ℕ → ℕ → ℕ → Encoding → Begun
  ready offset total bytes_to_send encoding = (
    record {
      size = bytes_to_send;
      total_size = total;
      checksum_follows = true;
      hash_algorithm = blake3;
      encoding = encoding;
      plaintext_size = if is_zstd encoding then bytes_to_send else 0;
    },
    encoding,
    fresh_send offset bytes_to_send,
  )

  unfoldable pub encoding_for : FilePath → List Encoding → ℕ → Encoding
  unfolding is_likely_incompressible
  encoding_for path accepts bytes_to_send =
      if leb 1024 bytes_to_send && any is_zstd accepts && not (is_likely_incompressible path)
      then zstd
      else identity

  abbrev pub to_send : ℕ → Option ℕ → ℕ
  to_send remaining none = remaining
  to_send remaining (some n) = min n remaining

  -- the error of `ZstdEncoder::new`, which only a compressed download calls
  abbrev pub encoder_of : Encoding → Option Bytes
  encoder_of encoding = if is_zstd encoding then env.encoder_error else none

  abbrev pub with_encoder : Begun → Option Bytes → Result Response Begun
  with_encoder begun none = ok begun
  with_encoder begun (some e) =
      err (err_response (new_error internal (bytes "failed to initialize zstd encoder: " ++ e)))

  abbrev pub opened : GetFields → FilePath → Result IoError Metadata → Result Response Begun
  opened req path (err e) =
      err (err_response (new_error (io_code e.kind) (bytes "Failed to open file: " ++ e.text)))
  opened req path (ok meta) =
      let bytes_to_send = to_send (meta.len - req.offset) req.len in
      let encoding = encoding_for path req.accept_encoding bytes_to_send in
      if not (is_file meta.kind)
      then err (err_response (new_error is_a_directory (bytes "Not a regular file")))
      else if ltb max_file_size meta.len
      then err (
          err_response (
            new_error file_too_large (
              bytes "File too large: "
              ++ (env.decimal meta.len
                  ++ (bytes " bytes (max " ++ (env.decimal max_file_size ++ bytes " bytes)"))))))
      else if ltb meta.len req.offset
      then err (
          err_response (
            with_details invalid_range
              (bytes "offset "
                ++ (env.decimal req.offset
                    ++ (bytes " past end of file (size " ++ (env.decimal meta.len ++ bytes ")"))))
              (range req.offset meta.len)))
      else with_encoder (ready req.offset meta.len bytes_to_send encoding) (encoder_of encoding)

  abbrev pub if_safe :
      GetFields → FilePath → Result ErrorResponse (Unit {0}) → Result Response Begun
  if_safe req path (err e) = err (err_response (new_error e.code e.message))
  if_safe req path (ok u) = opened req path (env.open_get_file path)

  abbrev pub on_path : GetFields → FilePath → Result ErrorResponse FilePath → Result Response Begun
  on_path req home (err e) = err (err_response e)
  on_path req home (ok path) =
      if_safe req path (recheck_ancestors_no_symlinks env.rechecking path home)

  -- `start_get`, for the user with this home and the connection with this working directory
  unfoldable pub start_get : FilePath → FilePath → GetFields → Result Response Begun
  unfolding is_upload_temp resolve recheck_ancestors_no_symlinks io_code encoding_for
  start_get cwd home req =
      if is_upload_temp req.path
      then err (
          err_response (
            new_error permission_denied
              (bytes "path refers to a server-internal upload temp file")))
      else on_path req home (resolve env.resolving env.follows cwd home req.path)
