-- ===== src/Protocol/Messages.antt =====
-- The requests and responses of crates/qftp-common/src/protocol.rs. A `String` is its bytes.
use qftp.Prelude.{ℕ, Bytes, Bool, true, false, Option, none, some, List}
use qftp.Protocol.Codes.{FileType, directory, HashAlgorithm, Encoding, ErrorCode}

pub data ErrorDetails : Type 0 where
  range : (offset file_size : ℕ) → ErrorDetails
  upload : (received declared : ℕ) → ErrorDetails
  retry_after : (millis : ℕ) → ErrorDetails

pub record ErrorResponse : Type 0 where
  pub code : ErrorCode
  pub message : Bytes
  pub details : Option ErrorDetails

-- `ErrorResponse::new`
unfoldable pub new_error : ErrorCode → Bytes → ErrorResponse
new_error c msg = record { code = c; message = msg; details = none }

-- `ErrorResponse::with_details`
unfoldable pub with_details : ErrorCode → Bytes → ErrorDetails → ErrorResponse
with_details c msg d = record { code = c; message = msg; details = some d }

pub record GetFields : Type 0 where
  pub path : Bytes
  pub offset : ℕ
  pub len : Option ℕ
  pub accept_encoding : List Encoding

pub record PutFields : Type 0 where
  pub path : Bytes
  pub size : ℕ
  pub mode : ℕ
  pub offset : ℕ
  pub hash_algorithm : HashAlgorithm
  pub checksum : Option Bytes
  pub no_clobber : Bool
  pub checksum_trailer : Bool
  pub encoding : Encoding
  pub plaintext_size : ℕ

pub data Request : Type 0 where
  ls : (path : Bytes) → (cursor : Option Bytes) → Request
  cd : (path : Bytes) → Request
  pwd : Request
  get : GetFields → Request
  put : PutFields → Request
  mkdir : (path : Bytes) → Request
  rmdir : (path : Bytes) → Request
  rm : (path : Bytes) → Request
  rename : (from_path to_path : Bytes) → Request
  chmod : (path : Bytes) → (mode : ℕ) → Request
  stat : (path : Bytes) → Request
  quota : Request
  quit : Request

pub record FileStat : Type 0 where
  pub file_type : FileType
  pub size : ℕ
  pub modified : ℕ
  pub mtime_nanos : ℕ
  pub uid : ℕ
  pub gid : ℕ
  pub mode : ℕ

pub record DirEntry : Type 0 where
  pub name : Bytes
  pub file_type : FileType
  pub size : ℕ
  pub modified : ℕ
  pub mtime_nanos : ℕ
  pub uid : ℕ
  pub gid : ℕ
  pub mode : ℕ

abbrev is_directory : FileType → Bool
is_directory directory = true
is_directory _ = false

-- `DirEntry::is_dir`
unfoldable pub entry_is_dir : DirEntry → Bool
entry_is_dir e = is_directory e.file_type

-- `FileStat::is_dir`
unfoldable pub stat_is_dir : FileStat → Bool
stat_is_dir s = is_directory s.file_type

pub record FileReadyFields : Type 0 where
  pub size : ℕ
  pub total_size : ℕ
  pub checksum_follows : Bool
  pub hash_algorithm : HashAlgorithm
  pub encoding : Encoding
  pub plaintext_size : ℕ

pub data Response : Type 0 where
  ok_response : Response
  err_response : ErrorResponse → Response
  dir_listing : (entries : List DirEntry) → (next_cursor : Option Bytes) → Response
  path_response : Bytes → Response
  file_stat : FileStat → Response
  file_ready : FileReadyFields → Response
  quota_info : (used_bytes file_count : ℕ) → (limit_bytes : Option ℕ) → Response
