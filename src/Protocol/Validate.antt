-- ===== src/Protocol/Validate.antt =====
-- The size caps of crates/qftp-common/src/protocol.rs, applied to every decoded message.
pub mod Caps
use qftp.Prelude.{
  ℕ, ◌*◌, Bytes, Option, none, some, List, [], ◌∷◌, length, ltb, if◌then◌else◌, Result, ok, err,
  ◌>>=◌, ◌>>◌,
}
use qftp.Protocol.Messages.{
  Request, ls, cd, pwd, get, put, mkdir, rmdir, rm, rename, chmod, stat, quota, quit, Response,
  ok_response, err_response, dir_listing, path_response, file_stat, file_ready, quota_info,
  DirEntry,
}

abbrev pub max_path_len : ℕ
max_path_len = 4 * 1024

abbrev pub max_error_message_len : ℕ
max_error_message_len = 1024

abbrev pub max_dir_entries : ℕ
max_dir_entries = 100000

abbrev pub max_checksum_len : ℕ
max_checksum_len = 64

-- the `&'static str` that an error names its field by
pub data Field : Type 0 where
  path_field cursor_field from_field to_field entry_name_field response_path_field : Field

pub data ValidationError : Type 0 where
  path_too_long : (field : Field) → (len max_len : ℕ) → ValidationError
  error_message_too_long : (len max_len : ℕ) → ValidationError
  dir_entries_too_many : (len max_len : ℕ) → ValidationError
  checksum_too_long : (len max_len : ℕ) → ValidationError

abbrev pub Checked : Type 0
Checked = Result ValidationError (Unit {0})

unfoldable pub check_path : Field → Bytes → Checked
check_path field value =
    if ltb max_path_len (length value)
    then err (path_too_long field (length value) max_path_len)
    else ok tt

-- `if let Some(c) = cursor { check_path("cursor", c)?; }`
abbrev check_cursor : Option Bytes → Checked
check_cursor none = ok tt
check_cursor (some c) = check_path cursor_field c

abbrev check_checksum : Option Bytes → Checked
check_checksum none = ok tt
check_checksum (some c) =
    if ltb max_checksum_len (length c)
    then err (checksum_too_long (length c) max_checksum_len)
    else ok tt

unfoldable pub validate_request : Request → Checked
unfolding check_path
validate_request (ls path cursor) = do check_path path_field path; check_cursor cursor
validate_request (put f) = do check_path path_field f.path; check_checksum f.checksum
validate_request (cd path) = check_path path_field path
validate_request (get f) = check_path path_field f.path
validate_request (mkdir path) = check_path path_field path
validate_request (rmdir path) = check_path path_field path
validate_request (rm path) = check_path path_field path
validate_request (chmod path mode) = check_path path_field path
validate_request (stat path) = check_path path_field path
validate_request (rename from_path to_path) = do
  check_path from_field from_path
  check_path to_field to_path
validate_request pwd = ok tt
validate_request quit = ok tt
validate_request quota = ok tt

-- the `for entry in entries` loop
check_entries : List DirEntry → Checked
check_entries [] = ok tt
check_entries (e ∷ es) = do check_path entry_name_field e.name; check_entries es

unfoldable pub validate_response : Response → Checked
unfolding check_path check_entries
validate_response (err_response e) =
    if ltb max_error_message_len (length e.message)
    then err (error_message_too_long (length e.message) max_error_message_len)
    else ok tt
validate_response (dir_listing entries next_cursor) =
    if ltb max_dir_entries (length entries)
    then err (dir_entries_too_many (length entries) max_dir_entries)
    else check_entries entries
validate_response (path_response p) = check_path response_path_field p
validate_response ok_response = ok tt
validate_response (file_stat s) = ok tt
validate_response (file_ready f) = ok tt
validate_response (quota_info used count limit) = ok tt
