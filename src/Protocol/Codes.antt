-- ===== src/Protocol/Codes.antt =====
-- The numeric enums of crates/qftp-common/src/protocol.rs: each value travels as one `u32`, and a
-- number without a name decodes to `unknown`.
pub mod RoundTrip
use qftp.Prelude.{ℕ, ◌/◌, Bool, true, false, Option, none, some, ◌==◌, nat_eq, if◌then◌else◌}

pub data FileType : Type 0 where
  regular directory symlink other : FileType
  unknown : ℕ → FileType

pub data HashAlgorithm : Type 0 where
  blake3 : HashAlgorithm
  unknown : ℕ → HashAlgorithm

pub data Encoding : Type 0 where
  identity zstd : Encoding
  unknown : ℕ → Encoding

pub data ErrorCode : Type 0 where
  not_found permission_denied already_exists not_a_directory is_a_directory : ErrorCode
  file_too_large upload_overflow upload_truncated decode_error checksum_mismatch : ErrorCode
  rate_limited malformed internal unauthorized invalid_range unsupported : ErrorCode
  quota_exceeded : ErrorCode
  unknown : ℕ → ErrorCode

pub data ErrorClass : Type 0 where
  client server : ErrorClass

unfoldable pub file_type_to_u32 : FileType → ℕ
file_type_to_u32 regular = 0
file_type_to_u32 directory = 1
file_type_to_u32 symlink = 2
file_type_to_u32 other = 3
file_type_to_u32 (unknown n) = n

unfoldable pub file_type_from_u32 : ℕ → FileType
file_type_from_u32 n =
    if n == 0
    then regular
    else if n == 1
    then directory
    else if n == 2
    then symlink
    else if n == 3
    then other
    else unknown n

unfoldable pub hash_algorithm_to_u32 : HashAlgorithm → ℕ
hash_algorithm_to_u32 blake3 = 0
hash_algorithm_to_u32 (unknown n) = n

unfoldable pub hash_algorithm_from_u32 : ℕ → HashAlgorithm
hash_algorithm_from_u32 n = if n == 0 then blake3 else unknown n

unfoldable pub digest_len : HashAlgorithm → Option ℕ
digest_len blake3 = some 32
digest_len (unknown n) = none

unfoldable pub encoding_to_u32 : Encoding → ℕ
encoding_to_u32 identity = 0
encoding_to_u32 zstd = 1
encoding_to_u32 (unknown n) = n

unfoldable pub encoding_from_u32 : ℕ → Encoding
encoding_from_u32 n = if n == 0 then identity else if n == 1 then zstd else unknown n

unfoldable pub is_supported : Encoding → Bool
is_supported identity = true
is_supported zstd = true
is_supported (unknown n) = false

unfoldable pub error_code_to_u32 : ErrorCode → ℕ
error_code_to_u32 malformed = 400
error_code_to_u32 unauthorized = 401
error_code_to_u32 permission_denied = 403
error_code_to_u32 not_found = 404
error_code_to_u32 unsupported = 405
error_code_to_u32 already_exists = 409
error_code_to_u32 file_too_large = 413
error_code_to_u32 invalid_range = 416
error_code_to_u32 not_a_directory = 420
error_code_to_u32 is_a_directory = 421
error_code_to_u32 checksum_mismatch = 422
error_code_to_u32 upload_overflow = 423
error_code_to_u32 upload_truncated = 424
error_code_to_u32 rate_limited = 429
error_code_to_u32 quota_exceeded = 430
error_code_to_u32 decode_error = 431
error_code_to_u32 internal = 500
error_code_to_u32 (unknown n) = n

unfoldable pub error_code_from_u32 : ℕ → ErrorCode
error_code_from_u32 n =
    if n == 400
    then malformed
    else if n == 401
    then unauthorized
    else if n == 403
    then permission_denied
    else if n == 404
    then not_found
    else if n == 405
    then unsupported
    else if n == 409
    then already_exists
    else if n == 413
    then file_too_large
    else if n == 416
    then invalid_range
    else if n == 420
    then not_a_directory
    else if n == 421
    then is_a_directory
    else if n == 422
    then checksum_mismatch
    else if n == 423
    then upload_overflow
    else if n == 424
    then upload_truncated
    else if n == 429
    then rate_limited
    else if n == 430
    then quota_exceeded
    else if n == 431
    then decode_error
    else if n == 500
    then internal
    else unknown n

unfoldable pub class : ErrorCode → ErrorClass
class c = if error_code_to_u32 c / 100 == 4 then client else server
