-- ===== src/Protocol/Codes/RoundTrip.antt =====
-- The numeric enums of crates/qftp-common/src/protocol.rs survive the wire in both directions.
use qftp.Prelude.{ℕ, ◌≤◌, ◌<◌, ◌≡◌, ◌↔◌, refl, arith}
use qftp.Protocol.Codes.{
  ErrorCode, client, file_type_to_u32, file_type_from_u32, hash_algorithm_to_u32,
  hash_algorithm_from_u32, encoding_to_u32, encoding_from_u32, error_code_to_u32,
  error_code_from_u32, class,
}

-- A value is canonical if it is what its own number decodes to: no `unknown` holds a named number.
abbrev pub IsCanonical : ErrorCode → Type 0
IsCanonical (ErrorCode.unknown n) = error_code_from_u32 n ≡ ErrorCode.unknown n
IsCanonical _ = Unit {0}

file_type_wire : (n : ℕ) → file_type_to_u32 (file_type_from_u32 n) ≡ n
unfolding file_type_to_u32 file_type_from_u32
file_type_wire n = ground arith

hash_algorithm_wire : (n : ℕ) → hash_algorithm_to_u32 (hash_algorithm_from_u32 n) ≡ n
unfolding hash_algorithm_to_u32 hash_algorithm_from_u32
hash_algorithm_wire n = ground arith

encoding_wire : (n : ℕ) → encoding_to_u32 (encoding_from_u32 n) ≡ n
unfolding encoding_to_u32 encoding_from_u32
encoding_wire n = ground arith

error_code_wire : (n : ℕ) → error_code_to_u32 (error_code_from_u32 n) ≡ n
unfolding error_code_to_u32 error_code_from_u32
error_code_wire n = ground arith

-- Whatever number arrives for a file type, a hash algorithm, an encoding or an error code, decoding
-- it and encoding the result gives the same number.
pub to_u32-from_u32 :
    (n : ℕ)
    → (file_type_to_u32 (file_type_from_u32 n) ≡ n)
      × (hash_algorithm_to_u32 (hash_algorithm_from_u32 n) ≡ n)
      × (encoding_to_u32 (encoding_from_u32 n) ≡ n)
      × (error_code_to_u32 (error_code_from_u32 n) ≡ n)
to_u32-from_u32 n = (file_type_wire n, hash_algorithm_wire n, encoding_wire n, error_code_wire n)

error_code_from-to : (c : ErrorCode) → IsCanonical c → error_code_from_u32 (error_code_to_u32 c) ≡ c
unfolding error_code_to_u32 error_code_from_u32
error_code_from-to (ErrorCode.unknown n) h = h
error_code_from-to ErrorCode.not_found h = refl
error_code_from-to _ h = refl

-- Two canonical error codes with one number are one code, so a peer never confuses two of them.
pub error_code_to_u32-injective :
    (c d : ErrorCode)
    → IsCanonical c
    → IsCanonical d
    → error_code_to_u32 c ≡ error_code_to_u32 d
    → c ≡ d
error_code_to_u32-injective c d hc hd e = cc (error_code_from-to c hc, error_code_from-to d hd, e)

-- A code is the client's fault exactly if its number is 400 to 499.
pub class-client :
    (c : ErrorCode)
    → (class c ≡ client) ↔ ((400 ≤ error_code_to_u32 c) × (error_code_to_u32 c < 500))
unfolding class
class-client c = ground arith
