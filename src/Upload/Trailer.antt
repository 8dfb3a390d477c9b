-- ===== src/Upload/Trailer.antt =====
-- The buffer of the 32-byte checksum trailer: `TrailerBuf` and `resolve_put_checksum` of
-- crates/qftp-protocol/src/stream.rs.
pub mod Filling
use qftp.Prelude.{
  ℕ, ◌+◌, ◌-◌, min, Bytes, Bool, true, false, ◌&&◌, Option, none, some, List, ◌++◌, length, take,
  drop, replicate, ◌==◌, nat_eq, if◌then◌else◌,
}

-- `bytes` is the array of 32.
pub record TrailerBuf : Type 0 where
  pub bytes : Bytes
  pub filled : ℕ

abbrev pub new_trailer : TrailerBuf
new_trailer = record { bytes = replicate 32 0; filled = 0 }

unfoldable pub remaining : TrailerBuf → ℕ
remaining b = 32 - b.filled

unfoldable pub is_full : TrailerBuf → Bool
is_full b = b.filled == 32

-- How many bytes were taken, and the buffer after it.
unfoldable pub extend : Bytes → TrailerBuf → ℕ × TrailerBuf
unfolding remaining
extend src b =
    let want = min (remaining b) (length src) in
    let start = b.filled in
    (
      want,
      record {
        bytes = take start b.bytes ++ take want src ++ drop (start + want) b.bytes;
        filled = start + want;
      },
    )

unfoldable pub resolve_put_checksum : Bool → TrailerBuf → Option Bytes → Option Bytes
unfolding is_full
resolve_put_checksum checksum_trailer trailer header_checksum =
    if checksum_trailer && is_full trailer then some trailer.bytes else header_checksum
