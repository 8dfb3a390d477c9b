-- ===== src/Upload/Split.antt =====
-- `classify_put_chunk` of crates/qftp-protocol/src/stream.rs: which bytes of a chunk are body and
-- which are trailer.
pub mod Stream
use qftp.Prelude.{
  ℕ, ◌-◌, min, Bool, true, false, not, ltb, ◌==◌, nat_eq, if◌then◌else◌, Result, ok, err,
}

pub data PutOverflow : Type 0 where
  body_exceeded trailer_exceeded : PutOverflow

pub record PutChunkSplit : Type 0 where
  pub to_body : ℕ
  pub to_trailer : ℕ

unfoldable pub classify_put_chunk : ℕ → ℕ → Bool → ℕ → Result PutOverflow PutChunkSplit
classify_put_chunk chunk_len body_remaining checksum_trailer trailer_remaining =
    let to_body = min chunk_len body_remaining in
    let after_body = chunk_len - to_body in
    if after_body == 0
    then ok (record { to_body = to_body; to_trailer = 0 })
    else if not checksum_trailer
    then err body_exceeded
    else if ltb trailer_remaining after_body
    then err trailer_exceeded
    else ok (record { to_body = to_body; to_trailer = after_body })
