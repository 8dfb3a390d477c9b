-- ===== src/Upload/Split/Stream.antt =====
-- A whole stream of chunks through `classify_put_chunk` of crates/qftp-protocol/src/stream.rs, as the
-- loops of phase A and phase B in `drive_put` of crates/qftp-server/src/transfer_put.rs use it for an
-- uncompressed body, before the end of the stream is seen.
use qftp.Prelude.{
  ℕ, ◌+◌, ◌-◌, ◌<◌, min, Bytes, Bool, true, false, List, [], ◌∷◌, ◌++◌, length, take, drop, leb,
  ltb, nat_eq, if◌then◌else◌, Result, ok, err, ◌>>=◌, ◌≡◌,
}
use qftp.Upload.Split.{PutOverflow, trailer_exceeded, PutChunkSplit, classify_put_chunk}

-- What was split so far: the body and the trailer.
pub record Received : Type 0 where
  pub body : Bytes
  pub trailer : Bytes

abbrev pub trailer_room : Bool → Bytes → ℕ
trailer_room true trailer = 32 - length trailer
trailer_room false trailer = 0

abbrev apply_split :
    Bytes → Received → Result PutOverflow PutChunkSplit → Result PutOverflow Received
apply_split chunk r (err e) = err e
apply_split chunk r (ok split) = ok (record {
  body = r.body ++ take split.to_body chunk;
  trailer = r.trailer ++ take split.to_trailer (drop split.to_body chunk);
})

-- One chunk of phase A, of an upload that declared `size` bytes of body.
unfoldable pub receive : ℕ → Bool → Bytes → Received → Result PutOverflow Received
receive size checksum_trailer chunk r = apply_split chunk r (
    classify_put_chunk (length chunk) (size - length r.body) checksum_trailer
      (trailer_room checksum_trailer r.trailer))

-- Phase B with a trailer: `while !buf.is_full()`; what is behind a full trailer is not read.
unfoldable pub receive_trailer : List Bytes → Received → Result PutOverflow Received
receive_trailer [] r = ok r
receive_trailer (chunk ∷ more) r =
    let consumed = min (32 - length r.trailer) (length chunk) in
    let rest = receive_trailer more (record r { trailer = r.trailer ++ take consumed chunk }) in
    if leb 32 (length r.trailer)
    then ok r
    else if ltb consumed (length chunk)
    then err trailer_exceeded
    else rest

-- Phase A, which ends once the body is there, and phase B
unfoldable pub receive_all : ℕ → Bool → List Bytes → Received → Result PutOverflow Received
unfolding receive receive_trailer
receive_all size checksum_trailer [] r = ok r
receive_all size checksum_trailer (chunk ∷ more) r =
    let rest = receive size checksum_trailer chunk r >>= receive_all size checksum_trailer more in
    if leb size (length r.body)
    then if checksum_trailer then receive_trailer (chunk ∷ more) r else ok r
    else rest

abbrev pub concat : List Bytes → Bytes
concat [] = []
concat (c ∷ cs) = c ++ concat cs

-- `all` cut after the body.
abbrev cut : ℕ → Bytes → Received
cut size all = record { body = take size all; trailer = drop size all }

-- What an upload is taken for: the body, and the trailer if one was announced.
abbrev pub taken : ℕ → Bool → Bytes → Received
taken size checksum_trailer all = record {
  body = take size all;
  trailer = if checksum_trailer then take 32 (drop size all) else [];
}

abbrev pub allowed : ℕ → Bool → ℕ
allowed size true = size + 32
allowed size false = size

-- A chunk that fits: the body gets what it still lacks, the trailer the rest.
abbrev filled_by : ℕ → Bytes → Received → Received
filled_by lacking chunk r = record {
  body = r.body ++ take lacking chunk;
  trailer = r.trailer ++ drop lacking chunk;
}

-- What becomes of a whole upload, however it was cut into chunks.
abbrev pub IsExpected : ℕ → Bool → Bytes → Result PutOverflow Received → Type 0
IsExpected size checksum_trailer all (ok r) = r ≡ taken size checksum_trailer all
IsExpected size checksum_trailer all (err e) = allowed size checksum_trailer < length all
