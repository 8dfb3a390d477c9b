-- ===== src/Upload/Decoder.antt =====
-- `ZstdDecoder` of crates/qftp-protocol/src/compress.rs, over the decoder of the zstd library.
pub mod Bounded
use qftp.Prelude.{
  ℕ, zero, suc, ◌+◌, ◌-◌, ◌*◌, ◌≤◌, min, Bytes, Bool, true, false, not, ◌&&◌, Option, none, some,
  List, [], ◌∷◌, ◌++◌, ◌≡◌, length, take, drop, ltb, ◌==◌, nat_eq, if◌then◌else◌, Result, ok, err,
}

-- What one call of the library's `run` reports: how much of the input it read, what it wrote, and
-- what it returned, 0 at the end of a frame.
pub record Run : Type 0 where
  pub consumed : ℕ
  pub written : Bytes
  pub hint : ℕ

-- The library's decoder: `run input capacity`; `none` is an error.
pub record Zstd (Z : Type 0) : Type 0 where
  pub fresh : Option Z
  pub run : Bytes → ℕ → Z → Option Run × Z

-- What the library documents of `run`: it reads no more than there is, and writes no more than the
-- room it is given.
pub record IsZstd {Z : Type 0} (z : Zstd Z) : Type 0 where
  pub reads :
      (input : Bytes) (capacity : ℕ) (s : Z) (r : Run)
      → (z.run input capacity s).0 ≡ some r
      → r.consumed ≤ length input
  pub writes :
      (input : Bytes) (capacity : ℕ) (s : Z) (r : Run)
      → (z.run input capacity s).0 ≡ some r
      → length r.written ≤ capacity

-- `CompressionError`; `out_of_rounds` stands for a loop that has not ended.
pub data CompressionError : Type 0 where
  codec truncated no_progress out_of_rounds : CompressionError
  plaintext_limit : (max_plaintext : ℕ) → CompressionError

-- `pending` is what of the decoded bytes has not been consumed.
pub record ZstdDecoder (Z : Type 0) : Type 0 where
  pub inner : Z
  pub pending : Bytes
  pub decoded : ℕ
  pub max_plaintext : ℕ
  pub frame_complete : Bool

abbrev pub codec_chunk : ℕ
codec_chunk = 64 * 1024

pub record DecodeProgress : Type 0 where
  pub consumed : ℕ
  pub frame_complete : Bool

module _ {Z : Type 0} (z : Zstd Z) where
  -- `ZstdDecoder::new`
  unfoldable pub new_decoder : ℕ → Option (ZstdDecoder Z)
  new_decoder max_plaintext = elim z.fresh [
    | none ↦ none
    | some inner ↦ some (record {
      inner = inner;
      pending = [];
      decoded = 0;
      max_plaintext = max_plaintext;
      frame_complete = false;
    })
  ]

  abbrev pub capacity_for : ℕ → ℕ
  capacity_for room = if room == 0 then 1 else min codec_chunk room

  -- `run_decoder_step`, on what is left of the input
  unfoldable pub run_decoder_step :
      Bytes → ZstdDecoder Z → Result CompressionError Run × ZstdDecoder Z
  run_decoder_step input d =
      let room = d.max_plaintext - d.decoded in
      let (answer, inner) = z.run input (capacity_for room) d.inner in
      elim answer [
        | none ↦ (err codec, record d { inner = inner })
        | some r ↦
            if ltb room (length r.written)
            then (err (plaintext_limit d.max_plaintext), record d { inner = inner })
            else (
              ok r,
              record d {
                inner = inner;
                decoded = d.decoded + length r.written;
                pending = d.pending ++ r.written;
              },
            )
      ]

  abbrev pub Pushed : Type 0
  Pushed = Result CompressionError DecodeProgress × ZstdDecoder Z

  -- One round of the loop of `push` behind its step; `pos` is how much of the input was read before.
  abbrev pub push_after :
      (ℕ → Bytes → ZstdDecoder Z → Pushed)
      → ℕ
      → Bytes
      → ℕ
      → Result CompressionError Run × ZstdDecoder Z
      → Pushed
  push_after further pos input capacity (err e, d) = (err e, d)
  push_after further pos input capacity (ok r, d) =
      if r.hint == 0
      then (
        ok (record { consumed = pos + r.consumed; frame_complete = true }),
        record d { frame_complete = true },
      )
      else if r.consumed == length input && ltb (length r.written) capacity
      then (ok (record { consumed = pos + r.consumed; frame_complete = false }), d)
      else if r.consumed == 0 && length r.written == 0
      then (err no_progress, d)
      else further (pos + r.consumed) (drop r.consumed input) d

  -- The loop, on rounds
  unfoldable pub push_loop : ℕ → ℕ → Bytes → ZstdDecoder Z → Pushed
  unfolding run_decoder_step
  push_loop zero pos input d = (err out_of_rounds, d)
  push_loop (suc rounds) pos input d =
      push_after (push_loop rounds) pos input (capacity_for (d.max_plaintext - d.decoded))
        (run_decoder_step input d)

  -- Each round but the last reads or writes a byte.
  unfoldable pub push :
      Bytes → ZstdDecoder Z → Result CompressionError DecodeProgress × ZstdDecoder Z
  unfolding push_loop
  push compressed d =
      if d.frame_complete
      then (ok (record { consumed = 0; frame_complete = true }), d)
      else push_loop (suc (length compressed + (d.max_plaintext - d.decoded))) 0 compressed d

  -- `finish`
  unfoldable pub finish : ZstdDecoder Z → Result CompressionError (Unit {0})
  finish d = if d.frame_complete then ok tt else err truncated
