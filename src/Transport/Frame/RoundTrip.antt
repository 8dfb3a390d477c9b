-- ===== src/Transport/Frame/RoundTrip.antt =====
-- Frames of crates/qftp-common/src/transport.rs from encoder to decoder.
use qftp.Prelude.{
  ℕ, ◌+◌, ◌≤◌, ◌<◌, ◌^◌, ◌≡◌, refl, sym, ap, ◌∙◌, arith, Bytes, none, some, ◌++◌, length, take,
  to_be_bytes, length-append, length-to_be_bytes, from_be_bytes-to_be_bytes, take-length_append,
  take-append_front, drop-length_append, ok, err,
}
use mathlib.Core.List.{append_assoc}
use qftp.Transport.Frame.{
  max_message_size, Bincode, IsFaithful, frame_too_large, encode_framed_message,
  decode_framed_message, decode_payload,
}

module _ {M : Type 0} (b : Bincode M) where
  -- An encoded frame is the big-endian length of the payload, in four bytes, and the payload.
  encode-shape :
      (m : M) {frame : Bytes}
      → IsFaithful b
      → encode_framed_message b m ≡ ok frame
      → (frame ≡ to_be_bytes 4 (length (b.serialize m)) ++ b.serialize m)
        × (length (b.serialize m) ≤ max_message_size)
  unfolding encode_framed_message
  encode-shape m f h = ground (arith, f.size_exact m)

  -- The decoder on a frame that is all there.
  decode-whole :
      (payload rest : Bytes)
      → length payload ≤ max_message_size
      → decode_framed_message b (to_be_bytes 4 (length payload) ++ (payload ++ rest))
        ≡ decode_payload b (length payload) (to_be_bytes 4 (length payload) ++ (payload ++ rest))
  unfolding decode_framed_message
  decode-whole payload rest h =
      let n = length payload in
      let header = to_be_bytes 4 n in
      ground (
        arith,
        take-length_append 4 header (payload ++ rest) (length-to_be_bytes 4 n),
        from_be_bytes-to_be_bytes 4 n (omega arith),
        length-to_be_bytes 4 n,
        length-append header (payload ++ rest),
        length-append payload rest,
      )

  decode_payload-encoded :
      (m : M) (rest : Bytes)
      → IsFaithful b
      → length (b.serialize m) ≤ max_message_size
      → decode_payload b
          (length (b.serialize m))
          (to_be_bytes 4 (length (b.serialize m)) ++ (b.serialize m ++ rest))
        ≡ (ok (some m), rest)
  decode_payload-encoded m rest f h =
      let p = b.serialize m in
      let header = to_be_bytes 4 (length p) in
      ground (
        arith,
        drop-length_append 4 header (p ++ rest) (length-to_be_bytes 4 (length p)),
        take-length_append (length p) p rest refl,
        f.decodes m h,
        append_assoc header p rest,
        drop-length_append (4 + length p) (header ++ p) rest
            (omega (arith, length-append header p, length-to_be_bytes 4 (length p))),
      )

  -- The decoder reads back the message that the encoder framed, whatever follows the frame, and
  -- leaves exactly what follows in the buffer.
  pub decode-encode :
      (m : M) (frame rest : Bytes)
      → IsFaithful b
      → encode_framed_message b m ≡ ok frame
      → decode_framed_message b (frame ++ rest) ≡ (ok (some m), rest)
  decode-encode m frame rest f h =
      let p = b.serialize m in
      let header = to_be_bytes 4 (length p) in
      let (shape, small) = encode-shape m f h in
      cc (
        shape,
        append_assoc header p rest,
        decode-whole p rest small,
        decode_payload-encoded m rest f small,
      )

  header-first :
      (front back payload : Bytes)
      → front ++ back ≡ to_be_bytes 4 (length payload) ++ payload
      → 4 ≤ length front
      → take 4 front ≡ to_be_bytes 4 (length payload)
  header-first front back payload e h =
      sym (take-append_front 4 front back h)
      ∙ ap (take 4) e
      ∙ take-length_append 4 _ payload (length-to_be_bytes 4 (length payload))

  -- Of a frame cut short, however few of its bytes have arrived, the decoder says that it waits,
  -- and it keeps the bytes.
  pub decode-prefix :
      (m : M) (frame front back : Bytes)
      → IsFaithful b
      → encode_framed_message b m ≡ ok frame
      → front ++ back ≡ frame
      → 0 < length back
      → decode_framed_message b front ≡ (ok none, front)
  unfolding decode_framed_message
  decode-prefix m frame front back f h e more =
      let p = b.serialize m in
      let header = to_be_bytes 4 (length p) in
      let (shape, small) = encode-shape m f h in
      let whole : front ++ back ≡ header ++ p = e ∙ shape in
      ground (
        arith,
        header-first front back p whole,
        from_be_bytes-to_be_bytes 4 (length p) (omega arith),
        ap length whole,
        length-append front back,
        length-append header p,
        length-to_be_bytes 4 (length p),
      )

  -- A header that announces more than 16 MiB is refused as soon as its four bytes are there.
  pub decode-oversize :
      (n : ℕ) (rest : Bytes)
      → max_message_size < n
      → n < 2 ^ 32
      → decode_framed_message b (to_be_bytes 4 n ++ rest)
        ≡ (err (frame_too_large n max_message_size), to_be_bytes 4 n ++ rest)
  unfolding decode_framed_message
  decode-oversize n rest big word =
      let header = to_be_bytes 4 n in
      ground (
        arith,
        take-length_append 4 header rest (length-to_be_bytes 4 n),
        from_be_bytes-to_be_bytes 4 n (omega arith),
        length-to_be_bytes 4 n,
        length-append header rest,
      )

  -- What the decoder leaves is a part of the buffer: it drains nothing unless it returns a message.
  pub decode_keeps :
      (buf : Bytes)
      → (decode_framed_message b buf).0 ≡ ok none
      → (decode_framed_message b buf).1 ≡ buf
  unfolding decode_framed_message
  decode_keeps buf h = ground arith
