-- ===== src/Transport/Frame.antt =====
-- Length-prefixed frames: `encode_framed_message` and `decode_framed_message` of
-- crates/qftp-common/src/transport.rs, over the bincode library.
pub mod RoundTrip
use qftp.Prelude.{
  ℕ, ◌+◌, ◌*◌, ◌≤◌, ◌%◌, ◌^◌, ◌≡◌, Bytes, Option, none, some, ◌++◌, length, take, drop, ltb,
  if◌then◌else◌, to_be_bytes, from_be_bytes, Result, ok, err,
}

abbrev pub max_message_size : ℕ
max_message_size = 16 * 1024 * 1024

-- What the code calls of bincode, at the message type `M`. `deserialize` has the options of
-- `make_bincode_options`; `none` is its error.
pub record Bincode (M : Type 0) : Type 0 where
  pub serialized_size : M → ℕ
  pub serialize : M → Bytes
  pub deserialize : Bytes → Option M

-- What bincode documents: the size is that of the serialized bytes, and a payload within the
-- decode limit decodes to the message that was serialized.
pub record IsFaithful {M : Type 0} (b : Bincode M) : Type 0 where
  pub size_exact : (m : M) → b.serialized_size m ≡ length (b.serialize m)
  pub decodes :
      (m : M) → length (b.serialize m) ≤ max_message_size → b.deserialize (b.serialize m) ≡ some m

pub data TransportError : Type 0 where
  frame_too_large : (actual max_size : ℕ) → TransportError
  bincode_error : TransportError
  stream_blocked : TransportError
  quic_error : TransportError
  -- no error of the program: the model's loop ran out of rounds
  out_of_rounds : TransportError

module _ {M : Type 0} (b : Bincode M) where
  unfoldable pub encode_framed_message : M → Result TransportError Bytes
  encode_framed_message msg =
      let payload_len = b.serialized_size msg in
      if ltb max_message_size payload_len
      then err (frame_too_large payload_len max_message_size)
      else ok (to_be_bytes 4 (payload_len % 2 ^ 32) ++ b.serialize msg)

  -- The payload is there: decode it and drain its bytes, or fail and leave the buffer.
  abbrev decode_payload : ℕ → Bytes → Result TransportError (Option M) × Bytes
  decode_payload msg_len stream_buf = elim (b.deserialize (take msg_len (drop 4 stream_buf))) [
    | none ↦ (err bincode_error, stream_buf)
    | some msg ↦ (ok (some msg), drop (4 + msg_len) stream_buf)
  ]

  -- The result, and the buffer that is left.
  unfoldable pub decode_framed_message : Bytes → Result TransportError (Option M) × Bytes
  decode_framed_message stream_buf =
      let msg_len = from_be_bytes (take 4 stream_buf) in
      if ltb (length stream_buf) 4
      then (ok none, stream_buf)
      else if ltb max_message_size msg_len
      then (err (frame_too_large msg_len max_message_size), stream_buf)
      else if ltb (length stream_buf) (4 + msg_len)
      then (ok none, stream_buf)
      else decode_payload msg_len stream_buf
