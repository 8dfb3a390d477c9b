-- ===== src/Transport/Stream.antt =====
-- Writing and reading a stream: `stream_send_all`, `send_message` and `recv_message` of
-- crates/qftp-common/src/transport.rs, over the QUIC library.
pub mod Sending
pub mod Progress
pub mod Receiving
use qftp.Prelude.{
  ℕ, zero, suc, ◌+◌, ◌-◌, ◌≤◌, ◌≡◌, Bytes, Bool, true, false, Option, none, some, List, [], ◌∷◌,
  ◌++◌, length, take, drop, ltb, if◌then◌else◌, ◌==◌, nat_eq, Result, ok, err, ◌>>=◌,
}
use qftp.Transport.Frame.{
  Bincode, TransportError, stream_blocked, quic_error, out_of_rounds, encode_framed_message,
  decode_framed_message,
}

-- One stream of a QUIC connection: `stream_send data fin` answers how many bytes were accepted, or
-- `none` for an error of the library.
pub record Quic (S : Type 0) : Type 0 where
  pub stream_send : Bytes → Bool → S → Option ℕ × S

-- What QUIC documents of `stream_send`, with `queued` the bytes handed to the transport so far and
-- `finished` whether the FIN was: an accepted prefix of the data is queued, and nothing else.
pub record IsStream {S : Type 0} (q : Quic S) (queued : S → Bytes) (finished : S → Bool)
    : Type 0 where
  pub accepts :
      (bytes_in : Bytes) (fin : Bool) (s : S) (n : ℕ)
      → (q.stream_send bytes_in fin s).0 ≡ some n
      → (n ≤ length bytes_in)
        × (queued (q.stream_send bytes_in fin s).1 ≡ queued s ++ take n bytes_in)
  pub keeps_open :
      (bytes_in : Bytes) (s : S) → finished (q.stream_send bytes_in false s).1 ≡ finished s
  pub finishes :
      (s : S) (n : ℕ)
      → (q.stream_send [] true s).0 ≡ some n
      → finished (q.stream_send [] true s).1 ≡ true

module _ {S : Type 0} (q : Quic S) where
  -- the `while offset < data.len()` loop, over what is left of the data
  pub send_loop : ℕ → Bytes → S → Result TransportError (Unit {0}) × S
  send_loop rounds [] s = (ok tt, s)
  send_loop zero (x ∷ xs) s = (err out_of_rounds, s)
  send_loop (suc rounds) (x ∷ xs) s =
      let (written, s') = q.stream_send (x ∷ xs) false s in
      elim written [
        | none ↦ (err quic_error, s')
        | some n ↦
            let rest = send_loop rounds (drop n (x ∷ xs)) s' in
            if n == 0 then (err stream_blocked, s') else rest
      ]

  abbrev send_fin :
      Bool → Result TransportError (Unit {0}) × S → Result TransportError (Unit {0}) × S
  send_fin fin (err e, s) = (err e, s)
  send_fin false (ok u, s) = (ok u, s)
  send_fin true (ok u, s) =
      let (written, s') = q.stream_send [] true s in
      elim written [ none ↦ (err quic_error, s') | some n ↦ (ok tt, s') ]

  -- Every accepted write takes a byte at least, so `length` rounds are enough.
  unfoldable pub stream_send_all : Bytes → Bool → S → Result TransportError (Unit {0}) × S
  unfolding send_loop
  stream_send_all bytes_in fin s = send_fin fin (send_loop (length bytes_in) bytes_in s)

  unfoldable pub send_message :
      {M : Type 0} → Bincode M → M → S → Result TransportError (Unit {0}) × S
  unfolding stream_send_all
  send_message b msg s = elim (encode_framed_message b msg) [
    | err e ↦ (err e, s)
    | ok frame ↦ stream_send_all frame false s
  ]

-- One answer of `stream_recv`: bytes, no bytes now, the state after the peer's FIN, or an error.
pub data Recv : Type 0 where
  received : Bytes → Recv
  done invalid_stream_state failed : Recv

-- The loop of `recv_message` over the answers of `stream_recv`, up to the first that ends it.
unfoldable pub read_stream : List Recv → Bytes → Result TransportError (Unit {0}) × Bytes
read_stream [] stream_buf = (ok tt, stream_buf)
read_stream (received chunk ∷ more) stream_buf = read_stream more (stream_buf ++ chunk)
read_stream (done ∷ more) stream_buf = (ok tt, stream_buf)
read_stream (invalid_stream_state ∷ more) stream_buf = (ok tt, stream_buf)
read_stream (failed ∷ more) stream_buf = (err quic_error, stream_buf)

abbrev decode_read :
    {M : Type 0}
    → Bincode M
    → Result TransportError (Unit {0}) × Bytes
    → Result TransportError (Option M) × Bytes
decode_read b (ok u, stream_buf) = decode_framed_message b stream_buf
decode_read b (err e, stream_buf) = (err e, stream_buf)

unfoldable pub recv_message :
    {M : Type 0} → Bincode M → List Recv → Bytes → Result TransportError (Option M) × Bytes
unfolding read_stream
recv_message b answers stream_buf = decode_read b (read_stream answers stream_buf)
