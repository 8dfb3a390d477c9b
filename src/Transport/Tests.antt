-- ===== src/Transport/Tests.antt =====
-- Runs of the transport on small inputs.
use qftp.Prelude.{
  ℕ, min, Bytes, bytes, Bool, true, false, ◌||◌, none, some, List, [], ◌∷◌, ◌++◌, length, take, ◌≡◌,
  refl, arith, ok, err, to_be_bytes, All,
}
use qftp.Transport.Frame.{
  Bincode, IsFaithful, frame_too_large, encode_framed_message, decode_framed_message,
  max_message_size,
}
use qftp.Transport.Frame.RoundTrip.{decode-encode, decode-prefix, decode-oversize}
use qftp.Transport.Stream.{Quic, IsStream, stream_send_all, recv_message, received, done}
use qftp.Transport.Stream.Sending.{stream_send_all-ok}
use qftp.Transport.Stream.Progress.{IsReady, stream_send_all-ready}
use qftp.Transport.Stream.Receiving.{recv_message-whole}
use qftp.Transport.Gso.{Packet, QuicSend, wrote, batch, alone, flush_egress_gso}
use qftp.Transport.Gso.Batches.{
  written, fails, IsSent, IsNonempty, IsGsoBatch, datagrams-flush_egress_gso,
  flush_egress_gso-IsGsoBatch,
}

-- Messages that are their own encoding.
abbrev raw : Bincode Bytes
raw = record { serialized_size = λ m. length m; serialize = λ m. m; deserialize = λ p. some p }

raw-IsFaithful : IsFaithful raw
raw-IsFaithful = record { size_exact = λ m. refl; decodes = λ m h. refl }

abbrev hello : Bytes
hello = bytes "hello"

abbrev hello_frame : Bytes
hello_frame = 0 ∷ 0 ∷ 0 ∷ 5 ∷ hello

hello-encoded : encode_framed_message raw hello ≡ ok hello_frame
unfolding encode_framed_message to_be_bytes
hello-encoded = refl

decode-encode_example :
    decode_framed_message raw (hello_frame ++ (9 ∷ [])) ≡ (ok (some hello), 9 ∷ [])
decode-encode_example = decode-encode raw hello hello_frame (9 ∷ []) raw-IsFaithful hello-encoded

decode-prefix_example :
    decode_framed_message raw (0 ∷ 0 ∷ 0 ∷ 5 ∷ b'h' ∷ []) ≡ (ok none, 0 ∷ 0 ∷ 0 ∷ 5 ∷ b'h' ∷ [])
decode-prefix_example =
    decode-prefix raw hello hello_frame (0 ∷ 0 ∷ 0 ∷ 5 ∷ b'h' ∷ []) (bytes "ello") raw-IsFaithful
      hello-encoded refl (omega arith)

decode-oversize_example :
    decode_framed_message raw (to_be_bytes 4 20000000 ++ hello)
    ≡ (err (frame_too_large 20000000 max_message_size), to_be_bytes 4 20000000 ++ hello)
decode-oversize_example = decode-oversize raw 20000000 hello (omega arith) (omega arith)

-- A stream that takes three bytes at a time.
abbrev three : Quic (Bytes × Bool)
three = record {
  stream_send =
      λ d fin s. (some (min 3 (length d)), (s.0 ++ take (min 3 (length d)) d, fin || s.1));
}

three-IsStream : IsStream three (λ s. s.0) (λ s. s.1)
three-IsStream = record {
  accepts = λ d fin s n e. (ground arith, cc);
  keeps_open = λ d s. refl;
  finishes = λ s n e. refl;
}

three-IsReady : IsReady three
three-IsReady = record {
  takes = λ b bs s. (min 2 (length bs), ground arith);
  takes_fin = λ s. (0, refl);
}

stream_send_all-ok_example :
    ((stream_send_all three hello true (bytes "ab", false)).1.0 ≡ bytes "abhello")
    × ((stream_send_all three hello true (bytes "ab", false)).1.1 ≡ true)
stream_send_all-ok_example =
    stream_send_all-ok three (λ s. s.0) (λ s. s.1) three-IsStream hello true (bytes "ab", false)
      (stream_send_all-ready three (λ s. s.0) (λ s. s.1) three-IsStream hello true
        (bytes "ab", false) three-IsReady)

stream_send_all-ready_example : (stream_send_all three hello false (bytes "ab", false)).0 ≡ ok tt
stream_send_all-ready_example =
    stream_send_all-ready three (λ s. s.0) (λ s. s.1) three-IsStream hello false (bytes "ab", false)
      three-IsReady

recv_message-whole_example :
    recv_message raw
      (received (0 ∷ 0 ∷ [])
        ∷ received (0 ∷ 5 ∷ bytes "hell")
        ∷ received (b'o' ∷ 9 ∷ [])
        ∷ done
        ∷ [])
      []
    ≡ (ok (some hello), 9 ∷ [])
recv_message-whole_example =
    recv_message-whole raw raw-IsFaithful hello
      ((0 ∷ 0 ∷ []) ∷ (0 ∷ 5 ∷ bytes "hell") ∷ (b'o' ∷ 9 ∷ []) ∷ []) [] [] hello_frame (9 ∷ [])
      hello-encoded refl

abbrev packet : ℕ → ℕ → Packet
packet a n = record { to_addr = a; write = n }

-- two full datagrams and a short one for one peer, a longer one, and one for another peer
abbrev ready : List QuicSend
ready =
    wrote (packet 1 5)
    ∷ wrote (packet 1 5)
    ∷ wrote (packet 1 3)
    ∷ wrote (packet 1 9)
    ∷ wrote (packet 2 9)
    ∷ []

-- the first call succeeds, the second fails
abbrev socket_answers : List Bool
socket_answers = true ∷ false ∷ []

ready-IsNonempty : All IsNonempty ready
ready-IsNonempty = omega arith

datagrams-flush_egress_gso_example :
    IsSent (written ready) (fails ready) socket_answers (flush_egress_gso ready socket_answers)
datagrams-flush_egress_gso_example =
    datagrams-flush_egress_gso ready socket_answers ready-IsNonempty

flush_egress_gso-IsGsoBatch_example : All IsGsoBatch (flush_egress_gso ready socket_answers).0
flush_egress_gso-IsGsoBatch_example =
    flush_egress_gso-IsGsoBatch ready socket_answers ready-IsNonempty

-- Without a failure three calls are made, and all five datagrams are sent.
flush_runs : flush_egress_gso ready [] ≡ (
  batch 1 5 (packet 1 5 ∷ packet 1 5 ∷ packet 1 3 ∷ [])
      ∷ batch 1 9 (packet 1 9 ∷ [])
      ∷ alone (packet 2 9)
      ∷ [],
  true,
)
unfolding flush_egress_gso
flush_runs = refl
