-- ===== src/Transport/Stream/Receiving.antt =====
-- `recv_message` of crates/qftp-common/src/transport.rs over reads of any sizes.
use mathlib.Core.List.{append_assoc, append-nil}
use qftp.Prelude.{◌<◌, ◌≡◌, sym, ap, ◌∙◌, Bytes, none, some, List, [], ◌∷◌, ◌++◌, map, length, ok}
use qftp.Transport.Frame.{Bincode, IsFaithful, encode_framed_message}
use qftp.Transport.Frame.RoundTrip.{decode-encode, decode-prefix}
use qftp.Transport.Stream.{Recv, received, done, read_stream, recv_message}

abbrev pub joined : List Bytes → Bytes
joined [] = []
joined (c ∷ cs) = c ++ joined cs

read_stream-joined :
    (chunks : List Bytes) (more : List Recv) (buf : Bytes)
    → read_stream (map received chunks ++ done ∷ more) buf ≡ (ok tt, buf ++ joined chunks)
unfolding read_stream
read_stream-joined [] more buf = ap (λ r. (ok tt, r)) (sym (append-nil buf))
read_stream-joined (c ∷ cs) more buf =
    read_stream-joined cs more (buf ++ c) ∙ ap (λ r. (ok tt, r)) (append_assoc buf c (joined cs))

module _ {M : Type 0} (b : Bincode M) (f : IsFaithful b) where
  -- Once the reads have brought a whole frame, in whatever pieces and with whatever was buffered
  -- before them, the message comes out and the bytes behind the frame stay in the buffer.
  pub recv_message-whole :
      (m : M) (chunks : List Bytes) (more : List Recv) (buf frame rest : Bytes)
      → encode_framed_message b m ≡ ok frame
      → buf ++ joined chunks ≡ frame ++ rest
      → recv_message b (map received chunks ++ done ∷ more) buf ≡ (ok (some m), rest)
  unfolding recv_message
  recv_message-whole m chunks more buf frame rest h e =
      rw (read_stream-joined, e) (decode-encode b m frame rest f h)

  -- While a part of the frame is missing, nothing comes out and all bytes are kept for later.
  pub recv_message-partial :
      (m : M) (chunks : List Bytes) (more : List Recv) (buf frame back : Bytes)
      → encode_framed_message b m ≡ ok frame
      → (buf ++ joined chunks) ++ back ≡ frame
      → 0 < length back
      → recv_message b (map received chunks ++ done ∷ more) buf ≡ (ok none, buf ++ joined chunks)
  unfolding recv_message
  recv_message-partial m chunks more buf frame back h e more_to_come =
      rw read_stream-joined (decode-prefix b m frame (buf ++ joined chunks) back f h e more_to_come)
