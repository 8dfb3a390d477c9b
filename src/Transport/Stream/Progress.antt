-- ===== src/Transport/Stream/Progress.antt =====
-- The rounds of `stream_send_all` in crates/qftp-common/src/transport.rs.
use qftp.Prelude.{
  ℕ, zero, suc, ◌≤◌, Bytes, Bool, true, false, some, [], ◌∷◌, nat_eq, length, drop, length-drop,
  ◌≡◌, ◌≢◌, refl, arith, Option-cases, inl, inr, Result, ok, err,
}
use qftp.Transport.Frame.{TransportError, out_of_rounds}
use qftp.Transport.Stream.{Quic, IsStream, send_loop, stream_send_all, send_fin}
use qftp.Transport.Stream.Sending.{send_loop-ne-out_of_rounds}

-- Flow control has room for a byte at least, and the stream takes a FIN.
pub record IsReady {S : Type 0} (q : Quic S) : Type 0 where
  pub takes :
      (b : ℕ) (bs : Bytes) (s : S) → (n : ℕ) × ((q.stream_send (b ∷ bs) false s).0 ≡ some (suc n))
  pub takes_fin : (s : S) → (n : ℕ) × ((q.stream_send [] true s).0 ≡ some n)

module _ {S : Type 0} (q : Quic S) (queued : S → Bytes) (finished : S → Bool)
    (law : IsStream q queued finished) where
  -- `stream_send_all` ends on every transport: its loop never needs more rounds than there are
  -- bytes.
  pub stream_send_all-ne-out_of_rounds :
      (bytes_in : Bytes) (fin : Bool) (s : S)
      → (stream_send_all q bytes_in fin s).0 ≢ err out_of_rounds
  unfolding stream_send_all
  stream_send_all-ne-out_of_rounds bytes_in fin s =
      finish fin (send_loop q (length bytes_in) bytes_in s) (
        send_loop-ne-out_of_rounds q queued finished law (length bytes_in) bytes_in s (omega arith))
    where
      finish :
          (fin : Bool) (r : Result TransportError (Unit {0}) × S)
          → r.0 ≢ err out_of_rounds
          → (send_fin q fin r).0 ≢ err out_of_rounds
      finish fin (err e, t) h = h
      finish false (ok u, t) h = h
      finish true (ok u, t) h = elim (Option-cases (q.stream_send [] true t).0) [
        | inl e ↦ ground (arith, e)
        | inr (n, e) ↦ ground (arith, e)
      ]

  send_loop-ready :
      (rounds : ℕ) (bytes_in : Bytes) (s : S)
      → IsReady q
      → length bytes_in ≤ rounds
      → (send_loop q rounds bytes_in s).0 ≡ ok tt
  unfolding send_loop
  send_loop-ready rounds [] s ready h = refl
  send_loop-ready zero (x ∷ xs) s ready h = absurd (omega arith)
  send_loop-ready (suc rounds) (x ∷ xs) s ready h =
      let (n, e) = ready.takes x xs s in
      let (fits, after) = law.accepts (x ∷ xs) false s (suc n) e in
      ground (
        arith,
        e,
        length-drop n xs,
        send_loop-ready rounds (drop n xs) (q.stream_send (x ∷ xs) false s).1 ready,
      )

  -- On a transport that always has room for a byte, `stream_send_all` succeeds.
  pub stream_send_all-ready :
      (bytes_in : Bytes) (fin : Bool) (s : S)
      → IsReady q
      → (stream_send_all q bytes_in fin s).0 ≡ ok tt
  unfolding stream_send_all
  stream_send_all-ready bytes_in fin s ready =
      finish fin (send_loop q (length bytes_in) bytes_in s)
        (send_loop-ready (length bytes_in) bytes_in s ready (omega arith))
    where
      finish :
          (fin : Bool) (r : Result TransportError (Unit {0}) × S)
          → r.0 ≡ ok tt
          → (send_fin q fin r).0 ≡ ok tt
      finish fin (err e, t) h = h
      finish false (ok u, t) h = h
      finish true (ok u, t) h = let (n, e) = ready.takes_fin t in ground (arith, e)
