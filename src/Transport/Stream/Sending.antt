-- ===== src/Transport/Stream/Sending.antt =====
-- What `stream_send_all` of crates/qftp-common/src/transport.rs hands to the transport.
use qftp.Prelude.{
  ℕ, zero, suc, ◌≤◌, ◌≡◌, ◌≢◌, refl, sym, ◌∙◌, arith, Bytes, Bool, true, false, [], ◌∷◌, ◌++◌,
  length, take, drop, take-append-drop, take-nil, length-drop, if◌then◌else◌, nat_eq, Result, ok,
  err, Option-cases, inl, inr,
}
use mathlib.Core.List.{append_assoc, append-nil}
use qftp.Transport.Frame.{TransportError, out_of_rounds}
use qftp.Transport.Stream.{Quic, IsStream, send_loop, send_fin, stream_send_all}

module _ {S : Type 0} (q : Quic S) (queued : S → Bytes) (finished : S → Bool)
    (law : IsStream q queued finished) where
  send_loop-ok :
      (rounds : ℕ) (bytes_in : Bytes) (s : S)
      → (send_loop q rounds bytes_in s).0 ≡ ok tt
      → queued (send_loop q rounds bytes_in s).1 ≡ queued s ++ bytes_in
  unfolding send_loop
  send_loop-ok rounds [] s h = sym (append-nil (queued s))
  send_loop-ok zero (x ∷ xs) s h = cc
  send_loop-ok (suc rounds) (x ∷ xs) s h = elim (Option-cases (q.stream_send (x ∷ xs) false s).0) [
    | inl e ↦ ground arith
    | inr (n, e) ↦
        let s' = (q.stream_send (x ∷ xs) false s).1 in
        ground (
          arith,
          law.accepts (x ∷ xs) false s n e,
          send_loop-ok rounds (drop n (x ∷ xs)) s',
          append_assoc (queued s) (take n (x ∷ xs)) (drop n (x ∷ xs)),
          take-append-drop n (x ∷ xs),
        )
  ]

  pub send_loop-ne-out_of_rounds :
      (rounds : ℕ) (bytes_in : Bytes) (s : S)
      → length bytes_in ≤ rounds
      → (send_loop q rounds bytes_in s).0 ≢ err out_of_rounds
  unfolding send_loop
  send_loop-ne-out_of_rounds rounds [] s h = λ e. cc
  send_loop-ne-out_of_rounds zero (x ∷ xs) s h = absurd (omega arith)
  send_loop-ne-out_of_rounds (suc rounds) (x ∷ xs) s h =
      elim (Option-cases (q.stream_send (x ∷ xs) false s).0) [
        | inl e ↦ ground arith
        | inr (zero, e) ↦ ground arith
        | inr (suc n, e) ↦
            let s' = (q.stream_send (x ∷ xs) false s).1 in
            ground (
              arith,
              law.accepts (x ∷ xs) false s (suc n) e,
              length-drop n xs,
              send_loop-ne-out_of_rounds rounds (drop n xs) s',
            )
      ]

  send_loop-finished :
      (rounds : ℕ) (bytes_in : Bytes) (s : S)
      → finished (send_loop q rounds bytes_in s).1 ≡ finished s
  unfolding send_loop
  send_loop-finished rounds [] s = refl
  send_loop-finished zero (x ∷ xs) s = refl
  send_loop-finished (suc rounds) (x ∷ xs) s =
      elim (Option-cases (q.stream_send (x ∷ xs) false s).0) [
        | inl e ↦ ground (arith, law.keeps_open (x ∷ xs) s)
        | inr (n, e) ↦
            let s' = (q.stream_send (x ∷ xs) false s).1 in
            ground
              (arith, law.keeps_open (x ∷ xs) s, send_loop-finished rounds (drop n (x ∷ xs)) s')
      ]

  -- When `stream_send_all` succeeds, the transport was handed exactly the data, in order, behind
  -- what it had; the stream is finished if that was asked, and is as open as before if not.
  pub stream_send_all-ok :
      (bytes_in : Bytes) (fin : Bool) (s : S)
      → (stream_send_all q bytes_in fin s).0 ≡ ok tt
      → (queued (stream_send_all q bytes_in fin s).1 ≡ queued s ++ bytes_in)
        × (finished (stream_send_all q bytes_in fin s).1 ≡ (if fin then true else finished s))
  unfolding stream_send_all
  stream_send_all-ok bytes_in fin s h =
      let r = send_loop q (length bytes_in) bytes_in s in
      finish fin r h (send_loop-ok (length bytes_in) bytes_in s)
        (send_loop-finished (length bytes_in) bytes_in s)
    where
      finish :
          (fin : Bool) (r : Result TransportError (Unit {0}) × S)
          → (send_fin q fin r).0 ≡ ok tt
          → (r.0 ≡ ok tt → queued r.1 ≡ queued s ++ bytes_in)
          → finished r.1 ≡ finished s
          → (queued (send_fin q fin r).1 ≡ queued s ++ bytes_in)
            × (finished (send_fin q fin r).1 ≡ (if fin then true else finished s))
      finish fin (err e, t) h sent open_still = cc
      finish false (ok u, t) h sent open_still = (sent refl, open_still)
      finish true (ok u, t) h sent open_still = elim (Option-cases (q.stream_send [] true t).0) [
        | inl e ↦ ground arith
        | inr (n, e) ↦
            let (fits, after) = law.accepts [] true t n e in
            (
              rw (e, send_fin) (after ∙ rw take-nil (append-nil (queued t)) ∙ sent refl),
              rw (e, send_fin) (law.finishes t n e),
            )
      ]
