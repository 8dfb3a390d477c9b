-- ===== src/Download/Delivered.antt =====
-- What a download of crates/qftp-server/src/transfer_get.rs has sent after each call of its driver.
use mathlib.Core.List.{append_assoc, append-nil}
use qftp.Prelude.{
  ℕ, ◌+◌, ◌-◌, ◌≤◌, min, Bytes, Bool, true, false, Option, none, some, List, [], ◌∷◌, ◌++◌, length,
  take, drop, take-all, take-append-drop, ltb, ◌==◌, nat_eq, if◌then◌else◌, ◌≡◌, inl, inr, refl,
  sym, ap, ◌∙◌, subst, arith, Bool-cases,
}
use qftp.Download.{
  BodySend, Wire, SendAnswer, takes, full, broken, SendOutcome, is_blocked, is_finished, is_failed,
  Source, State, Sending, send_phase_prefix_rehash, has_more, send_phase_body_identity,
  trailer_sent, trailer_round, send_trailer, trailer_or, send_fin, behind_trailer,
  send_phase_trailer, behind_body, behind_prefix, drive_one_sender,
}
use qftp.Download.Sending.{
  IsAtTrailer, IsGoingOn, IsPart, IsOwed, IsSending, IsSent, body, checksum, message, take-add,
  send_phase_prefix_rehash-IsOwed, send_phase_body_identity-IsOwed,
}

module _ (hash : Bytes → Bytes) (src : Source) (offset size : ℕ) where
  trailer-IsPart : (s : State) → IsAtTrailer hash src offset size s → IsPart hash src offset size s
  trailer-IsPart (d, w) t = (
    drop d.trailer_offset (checksum hash src offset size),
    ap (λ o. o ++ drop d.trailer_offset (checksum hash src offset size)) t.gone
        ∙ (append_assoc (body hash src offset size)
              (take d.trailer_offset (checksum hash src offset size))
              (drop d.trailer_offset (checksum hash src offset size))
            ∙ ap (λ c. (body hash src offset size) ++ c)
                (take-append-drop d.trailer_offset (checksum hash src offset size))),
  )

  abbrev IsTrailed : State → Type 0
  IsTrailed s = s.1.out ≡ (message hash src offset size)

  IsAtTrailer-trailer_sent :
      (n : ℕ) (d : BodySend) (w : Wire)
      → IsAtTrailer hash src offset size (d, w)
      → d.trailer_offset + n ≤ length (checksum hash src offset size)
      → IsAtTrailer hash src offset size
          (trailer_sent hash src (checksum hash src offset size) n (d, w))
  IsAtTrailer-trailer_sent n d w t fits = record {
    unfinished = t.unfinished;
    has_trailer = t.has_trailer;
    prefix_done = t.prefix_done;
    gone =
        ap (λ o. o ++ take n (drop d.trailer_offset (checksum hash src offset size))) t.gone
        ∙ (append_assoc (body hash src offset size)
              (take d.trailer_offset (checksum hash src offset size))
              (take n (drop d.trailer_offset (checksum hash src offset size)))
            ∙ ap (λ c. (body hash src offset size) ++ c)
                (take-add d.trailer_offset n (d.trailer_offset + n) (checksum hash src offset size)
                  refl));
    within = fits;
  }

  trailer_round-IsOwed :
      (further : State → Sending) (answers : List SendAnswer) (s : State) (a : SendAnswer)
      → ((t : State)
          → IsAtTrailer hash src offset size t
          → IsOwed hash src offset size IsTrailed (further t))
      → IsAtTrailer hash src offset size s
      → IsOwed hash src offset size IsTrailed
          (trailer_round hash src further (checksum hash src offset size) answers s a)
  trailer_round-IsOwed further answers s broken k t = trailer-IsPart s t
  trailer_round-IsOwed further answers s full k t = inr t
  trailer_round-IsOwed further answers (d, w) (takes m) k t =
      let n = min m (length (checksum hash src offset size) - d.trailer_offset) in
      elim (Bool-cases (n == 0)) [
        | inl nothing ↦ rw nothing (inr t)
        | inr some_of_it ↦ rw some_of_it (
            k (trailer_sent hash src (checksum hash src offset size) n (d, w))
              (IsAtTrailer-trailer_sent n d w t (omega (arith, t.within))))
      ]

  whole-IsTrailed :
      (d : BodySend) (w : Wire)
      → IsAtTrailer hash src offset size (d, w)
      → ltb d.trailer_offset (length (checksum hash src offset size)) ≡ false
      → IsTrailed (d, w)
  whole-IsTrailed d w t done =
      t.gone
      ∙ ap (λ c. (body hash src offset size) ++ c)
          (take-all d.trailer_offset (checksum hash src offset size) (ground (arith, done)))

  send_trailer-IsOwed :
      (answers : List SendAnswer) (s : State)
      → IsAtTrailer hash src offset size s
      → IsOwed hash src offset size IsTrailed
          (send_trailer hash src (checksum hash src offset size) answers s)
  unfolding send_trailer
  send_trailer-IsOwed [] (d, w) t =
      elim (Bool-cases (ltb d.trailer_offset (length (checksum hash src offset size)))) [
        | inl more ↦ rw more (inr t)
        | inr done ↦ rw done (whole-IsTrailed d w t done)
      ]
  send_trailer-IsOwed (a ∷ answers) (d, w) t =
      elim (Bool-cases (ltb d.trailer_offset (length (checksum hash src offset size)))) [
        | inl more ↦ rw more (
            trailer_round-IsOwed (send_trailer hash src (checksum hash src offset size) answers)
              answers (d, w) a (send_trailer-IsOwed answers) t)
        | inr done ↦ rw done (whole-IsTrailed d w t done)
      ]

  -- What a call of the driver owes
  abbrev pub IsDelivered : SendOutcome × List SendAnswer × State → Type 0
  IsDelivered (is_blocked, answers, s) = IsGoingOn hash src offset size s
  IsDelivered (is_finished, answers, s) = s.1.out ≡ (message hash src offset size)
  IsDelivered (is_failed, answers, s) = IsPart hash src offset size s

  send_fin-IsDelivered :
      (a : SendAnswer) (answers : List SendAnswer) (s : State)
      → IsTrailed s
      → IsDelivered (send_fin hash src a answers s)
  send_fin-IsDelivered broken answers s t = ([], append-nil s.1.out ∙ t)
  send_fin-IsDelivered full answers s t = t
  send_fin-IsDelivered (takes n) answers s t = t

  behind_trailer-IsDelivered :
      (r : Sending)
      → IsOwed hash src offset size IsTrailed r
      → IsDelivered (behind_trailer hash src r)
  behind_trailer-IsDelivered (none, answers, s) t = send_fin-IsDelivered _ _ s t
  behind_trailer-IsDelivered (some is_blocked, answers, s) t = t
  behind_trailer-IsDelivered (some is_finished, answers, s) t = t
  behind_trailer-IsDelivered (some is_failed, answers, s) t = t

  abbrev Behind : List SendAnswer → BodySend → Wire → Option Bytes → Type 0
  Behind answers d w trailer =
      let x = trailer_or hash src d trailer in
      IsDelivered (behind_trailer hash src (send_trailer hash src x.0 answers (x.1, w)))

  at_trailer-IsDelivered :
      (answers : List SendAnswer) (d : BodySend) (w : Wire)
      → IsAtTrailer hash src offset size (d, w)
      → IsDelivered (send_phase_trailer hash src answers (d, w))
  unfolding send_phase_trailer
  at_trailer-IsDelivered answers d w t = subst (Behind answers d w) (sym t.has_trailer) (
      behind_trailer-IsDelivered
        (send_trailer hash src (checksum hash src offset size) answers (d, w))
        (send_trailer-IsOwed answers (d, w) t))

  sent-IsDelivered :
      (answers : List SendAnswer) (d : BodySend) (w : Wire)
      → (IsSent hash src offset size) (d, w)
      → IsDelivered (send_phase_trailer hash src answers (d, w))
  unfolding send_phase_trailer
  sent-IsDelivered answers d w ((b, past), all) =
      let same : hash d.hashed ≡ (checksum hash src offset size) =
        ap hash (b.hashing ∙ ap (λ n. take n src.content) (omega (arith, b.place, past, all))) in
      let ended : Bytes → BodySend = λ c. record d { trailer = some c; trailer_offset = 0 } in
      let t : IsAtTrailer hash src offset size (ended (checksum hash src offset size), w) = record {
        unfinished = b.unfinished;
        has_trailer = refl;
        prefix_done = past;
        gone =
            b.gone
            ∙ (ap (λ n. take n (drop offset src.content)) all
                ∙ sym (append-nil (body hash src offset size)));
        within = omega arith;
      } in
      subst (Behind answers d w) (sym b.no_trailer) (
        subst
          (λ c.
            IsDelivered (behind_trailer hash src (send_trailer hash src c answers (ended c, w))))
          (sym same)
          (behind_trailer-IsDelivered
            (send_trailer hash src (checksum hash src offset size) answers
              (ended (checksum hash src offset size), w))
            (send_trailer-IsOwed answers (ended (checksum hash src offset size), w) t)))

  behind_body-IsDelivered :
      (r : Sending)
      → IsOwed hash src offset size (IsSent hash src offset size) r
      → IsDelivered (behind_body hash src r)
  behind_body-IsDelivered (none, answers, (d, w)) h = sent-IsDelivered answers d w h
  behind_body-IsDelivered (some is_blocked, answers, s) h = h
  behind_body-IsDelivered (some is_finished, answers, s) h = h
  behind_body-IsDelivered (some is_failed, answers, s) h = h

  behind_prefix-IsDelivered :
      (r : Sending)
      → IsOwed hash src offset size (IsSending hash src offset size) r
      → IsDelivered (behind_prefix hash src r)
  behind_prefix-IsDelivered (none, answers, s) h =
      behind_body-IsDelivered (send_phase_body_identity hash src answers s)
        (send_phase_body_identity-IsOwed hash src offset size answers s h)
  behind_prefix-IsDelivered (some is_blocked, answers, s) h = h
  behind_prefix-IsDelivered (some is_finished, answers, s) h = h
  behind_prefix-IsDelivered (some is_failed, answers, s) h = h

  prefix_over :
      (answers : List SendAnswer) (d : BodySend) (w : Wire)
      → (d.prefix_remaining == 0) ≡ true
      → send_phase_prefix_rehash hash src answers (d, w) ≡ (none, answers, (d, w))
  unfolding send_phase_prefix_rehash
  prefix_over answers d w done = rw done refl

  body_over :
      (answers : List SendAnswer) (d : BodySend) (w : Wire)
      → has_more hash src d ≡ false
      → send_phase_body_identity hash src answers (d, w) ≡ (none, answers, (d, w))
  unfolding send_phase_body_identity
  body_over [] d w done = rw done refl
  body_over (a ∷ answers) d w done = rw done refl

  has_more-trailer : (d : BodySend) {c : Bytes} → d.trailer ≡ some c → has_more hash src d ≡ false
  has_more-trailer d h = ground (arith, h)

  abbrev Unless : List SendAnswer → BodySend → Wire → Bool → Type 0
  Unless answers d w finished = IsDelivered (
      if finished
      then (is_finished, answers, (d, w))
      else behind_prefix hash src (send_phase_prefix_rehash hash src answers (d, w)))

  -- Whatever the peer takes at each offer, and whatever reads and seeks fail: what a call of
  -- `drive_one_sender` leaves is on its way, with exactly the bytes of the range that were taken; or
  -- it has finished, and the whole range and behind it the hash of the file up to the end of the range
  -- were sent; or it has failed, and what was sent is a beginning of that, as long as the file keeps
  -- its content.
  pub drive_one_sender-IsDelivered :
      (answers : List SendAnswer) (s : State)
      → IsGoingOn hash src offset size s
      → IsDelivered (drive_one_sender hash src answers s)
  unfolding drive_one_sender
  drive_one_sender-IsDelivered answers (d, w) (inl b) =
      subst (Unless answers d w) (sym b.unfinished) (
        behind_prefix-IsDelivered (send_phase_prefix_rehash hash src answers (d, w))
          (send_phase_prefix_rehash-IsOwed hash src offset size answers (d, w) b))
  drive_one_sender-IsDelivered answers (d, w) (inr t) =
      subst (Unless answers d w) (sym t.unfinished) (
        subst (λ r. IsDelivered (behind_prefix hash src r))
          (sym (prefix_over answers d w (ground (arith, t.prefix_done))))
          (subst (λ r. IsDelivered (behind_body hash src r))
            (sym (body_over answers d w (has_more-trailer d t.has_trailer)))
            (at_trailer-IsDelivered answers d w t)))
