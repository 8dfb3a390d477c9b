-- ===== src/Download/Sending.antt =====
-- What a download of crates/qftp-server/src/transfer_get.rs has sent while its body is on its way.
use mathlib.Core.List.{append_assoc}
use qftp.Prelude.{
  ℕ, zero, suc, ◌+◌, ◌-◌, ◌≤◌, min, Bytes, false, none, some, List, [], ◌∷◌, ◌++◌, length, take,
  drop, ltb, ◌==◌, nat_eq, ◌≡◌, ◌⊎◌, inl, inr, refl, sym, ap, ◌∙◌, arith, Bool-cases,
}
use qftp.Download.{
  BodySend, Wire, SendAnswer, takes, full, broken, is_blocked, is_finished, is_failed, Source,
  State, Sending, cannot_read, give_up, send_phase_prefix_rehash, rewind, piece_sent, after_send,
  has_more, send_piece, send_phase_body_identity,
}

take-nil {ℓ} : {A : Type ℓ} (n : ℕ) → take {A = A} n [] ≡ []
take-nil zero = refl
take-nil (suc n) = refl

drop-nil {ℓ} : {A : Type ℓ} (n : ℕ) → drop {A = A} n [] ≡ []
drop-nil zero = refl
drop-nil (suc n) = refl

pub take-add {ℓ} :
    {A : Type ℓ} (m n s : ℕ) (xs : List A) → m + n ≡ s → take m xs ++ take n (drop m xs) ≡ take s xs
take-add zero n s xs h = ap (λ k. take k xs) (omega (arith, h))
take-add (suc m) n zero xs h = absurd (omega (arith, h))
take-add (suc m) n (suc s) [] h = take-nil n
take-add (suc m) n (suc s) (x ∷ xs) h = ap (λ r. x ∷ r) (take-add m n s xs (omega (arith, h)))

pub drop-add {ℓ} :
    {A : Type ℓ} (m n s : ℕ) (xs : List A) → m + n ≡ s → drop n (drop m xs) ≡ drop s xs
drop-add zero n s xs h = ap (λ k. drop k xs) (omega (arith, h))
drop-add (suc m) n zero xs h = absurd (omega (arith, h))
drop-add (suc m) n (suc s) [] h = drop-nil n
drop-add (suc m) n (suc s) (x ∷ xs) h = drop-add m n s xs (omega (arith, h))

module _ (hash : Bytes → Bytes) (src : Source) (offset size : ℕ) where
  -- What the client is to get: the range of the file, and the hash of the file up to its end.
  abbrev pub body : Bytes
  body = take size (drop offset src.content)

  abbrev pub checksum : Bytes
  checksum = hash (take (offset + size) src.content)

  abbrev pub message : Bytes
  message = body ++ checksum

  -- The sender is at its prefix or its body.
  pub record IsAtBody (s : State) : Type 0 where
    pub unfinished : s.0.finished ≡ false
    pub no_trailer : s.0.trailer ≡ none
    pub total : s.0.total_size ≡ size
    pub place : s.0.position + s.0.prefix_remaining ≡ offset + s.0.sent
    pub hashing : s.0.hashed ≡ take s.0.position src.content
    pub within : s.0.sent ≤ size
    pub prefix_first : (s.0.prefix_remaining ≡ 0) ⊎ (s.0.sent ≡ 0)
    pub gone : s.1.out ≡ take s.0.sent (drop offset src.content)

  -- It is at its trailer.
  pub record IsAtTrailer (s : State) : Type 0 where
    pub unfinished : s.0.finished ≡ false
    pub has_trailer : s.0.trailer ≡ some checksum
    pub prefix_done : s.0.prefix_remaining ≡ 0
    pub gone : s.1.out ≡ body ++ take s.0.trailer_offset checksum
    pub within : s.0.trailer_offset ≤ length checksum

  abbrev pub IsGoingOn : State → Type 0
  IsGoingOn s = IsAtBody s ⊎ IsAtTrailer s

  abbrev pub IsPart : State → Type 0
  IsPart s = (rest : Bytes) × (s.1.out ++ rest ≡ message)

  -- The prefix is hashed, and the body is on its way.
  abbrev pub IsSending : State → Type 0
  IsSending s = IsAtBody s × (s.0.prefix_remaining ≡ 0)

  abbrev pub IsOwed : (State → Type 0) → Sending → Type 0
  IsOwed Further (none, answers, s) = Further s
  IsOwed Further (some is_blocked, answers, s) = IsGoingOn s
  IsOwed Further (some is_finished, answers, s) = s.1.out ≡ message
  IsOwed Further (some is_failed, answers, s) = IsPart s

  pub body-IsPart : (s : State) → IsAtBody s → IsPart s
  body-IsPart (d, w) b =
      let range = drop offset src.content in
      (
        take (size - d.sent) (drop d.sent range) ++ checksum,
        ap (λ o. o ++ (take (size - d.sent) (drop d.sent range) ++ checksum)) b.gone
            ∙ (sym (
                  append_assoc (take d.sent range) (take (size - d.sent) (drop d.sent range))
                    checksum)
                ∙ ap (λ o. o ++ checksum)
                    (take-add d.sent (size - d.sent) size range (omega (arith, b.within)))),
      )

  give_up-IsOwed :
      (Further : State → Type 0) (answers : List SendAnswer) (s : State)
      → IsAtBody s
      → IsOwed Further (give_up hash src answers s)
  give_up-IsOwed Further answers (d, w) b = body-IsPart (d, w) b

  pub send_phase_prefix_rehash-IsOwed :
      (answers : List SendAnswer) (s : State)
      → IsAtBody s
      → IsOwed IsSending (send_phase_prefix_rehash hash src answers s)
  unfolding send_phase_prefix_rehash
  send_phase_prefix_rehash-IsOwed answers (d, w) b =
      let want = min d.prefix_remaining src.buffer_len in
      elim (Bool-cases (d.prefix_remaining == 0)) [
        | inl past ↦ rw past (b, ground (arith, past))
        | inr more ↦ elim (Bool-cases (cannot_read hash src d.position want)) [
          | inl short ↦ rw (more, short) (give_up-IsOwed IsSending answers (d, w) b)
          | inr read ↦
              let moved : IsAtBody (
                record d {
                  position = d.position + want;
                  hashed = d.hashed ++ take want (drop d.position src.content);
                  prefix_remaining = d.prefix_remaining - want;
                },
                w,
              ) =
                record {
                  unfinished = b.unfinished;
                  no_trailer = b.no_trailer;
                  total = b.total;
                  place = omega (arith, b.place);
                  hashing =
                      ap (λ h. h ++ take want (drop d.position src.content)) b.hashing
                      ∙ take-add d.position want (d.position + want) src.content refl;
                  within = b.within;
                  prefix_first = ground (arith, b.prefix_first, more);
                  gone = b.gone;
                } in
              elim (Bool-cases (ltb 0 (d.prefix_remaining - want))) [
                | inl left ↦ rw (more, read, left) (inl moved)
                | inr done ↦ rw (more, read, done) (moved, ground (arith, done))
              ]
        ]
      ]

  IsAtBody-piece_sent :
      (n : ℕ) (d : BodySend) (w : Wire)
      → IsSending (d, w)
      → d.sent + n ≤ size
      → IsSending (piece_sent hash src n (d, w))
  IsAtBody-piece_sent n d w (b, past) fits =
      let range = drop offset src.content in
      (
        record {
          unfinished = b.unfinished;
          no_trailer = b.no_trailer;
          total = b.total;
          place = omega (arith, b.place);
          hashing =
              ap (λ h. h ++ take n (drop d.position src.content)) b.hashing
              ∙ take-add d.position n (d.position + n) src.content refl;
          within = fits;
          prefix_first = inl past;
          gone =
              ap (λ o. o ++ take n (drop d.position src.content)) b.gone
              ∙ (ap (λ r. take d.sent range ++ take n r)
                    (sym (
                      drop-add offset d.sent d.position src.content (omega (arith, b.place, past))))
                  ∙ take-add d.sent n (d.sent + n) range refl);
        },
        past,
      )

  rewind-IsOwed :
      (Further : State → Type 0) (want taken : ℕ) (answers : List SendAnswer) (d : BodySend)
      (w : Wire)
      → IsAtBody (d, w)
      → IsOwed Further
          ((rewind hash src want taken d).0, answers, ((rewind hash src want taken d).1, w))
  rewind-IsOwed Further want taken answers d w b = elim (Bool-cases (src.seek_fails d.position)) [
    | inl stuck ↦ rw stuck (body-IsPart (d, w) b)
    | inr back ↦ rw back (inl b)
  ]

  abbrev pub IsSent : State → Type 0
  IsSent s = IsSending s × (s.0.sent ≡ size)

  after_send-IsOwed :
      (further : State → Sending) (want : ℕ) (answers : List SendAnswer) (d : BodySend) (w : Wire)
      (a : SendAnswer)
      → ((s : State) → IsSending s → IsOwed IsSent (further s))
      → IsSending (d, w)
      → d.sent + want ≤ size
      → IsOwed IsSent (after_send hash src further want answers (d, w) a)
  after_send-IsOwed further want answers d w broken k b fits = body-IsPart (d, w) b.0
  after_send-IsOwed further want answers d w full k b fits =
      rewind-IsOwed IsSent want 0 answers d w b.0
  after_send-IsOwed further want answers d w (takes m) k b fits =
      let n = min m want in
      let sent = IsAtBody-piece_sent n d w b (omega (arith, fits)) in
      elim (Bool-cases (n == 0)) [
        | inl nothing ↦ rw nothing (rewind-IsOwed IsSent want 0 answers d w b.0)
        | inr some_of_it ↦ elim (Bool-cases (ltb n want)) [
          | inl part ↦
              rw (some_of_it, part)
                (rewind-IsOwed IsSent want n answers (piece_sent hash src n (d, w)).0
                  (piece_sent hash src n (d, w)).1 sent.0)
          | inr whole ↦ rw (some_of_it, whole) (k (piece_sent hash src n (d, w)) sent)
        ]
      ]

  send_piece-IsOwed :
      (further : State → Sending) (a : SendAnswer) (answers : List SendAnswer) (s : State)
      → ((t : State) → IsSending t → IsOwed IsSent (further t))
      → IsSending s
      → IsOwed IsSent (send_piece hash src further a answers s)
  send_piece-IsOwed further a answers (d, w) k b =
      let want = min (d.total_size - d.sent) src.buffer_len in
      elim (Bool-cases (cannot_read hash src d.position want)) [
        | inl short ↦ rw short (body-IsPart (d, w) b.0)
        | inr read ↦ rw read (
            after_send-IsOwed further want answers d w a k b (omega (arith, b.0.total, b.0.within)))
      ]

  no_more :
      (d : BodySend) (w : Wire) → IsSending (d, w) → has_more hash src d ≡ false → IsSent (d, w)
  no_more d w b none_left = (b, ground (arith, none_left, b.0.no_trailer, b.0.total, b.0.within))

  pub send_phase_body_identity-IsOwed :
      (answers : List SendAnswer) (s : State)
      → IsSending s
      → IsOwed IsSent (send_phase_body_identity hash src answers s)
  unfolding send_phase_body_identity
  send_phase_body_identity-IsOwed [] (d, w) b = elim (Bool-cases (has_more hash src d)) [
    | inr done ↦ rw done (no_more d w b done)
    | inl more ↦
        rw more
          (send_piece-IsOwed (λ s. (some is_blocked, [], s)) full [] (d, w) (λ s k. inl k.0) b)
  ]
  send_phase_body_identity-IsOwed (a ∷ answers) (d, w) b = elim (Bool-cases (has_more hash src d)) [
    | inr done ↦ rw done (no_more d w b done)
    | inl more ↦ rw more (
        send_piece-IsOwed (send_phase_body_identity hash src answers) a answers (d, w)
          (send_phase_body_identity-IsOwed answers) b)
  ]
