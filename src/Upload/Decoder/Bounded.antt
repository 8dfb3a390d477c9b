-- ===== src/Upload/Decoder/Bounded.antt =====
-- The plaintext cap and the loop of `ZstdDecoder::push` in crates/qftp-protocol/src/compress.rs.
use qftp.Prelude.{
  ℕ, zero, suc, ◌+◌, ◌-◌, ◌≤◌, ◌<◌, Bytes, true, false, ◌&&◌, ◌++◌, ◌≡◌, ◌≢◌, refl, ap, ◌∙◌, length,
  length-append, length-drop, drop, ltb, ◌==◌, nat_eq, if◌then◌else◌, Result, ok, err, arith,
  Option-cases, Bool-cases, inl, inr,
}
use qftp.Upload.Decoder.{
  Run, Zstd, IsZstd, CompressionError, out_of_rounds, ZstdDecoder, DecodeProgress, capacity_for,
  run_decoder_step, Pushed, push_after, push_loop, push,
}

module _ {Z : Type 0} (z : Zstd Z) (law : IsZstd z) where
  -- No more was decoded than the cap allows, and the pending bytes are among the decoded ones.
  abbrev pub IsBounded : ZstdDecoder Z → Type 0
  IsBounded d = (d.decoded ≤ d.max_plaintext) × (length d.pending ≤ d.decoded)

  -- What one step of the library adds.
  abbrev Grows : ZstdDecoder Z → Bytes → Result CompressionError Run × ZstdDecoder Z → Type 0
  Grows d input (err e, d') =
      (e ≢ out_of_rounds)
      × (d'.decoded ≡ d.decoded)
      × (d'.pending ≡ d.pending)
      × (d'.max_plaintext ≡ d.max_plaintext)
  Grows d input (ok r, d') =
      (r.consumed ≤ length input)
      × (d'.decoded ≡ d.decoded + length r.written)
      × (d'.pending ≡ d.pending ++ r.written)
      × (d'.max_plaintext ≡ d.max_plaintext)
      × (d.decoded + length r.written ≤ d.max_plaintext)

  run_decoder_step-Grows :
      (input : Bytes) (d : ZstdDecoder Z) → IsBounded d → Grows d input (run_decoder_step z input d)
  unfolding run_decoder_step
  run_decoder_step-Grows input d b =
      let room = d.max_plaintext - d.decoded in
      elim (Option-cases (z.run input (capacity_for z room) d.inner).0) [
        | inl e ↦ rw (e, run_decoder_step) (λ h. cc, refl, refl, refl)
        | inr (r, e) ↦ elim (Bool-cases (ltb room (length r.written))) [
          | inl over ↦ rw (e, over, run_decoder_step) (λ h. cc, refl, refl, refl)
          | inr fits ↦
              rw (e, fits, run_decoder_step)
                (
                  law.reads input (capacity_for z room) d.inner r e,
                  refl,
                  refl,
                  refl,
                  ground (arith, fits),
                )
        ]
      ]

  IsBounded-Grows :
      (d d' : ZstdDecoder Z) (input : Bytes) (a : Result CompressionError Run)
      → IsBounded d
      → Grows d input (a, d')
      → IsBounded d'
  IsBounded-Grows d d' input (err e) b g =
      (omega (arith, g.1, g.3), omega (arith, g.1, ap (λ (p : Bytes). length p) g.2))
  IsBounded-Grows d d' input (ok r) b g = (
    omega (arith, g.1, g.3, g.4),
    omega (arith, g.1, ap (λ (p : Bytes). length p) g.2, length-append d.pending r.written),
  )

  abbrev pub Ends : ZstdDecoder Z → Result CompressionError DecodeProgress × ZstdDecoder Z → Type 0
  Ends d r = (r.0 ≢ err out_of_rounds) × IsBounded r.1 × (r.1.max_plaintext ≡ d.max_plaintext)

  push_after-Ends :
      (rounds pos : ℕ) (input : Bytes) (d : ZstdDecoder Z)
      (further : ℕ → Bytes → ZstdDecoder Z → Pushed z)
      → ((at : ℕ) (rest : Bytes) (e : ZstdDecoder Z)
          → IsBounded e
          → length rest + (e.max_plaintext - e.decoded) < rounds
          → Ends e (further at rest e))
      → IsBounded d
      → length input + (d.max_plaintext - d.decoded) < suc rounds
      → (capacity : ℕ) → (s : Result CompressionError Run × ZstdDecoder Z) → Grows d input s
      → Ends d (push_after z further pos input capacity s)
  push_after-Ends rounds pos input d further ends b h capacity (err e, d') g =
      (λ same. g.0 (ground (arith, same)), IsBounded-Grows d d' input (err e) b g, g.3)
  push_after-Ends rounds pos input d further ends b h capacity (ok r, d') g =
      let bounded = IsBounded-Grows d d' input (ok r) b g in
      elim (Bool-cases (r.hint == 0)) [
        | inl done ↦ rw done (λ same. cc, bounded, g.3)
        | inr more ↦
            elim (Bool-cases (r.consumed == length input && ltb (length r.written) capacity)) [
              | inl drained ↦ rw (more, drained) (λ same. cc, bounded, g.3)
              | inr full ↦ elim (Bool-cases (r.consumed == 0 && length r.written == 0)) [
                | inl stuck ↦ rw (more, full, stuck) (λ same. cc, bounded, g.3)
                | inr moved ↦
                    let shorter : length (drop r.consumed input) + (d'.max_plaintext - d'.decoded)
                        < rounds =
                      grind (arith, moved, g.0, g.1, g.3, g.4, h, length-drop r.consumed input) in
                    let rest = ends (pos + r.consumed) (drop r.consumed input) d' bounded shorter in
                    rw (more, full, moved) (rest.0, rest.1, rest.2 ∙ g.3)
              ]
            ]
      ]

  push_loop-Ends :
      (rounds pos : ℕ) (input : Bytes) (d : ZstdDecoder Z)
      → IsBounded d
      → length input + (d.max_plaintext - d.decoded) < rounds
      → Ends d (push_loop z rounds pos input d)
  unfolding push_loop
  push_loop-Ends zero pos input d b h = absurd (omega arith)
  push_loop-Ends (suc rounds) pos input d b h =
      push_after-Ends rounds pos input d (push_loop z rounds) (push_loop-Ends rounds) b h
        (capacity_for z (d.max_plaintext - d.decoded)) (run_decoder_step z input d)
        (run_decoder_step-Grows input d b)

  -- `push` ends, whatever the library answers, and the bytes that it decodes in all stay within the
  -- cap: what goes beyond is an error, not output.
  pub push-Ends :
      (compressed : Bytes) (d : ZstdDecoder Z) → IsBounded d → Ends d (push z compressed d)
  unfolding push
  push-Ends compressed d b =
      let looped =
        push_loop z (suc (length compressed + (d.max_plaintext - d.decoded))) 0 compressed d in
      let idle : Pushed z = (ok (record { consumed = 0; frame_complete = true }), d) in
      elim d.frame_complete as (λ c. Ends d (if c then idle else looped)) [
        | true ↦ (λ same. cc, b, refl)
        | false ↦
            push_loop-Ends (suc (length compressed + (d.max_plaintext - d.decoded))) 0 compressed d
              b (omega arith)
      ]
