-- ===== src/Upload/Driver/Sound.antt =====
-- What holds of an upload between the steps of crates/qftp-server/src/transfer_put.rs, and of its
-- destination.
use qftp.Prelude.{
  ℕ, ◌+◌, ◌≤◌, Bytes, true, false, Option, none, some, [], ◌∷◌, ◌++◌, length, length-append, drop,
  ltb, ◌==◌, nat_eq, list_eq, list_beq_iff, beq_refl, if◌then◌else◌, lookup, lookup-insert,
  lookup-remove, Result, ok, err, ◌≡◌, ◌≢◌, ◌⊎◌, inl, inr, ap, ◌∙◌, arith, Bool-cases, Option-cases,
}
use qftp.Protocol.Messages.{Response, ok_response}
use qftp.Paths.{FilePath}
use qftp.Upload.Decoder.{DecodeProgress, CompressionError, push, Zstd, ZstdDecoder}
use qftp.Upload.Trailer.{TrailerBuf, extend}
use qftp.Upload.Driver.Drive.{expected_of, matches}
use qftp.Upload.Driver.{
  PutError, refusal, details_of, ResumeRehash, Env, Exit, waiting, answer, Put, Step, content_at,
  continue, write_failed, cleanup_rejected_upload, reject, rejected, take_body, append_put_trailer,
  extend_trailer, set_trailer, set_decoder, body_overflow, surplus_trailer, decoded_overflow,
  bytes_missing, stopped_early, drain_pending, after_push, pushed, feed_zstd_put_chunk,
}

pub path_beq-false : (p q : FilePath) → p ≢ q → (p == q) ≡ false
path_beq-false p q h = elim (Bool-cases (p == q)) [
  | inl e ↦ absurd (h ((list_beq_iff p q).0 e))
  | inr e ↦ e
]

pub refusal-ne-ok : (text : PutError → Bytes) (e : PutError) → refusal text e ≢ ok_response
unfolding refusal
refusal-ne-ok text e h = elim (Option-cases (details_of e)) [
  | inl n ↦ ground (arith, h, n)
  | inr (d, s) ↦ ground (arith, h, s)
]

-- One upload to `final`, where `before` is what was there, of `total` bytes with the resumed prefix.
module _ {Z : Type 0} (hash : Bytes → Bytes) (final : FilePath) (before : Option Bytes)
    (total : ℕ) where
  -- The destination is as it was.
  pub record IsKept (p : Put Z) : Type 0 where
    pub place : p.0.final_path ≡ final
    pub apart : p.0.temp_path ≢ final
    pub kept : lookup final p.1.files ≡ before

  -- The temp file holds what was hashed, which is all that has arrived.
  pub record IsReady (p : Put Z) : Type 0 where
    pub keeps : IsKept p
    pub prefix_hashed : p.0.rehash ≡ none
    pub temp : lookup p.0.temp_path p.1.files ≡ some p.0.hashed
    pub size : length p.0.hashed + p.0.remaining ≡ total

  -- The temp file holds the prefix, of which a part is not hashed yet.
  pub record IsHashing (rh : ResumeRehash) (p : Put Z) : Type 0 where
    pub keeps : IsKept p
    pub hashing : p.0.rehash ≡ some rh
    pub rest : Bytes
    pub temp : lookup p.0.temp_path p.1.files ≡ some (p.0.hashed ++ rest)
    pub unread : length rest ≡ rh.remaining
    pub size : length p.0.hashed + length rest + p.0.remaining ≡ total

  abbrev pub IsOpen : Put Z → Type 0
  IsOpen p = IsReady p ⊎ ((rh : ResumeRehash) × IsHashing rh p)

  -- The destination holds the whole upload, and its hash is the checksum that was given for it.
  abbrev pub IsCommitted : Put Z → Type 0
  IsCommitted p =
      (content : Bytes) × (lookup final p.1.files ≡ some content)
      × (length content ≡ total)
      × (matches hash (expected_of p.0.trailer_buf p.0.expected_checksum) content ≡ true)
      × (p.0.temp_path ≢ final)

  -- What is owed to an answer.
  abbrev pub IsAnswered : Response → Put Z → Type 0
  IsAnswered resp p = (resp ≢ ok_response) × IsKept p ⊎ (resp ≡ ok_response) × IsCommitted p

  -- What is owed to a step.
  abbrev pub IsGood : {A : Type 0} → Result Exit A × Put Z → Type 0
  IsGood (ok a, p) = IsReady p
  IsGood (err waiting, p) = IsOpen p
  IsGood (err (answer resp), p) = IsAnswered resp p

  pub IsGood-bind :
      {A B : Type 0} (s : Result Exit A × Put Z) (f : A → Step Z B)
      → IsGood s
      → ((a : A) (p : Put Z) → IsReady p → IsGood (f a p))
      → IsGood (continue f s)
  IsGood-bind (ok a, p) f g k = k a p g
  IsGood-bind (err waiting, p) f g k = g
  IsGood-bind (err (answer resp), p) f g k = g

  -- A refusal that leaves all as it is
  pub refused-IsGood :
      (A : Type 0) (text : PutError → Bytes) (e : PutError) (p : Put Z)
      → IsKept p
      → IsGood {A = A} (err (answer (refusal text e)), p)
  refused-IsGood A text e p k = inl (refusal-ne-ok text e, k)

  pub cleanup-IsKept : (p : Put Z) → IsKept p → IsKept (cleanup_rejected_upload p)
  unfolding cleanup_rejected_upload
  cleanup-IsKept (u, w) k = record {
    place = k.place;
    apart = k.apart;
    kept =
        lookup-remove u.temp_path final w.files
        ∙ (ap (λ b. if b then none else lookup final w.files)
              (path_beq-false u.temp_path final k.apart)
            ∙ k.kept);
  }

  pub reject-IsGood :
      (A : Type 0) (text : PutError → Bytes) (e : PutError) (p : Put Z)
      → IsKept p
      → IsGood {A = A} (reject (refusal text e) p)
  reject-IsGood A text e p k = inl (refusal-ne-ok text e, cleanup-IsKept p k)

  module _ (text : PutError → Bytes) (env : Env) where
    pub take_body-IsGood :
        (body : Bytes) (p : Put Z)
        → IsReady p
        → length body ≤ p.0.remaining
        → IsGood (take_body text env body p)
    unfolding take_body
    take_body-IsGood body (u, w) r h = elim (Option-cases (env.write (length u.hashed))) [
      | inr (e, failed) ↦
          rw (failed, take_body) (refused-IsGood (Unit {0}) text (write_failed e) (u, w) r.keeps)
      | inl written ↦
          rw (written, take_body)
            (record {
              keeps = record {
                place = r.keeps.place;
                apart = r.keeps.apart;
                kept =
                    lookup-insert u.temp_path final (content_at u.temp_path w ++ body) w.files
                    ∙ (ap
                          (λ b.
                            if b
                            then some (content_at u.temp_path w ++ body)
                            else lookup final w.files)
                          (path_beq-false u.temp_path final r.keeps.apart)
                        ∙ r.keeps.kept);
              };
              prefix_hashed = r.prefix_hashed;
              temp =
                  lookup-insert u.temp_path u.temp_path (content_at u.temp_path w ++ body) w.files
                  ∙ rw (beq_refl u.temp_path)
                      (ap (λ c. some (c ++ body)) (rw (r.temp, content_at)));
              size = omega (arith, length-append u.hashed body, r.size, h);
            })
    ]

    pub set_trailer-IsReady :
        (b : TrailerBuf) (p : Put Z) → IsReady p → IsReady (set_trailer text b p)
    set_trailer-IsReady b (u, w) r = record {
      keeps = record { place = r.keeps.place; apart = r.keeps.apart; kept = r.keeps.kept };
      prefix_hashed = r.prefix_hashed;
      temp = r.temp;
      size = r.size;
    }

    set_decoder-IsReady :
        (d : ZstdDecoder Z) (p : Put Z) → IsReady p → IsReady (set_decoder text d p)
    set_decoder-IsReady d (u, w) r = record {
      keeps = record { place = r.keeps.place; apart = r.keeps.apart; kept = r.keeps.kept };
      prefix_hashed = r.prefix_hashed;
      temp = r.temp;
      size = r.size;
    }

    extend_trailer-IsGood :
        (piece : Bytes) (buf : Option TrailerBuf) (p : Put Z)
        → IsReady p
        → IsGood (extend_trailer text piece buf p)
    extend_trailer-IsGood piece none p r = refused-IsGood (Unit {0}) text body_overflow p r.keeps
    extend_trailer-IsGood piece (some buf) p r =
        let kept = set_trailer-IsReady (extend piece buf).1 p r in
        elim (Bool-cases (ltb (extend piece buf).0 (length piece))) [
          | inl over ↦ rw over (refused-IsGood (Unit {0}) text surplus_trailer _ kept.keeps)
          | inr all ↦ rw all kept
        ]

    append_put_trailer-IsGood :
        (piece : Bytes) (p : Put Z) → IsReady p → IsGood (append_put_trailer text piece p)
    unfolding append_put_trailer
    append_put_trailer-IsGood [] p r = r
    append_put_trailer-IsGood (c ∷ piece) (u, w) r =
        extend_trailer-IsGood (c ∷ piece) u.trailer_buf (u, w) r

    drain_pending-IsGood :
        (d : ZstdDecoder Z) (p : Put Z) → IsReady p → IsGood (drain_pending text env d p)
    drain_pending-IsGood d (u, w) r = elim (Bool-cases (length d.pending == 0)) [
      | inl empty ↦ rw empty r
      | inr some_left ↦ elim (Bool-cases (ltb u.remaining (length d.pending))) [
        | inl over ↦
            rw (some_left, over) (refused-IsGood (Unit {0}) text decoded_overflow (u, w) r.keeps)
        | inr fits ↦
            rw (some_left, fits)
              (IsGood-bind (take_body text env d.pending (u, w)) _
                (take_body-IsGood d.pending (u, w) r (ground (arith, fits)))
                (λ a p k. set_decoder-IsReady _ p k))
      ]
    ]

    after_push-IsGood :
        (input : Bytes) (progress : DecodeProgress) (p : Put Z)
        → IsReady p
        → IsGood (after_push text input progress p)
    after_push-IsGood input progress (u, w) r = elim (Bool-cases progress.frame_complete) [
      | inl whole ↦ elim (Bool-cases (ltb 0 u.remaining)) [
        | inl short ↦
            rw (whole, short)
              (refused-IsGood (Unit {0}) text (bytes_missing u.remaining) (u, w) r.keeps)
        | inr all ↦
            rw (whole, all) (append_put_trailer-IsGood (drop progress.consumed input) (u, w) r)
      ]
      | inr part ↦ elim (Bool-cases (ltb progress.consumed (length input))) [
        | inl short ↦ rw (part, short) (refused-IsGood (Unit {0}) text stopped_early (u, w) r.keeps)
        | inr all ↦ rw (part, all) r
      ]
    ]

    pushed-IsGood :
        (input : Bytes) (s : Result CompressionError DecodeProgress × ZstdDecoder Z) (p : Put Z)
        → IsReady p
        → IsGood (pushed text env input s p)
    pushed-IsGood input (err e, d) p r =
        refused-IsGood (Unit {0}) text _ _ (set_decoder-IsReady d p r).keeps
    pushed-IsGood input (ok progress, d) p r =
        IsGood-bind (drain_pending text env d (set_decoder text d p)) _
          (drain_pending-IsGood d (set_decoder text d p) (set_decoder-IsReady d p r))
          (λ a p k. after_push-IsGood input progress p k)

    -- A chunk of a compressed body
    pub feed_zstd_put_chunk-IsGood :
        (z : Zstd Z) (input : Bytes) (d : ZstdDecoder Z) (p : Put Z)
        → IsReady p
        → IsGood (feed_zstd_put_chunk text z env input d p)
    unfolding feed_zstd_put_chunk
    feed_zstd_put_chunk-IsGood z input d p r =
        elim d.frame_complete
          as (λ c. IsGood (
            (if c then append_put_trailer text input else pushed text env input (push z input d))
              p)) [
                | true ↦ append_put_trailer-IsGood input p r
                | false ↦ pushed-IsGood input (push z input d) p r
              ]

  cleanup-IsAnswered :
      (resp : Response) (p : Put Z)
      → IsAnswered resp p
      → IsAnswered resp (cleanup_rejected_upload p)
  unfolding cleanup_rejected_upload
  cleanup-IsAnswered resp p (inl (refused, k)) = inl (refused, cleanup-IsKept p k)
  cleanup-IsAnswered resp (u, w) (inr (e, (content, held, size, sum, apart))) = inr (
    e,
    (
      content,
      lookup-remove u.temp_path final w.files
          ∙ (ap (λ b. if b then none else lookup final w.files)
                (path_beq-false u.temp_path final apart)
              ∙ held),
      size,
      sum,
      apart,
    ),
  )

  pub rejected-IsGood : {A : Type 0} (s : Result Exit A × Put Z) → IsGood s → IsGood (rejected s)
  rejected-IsGood (ok a, p) g = g
  rejected-IsGood (err waiting, p) g = g
  rejected-IsGood (err (answer resp), p) g = cleanup-IsAnswered resp p g
