-- ===== src/Upload/Driver/Steps.antt =====
-- The steps of `drive_put` of crates/qftp-server/src/transfer_put.rs before the commit.
use qftp.Prelude.{
  ℕ, ◌≤◌, Bytes, Bool, true, false, not, ◌&&◌, Option, none, some, List, [], ◌∷◌, length, take,
  drop, length-take, ltb, ◌==◌, nat_eq, list_eq, Result, ok, err, ◌≡◌, inl, inr, refl, arith,
  Bool-cases,
}
use qftp.Paths.{FilePath}
use qftp.Upload.Trailer.{TrailerBuf, extend, is_full}
use qftp.Upload.Decoder.{Zstd}
use qftp.Upload.Split.{PutOverflow, PutChunkSplit, classify_put_chunk}
use qftp.Upload.Driver.{
  PutError, body_overflow, surplus_trailer, body_truncated, frame_cut, stream_failed, trailer_cut,
  put_overflow_err, refusal, RecvEncoding, identity_body, zstd_body, StreamRecv, chunk, blocked,
  invalid_state, recv_failed, Env, Exit, answer, Put, Step, continue, take_body, set_trailer,
  feed_zstd_put_chunk, reject,
}
use qftp.Upload.Driver.Drive
use qftp.Upload.Driver.Drive.{expected_of, matches, is_there, drive_put}
use qftp.Upload.Driver.Sound.{
  IsKept, IsReady, IsGood, IsGood-bind, refused-IsGood, reject-IsGood, take_body-IsGood,
  set_trailer-IsReady, feed_zstd_put_chunk-IsGood, rejected-IsGood,
}

module _ {Z : Type 0} (z : Zstd Z) (hash : Bytes → Bytes) (text : PutError → Bytes) (env : Env)
    (final : FilePath) (before : Option Bytes) (total : ℕ) where
  abbrev pub Ready : Put Z → Type 0
  Ready = IsReady hash final before total

  abbrev pub Good : {A : Type 0} → Result Exit A × Put Z → Type 0
  Good = IsGood hash final before total

  pub bind :
      {A B : Type 0} (s : Result Exit A × Put Z) (f : A → Step Z B)
      → Good s
      → ((a : A) (p : Put Z) → Ready p → Good (f a p))
      → Good (continue f s)
  bind = IsGood-bind hash final before total

  pub refused :
      (A : Type 0) (e : PutError) (p : Put Z)
      → IsKept hash final before total p
      → Good {A = A} (err (answer (refusal text e)), p)
  refused A e p k = refused-IsGood hash final before total A text e p k

  pub rejecting :
      (A : Type 0) (e : PutError) (p : Put Z)
      → IsKept hash final before total p
      → Good {A = A} (reject (refusal text e) p)
  rejecting A e p k = reject-IsGood hash final before total A text e p k

  take_held-Good :
      (pending : Bytes) (enc : RecvEncoding Z) (p : Put Z)
      → Ready p
      → Good (Drive.take_held z hash text env pending enc p)
  take_held-Good pending identity_body (u, w) r =
      elim (Bool-cases (ltb u.remaining (length pending))) [
        | inl over ↦ rw over (refused (Unit {0}) body_overflow (u, w) r.keeps)
        | inr fits ↦ rw fits (
            take_body-IsGood hash final before total text env pending (u, w) r
              (ground (arith, fits)))
      ]
  take_held-Good pending (zstd_body d) p r =
      rejected-IsGood hash final before total (feed_zstd_put_chunk text z env pending d p)
        (feed_zstd_put_chunk-IsGood hash final before total text env z pending d p r)

  pub take_pending-Good :
      (pending : Bytes) (p : Put Z) → Ready p → Good (Drive.take_pending z hash text env pending p)
  take_pending-Good pending (u, w) r = elim (Bool-cases (length pending == 0)) [
    | inl empty ↦ rw empty r
    | inr held ↦ rw held (take_held-Good pending u.recv_encoding (u, w) r)
  ]

  pub keep_trailer-Ready :
      (bs : Bytes) (buf : Option TrailerBuf) (q : Put Z)
      → Ready q
      → Ready (Drive.keep_trailer z hash text env bs buf q)
  keep_trailer-Ready bs none q k = k
  keep_trailer-Ready bs (some buf) q k = elim (Bool-cases (length bs == 0)) [
    | inl empty ↦ rw empty k
    | inr more ↦
        rw more (set_trailer-IsReady hash final before total text env (extend bs buf).1 q k)
  ]

  split_chunk-Good :
      (piece : Bytes) (split : Result PutOverflow PutChunkSplit) (p : Put Z)
      → ((s : PutChunkSplit) → split ≡ ok s → length (take s.to_body piece) ≤ p.0.remaining)
      → Ready p
      → Good (Drive.split_chunk z hash text env piece split p)
  split_chunk-Good piece (err o) p fits r = refused (Unit {0}) (put_overflow_err o) p r.keeps
  split_chunk-Good piece (ok split) p fits r =
      bind (take_body text env (take split.to_body piece) p) _
        (take_body-IsGood hash final before total text env (take split.to_body piece) p r
          (fits split refl))
        (λ a q k.
          keep_trailer-Ready (take split.to_trailer (drop split.to_body piece)) q.0.trailer_buf q k)

  pub classify-fits :
      (piece : Bytes) (left : ℕ) (announced : Bool) (room : ℕ) (s : PutChunkSplit)
      → classify_put_chunk (length piece) left announced room ≡ ok s
      → length (take s.to_body piece) ≤ left
  unfolding classify_put_chunk
  classify-fits piece left announced room s h = ground (arith, h, length-take s.to_body piece)

  check_fin-Good : (fin : Bool) (p : Put Z) → Ready p → Good (Drive.check_fin z hash text env fin p)
  check_fin-Good fin (u, w) r = elim (Bool-cases (fin && ltb 0 u.remaining)) [
    | inl short ↦ rw short (refused (Unit {0}) (body_truncated u.remaining) (u, w) r.keeps)
    | inr fine ↦ rw fine r
  ]

  check_frame-Good :
      (fin : Bool) (p : Put Z) → Ready p → Good (Drive.check_frame z hash text env fin p)
  check_frame-Good fin (u, w) r =
      elim (Bool-cases (fin && Drive.frame_open z hash text env u.recv_encoding)) [
        | inl cut ↦ rw cut (rejecting (Unit {0}) frame_cut (u, w) r.keeps)
        | inr fine ↦ rw fine r
      ]

  take_chunk-Good :
      (piece : Bytes) (fin : Bool) (enc : RecvEncoding Z) (p : Put Z)
      → Ready p
      → Good (Drive.take_chunk z hash text env piece fin enc p)
  take_chunk-Good piece fin identity_body (u, w) r =
      bind _ _ (split_chunk-Good piece _ (u, w) (λ s h. classify-fits piece u.remaining _ _ s h) r)
        (λ a q k. check_fin-Good fin q k)
  take_chunk-Good piece fin (zstd_body d) p r =
      bind _ _
        (rejected-IsGood hash final before total (feed_zstd_put_chunk text z env piece d p)
          (feed_zstd_put_chunk-IsGood hash final before total text env z piece d p r))
        (λ a q k. check_frame-Good fin q k)

  receive_chunk-Good :
      (piece : Bytes) (fin : Bool) (p : Put Z)
      → Ready p
      → Good (Drive.receive_chunk z hash text env piece fin p)
  unfolding Drive.receive_chunk
  receive_chunk-Good piece fin (u, w) r = take_chunk-Good piece fin u.recv_encoding (u, w) r

  on_answer-Good :
      (rest : Step Z (List StreamRecv)) (answers : List StreamRecv) (a : StreamRecv) (done : Bool)
      (p : Put Z)
      → ((q : Put Z) → Ready q → Good (rest q))
      → Ready p
      → Good (Drive.on_answer z hash text env rest answers a done p)
  on_answer-Good rest answers a true p g r = r
  on_answer-Good rest answers blocked false p g r = r
  on_answer-Good rest answers invalid_state false p g r =
      refused (List StreamRecv) stream_failed p r.keeps
  on_answer-Good rest answers recv_failed false p g r =
      refused (List StreamRecv) stream_failed p r.keeps
  on_answer-Good rest answers (chunk piece fin) false p g r =
      bind (Drive.receive_chunk z hash text env piece fin p) _ (receive_chunk-Good piece fin p r)
        (λ a q k. g q k)

  pub phase_a-Good :
      (answers : List StreamRecv) (p : Put Z)
      → Ready p
      → Good (Drive.phase_a z hash text env answers p)
  unfolding Drive.phase_a
  phase_a-Good [] p r = r
  phase_a-Good (a ∷ answers) p r =
      on_answer-Good (Drive.phase_a z hash text env answers) answers a
        (Drive.body_done z hash text env p) p (phase_a-Good answers) r

  pub drain_trailer-Good :
      (answers : List StreamRecv) (buf : TrailerBuf) (p : Put Z)
      → Ready p
      → Good (Drive.drain_trailer z hash text env answers buf p)
  unfolding Drive.drain_trailer
  drain_trailer-Good [] buf p r = elim (Bool-cases (is_full buf)) [
    | inl full ↦ rw (full, Drive.drain_trailer) r
    | inr part ↦ rw (part, Drive.drain_trailer) (inl r)
  ]
  drain_trailer-Good (blocked ∷ answers) buf p r = elim (Bool-cases (is_full buf)) [
    | inl full ↦ rw (full, Drive.drain_trailer) r
    | inr part ↦ rw (part, Drive.drain_trailer) (inl r)
  ]
  drain_trailer-Good (invalid_state ∷ answers) buf p r = elim (Bool-cases (is_full buf)) [
    | inl full ↦ rw (full, Drive.drain_trailer) r
    | inr part ↦ rw (part, Drive.drain_trailer) (refused (Unit {0}) trailer_cut p r.keeps)
  ]
  drain_trailer-Good (recv_failed ∷ answers) buf p r = elim (Bool-cases (is_full buf)) [
    | inl full ↦ rw (full, Drive.drain_trailer) r
    | inr part ↦ rw (part, Drive.drain_trailer) (refused (Unit {0}) stream_failed p r.keeps)
  ]
  drain_trailer-Good (chunk piece fin ∷ answers) buf p r =
      let e = extend piece buf in
      let set = set_trailer-IsReady hash final before total text env e.1 p r in
      let p' = set_trailer text e.1 p in
      elim (Bool-cases (is_full buf)) [
        | inl full ↦ rw (full, Drive.drain_trailer) r
        | inr part ↦ elim (Bool-cases (ltb e.0 (length piece))) [
          | inl over ↦
              rw (part, over, Drive.drain_trailer) (refused (Unit {0}) surplus_trailer p' set.keeps)
          | inr all ↦ elim (Bool-cases (fin && not (is_full e.1))) [
            | inl cut ↦
                rw (part, all, cut, Drive.drain_trailer)
                  (refused (Unit {0}) trailer_cut p' set.keeps)
            | inr fine ↦
                rw (part, all, fine, Drive.drain_trailer) (drain_trailer-Good answers e.1 p' set)
          ]
        ]
      ]
