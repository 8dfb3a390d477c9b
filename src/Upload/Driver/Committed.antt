-- ===== src/Upload/Driver/Committed.antt =====
-- What `drive_put` of crates/qftp-server/src/transfer_put.rs leaves at the destination of an upload.
use qftp.Prelude.{
  ℕ, Bytes, true, not, ◌&&◌, Option, none, some, List, [], ◌∷◌, length, ltb, nat_eq, list_eq,
  beq_refl, remove, lookup-insert, Result, ok, err, ◌≡◌, inl, inr, refl, ap, ◌∙◌, arith, Bool-cases,
}
use qftp.Protocol.Messages.{Response, ErrorResponse}
use qftp.Paths.{FilePath, IoError}
use qftp.Paths.Recheck.{recheck_ancestors_no_symlinks}
use qftp.Upload.Trailer.{TrailerBuf, extend, is_full}
use qftp.Upload.Decoder.{Zstd}
use qftp.Upload.Driver.{
  PutError, bytes_missing, flush_failed, checksum_failed, appeared, rename_failed, StreamRecv, Env,
  Exit, waiting, answer, set_trailer, chunk, blocked, invalid_state, recv_failed, Put, Step, ◌>>◌,
  continue, content_at,
}
use qftp.Upload.Driver.Drive
use qftp.Upload.Driver.Drive.{expected_of, matches, is_there, drive_put}
use qftp.Upload.Driver.Sound.{IsReady, IsOpen, IsAnswered}
use qftp.Upload.Driver.Rehash.{rehash_phase-Fine}
use qftp.Upload.Driver.Steps.{Good, bind, refused, rejecting, phase_a-Good, drain_trailer-Good}

module _ {Z : Type 0} (z : Zstd Z) (hash : Bytes → Bytes) (text : PutError → Bytes) (env : Env)
    (final : FilePath) (before : Option Bytes) (total : ℕ) where
  abbrev Fine : {A : Type 0} → Result Exit A × Put Z → Type 0
  Fine = Good z hash text env final before total

  abbrev Whole : Put Z → Type 0
  Whole p = IsReady hash final before total p × (p.0.remaining ≡ 0)

  abbrev Verified : Put Z → Type 0
  Verified p =
      Whole p × (matches hash (expected_of p.0.trailer_buf p.0.expected_checksum) p.0.hashed ≡ true)

  commit-Fine : (p : Put Z) → Verified p → Fine (Drive.commit z hash text env p)
  commit-Fine (u, w) ((r, whole), sum) =
      let held : content_at u.temp_path w ≡ u.hashed = rw (r.temp, content_at) in
      inr (
        refl,
        (
          u.hashed,
          lookup-insert u.final_path final (content_at u.temp_path w) (remove u.temp_path w.files)
              ∙ (rw r.keeps.place (rw (beq_refl final) (ap some held))),
          omega (arith, r.size, whole),
          sum,
          r.keeps.apart,
        ),
      )

  rename_temp-Fine :
      (e : Option IoError) (p : Put Z) → Verified p → Fine (Drive.rename_temp z hash text env e p)
  rename_temp-Fine (some e) p v =
      refused z hash text env final before total (Unit {0}) (rename_failed e) p v.0.0.keeps
  rename_temp-Fine none p v = commit-Fine p v

  guarded-Fine :
      (g : Result ErrorResponse (Unit {0})) (p : Put Z)
      → Verified p
      → Fine (Drive.guarded z hash text env g p)
  guarded-Fine (err e) p v = inl (λ same. cc, v.0.0.keeps)
  guarded-Fine (ok tt) (u, w) v =
      elim (Bool-cases (u.no_clobber && is_there (env.lstat u.final_path))) [
        | inl seen ↦ rw seen (
            rejecting z hash text env final before total (Unit {0}) (appeared u.final_path) (u, w)
              v.0.0.keeps)
        | inr absent ↦ rw absent (rename_temp-Fine env.rename (u, w) v)
      ]

  verify-Fine : (p : Put Z) → Whole p → Fine (Drive.verify z hash text env p)
  verify-Fine (u, w) r =
      elim (Bool-cases (matches hash (expected_of u.trailer_buf u.expected_checksum) u.hashed)) [
        | inr wrong ↦ rw wrong (
            rejecting z hash text env final before total (Unit {0}) checksum_failed (u, w)
              r.0.keeps)
        | inl right ↦ rw right (
            guarded-Fine (recheck_ancestors_no_symlinks env.lstat u.final_path u.home) (u, w)
              (r, right))
      ]

  flushed-Fine :
      (e : Option IoError) (p : Put Z) → Whole p → Fine (Drive.flushed z hash text env e p)
  flushed-Fine (some e) p r =
      refused z hash text env final before total (Unit {0}) (flush_failed e) p r.0.keeps
  flushed-Fine none p r = verify-Fine p r

  -- Of a step that goes on: that the body is still all there.
  abbrev StaysWhole : {A : Type 0} → Result Exit A × Put Z → Type 0
  StaysWhole (ok a, p) = p.0.remaining ≡ 0
  StaysWhole (err e, p) = Unit {0}

  drain_trailer-StaysWhole :
      (answers : List StreamRecv) (buf : TrailerBuf) (p : Put Z)
      → p.0.remaining ≡ 0
      → StaysWhole (Drive.drain_trailer z hash text env answers buf p)
  unfolding Drive.drain_trailer
  drain_trailer-StaysWhole [] buf p r = elim (Bool-cases (is_full buf)) [
    | inl full ↦ rw (full, Drive.drain_trailer) r
    | inr part ↦ rw (part, Drive.drain_trailer) tt
  ]
  drain_trailer-StaysWhole (blocked ∷ answers) buf p r = elim (Bool-cases (is_full buf)) [
    | inl full ↦ rw (full, Drive.drain_trailer) r
    | inr part ↦ rw (part, Drive.drain_trailer) tt
  ]
  drain_trailer-StaysWhole (invalid_state ∷ answers) buf p r = elim (Bool-cases (is_full buf)) [
    | inl full ↦ rw (full, Drive.drain_trailer) r
    | inr part ↦ rw (part, Drive.drain_trailer) tt
  ]
  drain_trailer-StaysWhole (recv_failed ∷ answers) buf p r = elim (Bool-cases (is_full buf)) [
    | inl full ↦ rw (full, Drive.drain_trailer) r
    | inr part ↦ rw (part, Drive.drain_trailer) tt
  ]
  drain_trailer-StaysWhole (chunk piece fin ∷ answers) buf p r =
      let e = extend piece buf in
      elim (Bool-cases (is_full buf)) [
        | inl full ↦ rw (full, Drive.drain_trailer) r
        | inr part ↦ elim (Bool-cases (ltb e.0 (length piece))) [
          | inl over ↦ rw (part, over, Drive.drain_trailer) tt
          | inr all ↦ elim (Bool-cases (fin && not (is_full e.1))) [
            | inl cut ↦ rw (part, all, cut, Drive.drain_trailer) tt
            | inr fine ↦
                rw (part, all, fine, Drive.drain_trailer)
                  (drain_trailer-StaysWhole answers e.1 (set_trailer text e.1 p) r)
          ]
        ]
      ]

  Whole-bind :
      {A B : Type 0} (s : Result Exit A × Put Z) (f : A → Step Z B)
      → Fine s
      → StaysWhole s
      → ((a : A) (p : Put Z) → Whole p → Fine (f a p))
      → Fine (continue f s)
  Whole-bind (ok a, p) f g w k = k a p (g, w)
  Whole-bind (err waiting, p) f g w k = g
  Whole-bind (err (answer resp), p) f g w k = g

  trailer-Fine :
      (answers : List StreamRecv) (buf : Option TrailerBuf) (p : Put Z)
      → Whole p
      → Fine (
          (Drive.complete_trailer z hash text env answers buf
              >> Drive.flushed z hash text env env.flush)
            p)
  trailer-Fine answers none p r = flushed-Fine env.flush p r
  trailer-Fine answers (some buf) p r =
      Whole-bind (Drive.drain_trailer z hash text env answers buf p) _
        (drain_trailer-Good z hash text env final before total answers buf p r.0)
        (drain_trailer-StaysWhole answers buf p r.1) (λ a q k. flushed-Fine env.flush q k)

  phase_b-Fine :
      (answers : List StreamRecv) (p : Put Z)
      → IsReady hash final before total p
      → Fine (Drive.phase_b z hash text env answers p)
  unfolding Drive.phase_b
  phase_b-Fine answers (u, w) r = elim (Bool-cases (Drive.body_done z hash text env (u, w))) [
    | inr part ↦ rw (part, Drive.phase_b) (inl r)
    | inl done ↦ elim (Bool-cases (ltb 0 u.remaining)) [
      | inl short ↦
          rw (done, short, Drive.phase_b)
            (rejecting z hash text env final before total (Unit {0}) (bytes_missing u.remaining)
              (u, w) r.keeps)
      | inr all ↦
          rw (done, all, Drive.phase_b)
            (trailer-Fine answers u.trailer_buf (u, w) (r, ground (arith, all)))
    ]
  ]

  -- What is owed to a call of the driver: it has not answered, and the upload goes on; or it has
  -- refused, and the destination is as it was; or it has answered with success, and the destination
  -- holds the whole upload.
  abbrev pub IsDriven : Option Response × Put Z → Type 0
  IsDriven (none, p) = IsOpen hash final before total p
  IsDriven (some resp, p) = IsAnswered hash final before total resp p

  concluded-IsDriven :
      (s : Result Exit (Unit {0}) × Put Z) → Fine s → IsDriven (Drive.concluded z hash text env s)
  concluded-IsDriven (err waiting, p) g = g
  concluded-IsDriven (err (answer resp), p) g = g
  concluded-IsDriven (ok u, p) g = inl g

  -- Whatever arrives, and whatever the calls of the system answer: `drive_put` answers with success
  -- only when the destination holds a file of the announced length, whose hash is the checksum that
  -- was given for it, in the trailer or in the request; as long as it has not, the destination is as
  -- it was before, and so it is after a refusal.
  pub drive_put-IsDriven :
      (answers : List StreamRecv) (p : Put Z)
      → IsOpen hash final before total p
      → IsDriven (drive_put z hash text env answers p)
  unfolding drive_put
  drive_put-IsDriven answers p h = concluded-IsDriven _ (
      bind z hash text env final before total (Drive.rehash_phase z hash text env p) _
        (rehash_phase-Fine z hash text env final before total p h)
        (λ a q r.
          bind z hash text env final before total (Drive.phase_a z hash text env answers q) _
            (phase_a-Good z hash text env final before total answers q r)
            (λ left o k. phase_b-Fine left o k)))
