-- ===== src/Upload/Driver/Start/Begun.antt =====
-- The upload that `start_put` of crates/qftp-server/src/transfer_put.rs begins, before the bytes
-- that came with its request.
use qftp.Prelude.{
  ℕ, ◌+◌, ◌-◌, ◌<◌, ◌^◌, Bytes, Bool, true, false, Option, none, some, [], ◌∷◌, ◌++◌, length,
  length-append, ◌==◌, nat_eq, list_eq, beq_refl, if◌then◌else◌, lookup, lookup-insert,
  lookup-remove, Result, ok, err, ◌≡◌, ◌≢◌, ◌⊎◌, inl, inr, refl, sym, ap, ◌∙◌, subst, arith,
  Bool-cases, Option-cases,
}
use qftp.Protocol.Messages.{ok_response}
use qftp.Paths.{FilePath, file_name, push}
use qftp.Paths.Names.{file_name-eq_some, parent-push, file_name-push}
use qftp.Upload.Decoder.{Zstd}
use qftp.Upload.Claims.{temp_path_for, partial_suffix}
use qftp.Upload.Quota.{Usage, admit}
use qftp.Server.Plan.{PutRequest}
use qftp.Upload.Driver.{PutError, over_limit, decoder_failed, RecvEncoding, ResumeRehash, World}
use qftp.Upload.Driver.Sound.{IsOpen, refusal-ne-ok, path_beq-false}
use qftp.Upload.Driver.Start.{
  StartEnv, Opened, set_file, refunded, open_fresh, open_resumed, resume_old, or_empty,
  open_partial, encoding_of, begin_with, admitted, with_partial, begin_put, Ended,
}

last_of : Bytes → FilePath → Bytes
last_of d [] = d
last_of d (n ∷ p) = last_of n p

last_of-push : (d : Bytes) (p : FilePath) (n : Bytes) → last_of d (push p n) ≡ n
unfolding last_of
last_of-push d [] n = refl
last_of-push d (m ∷ p) n = last_of-push m p n

-- The partial of a destination that has a name is another file.
pub temp_path_for-ne :
    (final : FilePath) (name : Bytes) → file_name final ≡ some name → temp_path_for final ≢ final
unfolding temp_path_for last_of
temp_path_for-ne final name h same =
    let (dir, e) = file_name-eq_some final name h in
    let temp : temp_path_for (push dir name) ≡ push dir (name ++ partial_suffix) =
      rw (parent-push dir name, file_name-push dir name, temp_path_for) in
    let both : push dir (name ++ partial_suffix) ≡ push dir name =
      sym temp ∙ (ap temp_path_for (sym e) ∙ (same ∙ e)) in
    let names : name ++ partial_suffix ≡ name =
      sym (last_of-push [] dir (name ++ partial_suffix))
      ∙ (ap (last_of []) both ∙ last_of-push [] dir name) in
    absurd (omega (arith, ap (λ (n : Bytes). length n) names, length-append name partial_suffix))

module _ (final : FilePath) (named : temp_path_for final ≢ final) where
  lookup-set_file :
      (content : Bytes) (w : World)
      → lookup final (set_file (temp_path_for final) content w).files ≡ lookup final w.files
  lookup-set_file content w =
      lookup-insert (temp_path_for final) final content w.files
      ∙ ap (λ b. if b then some content else lookup final w.files)
          (path_beq-false (temp_path_for final) final named)

  temp-set_file :
      (content : Bytes) (w : World)
      → lookup (temp_path_for final) (set_file (temp_path_for final) content w).files ≡ some content
  temp-set_file content w =
      lookup-insert (temp_path_for final) (temp_path_for final) content w.files
      ∙ ap (λ b. if b then some content else lookup (temp_path_for final) w.files)
          (beq_refl (temp_path_for final))

  -- What is behind the open partial: nothing, of a fresh upload; or the prefix, of a resumed one.
  abbrev Holds : ℕ → Opened → Type 0
  Holds offset o =
      (old : Bytes) × (lookup (temp_path_for final) o.world.files ≡ some old)
      × (length old ≡ offset)
      × ((o.rehash ≡ none) × (old ≡ [])
          ⊎ ((rh : ResumeRehash) × (o.rehash ≡ some rh) × (rh.remaining ≡ offset)))

  abbrev IsOpened : Option Bytes → ℕ → Result PutError Opened × World → Type 0
  IsOpened before offset (err e, w) = lookup final w.files ≡ before
  IsOpened before offset (ok o, w) = (lookup final o.world.files ≡ before) × Holds offset o

  open_fresh-IsOpened :
      (env : StartEnv) (old : Bytes) (w : World)
      → IsOpened (lookup final w.files) 0 (open_fresh env (temp_path_for final) old w)
  open_fresh-IsOpened env old w =
      let temp = temp_path_for final in
      let paid = refunded (if env.metadata then length old else 0) (set_file temp old w) in
      let same = lookup-set_file old w in
      let same' = lookup-set_file [] paid ∙ same in
      elim (Option-cases env.set_len) [
        | inr (e, failed) ↦ rw failed same
        | inl truncated ↦ elim (Option-cases env.set_permissions) [
          | inr (e, failed) ↦ rw (truncated, failed) same'
          | inl set ↦
              rw (truncated, set) (same', ([], temp-set_file [] paid, refl, inl (refl, refl)))
        ]
      ]

  open_resumed-IsOpened :
      (env : StartEnv) (offset : ℕ) (old : Bytes) (w : World)
      → offset < 2 ^ 64 - 1
      → lookup (temp_path_for final) w.files ≡ some old
      → IsOpened (lookup final w.files) offset (open_resumed env offset old w)
  open_resumed-IsOpened env offset old w small held =
      let have = if env.metadata then length old else 2 ^ 64 - 1 in
      elim (Bool-cases (have == offset)) [
        | inr other ↦ rw other refl
        | inl exact ↦ elim (Option-cases env.seek) [
          | inr (e, failed) ↦ rw (exact, failed) refl
          | inl at ↦ elim (Option-cases env.reopen) [
            | inr (e, failed) ↦ rw (exact, at, failed) refl
            | inl again ↦
                rw (exact, at, again)
                  (
                    refl,
                    (
                      old,
                      held,
                      ground (arith, exact, small),
                      inr (record { remaining = offset; pending_body = [] }, refl, refl),
                    ),
                  )
          ]
        ]
      ]

  resume_old-IsOpened :
      (env : StartEnv) (offset : ℕ) (old : Option Bytes) (w : World)
      → offset < 2 ^ 64 - 1
      → lookup (temp_path_for final) w.files ≡ old
      → IsOpened (lookup final w.files) offset (resume_old env offset old w)
  resume_old-IsOpened env offset none w small held = refl
  resume_old-IsOpened env offset (some old) w small held =
      open_resumed-IsOpened env offset old w small held

  open_partial-IsOpened :
      (env : StartEnv) (offset : ℕ) (w : World)
      → offset < 2 ^ 64 - 1
      → IsOpened (lookup final w.files) offset (open_partial env (temp_path_for final) offset w)
  unfolding open_partial
  open_partial-IsOpened env offset w small =
      let temp = temp_path_for final in
      elim (Option-cases env.opens) [
        | inr (e, failed) ↦ rw (failed, open_partial) refl
        | inl opened ↦ elim (Bool-cases (offset == 0)) [
          | inl fresh ↦
              let zero_offset : offset ≡ 0 = ground (arith, fresh) in
              rw (opened, fresh, open_partial)
                (subst
                  (λ n.
                    IsOpened (lookup final w.files) n
                      (open_fresh env temp (or_empty (lookup temp w.files)) w))
                  (sym zero_offset) (open_fresh-IsOpened env (or_empty (lookup temp w.files)) w))
          | inr resumed ↦
              rw (opened, resumed, open_partial)
                (resume_old-IsOpened env offset (lookup temp w.files) w small refl)
        ]
      ]

  module _ {Z : Type 0} (z : Zstd Z) (hash : Bytes → Bytes) (text : PutError → Bytes)
      (req : PutRequest) (home : FilePath) (before : Option Bytes) where
    -- What is owed to the beginning of an upload: a refusal leaves the destination as it is, and an
    -- upload that has begun is one of `offset + size` bytes.
    abbrev pub IsBegun : Ended z hash text → Type 0
    IsBegun (err resp, w) = (resp ≢ ok_response) × (lookup final w.files ≡ before)
    IsBegun (ok u, w) =
        IsOpen hash final before (req.offset + req.size) (u, w) × (u.final_path ≡ final)

    begin_with-IsBegun :
        (o : Opened) (encoding : Option (RecvEncoding Z)) (w : World)
        → w.files ≡ o.world.files
        → IsOpened before req.offset (ok o, w)
        → IsBegun (begin_with z hash text req home final o encoding w)
    begin_with-IsBegun o none w same (kept, held) =
        (refusal-ne-ok text decoder_failed, ap (lookup final) same ∙ kept)
    begin_with-IsBegun o (some encoding) w same (kept, (old, there, long, inl (fresh, empty))) = (
      inl (record {
        keeps = record { place = refl; apart = named; kept = ap (lookup final) same ∙ kept };
        prefix_hashed = fresh;
        temp = ap (lookup (temp_path_for final)) same ∙ (there ∙ ap some empty);
        size = omega (arith, long, ap (λ (b : Bytes). length b) empty);
      }),
      refl,
    )
    begin_with-IsBegun o (some encoding) w same
          (kept, (old, there, long, inr (rh, resumed, left))) =
        (
          inr (
            rh,
            record {
              keeps = record { place = refl; apart = named; kept = ap (lookup final) same ∙ kept };
              hashing = resumed;
              rest = old;
              temp = ap (lookup (temp_path_for final)) same ∙ there;
              unread = long ∙ sym left;
              size = omega (arith, long);
            },
          ),
          refl,
        )

    admitted-IsBegun :
        (o : Opened) (a : Bool × Usage)
        → IsOpened before req.offset (ok o, o.world)
        → IsBegun (admitted z hash text req home final o a)
    admitted-IsBegun o (true, usage) h =
        begin_with-IsBegun o (encoding_of z req.size req.encoding)
          (record o.world { usage = usage }) refl h
    admitted-IsBegun o (false, usage) h = elim (Bool-cases (req.offset == 0)) [
      | inr resumed ↦ rw resumed (refusal-ne-ok text (over_limit _ _), h.0)
      | inl fresh ↦ rw fresh (
        refusal-ne-ok text (over_limit _ _),
        lookup-remove (temp_path_for final) final o.world.files
            ∙ (ap (λ b. if b then none else lookup final o.world.files)
                  (path_beq-false (temp_path_for final) final named)
                ∙ h.0),
      )
    ]

    with_partial-IsBegun :
        (r : Result PutError Opened × World)
        → IsOpened before req.offset r
        → IsBegun (with_partial z hash text req home final r)
    with_partial-IsBegun (err e, w) h = (refusal-ne-ok text e, h)
    with_partial-IsBegun (ok o, w) h = admitted-IsBegun o (admit req.size o.world.usage) h

  module _ {Z : Type 0} (z : Zstd Z) (hash : Bytes → Bytes) (text : PutError → Bytes) where
    pub begin_put-IsBegun :
        (env : StartEnv) (req : PutRequest) (home : FilePath) (w : World)
        → req.offset < 2 ^ 64 - 1
        → IsBegun z hash text req home
            (lookup final w.files)
            (begin_put z hash text env req home final w)
    unfolding begin_put
    begin_put-IsBegun env req home w small =
        with_partial-IsBegun z hash text req home (lookup final w.files)
          (open_partial env (temp_path_for final) req.offset w)
          (open_partial-IsOpened env req.offset w small)
