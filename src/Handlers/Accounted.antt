-- ===== src/Handlers/Accounted.antt =====
-- The handlers of crates/qftp-protocol/src/handler.rs that keep the usage of a user.
use qftp.Prelude.{
  ℕ, ◌-◌, Bytes, bytes, Bool, true, false, nat_eq, list_eq, if◌then◌else◌, Result, ok, err, ◌≡◌,
  ◌≢◌, ◌==◌, list_beq_iff, ap, ◌∙◌, inl, inr, refl, arith, Bool-cases,
}
use qftp.Protocol.Messages.{rm, rename, Response, ok_response, ErrorResponse}
use qftp.Paths.{
  FilePath, Metadata, FileKind, regular_file, directory_file, symbolic_link, special_file, is_file,
  Stat, found, failed, Lstat,
}
use qftp.Paths.Walk.{resolve, resolve_parent}
use qftp.Upload.Claims.{is_upload_temp}
use qftp.Upload.Quota.{Usage, refund}
use qftp.Handlers.{
  remove_file, Fs, Handled, called, checked, on_path, handle_request, is_ok, refund_if, size_of,
  remove_resolved, clobbered, quota_aware_remove, quota_aware_rename,
}

minus_zero : (n : ℕ) → n - 0 ≡ n
minus_zero n = omega arith

module _ (fs : Fs) (root : FilePath) where
  -- What a handler that keeps the usage owes: the outcome of the plain handler; after a success the
  -- size is taken off what is used, and after anything else nothing changes.
  abbrev pub IsAccounted : Handled → ℕ → Usage → Handled × Usage → Type 0
  IsAccounted plain size usage (handled, after) =
      (handled ≡ plain)
      × (after.used_bytes
          ≡ (if is_ok fs root handled.0 then usage.used_bytes - size else usage.used_bytes))
      × (after.in_flight_bytes ≡ usage.in_flight_bytes)

  used-refund_if :
      (done : Bool) (size : ℕ) (usage : Usage)
      → ((refund_if fs root done size usage).used_bytes
          ≡ (if done then usage.used_bytes - size else usage.used_bytes))
        × ((refund_if fs root done size usage).in_flight_bytes ≡ usage.in_flight_bytes)
  unfolding refund
  used-refund_if true size usage = (ground arith, ground arith)
  used-refund_if false size usage = (refl, refl)

  -- The target of a removal, where there is one
  abbrev pub removed_size : Result ErrorResponse FilePath → ℕ
  removed_size (err e) = 0
  removed_size (ok target) = size_of fs root (fs.calling target)

  remove_resolved-IsAccounted :
      (cwd : FilePath) (usage : Usage) (r : Result ErrorResponse FilePath)
      → IsAccounted
          (on_path fs root cwd
            (λ target.
              checked fs root cwd target
                (called fs root (bytes "rm failed: ") cwd (remove_file target)))
            r)
          (removed_size r)
          usage
          (remove_resolved fs root cwd usage r)
  remove_resolved-IsAccounted cwd usage (err e) = (refl, refl, refl)
  remove_resolved-IsAccounted cwd usage (ok target) =
      let handled =
        checked fs root cwd target
          (called fs root (bytes "rm failed: ") cwd (remove_file target)) in
      let (used, in_flight) =
        used-refund_if (is_ok fs root handled.0) (size_of fs root (fs.calling target)) usage in
      (refl, used, in_flight)

  -- A removal that keeps the usage answers and does what the plain handler of `Rm` does; the size of
  -- the regular file is taken off the bytes in use exactly when it succeeds.
  pub quota_aware_remove-IsAccounted :
      (path : Bytes) (cwd : FilePath) (usage : Usage)
      → IsAccounted
          (handle_request fs root (rm path) cwd)
          (removed_size (resolve fs.resolving fs.follows cwd root path))
          usage
          (quota_aware_remove fs root path cwd usage)
  unfolding quota_aware_remove handle_request
  quota_aware_remove-IsAccounted path cwd usage = elim (Bool-cases (is_upload_temp path)) [
    | inl partial ↦ rw partial (refl, refl, refl)
    | inr plain ↦
        rw plain
          (remove_resolved-IsAccounted cwd usage (resolve fs.resolving fs.follows cwd root path))
  ]

  -- The destination of the rename, as it is seen before, is a regular file other than the source.
  abbrev pub Overwrites : Fs → (from_path to_path : Bytes) → FilePath → Metadata → Type 0
  Overwrites before from_path to_path cwd meta =
      (f : FilePath) × (t : FilePath) × (resolve before.resolving before.follows cwd root from_path
        ≡ ok f)
      × (resolve_parent before.resolving cwd root to_path ≡ ok t)
      × (f ≢ t)
      × (before.calling t ≡ found meta)
      × (meta.kind ≡ regular_file)

  clobbered-some :
      (before : Fs) (from_path to_path : Bytes) (cwd : FilePath) (meta : Metadata)
      → Overwrites before from_path to_path cwd meta
      → clobbered fs root before.calling
          (resolve before.resolving before.follows cwd root from_path)
          (resolve_parent before.resolving cwd root to_path)
        ≡ meta.len
  clobbered-some before from_path to_path cwd meta (f, t, from_f, to_t, apart, at, regular) =
      let differ : (f == t) ≡ false = ground (arith, apart, (list_beq_iff f t).0) in
      rw (from_f, to_t, differ, at, regular) refl

  size_of-none :
      (s : Stat)
      → ((meta : Metadata) → s ≡ found meta → meta.kind ≢ regular_file)
      → size_of fs root s ≡ 0
  size_of-none (failed e) h = refl
  size_of-none (found meta) h = if_not_file meta.kind (h meta refl)
    where
      if_not_file : (k : FileKind) → k ≢ regular_file → (if is_file k then meta.len else 0) ≡ 0
      if_not_file regular_file h = absurd (h refl)
      if_not_file directory_file h = refl
      if_not_file symbolic_link h = refl
      if_not_file special_file h = refl

  clobbered-none :
      (lstat : Lstat) (r r' : Result ErrorResponse FilePath)
      → ((f t : FilePath) (meta : Metadata)
          → r ≡ ok f
          → r' ≡ ok t
          → f ≢ t
          → lstat t ≡ found meta
          → meta.kind ≢ regular_file)
      → clobbered fs root lstat r r' ≡ 0
  clobbered-none lstat (err e) r' h = refl
  clobbered-none lstat (ok f) (err e) h = refl
  clobbered-none lstat (ok f) (ok t) h = elim (Bool-cases (f == t)) [
    | inl same ↦ rw same refl
    | inr differ ↦
        let apart : f ≢ t = λ e. ground (arith, differ, e, (list_beq_iff f t).1 e) in
        rw differ (size_of-none (lstat t) λ meta at. h f t meta refl refl apart at)
  ]

  ok-is_ok : (r : Response) → r ≡ ok_response → is_ok fs root r ≡ true
  ok-is_ok r e = rw e refl

  is_ok-ok : (r : Response) → is_ok fs root r ≡ true → r ≡ ok_response
  is_ok-ok ok_response h = refl
  is_ok-ok r h = cc

  -- What a rename that keeps the usage owes
  abbrev pub IsRenameAccounted :
      Fs → (from_path to_path : Bytes) → FilePath → Usage → Handled × Usage → Type 0
  IsRenameAccounted before from_path to_path cwd usage (handled, after) =
      (handled ≡ handle_request fs root (rename from_path to_path) cwd)
      × (handled.0 ≢ ok_response → after ≡ usage)
      × (handled.0 ≡ ok_response
          → (meta : Metadata) → Overwrites before from_path to_path cwd meta
          → after.used_bytes ≡ usage.used_bytes - meta.len)
      × (handled.0 ≡ ok_response
          → ((meta : Metadata) → Overwrites before from_path to_path cwd meta → ⊥)
          → after.used_bytes ≡ usage.used_bytes)
      × (after.in_flight_bytes ≡ usage.in_flight_bytes)

  refund_if-IsRenameAccounted :
      (before : Fs) (from_path to_path : Bytes) (cwd : FilePath) (usage : Usage) (handled : Handled)
      → handled ≡ handle_request fs root (rename from_path to_path) cwd
      → IsRenameAccounted before from_path to_path cwd usage (
        handled,
        refund_if fs root
            (is_ok fs root handled.0)
            (clobbered fs root before.calling
              (resolve before.resolving before.follows cwd root from_path)
              (resolve_parent before.resolving cwd root to_path))
            usage,
      )
  refund_if-IsRenameAccounted before from_path to_path cwd usage handled e =
      let from_r = resolve before.resolving before.follows cwd root from_path in
      let to_r = resolve_parent before.resolving cwd root to_path in
      let size = clobbered fs root before.calling from_r to_r in
      let (used, in_flight) = used-refund_if (is_ok fs root handled.0) size usage in
      (
        e,
        (λ bad. elim (Bool-cases (is_ok fs root handled.0)) [
          | inl done ↦ absurd (bad (is_ok-ok handled.0 done))
          | inr failure ↦ ap (λ b. refund_if fs root b size usage) failure
        ]),
        (λ done meta over.
            used
            ∙ rw (ok-is_ok handled.0 done, clobbered-some before from_path to_path cwd meta over)
                refl),
        (λ done nothing.
            let kept : size ≡ 0 =
              clobbered-none before.calling from_r to_r λ f t meta from_f to_t apart at regular.
                nothing meta (f, t, from_f, to_t, apart, at, regular) in
            used ∙ rw (ok-is_ok handled.0 done, kept) (minus_zero usage.used_bytes)),
        in_flight,
      )

  -- A rename that keeps the usage does and answers what the plain handler does. Nothing changes in the
  -- usage if it does not succeed; if it does, and the destination was seen before it to be a regular
  -- file other than the source, the size of that file is taken off the bytes in use; if it was
  -- anything else, or nothing, they stay as they are.
  pub quota_aware_rename-IsAccounted :
      (before : Fs) (from_path to_path : Bytes) (cwd : FilePath) (usage : Usage)
      → IsRenameAccounted before from_path to_path cwd usage
          (quota_aware_rename fs root before from_path to_path cwd usage)
  unfolding quota_aware_rename
  quota_aware_rename-IsAccounted before from_path to_path cwd usage =
      refund_if-IsRenameAccounted before from_path to_path cwd usage
        (handle_request fs root (rename from_path to_path) cwd) refl
