-- ===== src/Download/Start/Begun.antt =====
-- The download that `start_get` of crates/qftp-server/src/transfer_get.rs begins.
use qftp.Prelude.{
  ℕ, ◌+◌, ◌-◌, ◌≤◌, Bytes, true, false, Option, none, some, [], ltb, nat_eq, Result, ok, err, ◌≡◌,
  ◌⊎◌, inl, inr, refl, arith, Bool-cases,
}
use qftp.Protocol.Messages.{GetFields, FileReadyFields, Response, ErrorResponse}
use qftp.Paths.{FilePath, IoError, Metadata, is_file}
use qftp.Paths.Walk.{resolve}
use qftp.Upload.Claims.{is_upload_temp}
use qftp.Upload.Quota.{max_file_size}
use qftp.Download.{Wire, Source}
use qftp.Download.Sending.{IsAtBody}
use qftp.Download.Start.{
  GetEnv, Begun, fresh_send, encoding_for, to_send, ready, encoder_of, with_encoder, opened,
  if_safe, on_path, start_get,
}

abbrev new_wire : Wire
new_wire = record { out = []; fin = false; bytes_sent = 0; downloads_completed = 0 }

-- The range of a file of `len` bytes that the header announces: from the offset of the request on,
-- within the file, as long as was asked for or up to the end of the file.
abbrev pub IsRangeOf : (req : GetFields) (len : ℕ) → FileReadyFields → Type 0
IsRangeOf req len header =
    (header.total_size ≡ len)
    × (req.offset + header.size ≤ len)
    × ((n : ℕ)
        → req.len ≡ some n
        → (header.size ≤ n) × ((header.size ≡ n) ⊎ (req.offset + header.size ≡ len)))
    × (req.len ≡ none → req.offset + header.size ≡ len)
    × (len ≤ max_file_size)

module _ (hash : Bytes → Bytes) (src : Source) (env : GetEnv) (req : GetFields) where
  -- What is owed to a download that begins: the opened file is a regular one, its header announces the
  -- range of it that was asked for, and the stream is at the start of the range.
  abbrev pub IsOfFile : (len : ℕ) → Begun → Type 0
  IsOfFile len (header, encoding, d) =
      IsRangeOf req len header × IsAtBody hash src req.offset header.size (d, new_wire)

  abbrev pub IsAnnounced : (cwd home : FilePath) → Result Response Begun → Type 0
  IsAnnounced cwd home (err resp) = Unit {0}
  IsAnnounced cwd home (ok begun) =
      (path : FilePath) × (meta : Metadata) × (resolve env.resolving env.follows cwd home req.path
        ≡ ok path)
      × (env.open_get_file path ≡ ok meta)
      × (is_file meta.kind ≡ true)
      × IsOfFile meta.len begun

  fresh-IsAtBody :
      (size : ℕ) → IsAtBody hash src req.offset size (fresh_send req.offset size, new_wire)
  fresh-IsAtBody size = record {
    unfinished = refl;
    no_trailer = refl;
    total = refl;
    place = omega arith;
    hashing = refl;
    within = omega arith;
    prefix_first = inr refl;
    gone = refl;
  }

  module _ (cwd home : FilePath) where
    with_encoder-IsAnnounced :
        (begun : Begun) (e : Option Bytes)
        → IsAnnounced cwd home (ok begun)
        → IsAnnounced cwd home (with_encoder env begun e)
    with_encoder-IsAnnounced begun none h = h
    with_encoder-IsAnnounced begun (some e) h = tt

    opened-IsAnnounced :
        (path : FilePath) (r : Result IoError Metadata)
        → resolve env.resolving env.follows cwd home req.path ≡ ok path
        → env.open_get_file path ≡ r
        → IsAnnounced cwd home (opened env req path r)
    opened-IsAnnounced path (err e) at file_at = tt
    opened-IsAnnounced path (ok meta) at file_at =
        let size = to_send env (meta.len - req.offset) req.len in
        let encoding = encoding_for env path req.accept_encoding size in
        elim (Bool-cases (is_file meta.kind)) [
          | inr special ↦ rw special tt
          | inl file ↦ elim (Bool-cases (ltb max_file_size meta.len)) [
            | inl large ↦ rw (file, large) tt
            | inr fits ↦ elim (Bool-cases (ltb meta.len req.offset)) [
              | inl past ↦ rw (file, fits, past) tt
              | inr inside ↦
                  rw (file, fits, inside)
                    (with_encoder-IsAnnounced (ready env req.offset meta.len size encoding)
                      (encoder_of env encoding)
                      (
                        path,
                        meta,
                        at,
                        file_at,
                        file,
                        (
                          (
                            refl,
                            ground (arith, inside),
                            (λ n h. ground (arith, h, inside)),
                            (λ h. ground (arith, h, inside)),
                            ground (arith, fits),
                          ),
                          fresh-IsAtBody size,
                        ),
                      ))
            ]
          ]
        ]

    if_safe-IsAnnounced :
        (path : FilePath) (r : Result ErrorResponse (Unit {0}))
        → resolve env.resolving env.follows cwd home req.path ≡ ok path
        → IsAnnounced cwd home (if_safe env req path r)
    if_safe-IsAnnounced path (err e) at = tt
    if_safe-IsAnnounced path (ok u) at = opened-IsAnnounced path (env.open_get_file path) at refl

    on_path-IsAnnounced :
        (r : Result ErrorResponse FilePath)
        → resolve env.resolving env.follows cwd home req.path ≡ r
        → IsAnnounced cwd home (on_path env req home r)
    on_path-IsAnnounced (err e) at = tt
    on_path-IsAnnounced (ok path) at = if_safe-IsAnnounced path _ at

  -- A download that begins is of the regular file that was opened at the resolved path, which is
  -- within the cap: the header announces the length of the file, and a range of it from the offset of
  -- the request on, which lies within the file and is as long as was asked for or reaches its end, and
  -- always does where no length was asked for; and the stream is at the start of that range, as the
  -- driver wants it, whatever the file holds.
  pub start_get-IsAnnounced :
      (cwd home : FilePath) → IsAnnounced cwd home (start_get env cwd home req)
  unfolding start_get
  start_get-IsAnnounced cwd home = elim (Bool-cases (is_upload_temp req.path)) [
    | inl partial ↦ rw partial tt
    | inr plain ↦
        rw plain
          (on_path-IsAnnounced cwd home (resolve env.resolving env.follows cwd home req.path) refl)
  ]
