-- ===== src/Upload/Driver/Rehash.antt =====
-- The re-hash of the prefix of a resumed upload in crates/qftp-server/src/transfer_put.rs.
use mathlib.Core.List.{append_assoc, append-nil}
use qftp.Prelude.{
  ℕ, ◌+◌, ◌-◌, min, Bytes, Option, none, some, [], ◌∷◌, ◌++◌, length, length-append, take, drop,
  take-append-drop, drop-length_append, ltb, ◌==◌, nat_eq, lookup, list_eq, Result, ok, err, ◌≡◌,
  inl, inr, refl, sym, ap, ◌∙◌, subst, arith, Bool-cases,
}
use qftp.Paths.{FilePath, IoError}
use qftp.Upload.Decoder.{Zstd}
use qftp.Upload.Driver.{
  PutError, partial_shrank, rehash_failed, ResumeRehash, Upload, World, Env, Exit, Put, content_at,
}
use qftp.Upload.Driver.Drive
use qftp.Upload.Driver.Sound.{IsHashing, IsOpen}
use qftp.Upload.Driver.Steps.{Good, rejecting, take_pending-Good}

eq_nil : (xs : Bytes) → length xs ≡ 0 → xs ≡ []
eq_nil [] h = refl
eq_nil (x ∷ xs) h = absurd (omega (arith, h))

module _ {Z : Type 0} (z : Zstd Z) (hash : Bytes → Bytes) (text : PutError → Bytes) (env : Env)
    (final : FilePath) (before : Option Bytes) (total : ℕ) where
  abbrev Fine : {A : Type 0} → Result Exit A × Put Z → Type 0
  Fine = Good z hash text env final before total

  module _ (rh : ResumeRehash) (u : Upload Z) (w : World)
      (h : IsHashing hash final before total rh (u, w)) (j : ℕ) where
    piece_lem : take j (drop (length u.hashed) (content_at u.temp_path w)) ≡ take j h.rest
    piece_lem = ap (take j) (
        ap (drop (length u.hashed)) (rw (h.temp, content_at))
        ∙ drop-length_append (length u.hashed) u.hashed h.rest refl)

    temp_lem : lookup u.temp_path w.files ≡ some ((u.hashed ++ take j h.rest) ++ drop j h.rest)
    temp_lem =
        h.temp
        ∙ ap some (
            sym (
              append_assoc u.hashed (take j h.rest) (drop j h.rest)
              ∙ ap (λ r. u.hashed ++ r) (take-append-drop j h.rest)))

    after_rehash-Fine : Fine (Drive.after_rehash z hash text env (take j h.rest) rh (u, w))
    after_rehash-Fine =
        let piece = take j h.rest in
        let rest = drop j h.rest in
        let sum : length piece + length rest ≡ length h.rest =
          sym (length-append piece rest) ∙ ap length (take-append-drop j h.rest) in
        let left = rh.remaining - length piece in
        elim (Bool-cases (ltb 0 left)) [
          | inl more ↦ rw more (
              inr (
                record rh { remaining = left },
                record {
                  keeps = record {
                    place = h.keeps.place;
                    apart = h.keeps.apart;
                    kept = h.keeps.kept;
                  };
                  hashing = refl;
                  rest = rest;
                  temp = temp_lem;
                  unread = omega (arith, sum, h.unread);
                  size = omega (arith, sum, h.size, length-append u.hashed piece);
                },
              ))
          | inr all ↦
              let nothing : rest ≡ [] = eq_nil rest (ground (arith, sum, h.unread, all)) in
              rw all (
                take_pending-Good z hash text env final before total rh.pending_body
                  (record u { hashed = u.hashed ++ piece; rehash = none }, w)
                  (record {
                    keeps = record {
                      place = h.keeps.place;
                      apart = h.keeps.apart;
                      kept = h.keeps.kept;
                    };
                    prefix_hashed = refl;
                    temp =
                        temp_lem
                        ∙ ap some (
                            ap (λ r. (u.hashed ++ piece) ++ r) nothing
                            ∙ append-nil (u.hashed ++ piece));
                    size = omega (
                      arith,
                      sum,
                      h.size,
                      length-append u.hashed piece,
                      ap (λ (r : Bytes). length r) nothing,
                    );
                  }))
        ]

  rehash_piece-Fine :
      (rh : ResumeRehash) (answer : Result IoError ℕ) (u : Upload Z) (w : World)
      → IsHashing hash final before total rh (u, w)
      → Fine (Drive.rehash_piece z hash text env rh answer (u, w))
  rehash_piece-Fine rh (err e) u w h =
      rejecting z hash text env final before total (Unit {0}) (rehash_failed e) (u, w) h.keeps
  rehash_piece-Fine rh (ok brought) u w h =
      let j = min brought (min rh.remaining env.buffer_len) in
      elim (Bool-cases (length (Drive.read_piece z hash text env rh brought u w) == 0)) [
        | inl empty ↦
            rw empty (
              rejecting z hash text env final before total (Unit {0}) partial_shrank (u, w) h.keeps)
        | inr some_read ↦ rw some_read (
            subst (λ p. Fine (Drive.after_rehash z hash text env p rh (u, w)))
              (sym (piece_lem rh u w h j)) (after_rehash-Fine rh u w h j))
      ]

  -- One call of the re-hash phase
  pub rehash_phase-Fine :
      (p : Put Z) → IsOpen hash final before total p → Fine (Drive.rehash_phase z hash text env p)
  unfolding Drive.rehash_phase
  rehash_phase-Fine (u, w) (inl r) =
      subst (λ x. Fine (Drive.rehash_step z hash text env x (u, w))) (sym r.prefix_hashed) r
  rehash_phase-Fine (u, w) (inr (rh, h)) =
      subst (λ x. Fine (Drive.rehash_step z hash text env x (u, w))) (sym h.hashing)
        (rehash_piece-Fine rh env.read u w h)
