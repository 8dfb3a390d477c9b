-- ===== src/Upload/Trailer/Filling.antt =====
-- What the trailer buffer of crates/qftp-protocol/src/stream.rs holds after any number of pieces.
use mathlib.Core.List.{append_assoc, append-nil}
use qftp.Prelude.{
  ◌+◌, ◌-◌, min, Bytes, true, List, [], ◌∷◌, ◌++◌, length, take, drop, length-append, length-take,
  length-drop, take-length_append, take-all, take-append, take-min, leb, Option, some,
  if◌then◌else◌, nat_eq, ◌≡◌, refl, sym, ap, ◌∙◌, arith,
}
use qftp.Upload.Trailer.{TrailerBuf, new_trailer, remaining, is_full, extend, resolve_put_checksum}

-- The buffer holds the first 32 bytes of `arrived` and is an array of 32.
pub record Holds (b : TrailerBuf) (arrived : Bytes) : Type 0 where
  pub filled : b.filled ≡ min 32 (length arrived)
  pub size : length b.bytes ≡ 32
  pub front : take b.filled b.bytes ≡ take 32 arrived

-- `extend` with each piece in turn
unfoldable pub extend_all : List Bytes → TrailerBuf → TrailerBuf
extend_all [] b = b
extend_all (src ∷ more) b = extend_all more (extend src b).1

abbrev pub concat : List Bytes → Bytes
concat [] = []
concat (c ∷ cs) = c ++ concat cs

new_trailer-Holds : Holds new_trailer []
new_trailer-Holds = record { filled = refl; size = refl; front = refl }

module _ (b : TrailerBuf) (arrived src : Bytes) (h : Holds b arrived) where
  room_left : take (min (32 - b.filled) (length src)) src ≡ take (32 - length arrived) src
  room_left = take-min (32 - b.filled) src ∙ ap (λ n. take n src) (omega (arith, h.filled))

  filled-length :
      length (take b.filled b.bytes ++ take (min (32 - b.filled) (length src)) src)
      ≡ b.filled + min (32 - b.filled) (length src)
  filled-length = omega (
    arith,
    h.filled,
    h.size,
    length-append (take b.filled b.bytes) (take (min (32 - b.filled) (length src)) src),
    length-take b.filled b.bytes,
    length-take (min (32 - b.filled) (length src)) src,
  )

  extend-Holds : Holds (extend src b).1 (arrived ++ src)
  unfolding extend remaining
  extend-Holds =
      let want = min (32 - b.filled) (length src) in
      let tail = drop (b.filled + want) b.bytes in
      record {
        filled = omega (arith, h.filled, length-append arrived src);
        size = omega (
          arith,
          h.filled,
          h.size,
          filled-length,
          length-append (take b.filled b.bytes ++ take want src) tail,
          length-drop (b.filled + want) b.bytes,
        );
        front =
            take-length_append (b.filled + want) (take b.filled b.bytes ++ take want src) tail
              filled-length
            ∙ ap (λ front. front ++ take want src) h.front
            ∙ ap (λ back. take 32 arrived ++ back) room_left
            ∙ sym (take-append 32 arrived src);
      }

extend_all-Holds :
    (pieces : List Bytes) (b : TrailerBuf) (arrived : Bytes)
    → Holds b arrived
    → Holds (extend_all pieces b) (arrived ++ concat pieces)
unfolding extend_all
extend_all-Holds [] b arrived h = rw (append-nil arrived) h
extend_all-Holds (src ∷ more) b arrived h =
    rw (← (append_assoc arrived src (concat more)))
      (extend_all-Holds more (extend src b).1 (arrived ++ src) (extend-Holds b arrived src h))

-- However the trailer is cut into pieces, an upload is verified against the first 32 bytes of it once
-- they are there, and against the checksum of the request as long as they are not.
pub resolve_put_checksum-extend_all :
    (pieces : List Bytes) (header_checksum : Option Bytes)
    → resolve_put_checksum true (extend_all pieces new_trailer) header_checksum ≡ (
        if leb 32 (length (concat pieces)) then some (take 32 (concat pieces)) else header_checksum)
unfolding resolve_put_checksum is_full
resolve_put_checksum-extend_all pieces header_checksum =
    let h = extend_all-Holds pieces new_trailer [] new_trailer-Holds in
    let full = take-all 32 (extend_all pieces new_trailer).bytes (omega (arith, h.size)) in
    ground (arith, h.filled, h.front, full)
