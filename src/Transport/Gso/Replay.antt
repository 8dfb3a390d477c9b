-- ===== src/Transport/Gso/Replay.antt =====
-- The ranges of `gso_replay_ranges` in crates/qftp-common/src/transport.rs.
use qftp.Prelude.{
  ℕ, zero, suc, ◌+◌, ◌-◌, ◌≤◌, ◌<◌, min, ◌≡◌, refl, arith, List, [], ◌∷◌, leb, Bool-cases, inl, inr,
}
use qftp.Transport.Gso.{replay_from, gso_replay_ranges}

-- The ranges lie end to end from `off` to `total`; each has `seg_size` bytes, but the last may be
-- shorter, and none is empty.
abbrev pub Tiles : ℕ → ℕ → ℕ → List (ℕ × ℕ) → Type 0
Tiles seg_size off total [] = off ≡ total
Tiles seg_size off total ((start, n) ∷ []) =
    (start ≡ off) × (0 < n) × (n ≤ seg_size) × (off + n ≡ total)
Tiles seg_size off total ((start, n) ∷ r ∷ rs) =
    (start ≡ off) × (n ≡ seg_size) × Tiles seg_size (off + n) total (r ∷ rs)

Tiles-lt :
    (seg_size off total : ℕ) (r : ℕ × ℕ) (rs : List (ℕ × ℕ))
    → 0 < seg_size
    → Tiles seg_size off total (r ∷ rs)
    → off < total
Tiles-lt seg_size off total (start, n) [] hs t = omega arith
Tiles-lt seg_size off total (start, n) (r ∷ rs) hs (_, full, t) =
    omega (arith, Tiles-lt seg_size (off + n) total r rs hs t)

Tiles-cons :
    (seg_size off total : ℕ) (rs : List (ℕ × ℕ))
    → 0 < seg_size
    → off < total
    → Tiles seg_size (off + min seg_size (total - off)) total rs
    → Tiles seg_size off total ((off, min seg_size (total - off)) ∷ rs)
Tiles-cons seg_size off total [] hs h t = omega arith
Tiles-cons seg_size off total (r ∷ rs) hs h t =
    (refl, omega (arith, Tiles-lt seg_size (off + min seg_size (total - off)) total r rs hs t), t)

replay_from-Tiles :
    (rounds off total seg_size : ℕ)
    → 0 < seg_size
    → off ≤ total
    → total ≤ off + rounds
    → Tiles seg_size off total (replay_from rounds off total seg_size)
unfolding replay_from
replay_from-Tiles zero off total seg_size hs hl hr = omega arith
replay_from-Tiles (suc rounds) off total seg_size hs hl hr = elim (Bool-cases (leb total off)) [
  | inl over ↦ rw over (ground arith)
  | inr more ↦ rw more (
      Tiles-cons seg_size off total _ hs (ground arith) (
        replay_from-Tiles rounds (off + min seg_size (total - off)) total seg_size hs (ground arith)
          (ground arith)))
]

-- For a positive segment size the ranges of a batch cover its bytes without gap or overlap, in
-- order, all of them `seg_size` long but the last, which may be shorter and is not empty.
pub gso_replay_ranges-Tiles :
    (total seg_size : ℕ) → 0 < seg_size → Tiles seg_size 0 total (gso_replay_ranges total seg_size)
unfolding gso_replay_ranges
gso_replay_ranges-Tiles total seg_size hs =
    replay_from-Tiles total 0 total seg_size hs (omega arith) (omega arith)
