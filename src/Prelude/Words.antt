-- ===== src/Prelude/Words.antt =====
-- Big-endian machine words: `to_be_bytes` and `from_be_bytes` of a word of `k` bytes.
use Prim.Native.Nat.{ℕ, zero, suc, ◌+◌, ◌*◌, ◌/◌, ◌%◌, ◌^◌, ◌<◌}
use mathlib.Core.Path.{◌≡◌, refl, sym, ap, ◌∙◌, subst}
use mathlib.Core.List.{[], ◌∷◌, ◌++◌}
use native.Mathlib.Omega.{arith}
use qftp.Prelude.Lists.{length, length-append, All, All-append}
use qftp.Prelude.Texts.{Bytes, IsByte}

unfoldable pub to_be_bytes : ℕ → ℕ → Bytes
to_be_bytes zero n = []
to_be_bytes (suc k) n = to_be_bytes k (n / 256) ++ (n % 256 ∷ [])

unfoldable pub from_be_acc : ℕ → Bytes → ℕ
from_be_acc acc [] = acc
from_be_acc acc (b ∷ bs) = from_be_acc (acc * 256 + b) bs

unfoldable pub from_be_bytes : Bytes → ℕ
unfolding from_be_acc
from_be_bytes bs = from_be_acc 0 bs

from_be_acc-snoc :
    (acc : ℕ) (bs : Bytes) (b : ℕ) → from_be_acc acc (bs ++ b ∷ []) ≡ from_be_acc acc bs * 256 + b
unfolding from_be_acc
from_be_acc-snoc acc [] b = refl
from_be_acc-snoc acc (c ∷ bs) b = from_be_acc-snoc (acc * 256 + c) bs b

pub length-to_be_bytes : (k n : ℕ) → length (to_be_bytes k n) ≡ k
unfolding to_be_bytes
length-to_be_bytes zero n = refl
length-to_be_bytes (suc k) n =
    omega (
      arith,
      length-append (to_be_bytes k (n / 256)) (n % 256 ∷ []),
      length-to_be_bytes k (n / 256),
    )

pub to_be_bytes-IsByte : (k n : ℕ) → All IsByte (to_be_bytes k n)
unfolding to_be_bytes
to_be_bytes-IsByte zero n = tt
to_be_bytes-IsByte (suc k) n =
    All-append IsByte (to_be_bytes k (n / 256)) (n % 256 ∷ []) (to_be_bytes-IsByte k (n / 256))
      (omega arith)

pub from_be_bytes-to_be_bytes : (k n : ℕ) → n < 256 ^ k → from_be_bytes (to_be_bytes k n) ≡ n
unfolding from_be_bytes to_be_bytes
from_be_bytes-to_be_bytes zero n h = omega arith
from_be_bytes-to_be_bytes (suc k) n h = omega (
  arith,
  from_be_acc-snoc 0 (to_be_bytes k (n / 256)) (n % 256),
  from_be_bytes-to_be_bytes k (n / 256) (omega arith),
)

-- A list of `suc k` has a last element.
snoc_view :
    (k : ℕ) (bs : Bytes)
    → length bs ≡ suc k
    → (front : Bytes) × (b : ℕ) × (bs ≡ front ++ b ∷ []) × (length front ≡ k)
snoc_view k [] h = absurd (omega arith)
snoc_view zero (b ∷ []) h = ([], b, refl, refl)
snoc_view zero (b ∷ c ∷ bs) h = absurd (omega arith)
snoc_view (suc k) (b ∷ bs) h =
    let v = snoc_view k bs (omega arith) in (b ∷ v.0, v.1, ap (λ t. b ∷ t) v.2, omega (arith, v.3))

All-front : (front : Bytes) (b : ℕ) → All IsByte (front ++ b ∷ []) → All IsByte front × IsByte b
All-front [] b h = (tt, h.0)
All-front (c ∷ front) b h = let r = All-front front b h.1 in ((h.0, r.0), r.1)

pub to_be_bytes-from_be_bytes :
    (k : ℕ) (bs : Bytes) → length bs ≡ k → All IsByte bs → to_be_bytes k (from_be_bytes bs) ≡ bs
unfolding to_be_bytes from_be_bytes
to_be_bytes-from_be_bytes zero [] h v = refl
to_be_bytes-from_be_bytes zero (b ∷ bs) h v = absurd (omega arith)
to_be_bytes-from_be_bytes (suc k) bs h v =
    let w = snoc_view k bs h in
    let front = w.0 in
    let b = w.1 in
    let bytes_in = All-front front b (subst (All IsByte) w.2 v) in
    let n : from_be_bytes bs ≡ from_be_bytes front * 256 + b =
      ap from_be_bytes w.2 ∙ from_be_acc-snoc 0 front b in
    let high : from_be_bytes bs / 256 ≡ from_be_bytes front = omega (arith, n, bytes_in.1) in
    let low : from_be_bytes bs % 256 ≡ b = omega (arith, n, bytes_in.1) in
    ap (λ m. to_be_bytes k m ++ from_be_bytes bs % 256 ∷ []) high
    ∙ (ap (λ m. to_be_bytes k (from_be_bytes front) ++ m ∷ []) low
        ∙ (ap (λ t. t ++ b ∷ []) (to_be_bytes-from_be_bytes k front w.3 bytes_in.0) ∙ sym w.2))
