-- ===== src/Server/Retry/SameBytes.antt =====
-- `constant_time_eq` of crates/qftp-common/src/util.rs against equality.
use Prim.Native.Nat.{bit_or, bit_xor, bit_or-bitwise, bit_xor-bitwise, digits, differ, max}
use qftp.Prelude.{
  ℕ, zero, suc, ◌/◌, ◌%◌, ◌≤◌, Bytes, true, [], ◌∷◌, length, nat_eq, ◌≡◌, ◌↔◌, refl, sym, ap, ◌∙◌,
  arith,
}
use qftp.Server.Retry.{diff_from, constant_time_eq}

differ_self : (x : ℕ) → differ x x ≡ 0
differ_self zero = refl
differ_self (suc x) = differ_self x

differ-eq_zero : (x y : ℕ) → differ x y ≡ 0 → x ≡ y
differ-eq_zero zero y h = omega arith
differ-eq_zero (suc x) zero h = omega arith
differ-eq_zero (suc x) (suc y) h = ap (λ n. suc n) (differ-eq_zero x y h)

xor_digits_self : (n a : ℕ) → a ≤ n → digits (λ b. b) differ n a a ≡ 0
xor_digits_self zero zero h = refl
xor_digits_self zero (suc a) h = omega arith
xor_digits_self (suc n) zero h = refl
xor_digits_self (suc n) (suc a) h =
    omega (arith, xor_digits_self n (suc a / 2) (omega arith), differ_self (suc a % 2))

xor_digits-eq_zero : (n a b : ℕ) → a ≤ n → digits (λ b. b) differ n a b ≡ 0 → a ≡ b
xor_digits-eq_zero zero zero b h e = omega arith
xor_digits-eq_zero zero (suc a) b h e = omega arith
xor_digits-eq_zero (suc n) zero b h e = omega arith
xor_digits-eq_zero (suc n) (suc a) b h e = omega (
  arith,
  xor_digits-eq_zero n (suc a / 2) (b / 2) (omega arith) (omega arith),
  differ-eq_zero (suc a % 2) (b % 2) (omega arith),
)

or_digits-eq_zero : (n a b : ℕ) → a ≤ n → digits (λ b. b) max n a b ≡ 0 → (a ≡ 0) × (b ≡ 0)
or_digits-eq_zero zero zero b h e = (refl, e)
or_digits-eq_zero zero (suc a) b h e = absurd (omega arith)
or_digits-eq_zero (suc n) zero b h e = (refl, e)
or_digits-eq_zero (suc n) (suc a) b h e =
    let r = or_digits-eq_zero n (suc a / 2) (b / 2) (omega arith) (omega arith) in
    (omega (arith, r), omega (arith, r))

xor_bitwise : (a b : ℕ) → bit_xor a b ≡ digits (λ b. b) differ a a b
xor_bitwise a b = λ i. bit_xor-bitwise a b i

or_bitwise : (a b : ℕ) → bit_or a b ≡ digits (λ b. b) max a a b
or_bitwise a b = λ i. bit_or-bitwise a b i

xor_self : (a : ℕ) → bit_xor a a ≡ 0
xor_self a = xor_bitwise a a ∙ xor_digits_self a a (omega arith)

or-xor-eq_zero : (d a b : ℕ) → bit_or d (bit_xor a b) ≡ 0 → (d ≡ 0) × (a ≡ b)
or-xor-eq_zero d a b e =
    let r =
      or_digits-eq_zero d d (bit_xor a b) (omega arith) (sym (or_bitwise d (bit_xor a b)) ∙ e) in
    (r.0, xor_digits-eq_zero a a b (omega arith) (sym (xor_bitwise a b) ∙ r.1))

diff_from_self : (a : Bytes) → diff_from 0 a a ≡ 0
unfolding diff_from
diff_from_self [] = refl
diff_from_self (x ∷ a) =
    ap (λ d. diff_from (bit_or 0 d) a a) (xor_self x)
    ∙ (ap (λ d. diff_from d a a) (or_bitwise 0 0) ∙ diff_from_self a)

diff_from-eq_zero :
    (d : ℕ) (a b : Bytes) → length a ≡ length b → diff_from d a b ≡ 0 → (d ≡ 0) × (a ≡ b)
unfolding diff_from
diff_from-eq_zero d [] [] h e = (e, refl)
diff_from-eq_zero d [] (y ∷ b) h e = absurd (omega arith)
diff_from-eq_zero d (x ∷ a) [] h e = absurd (omega arith)
diff_from-eq_zero d (x ∷ a) (y ∷ b) h e =
    let r = diff_from-eq_zero (bit_or d (bit_xor x y)) a b (omega arith) e in
    let s = or-xor-eq_zero d x y r.0 in let t = r.1 in let u = s.1 in (s.0, cc)

-- The comparison that looks at every byte accepts exactly the equal slices.
pub constant_time_eq_iff : (a b : Bytes) → (constant_time_eq a b ≡ true) ↔ (a ≡ b)
unfolding constant_time_eq
constant_time_eq_iff a b =
    (λ h. grind (arith, diff_from-eq_zero 0 a b), λ h. grind (arith, diff_from_self a, h))
