-- ===== src/Common/Bits.antt =====
-- When `bit_or` and `bit_xor` of two numbers are 0.
use Prim.Native.Nat.{
  ℕ, zero, suc, ◌/◌, ◌%◌, ◌≤◌, max, bit_or, bit_xor, digits, differ, bit_or-bitwise,
  bit_xor-bitwise,
}
use mathlib.Core.Path.{◌≡◌, refl, sym, ◌∙◌}
use mathlib.Core.Logic.{◌↔◌}
use native.Mathlib.Omega.{arith}

differ-zero : (a b : ℕ) → differ a b ≡ 0 → a ≡ b
differ-zero zero b h = sym h
differ-zero (suc a) zero h = h
differ-zero (suc a) (suc b) h = omega (arith, differ-zero a b h)

differ_self : (a : ℕ) → differ a a ≡ 0
differ_self zero = refl
differ_self (suc a) = differ_self a

xor_digits-zero : (n a b : ℕ) → a ≤ n → digits (λ b. b) differ n a b ≡ 0 → a ≡ b
xor_digits-zero zero zero b l h = sym h
xor_digits-zero zero (suc a) b l h = absurd (omega (arith, l))
xor_digits-zero (suc n) zero b l h = sym h
xor_digits-zero (suc n) (suc a) b l h =
    let rest = digits (λ b. b) differ n (suc a / 2) (b / 2) in
    let low : differ (suc a % 2) (b % 2) ≡ 0 = omega (arith, h) in
    let high : rest ≡ 0 = omega (arith, h) in
    omega (
      arith,
      differ-zero (suc a % 2) (b % 2) low,
      xor_digits-zero n (suc a / 2) (b / 2) (omega (arith, l)) high,
    )

xor_digits_self : (n a : ℕ) → a ≤ n → digits (λ b. b) differ n a a ≡ 0
xor_digits_self zero zero l = refl
xor_digits_self zero (suc a) l = absurd (omega (arith, l))
xor_digits_self (suc n) zero l = refl
xor_digits_self (suc n) (suc a) l =
    omega (arith, differ_self (suc a % 2), xor_digits_self n (suc a / 2) (omega (arith, l)))

pub bit_xor-zero_iff : (a b : ℕ) → (bit_xor a b ≡ 0) ↔ (a ≡ b)
bit_xor-zero_iff a b = (
  λ h. xor_digits-zero a a b (omega arith) (sym (bit_xor-bitwise a b) ∙ h),
  λ e. rw (sym e) (bit_xor-bitwise a a ∙ xor_digits_self a a (omega arith)),
)

or_digits-zero : (n a b : ℕ) → a ≤ n → digits (λ b. b) max n a b ≡ 0 → (a ≡ 0) × (b ≡ 0)
or_digits-zero zero zero b l h = (refl, h)
or_digits-zero zero (suc a) b l h = absurd (omega (arith, l))
or_digits-zero (suc n) zero b l h = (refl, h)
or_digits-zero (suc n) (suc a) b l h =
    let rest = digits (λ b. b) max n (suc a / 2) (b / 2) in
    let low : max (suc a % 2) (b % 2) ≡ 0 = omega (arith, h) in
    let high : rest ≡ 0 = omega (arith, h) in
    let (x, y) = or_digits-zero n (suc a / 2) (b / 2) (omega (arith, l)) high in
    (omega (arith, low, x, y), omega (arith, low, x, y))

pub bit_or-zero_iff : (a b : ℕ) → (bit_or a b ≡ 0) ↔ ((a ≡ 0) × (b ≡ 0))
bit_or-zero_iff a b = (
  λ h. or_digits-zero a a b (omega arith) (sym (bit_or-bitwise a b) ∙ h),
  λ e. rw (e.0, e.1) (bit_or-bitwise 0 0),
)
