-- ===== src/Prelude/Bits.antt =====
-- When `^` and `|` of two numbers are 0.
use Prim.Native.Nat.{
  ℕ, zero, suc, ◌/◌, ◌%◌, ◌≤◌, max, digits, bit_or, bit_xor, bit_or-bitwise, bit_xor-bitwise,
  differ,
}
use mathlib.Core.Path.{◌≡◌, refl, sym, ◌∙◌}
use mathlib.Core.Logic.{◌↔◌}
use native.Mathlib.Omega.{arith}

abbrev xor_digits : ℕ → ℕ → ℕ → ℕ
xor_digits n a b = digits (λ b. b) differ n a b

abbrev or_digits : ℕ → ℕ → ℕ → ℕ
or_digits n a b = digits (λ b. b) max n a b

eq_of_differ : (a b : ℕ) → differ (a % 2) (b % 2) ≡ 0 → a % 2 ≡ b % 2
eq_of_differ a b h = ground arith

differ_self : (n : ℕ) → differ n n ≡ 0
differ_self zero = refl
differ_self (suc n) = differ_self n

eq_of_xor_digits : (n a b : ℕ) → a ≤ n → xor_digits n a b ≡ 0 → a ≡ b
eq_of_xor_digits zero zero b h e = sym e
eq_of_xor_digits zero (suc a) b h e = absurd (omega arith)
eq_of_xor_digits (suc n) zero b h e = sym e
eq_of_xor_digits (suc n) (suc a) b h e = omega (
  arith,
  eq_of_xor_digits n (suc a / 2) (b / 2) (omega arith) (omega arith),
  eq_of_differ (suc a) b (omega arith),
)

xor_digits_self : (n a : ℕ) → a ≤ n → xor_digits n a a ≡ 0
xor_digits_self zero zero h = refl
xor_digits_self zero (suc a) h = absurd (omega arith)
xor_digits_self (suc n) zero h = refl
xor_digits_self (suc n) (suc a) h =
    omega (arith, xor_digits_self n (suc a / 2) (omega arith), differ_self (suc a % 2))

pub bit_xor-eq-zero_iff : (a b : ℕ) → (bit_xor a b ≡ 0) ↔ (a ≡ b)
bit_xor-eq-zero_iff a b = (
  λ h. eq_of_xor_digits a a b (omega arith) (sym (bit_xor-bitwise a b) ∙ h),
  λ e. rw (← e) (bit_xor-bitwise a a ∙ xor_digits_self a a (omega arith)),
)

zero_of_or_digits : (n a b : ℕ) → a ≤ n → or_digits n a b ≡ 0 → (a ≡ 0) × (b ≡ 0)
zero_of_or_digits zero zero b h e = (refl, e)
zero_of_or_digits zero (suc a) b h e = absurd (omega arith)
zero_of_or_digits (suc n) zero b h e = (refl, e)
zero_of_or_digits (suc n) (suc a) b h e =
    omega (arith, zero_of_or_digits n (suc a / 2) (b / 2) (omega arith) (omega arith))

pub bit_or-eq-zero_iff : (a b : ℕ) → (bit_or a b ≡ 0) ↔ ((a ≡ 0) × (b ≡ 0))
bit_or-eq-zero_iff a b =
    (λ h. zero_of_or_digits a a b (omega arith) (sym (bit_or-bitwise a b) ∙ h), λ e. rw (e.0, e.1))
