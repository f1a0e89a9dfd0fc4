-- ===== src/Common/Bits.antt =====
-- Laws of the bit operations at variables, and tables that are computed.
use Prim.Native.Nat.{
  ℕ, zero, suc, ◌+◌, ◌/◌, ◌%◌, ◌^◌, ◌≤◌, ◌<◌, min, max, bit_and, bit_or, bit_xor, digits, differ,
  bit_and-bitwise, bit_or-bitwise, bit_xor-bitwise,
}
use mathlib.Core.Bool.{Bool, true, false}
use stacky.Common.Tests.{◌==◌, if◌then◌else◌}
use mathlib.Core.Path.{◌≡◌, refl, ◌∙◌}
use native.Mathlib.Nat.{pow-zero, pow-suc}
use native.Mathlib.Omega.{arith}

differ_self : (x : ℕ) → differ x x ≡ 0
differ_self zero = refl
differ_self (suc x) = differ_self x

xor_digits : (n a : ℕ) → a ≤ n → digits (λ b. b) differ n a a ≡ 0
xor_digits zero zero h = refl
xor_digits zero (suc a) h = absurd (omega arith)
xor_digits (suc n) zero h = refl
xor_digits (suc n) (suc a) h =
    omega (arith, xor_digits n (suc a / 2) (omega arith), differ_self (suc a % 2))

pub bit_xor_self : (a : ℕ) → bit_xor a a ≡ 0
bit_xor_self a = bit_xor-bitwise a a ∙ xor_digits a a (omega arith)

and_digits : (n a : ℕ) → a ≤ n → digits (λ b. zero) min n a a ≡ a
and_digits zero zero h = refl
and_digits zero (suc a) h = absurd (omega arith)
and_digits (suc n) zero h = refl
and_digits (suc n) (suc a) h = omega (arith, and_digits n (suc a / 2) (omega arith))

pub bit_and_self : (a : ℕ) → bit_and a a ≡ a
bit_and_self a = bit_and-bitwise a a ∙ and_digits a a (omega arith)

-- Digit by digit, two numbers below 2^k give a number below 2^k.
digits-lt :
    (z : ℕ → ℕ) (f : ℕ → ℕ → ℕ)
    → ((b : ℕ) → z b ≤ b)
    → ((x y : ℕ) → x < 2 → y < 2 → f x y < 2)
    → (k n a b : ℕ) → a < 2 ^ k
    → b < 2 ^ k
    → digits z f n a b < 2 ^ k
digits-lt z f hz hf k zero a b ha hb = omega (arith, hz b)
digits-lt z f hz hf k (suc n) zero b ha hb = omega (arith, hz b)
digits-lt z f hz hf zero (suc n) (suc a) b ha hb = absurd (omega (arith, pow-zero 2))
digits-lt z f hz hf (suc k) (suc n) (suc a) b ha hb = omega (
  arith,
  pow-suc 2 k,
  hf (suc a % 2) (b % 2) (omega arith) (omega arith),
  digits-lt z f hz hf k n (suc a / 2) (b / 2) (omega (arith, pow-suc 2 k))
      (omega (arith, pow-suc 2 k)),
)

differ-lt : (x y : ℕ) → x < 2 → y < 2 → differ x y < 2
differ-lt zero y hx hy = hy
differ-lt (suc x) zero hx hy = hx
differ-lt (suc x) (suc y) hx hy = differ-lt x y (omega arith) (omega arith)

module _ (k a b : ℕ) (ha : a < 2 ^ k) (hb : b < 2 ^ k) where
  pub bit_and-lt : bit_and a b < 2 ^ k
  bit_and-lt =
      rw bit_and-bitwise
        (digits-lt (λ b. zero) min (λ b. omega arith) (λ x y p q. omega arith) k a a b ha hb)

  pub bit_or-lt : bit_or a b < 2 ^ k
  bit_or-lt =
      rw bit_or-bitwise
        (digits-lt (λ b. b) max (λ b. omega arith) (λ x y p q. omega arith) k a a b ha hb)

  pub bit_xor-lt : bit_xor a b < 2 ^ k
  bit_xor-lt =
      rw bit_xor-bitwise (digits-lt (λ b. b) differ (λ b. omega arith) differ-lt k a a b ha hb)

-- `f x` is `y + x % m` for the x below a bound: a table that is computed.
unfoldable pub agrees_from : (ℕ → ℕ) → ℕ → ℕ → ℕ → Bool
agrees_from f y m zero = true
agrees_from f y m (suc k) = if f k == y + k % m then agrees_from f y m k else false

pub table_entry : (f : ℕ → ℕ) (y m k x : ℕ) → x < k → agrees_from f y m k ≡ true → f x ≡ y + x % m
unfolding agrees_from
table_entry f y m zero x lt h = absurd (omega arith)
table_entry f y m (suc k) x lt h = ground (arith, table_entry f y m k x)
