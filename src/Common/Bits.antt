-- ===== src/Common/Bits.antt =====
-- What the code relies on of `&` and `|`: masking never makes a number larger, and a flag that is
-- or-ed into one bit is set.
use Prim.Native.Nat.{ℕ, zero, suc, ◌/◌, ◌≤◌, min, bit_and, bit_or, digits, bit_and-bitwise}
use mathlib.Core.Path.{◌≡◌, refl}
use native.Mathlib.Omega.{arith}

masked-le : (fuel a b : ℕ) → digits (λ b. zero) min fuel a b ≤ a
masked-le zero zero b = omega arith
masked-le zero (suc a) b = omega arith
masked-le (suc fuel) zero b = omega arith
masked-le (suc fuel) (suc a) b = omega (arith, masked-le fuel (suc a / 2) (b / 2))

-- `a & b` is at most `a`.
pub bit_and-le : (a b : ℕ) → bit_and a b ≤ a
bit_and-le a b = omega (arith, bit_and-bitwise a b, masked-le a a b)

-- `a | 1` for a single bit `a`
pub bit_or-one : (a : ℕ) → a ≤ 1 → bit_or a 1 ≡ 1
bit_or-one zero h = refl
bit_or-one (suc zero) h = refl
bit_or-one (suc (suc a)) h = absurd (omega arith)
