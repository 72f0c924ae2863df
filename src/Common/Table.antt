-- ===== src/Common/Table.antt =====
-- A check of every value below a bound, by evaluation.
use Prim.Native.Nat.{ℕ, zero, suc, ◌<◌}
use mathlib.Core.Path.{◌≡◌}
use mathlib.Core.Bool.{Bool, true, ◌&&◌}
use native.Mathlib.Omega.{arith}

-- `every_below p bound` evaluates the test `p` at all numbers below `bound`.
unfoldable pub every_below : (ℕ → Bool) → ℕ → Bool
every_below p zero = true
every_below p (suc last) = every_below p last && p last

-- A test that passes at every number below a bound passes at the one given.
pub every_below-at :
    (p : ℕ → Bool) {i : ℕ} (bound : ℕ) → i < bound → every_below p bound ≡ true → p i ≡ true
unfolding every_below
every_below-at p {i} zero below passed = absurd (omega arith)
every_below-at p {i} (suc last) below passed =
    let earlier = every_below-at p {i = i} last in ground (arith, earlier)
