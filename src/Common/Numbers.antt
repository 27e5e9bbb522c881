-- ===== src/Common/Numbers.antt =====
-- Rounded quotients and percentages of natural numbers.
use Prim.Native.Nat.{ℕ, zero, suc, ◌+◌, ◌*◌, ◌/◌, ◌≤◌, ◌<◌}
use native.Mathlib.Nat.{div-lt_iff_lt-mul}
use native.Mathlib.Omega.{arith}
use apifor_dev.Common.Tests.{nat_eq, if◌then◌else◌}

-- `Math.round(a / b)`: a half is rounded up.
abbrev pub round_div : ℕ → ℕ → ℕ
round_div a b = (2 * a + b) / (2 * b)

-- `whole ? Math.round((100 * part) / whole) : 0`
abbrev pub percent : ℕ → ℕ → ℕ
percent part whole = if nat_eq whole 0 then 0 else round_div (100 * part) whole

pub round_div-le : (p w : ℕ) → p ≤ w → 0 < w → round_div (100 * p) w ≤ 100
round_div-le p w h z =
    let m : 2 * (100 * p) + w < 101 * (2 * w) = omega arith in
    let k : round_div (100 * p) w < 101 =
      (div-lt_iff_lt-mul {k = 2 * w} {x = 2 * (100 * p) + w} {y = 101} (omega arith)).1 m in
    omega (arith, k)

-- A part is at most 100 percent of its whole.
pub percent-le : (p w : ℕ) → p ≤ w → percent p w ≤ 100
percent-le p zero h = ground arith
percent-le p (suc w) h = ground (arith, round_div-le p (suc w) h (omega arith))
