-- ===== src/Prelude/Numbers.antt =====
-- Quotients of native numbers.
use native.Mathlib.Nat.{div-mul-le_self, le-div_iff_mul-le}
use Prim.Native.Nat.{ℕ, ◌/◌, ◌≤◌, ◌<◌}
use native.Mathlib.Omega.{arith}

pub div-le-div : (a b i : ℕ) → 0 < i → a ≤ b → a / i ≤ b / i
div-le-div a b i h le = (le-div_iff_mul-le h).1 (omega (arith, div-mul-le_self a i, le))
