-- ===== src/Base/Percent.antt =====
-- Shares of a number in percent.
use Prim.Native.Nat.{ℕ, ◌*◌, ◌/◌, ◌≤◌}
use native.Mathlib.Omega.{arith}

product-le : (t p : ℕ) → p ≤ 100 → t * p ≤ t * 100
product-le t p h = grind arith

-- A share of at most a hundred percent is no more than the whole.
pub share-le : (t p : ℕ) → p ≤ 100 → t * p / 100 ≤ t
share-le t p h = omega (arith, product-le t p h)
