-- ===== src/Prelude/Products.antt =====
-- Inequalities between products, which linear arithmetic does not find.
use Prim.Native.Nat.{ℕ, zero, suc, ◌+◌, ◌*◌, ◌≤◌, ◌<◌}
use native.Mathlib.Omega.{arith}

pub mul_mono : (a b c : ℕ) → a ≤ b → a * c ≤ b * c
mul_mono a b zero h = omega arith
mul_mono a b (suc c) h = omega (arith, mul_mono a b c h)

pub mul_mono_right : (a b c : ℕ) → a ≤ b → c * a ≤ c * b
mul_mono_right a b c h = omega (arith, mul_mono a b c h)

pub mul_mono_both : (a b c d : ℕ) → a ≤ b → c ≤ d → a * c ≤ b * d
mul_mono_both a b c d h k = omega (arith, mul_mono a b c h, mul_mono_right c d b k)

-- A product with a positive factor is at least the other one.
pub le-mul : (n c : ℕ) → 0 < c → n ≤ n * c
le-mul n zero h = absurd (omega arith)
le-mul n (suc c) h = omega arith

-- A row-major index lies below the product of the extents.
pub index-lt : (i j rows cols : ℕ) → i < rows → j < cols → i * cols + j < rows * cols
index-lt i j rows cols hi hj = omega (arith, mul_mono (suc i) rows cols hi)
