-- ===== src/Prelude/Arith.antt =====
-- Facts about products of native numbers that the rounding proofs share.
use Prim.Native.Nat.{ℕ, ◌*◌, ◌≤◌, ◌<◌}
use native.Mathlib.Omega.{arith}

pub le_of_mul_le : (a b c : ℕ) → 0 < c → a * c ≤ b * c → a ≤ b
le_of_mul_le a b c h k = grind arith

pub lt_of_mul_lt : (a b c : ℕ) → a * c < b * c → a < b
lt_of_mul_lt a b c k = grind arith

pub mul_le_mul : (a b c : ℕ) → a ≤ b → a * c ≤ b * c
mul_le_mul a b c h = grind arith
