-- ===== src/Prelude/Int/Laws.antt =====
-- What the operations on `i128` return for numbers that are not negative.
use Prim.Native.Nat.{ℕ, ◌+◌, ◌*◌, ◌/◌, ◌≤◌, ◌<◌}
use mathlib.Core.Path.{◌≡◌}
use native.Mathlib.Omega.{arith}
use alula_liquidator.Prelude.Outcome.{ok, m_ou}
use alula_liquidator.Prelude.Int.{
  ℤ, pos, negsuc, pos_part, neg_part, IsNonneg, i128_max, checked_add, checked_mul, checked_div,
  plain_sub, plain_div,
}

pub checked_mul_ok :
    (a b r : ℤ)
    → IsNonneg a
    → IsNonneg b
    → m_ou (checked_mul a b) ≡ ok r
    → IsNonneg r × (pos_part r ≡ pos_part a * pos_part b) × (pos_part r ≤ i128_max)
unfolding checked_mul
checked_mul_ok (negsuc a) _ r ha hb h = absurd (omega arith)
checked_mul_ok (pos a) (negsuc b) r ha hb h = absurd (omega arith)
checked_mul_ok (pos a) (pos b) r ha hb h = ground arith

pub checked_add_ok :
    (a b r : ℤ)
    → IsNonneg a
    → IsNonneg b
    → m_ou (checked_add a b) ≡ ok r
    → IsNonneg r × (pos_part r ≡ pos_part a + pos_part b) × (pos_part r ≤ i128_max)
unfolding checked_add
checked_add_ok (negsuc a) _ r ha hb h = absurd (omega arith)
checked_add_ok (pos a) (negsuc b) r ha hb h = absurd (omega arith)
checked_add_ok (pos a) (pos b) r ha hb h = ground arith

quotient_bounds : (a b : ℕ) → 0 < b → (a / b * b ≤ a) × (a < (a / b + 1) * b)
quotient_bounds a b h = (omega arith, omega arith)

checked_div_ok :
    (a b r : ℤ)
    → IsNonneg a
    → IsNonneg b
    → m_ou (checked_div a b) ≡ ok r
    → IsNonneg r
      × (0 < pos_part b)
      × (pos_part r * pos_part b ≤ pos_part a)
      × (pos_part a < (pos_part r + 1) * pos_part b)
unfolding checked_div
checked_div_ok (negsuc a) _ r ha hb h = absurd (omega arith)
checked_div_ok (pos a) (negsuc b) r ha hb h = absurd (omega arith)
checked_div_ok (pos a) (pos b) r ha hb h = ground (arith, quotient_bounds a b)

pub plain_div_ok :
    (a b r : ℤ)
    → IsNonneg a
    → IsNonneg b
    → plain_div a b ≡ ok r
    → IsNonneg r
      × (0 < pos_part b)
      × (pos_part r * pos_part b ≤ pos_part a)
      × (pos_part a < (pos_part r + 1) * pos_part b)
unfolding plain_div
plain_div_ok (negsuc a) _ r ha hb h = absurd (omega arith)
plain_div_ok (pos a) (negsuc b) r ha hb h = absurd (omega arith)
plain_div_ok (pos a) (pos b) r ha hb h = ground (arith, quotient_bounds a b)

pub plain_div-ne-zero : (a b r : ℤ) → plain_div a b ≡ ok r → 0 < pos_part b + neg_part b
unfolding plain_div
plain_div-ne-zero a (pos b) r h = ground arith
plain_div-ne-zero a (negsuc b) r h = omega arith

checked_div-ne-zero : (a b r : ℤ) → m_ou (checked_div a b) ≡ ok r → 0 < pos_part b + neg_part b
unfolding checked_div
checked_div-ne-zero a (pos b) r h = ground arith
checked_div-ne-zero a (negsuc b) r h = omega arith

-- A plain difference, of integers of either sign.
pub plain_sub_ok :
    (a b r : ℤ)
    → plain_sub a b ≡ ok r
    → pos_part r + neg_part a + pos_part b ≡ neg_part r + pos_part a + neg_part b
unfolding plain_sub
plain_sub_ok (pos a) (pos b) r h = ground arith
plain_sub_ok _ _ r h = ground arith

-- One of the two parts is zero.
pub parts_disjoint : (z : ℤ) → 0 < pos_part z → IsNonneg z
parts_disjoint (pos n) h = omega arith
parts_disjoint (negsuc n) h = absurd (omega arith)
