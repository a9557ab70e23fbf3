-- ===== src/Prelude/Int.antt =====
-- `i128`: signed integers over the native numbers, and Rust's checked, saturating and plain
-- operations on them. An integer stands for the value of an `i128` where `InRange` holds of it.
pub mod Laws
use Prim.Native.Nat.{ℕ, zero, suc, ◌+◌, ◌-◌, ◌*◌, ◌/◌, ◌^◌, ◌≤◌, ◌<◌}
use mathlib.Core.Path.{◌≡◌}
use mathlib.Core.Bool.{Bool, true}
use mathlib.Core.Option.{Option, none, some}
use alula_liquidator.Prelude.Tests.{ltb, leb, ◌==◌, if◌then◌else◌}
use alula_liquidator.Prelude.Outcome.{Outcome, ok, panic}

-- `negsuc n` is -(n + 1).
pub data ℤ : Type 0 where
  pos : ℕ → ℤ
  negsuc : ℕ → ℤ

abbrev pub pos_part : ℤ → ℕ
pos_part (pos n) = n
pos_part (negsuc n) = 0

abbrev pub neg_part : ℤ → ℕ
neg_part (pos n) = 0
neg_part (negsuc n) = suc n

-- The number -n.
abbrev neg_of : ℕ → ℤ
neg_of zero = pos 0
neg_of (suc n) = negsuc n

abbrev sub_ℕ : ℕ → ℕ → ℤ
sub_ℕ a b = if leb b a then pos (a - b) else negsuc (b - a - 1)

infixl 65 ◌+ℤ◌ ◌-ℤ◌
infixl 70 ◌*ℤ◌ ◌/ℤ◌
infix 50 ◌≤ℤ◌ ◌<ℤ◌
abbrev pub ◌+ℤ◌ : ℤ → ℤ → ℤ
pos a +ℤ pos b = pos (a + b)
pos a +ℤ negsuc b = sub_ℕ a (suc b)
negsuc a +ℤ pos b = sub_ℕ b (suc a)
negsuc a +ℤ negsuc b = negsuc (suc (a + b))

abbrev neg : ℤ → ℤ
neg (pos n) = neg_of n
neg (negsuc n) = pos (suc n)

abbrev pub ◌-ℤ◌ : ℤ → ℤ → ℤ
pos a -ℤ pos b = sub_ℕ a b
pos a -ℤ negsuc b = pos (a + suc b)
negsuc a -ℤ pos b = negsuc (a + b)
negsuc a -ℤ negsuc b = sub_ℕ b a

abbrev pub ◌*ℤ◌ : ℤ → ℤ → ℤ
pos a *ℤ pos b = pos (a * b)
pos a *ℤ negsuc b = neg_of (a * suc b)
negsuc a *ℤ pos b = neg_of (suc a * b)
negsuc a *ℤ negsuc b = pos (suc a * suc b)

-- Division rounds toward zero; the operations below test for a zero divisor.
abbrev pub ◌/ℤ◌ : ℤ → ℤ → ℤ
pos a /ℤ pos b = pos (a / b)
pos a /ℤ negsuc b = neg_of (a / suc b)
negsuc a /ℤ pos b = neg_of (suc a / b)
negsuc a /ℤ negsuc b = pos (suc a / suc b)

abbrev pub ◌≤ℤ◌ : ℤ → ℤ → Type 0
a ≤ℤ b = pos_part a + neg_part b ≤ pos_part b + neg_part a

abbrev pub ◌<ℤ◌ : ℤ → ℤ → Type 0
a <ℤ b = pos_part a + neg_part b < pos_part b + neg_part a

abbrev pub ltb_ℤ : ℤ → ℤ → Bool
ltb_ℤ a b = ltb (pos_part a + neg_part b) (pos_part b + neg_part a)

abbrev pub leb_ℤ : ℤ → ℤ → Bool
leb_ℤ a b = leb (pos_part a + neg_part b) (pos_part b + neg_part a)

abbrev pub eqb_ℤ : ℤ → ℤ → Bool
eqb_ℤ a b = (pos_part a + neg_part b) == (pos_part b + neg_part a)

-- `Ord::min`, `Ord::max`
abbrev pub min_ℤ : ℤ → ℤ → ℤ
min_ℤ a b = if leb_ℤ a b then a else b

abbrev pub max_ℤ : ℤ → ℤ → ℤ
max_ℤ a b = if leb_ℤ a b then b else a

abbrev pub IsNonneg : ℤ → Type 0
IsNonneg z = neg_part z ≡ 0

-- `i128::MAX`; `i128::MIN` is `negsuc i128_max`.
abbrev pub i128_max : ℕ
i128_max = 170141183460469231731687303715884105727

abbrev in_range : ℤ → Bool
in_range (pos n) = leb n i128_max
in_range (negsuc n) = leb n i128_max

abbrev InRange : ℤ → Type 0
InRange z = in_range z ≡ true

unfoldable pub checked : ℤ → Option ℤ
checked z = if in_range z then some z else none

unfoldable pub saturate : ℤ → ℤ
saturate (pos n) = if leb n i128_max then pos n else pos i128_max
saturate (negsuc n) = if leb n i128_max then negsuc n else negsuc i128_max

-- What a plain operator returns.
unfoldable pub plain : ℤ → Outcome ℤ
plain z = if in_range z then ok z else panic

unfoldable pub checked_add : ℤ → ℤ → Option ℤ
unfolding checked
checked_add a b = checked (a +ℤ b)

unfoldable pub checked_sub : ℤ → ℤ → Option ℤ
unfolding checked
checked_sub a b = checked (a -ℤ b)

unfoldable pub checked_mul : ℤ → ℤ → Option ℤ
unfolding checked
checked_mul a b = checked (a *ℤ b)

unfoldable pub checked_div : ℤ → ℤ → Option ℤ
unfolding checked
checked_div a b = if eqb_ℤ b (pos 0) then none else checked (a /ℤ b)

unfoldable pub checked_neg : ℤ → Option ℤ
unfolding checked
checked_neg a = checked (neg a)

abbrev abs : ℤ → ℤ
abs (pos n) = pos n
abs (negsuc n) = pos (suc n)

unfoldable pub checked_abs : ℤ → Option ℤ
unfolding checked
checked_abs a = checked (abs a)

-- `10_i128.checked_pow(n)`, `.pow(n)` and `.saturating_pow(n)`
unfoldable pub checked_pow10 : ℕ → Option ℤ
unfolding checked
checked_pow10 n = checked (pos (10 ^ n))

unfoldable pub pow10 : ℕ → Outcome ℤ
unfolding plain
pow10 n = plain (pos (10 ^ n))

unfoldable pub saturating_pow10 : ℕ → ℤ
unfolding saturate
saturating_pow10 n = saturate (pos (10 ^ n))

unfoldable pub saturating_add : ℤ → ℤ → ℤ
unfolding saturate
saturating_add a b = saturate (a +ℤ b)

unfoldable pub saturating_sub : ℤ → ℤ → ℤ
unfolding saturate
saturating_sub a b = saturate (a -ℤ b)

unfoldable pub saturating_mul : ℤ → ℤ → ℤ
unfolding saturate
saturating_mul a b = saturate (a *ℤ b)

-- `saturating_div` panics on a zero divisor alone.
unfoldable pub saturating_div : ℤ → ℤ → Outcome ℤ
unfolding saturate
saturating_div a b = if eqb_ℤ b (pos 0) then panic else ok (saturate (a /ℤ b))

unfoldable pub plain_add : ℤ → ℤ → Outcome ℤ
unfolding plain
plain_add a b = plain (a +ℤ b)

unfoldable pub plain_sub : ℤ → ℤ → Outcome ℤ
unfolding plain
plain_sub a b = plain (a -ℤ b)

unfoldable pub plain_div : ℤ → ℤ → Outcome ℤ
unfolding plain
plain_div a b = if eqb_ℤ b (pos 0) then panic else plain (a /ℤ b)
