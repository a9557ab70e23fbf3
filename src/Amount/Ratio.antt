-- ===== src/Amount/Ratio.antt =====
-- What a rounded quotient is, and that the four shapes of it in amount.rs compute it: a floor or a
-- ceiling of `x * num / den` when they return a value, and a value whenever the product fits.
use alula_liquidator.Prelude.{ℕ, ◌+◌, ◌-◌, ◌*◌, ◌/◌, le→leb, ◌≤◌, ◌<◌, ◌≡◌, arith}
use alula_liquidator.Prelude.Outcome.{ok, m_ou, returned-via}
use alula_liquidator.Prelude.Int.{
  ℤ, pos, negsuc, pos_part, neg_part, IsNonneg, i128_max, checked_mul, checked_add, plain_sub,
  plain_div,
}
use alula_liquidator.Prelude.Int.Laws.{
  checked_mul_ok, checked_add_ok, plain_div_ok, plain_sub_ok, plain_div-ne-zero,
}
use alula_liquidator.Amount.{mul_div_floor, mul_div_ceil}

-- `r` is `x * num / den`, rounded down.
abbrev pub IsFloorOf : ℤ → ℤ → ℤ → ℤ → Type 0
IsFloorOf x num den r =
    IsNonneg r
    × (pos_part r * pos_part den ≤ pos_part x * pos_part num)
    × (pos_part x * pos_part num < (pos_part r + 1) * pos_part den)

-- `r` is `x * num / den`, rounded up.
abbrev pub IsCeilOf : ℤ → ℤ → ℤ → ℤ → Type 0
IsCeilOf x num den r =
    IsNonneg r
    × (pos_part x * pos_part num ≤ pos_part r * pos_part den)
    × (pos_part r * pos_part den < pos_part x * pos_part num + pos_part den)

pub mul_div_floor-IsFloorOf :
    (x num den r : ℤ)
    → IsNonneg x
    → IsNonneg num
    → IsNonneg den
    → mul_div_floor x num den ≡ ok r
    → IsFloorOf x num den r
unfolding mul_div_floor
mul_div_floor-IsFloorOf x num den r hx hn hd h =
    let (n, en, h₁) = returned-via (m_ou (checked_mul x num)) _ h in
    let fn = checked_mul_ok x num n hx hn en in
    let fd = plain_div_ok n den r fn.0 hd h₁ in omega arith

mul_div_ceil_step :
    (x num den n less adjusted r : ℤ)
    → IsNonneg den
    → IsNonneg n
    → pos_part n ≡ pos_part x * pos_part num
    → pos_part less + neg_part den + 1 ≡ neg_part less + pos_part den + 0
    → m_ou (checked_add n less) ≡ ok adjusted
    → plain_div adjusted den ≡ ok r
    → IsCeilOf x num den r
mul_div_ceil_step x num den n (pos less) adjusted r hd hn en el ea er =
    let fa = checked_add_ok n (pos less) adjusted hn (omega arith) ea in
    let fd = plain_div_ok adjusted den r fa.0 hd er in omega arith
mul_div_ceil_step x num den n (negsuc less) adjusted r hd hn en el ea er =
    absurd (omega (arith, plain_div-ne-zero adjusted den r er))

pub mul_div_ceil-IsCeilOf :
    (x num den r : ℤ)
    → IsNonneg x
    → IsNonneg num
    → IsNonneg den
    → mul_div_ceil x num den ≡ ok r
    → IsCeilOf x num den r
unfolding mul_div_ceil
mul_div_ceil-IsCeilOf x num den r hx hn hd h =
    let (n, en, h₁) = returned-via (m_ou (checked_mul x num)) _ h in
    let fn = checked_mul_ok x num n hx hn en in
    let (less, el, h₂) = returned-via (plain_sub den (pos 1)) _ h₁ in
    let (adjusted, ea, h₃) = returned-via (m_ou (checked_add n less)) _ h₂ in
    let fl = plain_sub_ok den (pos 1) less el in
    mul_div_ceil_step x num den n less adjusted r hd fn.0 fn.1 fl ea h₃

mul_div_floor_pos :
    (x n d : ℕ)
    → 0 < d
    → x * n ≤ i128_max
    → mul_div_floor (pos x) (pos n) (pos d) ≡ ok (pos (x * n / d))
unfolding mul_div_floor
mul_div_floor_pos x n d hd h =
    rw (le→leb (x * n) i128_max h) (rw (le→leb (x * n / d) i128_max (omega arith)) (ground arith))

mul_div_ceil_pos :
    (x n d : ℕ)
    → 0 < d
    → x * n + d ≤ i128_max
    → mul_div_ceil (pos x) (pos n) (pos d) ≡ ok (pos ((x * n + (d - 1)) / d))
unfolding mul_div_ceil
mul_div_ceil_pos x n d hd h = rw (le→leb (x * n) i128_max (omega arith)) (
    rw (le→leb 1 d hd) (
      rw (le→leb (d - 1) i128_max (omega arith)) (
        rw (le→leb (x * n + (d - 1)) i128_max (omega arith))
          (rw (le→leb ((x * n + (d - 1)) / d) i128_max (omega arith)) (ground arith)))))

-- No overflow and no panic where the product fits and the divisor is positive.
pub mul_div_floor-total :
    (x num den : ℤ)
    → IsNonneg x
    → IsNonneg num
    → 0 < pos_part den
    → pos_part x * pos_part num ≤ i128_max
    → (r : ℤ) × (mul_div_floor x num den ≡ ok r)
mul_div_floor-total (negsuc x) _ _ hx hn hd h = absurd (omega arith)
mul_div_floor-total (pos x) (negsuc n) _ hx hn hd h = absurd (omega arith)
mul_div_floor-total (pos x) (pos n) (negsuc d) hx hn hd h = absurd (omega arith)
mul_div_floor-total (pos x) (pos n) (pos d) hx hn hd h =
    (pos (x * n / d), mul_div_floor_pos x n d hd h)

pub mul_div_ceil-total :
    (x num den : ℤ)
    → IsNonneg x
    → IsNonneg num
    → 0 < pos_part den
    → pos_part x * pos_part num + pos_part den ≤ i128_max
    → (r : ℤ) × (mul_div_ceil x num den ≡ ok r)
mul_div_ceil-total (negsuc x) _ _ hx hn hd h = absurd (omega arith)
mul_div_ceil-total (pos x) (negsuc n) _ hx hn hd h = absurd (omega arith)
mul_div_ceil-total (pos x) (pos n) (negsuc d) hx hn hd h = absurd (omega arith)
mul_div_ceil-total (pos x) (pos n) (pos d) hx hn hd h =
    (pos ((x * n + (d - 1)) / d), mul_div_ceil_pos x n d hd h)
