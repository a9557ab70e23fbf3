-- ===== src/Amount.antt =====
-- Fixed-point arithmetic of protocol amounts (engine/src/lending_model/amount.rs). `JTokens`,
-- `DTokens` and `Underlying` wrap one `i128`, and the macro gives all three the methods below.
-- `bps_fixed_div_*` return `None` only for an overflow, which every caller turns into
-- `OverOrUnderflow`; they are given with that error.
pub mod Ratio
use alula_liquidator.Prelude.Outcome.{Outcome, ok, m_ou, ◌>>=◌}
use alula_liquidator.Prelude.Int.{
  ℤ, pos, checked_add, checked_mul, checked_div, plain_sub, plain_div,
}

abbrev pub bps_factor : ℤ
bps_factor = pos 10000

abbrev pub JTokens : Type 0
JTokens = ℤ

abbrev pub DTokens : Type 0
DTokens = ℤ

abbrev pub Underlying : Type 0
Underlying = ℤ

-- `n = x.checked_mul(num)?; n / den`
unfoldable pub mul_div_floor : ℤ → ℤ → ℤ → Outcome ℤ
unfolding checked_mul plain_div
mul_div_floor x num den = do n ← m_ou (checked_mul x num); plain_div n den

-- `n = x.checked_mul(num)?.checked_add(den - 1)?; n / den`
unfoldable pub mul_div_ceil : ℤ → ℤ → ℤ → Outcome ℤ
unfolding checked_mul checked_add plain_sub plain_div
mul_div_ceil x num den = do
  n ← m_ou (checked_mul x num)
  less ← plain_sub den (pos 1)
  adjusted ← m_ou (checked_add n less)
  plain_div adjusted den

-- `x.checked_mul(num)?.checked_div(den)`
unfoldable pub checked_mul_div_floor : ℤ → ℤ → ℤ → Outcome ℤ
unfolding checked_mul checked_div
checked_mul_div_floor x num den = do n ← m_ou (checked_mul x num); m_ou (checked_div n den)

-- `x.checked_mul(num)?.checked_add(den - 1)?.checked_div(den)`
unfoldable pub checked_mul_div_ceil : ℤ → ℤ → ℤ → Outcome ℤ
unfolding checked_mul checked_add plain_sub checked_div
checked_mul_div_ceil x num den = do
  n ← m_ou (checked_mul x num)
  less ← plain_sub den (pos 1)
  adjusted ← m_ou (checked_add n less)
  m_ou (checked_div adjusted den)

unfoldable pub bps_fixed_div_ceil : ℤ → ℤ → Outcome ℤ
bps_fixed_div_ceil a other = mul_div_ceil a bps_factor other

unfoldable pub bps_fixed_div_floor : ℤ → ℤ → Outcome ℤ
bps_fixed_div_floor a other = mul_div_floor a bps_factor other

-- The methods that the macro `amount_newtype!` generates.
unfoldable pub checked_div_floor : ℤ → ℤ → Outcome ℤ
unfolding checked_div
checked_div_floor self other = m_ou (checked_div self other)

unfoldable pub checked_div_ceil : ℤ → ℤ → Outcome ℤ
unfolding checked_add checked_div plain_sub
checked_div_ceil self other = do
  less ← plain_sub other (pos 1)
  numerator ← m_ou (checked_add self less)
  m_ou (checked_div numerator other)

unfoldable pub scale_with_bps_floor : ℤ → ℤ → Outcome ℤ
scale_with_bps_floor self bps = mul_div_floor self bps bps_factor

unfoldable pub scale_with_bps_ceil : ℤ → ℤ → Outcome ℤ
scale_with_bps_ceil self bps = checked_mul_div_ceil self bps bps_factor
