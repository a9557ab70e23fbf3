-- ===== src/Liquidation/Seize.antt =====
-- The collateral that a repay seizes on a sweep market (`compute_expected_seized_collateral` of
-- liquidation.rs).
pub mod Bounds
use alula_liquidator.Prelude.{ℕ, Bool, Option, some, none, if◌then◌else◌, ◌||◌}
use alula_liquidator.Prelude.Outcome.{Outcome, ok, m_ou, ◌>>=◌}
use alula_liquidator.Prelude.Int.{
  ℤ, pos, min_ℤ, max_ℤ, leb_ℤ, ltb_ℤ, checked_add, checked_sub, checked_mul, checked_div,
}
use alula_liquidator.Amount.{bps_factor, checked_mul_div_floor}
use alula_liquidator.Pool.{PoolData}
use alula_liquidator.Market.{DepositPosition}
use alula_liquidator.Liquidation.Health.{fixed_mul_floor, token_factor, min_collateral_value}

-- `SCALAR_9`
abbrev scalar_9 : ℤ
scalar_9 = pos 1000000000

-- The collateral worth the repay with the incentive on top.
unfoldable pub with_incentive : ℤ → PoolData → PoolData → ℤ → Outcome ℤ
with_incentive liquidated_value borrow_pool collateral_pool collateral_token_factor = do
  let min_incentive_bps =
      min_ℤ borrow_pool.max_liquidation_incentive_bps collateral_pool.max_liquidation_incentive_bps
  no_bonus ←
      checked_mul_div_floor liquidated_value collateral_token_factor
        collateral_pool.oracle_asset_price
  factor ← m_ou (checked_add bps_factor min_incentive_bps)
  checked_mul_div_floor no_bonus factor bps_factor

-- The collateral that still improves the LTV, through a health factor scaled by 1e9.
unfoldable pub ltv_collateral : ℤ → PoolData → ℤ → ℤ → ℤ → Outcome ℤ
ltv_collateral liquidated_value collateral_pool collateral_token_factor obligation_debt_value
      obligation_collateral_value =
    do
      health_factor_sc9 ←
          checked_mul_div_floor obligation_collateral_value scalar_9 obligation_debt_value
      max_value_recv ← checked_mul_div_floor liquidated_value health_factor_sc9 scalar_9
      strict_max_value_recv ← checked_mul_div_floor max_value_recv (pos 999) (pos 1000)
      checked_mul_div_floor strict_max_value_recv collateral_token_factor
          collateral_pool.oracle_asset_price

-- A remainder worth less than the floor goes to the liquidator.
unfoldable pub sweep_dust : ℤ → ℤ → PoolData → ℤ → ℤ → ℕ → Outcome ℤ
sweep_dust seized position_collateral_sum collateral_pool collateral_token_factor
      min_collateral_value_cents oracle_price_decimals =
    do
      collateral_left ← m_ou (checked_sub position_collateral_sum seized)
      collateral_value_left ←
          checked_mul_div_floor collateral_left collateral_pool.oracle_asset_price
            collateral_token_factor
      min_collateral_threshold ←
          min_collateral_value min_collateral_value_cents oracle_price_decimals
      ok (
          max_ℤ
            (if ltb_ℤ collateral_value_left min_collateral_threshold
              then position_collateral_sum
              else seized)
            (pos 0))

unfoldable pub compute_expected_seized_collateral :
    ℤ → PoolData → PoolData → DepositPosition → ℤ → ℤ → Bool → ℤ → ℕ → Outcome ℤ
compute_expected_seized_collateral repay_amount borrow_pool collateral_pool deposit
      obligation_debt_value obligation_collateral_value is_insolvent min_collateral_value_cents
      oracle_price_decimals =
    let sized = λ (position_collateral_sum : ℤ). do
      borrow_token_factor ← token_factor borrow_pool
      liquidated_value ←
          checked_mul_div_floor repay_amount borrow_pool.oracle_asset_price borrow_token_factor
      collateral_token_factor ← token_factor collateral_pool
      bought ← with_incentive liquidated_value borrow_pool collateral_pool collateral_token_factor
      let settle = λ (seized : ℤ).
          sweep_dust seized position_collateral_sum collateral_pool collateral_token_factor
            min_collateral_value_cents oracle_price_decimals
      let uncapped = min_ℤ position_collateral_sum bought
      let capped = do
        cap ←
            ltv_collateral liquidated_value collateral_pool collateral_token_factor
              obligation_debt_value obligation_collateral_value
        settle (min_ℤ uncapped cap)
      if is_insolvent
          then settle uncapped
          else if leb_ℤ obligation_debt_value (pos 0) || leb_ℤ obligation_collateral_value (pos 0)
          then ok (pos 0)
          else capped
    in let summed = do
      let real_supply = fixed_mul_floor deposit.j_tokens collateral_pool.j_token_rate_floor_bps
      position_collateral_sum ← m_ou (checked_add real_supply deposit.collateral)
      if leb_ℤ position_collateral_sum (pos 0) then ok (pos 0) else sized position_collateral_sum
      in if leb_ℤ repay_amount (pos 0) || leb_ℤ collateral_pool.oracle_asset_price (pos 0)
        then ok (pos 0)
        else summed
