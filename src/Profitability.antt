-- ===== src/Profitability.antt =====
-- What a liquidation costs and earns (engine/src/lending_model/profitability.rs).
pub mod Margin
use alula_liquidator.Prelude.{ℕ, Bool, if◌then◌else◌, ◌&&◌, ◌||◌, not}
use alula_liquidator.Prelude.Outcome.{Outcome, ok, err, internal_error, m_ou, ◌>>=◌}
use alula_liquidator.Prelude.Int.{
  ℤ, pos, negsuc, leb_ℤ, ltb_ℤ, eqb_ℤ, min_ℤ, checked_abs, checked_neg, checked_add, checked_sub,
  checked_mul, checked_div, checked_pow10, pow10, saturating_sub, plain_sub,
}
use alula_liquidator.Amount.{bps_factor, Underlying, scale_with_bps_ceil, checked_mul_div_floor}
use alula_liquidator.Pool.{PoolData}

unfoldable pub compute_flash_fee : Underlying → ℤ → Outcome Underlying
compute_flash_fee amount flash_loan_fee_bps = scale_with_bps_ceil amount flash_loan_fee_bps

unfoldable pub cents_to_oracle_value_ceil : ℤ → ℕ → Outcome ℤ
cents_to_oracle_value_ceil cents oracle_price_decimals =
    let value = do
      multiplier ← m_ou (checked_pow10 oracle_price_decimals)
      scaled ← m_ou (checked_mul cents multiplier)
      adjusted ← m_ou (checked_add scaled (pos 99))
      m_ou (checked_div adjusted (pos 100))
    in if ltb_ℤ cents (pos 0) then err internal_error else value

unfoldable pub value_to_underlying_asset_amount_ceil : ℤ → ℤ → ℕ → Outcome Underlying
value_to_underlying_asset_amount_ceil value oracle_asset_price token_decimals =
    let amount = do
      multiplier ← m_ou (checked_pow10 token_decimals)
      scaled ← m_ou (checked_mul value multiplier)
      less ← plain_sub oracle_asset_price (pos 1)
      numerator ← m_ou (checked_add scaled less)
      m_ou (checked_div numerator oracle_asset_price)
    in if ltb_ℤ value (pos 0)
      then err internal_error
      else if leb_ℤ oracle_asset_price (pos 0)
      then err internal_error
      else amount

unfoldable pub compute_profit_margin_in_borrow_token : ℤ → ℕ → PoolData → Outcome Underlying
compute_profit_margin_in_borrow_token min_profit_margin_cents oracle_price_decimals borrow_pool =
    let margin = do
      magnitude_cents ← m_ou (checked_abs min_profit_margin_cents)
      margin_value ← cents_to_oracle_value_ceil magnitude_cents oracle_price_decimals
      magnitude ←
          value_to_underlying_asset_amount_ceil margin_value borrow_pool.oracle_asset_price
            borrow_pool.token_decimals
      let opposite = m_ou (checked_neg magnitude)
      if ltb_ℤ min_profit_margin_cents (pos 0) then opposite else ok magnitude
    in if leb_ℤ borrow_pool.oracle_asset_price (pos 0)
      then err internal_error
      else if eqb_ℤ min_profit_margin_cents (pos 0)
      then ok (pos 0)
      else margin

-- The incentive that a solvent obligation's LTV leaves.
unfoldable pub effective_incentive_bps : Bool → ℤ → ℤ → ℤ → Outcome ℤ
effective_incentive_bps is_solvent pool_incentive_bps obligation_debt_value collateral_value =
    let capped = do
      multiplier ← checked_mul_div_floor collateral_value (pos 9990) obligation_debt_value
      ok (min_ℤ pool_incentive_bps (saturating_sub multiplier (pos 10000)))
    in if is_solvent then capped else ok pool_incentive_bps

-- The repay that the whole of the available collateral pays for.
unfoldable pub max_repay_borrow_units : PoolData → PoolData → ℤ → ℤ → Outcome ℤ
max_repay_borrow_units borrow_pool collateral_pool available_collateral incentive_bps_factor = do
  borrow_pow ← pow10 borrow_pool.token_decimals
  collateral_pow ← pow10 collateral_pool.token_decimals
  all_collateral_value ←
      checked_mul_div_floor available_collateral collateral_pool.oracle_asset_price collateral_pow
  numerator ← m_ou (checked_mul all_collateral_value borrow_pow)
  denominator ← checked_mul_div_floor borrow_pool.oracle_asset_price incentive_bps_factor bps_factor
  m_ou (checked_div numerator denominator)

unfoldable pub compute_repay_cap_from_collateral :
    Bool → PoolData → ℤ → PoolData → ℤ → ℤ → ℤ → ℤ → Outcome ℤ
compute_repay_cap_from_collateral is_solvent borrow_pool max_feasible_repay collateral_pool
      available_collateral obligation_debt_value profit_margin_borrow_tokens
      obligation_collateral_value =
    let capped = λ (factor : ℤ). do
      units ← max_repay_borrow_units borrow_pool collateral_pool available_collateral factor
      ok (min_ℤ max_feasible_repay (saturating_sub units profit_margin_borrow_tokens))
    in let cap = do
      incentive ←
          effective_incentive_bps is_solvent
            (min_ℤ borrow_pool.max_liquidation_incentive_bps
              collateral_pool.max_liquidation_incentive_bps)
            obligation_debt_value obligation_collateral_value
      factor ← m_ou (checked_add bps_factor incentive)
      if leb_ℤ factor (pos 0) then err internal_error else capped factor
      in if leb_ℤ available_collateral (pos 0)
        then err internal_error
        else if leb_ℤ borrow_pool.oracle_asset_price (pos 0)
            || leb_ℤ collateral_pool.oracle_asset_price (pos 0)
        then err internal_error
        else cap

pub record LiquidationProfitability : Type 0 where
  pub net_value : ℤ
  pub gain_value : ℤ
  pub is_acceptable : Bool

unfoldable pub compute_liquidation_profitability : ℤ → ℤ → ℤ → Outcome LiquidationProfitability
compute_liquidation_profitability gain_value cost_value min_profit_margin_value =
    let judged = do
      net_value ← m_ou (checked_sub gain_value cost_value)
      ok (record {
        net_value = net_value;
        gain_value = gain_value;
        is_acceptable = ltb_ℤ min_profit_margin_value net_value;
      })
    in if leb_ℤ gain_value (pos 0) || leb_ℤ cost_value (pos 0) then err internal_error else judged
