-- ===== src/Pool.antt =====
-- A lending pool as the keeper sees it (engine/src/lending_model/pool.rs): its totals, the
-- conversions between its j-tokens, its d-tokens and the underlying token, its utilization, and how
-- much may be borrowed from it or withdrawn. Text is `String`; `u32` and `u64` fields are ℕ.
pub mod Convert
pub mod Shares
pub mod Utilization
pub mod Capacity
use Prim.Native.Nat.{bit_and}
use alula_liquidator.Prelude.{ℕ, ◌-◌, ◌^◌, String, Bool, not, if◌then◌else◌, ◌==◌}
use alula_liquidator.Prelude.Outcome.{Outcome, ok, ◌>>=◌}
use alula_liquidator.Prelude.Int.{
  ℤ, pos, leb_ℤ, eqb_ℤ, saturating_add, saturating_mul, saturating_sub, saturating_div, plain_sub,
  plain_div,
}
use alula_liquidator.Amount.{
  bps_factor, JTokens, DTokens, Underlying, mul_div_floor, mul_div_ceil, bps_fixed_div_floor,
  bps_fixed_div_ceil,
}

pub record PoolData : Type 0 where
  pub total_supply : Underlying
  pub open_ltv_bps : ℤ
  pub close_ltv_bps : ℤ
  pub token_decimals : ℕ
  pub token_symbol : String
  pub pool_address : String
  pub total_borrowed : Underlying
  pub total_d_tokens : DTokens
  pub total_j_tokens : JTokens
  pub token_address : String
  pub total_available : Underlying
  pub total_collateral : Underlying
  pub oracle_asset_price : ℤ
  pub flash_loan_fee_bps : ℤ
  pub status_flags : ℕ
  pub liability_factor_bps : ℤ
  pub d_token_rate_ceil_bps : ℤ
  pub j_token_rate_floor_bps : ℤ
  pub total_available_adjusted : Underlying
  pub utilization_ratio_limit_bps : ℤ
  pub liquidation_close_factor_bps : ℤ
  pub max_liquidation_incentive_bps : ℤ
  pub last_accrual_timestamp : ℕ
  pub borrow_apy_bps : ℤ
  pub supply_apy_bps : ℤ

-- `1 << 3`
abbrev pool_status_flash_loan_enabled : ℕ
pool_status_flash_loan_enabled = 8

abbrev seconds_in_year : ℤ
seconds_in_year = pos 31556926

unfoldable pub is_flash_loan_enabled : PoolData → Bool
is_flash_loan_enabled p = not (bit_and p.status_flags pool_status_flash_loan_enabled == 0)

-- The closure `accrued`.
unfoldable pub accrued : ℕ → ℤ → Outcome ℤ
accrued elapsed apy_bps =
    plain_div (saturating_add (saturating_mul apy_bps (pos elapsed)) (pos 31556925)) seconds_in_year

unfoldable pub accrual_since_update_bps : PoolData → ℕ → Outcome (ℤ × ℤ)
accrual_since_update_bps p now = do
  let elapsed = now - p.last_accrual_timestamp
  borrowed ← accrued elapsed p.borrow_apy_bps
  supplied ← accrued elapsed p.supply_apy_bps
  ok (borrowed, supplied)

unfoldable pub utilization_ratio_bps : PoolData → Outcome ℤ
utilization_ratio_bps p =
    if eqb_ℤ p.total_supply (pos 0)
    then ok (pos 0)
    else bps_fixed_div_floor p.total_borrowed p.total_supply

unfoldable pub available_for_borrow : PoolData → Outcome Underlying
available_for_borrow p = do
  utilization ← utilization_ratio_bps p
  let room = do
    left ← plain_sub p.utilization_ratio_limit_bps utilization
    saturating_div (saturating_mul p.total_supply left) bps_factor
  if leb_ℤ p.utilization_ratio_limit_bps utilization then ok (pos 0) else room

unfoldable pub j_tokens_to_tokens_floor : PoolData → JTokens → Outcome Underlying
j_tokens_to_tokens_floor p j_tokens =
    if eqb_ℤ p.total_j_tokens (pos 0)
    then ok (pos 0)
    else mul_div_floor j_tokens p.total_supply p.total_j_tokens

unfoldable pub j_tokens_to_tokens_ceil : PoolData → JTokens → Outcome Underlying
j_tokens_to_tokens_ceil p j_tokens =
    if eqb_ℤ p.total_j_tokens (pos 0)
    then ok (pos 0)
    else mul_div_ceil j_tokens p.total_supply p.total_j_tokens

-- 1:1 if there are no deposits.
unfoldable pub tokens_to_j_tokens_floor : PoolData → Underlying → Outcome JTokens
tokens_to_j_tokens_floor p tokens =
    if eqb_ℤ p.total_supply (pos 0)
    then ok tokens
    else mul_div_floor tokens p.total_j_tokens p.total_supply

unfoldable pub tokens_to_j_tokens_ceil : PoolData → Underlying → Outcome JTokens
tokens_to_j_tokens_ceil p tokens =
    if eqb_ℤ p.total_supply (pos 0)
    then ok tokens
    else mul_div_ceil tokens p.total_j_tokens p.total_supply

unfoldable pub d_tokens_to_tokens_floor : PoolData → DTokens → Outcome Underlying
d_tokens_to_tokens_floor p d_tokens =
    if eqb_ℤ p.total_d_tokens (pos 0)
    then ok (pos 0)
    else mul_div_floor d_tokens p.total_borrowed p.total_d_tokens

unfoldable pub d_tokens_to_tokens_ceil : PoolData → DTokens → Outcome Underlying
d_tokens_to_tokens_ceil p d_tokens =
    if eqb_ℤ p.total_d_tokens (pos 0)
    then ok (pos 0)
    else mul_div_ceil d_tokens p.total_borrowed p.total_d_tokens

-- 1:1 if nothing is borrowed.
unfoldable pub tokens_to_d_tokens_floor : PoolData → Underlying → Outcome DTokens
tokens_to_d_tokens_floor p tokens =
    if eqb_ℤ p.total_borrowed (pos 0)
    then ok tokens
    else mul_div_floor tokens p.total_d_tokens p.total_borrowed

unfoldable pub tokens_to_d_tokens_ceil : PoolData → Underlying → Outcome DTokens
tokens_to_d_tokens_ceil p tokens =
    if eqb_ℤ p.total_borrowed (pos 0)
    then ok tokens
    else mul_div_ceil tokens p.total_d_tokens p.total_borrowed

-- How much can be withdrawn while the utilization stays at or below the limit less the margin.
unfoldable pub compute_max_safe_withdrawal : PoolData → ℤ → Outcome Underlying
compute_max_safe_withdrawal p safety_margin_bps = do
  current ← utilization_ratio_bps p
  let safe = saturating_sub p.utilization_ratio_limit_bps safety_margin_bps
  let sized = do
    min_supply ← bps_fixed_div_ceil p.total_borrowed safe
    if leb_ℤ p.total_supply min_supply then ok (pos 0) else plain_sub p.total_supply min_supply
  if leb_ℤ safe (pos 0) then ok (pos 0) else if leb_ℤ safe current then ok (pos 0) else sized
