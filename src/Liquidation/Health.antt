-- ===== src/Liquidation/Health.antt =====
-- Debt and collateral of an obligation, and the verdicts on it: liquidatable, insolvent, covered
-- (`compute_is_liquidatable`, `compute_is_insolvent` and what they use in liquidation.rs).
pub mod Solvency
pub mod Rules
use alula_liquidator.Prelude.{
  ℕ, String, Bool, true, false, ◌&&◌, ◌||◌, not, Option, some, none, List, [], ◌∷◌, ◌++◌, map, find,
  length, str_eq, if◌then◌else◌,
}
use alula_liquidator.Prelude.Outcome.{Outcome, ok, err, panic, internal_error, m_ou, ok_or, ◌>>=◌}
use alula_liquidator.Prelude.Int.{
  ℤ, pos, ◌/ℤ◌, saturate, saturating_mul, saturating_add, checked_add, checked_sub, checked_mul,
  checked_div, checked_pow10, ltb_ℤ, leb_ℤ, eqb_ℤ,
}
use alula_liquidator.Amount.{
  bps_factor, checked_mul_div_floor, checked_mul_div_ceil, bps_fixed_div_ceil,
}
use alula_liquidator.Pool.{PoolData, d_tokens_to_tokens_ceil, j_tokens_to_tokens_floor}
use alula_liquidator.Market.{MarketData, Obligation, DepositPosition, BorrowPosition, pool_of}

-- The rules that a market enforces around its dust floor.
pub data DustRules : Type 0 where
  sweep no_dust : DustRules

abbrev pub is_sweep : DustRules → Bool
is_sweep sweep = true
is_sweep no_dust = false

-- The divisor is 10000, so that `saturating_div` does not panic.
unfoldable pub fixed_mul_floor : ℤ → ℤ → ℤ
fixed_mul_floor amount bps = saturate (saturating_mul amount bps /ℤ bps_factor)

unfoldable pub fixed_mul_ceil : ℤ → ℤ → ℤ
fixed_mul_ceil amount bps =
    saturate (saturating_add (saturating_mul amount bps) (pos 9999) /ℤ bps_factor)

unfoldable pub token_factor : PoolData → Outcome ℤ
token_factor p = m_ou (checked_pow10 p.token_decimals)

unfoldable pub value_floor : ℤ → PoolData → Outcome ℤ
value_floor amount p = do
  product ← m_ou (checked_mul amount p.oracle_asset_price)
  factor ← token_factor p
  m_ou (checked_div product factor)

unfoldable pub value_ceil : ℤ → PoolData → Outcome ℤ
value_ceil amount p = do
  factor ← token_factor p
  checked_mul_div_ceil amount p.oracle_asset_price factor

unfoldable pub amount_floor : ℤ → PoolData → Outcome ℤ
amount_floor value p = do
  factor ← token_factor p
  checked_mul_div_floor value factor p.oracle_asset_price

unfoldable pub amount_ceil : ℤ → PoolData → Outcome ℤ
amount_ceil value p = do
  factor ← token_factor p
  checked_mul_div_ceil value factor p.oracle_asset_price

-- `cents * 10^decimals / 100`: the least value that a position may be left with.
unfoldable pub min_collateral_value : ℤ → ℕ → Outcome ℤ
min_collateral_value cents oracle_price_decimals = do
  factor ← m_ou (checked_pow10 oracle_price_decimals)
  checked_mul_div_floor cents factor (pos 100)

-- The debt of one borrow position, in oracle units, rounded up.
unfoldable pub debt_value : BorrowPosition → PoolData → Outcome ℤ
debt_value borrow p = value_ceil (fixed_mul_ceil borrow.d_tokens p.d_token_rate_ceil_bps) p

-- The collateral of one deposit position, in oracle units, rounded down.
unfoldable pub collateral_value : DepositPosition → PoolData → Outcome ℤ
collateral_value deposit p = do
  let real_supply = fixed_mul_floor deposit.j_tokens p.j_token_rate_floor_bps
  total_tokens ← m_ou (checked_add real_supply deposit.collateral)
  factor ← token_factor p
  checked_mul_div_floor total_tokens p.oracle_asset_price factor

-- The first loop of `compute_is_liquidatable`; a borrow in an unknown pool is skipped.
unfoldable pub scaled_debt : MarketData → List BorrowPosition → ℤ → Outcome ℤ
scaled_debt market [] total = ok total
scaled_debt market (borrow ∷ rest) total = elim (pool_of market borrow.pool_address) [
  | none ↦ scaled_debt market rest total
  | some p ↦ do
    value ← debt_value borrow p
    sum ← m_ou (checked_add total (fixed_mul_ceil value p.liability_factor_bps))
    scaled_debt market rest sum
]

-- The second loop of `compute_is_liquidatable`; a deposit in an unknown pool is skipped.
unfoldable pub scaled_collateral : MarketData → List DepositPosition → ℤ → Outcome ℤ
scaled_collateral market [] total = ok total
scaled_collateral market (deposit ∷ rest) total = elim (pool_of market deposit.pool_address) [
  | none ↦ scaled_collateral market rest total
  | some p ↦ do
    value ← collateral_value deposit p
    sum ← m_ou (checked_add total (fixed_mul_floor value p.close_ltv_bps))
    scaled_collateral market rest sum
]

unfoldable pub holds_collateral : DepositPosition → PoolData → Bool
holds_collateral dep p =
    ltb_ℤ (pos 0)
      (saturating_add (fixed_mul_floor dep.j_tokens p.j_token_rate_floor_bps) dep.collateral)

unfoldable pub has_any_collateral : MarketData → List DepositPosition → Bool
has_any_collateral market [] = false
has_any_collateral market (dep ∷ rest) =
    elim (pool_of market dep.pool_address) [ none ↦ false | some p ↦ holds_collateral dep p ]
    || has_any_collateral market rest

-- What follows the two loops, on their sums.
unfoldable pub judge_health : Obligation → MarketData → DustRules → ℤ → ℤ → Outcome Bool
judge_health obligation market rules debt collateral = do
  per_deposit ← min_collateral_value market.min_collateral_value_cents market.oracle_price_decimals
  to_subtract ← m_ou (checked_mul per_deposit (pos (length obligation.deposits)))
  let verdict = do adjusted ← m_ou (checked_sub collateral to_subtract); ok (ltb_ℤ adjusted debt)
  if is_sweep rules && ltb_ℤ collateral to_subtract then ok false else verdict

unfoldable pub compute_is_liquidatable : Obligation → MarketData → DustRules → Outcome Bool
compute_is_liquidatable obligation market rules =
    let weighed = do
      debt ← scaled_debt market obligation.borrows (pos 0)
      let rest = do
        collateral ← scaled_collateral market obligation.deposits (pos 0)
        judge_health obligation market rules debt collateral
      if eqb_ℤ debt (pos 0) then ok false else rest
    in if has_any_collateral market obligation.deposits then weighed else ok false

unfoldable pub sum_debt : MarketData → List BorrowPosition → ℤ → Outcome ℤ
sum_debt market [] total = ok total
sum_debt market (borrow ∷ rest) total = do
  p ← ok_or (pool_of market borrow.pool_address) internal_error
  value ← debt_value borrow p
  sum ← m_ou (checked_add total value)
  sum_debt market rest sum

unfoldable pub compute_obligation_debt_value : Obligation → MarketData → Outcome ℤ
compute_obligation_debt_value obligation market = sum_debt market obligation.borrows (pos 0)

unfoldable pub sum_collateral : MarketData → List DepositPosition → ℤ → Outcome ℤ
sum_collateral market [] total = ok total
sum_collateral market (dep ∷ rest) total = do
  p ← ok_or (pool_of market dep.pool_address) internal_error
  value ← collateral_value dep p
  sum ← m_ou (checked_add total value)
  sum_collateral market rest sum

unfoldable pub compute_obligation_collateral_value : Obligation → MarketData → Outcome ℤ
compute_obligation_collateral_value obligation market =
    sum_collateral market obligation.deposits (pos 0)

unfoldable pub compute_is_insolvent : Obligation → MarketData → Outcome Bool
compute_is_insolvent obligation market = do
  debt ← compute_obligation_debt_value obligation market
  let by_ltv = do
    collateral ← compute_obligation_collateral_value obligation market
    let ltv = do
      unparameterized_ltv ← bps_fixed_div_ceil debt collateral
      ok (leb_ℤ market.insolvency_ltv_bps unparameterized_ltv)
    if ltb_ℤ collateral (pos 0)
        then err internal_error
        else if eqb_ℤ collateral (pos 0)
        then ok true
        else ltv
  if ltb_ℤ debt (pos 0) then err internal_error else if eqb_ℤ debt (pos 0) then ok false else by_ltv

unfoldable pub compute_close_factor_repay_cap : Bool → ℤ → ℤ → ℤ
compute_close_factor_repay_cap is_lifted position_debt_tokens liquidation_close_factor_bps =
    if is_lifted
    then position_debt_tokens
    else fixed_mul_floor position_debt_tokens liquidation_close_factor_bps
