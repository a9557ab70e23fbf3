-- ===== src/Liquidation/Pair.antt =====
-- One (borrow, collateral) pair of an obligation as `liquidate` judges it (`LiquidationPair` of
-- liquidation.rs): what a repay buys, what it leaves, and the market's verdict on an offer.
pub mod Quote
use alula_liquidator.Prelude.{
  ℕ, String, Bool, true, false, Option, some, none, ◌&&◌, ◌||◌, if◌then◌else◌, find, str_eq,
}
use alula_liquidator.Prelude.Outcome.{Outcome, ok, err, internal_error, m_ou, ok_or, ◌>>=◌}
use alula_liquidator.Prelude.Int.{
  ℤ, pos, min_ℤ, leb_ℤ, ltb_ℤ, eqb_ℤ, checked_add, checked_mul, checked_div, plain_sub,
}
use alula_liquidator.Amount.{bps_factor, Underlying, checked_mul_div_floor, checked_mul_div_ceil}
use alula_liquidator.Pool.{
  PoolData, accrual_since_update_bps, d_tokens_to_tokens_ceil, j_tokens_to_tokens_floor,
}
use alula_liquidator.Market.{MarketData, Obligation, DepositPosition, BorrowPosition}
use alula_liquidator.Liquidation.Health.{
  DustRules, sweep, no_dust, value_floor, value_ceil, amount_floor, amount_ceil,
  min_collateral_value, compute_obligation_debt_value, compute_obligation_collateral_value,
}
use alula_liquidator.Liquidation.Seize.{compute_expected_seized_collateral}

pub record ClearingMargin : Type 0 where
  pub refunded_bps : ℤ
  pub unrefunded_bps : ℤ

-- `ClearingMargin::INITIAL` and `ClearingMargin::RETRY`
abbrev pub initial_margin : ClearingMargin
initial_margin = record { refunded_bps = pos 100; unrefunded_bps = pos 0 }

abbrev pub retry_margin : ClearingMargin
retry_margin = record { refunded_bps = pos 500; unrefunded_bps = pos 100 }

pub record LiquidationPair : Type 0 where
  pub rules : DustRules
  pub borrow_pool : PoolData
  pub collateral_pool : PoolData
  pub deposit : DepositPosition
  pub position_debt : ℤ
  pub obligation_debt_value : ℤ
  pub obligation_collateral_value : ℤ
  pub is_insolvent : Bool
  pub min_collateral_value_cents : ℤ
  pub oracle_price_decimals : ℕ
  pub debt_accrual_bps : ℤ
  pub supply_accrual_bps : ℤ
  pub margin : ClearingMargin

-- What the market does with a repay offer.
pub data Seizure : Type 0 where
  accepted : (seized repaid : ℤ) → Seizure
  over_close_factor : Seizure
  leaves_dust : Seizure

-- `LiquidationPair::new`
unfoldable pub new_pair :
    DustRules
    → Obligation
    → MarketData
    → PoolData
    → PoolData
    → DepositPosition
    → Bool
    → Outcome LiquidationPair
new_pair rules obligation market borrow_pool collateral_pool deposit is_insolvent = do
  borrow ←
      ok_or
        (find (λ (b : BorrowPosition). str_eq b.pool_address borrow_pool.pool_address)
          obligation.borrows)
        internal_error
  position_debt ← d_tokens_to_tokens_ceil borrow_pool borrow.d_tokens
  debt_value ← compute_obligation_debt_value obligation market
  collateral_value ← compute_obligation_collateral_value obligation market
  ok (record {
    rules = rules;
    borrow_pool = borrow_pool;
    collateral_pool = collateral_pool;
    deposit = deposit;
    position_debt = position_debt;
    obligation_debt_value = debt_value;
    obligation_collateral_value = collateral_value;
    is_insolvent = is_insolvent;
    min_collateral_value_cents = market.min_collateral_value_cents;
    oracle_price_decimals = market.oracle_price_decimals;
    debt_accrual_bps = pos 0;
    supply_accrual_bps = pos 0;
    margin = initial_margin;
  })

unfoldable pub accruing_until : LiquidationPair → ℕ → Outcome LiquidationPair
accruing_until pair now = do
  of_debt ← accrual_since_update_bps pair.borrow_pool now
  of_supply ← accrual_since_update_bps pair.collateral_pool now
  ok (record pair { debt_accrual_bps = of_debt.0; supply_accrual_bps = of_supply.1 })

unfoldable pub with_margin : LiquidationPair → ClearingMargin → LiquidationPair
with_margin pair margin = record pair { margin = margin }

unfoldable pub supplied_tokens : LiquidationPair → Outcome ℤ
supplied_tokens pair = j_tokens_to_tokens_floor pair.collateral_pool pair.deposit.j_tokens

unfoldable pub position_collateral : LiquidationPair → Outcome ℤ
position_collateral pair = do
  supplied ← supplied_tokens pair
  m_ou (checked_add supplied pair.deposit.collateral)

unfoldable pub dust_floor : LiquidationPair → Outcome ℤ
dust_floor pair = min_collateral_value pair.min_collateral_value_cents pair.oracle_price_decimals

unfoldable pub is_small_position : LiquidationPair → Outcome Bool
is_small_position pair = do
  floor ← dust_floor pair
  small ← m_ou (checked_mul floor (pos 2))
  collateral ← position_collateral pair
  value ← value_floor collateral pair.collateral_pool
  let by_debt = do
    debt_value ← value_ceil pair.position_debt pair.borrow_pool
    ok (ltb_ℤ debt_value small)
  if ltb_ℤ value small then ok true else by_debt

-- Whether the market lifts the close factor and the LTV cap.
unfoldable pub lifts_by_rules : DustRules → LiquidationPair → Outcome Bool
lifts_by_rules sweep pair = ok false
lifts_by_rules no_dust pair = is_small_position pair

unfoldable pub lifts_close_factor : LiquidationPair → Outcome Bool
lifts_close_factor pair =
    let by_rules = lifts_by_rules pair.rules pair in if pair.is_insolvent then ok true else by_rules

unfoldable pub incentive_bps : LiquidationPair → ℤ
incentive_bps pair =
    min_ℤ pair.borrow_pool.max_liquidation_incentive_bps
      pair.collateral_pool.max_liquidation_incentive_bps

-- The collateral that `repaid` debt buys before the position caps it.
unfoldable pub buys : LiquidationPair → ℤ → Bool → Outcome ℤ
buys pair repaid lifted = do
  repaid_value ← value_floor repaid pair.borrow_pool
  no_bonus ← amount_floor repaid_value pair.collateral_pool
  factor ← m_ou (checked_add bps_factor (incentive_bps pair))
  with_incentive ← checked_mul_div_floor no_bonus factor bps_factor
  let capped = do
    share ←
        checked_mul_div_floor repaid_value pair.obligation_collateral_value
          pair.obligation_debt_value
    ltv_improving_value ← checked_mul_div_floor share (pos 999) (pos 1000)
    cap ← amount_floor ltv_improving_value pair.collateral_pool
    ok (min_ℤ with_incentive cap)
  if lifted
      then ok with_incentive
      else if leb_ℤ pair.obligation_debt_value (pos 0)
          || leb_ℤ pair.obligation_collateral_value (pos 0)
      then ok (pos 0)
      else capped

-- What a small position's whole collateral costs.
unfoldable pub whole_position_repay : LiquidationPair → ℤ → Outcome ℤ
whole_position_repay pair position_collateral = do
  incentive_factor ← m_ou (checked_add bps_factor (incentive_bps pair))
  worth ← value_ceil position_collateral pair.collateral_pool
  value ← checked_mul_div_ceil worth bps_factor incentive_factor
  amount_ceil value pair.borrow_pool

unfoldable pub leaves_dust_under_floor : LiquidationPair → ℤ → ℤ → Outcome Bool
leaves_dust_under_floor pair collateral_left debt_left =
    let measured = do
      floor ← dust_floor pair
      value ← value_floor collateral_left pair.collateral_pool
      let by_debt = do
        debt_value ← value_ceil debt_left pair.borrow_pool
        ok (ltb_ℤ debt_value floor)
      if ltb_ℤ value floor then ok true else by_debt
    in if leb_ℤ collateral_left (pos 0) || leb_ℤ debt_left (pos 0) then ok false else measured

-- The share of the debt that `repaid` is, in bps, rounded up, is over the close factor.
unfoldable pub is_over_close_factor : LiquidationPair → ℤ → Outcome Bool
is_over_close_factor pair repaid = do
  repaid_bps ← checked_mul_div_ceil repaid bps_factor pair.position_debt
  ok (ltb_ℤ pair.borrow_pool.liquidation_close_factor_bps repaid_bps)

-- What the market charges: a small position's whole collateral may cost less than the repay.
unfoldable pub charge : LiquidationPair → ℤ → ℤ → ℤ → Outcome ℤ
charge pair collateral repaid seized =
    let refunded = do
      small ← is_small_position pair
      let cheaper = do whole ← whole_position_repay pair collateral; ok (min_ℤ repaid whole)
      if small then cheaper else ok repaid
    in if eqb_ℤ seized collateral then refunded else ok repaid

-- What `quote_no_dust` does past the close-factor check.
unfoldable pub settle : LiquidationPair → ℤ → ℤ → Bool → Outcome Seizure
settle pair collateral repaid lifted = do
  bought ← buys pair repaid lifted
  let seized = min_ℤ collateral bought
  charged ← charge pair collateral repaid seized
  collateral_left ← plain_sub collateral seized
  debt_left ← plain_sub pair.position_debt charged
  dust ← leaves_dust_under_floor pair collateral_left debt_left
  ok (if dust then leaves_dust else accepted seized charged)

-- The close-factor check, and what follows it.
unfoldable pub check_and_settle : LiquidationPair → ℤ → ℤ → Outcome Seizure
check_and_settle pair collateral repaid = do
  lifted ← lifts_close_factor pair
  let settled = settle pair collateral repaid lifted
  let limited = do
    over ← is_over_close_factor pair repaid
    if over then ok over_close_factor else settled
  if lifted then settled else limited

unfoldable pub quote_no_dust : LiquidationPair → ℤ → Outcome Seizure
quote_no_dust pair repay = do
  collateral ← position_collateral pair
  let judged = check_and_settle pair collateral (min_ℤ repay pair.position_debt)
  if leb_ℤ repay (pos 0)
        || leb_ℤ pair.position_debt (pos 0)
        || leb_ℤ collateral (pos 0)
        || leb_ℤ pair.borrow_pool.oracle_asset_price (pos 0)
        || leb_ℤ pair.collateral_pool.oracle_asset_price (pos 0)
      then ok (accepted (pos 0) (pos 0))
      else judged

unfoldable pub quote_by : DustRules → LiquidationPair → ℤ → Outcome Seizure
quote_by sweep pair repay = do
  seized ←
      compute_expected_seized_collateral repay pair.borrow_pool pair.collateral_pool pair.deposit
        pair.obligation_debt_value pair.obligation_collateral_value pair.is_insolvent
        pair.min_collateral_value_cents pair.oracle_price_decimals
  ok (accepted seized repay)
quote_by no_dust pair repay = quote_no_dust pair repay

-- A record's field cannot be matched, so that `quote_by` takes the rules as an argument.
unfoldable pub quote : LiquidationPair → ℤ → Outcome Seizure
quote pair repay = quote_by pair.rules pair repay
