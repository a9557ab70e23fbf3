-- ===== src/Liquidation/Fit.antt =====
-- The offer that the market accepts for a planned repay (`clearing`, `largest_partial_repay`,
-- `fit_repay`, `direct_repay` and `nets_more_than` of liquidation.rs).
pub mod Partial
pub mod Offer
pub mod Clear
use alula_liquidator.Prelude.{
  ℕ, suc, Bool, true, false, Option, some, none, ◌&&◌, ◌||◌, not, if◌then◌else◌,
}
use alula_liquidator.Prelude.Outcome.{Outcome, ok, err, panic, m_ou, ◌>>=◌}
use alula_liquidator.Prelude.Int.{
  ℤ, pos, i128_max, min_ℤ, max_ℤ, leb_ℤ, ltb_ℤ, checked_add, plain_sub, saturating_mul,
  saturating_div, saturating_pow10,
}
use alula_liquidator.Pool.{PoolData}
use alula_liquidator.Profitability.{
  LiquidationProfitability, compute_profit_margin_in_borrow_token,
  compute_repay_cap_from_collateral, compute_liquidation_profitability,
}
use alula_liquidator.Liquidation.Health.{
  DustRules, sweep, no_dust, is_sweep, fixed_mul_ceil, value_floor, value_ceil,
  compute_close_factor_repay_cap,
}
use alula_liquidator.Liquidation.Search.{least, greatest, search_rounds}
use alula_liquidator.Liquidation.Pair.{
  LiquidationPair, ClearingMargin, Seizure, accepted, over_close_factor, leaves_dust,
  supplied_tokens, position_collateral, dust_floor, is_small_position, lifts_close_factor, buys,
  quote,
}

-- `Result::ok`
unfoldable pub to_option : {A : Type 0} → Outcome A → Outcome (Option A)
to_option (ok a) = ok (some a)
to_option (err e) = ok none
to_option panic = panic

-- The smallest repay that clears a side of a pair at the snapshot, and the offer that still does once
-- interest has accrued.
pub record Clearing : Type 0 where
  pub at_snapshot : ℤ
  pub offer : ℤ

-- A probe of `repay_buying`.
unfoldable pub buys_target : LiquidationPair → Bool → ℤ → ℤ → Outcome Bool
buys_target pair lifted target repay = do bought ← buys pair repay lifted; ok (leb_ℤ target bought)

-- The closure `repay_buying`: the least repay, up to `debt`, that buys `target` collateral.
unfoldable pub repay_buying : LiquidationPair → Bool → ℤ → ℤ → Outcome (Option ℤ)
repay_buying pair lifted target debt = do
  reached ← buys_target pair lifted target debt
  let searched = do
    repay ← least search_rounds (buys_target pair lifted target) (pos 1) debt
    ok (some repay)
  if reached then searched else ok none

-- The closure `grown`.
unfoldable pub grown : ℤ → ℤ → Outcome ℤ
grown amount bps = m_ou (checked_add amount (fixed_mul_ceil amount bps))

-- The `match` on the repay that buys the grown collateral.
unfoldable pub padded_offer : LiquidationPair → ℤ → Option ℤ → Outcome ℤ
padded_offer pair grown_debt none = grown grown_debt pair.margin.refunded_bps
padded_offer pair grown_debt (some repay) = do
  small ← is_small_position pair
  grown repay (if small then pair.margin.refunded_bps else pair.margin.unrefunded_bps)

abbrev or_else : Option ℤ → ℤ → ℤ
or_else none d = d
or_else (some x) d = x

unfoldable pub clearing : LiquidationPair → Outcome (Option Clearing)
clearing pair = do
  collateral ← position_collateral pair
  let debt = pair.position_debt
  let cleared = do
    lifted ← lifts_close_factor pair
    grown_debt ← grown debt pair.debt_accrual_bps
    supplied ← supplied_tokens pair
    grown_supply ← grown supplied pair.supply_accrual_bps
    grown_collateral ← m_ou (checked_add pair.deposit.collateral grown_supply)
    clears ← repay_buying pair lifted grown_collateral grown_debt
    offer ← padded_offer pair grown_debt clears
    now ← repay_buying pair lifted collateral debt
    ok (some (record { at_snapshot = or_else now debt; offer = offer }))
  if leb_ℤ debt (pos 0) || leb_ℤ collateral (pos 0) then ok none else cleared

-- The closure `keeps_both_sides`.
unfoldable pub keeps_both_sides : LiquidationPair → ℤ → Bool → ℤ → ℤ → Outcome Bool
keeps_both_sides pair collateral lifted floor repay = do
  let repaid = min_ℤ repay pair.position_debt
  bought ← buys pair repaid lifted
  collateral_left ← plain_sub collateral (min_ℤ collateral bought)
  debt_left ← plain_sub pair.position_debt repaid
  let measured = do
    value ← value_floor collateral_left pair.collateral_pool
    let by_debt = do debt_value ← value_ceil debt_left pair.borrow_pool; ok (leb_ℤ floor debt_value)
    if leb_ℤ floor value then by_debt else ok false
  if ltb_ℤ (pos 0) collateral_left && ltb_ℤ (pos 0) debt_left then measured else ok false

-- `matches!(self.quote(offer)?, Seizure::Accepted { .. })`
abbrev is_accepted : Seizure → Bool
is_accepted (accepted _ _) = true
is_accepted over_close_factor = false
is_accepted leaves_dust = false

unfoldable pub accepts : LiquidationPair → ℤ → Outcome Bool
accepts pair offer = do seizure ← quote pair offer; ok (is_accepted seizure)

unfoldable pub offer_or : LiquidationPair → ℤ → Outcome (Option ℤ) → Outcome (Option ℤ)
offer_or pair offer otherwise = do
  accepted_offer ← accepts pair offer
  if accepted_offer then ok (some offer) else otherwise

unfoldable pub largest_partial_repay : LiquidationPair → ℤ → Outcome (Option ℤ)
largest_partial_repay pair upper = do
  collateral ← position_collateral pair
  lifted ← lifts_close_factor pair
  floor ← dust_floor pair
  let keeps = keeps_both_sides pair collateral lifted floor
  let searched = do low ← greatest search_rounds keeps (pos 1) upper; offer_or pair low (ok none)
  let probed = do smallest ← keeps (pos 1); if smallest then searched else ok none
  if ltb_ℤ upper (pos 1) then ok none else probed

-- The two branches of `fit_repay`, on the clearing offer.
unfoldable pub fit_by_clearing :
    LiquidationPair → ℤ → ℤ → Outcome (Option ℤ) → Option Clearing → Outcome (Option ℤ)
fit_by_clearing pair repay max_offer partial none = offer_or pair repay partial
fit_by_clearing pair repay max_offer partial (some clear) =
    let widened = offer_or pair repay (
      let clears = offer_or pair clear.offer partial in
      if leb_ℤ clear.offer max_offer then clears else partial) in
    let cleared = offer_or pair (min_ℤ (max_ℤ repay clear.offer) max_offer) partial in
    if leb_ℤ clear.at_snapshot repay then cleared else widened

unfoldable pub fit_repay : LiquidationPair → ℤ → ℤ → Outcome (Option ℤ)
fit_repay pair repay max_offer =
    let fitted = do
      clear ← clearing pair
      fit_by_clearing pair repay max_offer (largest_partial_repay pair (min_ℤ repay max_offer))
          clear
    in if is_sweep pair.rules then ok (some repay) else fitted

abbrev some_or_zero : Option ℤ → ℤ
some_or_zero none = pos 0
some_or_zero (some x) = x

-- The `filter` on the repay cap, and what follows it.
unfoldable pub fit_positive : LiquidationPair → Option ℤ → Outcome (Option ℤ)
fit_positive pair none = ok none
fit_positive pair (some repay) =
    let fitted = fit_repay pair repay (pos i128_max) in
    if ltb_ℤ (pos 0) repay then fitted else ok none

unfoldable pub direct_repay : LiquidationPair → ℤ → Outcome (Option ℤ)
direct_repay pair min_profit_margin_cents = do
  lifted ← lifts_close_factor pair
  let max_feasible = min_ℤ pair.position_debt (
      compute_close_factor_repay_cap lifted pair.position_debt
        pair.borrow_pool.liquidation_close_factor_bps)
  collateral ← position_collateral pair
  let planned = do
    margin ← to_option (
        compute_profit_margin_in_borrow_token min_profit_margin_cents pair.oracle_price_decimals
          pair.borrow_pool)
    cap ← to_option (
        compute_repay_cap_from_collateral (not lifted) pair.borrow_pool max_feasible
          pair.collateral_pool collateral pair.obligation_debt_value (some_or_zero margin)
          pair.obligation_collateral_value)
    fit_positive pair cap
  if leb_ℤ max_feasible (pos 0) || leb_ℤ collateral (pos 0) then ok none else planned

-- `amount * price / 10^decimals`, saturating.
unfoldable pub saturating_value : ℤ → PoolData → Outcome ℤ
saturating_value amount p =
    saturating_div (saturating_mul amount p.oracle_asset_price) (saturating_pow10 p.token_decimals)

abbrev is_acceptable_plan : Option LiquidationProfitability → Bool
is_acceptable_plan none = false
is_acceptable_plan (some p) = p.is_acceptable

unfoldable pub nets_more_than : LiquidationPair → ℤ → ℤ → ℤ → Outcome Bool
nets_more_than pair seized repaid min_profit_margin_cents = do
  margin_value ←
      saturating_div
        (saturating_mul min_profit_margin_cents (saturating_pow10 pair.oracle_price_decimals))
        (pos 100)
  gain ← saturating_value seized pair.collateral_pool
  cost ← saturating_value repaid pair.borrow_pool
  judged ← to_option (compute_liquidation_profitability gain cost margin_value)
  ok (is_acceptable_plan judged)
