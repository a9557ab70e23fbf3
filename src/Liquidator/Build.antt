-- ===== src/Liquidator/Build.antt =====
-- The plan for one pair of a borrow and a deposit: the caps on its repay, the candidates of the three
-- kinds and the choice among them (`build_liquidation_plan_for_asset_pool_pair` of liquidator.rs).
pub mod Chosen
use alula_liquidator.Prelude.{
  String, Bool, true, false, not, ◌&&◌, ◌||◌, Option, some, none, List, [], ◌∷◌, if◌then◌else◌,
}
use alula_liquidator.Prelude.Outcome.{Outcome, ok, err, panic}
use alula_liquidator.Prelude.Int.{
  ℤ, pos, i128_max, min_ℤ, leb_ℤ, ltb_ℤ, plain_add, pow10, saturating_mul, saturating_div,
}
use alula_liquidator.Pool.{
  d_tokens_to_tokens_ceil, j_tokens_to_tokens_floor, is_flash_loan_enabled, available_for_borrow,
}
use alula_liquidator.Profitability.{
  compute_profit_margin_in_borrow_token, compute_repay_cap_from_collateral,
}
use alula_liquidator.Liquidation.Health.{DustRules, is_sweep, compute_close_factor_repay_cap}
use alula_liquidator.Liquidation.Pair.{
  LiquidationPair, ClearingMargin, accruing_until, with_margin, lifts_close_factor,
}
use alula_liquidator.World.{
  Surroundings, World, Run, M, pure, stop, guard, dropping, given, attempt, look, get_balance,
  ◌>>=◌, ◌>>◌,
}
use alula_liquidator.Liquidator.{LiquidatorConfig, LiquidationPlan, Target}
use alula_liquidator.Liquidator.Plans.{
  worth, liquidation_pair, fit_or_skip, usable, try_direct_plan, try_flash_plan, try_preswap_plan,
}

-- `cents * 10^decimals / 100`, saturating but for the power.
unfoldable pub cents_value : ℤ → Target → M ℤ
cents_value cents t = do
  unit ← dropping (pow10 t.market_data.oracle_price_decimals)
  dropping (saturating_div (saturating_mul cents unit) (pos 100))

-- `unwrap_or(0)`
abbrev pub or_zero : Option ℤ → ℤ
or_zero none = pos 0
or_zero (some x) = x

-- What the pair can be liquidated with: its caps, once the position is worth liquidating.
pub record Sizing : Type 0 where
  pub pair : LiquidationPair
  pub lifts_close_factor : Bool
  pub max_feasible_repay : ℤ
  pub profit_margin_borrow : ℤ
  pub max_profitable_repay : ℤ

-- The repay cap for an amount of collateral; nothing unless it is positive.
unfoldable pub positive_cap :
    Target → LiquidationPair → (lifts : Bool) → (max_feasible collateral margin : ℤ) → M ℤ
positive_cap t pair lifts max_feasible collateral margin = do
  cap ← dropping (
      compute_repay_cap_from_collateral (not lifts) t.borrow_pool max_feasible t.collateral_pool
        collateral pair.obligation_debt_value margin pair.obligation_collateral_value)
  guard (ltb_ℤ (pos 0) cap)
  pure cap

-- The checks on the position: a debt, and collateral that is not left to a sweep market's cover.
unfoldable pub position_of : DustRules → Target → ℤ → M (ℤ × ℤ)
position_of rules t borrow_d_tokens = do
  debt ← dropping (d_tokens_to_tokens_ceil t.borrow_pool borrow_d_tokens)
  guard (ltb_ℤ (pos 0) debt)
  supplied ← dropping (j_tokens_to_tokens_floor t.collateral_pool t.deposit_position.j_tokens)
  sum ← dropping (plain_add supplied t.deposit_position.collateral)
  sum_value ← worth sum t.collateral_pool
  threshold ← cents_value t.market_data.min_collateral_value_cents t
  guard (ltb_ℤ (pos 0) sum && not (is_sweep rules && ltb_ℤ sum_value threshold))
  pure (debt, sum)

module _ (env : Surroundings) (config : LiquidatorConfig) (t : Target) where
  unfoldable pub size_position : (borrow_d_tokens : ℤ) → ClearingMargin → M Sizing
  size_position borrow_d_tokens margin = do
    position ← position_of config.dust_rules t borrow_d_tokens
    profit_margin ← attempt (
        dropping (
          compute_profit_margin_in_borrow_token config.min_profit_margin_cents
            t.market_data.oracle_price_decimals t.borrow_pool))
    fresh ← liquidation_pair config.dust_rules t
    now ← look env.unix_now
    accruing ← dropping (accruing_until fresh now)
    let pair = with_margin accruing margin
    lifts ← dropping (lifts_close_factor pair)
    let feasible =
        min_ℤ position.0 (
          compute_close_factor_repay_cap lifts position.0
            t.borrow_pool.liquidation_close_factor_bps)
    guard (ltb_ℤ (pos 0) feasible)
    cap ← positive_cap t pair lifts feasible position.1 (or_zero profit_margin)
    pure (record {
      pair = pair;
      lifts_close_factor = lifts;
      max_feasible_repay = feasible;
      profit_margin_borrow = or_zero profit_margin;
      max_profitable_repay = cap;
    })

  unfoldable pub direct_candidate :
      Sizing → (usable_borrow min_profit_margin_value : ℤ) → M LiquidationPlan
  direct_candidate s usable_borrow min_profit_margin_value =
      let direct_repay = min_ℤ s.max_profitable_repay usable_borrow in
      do
        guard (ltb_ℤ (pos 0) direct_repay)
        repay ← fit_or_skip s.pair direct_repay usable_borrow
        try_direct_plan config.dust_rules t repay min_profit_margin_value

  -- The repay of a flash plan before it is fitted: only collateral that is there at once counts.
  unfoldable pub flash_size : Sizing → M ℤ
  flash_size s =
      let sized = do
        all_deposit ←
            dropping (j_tokens_to_tokens_floor t.collateral_pool t.deposit_position.j_tokens)
        available ← dropping (available_for_borrow t.collateral_pool)
        instantly ← dropping (plain_add t.deposit_position.collateral (min_ℤ all_deposit available))
        cap ←
            positive_cap t s.pair s.lifts_close_factor s.max_feasible_repay instantly
              s.profit_margin_borrow
        pure (min_ℤ cap t.borrow_pool.total_available_adjusted)
      in if is_flash_loan_enabled t.borrow_pool then sized else pure (pos 0)

  unfoldable pub flash_candidate :
      Sizing → (flash_repay min_profit_margin_value : ℤ) → M LiquidationPlan
  flash_candidate s flash_repay min_profit_margin_value = do
    guard (ltb_ℤ (pos 0) flash_repay)
    repay ← fit_or_skip s.pair flash_repay t.borrow_pool.total_available_adjusted
    try_flash_plan env config t repay min_profit_margin_value

  unfoldable pub preswap_candidate : Sizing → (min_profit_margin_value : ℤ) → M LiquidationPlan
  preswap_candidate s min_profit_margin_value = do
    repay ← fit_or_skip s.pair s.max_profitable_repay (pos i128_max)
    try_preswap_plan env config t s.pair repay min_profit_margin_value

-- The candidates that were pushed.
abbrev pub pushed : Option LiquidationPlan → List LiquidationPlan → List LiquidationPlan
pushed none rest = rest
pushed (some plan) rest = plan ∷ rest

-- `max_by_key(|plan| plan.repay_amount)`: of equal ones the last.
unfoldable pub max_by_repay : List LiquidationPlan → Option LiquidationPlan → Option LiquidationPlan
max_by_repay [] best = best
max_by_repay (plan ∷ rest) none = max_by_repay rest (some plan)
max_by_repay (plan ∷ rest) (some best) =
    max_by_repay rest (some (if leb_ℤ best.repay_amount plan.repay_amount then plan else best))

module _ (env : Surroundings) (config : LiquidatorConfig) (t : Target) where
  unfoldable pub build_liquidation_plan : (borrow_d_tokens : ℤ) → ClearingMargin → M LiquidationPlan
  build_liquidation_plan borrow_d_tokens margin = do
    s ← size_position env config t borrow_d_tokens margin
    balance ← get_balance env t.borrow_pool.token_address
    let usable_borrow = usable config t.borrow_pool.token_address (or_zero balance)
    min_profit_margin_value ← cents_value config.min_profit_margin_cents t
    direct_plan ← attempt (direct_candidate env config t s usable_borrow min_profit_margin_value)
    flash_repay ← flash_size env config t s
    flash_plan ← attempt (flash_candidate env config t s flash_repay min_profit_margin_value)
    preswap_plan ← attempt (preswap_candidate env config t s min_profit_margin_value)
    given (max_by_repay (pushed direct_plan (pushed flash_plan (pushed preswap_plan []))) none)
