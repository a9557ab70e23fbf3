-- ===== src/Liquidator/Plans.antt =====
-- The plans of the three kinds for one pair (`compute_seized`, `try_direct_plan`, `try_flash_plan` and
-- `try_preswap_plan` of liquidator.rs).
pub mod Profit
pub mod Flash
use alula_liquidator.Prelude.{
  String, Bool, not, Option, some, none, List, [], ◌∷◌, find, str_eq, if◌then◌else◌,
}
use alula_liquidator.Prelude.Outcome.{Outcome, ok, err, panic}
use alula_liquidator.Prelude.Int.{
  ℤ, pos, min_ℤ, leb_ℤ, ltb_ℤ, checked_add, plain_add, plain_sub, plain_div, pow10, saturating_add,
  saturating_sub, saturating_mul, saturating_div,
}
use alula_liquidator.Amount.{bps_factor}
use alula_liquidator.Pool.{PoolData, j_tokens_to_tokens_floor}
use alula_liquidator.Market.{ObligationKey}
use alula_liquidator.Profitability.{
  LiquidationProfitability, compute_flash_fee, compute_liquidation_profitability,
}
use alula_liquidator.Liquidation.Health.{DustRules}
use alula_liquidator.Liquidation.Pair.{LiquidationPair, Seizure, accepted, new_pair, quote}
use alula_liquidator.Liquidation.Fit.{fit_repay}
use alula_liquidator.World.{
  Surroundings, World, Run, M, pure, stop, guard, dropping, given, attempt, get_balance, ◌>>=◌,
  ◌>>◌,
}
use alula_liquidator.Liquidator.{
  LiquidatorConfig, LiquidationPlan, LiquidationType, direct, pre_swap, flash, Target,
}
use alula_liquidator.Liquidator.Quotes.{best_swap_quote, best_swap_base}

-- `amount * price / 10^decimals`, saturating but for the power.
unfoldable pub worth : ℤ → PoolData → M ℤ
worth amount p = do
  unit ← dropping (pow10 p.token_decimals)
  dropping (saturating_div (saturating_mul amount p.oracle_asset_price) unit)

unfoldable pub liquidation_pair : DustRules → Target → M LiquidationPair
liquidation_pair rules t = dropping (
    new_pair rules t.obligation t.market_data t.borrow_pool t.collateral_pool t.deposit_position
      t.is_insolvent)

-- The seizure of a repay that the market accepts; one that seizes nothing is none.
abbrev pub take_seizure : Seizure → M (ℤ × ℤ)
take_seizure (accepted seized repaid) = if ltb_ℤ (pos 0) seized then pure (seized, repaid) else stop
take_seizure _ = stop

unfoldable pub compute_seized : DustRules → Target → ℤ → M (ℤ × ℤ)
compute_seized rules t repay_amount = do
  pair ← liquidation_pair rules t
  seizure ← dropping (quote pair repay_amount)
  take_seizure seizure

-- The strategy's own `fit_repay`.
unfoldable pub fit_or_skip : LiquidationPair → ℤ → ℤ → M ℤ
fit_or_skip pair repay max_offer = do
  fitted ← dropping (fit_repay pair repay max_offer)
  given fitted

-- The net value of an acceptable liquidation.
unfoldable pub acceptable_net : (gain cost min_profit_margin_value : ℤ) → M ℤ
acceptable_net gain cost min_profit_margin_value = do
  profitability ← dropping (compute_liquidation_profitability gain cost min_profit_margin_value)
  if profitability.is_acceptable then pure profitability.net_value else stop

abbrev pub new_plan : Target → (repay net seized : ℤ) → LiquidationType → LiquidationPlan
new_plan t repay net seized kind = record {
  repay_amount = repay;
  net_profit_value = net;
  borrower_key = t.borrower_key;
  borrow_pool_address = t.borrow_pool.pool_address;
  collateral_pool_address = t.collateral_pool.pool_address;
  expected_seized_collateral = seized;
  liquidation_type = kind;
}

unfoldable pub try_direct_plan :
    DustRules → Target → (repay min_profit_margin_value : ℤ) → M LiquidationPlan
try_direct_plan rules t repay_amount min_profit_margin_value = do
  seizure ← compute_seized rules t repay_amount
  repay_value ← worth seizure.1 t.borrow_pool
  expected_received_value ← worth seizure.0 t.collateral_pool
  net ← acceptable_net expected_received_value repay_value min_profit_margin_value
  pure (new_plan t repay_amount net seizure.0 direct)

-- What a seizure draws from plain collateral, and what from the deposit.
unfoldable pub seizure_parts : Target → ℤ → M (ℤ × ℤ)
seizure_parts t seized_amount =
    let all_plain = t.deposit_position.collateral in
    let beyond = do
      all_deposit ←
          dropping (j_tokens_to_tokens_floor t.collateral_pool t.deposit_position.j_tokens)
      left ← dropping (plain_sub seized_amount all_plain)
      pure (all_plain, min_ℤ all_deposit left)
    in if leb_ℤ seized_amount all_plain then pure (seized_amount, pos 0) else beyond

-- An amount of the wallet's asset that may be spent.
unfoldable pub usable : LiquidatorConfig → String → ℤ → ℤ
usable config asset balance =
    if str_eq asset config.xlm_address
    then saturating_sub balance config.xlm_safety_margin
    else balance

-- `best_plan.as_ref().is_none_or(..)`; a plan that does not beat the best is let go.
unfoldable pub keep_larger :
    Option LiquidationPlan → Option LiquidationPlan → Option LiquidationPlan
keep_larger none best = best
keep_larger (some plan) none = some plan
keep_larger (some plan) (some best) =
    if ltb_ℤ best.repay_amount plan.repay_amount then some plan else some best

module _ (env : Surroundings) (config : LiquidatorConfig) (t : Target) where
  unfoldable pub try_flash_plan : (repay min_profit_margin_value : ℤ) → M LiquidationPlan
  try_flash_plan repay_amount min_profit_margin_value = do
    seizure ← compute_seized config.dust_rules t repay_amount
    parts ← seizure_parts t seizure.0
    de_facto_seized_amount ← given (checked_add parts.0 parts.1)
    flash_fee ← dropping (compute_flash_fee repay_amount t.borrow_pool.flash_loan_fee_bps)
    let flash_repay_amount = saturating_add repay_amount flash_fee
    best ←
        best_swap_quote env config.swap_providers de_facto_seized_amount
          t.collateral_pool.token_address t.borrow_pool.token_address
    offer ← given best
    kept_bps ← dropping (plain_sub bps_factor config.max_allowed_swap_slippage_bps)
    amount_out_minus_slippage ←
        dropping (saturating_div (saturating_mul offer.1 kept_bps) bps_factor)
    guard (not (ltb_ℤ amount_out_minus_slippage flash_repay_amount))
    let refund = saturating_sub repay_amount seizure.1
    flash_repay_value ← worth (saturating_sub flash_repay_amount refund) t.borrow_pool
    received_collateral_value ← worth de_facto_seized_amount t.collateral_pool
    net ← acceptable_net received_collateral_value flash_repay_value min_profit_margin_value
    pure (new_plan t repay_amount net seizure.0 (flash flash_repay_amount offer.0 parts.1))

  -- What the wallet can swap of an asset; a failed query or nothing usable passes on.
  unfoldable pub swappable : String → M ℤ
  swappable source_asset = do
    answer ← get_balance env source_asset
    raw_balance ← given answer
    let balance = usable config source_asset raw_balance
    if ltb_ℤ (pos 0) balance then pure balance else stop

  -- The provider, what is swapped, and what comes out of it at least.
  unfoldable pub size_swap : String → (repay balance : ℤ) → M (String × ℤ × ℤ)
  size_swap source_asset max_profitable_repay balance = do
    base ←
        best_swap_base env config.swap_providers max_profitable_repay source_asset
          t.borrow_pool.token_address
    offer ← given base
    more_bps ← dropping (plain_add bps_factor config.max_allowed_swap_slippage_bps)
    max_amount_in_plus_slippage ← dropping (plain_div (saturating_mul offer.1 more_bps) bps_factor)
    let partly = do
      best ←
          best_swap_quote env config.swap_providers balance source_asset t.borrow_pool.token_address
      quoted ← given best
      kept_bps ← dropping (plain_sub bps_factor config.max_allowed_swap_slippage_bps)
      out ← dropping (plain_div (saturating_mul quoted.1 kept_bps) bps_factor)
      pure (quoted.0, balance, out)
    if leb_ℤ max_amount_in_plus_slippage balance
        then pure (offer.0, max_amount_in_plus_slippage, max_profitable_repay)
        else partly

  -- What the loop does up to the seizure; nothing is its `continue`.
  unfoldable pub size_preswap : LiquidationPair → ℤ → String → M ((String × ℤ × ℤ) × ℤ)
  size_preswap pair max_profitable_repay source_asset = do
    guard (not (str_eq source_asset t.borrow_pool.token_address))
    balance ← swappable source_asset
    sized ← size_swap source_asset max_profitable_repay balance
    repay_amount ← fit_or_skip pair sized.2 sized.2
    pure (sized, repay_amount)

  -- What follows the look-up of the source asset's pool.
  unfoldable pub judge_preswap :
      ℤ
      → String
      → (String × ℤ × ℤ)
      → (repay seized repaid : ℤ) → PoolData
      → M (Option LiquidationPlan)
  judge_preswap min_profit_margin_value source_asset sized repay_amount seized repaid source_pool =
      do
        refund_value ← worth (saturating_sub repay_amount repaid) t.borrow_pool
        spent ← worth sized.1 source_pool
        gain_value ← worth seized t.collateral_pool
        profitability ← dropping (
            compute_liquidation_profitability gain_value (saturating_sub spent refund_value)
              min_profit_margin_value)
        pure (
            if profitability.is_acceptable
            then some (
                new_plan t repay_amount profitability.net_value seized
                  (pre_swap source_asset sized.1 sized.2 sized.0))
            else none)

  unfoldable pub finish_preswap :
      ℤ → String → Option ((String × ℤ × ℤ) × ℤ) → M (Option LiquidationPlan)
  finish_preswap min_profit_margin_value source_asset none = pure none
  finish_preswap min_profit_margin_value source_asset (some (sized, repay_amount)) = do
    seizure ← compute_seized config.dust_rules t repay_amount
    elim (find (λ (p : PoolData). str_eq p.token_address source_asset) t.market_data.pools_data) [
      | none ↦ pure none
      | some source_pool ↦
          judge_preswap min_profit_margin_value source_asset sized repay_amount seizure.0 seizure.1
            source_pool
    ]

  unfoldable pub preswap_from :
      LiquidationPair
      → (repay min_profit_margin_value : ℤ) → List String
      → Option LiquidationPlan
      → M (Option LiquidationPlan)
  preswap_from pair max_profitable_repay min_profit_margin_value [] best = pure best
  preswap_from pair max_profitable_repay min_profit_margin_value (source_asset ∷ rest) best = do
    sized ← attempt (size_preswap pair max_profitable_repay source_asset)
    found ← finish_preswap min_profit_margin_value source_asset sized
    preswap_from pair max_profitable_repay min_profit_margin_value rest (keep_larger found best)

  unfoldable pub try_preswap_plan :
      LiquidationPair → (repay min_profit_margin_value : ℤ) → M LiquidationPlan
  try_preswap_plan pair max_profitable_repay min_profit_margin_value = do
    best ← preswap_from pair max_profitable_repay min_profit_margin_value config.assets_to_hold none
    given best
