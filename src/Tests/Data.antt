-- ===== src/Tests/Data.antt =====
-- The concrete pools, positions and pairs that the examples run on, and `program`, which opens every
-- definition of the model at once.
use alula_liquidator.World.{reserve_now, release_now}
use alula_liquidator.Maps.{lookup, insert_at}
use alula_liquidator.Prelude.{[], ◌∷◌, false}
use alula_liquidator.Prelude.Int.{pos}
use alula_liquidator.Pool.{PoolData}
use alula_liquidator.Market.{MarketData, BorrowPosition, DepositPosition, Obligation}
use alula_liquidator.Liquidation.Health.{no_dust}
use alula_liquidator.Liquidation.Pair.{LiquidationPair, initial_margin}
use alula_liquidator.Prelude.Int.{
  checked, saturate, plain, checked_add, checked_sub, checked_mul, checked_div, checked_neg,
  checked_abs, checked_pow10, pow10, saturating_pow10, saturating_add, saturating_sub,
  saturating_mul, saturating_div, plain_add, plain_sub, plain_div,
}
use alula_liquidator.Amount.{
  mul_div_floor, mul_div_ceil, checked_mul_div_floor, checked_mul_div_ceil, bps_fixed_div_ceil,
  bps_fixed_div_floor, checked_div_floor, checked_div_ceil, scale_with_bps_floor,
  scale_with_bps_ceil,
}
use alula_liquidator.Pool.{
  is_flash_loan_enabled, accrued, accrual_since_update_bps, utilization_ratio_bps,
  available_for_borrow, j_tokens_to_tokens_floor, j_tokens_to_tokens_ceil, tokens_to_j_tokens_floor,
  tokens_to_j_tokens_ceil, d_tokens_to_tokens_floor, d_tokens_to_tokens_ceil,
  tokens_to_d_tokens_floor, tokens_to_d_tokens_ceil, compute_max_safe_withdrawal,
}
use alula_liquidator.Profitability.{
  compute_flash_fee, cents_to_oracle_value_ceil, value_to_underlying_asset_amount_ceil,
  compute_profit_margin_in_borrow_token, effective_incentive_bps, max_repay_borrow_units,
  compute_repay_cap_from_collateral, compute_liquidation_profitability,
}
use alula_liquidator.Market.{prices_nothing, pool_of, new_key, new_key_with_seed, seed_as_str}
use alula_liquidator.Liquidation.Health.{
  fixed_mul_floor, fixed_mul_ceil, token_factor, value_floor, value_ceil, amount_floor, amount_ceil,
  min_collateral_value, debt_value, collateral_value, scaled_debt, scaled_collateral,
  holds_collateral, has_any_collateral, judge_health, compute_is_liquidatable, sum_debt,
  compute_obligation_debt_value, sum_collateral, compute_obligation_collateral_value,
  compute_is_insolvent, compute_close_factor_repay_cap,
}
use alula_liquidator.Liquidation.Unpriced.{
  is_priced, contains, held_pools, collect_unpriced, unpriced_pools_touched,
}
use alula_liquidator.Liquidation.Seize.{
  with_incentive, ltv_collateral, sweep_dust, compute_expected_seized_collateral,
}
use alula_liquidator.Liquidation.Search.{lower_mid, upper_mid, least, greatest}
use alula_liquidator.Liquidation.Pair.{
  new_pair, accruing_until, with_margin, supplied_tokens, position_collateral, dust_floor,
  is_small_position, lifts_by_rules, lifts_close_factor, incentive_bps, buys, whole_position_repay,
  leaves_dust_under_floor, is_over_close_factor, charge, settle, check_and_settle, quote_no_dust,
  quote_by, quote,
}
use alula_liquidator.Liquidation.Fit.{
  to_option, buys_target, repay_buying, grown, padded_offer, clearing, keeps_both_sides, accepts,
  offer_or, largest_partial_repay, fit_by_clearing, fit_repay, fit_positive, direct_repay,
  saturating_value, nets_more_than,
}
use alula_liquidator.Liquidation.Scan.{
  burns_share, judge_seizure, judge_repay, judge_pair, scan_deposits, scan_borrows,
  has_acceptable_liquidation, covered_debt_step, covered_debt, seizable_collateral, compare_cover,
  seizable_collateral_covers_debt,
}
use alula_liquidator.Capital.{
  retain_fresh, unlock_expired, remove_reservation, committed, insert_reservation, reserve, release,
  lookup_balance, if_fresh, get_freshly_cached_balance, insert_balance, store_read, serve_balance,
  try_get_balance,
}
use alula_liquidator.BadDebt.{
  deposit_value, all_under, left_to_liquidation, is_eligible_for_bad_debt_request_issuance,
  judge_eligibility, build_issue_bad_debt, recheck, sweep_obligation, sweep_obligations,
  sweep_market, sweep_markets, request_on_new_ledger, request_for, request_on_event,
}
use alula_liquidator.Withdrawer.{
  lookup_event, try_from, increases_liquidity, plain_add_u32, value_of,
  compute_withdrawal_value_cents, requested, build_withdrawal_action, judge_value, judge_position,
  judge_deposit, withdrawals_from, find_withdrawal_opportunities, scan_market, scan_markets,
  handle_new_ledger, handle_soroban_event,
}
use alula_liquidator.World.{look, await, get_balance}
use alula_liquidator.Liquidator.{age}
use alula_liquidator.Liquidator.Quotes.{
  improve, best_out_from, best_swap_quote, best_in_from, best_swap_base,
}
use alula_liquidator.Liquidator.Plans.{
  worth, liquidation_pair, compute_seized, fit_or_skip, acceptable_net, try_direct_plan,
  seizure_parts, usable, keep_larger, try_flash_plan, swappable, size_swap, size_preswap,
  judge_preswap, finish_preswap, preswap_from, try_preswap_plan,
}
use alula_liquidator.Liquidator.Build.{
  cents_value, positive_cap, position_of, size_position, direct_candidate, flash_size,
  flash_candidate, preswap_candidate, max_by_repay, build_liquidation_plan,
}
use alula_liquidator.Liquidator.Dispatch.{
  all_of, reserve_of, liquidate_of, with_withdrawal, requests_of, build_batch_requests, acquire,
  hand_over, after_simulation, try_dispatch, execute_liquidation_plan,
}
use alula_liquidator.Liquidator.Evaluate.{
  keep_better, is_empty_deposit, plan_for_deposit, best_over_deposits, best_over_borrows,
  replan_pair, after_dispatch, try_liquidate, judge_obligation, judge_rows, judge_snapshot,
  evaulate_market, evaulate_markets,
}
use alula_liquidator.Liquidator.Cache.{
  insert_row, remove_row, upsert_obligation, remove_at, delete_obligation,
  apply_obligation_snapshot, apply_read, save_cursor, reread_obligation, on_position,
  on_liquidation, on_issue, apply_event, apply_decoded, liquidator_on_event, install_snapshot,
  load_rows, install_read, refresh_markets, refresh_market_data, sync_markets, sync_state,
  liquidate_on_new_ledger,
}
use alula_liquidator.Balancer.{
  seized_asset, try_parse_asset_from_liquidate_event, withdrawn_asset,
  try_parse_asset_from_withdraw_event, asset_by, asset_to_swap, is_swap_reasonable, index_pools,
  update_asset_index, probe_from, probe_provider, take_larger, best_provider_from, swappable_of,
  min_amount_out_of, submit_swap, evaluate_rebalancable_candidate, oracle_price_of, rebalance_from,
  first_held, find_indexed_actions, find_rebalance_actions, rebalance_market,
  rebalance_on_new_ledger, rebalance_on_event,
}
use alula_liquidator.Balancer.Impact.{price_sides, compute_swap_price_impact}
use alula_liquidator.Balancer.Value.{cents_of, compute_value_cents}
use alula_liquidator.Execute.Submit.{
  next_seq_num, release_hook, paused, after_sending, after_account, submit_from, after_submission,
  execute, spawn_confirmation_poll,
}

unfoldable pub program : Unit {0}
unfolding checked saturate plain checked_add checked_sub checked_mul checked_div checked_neg
    checked_abs checked_pow10 pow10 saturating_pow10 saturating_add saturating_sub saturating_mul
    saturating_div plain_add plain_sub plain_div mul_div_floor mul_div_ceil checked_mul_div_floor
    checked_mul_div_ceil bps_fixed_div_ceil bps_fixed_div_floor checked_div_floor checked_div_ceil
    scale_with_bps_floor scale_with_bps_ceil is_flash_loan_enabled accrued accrual_since_update_bps
    utilization_ratio_bps available_for_borrow j_tokens_to_tokens_floor j_tokens_to_tokens_ceil
    tokens_to_j_tokens_floor tokens_to_j_tokens_ceil d_tokens_to_tokens_floor
    d_tokens_to_tokens_ceil tokens_to_d_tokens_floor tokens_to_d_tokens_ceil
    compute_max_safe_withdrawal compute_flash_fee cents_to_oracle_value_ceil
    value_to_underlying_asset_amount_ceil compute_profit_margin_in_borrow_token
    effective_incentive_bps max_repay_borrow_units compute_repay_cap_from_collateral
    compute_liquidation_profitability prices_nothing pool_of new_key new_key_with_seed seed_as_str
    fixed_mul_floor fixed_mul_ceil token_factor value_floor value_ceil amount_floor amount_ceil
    min_collateral_value debt_value collateral_value scaled_debt scaled_collateral holds_collateral
    has_any_collateral judge_health compute_is_liquidatable sum_debt compute_obligation_debt_value
    sum_collateral compute_obligation_collateral_value compute_is_insolvent
    compute_close_factor_repay_cap is_priced contains held_pools collect_unpriced
    unpriced_pools_touched with_incentive ltv_collateral sweep_dust
    compute_expected_seized_collateral lower_mid upper_mid least greatest new_pair accruing_until
    with_margin supplied_tokens position_collateral dust_floor is_small_position lifts_by_rules
    lifts_close_factor incentive_bps buys whole_position_repay leaves_dust_under_floor
    is_over_close_factor charge settle check_and_settle quote_no_dust quote_by quote to_option
    buys_target repay_buying grown padded_offer clearing keeps_both_sides accepts offer_or
    largest_partial_repay fit_by_clearing fit_repay fit_positive direct_repay saturating_value
    nets_more_than burns_share judge_seizure judge_repay judge_pair scan_deposits scan_borrows
    has_acceptable_liquidation covered_debt_step covered_debt seizable_collateral compare_cover
    seizable_collateral_covers_debt retain_fresh unlock_expired remove_reservation committed
    insert_reservation reserve release lookup_balance if_fresh get_freshly_cached_balance
    insert_balance store_read serve_balance try_get_balance lookup_event try_from
    increases_liquidity plain_add_u32 value_of compute_withdrawal_value_cents requested
    build_withdrawal_action judge_value judge_position judge_deposit withdrawals_from
    find_withdrawal_opportunities scan_market scan_markets handle_new_ledger handle_soroban_event
    deposit_value all_under left_to_liquidation is_eligible_for_bad_debt_request_issuance
    judge_eligibility build_issue_bad_debt recheck sweep_obligation sweep_obligations sweep_market
    sweep_markets request_on_new_ledger request_for request_on_event look await get_balance age
    improve best_out_from best_swap_quote best_in_from best_swap_base worth liquidation_pair
    compute_seized fit_or_skip acceptable_net try_direct_plan seizure_parts usable keep_larger
    try_flash_plan swappable size_swap size_preswap judge_preswap finish_preswap preswap_from
    try_preswap_plan cents_value positive_cap position_of size_position direct_candidate flash_size
    flash_candidate preswap_candidate max_by_repay build_liquidation_plan all_of reserve_of
    reserve_now release_now liquidate_of with_withdrawal requests_of build_batch_requests acquire
    hand_over after_simulation try_dispatch execute_liquidation_plan lookup keep_better
    is_empty_deposit plan_for_deposit best_over_deposits best_over_borrows replan_pair
    after_dispatch try_liquidate judge_obligation judge_rows judge_snapshot evaulate_market
    evaulate_markets insert_at insert_row remove_row upsert_obligation remove_at delete_obligation
    apply_obligation_snapshot apply_read save_cursor reread_obligation on_position on_liquidation
    on_issue apply_event apply_decoded liquidator_on_event install_snapshot load_rows install_read
    refresh_markets refresh_market_data sync_markets sync_state liquidate_on_new_ledger seized_asset
    try_parse_asset_from_liquidate_event withdrawn_asset try_parse_asset_from_withdraw_event
    asset_by asset_to_swap is_swap_reasonable index_pools update_asset_index probe_from
    probe_provider take_larger best_provider_from swappable_of min_amount_out_of submit_swap
    evaluate_rebalancable_candidate oracle_price_of rebalance_from first_held find_indexed_actions
    find_rebalance_actions rebalance_market rebalance_on_new_ledger rebalance_on_event price_sides
    compute_swap_price_impact cents_of compute_value_cents next_seq_num release_hook paused
    after_sending after_account submit_from after_submission execute spawn_confirmation_poll
program = tt

abbrev pub pool_a : PoolData
pool_a = record {
  total_supply = pos 1000;
  open_ltv_bps = pos 7000;
  close_ltv_bps = pos 8000;
  token_decimals = 1;
  token_symbol = "USDC";
  pool_address = "pool-a";
  total_borrowed = pos 500;
  total_d_tokens = pos 400;
  token_address = "usdc";
  total_j_tokens = pos 900;
  total_available = pos 500;
  total_collateral = pos 0;
  oracle_asset_price = pos 100;
  flash_loan_fee_bps = pos 5;
  status_flags = 8;
  liability_factor_bps = pos 10000;
  d_token_rate_ceil_bps = pos 12500;
  j_token_rate_floor_bps = pos 11111;
  total_available_adjusted = pos 500;
  utilization_ratio_limit_bps = pos 9000;
  liquidation_close_factor_bps = pos 5000;
  max_liquidation_incentive_bps = pos 500;
  last_accrual_timestamp = 100;
  borrow_apy_bps = pos 0;
  supply_apy_bps = pos 0;
}

abbrev pub pool_b : PoolData
pool_b = record pool_a {
  token_symbol = "XLM";
  pool_address = "pool-b";
  token_address = "xlm";
  oracle_asset_price = pos 50;
  total_borrowed = pos 0;
  total_d_tokens = pos 0;
  total_j_tokens = pos 1000;
  j_token_rate_floor_bps = pos 10000;
}

abbrev pub market : MarketData
market = record {
  insolvency_ltv_bps = pos 10000;
  pools_data = pool_a ∷ pool_b ∷ [];
  oracle_price_decimals = 2;
  min_collateral_value_cents = pos 10;
  unavailable_pools = [];
}

-- 200 tokens of debt at a price of 100 against 450 of collateral at 50.
abbrev pub borrow_a : BorrowPosition
borrow_a = record { d_tokens = pos 160; pool_address = "pool-a" }

abbrev pub deposit_b : DepositPosition
deposit_b = record { j_tokens = pos 450; collateral = pos 0; pool_address = "pool-b" }

abbrev pub obligation : Obligation
obligation = record {
  borrows = borrow_a ∷ [];
  deposits = deposit_b ∷ [];
  open_bad_debt_requests = 0;
}

abbrev pub pair : LiquidationPair
pair = record {
  rules = no_dust;
  borrow_pool = pool_a;
  collateral_pool = pool_b;
  deposit = deposit_b;
  position_debt = pos 200;
  obligation_debt_value = pos 2000;
  obligation_collateral_value = pos 2250;
  is_insolvent = false;
  min_collateral_value_cents = pos 10;
  oracle_price_decimals = 2;
  debt_accrual_bps = pos 0;
  supply_accrual_bps = pos 0;
  margin = initial_margin;
}
