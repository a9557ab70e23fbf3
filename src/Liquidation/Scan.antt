-- ===== src/Liquidation/Scan.antt =====
-- The scans over an obligation (`has_acceptable_liquidation` and `seizable_collateral_covers_debt` of
-- liquidation.rs).
pub mod Sound
use alula_liquidator.Prelude.{
  ℕ, Bool, true, false, Option, some, none, ◌&&◌, ◌||◌, List, [], ◌∷◌, if◌then◌else◌, str_eq,
}
use alula_liquidator.Prelude.Outcome.{Outcome, ok, err, panic, internal_error, m_ou, ok_or, ◌>>=◌}
use alula_liquidator.Prelude.Int.{ℤ, pos, leb_ℤ, ltb_ℤ, eqb_ℤ, checked_add}
use alula_liquidator.Pool.{
  PoolData, d_tokens_to_tokens_ceil, j_tokens_to_tokens_floor, tokens_to_d_tokens_floor,
}
use alula_liquidator.Market.{
  MarketData, Obligation, DepositPosition, BorrowPosition, pool_of, is_empty,
}
use alula_liquidator.Liquidation.Health.{no_dust, value_floor, value_ceil, compute_is_insolvent}
use alula_liquidator.Liquidation.Unpriced.{unpriced_pools_touched}
use alula_liquidator.Liquidation.Pair.{
  LiquidationPair, Seizure, accepted, over_close_factor, leaves_dust, new_pair, accruing_until,
  quote,
}
use alula_liquidator.Liquidation.Fit.{to_option, direct_repay, nets_more_than}

-- The repay clears the debt, or burns at least one d-token.
unfoldable pub burns_share : LiquidationPair → ℤ → Outcome Bool
burns_share pair repaid =
    let shares = do
      burned ← tokens_to_d_tokens_floor pair.borrow_pool repaid
      ok (ltb_ℤ (pos 0) burned)
    in if eqb_ℤ repaid pair.position_debt then ok true else shares

-- The conditions that follow the quote.
unfoldable pub judge_seizure : LiquidationPair → ℤ → Seizure → Outcome Bool
judge_seizure pair min_profit_margin_cents (accepted seized repaid) =
    let judged = do
      burns ← burns_share pair repaid
      let nets = nets_more_than pair seized repaid min_profit_margin_cents
      if burns then nets else ok false
    in if ltb_ℤ (pos 0) seized then judged else ok false
judge_seizure pair min_profit_margin_cents over_close_factor = ok false
judge_seizure pair min_profit_margin_cents leaves_dust = ok false

unfoldable pub judge_repay : LiquidationPair → ℤ → Option ℤ → Outcome Bool
judge_repay pair min_profit_margin_cents none = ok false
judge_repay pair min_profit_margin_cents (some repay) = do
  seizure ← quote pair repay
  judge_seizure pair min_profit_margin_cents seizure

-- The body of the inner loop: whether the pair has an acceptable plan.
unfoldable pub judge_pair :
    Obligation → MarketData → ℤ → ℕ → Bool → PoolData → PoolData → DepositPosition → Outcome Bool
judge_pair obligation market min_profit_margin_cents now is_insolvent borrow_pool collateral_pool
      deposit =
    let judged = do
      fresh ← new_pair no_dust obligation market borrow_pool collateral_pool deposit is_insolvent
      pair ← accruing_until fresh now
      repay ← direct_repay pair min_profit_margin_cents
      judge_repay pair min_profit_margin_cents repay
    in if str_eq collateral_pool.pool_address borrow_pool.pool_address
        || leb_ℤ collateral_pool.close_ltv_bps (pos 0)
      then ok false
      else judged

-- The inner loop; it ends at the first acceptable pair.
unfoldable pub scan_deposits :
    (DepositPosition → PoolData → Outcome Bool) → MarketData → List DepositPosition → Outcome Bool
scan_deposits judge market [] = ok false
scan_deposits judge market (deposit ∷ rest) =
    let next = scan_deposits judge market rest in
    do
      collateral_pool ← ok_or (pool_of market deposit.pool_address) internal_error
      acceptable ← judge deposit collateral_pool
      if acceptable then ok true else next

unfoldable pub scan_borrows :
    (PoolData → DepositPosition → PoolData → Outcome Bool)
    → MarketData
    → List DepositPosition
    → List BorrowPosition
    → Outcome Bool
scan_borrows judge market deposits [] = ok false
scan_borrows judge market deposits (borrow ∷ rest) =
    let next = scan_borrows judge market deposits rest in
    do
      borrow_pool ← ok_or (pool_of market borrow.pool_address) internal_error
      acceptable ← scan_deposits (judge borrow_pool) market deposits
      if acceptable then ok true else next

unfoldable pub has_acceptable_liquidation : Obligation → MarketData → ℤ → ℕ → Outcome Bool
has_acceptable_liquidation obligation market min_profit_margin_cents now =
    let scanned = do
      is_insolvent ← compute_is_insolvent obligation market
      scan_borrows
          (λ borrow_pool deposit collateral_pool.
            judge_pair obligation market min_profit_margin_cents now is_insolvent borrow_pool
              collateral_pool deposit)
          market obligation.deposits obligation.borrows
    in if is_empty (unpriced_pools_touched obligation market) then scanned else ok false

-- One borrow of the first loop of `seizable_collateral_covers_debt`: `none` is the `return Ok(false)`.
unfoldable pub covered_debt_step : ℤ → BorrowPosition → Option PoolData → Outcome (Option ℤ)
covered_debt_step total borrow none = ok none
covered_debt_step total borrow (some p) = do
  value ← to_option (do debt ← d_tokens_to_tokens_ceil p borrow.d_tokens; value_ceil debt p)
  elim value [ none ↦ ok none | some v ↦ ok (checked_add total v) ]

unfoldable pub covered_debt : MarketData → List BorrowPosition → ℤ → Outcome (Option ℤ)
covered_debt market [] total = ok (some total)
covered_debt market (borrow ∷ rest) total = do
  sum ← covered_debt_step total borrow (pool_of market borrow.pool_address)
  elim sum [ none ↦ ok none | some s ↦ covered_debt market rest s ]

-- The second loop: the collateral in pools with a positive close LTV.
unfoldable pub seizable_collateral : MarketData → List DepositPosition → ℤ → Outcome ℤ
seizable_collateral market [] total = ok total
seizable_collateral market (deposit ∷ rest) total = do
  p ← ok_or (pool_of market deposit.pool_address) internal_error
  let counted = do
    supplied ← j_tokens_to_tokens_floor p deposit.j_tokens
    tokens ← m_ou (checked_add supplied deposit.collateral)
    value ← value_floor tokens p
    m_ou (checked_add total value)
  sum ← (if leb_ℤ p.close_ltv_bps (pos 0) then ok total else counted)
  seizable_collateral market rest sum

unfoldable pub compare_cover : MarketData → List DepositPosition → Option ℤ → Outcome Bool
compare_cover market deposits none = ok false
compare_cover market deposits (some debt) = do
  collateral ← seizable_collateral market deposits (pos 0)
  ok (ltb_ℤ (pos 0) collateral && leb_ℤ debt collateral)

unfoldable pub seizable_collateral_covers_debt : Obligation → MarketData → Outcome Bool
seizable_collateral_covers_debt obligation market = do
  debt ← covered_debt market obligation.borrows (pos 0)
  compare_cover market obligation.deposits debt
