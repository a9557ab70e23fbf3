-- ===== src/Tests/Pairs.antt =====
-- The theorems on one pair and its offers, on concrete inputs.
use alula_liquidator.Prelude.{ℕ, ◌≡◌, refl, ◌-◌, ◌≤◌, ◌⊎◌, true, false, some, arith}
use alula_liquidator.Prelude.Int.{ℤ, pos, min_ℤ, ◌≤ℤ◌, ◌<ℤ◌, plain_sub, checked_add}
use alula_liquidator.Prelude.Outcome.{ok, m_ou}
use alula_liquidator.Liquidation.Health.{fixed_mul_floor}
use alula_liquidator.Liquidation.Seize.{compute_expected_seized_collateral}
use alula_liquidator.Liquidation.Seize.Bounds.{SweepsDust, seized_collateral_bounds}
use alula_liquidator.Liquidation.Pair.{
  accepted, position_collateral, lifts_close_factor, is_over_close_factor, buys, quote_no_dust,
}
use alula_liquidator.Liquidation.Pair.Quote.{LeavesNoDust, quote_no_dust-accepted}
use alula_liquidator.Liquidation.Fit.{accepts, fit_repay, largest_partial_repay, repay_buying}
use alula_liquidator.Liquidation.Fit.Partial.{IsLargestPartial, largest_partial_repay-some}
use alula_liquidator.Liquidation.Fit.Offer.{fit_repay-accepted}
use alula_liquidator.Liquidation.Fit.Clear.{repay_buying-some}
use alula_liquidator.Tests.Data.{program, pool_a, pool_b, deposit_b, pair}

fitted : fit_repay pair (pos 50) (pos 100) ≡ ok (some (pos 50))
unfolding program
fitted = refl

fit_repay-accepted_example : (accepts pair (pos 50) ≡ ok true) × (pos 50 ≤ℤ pos 100)
fit_repay-accepted_example =
    fit_repay-accepted pair (pos 50) (pos 100) (pos 50) refl (omega arith) (omega arith) fitted

held_collateral : position_collateral pair ≡ ok (pos 450)
unfolding program
held_collateral = refl

quoted : quote_no_dust pair (pos 100) ≡ ok (accepted (pos 210) (pos 100))
unfolding program
quoted = refl

quote_no_dust-accepted_example :
    (pos 210 ≤ℤ pos 450)
    × (pos 100 ≤ℤ pos 100)
    × (pos 100 ≤ℤ pair.position_debt)
    × ((lifts_close_factor pair ≡ ok true)
        ⊎ (is_over_close_factor pair (min_ℤ (pos 100) pair.position_debt) ≡ ok false))
    × ((cl : ℤ) × (dl : ℤ) × (plain_sub (pos 450) (pos 210) ≡ ok cl)
        × (plain_sub pair.position_debt (pos 100) ≡ ok dl)
        × LeavesNoDust pair cl dl)
quote_no_dust-accepted_example =
    quote_no_dust-accepted pair (pos 100) (pos 450) (pos 210) (pos 100) (omega arith) (omega arith)
      held_collateral (omega arith) (omega arith) (omega arith) quoted

partial : largest_partial_repay pair (pos 90) ≡ ok (some (pos 90))
unfolding program
partial = refl

largest_partial_repay-some_example :
    (accepts pair (pos 90) ≡ ok true)
    × ((n : ℕ) × (pos 90 ≡ pos n) × (1 ≤ n) × (pos n ≤ℤ pos 90) × IsLargestPartial pair (pos 90) n)
largest_partial_repay-some_example =
    largest_partial_repay-some pair (pos 90) (pos 90) (omega arith) partial

clearing_repay : repay_buying pair true (pos 300) (pos 200) ≡ ok (some (pos 143))
unfolding program
clearing_repay = refl

repay_buying-some_example :
    (n : ℕ) × (pos 143 ≡ pos n)
    × (1 ≤ n)
    × (n ≤ 200)
    × ((b : ℤ) × (buys pair (pos n) true ≡ ok b) × (pos 300 ≤ℤ b))
    × ((n ≡ 1) ⊎ ((b : ℤ) × (buys pair (pos (n - 1)) true ≡ ok b) × (b <ℤ pos 300)))
repay_buying-some_example =
    repay_buying-some pair true (pos 300) (pos 143) 200 (omega arith) (omega arith) clearing_repay

position_sum :
    m_ou (
      checked_add
        (fixed_mul_floor deposit_b.j_tokens pool_b.j_token_rate_floor_bps)
        deposit_b.collateral)
    ≡ ok (pos 450)
unfolding program
position_sum = refl

seized :
    compute_expected_seized_collateral
      (pos 100)
      pool_a
      pool_b
      deposit_b
      (pos 2000)
      (pos 2250)
      false
      (pos 10)
      2
    ≡ ok (pos 210)
unfolding program
seized = refl

seized_collateral_bounds_example :
    (pos 0 ≤ℤ pos 210) × (pos 210 ≤ℤ pos 450) × SweepsDust (pos 210) (pos 450) pool_b (pos 10) 2
seized_collateral_bounds_example =
    seized_collateral_bounds (pos 100) pool_a pool_b deposit_b (pos 2000) (pos 2250) false (pos 10)
      2 (pos 450) (pos 210) position_sum (omega arith) seized
