-- ===== src/Tests/Pools.antt =====
-- The theorems on pools, searches and profitability, on concrete inputs.
use alula_liquidator.Prelude.{◌*◌, ◌+◌, ℕ, ◌≡◌, ◌≢◌, refl, ◌≤◌, ◌<◌, Bool, true, arith}
use alula_liquidator.Prelude.Int.{pos_part, ℤ, pos, ◌+ℤ◌, ◌-ℤ◌, ◌≤ℤ◌, ◌<ℤ◌, leb_ℤ, saturating_sub}
use alula_liquidator.Prelude.Outcome.{Outcome, ok}
use alula_liquidator.Amount.{bps_fixed_div_ceil}
use alula_liquidator.Pool.{
  compute_max_safe_withdrawal, available_for_borrow, utilization_ratio_bps,
  j_tokens_to_tokens_floor, tokens_to_j_tokens_floor,
}
use alula_liquidator.Pool.Convert.{IsWellFormed}
use alula_liquidator.Pool.Shares.{j_tokens_round_trip_floor}
use alula_liquidator.Pool.Utilization.{max_safe_withdrawal_stays_safe, max_safe_withdrawal_is_tight}
use alula_liquidator.Pool.Capacity.{max_safe_withdrawal_total, available_for_borrow_keeps_limit}
use alula_liquidator.Profitability.{
  compute_repay_cap_from_collateral, compute_liquidation_profitability, LiquidationProfitability,
}
use alula_liquidator.Profitability.Margin.{repay_cap_antitone}
use alula_liquidator.Liquidation.Search.{least, search_rounds}
use alula_liquidator.Liquidation.Search.Least.{IsLeast, least_finds}
use alula_liquidator.Tests.Data.{program, pool_a, pool_b}

pool_a-IsWellFormed : IsWellFormed pool_a
pool_a-IsWellFormed = record { supply = refl; borrowed = refl; j_tokens = refl; d_tokens = refl }

nonzero : (n : ℕ) → 0 < n → pos n ≢ pos 0
nonzero n h e = ground (arith, e)

largest_withdrawal : compute_max_safe_withdrawal pool_a (pos 500) ≡ ok (pos 411)
unfolding program
largest_withdrawal = refl

utilization_after :
    bps_fixed_div_ceil pool_a.total_borrowed (pool_a.total_supply -ℤ pos 411) ≡ ok (pos 8489)
unfolding program
utilization_after = refl

max_safe_withdrawal_stays_safe_example :
    (pos 8489 ≤ℤ saturating_sub (pos 9000) (pos 500)) × (pos 0 ≤ℤ pos 411) × (pos 411 ≤ℤ pos 1000)
max_safe_withdrawal_stays_safe_example =
    max_safe_withdrawal_stays_safe pool_a (pos 500) (pos 411) (pos 8489) pool_a-IsWellFormed
      largest_withdrawal (nonzero 411 (omega arith)) utilization_after

utilization_past :
    bps_fixed_div_ceil pool_a.total_borrowed (pool_a.total_supply -ℤ (pos 411 +ℤ pos 1))
    ≡ ok (pos 8504)
unfolding program
utilization_past = refl

max_safe_withdrawal_is_tight_example : saturating_sub (pos 9000) (pos 500) <ℤ pos 8504
max_safe_withdrawal_is_tight_example =
    max_safe_withdrawal_is_tight pool_a (pos 500) (pos 411) (pos 8504) pool_a-IsWellFormed
      largest_withdrawal (nonzero 411 (omega arith)) (omega arith) utilization_past

max_safe_withdrawal_total_example : (w : ℤ) × (compute_max_safe_withdrawal pool_a (pos 500) ≡ ok w)
max_safe_withdrawal_total_example =
    max_safe_withdrawal_total pool_a (pos 500) pool_a-IsWellFormed (omega arith) (omega arith)
      (omega arith) (omega arith)

borrowable : available_for_borrow pool_a ≡ ok (pos 400)
unfolding program
borrowable = refl

utilization_full :
    utilization_ratio_bps (record pool_a { total_borrowed = pool_a.total_borrowed +ℤ pos 400 })
    ≡ ok (pos 9000)
unfolding program
utilization_full = refl

available_for_borrow_keeps_limit_example :
    (pos 9000 ≤ℤ pool_a.utilization_ratio_limit_bps)
    × (pos_part (pool_a.total_borrowed +ℤ pos 400) * 10000
        < (pos_part pool_a.utilization_ratio_limit_bps + 1) * pos_part pool_a.total_supply)
available_for_borrow_keeps_limit_example =
    available_for_borrow_keeps_limit pool_a (pos 400) (pos 9000) pool_a-IsWellFormed (omega arith)
      borrowable (nonzero 400 (omega arith)) utilization_full

j_tokens_round_trip_floor_example :
    (t : ℤ) × (back : ℤ) × (j_tokens_to_tokens_floor pool_a (pos 70) ≡ ok t)
    × (tokens_to_j_tokens_floor pool_a t ≡ ok back)
    × (back ≤ℤ pos 70)
j_tokens_round_trip_floor_example =
    j_tokens_round_trip_floor pool_a (pos 70) pool_a-IsWellFormed refl (omega arith)

abbrev from_seven : ℤ → Outcome Bool
from_seven z = ok (leb_ℤ (pos 7) z)

from_seven_total : (x : ℕ) → 1 ≤ x → x ≤ 20 → (b : Bool) × (from_seven (pos x) ≡ ok b)
from_seven_total x l h = (leb_ℤ (pos 7) (pos x), refl)

least_finds_example :
    (n : ℕ) × (least search_rounds from_seven (pos 1) (pos 20) ≡ ok (pos n))
    × IsLeast from_seven 1 20 n
least_finds_example = least_finds from_seven 1 20 (omega arith) (omega arith) from_seven_total

narrow_cap :
    compute_repay_cap_from_collateral true pool_a
      (pos 300)
      pool_b
      (pos 450)
      (pos 2000)
      (pos 50)
      (pos 2250)
    ≡ ok (pos 164)
unfolding program
narrow_cap = refl

wide_cap :
    compute_repay_cap_from_collateral true pool_a
      (pos 300)
      pool_b
      (pos 450)
      (pos 2000)
      (pos 1)
      (pos 2250)
    ≡ ok (pos 213)
unfolding program
wide_cap = refl

repay_cap_antitone_example : (pos 164 ≤ℤ pos 213) × (pos 213 ≤ℤ pos 300)
repay_cap_antitone_example =
    repay_cap_antitone true pool_a pool_b (pos 300) (pos 450) (pos 2000) (pos 2250) (pos 1) (pos 50)
      (pos 213) (pos 164) (omega arith) wide_cap narrow_cap

abbrev verdict : LiquidationProfitability
verdict = record { net_value = pos 200; gain_value = pos 900; is_acceptable = true }

judged : compute_liquidation_profitability (pos 900) (pos 700) (pos 100) ≡ ok verdict
unfolding program
judged = refl
