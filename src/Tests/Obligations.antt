-- ===== src/Tests/Obligations.antt =====
-- The theorems on whole obligations, on concrete inputs.
use alula_liquidator.Prelude.{◌≡◌, refl, ◌↔◌, Bool, true, false, In, some}
use alula_liquidator.Prelude.Int.{pos}
use alula_liquidator.Prelude.Outcome.{ok}
use alula_liquidator.Market.{BorrowPosition, DepositPosition, pool_of, is_empty}
use alula_liquidator.Pool.{PoolData}
use alula_liquidator.Liquidation.Health.{
  sweep, no_dust, compute_is_liquidatable, compute_is_insolvent, compute_obligation_debt_value,
  compute_obligation_collateral_value,
}
use alula_liquidator.Liquidation.Health.Solvency.{IsInsolvent, compute_is_insolvent_iff}
use alula_liquidator.Liquidation.Health.Rules.{sweep_liquidatable-no_dust}
use alula_liquidator.Liquidation.Unpriced.{held_pools, unpriced_pools_touched}
use alula_liquidator.Liquidation.Unpriced.Sound.{Once, Unpriced, unpriced_pools_touched_exact}
use alula_liquidator.Liquidation.Scan.{has_acceptable_liquidation}
use alula_liquidator.Liquidation.Scan.Sound.{AcceptablePair, has_acceptable_liquidation-true}
use alula_liquidator.Tests.Data.{program, market, obligation}

debt_is : compute_obligation_debt_value obligation market ≡ ok (pos 2000)
unfolding program
debt_is = refl

collateral_is : compute_obligation_collateral_value obligation market ≡ ok (pos 2250)
unfolding program
collateral_is = refl

solvent : compute_is_insolvent obligation market ≡ ok false
unfolding program
solvent = refl

compute_is_insolvent_iff_example : (false ≡ true) ↔ IsInsolvent 9999 2000 2250
compute_is_insolvent_iff_example =
    compute_is_insolvent_iff obligation market 2000 2250 9999 false debt_is collateral_is refl
      solvent

liquidatable : compute_is_liquidatable obligation market sweep ≡ ok true
unfolding program
liquidatable = refl

sweep_liquidatable-no_dust_example : compute_is_liquidatable obligation market no_dust ≡ ok true
sweep_liquidatable-no_dust_example = sweep_liquidatable-no_dust obligation market liquidatable

unpriced_pools_touched_exact_example :
    Once (unpriced_pools_touched obligation market)
    × (In "pool-c" (unpriced_pools_touched obligation market)
        ↔ (In "pool-c" (held_pools obligation) × Unpriced market.pools_data "pool-c"))
unpriced_pools_touched_exact_example = unpriced_pools_touched_exact obligation market "pool-c"

acceptable : has_acceptable_liquidation obligation market (pos 0) 100 ≡ ok true
unfolding program
acceptable = refl

has_acceptable_liquidation-true_example :
    (is_empty (unpriced_pools_touched obligation market) ≡ true)
    × ((insolvent : Bool) × (b : BorrowPosition) × (p : PoolData) × (d : DepositPosition)
        × (c : PoolData) × (compute_is_insolvent obligation market ≡ ok insolvent)
        × In b obligation.borrows
        × In d obligation.deposits
        × (pool_of market b.pool_address ≡ some p)
        × (pool_of market d.pool_address ≡ some c)
        × AcceptablePair obligation market (pos 0) 100 insolvent p c d)
has_acceptable_liquidation-true_example =
    has_acceptable_liquidation-true obligation market (pos 0) 100 acceptable
