-- ===== src/Gateway.antt =====
-- The operation builder and the batch simulator (engine/src/ports/operation_builder.rs).
use alula_liquidator.Prelude.{ℕ, String, Option, List}
use alula_liquidator.Prelude.Int.{ℤ}
use alula_liquidator.Market.{ObligationKey}

-- How a dry run ended.
pub data BatchSimulation : Type 0 where
  passed : BatchSimulation
  failed : (contract_code : Option ℕ) → BatchSimulation

-- The operation builder and the batch simulator; `none` is an error of theirs.
pub record Gateway (Op : Type 0) (Request : Type 0) : Type 0 where
  pub liquidate_request :
      (borrower : ObligationKey)
      → (borrow_pool collateral_pool : String) → (repay_amount min_collateral : ℤ) → Option Request
  pub flash_borrow_request : (pool : String) → (amount : ℤ) → Option Request
  pub withdraw_request : (pool : String) → (amount : ℤ) → Option Request
  pub swap_exact_tokens_request :
      (provider : String)
      → (amount_in min_amount_out : ℤ) → (from_token to_token : String) → Option Request
  pub batch_op : (market : String) → ObligationKey → List Request → Option Op
  pub simulate_batch : ℕ → (market : String) → ObligationKey → List Request → Option BatchSimulation
