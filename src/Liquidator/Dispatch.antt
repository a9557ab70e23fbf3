-- ===== src/Liquidator/Dispatch.antt =====
-- From a plan to an action (`build_batch_requests` and `execute_liquidation_plan` of liquidator.rs).
pub mod Funds
pub mod Backed
use alula_liquidator.World.{reserve_now, release_now}
use alula_liquidator.Gateway.{BatchSimulation, passed, failed, Gateway}
use alula_liquidator.Prelude.{
  ℕ, suc, String, Bool, true, false, ◌==◌, Option, some, none, List, [], ◌∷◌, if◌then◌else◌,
}
use alula_liquidator.Prelude.Outcome.{Outcome, ok, err, panic}
use alula_liquidator.Prelude.Int.{ℤ, pos, ltb_ℤ}
use alula_liquidator.Market.{ObligationKey}
use alula_liquidator.Capital.{
  CapitalInner, ReserveResult, reserved, internal_error, not_enough_available_balance, reserve,
  release,
}
use alula_liquidator.Execute.{Action, submit_tx}
use alula_liquidator.World.{
  Surroundings, World, Run, value, nothing, panics, M, pure, stop, given, attempt, asked, look,
  await, get_balance, ◌>>=◌, ◌>>◌,
}
use alula_liquidator.Liquidator.{
  LiquidatorConfig, LiquidationPlan, LiquidationType, direct, pre_swap, flash,
}
use alula_liquidator.Liquidator.Plans.{usable}

-- Why a plan was not handed to the executor.
pub data Undispatched : Type 0 where
  leaves_dust other : Undispatched

pub data Dispatch (Op : Type 0) : Type 0 where
  dispatched : Action Op → Dispatch Op
  undispatched : Undispatched → Dispatch Op

-- `LIQUIDATION_LEAVES_DUST_CODE`
abbrev liquidation_leaves_dust_code : ℕ
liquidation_leaves_dust_code = 606

-- The pushes of a chain of requests; one that fails fails them all.
unfoldable pub all_of {ℓ} : {A : Type ℓ} → List (Option A) → Option (List A)
all_of [] = some []
all_of (none ∷ rest) = none
all_of (some a ∷ rest) = elim (all_of rest) [ none ↦ none | some others ↦ some (a ∷ others) ]

-- The token that a plan spends from the wallet, and how much of it.
unfoldable pub reserve_of : LiquidationPlan → LiquidationType → String × ℤ
reserve_of plan direct = (plan.borrow_pool_address, plan.repay_amount)
reserve_of plan (pre_swap source_asset source_amount_in _ _) = (source_asset, source_amount_in)
reserve_of plan (flash _ _ _) = (plan.borrow_pool_address, pos 0)

abbrev why_failed : Option ℕ → Undispatched
why_failed none = other
why_failed (some code) = if code == liquidation_leaves_dust_code then leaves_dust else other

module _ {Op : Type 0} {Request : Type 0} (gateway : Gateway Op Request) where
  unfoldable pub liquidate_of : LiquidationPlan → Option Request
  liquidate_of plan =
      gateway.liquidate_request plan.borrower_key plan.borrow_pool_address
        plan.collateral_pool_address plan.repay_amount plan.expected_seized_collateral

  -- The withdrawal of a flash plan, when there is one.
  unfoldable pub with_withdrawal :
      LiquidationPlan → ℤ → List (Option Request) → List (Option Request)
  with_withdrawal plan immediate_withdraw_amount rest =
      if ltb_ℤ (pos 0) immediate_withdraw_amount
      then gateway.withdraw_request plan.collateral_pool_address immediate_withdraw_amount ∷ rest
      else rest

  unfoldable pub requests_of : LiquidationPlan → LiquidationType → List (Option Request)
  requests_of plan (flash flash_repay_amount swap_provider immediate_withdraw_amount) =
      gateway.flash_borrow_request plan.borrow_pool_address plan.repay_amount
      ∷ liquidate_of plan
      ∷ with_withdrawal plan immediate_withdraw_amount (
          gateway.swap_exact_tokens_request swap_provider plan.expected_seized_collateral
            flash_repay_amount plan.collateral_pool_address plan.borrow_pool_address
          ∷ [])
  requests_of plan (pre_swap source_asset source_amount_in min_amount_out swap_provider) =
      gateway.swap_exact_tokens_request swap_provider source_amount_in min_amount_out source_asset
        plan.borrow_pool_address
      ∷ liquidate_of plan
      ∷ []
  requests_of plan direct = liquidate_of plan ∷ []

  unfoldable pub build_batch_requests : LiquidationPlan → Option (List Request)
  build_batch_requests plan = all_of (requests_of plan plan.liquidation_type)

  module _ (env : Surroundings) (config : LiquidatorConfig) (skey : String) where
    -- The id of the reservation, or a fresh one where nothing is reserved.
    unfoldable pub acquire : String × ℤ → M ℕ
    acquire (token, amount) =
        let held = do
          answer ← get_balance env token
          raw_balance ← given answer
          reserve_now env amount (usable config token raw_balance) token
        in if ltb_ℤ (pos 0) amount then held else look env.random_id

    -- The action with the plan's value in its settle hook.
    abbrev pub submission : String → LiquidationPlan → ℕ → Op → Action Op
    submission market plan op_id op = submit_tx (record {
      op = op;
      signing_key = skey;
      max_submission_retries = config.max_retries;
      on_settle = some (record {
        op_id = op_id;
        liquidation_outcome =
            some (record { market = market; expected_net_value = plan.net_profit_value });
      });
    })

    unfoldable pub hand_over : String → LiquidationPlan → ℕ → Option Op → M (Dispatch Op)
    hand_over market plan op_id (some op) = pure (dispatched (submission market plan op_id op))
    hand_over market plan op_id none = release_now op_id >> pure (undispatched other)

    unfoldable pub after_simulation :
        String → LiquidationPlan → ObligationKey → List Request → BatchSimulation → M (Dispatch Op)
    after_simulation market plan key requests (failed contract_code) =
        pure (undispatched (why_failed contract_code))
    after_simulation market plan key requests passed = do
      op_id ← acquire (reserve_of plan plan.liquidation_type)
      hand_over market plan op_id (gateway.batch_op market key requests)

    unfoldable pub try_dispatch : String → LiquidationPlan → ObligationKey → M (Dispatch Op)
    try_dispatch market plan key = do
      requests ← given (build_batch_requests plan)
      answer ← await env (λ n. gateway.simulate_batch n market key requests)
      simulation ← given answer
      after_simulation market plan key requests simulation

    -- An early `return Err(Undispatched::Other)` is a nothing of `try_dispatch`.
    unfoldable pub execute_liquidation_plan :
        String → LiquidationPlan → ObligationKey → M (Dispatch Op)
    execute_liquidation_plan market plan key = do
      result ← attempt (try_dispatch market plan key)
      pure (elim result [ none ↦ undispatched other | some d ↦ d ])
